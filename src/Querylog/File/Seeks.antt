-- ===== src/Querylog/File/Seeks.antt =====
-- The binary search of qlogfile.go for a time stamp.
use null_private.Prelude.{
  ℕ, zero, suc, ◌+◌, ◌-◌, ◌*◌, ◌≤◌, ◌<◌, ◌≡◌, ◌≢◌, sym, ap, ap₂, ◌∙◌, subst, true, false, none,
  some, List, [], ◌∷◌, arith, length, length-drop, take, drop,
}
use null_private.Prelude.Int.{ℤ, pos, ltb_ℤ, eqb_ℤ}
use null_private.Querylog.File.{
  Buffer, LogLine, OsFile, Probe, newline, line_start, line_end, slice, copy, zeros, seek_of,
  relative_of, end_of_line, probe_in, read_probe_line,
}
use null_private.Querylog.File.Scan.{
  StartsAt, Holds, byte_of, copy-take-drop, line_start-le, line_start-no_break, line_start-Holds,
  slice-Holds, line_end_lem, line_end-some,
}
use null_private.Querylog.File.Reads.{IsPlain}

-- The line that starts at a position of a text of `n` bytes.
abbrev pub line_from : Buffer → ℕ → ℕ → LogLine
line_from c n p = elim (line_end c p (n - p)) [
  | none ↦ slice c p (n - p)
  | some e ↦ slice c p (e - p)
]

-- A log: every line ends, after less than `max` bytes, its time stamp is there, and a line has a later
-- time stamp than those before it.
pub record IsLog (max : ℕ) (timestamp_of : LogLine → ℤ) (content : List ℕ) : Type 0 where
  pub ended :
      (p : ℕ)
      → p < length content
      → (e : ℕ) × (line_end (byte_of content) p (length content - p) ≡ some e)
        × (e < line_start (byte_of content) p + max)
  pub stamped :
      (p : ℕ)
      → StartsAt (byte_of content) p
      → p < length content
      → eqb_ℤ (timestamp_of (line_from (byte_of content) (length content) p)) (pos 0) ≡ false
  pub sorted :
      (p q : ℕ)
      → StartsAt (byte_of content) p
      → StartsAt (byte_of content) q
      → p < q
      → q < length content
      → ltb_ℤ
          (timestamp_of (line_from (byte_of content) (length content) p))
          (timestamp_of (line_from (byte_of content) (length content) q))
        ≡ true

length-take : (k : ℕ) (xs : List ℕ) (i : ℕ) → i < k → i < length xs → i < length (take k xs)
length-take zero xs i h in_list = absurd (omega arith)
length-take (suc k) [] i h in_list = absurd (omega arith)
length-take (suc k) (x ∷ xs) zero h in_list = omega arith
length-take (suc k) (x ∷ xs) (suc i) h in_list =
    omega (arith, length-take k xs i (omega arith) (omega arith))

abbrev pub probe_of : LogLine → ℕ → ℕ → Probe
probe_of l i e = record { line = l; line_idx = i; line_end_idx = e }

probe_eq :
    {l l' : LogLine} {i i' e e' : ℕ} → l ≡ l' → i ≡ i' → e ≡ e' → probe_of l i e ≡ probe_of l' i' e'
probe_eq a b d = cc (a, b, d)

module _ (max : ℕ) (os : OsFile) (timestamp_of : LogLine → ℤ) (content : List ℕ)
    (plain : IsPlain os content) (log : IsLog max timestamp_of content) where
  abbrev c : Buffer
  c = byte_of content

  abbrev n : ℕ
  n = length content

  -- The line of a position and its end.
  pub record Around (p e : ℕ) : Type 0 where
    pub start_le : line_start c p ≤ p
    pub le_end : p ≤ e
    pub in_file : e < n
    pub short : e < line_start c p + max
    pub is_line : line_from c n (line_start c p) ≡ slice c (line_start c p) (e - line_start c p)
    pub breaks : c e ≡ newline
    pub unbroken : (i : ℕ) → line_start c p ≤ i → i < e → c i ≢ newline

  pub around :
      (p e : ℕ) → line_end c p (n - p) ≡ some e → e < line_start c p + max → p < n → Around p e
  around p e ends short in_file = record {
    start_le = line_start-le c p;
    le_end = (line_end_lem c p (n - p) e ends).0;
    in_file = omega (arith, line_end_lem c p (n - p) e ends);
    short = short;
    is_line =
        ap
          (λ o. elim o as (λ _. LogLine) [
            | none ↦ slice c (line_start c p) (n - line_start c p)
            | some e ↦ slice c (line_start c p) (e - line_start c p)
          ])
          (line_end-some c (line_start c p) (n - line_start c p) e
            (omega (arith, line_start-le c p, line_end_lem c p (n - p) e ends))
            (omega (arith, line_start-le c p, line_end_lem c p (n - p) e ends))
            (line_end_lem c p (n - p) e ends).2 unbroken);
    breaks = (line_end_lem c p (n - p) e ends).2;
    unbroken = unbroken;
  }
    where
      unbroken : (i : ℕ) → line_start c p ≤ i → i < e → c i ≢ newline
      unbroken i le lt =
          ground (arith, line_start-no_break c p i, (line_end_lem c p (n - p) e ends).3 i)

  seen : ℕ → List ℕ
  seen p = take (max * 2) (drop (seek_of max os p) content)

  holds :
      (p i : ℕ)
      → i < max * 2
      → seek_of max os p + i < n
      → copy (seen p) zeros i ≡ c (seek_of max os p + i)
  unfolding seen
  holds p i h in_file = copy-take-drop content zeros (seek_of max os p) (max * 2) i h in_file

  probe_in-Around :
      (p e : ℕ)
      → Around p e
      → probe_in max os (seek_of max os p) (relative_of max os p) (seen p)
        ≡ probe_of (line_from c n (line_start c p)) (line_start c p) (e + 1)
  unfolding seen
  probe_in-Around p e a =
      let s : ℕ = seek_of max os p in
      let rel : ℕ = relative_of max os p in
      let b : Buffer = copy (seen p) zeros in
      let sum : s + rel ≡ p = ground arith in
      let s_le : s ≤ line_start c p = ground (arith, a.start_le, a.le_end, a.short) in
      let rel_le : rel ≤ max = ground arith in
      let facts : (line_start c p ≤ p) × (p ≤ e) × (e < n) × (e < line_start c p + max) =
        (a.start_le, a.le_end, a.in_file, a.short) in
      let held : Holds c b s (e + 1 - s) = λ i h. holds p i (omega arith) (omega arith) in
      let read : e - s < length (seen p) =
        length-take (max * 2) (drop s content) (e - s) (omega arith)
          (omega (arith, length-drop s content)) in
      let ends : line_end b rel (length (seen p) - rel) ≡ some (e - s) =
        line_end-some b rel (length (seen p) - rel) (e - s) (omega arith) (omega arith)
          (held (e - s) (omega arith) ∙ ap c (omega arith) ∙ a.breaks)
          (λ j le lt k.
            a.unbroken (s + j) (omega arith) (omega arith) (sym (held j (omega arith)) ∙ k)) in
      let start : s + line_start b rel ≡ line_start c p =
        line_start-Holds c b s rel (λ i h. held i (omega arith))
          (subst (λ k. s ≤ line_start c k) (sym sum) s_le)
        ∙ ap (line_start c) sum in
      let st : ℕ = line_start b rel in
      let inside : st ≤ rel = line_start-le b rel in
      ap
        (λ o.
          let ends : ℕ × ℕ = end_of_line max os s (length (seen p)) o in
          probe_of (slice b st (ends.0 - st)) (st + s) ends.1)
        ends
      ∙ probe_eq
          (slice-Holds c b s (e + 1 - s) st (e - s - st) held (omega arith)
            ∙ ap₂ (slice c) start (omega arith)
            ∙ sym a.is_line)
          (omega arith) (omega arith)

  pub read_probe_line-Around :
      (p e : ℕ)
      → Around p e
      → read_probe_line max os p
        ≡ some (probe_of (line_from c n (line_start c p)) (line_start c p) (e + 1))
  unfolding read_probe_line seen
  read_probe_line-Around p e a =
      let facts : (p ≤ e) × (e < n) = (a.le_end, a.in_file) in
      rw (read_probe_line, plain.filled (seek_of max os p) (max * 2) (ground arith))
        (ap some (probe_in-Around p e a))
