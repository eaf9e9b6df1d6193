-- ===== src/Querylog/File/Lines.antt =====
-- A whole file of lines, read from its end.
use null_private.Prelude.{
  ℕ, zero, suc, ◌+◌, ◌-◌, ◌≤◌, ◌<◌, ◌≡◌, ◌≢◌, refl, sym, ap, ap₂, ◌∙◌, subst, none, List, [], ◌∷◌,
  ◌++◌, arith, length, length-append, false, ◌==◌ as nat_eqb, if◌then◌else◌,
}
use null_private.Querylog.File.{
  Buffer, LogLine, OsFile, LogFile, Result, ok, error, eof, newline, line_start, slice, shifted,
  read_next_line, read_next, seek_start,
}
use null_private.Querylog.File.Scan.{
  StartsAt, byte_of, line_start-le, line_start-StartsAt, le-line_start,
}
use null_private.Querylog.File.Reads.{IsPlain, IsCurrent, line_before, read_next_line_lem}

-- The bytes of a file with these lines, the newest of which is the first here and the last there.
unfoldable pub content_of : List LogLine → List ℕ
content_of [] = []
content_of (l ∷ older) = content_of older ++ (l ++ (newline ∷ []))

-- A line has a byte, no more bytes than an entry may have, and no line break.
abbrev pub IsLine : ℕ → LogLine → Type 0
IsLine max l = (0 < length l) × (length l ≤ max) × ((i : ℕ) → i < length l → byte_of l i ≢ newline)

abbrev pub AllLines : ℕ → List LogLine → Type 0
AllLines max [] = Unit
AllLines max (l ∷ ls) = IsLine max l × AllLines max ls

module _ (max : ℕ) (os : OsFile) (content : List ℕ) (plain : IsPlain os content) where
  -- A line was read up to `p`, and the next read goes on before it.
  abbrev pub IsReadTo : ℕ → Result LogLine × LogFile → Type 0
  IsReadTo p (r, q) =
      (r ≡ ok (line_before (byte_of content) p).0)
      × (q.position ≡ line_start (byte_of content) p - 1)
      × IsCurrent (byte_of content) q (line_start (byte_of content) p - 1)

  after_shift :
      (p : ℕ) (r : Result (LogLine × ℕ) × LogFile)
      → r.0 ≡ ok (line_before (byte_of content) p)
      → IsCurrent (byte_of content) r.1 p
      → IsReadTo p (shifted max os r)
  after_shift p (ok (line, i), q') e current =
      let le = line_start-le (byte_of content) p in
      ground (arith, e, λ (b : Buffer) (i : ℕ). current b i)
  after_shift p (error e', q') e current = absurd (ground arith)

  -- The lines that are still to be read from a position.
  abbrev Remaining : ℕ → List LogLine → Type 0
  Remaining p [] = p ≡ 0
  Remaining p (l ∷ ls) =
      (0 < p)
      × (p < length content)
      × (p - line_start (byte_of content) p ≤ max)
      × ((line_before (byte_of content) p).0 ≡ l)
      × Remaining (line_start (byte_of content) p - 1) ls

  pub read_next-ok :
      (q : LogFile)
      → 0 < q.position
      → q.position < length content
      → q.position - line_start (byte_of content) q.position ≤ max
      → 0 < max
      → IsCurrent (byte_of content) q q.position
      → IsReadTo q.position (read_next max os q)
  unfolding read_next
  read_next-ok q some_left in_file short some_size current =
      let line =
        read_next_line_lem max os content plain q.position q in_file short some_size current in
      let there : nat_eqb q.position 0 ≡ false = ground arith in
      subst
        (λ s.
          IsReadTo q.position
            (if s then (error eof, q) else shifted max os (read_next_line max os q.position q)))
        (sym there) (after_shift q.position (read_next_line max os q.position q) line.0 line.2)

  read_next-end : (q : LogFile) → q.position ≡ 0 → read_next max os q ≡ (error eof, q)
  unfolding read_next
  read_next-end q e = rw e refl

-- A file at which these lines are still to be read.
abbrev pub IsAt : ℕ → OsFile → LogFile → List LogLine → Type 0
IsAt max os q ls =
    (content : List ℕ) × (plain : IsPlain os content) × Remaining max os content plain q.position ls
    × IsCurrent (byte_of content) q q.position

pub read_next-IsAt_end :
    (max : ℕ) (os : OsFile) (q : LogFile) → IsAt max os q [] → read_next max os q ≡ (error eof, q)
read_next-IsAt_end max os q (content, plain, left, current) =
    read_next-end max os content plain q left

pub read_next-IsAt :
    (max : ℕ) (os : OsFile) (q : LogFile) (l : LogLine) (ls : List LogLine)
    → 0 < max
    → IsAt max os q (l ∷ ls)
    → ((read_next max os q).0 ≡ ok l) × IsAt max os (read_next max os q).1 ls
read_next-IsAt max os q l ls some_size
      (content, plain, (some_left, in_file, short, is_l, left), current) =
    let next = read_next-ok max os content plain q some_left in_file short some_size current in
    let q' = (read_next max os q).1 in
    (
      next.0 ∙ ap ok is_l,
      (
        content,
        plain,
        subst (λ p. Remaining max os content plain p ls) (sym next.1) left,
        subst (IsCurrent (byte_of content) q') (sym next.1) next.2,
      ),
    )

-- What the bytes of a file with one more line are.
byte_of-left : (xs ys : List ℕ) (i : ℕ) → i < length xs → byte_of (xs ++ ys) i ≡ byte_of xs i
byte_of-left [] ys i h = absurd (omega arith)
byte_of-left (x ∷ xs) ys zero h = refl
byte_of-left (x ∷ xs) ys (suc i) h = byte_of-left xs ys i (omega arith)

byte_of-right : (xs ys : List ℕ) (i j : ℕ) → length xs + i ≡ j → byte_of (xs ++ ys) j ≡ byte_of ys i
byte_of-right [] ys i j e = ap (byte_of ys) (omega arith)
byte_of-right (x ∷ xs) ys i zero e = absurd (omega arith)
byte_of-right (x ∷ xs) ys i (suc j) e = byte_of-right xs ys i j (omega arith)

slice_lem :
    (c : Buffer) (l : LogLine) (i : ℕ)
    → ((j : ℕ) → j < length l → c (i + j) ≡ byte_of l j)
    → slice c i (length l) ≡ l
unfolding slice
slice_lem c [] i h = refl
slice_lem c (x ∷ l) i h =
    ap₂ ◌∷◌ (ap c (omega arith) ∙ h 0 (omega arith))
      (slice_lem c l (i + 1) (λ j le. ap c (omega arith) ∙ h (suc j) (omega arith)))

content_of-StartsAt :
    (ls : List LogLine) → StartsAt (byte_of (content_of ls)) (length (content_of ls))
unfolding content_of
content_of-StartsAt [] i e = absurd (omega arith)
content_of-StartsAt (l ∷ ls) i e =
    byte_of-right (content_of ls) (l ++ (newline ∷ [])) (length l) i (
      omega (
        arith,
        length-append (content_of ls) (l ++ (newline ∷ [])),
        length-append l (newline ∷ []),
      ))
    ∙ byte_of-right l (newline ∷ []) 0 (length l) (omega arith)

-- A file whose bytes begin with those of the lines: the newest of them ends where they end.
module _ (c : Buffer) where
  newest :
      (max : ℕ) (l : LogLine) (ls : List LogLine)
      → IsLine max l
      → ((i : ℕ) → i < length (content_of (l ∷ ls)) → c i ≡ byte_of (content_of (l ∷ ls)) i)
      → line_before c (length (content_of (l ∷ ls)) - 1) ≡ (l, length (content_of ls))
  unfolding content_of
  newest max l ls is_line agrees =
      let rest : List ℕ = l ++ (newline ∷ []) in
      let size : length (content_of ls ++ rest) ≡ length (content_of ls) + length l + 1 =
        omega (arith, length-append (content_of ls) rest, length-append l (newline ∷ [])) in
      let in_line : (i j : ℕ) → length (content_of ls) + i ≡ j → i < length l → c j ≡ byte_of l i =
        λ i j e h.
          agrees j (omega arith)
          ∙ byte_of-right (content_of ls) rest i j e
          ∙ byte_of-left l (newline ∷ []) i h in
      let starts : StartsAt c (length (content_of ls)) = λ i e.
        agrees i (omega arith)
        ∙ byte_of-left (content_of ls) rest i (omega arith)
        ∙ content_of-StartsAt ls i e in
      let p : ℕ = length (content_of (l ∷ ls)) - 1 in
      let s : ℕ = line_start c p in
      let i : ℕ = s - 1 - length (content_of ls) in
      let le : s ≤ p = line_start-le c p in
      let inside : ¬ (length (content_of ls) < s) = λ h. is_line.2 i (omega arith) (
        sym (in_line i (s - 1) (omega arith) (omega arith))
        ∙ line_start-StartsAt c p (s - 1) (omega arith)) in
      let start : line_start c p ≡ length (content_of ls) = omega (
        arith,
        inside,
        line_start-le c p,
        le-line_start c (length (content_of ls)) p starts (omega arith),
      ) in
      ap₂ (λ l i. (l, i))
        (ap₂ (slice c) start (omega arith)
          ∙ slice_lem c l (length (content_of ls)) (λ j h. in_line j _ refl h))
        start

module _ (max : ℕ) (os : OsFile) (content : List ℕ) (plain : IsPlain os content) where
  all_remain :
      (ls : List LogLine)
      → AllLines max ls
      → length (content_of ls) ≤ length content
      → ((i : ℕ) → i < length (content_of ls) → byte_of content i ≡ byte_of (content_of ls) i)
      → Remaining max os content plain (length (content_of ls) - 1) ls
  unfolding content_of
  all_remain [] all le agrees = refl
  all_remain (l ∷ ls) (is_line, all) le agrees =
      let rest : List ℕ = l ++ (newline ∷ []) in
      let size : length (content_of ls ++ rest) ≡ length (content_of ls) + length l + 1 =
        omega (arith, length-append (content_of ls) rest, length-append l (newline ∷ [])) in
      let end = newest (byte_of content) max l ls is_line agrees in
      let start : line_start (byte_of content) (length (content_of (l ∷ ls)) - 1)
          ≡ length (content_of ls) =
        ap (λ e. e.1) end in
      (
        omega arith,
        omega arith,
        omega arith,
        ap (λ e. e.0) end,
        subst (λ s. Remaining max os content plain (s - 1) ls) (sym start)
            (all_remain ls all (omega arith)
              (λ i h. agrees i (omega arith) ∙ byte_of-left (content_of ls) rest i h)),
      )

seek_start-plain :
    (max : ℕ) (os : OsFile) (content : List ℕ) (q : LogFile)
    → IsPlain os content
    → seek_start max os q
      ≡ (ok (length content - 1), record q { buffer = none; position = length content - 1 })
unfolding seek_start
seek_start-plain max os content q plain = rw (seek_start, plain.sized) refl

-- After `seek_start` all the lines of a file are to be read.
pub seek_start-IsAt :
    (max : ℕ) (os : OsFile) (ls : List LogLine) (q : LogFile)
    → IsPlain os (content_of ls)
    → AllLines max ls
    → ((seek_start max os q).0 ≡ ok (length (content_of ls) - 1))
      × IsAt max os (seek_start max os q).1 ls
seek_start-IsAt max os ls q plain all =
    let started = seek_start-plain max os (content_of ls) q plain in
    (
      ap (λ r. r.0) started,
      subst (λ r. IsAt max os r.1 ls) (sym started)
          (
            content_of ls,
            plain,
            all_remain max os (content_of ls) plain ls all (omega arith) (λ i h. refl),
            λ b i e h. absurd (ground arith),
          ),
    )
