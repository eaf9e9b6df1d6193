-- ===== src/Querylog/File/Reads.antt =====
-- The buffered reading of qlogfile.go, against the lines of the file.
use null_private.Prelude.{
  ℕ, ◌+◌, ◌-◌, ◌≤◌, ◌<◌, ◌≡◌, refl, sym, ap, ap₂, ◌∙◌, subst, true, false, none, some, List, arith,
  length, take, drop, inl, inr, Bool-cases, Option-cases, if◌then◌else◌, ◌⊎◌,
}
use null_private.Querylog.File.{
  Buffer, LogLine, OsFile, LogFile, Result, ok, line_start, slice, copy, buffer_size, start_for,
  init_buffer, is_stale, from_buffer, of_refreshed, allocated, read_next_line,
}
use null_private.Querylog.File.Scan.{
  Holds, byte_of, copy-take-drop, line_start-le, line_start-Holds, slice-Holds,
}

-- The operating system answers for a regular file: a read at a position inside of it fills the buffer
-- as far as the file goes.
pub record IsPlain (os : OsFile) (content : List ℕ) : Type 0 where
  pub sized : os.stat ≡ some (length content)
  pub filled : (o k : ℕ) → o < length content → os.read o k ≡ some (take k (drop o content))

-- The line that ends before a position, without a buffer, and where it starts.
abbrev pub line_before : Buffer → ℕ → LogLine × ℕ
line_before c p = (slice c (line_start c p) (p - line_start c p), line_start c p)

-- The buffer, if there is one, holds the bytes of the file up to a position.
abbrev pub IsCurrent : Buffer → LogFile → ℕ → Type 0
IsCurrent c q p =
    (b : Buffer) (i : ℕ) → q.buffer ≡ some b → q.buffer_start + i < p → b i ≡ c (q.buffer_start + i)

from_buffer_lem :
    (max : ℕ) (os : OsFile) (c b : Buffer) (q : LogFile) (p : ℕ)
    → q.buffer ≡ some b
    → IsCurrent c q p
    → q.buffer_start ≤ line_start c p
    → from_buffer max os p q ≡ line_before c p
from_buffer_lem max os c b q p is_b current le =
    let below : line_start c p ≤ p = line_start-le c p in
    let n : ℕ = p - q.buffer_start in
    let sum : q.buffer_start + n ≡ p = omega arith in
    let held : Holds c b q.buffer_start n = λ i h. current b i is_b (omega arith) in
    let at : q.buffer_start + line_start b n ≡ line_start c p =
      line_start-Holds c b q.buffer_start n held
        (subst (λ k. q.buffer_start ≤ line_start c k) (sym sum) le)
      ∙ ap (line_start c) sum in
    let len : n - line_start b n ≡ p - line_start c p = omega arith in
    ap
      (λ o. (
        slice (allocated o) (line_start (allocated o) n) (n - line_start (allocated o) n),
        q.buffer_start + line_start (allocated o) n,
      ))
      is_b
    ∙ ap₂ (λ l i. (l, i))
        (slice-Holds c b q.buffer_start n (line_start b n) (n - line_start b n) held
            (omega (arith, line_start-le b n))
          ∙ ap₂ (slice c) at len)
        at

module _ (max : ℕ) (os : OsFile) (content : List ℕ) (plain : IsPlain os content) where
  abbrev c : Buffer
  c = byte_of content

  -- What a call leaves: the line, the position where it was, and a buffer that is still current.
  abbrev IsRead : ℕ → LogFile → Result (LogLine × ℕ) × LogFile → Type 0
  IsRead p q (r, q') = (r ≡ ok (line_before c p)) × (q'.position ≡ q.position) × IsCurrent c q' p

  after_read : ℕ → LogFile → LogFile
  after_read p q = record q {
    buffer =
        some (
          copy (take (buffer_size max os) (drop (start_for max os p) content))
            (allocated q.buffer));
    buffer_start = start_for max os p;
    buffer_len = length (take (buffer_size max os) (drop (start_for max os p) content));
  }

  init_buffer-plain :
      (p : ℕ) (q : LogFile) → p < length content → init_buffer max os p q ≡ (true, after_read p q)
  unfolding init_buffer after_read
  init_buffer-plain p q in_file =
      rw (init_buffer, plain.filled (start_for max os p) (buffer_size max os) (ground arith)) refl

  filled_buffer :
      (p : ℕ) (q : LogFile)
      → p < length content
      → p - line_start c p ≤ max
      → 0 < max
      → IsRead p q (of_refreshed max os p (true, after_read p q))
  unfolding after_read
  filled_buffer p q in_file short some_size = (
    ap ok (
        from_buffer_lem max os c _ (after_read p q) p refl current
          (ground (arith, line_start-le c p))),
    refl,
    current,
  )
    where
      current : IsCurrent c (after_read p q) p
      current b i e h = ground (
        arith,
        e,
        copy-take-drop content (allocated q.buffer) (start_for max os p) (buffer_size max os) i,
      )

  -- From a current buffer, a line that is no longer than an entry is read as from the file itself.
  pub read_next_line_lem :
      (p : ℕ) (q : LogFile)
      → p < length content
      → p - line_start c p ≤ max
      → 0 < max
      → IsCurrent c q p
      → IsRead p q (read_next_line max os p q)
  unfolding read_next_line
  read_next_line_lem p q in_file short some_size current = elim (Bool-cases (is_stale max os p q)) [
    | inl stale ↦
        subst
          (λ s.
            IsRead p q (of_refreshed max os p (if s then init_buffer max os p q else (true, q))))
          (sym stale)
          (subst (λ r. IsRead p q (of_refreshed max os p r)) (sym (init_buffer-plain p q in_file))
            (filled_buffer p q in_file short some_size))
    | inr fresh ↦
        subst
          (λ s.
            IsRead p q (of_refreshed max os p (if s then init_buffer max os p q else (true, q))))
          (sym fresh) (kept (Option-cases q.buffer) fresh)
  ]
    where
      kept :
          (q.buffer ≡ none) ⊎ ((b : Buffer) × (q.buffer ≡ some b))
          → is_stale max os p q ≡ false
          → IsRead p q (of_refreshed max os p (true, q))
      kept (inl e) fresh = absurd (ground (arith, e, fresh))
      kept (inr (b, e)) fresh = (
        ap ok (from_buffer_lem max os c b q p e current (ground (arith, e, fresh))),
        refl,
        current,
      )
