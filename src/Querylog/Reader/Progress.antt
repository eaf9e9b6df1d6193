-- ===== src/Querylog/Reader/Progress.antt =====
-- Every read makes progress, whatever the operating system answers.
use null_private.Prelude.{
  ℕ, ◌+◌, ◌-◌, ◌≤◌, ◌<◌, ◌≢◌, refl, sym, subst, Bool, true, false, none, some, List, [], ◌∷◌, arith,
  inl, inr, Bool-cases, if◌then◌else◌, ◌==◌ as nat_eqb,
}
use null_private.Querylog.File.{
  LogLine, OsFile, LogFile, Result, ok, error, eof, read_next, read_next_line, init_buffer,
  is_stale, of_refreshed, shifted, seek_start, allocated, refreshed,
}
use null_private.Querylog.File.Scan.{line_start-le}
use null_private.Querylog.Reader.{File, LogReader, read_from, next_line}

-- The bytes that may still be read, and a step for each file.
abbrev pub size_of : OsFile → ℕ
size_of os = elim os.stat [ none ↦ 0 | some n ↦ n ]

abbrev pub older_left : List File → ℕ
older_left [] = 0
older_left ((os, q) ∷ files) = size_of os + q.position + 1 + older_left files

abbrev pub bytes_left : List File → ℕ
bytes_left [] = 0
bytes_left ((os, q) ∷ files) = q.position + older_left files

module _ (max : ℕ) (some_size : 0 < max) where
  abbrev IsBefore : ℕ → Result LogLine × LogFile → Type 0
  IsBefore p (ok l, q) = q.position < p
  IsBefore p (error e, q) = Unit

  shifted-IsBefore :
      (os : OsFile) (p : ℕ) (r : Bool × LogFile)
      → 0 < p
      → r.1.buffer_start ≤ p
      → IsBefore p (shifted max os (of_refreshed max os p r))
  shifted-IsBefore os p (false, q) some_left le = tt
  shifted-IsBefore os p (true, q) some_left le =
      let k = line_start-le (allocated q.buffer) (p - q.buffer_start) in omega arith

  init_buffer-le : (os : OsFile) (p : ℕ) (q : LogFile) → (init_buffer max os p q).1.buffer_start ≤ p
  unfolding init_buffer
  init_buffer-le os p q = ground arith

  read_next-IsBefore : (os : OsFile) (q : LogFile) → IsBefore q.position (read_next max os q)
  unfolding read_next read_next_line
  read_next-IsBefore os q = elim (Bool-cases (nat_eqb q.position 0)) [
    | inl e ↦ rw e tt
    | inr e ↦
        subst
          (λ s.
            IsBefore q.position
              (if s then (error eof, q) else shifted max os (read_next_line max os q.position q)))
          (sym e)
          (shifted-IsBefore os q.position (refreshed max os q.position q) (ground arith) in_front)
  ]
    where
      in_front : (refreshed max os q.position q).1.buffer_start ≤ q.position
      in_front = elim (Bool-cases (is_stale max os q.position q)) [
        | inl stale ↦ rw stale (init_buffer-le os q.position q)
        | inr fresh ↦ rw fresh (ground (arith, fresh))
      ]

  seek_start-le :
      (os : OsFile) (q : LogFile) → (seek_start max os q).1.position ≤ size_of os + q.position
  unfolding seek_start
  seek_start-le os q = ground arith

  -- An error but the end, too, leaves less to be read.
  abbrev pub IsLess : ℕ → Result LogLine × LogReader → Type 0
  IsLess n (r, after) = (r ≢ error eof) → bytes_left after.left < n

  read_from-IsLess :
      (os : OsFile) (q : LogFile) (older after : List File)
      → IsLess (bytes_left ((os, q) ∷ older)) (read_from max (os, q) older after)
  unfolding read_from
  read_from-IsLess os q [] after = go (read_next max os q) (read_next-IsBefore os q)
    where
      go :
          (r : Result LogLine × LogFile)
          → IsBefore q.position r
          → IsLess (q.position + 0) (elim r.0 [
            | ok line ↦ (ok line, record { left = (os, r.1) ∷ []; after = after })
            | error e ↦ (error eof, record { left = []; after = (os, r.1) ∷ after })
          ])
      go (ok line, q') before not_end = omega arith
      go (error e, q') before not_end = absurd (not_end refl)
  read_from-IsLess os q ((older_os, p) ∷ older) after =
      go (read_next max os q) (read_next-IsBefore os q) (seek_start max older_os p)
        (seek_start-le older_os p)
        (λ after'. read_from-IsLess older_os (seek_start max older_os p).1 older after')
    where
      go :
          (r : Result LogLine × LogFile)
          → IsBefore q.position r
          → (s : Result ℕ × LogFile) → s.1.position ≤ size_of older_os + p.position
          → ((after' : List File)
              → IsLess
                  (bytes_left ((older_os, s.1) ∷ older))
                  (read_from max (older_os, s.1) older after'))
          → IsLess (bytes_left ((os, q) ∷ (older_os, p) ∷ older)) (elim r.0 [
            | ok line ↦
                (ok line, record { left = (os, r.1) ∷ (older_os, p) ∷ older; after = after })
            | error e ↦ elim s.0 [
              | ok _ ↦ read_from max (older_os, s.1) older ((os, r.1) ∷ after)
              | error e' ↦
                  (error e', record { left = (older_os, s.1) ∷ older; after = (os, r.1) ∷ after })
            ]
          ])
      go (ok line, q') before s le rec not_end = omega arith
      go (error e, q') before (ok n, p') le rec not_end =
          let h = rec ((os, q') ∷ after) not_end in omega arith
      go (error e, q') before (error e', p') le rec not_end = omega arith

  -- With a positive size of an entry, and whatever the operating system answers: a read that does not
  -- tell the end of the log leaves less to be read, of the bytes up to the position and those of the
  -- older files.
  pub next_line-IsLess :
      (r : LogReader)
      → (next_line max r).0 ≢ error eof
      → bytes_left (next_line max r).1.left < bytes_left r.left
  unfolding next_line
  next_line-IsLess r not_end = go r.left not_end
    where
      go :
          (left : List File)
          → IsLess
              (bytes_left left)
              (elim left [ [] ↦ (error eof, r) | f ∷ older ↦ read_from max f older r.after ])
      go [] not_end = absurd (not_end refl)
      go ((os, q) ∷ older) not_end = read_from-IsLess os q older r.after not_end
