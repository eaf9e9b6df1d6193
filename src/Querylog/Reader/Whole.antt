-- ===== src/Querylog/Reader/Whole.antt =====
-- The lines of all the files.
use null_private.Prelude.{
  ℕ, zero, suc, ◌<◌, ◌≡◌, refl, ap, ◌∙◌, List, [], ◌∷◌, ◌++◌, map, length, arith, arith,
}
use null_private.Querylog.File.{
  LogLine, OsFile, LogFile, Result, ok, error, eof, read_next, seek_start,
}
use null_private.Querylog.File.Reads.{IsPlain}
use null_private.Querylog.File.Lines.{
  content_of, AllLines, IsAt, read_next-IsAt_end, read_next-IsAt, seek_start-IsAt,
}
use null_private.Querylog.Reader.{
  File, LogReader, read_from, next_line, seek_newest, started, start_newest, rejoin,
}

-- The files hold these lines, of each file and in it from the newest to the oldest.
abbrev pub Hold : ℕ → List File → List (List LogLine) → Type 0
Hold max [] [] = Unit
Hold max ((os, q) ∷ files) (ls ∷ lss) =
    IsPlain os (content_of ls) × AllLines max ls × Hold max files lss
Hold max _ _ = ⊥

abbrev pub joined : List (List LogLine) → List LogLine
joined [] = []
joined (ls ∷ lss) = ls ++ joined lss

-- The results of a number of reads, one after the other.
unfoldable pub read_times : ℕ → ℕ → LogReader → List (Result LogLine)
read_times max zero r = []
read_times max (suc n) r = let next = next_line max r in next.0 ∷ read_times max n next.1

module _ (max : ℕ) (some_size : 0 < max) where
  abbrev at : OsFile → LogFile → List File → List File → LogReader
  at os q older after = record { left = (os, q) ∷ older; after = after }

  next_line-line :
      (os : OsFile) (q : LogFile) (l : LogLine) (older after : List File)
      → (read_next max os q).0 ≡ ok l
      → next_line max (at os q older after) ≡ (ok l, at os (read_next max os q).1 older after)
  unfolding next_line read_from
  next_line-line os q l [] after e = rw (next_line, read_from, e) refl
  next_line-line os q l ((older_os, p) ∷ older) after e = rw (next_line, read_from, e) refl

  next_line-end :
      (os : OsFile) (q : LogFile) (after : List File)
      → read_next max os q ≡ (error eof, q)
      → (next_line max (at os q [] after)).0 ≡ error eof
  unfolding next_line read_from
  next_line-end os q after e = rw (next_line, read_from, e) refl

  next_line-older :
      (os older_os : OsFile) (q p : LogFile) (n : ℕ) (older after : List File)
      → read_next max os q ≡ (error eof, q)
      → (seek_start max older_os p).0 ≡ ok n
      → next_line max (at os q ((older_os, p) ∷ older) after)
        ≡ next_line max (at older_os (seek_start max older_os p).1 older ((os, q) ∷ after))
  unfolding next_line read_from
  next_line-older os older_os q p n older after e started =
      rw (next_line, read_from, e, started)
        (ap
          (λ (r : Result LogLine × LogFile).
            read_from max (older_os, (seek_start max older_os p).1) older ((os, r.1) ∷ after))
          e)

  lines_left :
      (lss : List (List LogLine)) (ls : List LogLine) (os : OsFile) (q : LogFile)
      (older after : List File)
      → IsAt max os q ls
      → Hold max older lss
      → read_times max (suc (length (ls ++ joined lss))) (at os q older after)
        ≡ map ok (ls ++ joined lss) ++ (error eof ∷ [])
  unfolding read_times
  lines_left [] [] os q [] after is_at hold =
      ap (λ r. r ∷ []) (next_line-end os q after (read_next-IsAt_end max os q is_at))
  lines_left [] [] os q (f ∷ older) after is_at hold = absurd hold
  lines_left (ls ∷ lss) [] os q [] after is_at hold = absurd hold
  lines_left (ls ∷ lss) [] os q ((older_os, p) ∷ older) after is_at (plain, all, hold) =
      let s = seek_start-IsAt max older_os ls p plain all in
      let same =
        next_line-older os older_os q p _ older after (read_next-IsAt_end max os q is_at) s.0 in
      ap (λ next. next.0 ∷ read_times max (length (ls ++ joined lss)) next.1) same
      ∙ lines_left lss ls older_os (seek_start max older_os p).1 older ((os, q) ∷ after) s.1 hold
  lines_left lss (l ∷ ls) os q older after is_at hold =
      let r = read_next-IsAt max os q l ls some_size is_at in
      let line = next_line-line os q l older after r.0 in
      ap (λ next. next.0 ∷ read_times max (suc (length (ls ++ joined lss))) next.1) line
      ∙ ap (◌∷◌ (ok l)) (lines_left lss ls os (read_next max os q).1 older after r.1 hold)

  started-ok :
      (os : OsFile) (older : List File) (n : ℕ) (s : Result ℕ × LogFile)
      → s.0 ≡ ok n
      → started max os older s ≡ ok (at os s.1 older [])
  started-ok os older n (ok m, q) e = refl
  started-ok os older n (error e', q) e = absurd (ground arith)

  start_newest-Hold :
      (files : List File) (lss : List (List LogLine))
      → Hold max files lss
      → (r : LogReader) × (start_newest max files ≡ ok r)
        × (read_times max (suc (length (joined lss))) r ≡ map ok (joined lss) ++ (error eof ∷ []))
  unfolding read_times next_line
  start_newest-Hold [] [] hold = (record { left = []; after = [] }, refl, refl)
  start_newest-Hold [] (ls ∷ lss) hold = absurd hold
  start_newest-Hold ((os, q) ∷ files) [] hold = absurd hold
  start_newest-Hold ((os, q) ∷ files) (ls ∷ lss) (plain, all, hold) =
      let s = seek_start-IsAt max os ls q plain all in
      (
        at os (seek_start max os q).1 files [],
        started-ok os files _ (seek_start max os q) s.0,
        lines_left lss ls os (seek_start max os q).1 files [] s.1 hold,
      )

  -- For files of lines, each line with at least one byte and at most `max`, none of them a line break,
  -- and a positive `max`: whatever was read before, going to the newest line succeeds, and then the
  -- reads return every line of every file once, the newest file first and in each file the newest line
  -- first, and then the end. A file without lines is passed over.
  pub read_times-seek_newest :
      (r : LogReader) (lss : List (List LogLine))
      → Hold max (rejoin r.after r.left) lss
      → (r' : LogReader) × (seek_newest max r ≡ ok r')
        × (read_times max (suc (length (joined lss))) r' ≡ map ok (joined lss) ++ (error eof ∷ []))
  unfolding seek_newest
  read_times-seek_newest r lss hold = start_newest-Hold (rejoin r.after r.left) lss hold
