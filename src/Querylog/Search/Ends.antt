-- ===== src/Querylog/Search/Ends.antt =====
-- The loop of `readEntries` ends, and what it has read then.
use null_private.Prelude.{
  ℕ, zero, suc, ◌+◌, ◌≤◌, ◌<◌, ◌≡◌, ◌≢◌, refl, ap, sym, subst, Bool, true, false, Option, none,
  some, List, [], ◌∷◌, ◌++◌, arith, inl, inr, Option-cases,
}
use null_private.Prelude.Int.{ℤ, pos}
use null_private.Querylog.File.{LogLine, Result, ok, error, eof}
use null_private.Querylog.Criterion.{LogEntry, SearchParams, ClientCache, matches}
use null_private.Querylog.Reader.{LogReader, next_line}
use null_private.Querylog.Reader.Progress.{bytes_left, next_line-IsLess}
use null_private.Querylog.Search.{
  SearchEnv, NextEntry, ReadEntries, ReadTurn, done, go_on, read_turn, of_next, read_next_entry,
  may_scan, read_entries, set_log_reader, search_files, nothing_read,
}

module _ (se : SearchEnv) (s : SearchParams) where
  abbrev pub AllMatch : List LogEntry → Type 0
  AllMatch [] = Unit
  AllMatch (e ∷ es) = (matches se.env s e ≡ true) × AllMatch es

  append-AllMatch :
      (es : List LogEntry) (e : LogEntry)
      → AllMatch es
      → matches se.env s e ≡ true
      → AllMatch (es ++ (e ∷ []))
  append-AllMatch [] e all h = (h, tt)
  append-AllMatch (x ∷ es) e all h = (all.0, append-AllMatch es e all.1 h)

  -- An entry that a step returns matches.
  abbrev IsEntry : Result (Option LogEntry × ℤ) → Type 0
  IsEntry (ok (some e, ts)) = matches se.env s e ≡ true
  IsEntry _ = Unit

  of_next-IsEntry :
      (r : Result LogLine × LogReader) (cache : ClientCache) → IsEntry (of_next se s r cache).entry
  of_next-IsEntry (error e, r) cache = tt
  of_next-IsEntry (ok line, r) cache = ground arith

  of_next-eof :
      (r : Result LogLine × LogReader) (cache : ClientCache)
      → (of_next se s r cache).entry ≢ error eof
      → r.0 ≢ error eof
  of_next-eof (error e, r) cache h = λ eq. h (ap (λ x. (of_next se s (x, r) cache).entry) eq)
  of_next-eof (ok line, r) cache h = λ eq. absurd (ground arith)

  of_next-reader :
      (r : Result LogLine × LogReader) (cache : ClientCache) → (of_next se s r cache).reader ≡ r.1
  of_next-reader (error e, r) cache = refl
  of_next-reader (ok line, r) cache = ground arith

  -- With a positive limit of lines, no more than those are scanned.
  abbrev pub IsScanned : ℕ → Type 0
  IsScanned total = (m : ℕ) → s.max_file_scan_entries ≡ pos (suc m) → total ≤ suc m

  abbrev pub IsRead : ReadEntries → Type 0
  IsRead res = AllMatch res.entries × IsScanned res.total

  -- What a turn leads to, from a total that may be raised by one.
  abbrev IsTurn : ℕ → Result (Option LogEntry × ℤ) → ReadTurn → Type 0
  IsTurn total entry (done res) = AllMatch res.entries × (res.total ≤ total + 1)
  IsTurn total entry (go_on es ts) = AllMatch es × (entry ≢ error eof)

  read_turn-IsTurn :
      (es : List LogEntry) (total : ℕ) (entry : Result (Option LogEntry × ℤ))
      → AllMatch es
      → IsEntry entry
      → IsTurn total entry (read_turn se s es total entry)
  read_turn-IsTurn es total (error e) all h = ground arith
  read_turn-IsTurn es total (ok (none, ts)) all h = (all, ground arith)
  read_turn-IsTurn es total (ok (some e, ts)) all h = ground (arith, append-AllMatch es e all h)

  IsScanned-suc : (total : ℕ) → may_scan se s total ≡ true → IsScanned (total + 1)
  IsScanned-suc total h m e = ground (arith, h, e)

  -- The loop ends on more fuel than there are bytes left, whatever the operating system answers.
  pub read_entries_lem :
      (fuel : ℕ) (r : LogReader) (cache : ClientCache) (es : List LogEntry) (oldest : ℤ) (total : ℕ)
      → 0 < se.max_entry
      → bytes_left r.left < fuel
      → AllMatch es
      → IsScanned total
      → (res : ReadEntries) × (read_entries se s fuel r cache es oldest total ≡ some res)
        × IsRead res
  unfolding read_entries read_next_entry
  read_entries_lem zero r cache es oldest total some_size enough all scanned = absurd (omega arith)
  read_entries_lem (suc fuel) r cache es oldest total some_size enough all scanned =
      go
        (λ r' cache' es' ts less. read_entries_lem fuel r' cache' es' ts (total + 1) some_size less)
        (may_scan se s total) refl
    where
      Rest : Type 0
      Rest =
          (r' : LogReader) (cache' : ClientCache) (es' : List LogEntry) (ts : ℤ)
          → bytes_left r'.left < fuel
          → AllMatch es'
          → IsScanned (total + 1)
          → (res : ReadEntries) × (read_entries se s fuel r' cache' es' ts (total + 1) ≡ some res)
            × IsRead res

      line : Result LogLine × LogReader
      line = next_line se.max_entry r

      next : NextEntry
      next = of_next se s line cache

      after : ReadTurn → Option ReadEntries
      after t = elim t [
        | done result ↦ some result
        | go_on es' ts ↦ read_entries se s fuel next.reader next.cache es' ts (total + 1)
      ]

      turned :
          Rest
          → (t : ReadTurn) → IsTurn total next.entry t
          → may_scan se s total ≡ true
          → (res : ReadEntries) × (after t ≡ some res) × IsRead res
      turned rest (done result) h may =
          (result, refl, (h.0, λ m e. ground (arith, h.1, IsScanned-suc total may m e)))
      turned rest (go_on es' ts) h may =
          let less = next_line-IsLess se.max_entry some_size r (of_next-eof line cache h.1) in
          rest next.reader next.cache es' ts
            (subst (λ x. bytes_left x.left < fuel) (sym (of_next-reader line cache)) (omega arith))
            h.0 (IsScanned-suc total may)

      go :
          Rest
          → (b : Bool) → may_scan se s total ≡ b
          → (res : ReadEntries) × (read_entries se s (suc fuel) r cache es oldest total ≡ some res)
            × IsRead res
      go rest false may = (
        record { entries = es; oldest_nano = oldest; total = total },
        rw (read_entries, may) refl,
        (all, scanned),
      )
      go rest true may =
          let t =
            turned rest (read_turn se s es total next.entry)
              (read_turn-IsTurn es total next.entry all (of_next-IsEntry line cache)) may in
          (t.0, rw (read_entries, may) t.1, t.2)

  -- With a positive size of an entry, and more fuel than there are bytes left for the reader of the
  -- files: the search in the files ends, whatever the operating system answers. Its entries match, and
  -- with a positive limit of lines it has read no more than those.
  pub search_files_lem :
      (fuel : ℕ) (cache : ClientCache)
      → 0 < se.max_entry
      → ((r : LogReader) → set_log_reader se s ≡ some r → bytes_left r.left < fuel)
      → (res : ReadEntries) × (search_files se s fuel cache ≡ some res) × IsRead res
  unfolding search_files
  search_files_lem fuel cache some_size enough = elim (Option-cases (set_log_reader se s)) [
    | inl e ↦ (nothing_read se s, rw (search_files, e) refl, (tt, λ m h. omega arith))
    | inr (r, e) ↦
        let read =
          read_entries_lem fuel r cache [] (pos 0) 0 some_size (enough r e) tt
            (λ m h. omega arith) in
        (read.0, rw (search_files, e) read.1, read.2)
  ]
