-- ===== src/Querylog/Search/Complete.antt =====
-- The search in the files finds every entry that is searched for, without the shortcuts of the code.
use null_private.Prelude.{
  ℕ, zero, suc, ◌+◌, ◌-◌, ◌<◌, ◌≡◌, refl, ap, sym, subst, ◌∙◌, true, false, Option, none, some,
  List, [], ◌∷◌, ◌++◌, map, arith, length, length-append, take, take_nil, inl, inr, Bool-cases,
}
use null_private.Prelude.Int.{ℤ, pos, eqb_ℤ}
use null_private.Querylog.File.{LogLine, Result, ok, error, eof}
use null_private.Querylog.Criterion.{LogEntry, SearchParams, ClientCache}
use null_private.Querylog.Criterion.Quick.{IsCached}
use null_private.Querylog.Reader.{LogReader, next_line, rejoin, new_log_reader, seek_record}
use null_private.Querylog.Reader.Whole.{Hold, joined, read_times, read_times-seek_newest}
use null_private.Querylog.Search.{
  SearchEnv, ReadEntries, ReadTurn, done, go_on, read_turn, of_next, total_limit, is_full,
  read_next_entry, may_scan, read_entries, set_log_reader, search_files,
}
use null_private.Querylog.Search.Hits.{hit, hits, with_hit, AllEncode, of_next-IsStep}

module _ (se : SearchEnv) (s : SearchParams) where
  -- How a turn goes on with a line: it ends when it has found the last entry.
  module _ (limit : ℕ) (limited : total_limit s ≡ pos limit)
      (all_lines : s.max_file_scan_entries ≡ pos 0) where
    Goal : List LogEntry → List LogLine → Option ReadEntries → Type 0
    Goal es ls o =
        (res : ReadEntries) × (o ≡ some res)
        × (res.entries ≡ es ++ take (limit - length es) (hits se s ls))

    may_scan-true : (total : ℕ) → may_scan se s total ≡ true
    may_scan-true total = ground (arith, all_lines)

    -- The results of the reads that are left are these lines and then the end.
    abbrev pub AreLeft : LogReader → List LogLine → Type 0
    AreLeft r ls = read_times se.max_entry (suc (length ls)) r ≡ map ok ls ++ (error eof ∷ [])

    append_nil : (es : List LogEntry) → es ++ [] ≡ es
    append_nil [] = refl
    append_nil (e ∷ es) = ap (◌∷◌ e) (append_nil es)

    append_assoc : (es fs : List LogEntry) (e : LogEntry) → (es ++ (e ∷ [])) ++ fs ≡ es ++ (e ∷ fs)
    append_assoc [] fs e = refl
    append_assoc (x ∷ es) fs e = ap (◌∷◌ x) (append_assoc es fs e)

    abbrev first : List (Result LogLine) → Result LogLine
    first [] = error eof
    first (r ∷ rs) = r

    abbrev others : List (Result LogLine) → List (Result LogLine)
    others [] = []
    others (r ∷ rs) = rs

    -- What the loop goes on to after a turn.
    abbrev after : ℕ → LogReader → ClientCache → ℕ → ReadTurn → Option ReadEntries
    after fuel r cache total t = elim t [
      | done result ↦ some result
      | go_on es ts ↦ read_entries se s fuel r cache es ts (total + 1)
    ]

    read_entries-suc :
        (fuel : ℕ) (r : LogReader) (cache : ClientCache) (es : List LogEntry) (oldest : ℤ)
        (total : ℕ)
        → read_entries se s (suc fuel) r cache es oldest total
          ≡ after fuel
              (read_next_entry se s r cache).reader
              (read_next_entry se s r cache).cache
              total
              (read_turn se s es total (read_next_entry se s r cache).entry)
    unfolding read_entries
    read_entries-suc fuel r cache es oldest total = rw (read_entries, may_scan-true total) refl

    turn-Goal :
        (fuel : ℕ) (line : LogLine) (ls : List LogLine) (r : LogReader) (cache : ClientCache)
        (es : List LogEntry) (ts : ℤ) (total : ℕ) (o : Option LogEntry)
        → length es < limit
        → ((es' : List LogEntry)
            → length es' < limit
            → Goal es' ls (read_entries se s fuel r cache es' ts (total + 1)))
        → (res : ReadEntries) × (after fuel r cache total (read_turn se s es total (ok (o, ts)))
            ≡ some res)
          × (res.entries ≡ es ++ take (limit - length es) (with_hit se s o (hits se s ls)))
    unfolding Goal
    turn-Goal fuel line ls r cache es ts total none room rest = rest es room
    turn-Goal fuel line ls r cache es ts total (some e) room rest =
        let m : ℕ = limit - length es - 1 in
        let len = length-append es (e ∷ []) in
        elim (Bool-cases (is_full se s (es ++ (e ∷ [])))) [
          | inl full ↦
              let same = subst (λ t. eqb_ℤ (pos (length (es ++ (e ∷ [])))) t ≡ true) limited full in
              let one : 1 ≡ limit - length es = ground (arith, same, len) in
              rw full (
                record { entries = es ++ (e ∷ []); oldest_nano = ts; total = total + 1 },
                refl,
                ap (λ j. es ++ take j (e ∷ hits se s ls)) one,
              )
          | inr more ↦
              let other =
                subst (λ t. eqb_ℤ (pos (length (es ++ (e ∷ [])))) t ≡ false) limited more in
              let fewer : length (es ++ (e ∷ [])) < limit = ground (arith, other, len) in
              let r = rest (es ++ (e ∷ [])) fewer in
              let left : limit - length (es ++ (e ∷ [])) ≡ m = omega (arith, len) in
              let next : suc m ≡ limit - length es = omega arith in
              rw more (
                r.0,
                r.1,
                r.2
                    ∙ ap (λ j. (es ++ (e ∷ [])) ++ take j (hits se s ls)) left
                    ∙ append_assoc es (take m (hits se s ls)) e
                    ∙ ap (λ j. es ++ take j (e ∷ hits se s ls)) next,
              )
        ]

    read_entries-hits :
        (fuel : ℕ) (ls : List LogLine) (r : LogReader) (cache : ClientCache) (es : List LogEntry)
        (oldest : ℤ) (total : ℕ)
        → length ls < fuel
        → length es < limit
        → AreLeft r ls
        → AllEncode se s ls
        → IsCached se.env cache
        → Goal es ls (read_entries se s fuel r cache es oldest total)
    unfolding Goal read_times read_next_entry
    read_entries-hits zero ls r cache es oldest total enough room left all cached =
        absurd (omega arith)
    read_entries-hits (suc fuel) [] r cache es oldest total enough room left all cached =
        let end : (next_line se.max_entry r).0 ≡ error eof = ap first left in
        let result : ReadEntries = record { entries = es; oldest_nano = pos 0; total = total } in
        (
          result,
          read_entries-suc fuel r cache es oldest total
              ∙ ap
                  (λ x.
                    after fuel (of_next se s (next_line se.max_entry r) cache).reader
                      (of_next se s (next_line se.max_entry r) cache).cache total
                      (read_turn se s es total
                        (of_next se s (x, (next_line se.max_entry r).1) cache).entry))
                  end,
          sym (append_nil es) ∙ ap (λ l. es ++ l) (sym (take_nil (limit - length es))),
        )
    read_entries-hits (suc fuel) (l ∷ ls) r cache es oldest total enough room left all cached =
        let line = next_line se.max_entry r in
        let next = of_next se s line cache in
        let step = of_next-IsStep se s l line cache (ap first left) all.0 cached in
        let goal =
          turn-Goal fuel l ls next.reader next.cache es step.0.0 total (hit se s l) room
            (λ es' room'.
              read_entries-hits fuel ls next.reader next.cache es' step.0.0 (total + 1)
                (omega arith) room'
                (ap (read_times se.max_entry (suc (length ls))) step.1 ∙ ap others left) all.1
                step.2) in
        (
          goal.0,
          read_entries-suc fuel r cache es oldest total
              ∙ ap (λ x. after fuel next.reader next.cache total (read_turn se s es total x))
                  step.0.1
              ∙ goal.1,
          goal.2,
        )

    -- For a search in whole files, without an older time and without a limit of lines, where the sum of
    -- offset and limit is a positive `limit`: if the files hold these lines, every line holds the values
    -- of its entry, the cache says what the finder of clients says, and there is fuel for one turn more
    -- than there are lines, the search in the files finds the entries that are neither ignored nor fail
    -- to match, from the newest to the oldest, all of them or the first `limit`, as if there were
    -- neither the quick test nor the cache.
    pub search_files-hits :
        (names : LogReader) (lss : List (List LogLine)) (fuel : ℕ) (cache : ClientCache)
        → 0 < limit
        → 0 < se.max_entry
        → s.older_than ≡ none
        → new_log_reader se.open_file ("querylog.json.1" ∷ "querylog.json" ∷ []) ≡ some names
        → Hold se.max_entry (rejoin names.after names.left) lss
        → AllEncode se s (joined lss)
        → IsCached se.env cache
        → length (joined lss) < fuel
        → (res : ReadEntries) × (search_files se s fuel cache ≡ some res)
          × (res.entries ≡ take limit (hits se s (joined lss)))
    unfolding Goal search_files set_log_reader seek_record
    search_files-hits names lss fuel cache some_limit some_size newest opened hold all cached
          enough =
        let start = read_times-seek_newest se.max_entry some_size names lss hold in
        let read =
          read_entries-hits fuel (joined lss) start.0 cache [] (pos 0) 0 enough some_limit start.2
            all cached in
        let set : set_log_reader se s ≡ some start.0 =
          rw (set_log_reader, opened, seek_record, newest, start.1) refl in
        let whole : limit - 0 ≡ limit = omega arith in
        (
          read.0,
          rw (search_files, set) read.1,
          read.2 ∙ ap (λ k. take k (hits se s (joined lss))) whole,
        )
