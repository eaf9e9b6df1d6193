-- ===== src/Querylog/Search/Bounds.antt =====
-- What `search` returns of the entries in the buffer and in the files.
use null_private.Prelude.{
  ℕ, zero, suc, ◌+◌, ◌^◌, ◌≤◌, ◌<◌, ◌≡◌, refl, ap, ap₂, ltb, sym, subst, ◌∙◌, Bool, true, false,
  some, List, [], ◌∷◌, ◌++◌, arith, length, take, drop, length-drop, length-take_of_le,
  if◌then◌else◌,
}
use null_private.Prelude.Int.{ℤ, pos, negsuc, ltb_ℤ, eqb_ℤ, eq_of_eqb_ℤ}
use null_private.Querylog.Criterion.{LogEntry, SearchParams, ClientCache, matches, client}
use null_private.Querylog.Reader.{LogReader}
use null_private.Querylog.Reader.Progress.{bytes_left}
use null_private.Querylog.Search.{
  SearchEnv, kept, ReadEntries, SearchResult, found, panic, total_limit, put, sort_entries,
  matching, search_memory, set_log_reader, search_files, page_at, page, search, add_int,
}
use null_private.Querylog.Search.Ends.{AllMatch, search_files_lem}

-- No entry is followed by one with a later time.
abbrev pub IsNewestFirst : List LogEntry → Type 0
IsNewestFirst [] = Unit
IsNewestFirst (e ∷ []) = Unit
IsNewestFirst (e ∷ x ∷ es) = (ltb_ℤ e.time x.time ≡ false) × IsNewestFirst (x ∷ es)

length-put : (e : LogEntry) (es : List LogEntry) → length (put e es) ≡ suc (length es)
length-put e [] = refl
length-put e (x ∷ es) = ground (arith, length-put e es)

length-sort : (es : List LogEntry) → length (sort_entries es) ≡ length es
length-sort [] = refl
length-sort (e ∷ es) = length-put e (sort_entries es) ∙ omega (arith, length-sort es)

not_later : (a b : ℤ) → ltb_ℤ a b ≡ true → ltb_ℤ b a ≡ false
not_later a b h = ground (arith, h)

put-IsNewestFirst :
    (e : LogEntry) (es : List LogEntry) → IsNewestFirst es → IsNewestFirst (put e es)
put-IsNewestFirst e [] h = tt
put-IsNewestFirst e (x ∷ []) h = ground (arith, not_later e.time x.time)
put-IsNewestFirst e (x ∷ y ∷ es) h =
    ground
      (arith, not_later e.time x.time, not_later e.time y.time, put-IsNewestFirst e (y ∷ es) h.1)

sort-IsNewestFirst : (es : List LogEntry) → IsNewestFirst (sort_entries es)
sort-IsNewestFirst [] = tt
sort-IsNewestFirst (e ∷ es) = put-IsNewestFirst e (sort_entries es) (sort-IsNewestFirst es)

drop-IsNewestFirst : (n : ℕ) (es : List LogEntry) → IsNewestFirst es → IsNewestFirst (drop n es)
drop-IsNewestFirst zero es h = h
drop-IsNewestFirst (suc n) [] h = tt
drop-IsNewestFirst (suc zero) (e ∷ []) h = tt
drop-IsNewestFirst (suc (suc n)) (e ∷ []) h = tt
drop-IsNewestFirst (suc n) (e ∷ x ∷ es) h = drop-IsNewestFirst n (x ∷ es) h.1

module _ (se : SearchEnv) (s : SearchParams) where
  abbrev All : List LogEntry → Type 0
  All = AllMatch se s

  take-AllMatch : (n : ℕ) (es : List LogEntry) → All es → All (take n es)
  take-AllMatch zero es all = tt
  take-AllMatch (suc n) [] all = tt
  take-AllMatch (suc n) (e ∷ es) all = (all.0, take-AllMatch n es all.1)

  drop-AllMatch : (n : ℕ) (es : List LogEntry) → All es → All (drop n es)
  drop-AllMatch zero es all = all
  drop-AllMatch (suc n) [] all = tt
  drop-AllMatch (suc n) (e ∷ es) all = drop-AllMatch n es all.1

  put-AllMatch :
      (e : LogEntry) (es : List LogEntry) → matches se.env s e ≡ true → All es → All (put e es)
  put-AllMatch e [] h all = (h, tt)
  put-AllMatch e (x ∷ es) h all = ground (arith, put-AllMatch e es h all.1)

  sort-AllMatch : (es : List LogEntry) → All es → All (sort_entries es)
  sort-AllMatch [] all = tt
  sort-AllMatch (e ∷ es) all = put-AllMatch e (sort_entries es) all.0 (sort-AllMatch es all.1)

  append-AllMatch : (es fs : List LogEntry) → All es → All fs → All (es ++ fs)
  append-AllMatch [] fs all all' = all'
  append-AllMatch (e ∷ es) fs all all' = (all.0, append-AllMatch es fs all.1 all')

  kept-AllMatch :
      (b : Bool) (e : LogEntry) (es : List LogEntry)
      → matches se.env s e ≡ b
      → All es
      → All (kept b e es)
  kept-AllMatch true e es h all = (h, all)
  kept-AllMatch false e es h all = all

  matching-AllMatch : (es : List LogEntry) (cache : ClientCache) → All (matching se s es cache).0
  unfolding matching
  matching-AllMatch [] cache = tt
  matching-AllMatch (e ∷ es) cache =
      kept-AllMatch _ _ _ refl (matching-AllMatch es (client se.env e.client_id e.ip cache).1)

  search_memory-AllMatch :
      (mem_size : ℕ) (es : List LogEntry) (cache : ClientCache)
      → All (search_memory se s mem_size es cache).0
  unfolding search_memory
  search_memory-AllMatch mem_size es cache = ground (arith, matching-AllMatch es cache)

  -- A page that may be shown.
  abbrev pub IsPage : ℕ → SearchResult → Type 0
  IsPage limit (found es oldest) = (length es ≤ limit) × All es × IsNewestFirst es
  IsPage limit panic = ⊥

  page-IsPage :
      (offset limit : ℕ) (all : List LogEntry) (file_oldest : ℤ)
      → s.offset ≡ pos offset
      → s.limit ≡ pos limit
      → offset + limit < 2 ^ 63
      → All all
      → IsPage limit (page se s all file_oldest)
  page-IsPage offset limit all file_oldest o l small all_match =
      let total : total_limit s ≡ pos (offset + limit) = ap₂ add_int o l ∙ ground arith in
      subst (λ k. IsPage limit (page_at se s s.offset k all file_oldest)) (sym total)
        (subst (λ k. IsPage limit (page_at se s k (pos (offset + limit)) all file_oldest)) (sym o)
          (
            ground (
              arith,
              length-drop offset (sort_entries shown),
              length-sort shown,
              length-take_of_le (offset + limit) all,
            ),
            drop-AllMatch offset (sort_entries shown)
                (sort-AllMatch shown (ground (arith, take-AllMatch (offset + limit) all))),
            drop-IsNewestFirst offset (sort_entries shown) (sort-IsNewestFirst shown),
          ))
    where
      shown : List LogEntry
      shown = if ltb (offset + limit) (length all) then take (offset + limit) all else all

  search-found :
      (fuel mem_size : ℕ) (buffer : List LogEntry) (files : ReadEntries)
      → ¬ (s.limit ≡ pos 0)
      → search_files se s fuel (search_memory se s mem_size buffer []).1 ≡ some files
      → search se s fuel mem_size buffer
        ≡ some (
            page se s
              ((search_memory se s mem_size buffer []).0 ++ files.entries)
              files.oldest_nano)
  unfolding search
  search-found fuel mem_size buffer files limited e =
      let h : eqb_ℤ s.limit (pos 0) ≡ false = ground (arith, eq_of_eqb_ℤ s.limit (pos 0)) in
      rw (search, h, e) refl

  -- For an offset and a positive limit whose sum is less than 2^63, a positive size of an entry, and
  -- more fuel than there are bytes left for the reader of the files: the search returns, whatever the
  -- operating system answers, at most `limit` entries, which all match, and of which none is followed
  -- by a later one.
  pub search-IsPage :
      (offset limit fuel mem_size : ℕ) (buffer : List LogEntry)
      → s.offset ≡ pos offset
      → s.limit ≡ pos limit
      → 0 < limit
      → offset + limit < 2 ^ 63
      → 0 < se.max_entry
      → ((r : LogReader) → set_log_reader se s ≡ some r → bytes_left r.left < fuel)
      → (res : SearchResult) × (search se s fuel mem_size buffer ≡ some res) × IsPage limit res
  search-IsPage offset limit fuel mem_size buffer o l limited small some_size enough =
      let memory = search_memory se s mem_size buffer [] in
      let files = search_files_lem se s fuel memory.1 some_size enough in
      (
        page se s (memory.0 ++ files.0.entries) files.0.oldest_nano,
        search-found fuel mem_size buffer files.0 (ground (arith, l)) files.1,
        page-IsPage offset limit (memory.0 ++ files.0.entries) files.0.oldest_nano o l small (
            append-AllMatch memory.0 files.0.entries (search_memory-AllMatch mem_size buffer [])
              files.2.0),
      )

  -- A search whose sum of offset and limit is negative, for a limit but 0, panics, whatever there is in
  -- the buffer and in the files (with a positive size of an entry, and more fuel than there are bytes
  -- left for the reader of the files).
  pub search-panic :
      (n fuel mem_size : ℕ) (buffer : List LogEntry)
      → ¬ (s.limit ≡ pos 0)
      → total_limit s ≡ negsuc n
      → 0 < se.max_entry
      → ((r : LogReader) → set_log_reader se s ≡ some r → bytes_left r.left < fuel)
      → search se s fuel mem_size buffer ≡ some panic
  search-panic n fuel mem_size buffer limited total some_size enough =
      let memory = search_memory se s mem_size buffer [] in
      let files = search_files_lem se s fuel memory.1 some_size enough in
      search-found fuel mem_size buffer files.0 limited files.1
      ∙ ap (λ k. some (page_at se s s.offset k (memory.0 ++ files.0.entries) files.0.oldest_nano))
          total
