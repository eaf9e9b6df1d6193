-- ===== src/Querylog/Search.antt =====
-- internal/querylog/search.go: the search in the memory buffer and in the files. The decoder of a line
-- and the engine of ignored hosts are parameters, and so are the parser of times and the system.
use null_private.Prelude.{
  ℕ, zero, suc, ◌+◌, ◌%◌, ◌^◌, Bool, true, false, not, ◌&&◌, ◌||◌, String, Option, none, some, List,
  [], ◌∷◌, ◌++◌, length, take, drop, ltb, ◌==◌ as nat_eqb, if◌then◌else◌,
}
use null_private.Prelude.Int.{ℤ, pos, negsuc, to_word, of_word64, eqb_ℤ, ltb_ℤ, leb_ℤ}
use null_private.Querylog.File.{LogLine, FileError, eof, Result, ok, error}
use null_private.Querylog.Json.{read_qlog_timestamp}
use null_private.Querylog.Criterion.{
  Client, LogEntry, SearchParams, ClientCache, Env, client, quick_match, matches,
}
use null_private.Querylog.Reader.{LogReader, Opening, new_log_reader, next_line, seek_record}
pub mod Bounds
pub mod Complete
pub mod Ends
mod Examples
pub mod Hits

pub record SearchEnv : Type 0 where
  pub env : Env
  pub is_ignored : LogLine → Bool
  pub decode : LogLine → LogEntry
  pub parse_time : LogLine → Option ℤ
  pub open_file : String → Opening
  pub max_entry : ℕ

-- `int` addition.
abbrev pub add_int : ℤ → ℤ → ℤ
add_int a b = of_word64 ((to_word (2 ^ 64) a + to_word (2 ^ 64) b) % 2 ^ 64)

abbrev pub total_limit : SearchParams → ℤ
total_limit s = add_int s.offset s.limit

abbrev pub ignores : Option Client → Bool
ignores none = false
ignores (some c) = c.ignore_query_log

abbrev pub enriched : Option Client → LogEntry → LogEntry
enriched c e = record e { client = c }

abbrev pub kept : Bool → LogEntry → List LogEntry → List LogEntry
kept true e es = e ∷ es
kept false e es = es

-- The order newest first, where equal times stay in order.
abbrev pub put : LogEntry → List LogEntry → List LogEntry
put e [] = e ∷ []
put e (x ∷ es) = let later = put e es in if ltb_ℤ e.time x.time then x ∷ later else e ∷ x ∷ es

abbrev pub sort_entries : List LogEntry → List LogEntry
sort_entries [] = []
sort_entries (e ∷ es) = put e (sort_entries es)

-- What a step of the search in the files leaves: an entry if it matches, and its time stamp.
pub record NextEntry : Type 0 where
  pub entry : Result (Option LogEntry × ℤ)
  pub reader : LogReader
  pub cache : ClientCache

pub record ReadEntries : Type 0 where
  pub entries : List LogEntry
  pub oldest_nano : ℤ
  pub total : ℕ

pub data SearchResult : Type 0 where
  found : List LogEntry → Option ℤ → SearchResult
  panic : SearchResult

-- What the loop does with the outcome of a step: it ends with a result, or goes on with more
-- entries after a time stamp.
pub data ReadTurn : Type 0 where
  done : ReadEntries → ReadTurn
  go_on : List LogEntry → ℤ → ReadTurn

module _ (se : SearchEnv) (s : SearchParams) where
  -- The buffer is from the newest entry to the oldest.
  pub matching : List LogEntry → ClientCache → List LogEntry × ClientCache
  matching [] cache = ([], cache)
  matching (e ∷ es) cache =
      let c = client se.env e.client_id e.ip cache in
      let rest = matching es c.1 in
      (kept (matches se.env s (enriched c.0 e)) (enriched c.0 e) rest.0, rest.1)

  unfoldable pub search_memory : ℕ → List LogEntry → ClientCache → List LogEntry × ClientCache
  unfolding matching
  search_memory mem_size buffer cache =
      if nat_eqb mem_size 0 then ([], cache) else matching buffer cache

  abbrev pub of_entry : LogEntry → Option LogEntry × ℤ
  of_entry e = if matches se.env s e then (some e, e.time) else (none, e.time)

  abbrev pub with_found :
      LogEntry → LogReader → ClientCache → Option Client × ClientCache → NextEntry
  with_found e r cache c =
      if se.is_ignored e.q_host
      then record { entry = ok (none, pos 0); reader = r; cache = cache }
      else if ignores c.0
      then record { entry = ok (none, pos 0); reader = r; cache = c.1 }
      else record { entry = ok (of_entry (enriched c.0 e)); reader = r; cache = c.1 }

  abbrev pub decoded : LogEntry → LogReader → ClientCache → NextEntry
  decoded e r cache = with_found e r cache (client se.env e.client_id e.ip cache)

  abbrev pub of_log_line : LogLine → LogReader → Bool × ClientCache → NextEntry
  of_log_line line r (true, cache) = decoded (se.decode line) r cache
  of_log_line line r (false, cache) = record {
    entry = ok (none, read_qlog_timestamp se.parse_time line);
    reader = r;
    cache = cache;
  }

  abbrev pub of_next : Result LogLine × LogReader → ClientCache → NextEntry
  of_next (error e, r) cache = record { entry = error e; reader = r; cache = cache }
  of_next (ok line, r) cache = of_log_line line r (quick_match se.env s.search_criteria line cache)

  unfoldable pub read_next_entry : LogReader → ClientCache → NextEntry
  read_next_entry r cache = of_next (next_line se.max_entry r) cache

  abbrev pub may_scan : ℕ → Bool
  may_scan total =
      ltb_ℤ (pos total) s.max_file_scan_entries || leb_ℤ s.max_file_scan_entries (pos 0)

  abbrev pub is_full : List LogEntry → Bool
  is_full es = eqb_ℤ (pos (length es)) (total_limit s)

  abbrev pub appended : List LogEntry → Option LogEntry → List LogEntry
  appended es none = es
  appended es (some e) = es ++ (e ∷ [])

  abbrev pub is_last_entry : List LogEntry → Option LogEntry → Bool
  is_last_entry es none = false
  is_last_entry es (some e) = is_full (es ++ (e ∷ []))

  abbrev pub read_turn : List LogEntry → ℕ → Result (Option LogEntry × ℤ) → ReadTurn
  read_turn es total (error e) = elim e [
    | eof ↦ done (record { entries = es; oldest_nano = pos 0; total = total })
    | other ↦ go_on es (pos 0)
  ]
  read_turn es total (ok (e, ts)) =
      if is_last_entry es e
      then done (record { entries = appended es e; oldest_nano = ts; total = total + 1 })
      else go_on (appended es e) ts

  -- The loop of `readEntries`, on fuel.
  unfoldable pub read_entries :
      ℕ → LogReader → ClientCache → List LogEntry → ℤ → ℕ → Option ReadEntries
  read_entries zero r cache es oldest total = none
  read_entries (suc fuel) r cache es oldest total =
      let next = read_next_entry r cache in
      elim (may_scan total) [
        | false ↦ some (record { entries = es; oldest_nano = oldest; total = total })
        | true ↦ elim (read_turn es total next.entry) [
          | done result ↦ some result
          | go_on es' ts ↦ read_entries fuel next.reader next.cache es' ts (total + 1)
        ]
      ]

  abbrev pub nothing_read : ReadEntries
  nothing_read = record { entries = []; oldest_nano = pos 0; total = 0 }

  abbrev pub or_nothing : Result LogReader → Option LogReader
  or_nothing (ok r) = some r
  or_nothing (error e) = none

  -- The reader that stands at the next entry to be returned, if it can be had.
  unfoldable pub set_log_reader : Option LogReader
  set_log_reader = elim (new_log_reader se.open_file ("querylog.json.1" ∷ "querylog.json" ∷ [])) [
    | none ↦ none
    | some r ↦
        or_nothing (seek_record se.max_entry (read_qlog_timestamp se.parse_time) s.older_than r)
  ]

  unfoldable pub search_files : ℕ → ClientCache → Option ReadEntries
  search_files fuel cache = elim set_log_reader [
    | none ↦ some nothing_read
    | some r ↦ read_entries fuel r cache [] (pos 0) 0
  ]

  abbrev cut_to : ℤ → List LogEntry → Option (List LogEntry)
  cut_to (pos n) es = some (if ltb n (length es) then take n es else es)
  cut_to (negsuc n) es = none

  abbrev past_offset : ℤ → List LogEntry → List LogEntry
  past_offset (pos n) es = drop n es
  past_offset (negsuc n) es = es

  -- The time of the last entry, and else that of the files, unless the offset took all entries.
  abbrev oldest_of : ℤ → ℤ → List LogEntry → Option ℤ
  oldest_of offset file_oldest [] =
      if ltb_ℤ (pos 0) offset || eqb_ℤ file_oldest (pos 0) then none else some file_oldest
  oldest_of offset file_oldest (e ∷ []) = some e.time
  oldest_of offset file_oldest (e ∷ x ∷ es) = oldest_of offset file_oldest (x ∷ es)

  abbrev pub page_at : ℤ → ℤ → List LogEntry → ℤ → SearchResult
  page_at offset total all file_oldest = elim (cut_to total all) [
    | none ↦ panic
    | some es ↦
        let shown = past_offset offset (sort_entries es) in
        found shown (oldest_of offset file_oldest shown)
  ]

  abbrev pub page : List LogEntry → ℤ → SearchResult
  page all file_oldest = page_at s.offset (total_limit s) all file_oldest

  abbrev pub merged : List LogEntry → ReadEntries → SearchResult
  merged memory files = page (memory ++ files.entries) files.oldest_nano

  unfoldable pub search : ℕ → ℕ → List LogEntry → Option SearchResult
  search fuel mem_size buffer =
      if eqb_ℤ s.limit (pos 0)
      then some (found [] none)
      else let memory = search_memory mem_size buffer [] in
        elim (search_files fuel memory.1) [
          | none ↦ none
          | some files ↦ some (merged memory.0 files)
        ]
