-- ===== src/Querylog/Examples.antt =====
-- Files of two short lines.
use null_private.Prelude.{
  ℕ, zero, suc, ◌+◌, ◌-◌, ◌<◌, ◌≡◌, refl, true, false, Option, none, some, List, [], ◌∷◌, take,
  drop, length, arith, sym, ap, ◌∙◌, ◌≢◌, inl, inr, Bool-cases, ◌==◌ as nat_eqb, str_eq,
  if◌then◌else◌,
}
use null_private.Prelude.Int.{ℤ, pos, negsuc, eqb_ℤ, ltb_ℤ}
use null_private.Querylog.File.{
  LogLine, OsFile, new_log_file, ok, error, eof, line_start, line_end, slice, read_next, seek_ts,
  seek_start, newline,
}
use null_private.Querylog.File.Scan.{StartsAt, byte_of}
use null_private.Querylog.File.Reads.{IsPlain}
use null_private.Querylog.File.Lines.{content_of, IsLine}
use null_private.Querylog.File.Seeks.{IsLog, line_from}
use null_private.Querylog.File.Searches.{read_next-seek_ts}
use null_private.Querylog.Reader.{
  LogReader, opened, not_exist, seek_newest, rejoin, new_log_reader, seek_record,
}
use null_private.Querylog.Reader.Progress.{bytes_left}
use null_private.Filtering.Outcome.{not_filtered_not_found}
use null_private.Prelude.Map.{lookup, bytes_beq}
use null_private.Querylog.Json.{codes, read_json_value}
use null_private.Querylog.Criterion.{
  LogEntry, SearchParams, Env, ct_term, matches, quick_match, pair_eq,
}
use null_private.Querylog.Criterion.Quick.{Encodes, IsCached, quick_match-matches}
use null_private.Querylog.Search.{SearchEnv, SearchResult, panic, search, set_log_reader}
use null_private.Querylog.Search.Bounds.{IsPage, search-IsPage, search-panic}
use null_private.Querylog.Reader.Whole.{read_times, read_times-seek_newest}

-- A regular file of these lines, the newest of which is the first.
abbrev plain_file : List LogLine → OsFile
plain_file ls = record {
  stat = some (length (content_of ls));
  read = λ o k. some (take k (drop o (content_of ls)));
}

plain_file-IsPlain : (ls : List LogLine) → IsPlain (plain_file ls) (content_of ls)
plain_file-IsPlain ls = record { sized = refl; filled = λ o k h. refl }

abbrev two_lines : List LogLine
two_lines = (50 ∷ []) ∷ (49 ∷ []) ∷ []

-- The time stamp of a line is its first byte.
abbrev first_byte : LogLine → ℤ
first_byte [] = pos 0
first_byte (x ∷ line) = pos x

two_lines-IsLog : IsLog 2 first_byte (content_of two_lines)
unfolding content_of line_start line_end slice
two_lines-IsLog = record { ended = ended; stamped = stamped; sorted = sorted }
  where
    c : ℕ → ℕ
    c = byte_of (content_of two_lines)

    ended :
        (p : ℕ)
        → p < length (content_of two_lines)
        → (e : ℕ) × (line_end c p (length (content_of two_lines) - p) ≡ some e)
          × (e < line_start c p + 2)
    ended zero h = (1, refl, omega arith)
    ended (suc zero) h = (1, refl, omega arith)
    ended (suc (suc zero)) h = (3, refl, omega arith)
    ended (suc (suc (suc zero))) h = (3, refl, omega arith)
    ended (suc (suc (suc (suc p)))) h = absurd (omega arith)

    stamped :
        (p : ℕ)
        → StartsAt c p
        → p < length (content_of two_lines)
        → eqb_ℤ (first_byte (line_from c (length (content_of two_lines)) p)) (pos 0) ≡ false
    stamped zero s h = refl
    stamped (suc zero) s h = absurd (ground (arith, s 0 refl))
    stamped (suc (suc zero)) s h = refl
    stamped (suc (suc (suc zero))) s h = absurd (ground (arith, s 2 refl))
    stamped (suc (suc (suc (suc p)))) s h = absurd (omega arith)

    sorted :
        (p q : ℕ)
        → StartsAt c p
        → StartsAt c q
        → p < q
        → q < length (content_of two_lines)
        → ltb_ℤ
            (first_byte (line_from c (length (content_of two_lines)) p))
            (first_byte (line_from c (length (content_of two_lines)) q))
          ≡ true
    sorted zero zero s s' lt h = absurd (omega arith)
    sorted p (suc zero) s s' lt h = absurd (ground (arith, s' 0 refl))
    sorted zero (suc (suc zero)) s s' lt h = refl
    sorted (suc zero) q s s' lt h = absurd (ground (arith, s 0 refl))
    sorted (suc (suc p)) (suc (suc zero)) s s' lt h = absurd (omega arith)
    sorted p (suc (suc (suc zero))) s s' lt h = absurd (ground (arith, s' 2 refl))
    sorted p (suc (suc (suc (suc q)))) s s' lt h = absurd (omega arith)
    sorted (suc (suc p)) zero s s' lt h = absurd (omega arith)

read_next-seek_ts_example :
    (d : ℕ) × (d < 100)
    × ((seek_ts 2 (plain_file two_lines) first_byte (pos 49) new_log_file).0 ≡ ok (1, d))
    × ((read_next 2
          (plain_file two_lines)
          (seek_ts 2 (plain_file two_lines) first_byte (pos 49) new_log_file).1).0
        ≡ ok (49 ∷ []))
unfolding content_of line_end slice
read_next-seek_ts_example =
    read_next-seek_ts 2 (plain_file two_lines) first_byte (content_of two_lines)
      (plain_file-IsPlain two_lines) two_lines-IsLog 0 (λ i e. absurd (omega arith)) (omega arith)
      new_log_file (omega arith) (omega arith)

one_byte : (x : ℕ) → x ≢ newline → IsLine 2 (x ∷ [])
one_byte x h = (
  omega arith,
  omega arith,
  λ i lt. elim (Bool-cases (nat_eqb i 0)) [
    | inl e ↦ λ k. let z : i ≡ 0 = ground (arith, e) in h (sym (ap (byte_of (x ∷ [])) z) ∙ k)
    | inr e ↦ absurd (ground (arith, e))
  ],
)

abbrev both_files : LogReader
both_files = record {
  left = (plain_file two_lines, new_log_file) ∷ [];
  after = (plain_file ((51 ∷ []) ∷ []), new_log_file) ∷ [];
}

read_times-seek_newest_example :
    (r : LogReader) × (seek_newest 2 both_files ≡ ok r)
    × (read_times 2 4 r ≡ ok (51 ∷ []) ∷ ok (50 ∷ []) ∷ ok (49 ∷ []) ∷ error eof ∷ [])
unfolding rejoin
read_times-seek_newest_example =
    read_times-seek_newest 2 (omega arith) both_files (((51 ∷ []) ∷ []) ∷ two_lines ∷ []) (
      plain_file-IsPlain ((51 ∷ []) ∷ []),
      (one_byte 51 (λ h. absurd (omega arith)), tt),
      (
        plain_file-IsPlain two_lines,
        (one_byte 50 (λ h. absurd (omega arith)), (one_byte 49 (λ h. absurd (omega arith)), tt)),
        tt,
      ),
    )

-- No client is known, and names are compared as they are.
abbrev env₀ : Env
env₀ = record { find_client = λ ids. some none; equal_fold = bytes_beq; contains_fold = bytes_beq }

abbrev entry_at : ℕ → LogEntry
entry_at time = record {
  client = none;
  time = pos time;
  q_host = codes "a.b";
  client_id = [];
  ip = codes "1.2.3.4";
  reason = not_filtered_not_found;
  is_filtered = false;
}

abbrev search_host : SearchParams
search_host = record {
  older_than = none;
  search_criteria =
      record { value = codes "a.b"; ascii_val = []; criterion_type = ct_term; strict = true } ∷ [];
  offset = pos 1;
  limit = pos 2;
  max_file_scan_entries = pos 50_000;
}

abbrev line₀ : LogLine
line₀ = codes "{\"T\":\"9\",\"QH\":\"a.b\",\"IP\":\"1.2.3.4\"}"

line₀-Encodes : Encodes env₀ line₀ (entry_at 9)
unfolding read_json_value
line₀-Encodes = record { is_host = refl; is_ip = refl; is_id = refl; is_client = refl }

quick_match-matches_example :
    (matches env₀ search_host (entry_at 9) ≡ true
      → (quick_match env₀ search_host.search_criteria line₀ []).0 ≡ true)
    × IsCached env₀ (quick_match env₀ search_host.search_criteria line₀ []).1
unfolding lookup
quick_match-matches_example =
    quick_match-matches env₀ line₀ (entry_at 9) line₀-Encodes search_host []
      (λ client_id ip c e. absurd (ground arith))

-- The file of two lines, and no older one.
abbrev search_env : SearchEnv
search_env = record {
  env = env₀;
  is_ignored = λ host. false;
  decode = λ line. entry_at (byte_of line 0);
  parse_time = λ val. none;
  open_file =
      λ name. if str_eq name "querylog.json" then opened (plain_file two_lines) else not_exist;
  max_entry = 2;
}

abbrev left_of : Option LogReader → ℕ
left_of none = 0
left_of (some r) = bytes_left r.left

search-IsPage_example :
    (res : SearchResult) × (search search_env search_host 9 2 (entry_at 7 ∷ entry_at 5 ∷ [])
      ≡ some res)
    × IsPage search_env search_host 2 res
unfolding set_log_reader new_log_reader seek_record seek_newest rejoin seek_start content_of
search-IsPage_example =
    search-IsPage search_env search_host 1 2 9 2 (entry_at 7 ∷ entry_at 5 ∷ []) refl refl
      (omega arith) (omega arith) (omega arith)
      (λ r e. let left : 3 ≡ bytes_left r.left = ap left_of e in omega arith)

abbrev negative_limit : SearchParams
negative_limit = record search_host { offset = pos 0; limit = negsuc 0 }

search-panic_example : search search_env negative_limit 9 2 (entry_at 7 ∷ []) ≡ some panic
unfolding set_log_reader new_log_reader seek_record seek_newest rejoin seek_start content_of
search-panic_example =
    search-panic search_env negative_limit 0 9 2 (entry_at 7 ∷ []) (λ h. absurd (ground (arith, h)))
      refl (omega arith) (λ r e. let left : 3 ≡ bytes_left r.left = ap left_of e in omega arith)
