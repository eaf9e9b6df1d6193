-- ===== src/Querylog/Search/Examples.antt =====
-- A search for a host in a file of three lines.
use null_private.Prelude.{
  ℕ, zero, suc, ◌<◌, ◌≡◌, ◌≢◌, refl, Bool, true, false, not, ◌&&◌, none, some, List, [], ◌∷◌, take,
  drop, length, arith, str_eq, ◌==◌ as nat_eqb, if◌then◌else◌,
}
use null_private.Prelude.Int.{pos}
use null_private.Prelude.Map.{bytes_beq, lookup}
use null_private.Filtering.Outcome.{not_filtered_not_found}
use null_private.Querylog.File.{LogLine, OsFile, new_log_file, newline}
use null_private.Querylog.File.Scan.{byte_of}
use null_private.Querylog.File.Lines.{content_of, IsLine}
use null_private.Querylog.Json.{codes, read_json_value}
use null_private.Querylog.Criterion.{
  LogEntry, SearchParams, Env, ct_term, host_key, ip_key, cid_key, matches, match_criterion,
}
use null_private.Querylog.Criterion.Quick.{Encodes}
use null_private.Querylog.Reader.{opened, not_exist, new_log_reader, rejoin}
use null_private.Querylog.Search.{SearchEnv, ReadEntries, search_files}
use null_private.Querylog.Search.Complete.{search_files-hits}
use null_private.Querylog.Search.Hits.{hits}

abbrev has_no_break : LogLine → Bool
has_no_break [] = true
has_no_break (x ∷ line) = not (nat_eqb x newline) && has_no_break line

no_break :
    (line : LogLine) (i : ℕ) → has_no_break line ≡ true → i < length line → byte_of line i ≢ newline
no_break [] i h lt = absurd (omega arith)
no_break (x ∷ line) zero h lt = ground (arith, h)
no_break (x ∷ line) (suc i) h lt = no_break line i (ground (arith, h)) (omega arith)

abbrev first_line : LogLine
first_line = codes "{\"QH\":\"a.b\",\"IP\":\"::1\"}"

abbrev other_line : LogLine
other_line = codes "{\"QH\":\"c.d\",\"IP\":\"::1\"}"

abbrev three_lines : List LogLine
three_lines = first_line ∷ other_line ∷ first_line ∷ []

first_line-IsLine : IsLine 64 first_line
first_line-IsLine = (omega arith, omega arith, λ i lt. no_break first_line i refl lt)

other_line-IsLine : IsLine 64 other_line
other_line-IsLine = (omega arith, omega arith, λ i lt. no_break other_line i refl lt)

abbrev file₀ : OsFile
file₀ = record {
  stat = some (length (content_of three_lines));
  read = λ o k. some (take k (drop o (content_of three_lines)));
}

abbrev env₀ : Env
env₀ = record { find_client = λ ids. some none; equal_fold = bytes_beq; contains_fold = bytes_beq }

abbrev entry₀ : LogLine → LogEntry
entry₀ line = record {
  client = none;
  time = pos 1;
  q_host = read_json_value line host_key;
  client_id = read_json_value line cid_key;
  ip = read_json_value line ip_key;
  reason = not_filtered_not_found;
  is_filtered = false;
}

entry₀-Encodes : (line : LogLine) → Encodes env₀ line (entry₀ line)
entry₀-Encodes line = record { is_host = refl; is_ip = refl; is_id = refl; is_client = refl }

abbrev se₀ : SearchEnv
se₀ = record {
  env = env₀;
  is_ignored = λ host. false;
  decode = entry₀;
  parse_time = λ val. none;
  open_file = λ name. if str_eq name "querylog.json" then opened file₀ else not_exist;
  max_entry = 64;
}

abbrev params₀ : SearchParams
params₀ = record {
  older_than = none;
  search_criteria =
      record { value = codes "a.b"; ascii_val = []; criterion_type = ct_term; strict = true } ∷ [];
  offset = pos 0;
  limit = pos 2;
  max_file_scan_entries = pos 0;
}

search_files-hits_example :
    (res : ReadEntries) × (search_files se₀ params₀ 4 [] ≡ some res)
    × (res.entries ≡ take 2 (hits se₀ params₀ three_lines))
unfolding new_log_reader rejoin lookup
search_files-hits_example =
    search_files-hits se₀ params₀ 2 refl refl
      (record { left = (file₀, new_log_file) ∷ []; after = [] }) (three_lines ∷ []) 4 []
      (omega arith) (omega arith) refl refl
      (
        record { sized = refl; filled = λ o k h. refl },
        (first_line-IsLine, (other_line-IsLine, (first_line-IsLine, tt))),
        tt,
      )
      (entry₀-Encodes first_line, (entry₀-Encodes other_line, (entry₀-Encodes first_line, tt)))
      (λ client_id ip c e. absurd (ground arith)) (omega arith)

-- Two of the three lines are found.
both_found : length (hits se₀ params₀ three_lines) ≡ 2
unfolding matches match_criterion read_json_value
both_found = refl
