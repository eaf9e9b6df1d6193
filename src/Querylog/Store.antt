-- ===== src/Querylog/Store.antt =====
-- internal/querylog/qlog.go and querylogfile.go: entries are added to a
-- buffer in memory, flushed to the file, and the file is rotated.
use null_private.Prelude.{
  ℕ, ◌+◌, ◌*◌, ◌/◌, ◌≡◌, Bool, true, false, not, ◌&&◌, ◌||◌, Option, none, some, List, [], ◌∷◌,
  ◌++◌, length, take, leb, ◌==◌ as nat_eqb, if◌then◌else◌,
}
use null_private.Prelude.Int.{ℤ, pos, ltb_ℤ, leb_ℤ, eqb_ℤ, pos_part, neg_part, sub_ℕ}
use null_private.Filtering.Outcome.{Reason, not_filtered_not_found}
use null_private.Querylog.File.{LogLine}
use null_private.Querylog.File.Lines.{content_of}
use null_private.Querylog.Json.{read_json_value, time_key}
use null_private.Querylog.Criterion.{Client, LogEntry}
use null_private.Querylog.Config.{Config, validate_ivl}
mod Examples
pub mod Keeps
pub mod Interval

-- The ring buffer of the library: a push leaves the newest entries, as many as it holds.
pub record RingBuffer (B : Type 0) : Type 0 where
  pub push : LogEntry → B → B
  pub clear : B → B
  pub range : B → List LogEntry
  pub capacity : B → ℕ
  pub range-push : (e : LogEntry) (b : B) → range (push e b) ≡ take (capacity b) (e ∷ range b)
  pub range-clear : (b : B) → range (clear b) ≡ []
  pub capacity-push : (e : LogEntry) (b : B) → capacity (push e b) ≡ capacity b
  pub capacity-clear : (b : B) → capacity (clear b) ≡ capacity b

-- The files hold their lines from the newest to the oldest; `none` is a file that does not exist.
pub record QueryLog (B : Type 0) : Type 0 where
  pub conf : Config
  pub buffer : B
  pub flush_pending : Bool
  pub log_file : Option (List LogLine)
  pub old_log_file : Option (List LogLine)

-- What the query log reads of a request: the names of its questions (or no message at all).
pub record AddParams : Type 0 where
  pub question : Option (List LogLine)
  pub client_id : LogLine
  pub client_ip : Option LogLine
  pub result : Option (Reason × Bool)
  pub now : ℤ

pub data ParamsError : Type 0 where
  question_is_nil not_one_question no_host no_client_ip : ParamsError

abbrev one_name : List LogLine → Option LogLine → Option ParamsError
one_name ([] ∷ []) ip = some no_host
one_name ((x ∷ name) ∷ []) none = some no_client_ip
one_name ((x ∷ name) ∷ []) (some ip) = none
one_name _ ip = some not_one_question

unfoldable pub validate_params : AddParams → Option ParamsError
validate_params p = elim p.question [
  | none ↦ some question_is_nil
  | some names ↦ one_name names p.client_ip
]

abbrev pub lines_of : Option (List LogLine) → List LogLine
lines_of none = []
lines_of (some lines) = lines

-- The names are normalized by aghnet, entries are encoded by encoding/json.
module _ {B : Type 0} (ring : RingBuffer B) (normalize : LogLine → LogLine)
    (encode : LogEntry → Option LogLine) (parse_time : LogLine → Option ℤ) where
  -- The files are those that are there.
  unfoldable pub new_query_log :
      (ℕ → B) → Config → Option (List LogLine) → Option (List LogLine) → Option (QueryLog B)
  new_query_log new_ring conf log old = elim (validate_ivl conf.rotation_ivl) [
    | some e ↦ none
    | none ↦ some (record {
      conf = conf;
      buffer = new_ring (if nat_eqb conf.mem_size 0 then 1 else conf.mem_size);
      flush_pending = false;
      log_file = log;
      old_log_file = old;
    })
  ]

  abbrev first_name : Option (List LogLine) → LogLine
  first_name none = []
  first_name (some []) = []
  first_name (some (name ∷ names)) = name

  abbrev ip_of : Option LogLine → LogLine
  ip_of none = []
  ip_of (some ip) = ip

  abbrev result_of : Option (Reason × Bool) → Reason × Bool
  result_of none = (not_filtered_not_found, false)
  result_of (some r) = r

  abbrev pub new_log_entry : AddParams → LogEntry
  new_log_entry p = record {
    client = none;
    time = p.now;
    q_host = normalize (first_name p.question);
    client_id = p.client_id;
    ip = ip_of p.client_ip;
    reason = (result_of p.result).0;
    is_filtered = (result_of p.result).1;
  }

  abbrev pub length_of : B → ℕ
  length_of b = length (ring.range b)

  abbrev pub starts_flush : QueryLog B → B → Bool
  starts_flush l b = not l.flush_pending && l.conf.file_enabled && leb l.conf.mem_size (length_of b)

  abbrev pub pushed : LogEntry → QueryLog B → Bool × QueryLog B
  pushed e l =
      let b = ring.push e l.buffer in
      (
        starts_flush l b,
        record l { buffer = b; flush_pending = l.flush_pending || starts_flush l b },
      )

  -- Whether a flush was started, which runs on its own, and the new state.
  unfoldable pub add : AddParams → QueryLog B → Bool × QueryLog B
  add p l =
      if not l.conf.enabled
      then (false, l)
      else elim (validate_params p) [ some e ↦ (false, l) | none ↦ pushed (new_log_entry p) l ]

  abbrev with_line : Option LogLine → Option (List LogLine) → Option (List LogLine)
  with_line (some line) (some lines) = some (line ∷ lines)
  with_line _ _ = none

  -- The lines of entries, or none if one of them cannot be encoded.
  unfoldable pub encode_entries : List LogEntry → Option (List LogLine)
  encode_entries [] = some []
  encode_entries (e ∷ es) = with_line (encode e) (encode_entries es)

  abbrev pub cleared : QueryLog B → QueryLog B
  cleared l = record l { buffer = ring.clear l.buffer; flush_pending = false }

  -- `is_written` tells whether the file can be opened and written.
  unfoldable pub flush_log_buffer : Bool → QueryLog B → Bool × QueryLog B
  flush_log_buffer is_written l =
      if nat_eqb (length_of l.buffer) 0
      then (false, l)
      else elim (encode_entries (ring.range l.buffer)) [
        | none ↦ (false, l)
        | some lines ↦
            if is_written
            then (true, record (cleared l) { log_file = some (lines ++ lines_of l.log_file) })
            else (false, cleared l)
      ]

  -- `clear`, where the files can be removed.
  unfoldable pub clear_log : QueryLog B → QueryLog B
  clear_log l = record (cleared l) { log_file = none; old_log_file = none }

  unfoldable pub rotate : QueryLog B → QueryLog B
  rotate l = elim l.log_file [
    | none ↦ l
    | some lines ↦ record l { log_file = none; old_log_file = some lines }
  ]

  -- The time of the first entry, which is looked for in the first 512 bytes; an empty file has none.
  abbrev first_time : List LogLine → Option ℤ
  first_time lines = parse_time (read_json_value (take 512 (content_of lines)) time_key)

  abbrev time_add : ℤ → ℤ → ℤ
  time_add a b = sub_ℕ (pos_part a + pos_part b) (neg_part a + neg_part b)

  unfoldable pub check_and_rotate : ℤ → QueryLog B → QueryLog B
  check_and_rotate now l = elim l.log_file [
    | none ↦ l
    | some lines ↦ elim (first_time lines) [
      | none ↦ l
      | some oldest ↦ if ltb_ℤ now (time_add oldest l.conf.rotation_ivl) then l else rotate l
    ]
  ]
