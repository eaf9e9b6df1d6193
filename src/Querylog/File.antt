-- ===== src/Querylog/File.antt =====
-- internal/querylog/qlogfile.go: a log file that is read from its end, a line at a time, and searched
-- for a time stamp. What the operating system answers is a parameter: the size of the file, and the
-- bytes that a read at a position puts into a buffer (the seek before it included).
use null_private.Prelude.{
  ℕ, zero, suc, ◌+◌, ◌-◌, ◌*◌, ◌/◌, Bool, true, false, ◌&&◌, not, String, Option, none, some, List,
  [], ◌∷◌, ◌==◌ as nat_eqb, ltb, length, get_elem?, if◌then◌else◌,
}
use null_private.Prelude.Int.{ℤ, pos, ltb_ℤ, eqb_ℤ}
pub mod Lines
pub mod Scan
pub mod Reads
pub mod Searches
pub mod Seeks
pub mod Steps

-- A buffer is its byte at each index, and a line the list of its bytes.
abbrev pub Buffer : Type 0
Buffer = ℕ → ℕ

abbrev pub LogLine : Type 0
LogLine = List ℕ

pub record OsFile : Type 0 where
  pub stat : Option ℕ
  pub read : ℕ → ℕ → Option (List ℕ)

-- A read into a buffer: the bytes past those that were read stay.
abbrev pub copy : List ℕ → Buffer → Buffer
copy bytes b i = elim (get_elem? bytes i) [ some v ↦ v | none ↦ b i ]

abbrev pub zeros : Buffer
zeros i = 0

abbrev pub newline : ℕ
newline = 10

-- The loop to the left: the index behind the last line break before `i`, or 0.
unfoldable pub line_start : Buffer → ℕ → ℕ
line_start b zero = 0
line_start b (suc i) = elim (nat_eqb (b i) newline) [ true ↦ suc i | false ↦ line_start b i ]

-- The loop to the right, over `n` bytes from `i` on: the first line break.
unfoldable pub line_end : Buffer → ℕ → ℕ → Option ℕ
line_end b i zero = none
line_end b i (suc n) = elim (nat_eqb (b i) newline) [ true ↦ some i | false ↦ line_end b (i + 1) n ]

-- The `n` bytes from `i` on.
unfoldable pub slice : Buffer → ℕ → ℕ → LogLine
slice b i zero = []
slice b i (suc n) = b i ∷ slice b (i + 1) n

pub record LogFile : Type 0 where
  pub buffer : Option Buffer
  pub position : ℕ
  pub buffer_start : ℕ
  pub buffer_len : ℕ

abbrev pub new_log_file : LogFile
new_log_file = record { buffer = none; position = 0; buffer_start = 0; buffer_len = 0 }

pub data FileError : Type 0 where
  eof failed no_timestamp : FileError
  ts_not_found ts_too_late ts_too_early : FileError

-- The line that a probe meets, and the indexes of its start and of the next line.
pub record Probe : Type 0 where
  pub line : LogLine
  pub line_idx : ℕ
  pub line_end_idx : ℕ

abbrev pub idx_of : Option Probe → Option ℕ
idx_of none = none
idx_of (some p) = some p.line_idx

-- What to do after a probe: give up, stop at a line, or search on in a scope.
pub data Step : Type 0 where
  stop : FileError → Step
  found : ℕ → Step
  narrow : ℕ → ℕ → Step

pub data Result (A : Type 0) : Type 0 where
  ok : A → Result A
  error : FileError → Result A

abbrev pub max_entry_size : ℕ
max_entry_size = 16 * 1024

abbrev pub allocated : Option Buffer → Buffer
allocated none = zeros
allocated (some b) = b

-- The size of an entry is a parameter, so that a short file shows how the buffer moves.
module _ (max : ℕ) (os : OsFile) where
  abbrev pub buffer_size : ℕ
  buffer_size = 100 * max

  abbrev pub start_for : ℕ → ℕ
  start_for position = if ltb buffer_size position then position - buffer_size else 0

  unfoldable pub init_buffer : ℕ → LogFile → Bool × LogFile
  init_buffer position q =
      let start = start_for position in
      let b = allocated q.buffer in
      elim (os.read start buffer_size) [
        | none ↦ (false, record q { buffer = some b; buffer_start = start; buffer_len = 0 })
        | some bytes ↦ (
          true,
          record q {
            buffer = some (copy bytes b);
            buffer_start = start;
            buffer_len = length bytes;
          },
        )
      ]

  -- Whether the buffer has to be read again. A position before the buffer, negative in Go, is 0 here, and
  -- then the buffer is read again, too.
  abbrev pub is_stale : ℕ → LogFile → Bool
  is_stale position q = elim q.buffer [
    | none ↦ true
    | some _ ↦ ltb (position - q.buffer_start) max && not (nat_eqb q.buffer_start 0)
  ]

  abbrev pub from_buffer : ℕ → LogFile → LogLine × ℕ
  from_buffer position q =
      let relative = position - q.buffer_start in
      let start = line_start (allocated q.buffer) relative in
      (slice (allocated q.buffer) start (relative - start), q.buffer_start + start)

  abbrev pub refreshed : ℕ → LogFile → Bool × LogFile
  refreshed position q = if is_stale position q then init_buffer position q else (true, q)

  abbrev pub of_refreshed : ℕ → Bool × LogFile → Result (LogLine × ℕ) × LogFile
  of_refreshed position (false, q) = (error failed, q)
  of_refreshed position (true, q) = (ok (from_buffer position q), q)

  unfoldable pub read_next_line : ℕ → LogFile → Result (LogLine × ℕ) × LogFile
  read_next_line position q = of_refreshed position (refreshed position q)

  abbrev pub shifted : Result (LogLine × ℕ) × LogFile → Result LogLine × LogFile
  shifted (error e, q) = (error e, q)
  shifted (ok (line, line_idx), q) = (ok line, record q { position = line_idx - 1 })

  unfoldable pub read_next : LogFile → Result LogLine × LogFile
  read_next q =
      if nat_eqb q.position 0 then (error eof, q) else shifted (read_next_line q.position q)

  unfoldable pub seek_start : LogFile → Result ℕ × LogFile
  seek_start q = elim os.stat [
    | none ↦ (error failed, record q { buffer = none })
    | some size ↦ (ok (size - 1), record q { buffer = none; position = size - 1 })
  ]

  abbrev pub end_of_line : ℕ → ℕ → Option ℕ → ℕ × ℕ
  end_of_line seek len none = (len, len + seek)
  end_of_line seek len (some i) = (i, i + seek + 1)

  abbrev pub probe_in : ℕ → ℕ → List ℕ → Probe
  probe_in seek relative bytes =
      let b = copy bytes zeros in
      let start = line_start b relative in
      let ends = end_of_line seek (length bytes) (line_end b relative (length bytes - relative)) in
      record {
        line = slice b start (ends.0 - start);
        line_idx = start + seek;
        line_end_idx = ends.1;
      }

  abbrev pub seek_of : ℕ → ℕ
  seek_of position = if ltb max position then position - max else 0

  abbrev pub relative_of : ℕ → ℕ
  relative_of position = if ltb max position then max else position

  unfoldable pub read_probe_line : ℕ → Option Probe
  read_probe_line position = elim (os.read (seek_of position) (max * 2)) [
    | none ↦ none
    | some bytes ↦ some (probe_in (seek_of position) (relative_of position) bytes)
  ]

  -- `last` is the line of the last probe, if there was one.
  abbrev pub is_last : Option ℕ → ℕ → Bool
  is_last none line_idx = false
  is_last (some last) line_idx = nat_eqb line_idx last

  unfoldable pub validate_line_idx : ℕ → Option ℕ → ℕ → Option FileError
  validate_line_idx line_idx last size =
      if is_last last line_idx
      then (if nat_eqb line_idx 0 then some ts_too_early else some ts_not_found)
      else if nat_eqb line_idx size
      then some ts_too_late
      else none

  -- The time stamp of a line, if it is there and is not zero (`readQLogTimestamp`).
  module _ (timestamp_of : LogLine → ℤ) (timestamp : ℤ) (size : ℕ) where
    abbrev pub compared : ℕ → ℕ → Probe → Step
    compared start end p =
        if eqb_ℤ (timestamp_of p.line) (pos 0)
        then stop no_timestamp
        else if eqb_ℤ (timestamp_of p.line) timestamp
        then found (p.line_idx + length p.line)
        else if ltb_ℤ timestamp (timestamp_of p.line)
        then narrow start p.line_idx
        else narrow p.line_end_idx end

    abbrev pub probed : ℕ → ℕ → Option ℕ → Option Probe → Step
    probed start end last none = stop failed
    probed start end last (some p) = elim (validate_line_idx p.line_idx last size) [
      | some e ↦ stop e
      | none ↦ compared start end p
    ]

    -- The loop, with the number of comparisons that are left and those that are made.
    unfoldable pub seek_loop : ℕ → ℕ → ℕ → ℕ → Option ℕ → Result (ℕ × ℕ)
    seek_loop zero depth start end last = error ts_not_found
    seek_loop (suc rounds) depth start end last =
        let p = read_probe_line (start + (end - start) / 2) in
        elim (probed start end last p) [
          | stop e ↦ error e
          | found position ↦ ok (position, depth)
          | narrow start' end' ↦ seek_loop rounds (depth + 1) start' end' (idx_of p)
        ]

  abbrev pub positioned : Result (ℕ × ℕ) → LogFile → Result (ℕ × ℕ) × LogFile
  positioned (error e) q = (error e, q)
  positioned (ok (position, depth)) q = (ok (position, depth), record q { position = position })

  unfoldable pub seek_ts : (LogLine → ℤ) → ℤ → LogFile → Result (ℕ × ℕ) × LogFile
  seek_ts timestamp_of timestamp q = elim os.stat [
    | none ↦ (error failed, record q { buffer = none })
    | some size ↦
        positioned (seek_loop timestamp_of timestamp size 100 0 0 size none)
          (record q { buffer = none })
  ]
