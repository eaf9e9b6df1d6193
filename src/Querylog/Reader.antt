-- ===== src/Querylog/Reader.antt =====
-- internal/querylog/qlogreader.go: the log files, read as one from the newest line to the oldest.
use null_private.Prelude.{ℕ, Bool, Option, none, some, String, List, [], ◌∷◌}
use null_private.Prelude.Int.{ℤ}
use null_private.Querylog.File.{
  LogLine, OsFile, LogFile, new_log_file, FileError, eof, failed, ts_not_found, ts_too_late,
  ts_too_early, Result, ok, error, read_next, seek_start, seek_ts,
}
pub mod Progress
pub mod Whole

-- An opened file, with the state of its reader.
abbrev pub File : Type 0
File = OsFile × LogFile

-- The files up to the current one, which is the first of `left`, from the newest to the oldest, and
-- those after it, from the oldest to the newest. No file is left when the index has become -1.
pub record LogReader : Type 0 where
  pub left : List File
  pub after : List File

pub data Opening : Type 0 where
  opened : OsFile → Opening
  not_exist open_failed : Opening

-- The names are from the oldest to the newest, and so is the list that Go appends to.
module _ (open_file : String → Opening) where
  open_onto : List String → List File → Option LogReader
  open_onto [] files = some (record { left = files; after = [] })
  open_onto (name ∷ names) files = elim (open_file name) [
    | opened os ↦ open_onto names ((os, new_log_file) ∷ files)
    | not_exist ↦ open_onto names files
    | open_failed ↦ none
  ]

  unfoldable pub new_log_reader : List String → Option LogReader
  unfolding open_onto
  new_log_reader names = open_onto names []

-- All files, from the newest to the oldest.
unfoldable pub rejoin : List File → List File → List File
rejoin [] files = files
rejoin (f ∷ after) files = rejoin after (f ∷ files)

module _ (max : ℕ) where
  -- The loop of `ReadNext`, at a file, with the older ones.
  unfoldable pub read_from : File → List File → List File → Result LogLine × LogReader
  read_from (os, q) [] after =
      let r = read_next max os q in
      elim r.0 [
        | ok line ↦ (ok line, record { left = (os, r.1) ∷ []; after = after })
        | error e ↦ (error eof, record { left = []; after = (os, r.1) ∷ after })
      ]
  read_from (os, q) ((older_os, p) ∷ older) after =
      let r = read_next max os q in
      let s = seek_start max older_os p in
      elim r.0 [
        | ok line ↦ (ok line, record { left = (os, r.1) ∷ (older_os, p) ∷ older; after = after })
        | error e ↦ elim s.0 [
          | ok _ ↦ read_from (older_os, s.1) older ((os, r.1) ∷ after)
          | error e' ↦
              (error e', record { left = (older_os, s.1) ∷ older; after = (os, r.1) ∷ after })
        ]
      ]

  unfoldable pub next_line : LogReader → Result LogLine × LogReader
  next_line r = elim r.left [ [] ↦ (error eof, r) | f ∷ older ↦ read_from f older r.after ]

  abbrev pub started : OsFile → List File → Result ℕ × LogFile → Result LogReader
  started os older (ok _, q) = ok (record { left = (os, q) ∷ older; after = [] })
  started os older (error e, q) = error e

  abbrev pub start_newest : List File → Result LogReader
  start_newest [] = ok (record { left = []; after = [] })
  start_newest ((os, q) ∷ older) = started os older (seek_start max os q)

  -- Its only caller closes the reader when it fails, so that an error comes without one.
  unfoldable pub seek_newest : LogReader → Result LogReader
  seek_newest r = start_newest (rejoin r.after r.left)

  -- The loop of `seekTS`, at the files that are left, past those that are too new.
  seek_in : (LogLine → ℤ) → ℤ → List File → List File → Result LogReader
  seek_in timestamp_of timestamp [] after = elim after [
    | [] ↦ ok (record { left = []; after = [] })
    | _ ∷ _ ↦ error ts_not_found
  ]
  seek_in timestamp_of timestamp ((os, q) ∷ older) after =
      let r = seek_ts max os timestamp_of timestamp q in
      elim r.0 [
        | ok _ ↦ ok (record { left = (os, r.1) ∷ older; after = after })
        | error e ↦ elim e [
          | ts_too_early ↦ seek_in timestamp_of timestamp older ((os, r.1) ∷ after)
          | ts_too_late ↦ start_newest (rejoin after ((os, r.1) ∷ older))
          | other ↦ error other
        ]
      ]

  unfoldable pub seek_timestamp : (LogLine → ℤ) → ℤ → LogReader → Result LogReader
  unfolding seek_in
  seek_timestamp timestamp_of timestamp r =
      seek_in timestamp_of timestamp (rejoin r.after r.left) []

  -- `seekRecord`: no time stamp stands for the zero time.
  abbrev past_next : Result LogLine × LogReader → Result LogReader
  past_next (ok _, r) = ok r
  past_next (error e, r) = error e

  unfoldable pub seek_record : (LogLine → ℤ) → Option ℤ → LogReader → Result LogReader
  seek_record timestamp_of none r = seek_newest r
  seek_record timestamp_of (some timestamp) r = elim (seek_timestamp timestamp_of timestamp r) [
    | ok found ↦ past_next (next_line found)
    | error e ↦ error e
  ]
