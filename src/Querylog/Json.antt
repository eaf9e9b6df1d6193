-- ===== src/Querylog/Json.antt =====
-- internal/querylog/qlogfile.go: `readJSONValue` and `readQLogTimestamp`, which take a value out of a
-- line without decoding it.
use Prim.Native.Char.{code}
use Prim.Native.String.{String}
use null_private.Prelude.{ℕ, Option, none, some, [], ◌∷◌, ◌==◌, if◌then◌else◌}
use null_private.Prelude.Int.{ℤ, pos}
use null_private.Querylog.File.{LogLine}

-- The bytes of a text in ASCII.
abbrev pub codes : String → LogLine
codes String.[] = []
codes (String.◌∷◌ c s) = code c ∷ codes s

-- What follows a prefix, and what follows the first occurrence of a text.
abbrev strip_prefix : LogLine → LogLine → Option LogLine
strip_prefix [] s = some s
strip_prefix (x ∷ prefix) [] = none
strip_prefix (x ∷ prefix) (y ∷ s) =
    let rest = strip_prefix prefix s in if x == y then rest else none

abbrev after_first : LogLine → LogLine → Option LogLine
after_first prefix [] = strip_prefix prefix []
after_first prefix (x ∷ s) = elim (strip_prefix prefix (x ∷ s)) [
  | some rest ↦ some rest
  | none ↦ after_first prefix s
]

abbrev with_first : ℕ → Option LogLine → Option LogLine
with_first x none = none
with_first x (some s) = some (x ∷ s)

abbrev before_quote : LogLine → Option LogLine
before_quote [] = none
before_quote (x ∷ s) = let rest = before_quote s in if x == 34 then some [] else with_first x rest

abbrev or_empty : Option LogLine → LogLine
or_empty none = []
or_empty (some s) = s

unfoldable pub read_json_value : LogLine → LogLine → LogLine
read_json_value s prefix = elim (after_first prefix s) [
  | none ↦ []
  | some rest ↦ or_empty (before_quote rest)
]

abbrev pub time_key : LogLine
time_key = codes "\"T\":\""

abbrev pub long_time_key : LogLine
long_time_key = codes "\"Time\":\""

-- The parser of times is the library's; 0 stands for a time stamp that is missing or not a time.
module _ (parse_time : LogLine → Option ℤ) where
  abbrev time_or_zero : LogLine → ℤ
  time_or_zero [] = pos 0
  time_or_zero (x ∷ val) = elim (parse_time (x ∷ val)) [ none ↦ pos 0 | some t ↦ t ]

  unfoldable pub read_qlog_timestamp : LogLine → ℤ
  read_qlog_timestamp line = elim (read_json_value line time_key) [
    | [] ↦ time_or_zero (read_json_value line long_time_key)
    | x ∷ val ↦ time_or_zero (x ∷ val)
  ]
