-- ===== src/Schedule/Codec.antt =====
-- internal/schedule/schedule.go: what a schedule is in YAML and JSON; and `JSONDuration` of
-- internal/aghhttp/json.go. The codecs of `gopkg.in/yaml.v3` and `encoding/json` for the structures of
-- this file are parameters, and so is floating-point arithmetic.
use null_private.Prelude.{ℕ, String, Option, none, some, List, [], ◌∷◌, if◌then◌else◌}
use null_private.Prelude.Int.{ℤ, pos}
use null_private.Schedule.{
  DayRange, empty_range, is_empty, day_at, Weekly, Zones, Decoded, ok, err, bad_data, bad_location,
  check_days,
}

-- The float64 operations that `JSONDuration` uses, and its text: `to_int` is `int64(f)`, `format` is
-- `strconv.AppendFloat(nil, f, 'f', -1, 64)`, `parse` is `strconv.ParseFloat(s, 64)`.
pub record Floats (Float Text : Type 0) : Type 0 where
  pub of_int : ℤ → Float
  pub to_int : Float → ℤ
  pub quotient : Float → Float → Float
  pub product : Float → Float → Float
  pub format : Float → Text
  pub parse : Text → Option Float

abbrev pub nsec_per_msec : ℕ
nsec_per_msec = 1_000_000

module _ {Float Text : Type 0} (floats : Floats Float Text) where
  -- `JSONDuration.MarshalJSON`
  unfoldable pub marshal_duration : ℤ → Text
  marshal_duration d =
      floats.format (floats.quotient (floats.of_int d) (floats.of_int (pos nsec_per_msec)))

  -- `JSONDuration.UnmarshalJSON`
  unfoldable pub unmarshal_duration : Text → Option ℤ
  unmarshal_duration b = elim (floats.parse b) [
    | none ↦ none
    | some msec ↦ some (floats.to_int (floats.product msec (floats.of_int (pos nsec_per_msec))))
  ]

-- `dayConfigYAML`, `dayConfigJSON`, `weeklyConfigYAML` and `weeklyConfigJSON`; a day of the latter may
-- be nil.
pub record DayConfigYaml : Type 0 where
  pub start : ℤ
  pub end : ℤ

pub record DayConfigJson : Type 0 where
  pub start : ℤ
  pub end : ℤ

pub record WeeklyConfigYaml : Type 0 where
  pub time_zone : String
  pub sunday : DayConfigYaml
  pub monday : DayConfigYaml
  pub tuesday : DayConfigYaml
  pub wednesday : DayConfigYaml
  pub thursday : DayConfigYaml
  pub friday : DayConfigYaml
  pub saturday : DayConfigYaml

pub record WeeklyConfigJson : Type 0 where
  pub sunday : Option DayConfigJson
  pub monday : Option DayConfigJson
  pub tuesday : Option DayConfigJson
  pub wednesday : Option DayConfigJson
  pub thursday : Option DayConfigJson
  pub friday : Option DayConfigJson
  pub saturday : Option DayConfigJson
  pub time_zone : String

-- The encoder of what `MarshalYAML` returns, `value.Decode(conf)`, and `json.Marshal` and `json.Unmarshal` of the structure, which call the two
-- functions for the durations in it.
pub record Codec (Node Text Data : Type 0) : Type 0 where
  pub encode_yaml : WeeklyConfigYaml → Option Node
  pub decode_yaml : Node → Option WeeklyConfigYaml
  pub encode_json : (ℤ → Text) → WeeklyConfigJson → Option Data
  pub decode_json : (Text → Option ℤ) → Data → Option WeeklyConfigJson

abbrev pub yaml_range : DayConfigYaml → DayRange
yaml_range d = record { start = d.start; end = d.end }

abbrev pub json_range : Option DayConfigJson → DayRange
json_range none = empty_range
json_range (some d) = record { start = d.start; end = d.end }

abbrev pub to_day_config_yaml : DayRange → DayConfigYaml
to_day_config_yaml r = record { start = r.start; end = r.end }

abbrev pub to_day_config_json : DayRange → Option DayConfigJson
to_day_config_json r = if is_empty r then none else some (record { start = r.start; end = r.end })

-- The slices `days`, whose indices are the weekdays.
abbrev pub yaml_days : WeeklyConfigYaml → List DayRange
yaml_days conf =
    yaml_range conf.sunday
    ∷ yaml_range conf.monday
    ∷ yaml_range conf.tuesday
    ∷ yaml_range conf.wednesday
    ∷ yaml_range conf.thursday
    ∷ yaml_range conf.friday
    ∷ yaml_range conf.saturday
    ∷ []

abbrev pub json_days : WeeklyConfigJson → List DayRange
json_days conf =
    json_range conf.sunday
    ∷ json_range conf.monday
    ∷ json_range conf.tuesday
    ∷ json_range conf.wednesday
    ∷ json_range conf.thursday
    ∷ json_range conf.friday
    ∷ json_range conf.saturday
    ∷ []

module _ {Location Time : Type 0} (zones : Zones Location Time) where
  abbrev pub from_days : String → List DayRange → Decoded (Weekly Location)
  from_days zone days = elim (zones.load_location zone) [
    | none ↦ err bad_location
    | some loc ↦ elim (check_days 0 days) [
      | err e ↦ err e
      | ok days' ↦ ok (record { location = loc; days = days' })
    ]
  ]

  unfoldable pub marshal_yaml : Weekly Location → WeeklyConfigYaml
  marshal_yaml w = record {
    time_zone = zones.name_of w.location;
    sunday = to_day_config_yaml (day_at w.days 0);
    monday = to_day_config_yaml (day_at w.days 1);
    tuesday = to_day_config_yaml (day_at w.days 2);
    wednesday = to_day_config_yaml (day_at w.days 3);
    thursday = to_day_config_yaml (day_at w.days 4);
    friday = to_day_config_yaml (day_at w.days 5);
    saturday = to_day_config_yaml (day_at w.days 6);
  }

  -- The structure that `MarshalJSON` encodes.
  unfoldable pub weekly_config_json : Weekly Location → WeeklyConfigJson
  weekly_config_json w = record {
    sunday = to_day_config_json (day_at w.days 0);
    monday = to_day_config_json (day_at w.days 1);
    tuesday = to_day_config_json (day_at w.days 2);
    wednesday = to_day_config_json (day_at w.days 3);
    thursday = to_day_config_json (day_at w.days 4);
    friday = to_day_config_json (day_at w.days 5);
    saturday = to_day_config_json (day_at w.days 6);
    time_zone = zones.name_of w.location;
  }

  module _ {Float Text Node Data : Type 0} (floats : Floats Float Text)
      (codec : Codec Node Text Data) where
    -- The new schedule, or the error, with which the old one stays.
    unfoldable pub unmarshal_yaml : Node → Decoded (Weekly Location)
    unmarshal_yaml value = elim (codec.decode_yaml value) [
      | none ↦ err bad_data
      | some conf ↦ from_days conf.time_zone (yaml_days conf)
    ]

    unfoldable pub unmarshal_json : Data → Decoded (Weekly Location)
    unmarshal_json bytes = elim (codec.decode_json (unmarshal_duration floats) bytes) [
      | none ↦ err bad_data
      | some conf ↦ from_days conf.time_zone (json_days conf)
    ]

    -- `none` is an error of the encoder.
    unfoldable pub marshal_json : Weekly Location → Option Data
    unfolding weekly_config_json
    marshal_json w = codec.encode_json (marshal_duration floats) (weekly_config_json w)
