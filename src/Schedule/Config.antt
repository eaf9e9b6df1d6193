-- ===== src/Schedule/Config.antt =====
-- Reading and writing of schedules.
use null_private.Prelude.{
  ℕ, zero, suc, ◌+◌, String, ◌≡◌, refl, ap, ap₂, ◌∙◌, ◌⊎◌, inl, inr, Bool-cases, Option, none, some,
  List, [], ◌∷◌, arith, length, Option-cases,
}
use null_private.Prelude.Int.{ℤ, pos, negsuc, eq_of_eqb_ℤ}
use null_private.Schedule.{
  DayRange, empty_range, is_empty, day_at, validate, Zones, Weekly, Decoded, ok, err, ScheduleError,
  check_days,
}
use null_private.Schedule.Validity.{IsWithinDay, validate-eq-none_iff}
use null_private.Schedule.Codec.{
  Floats, Codec, WeeklyConfigYaml, WeeklyConfigJson, DayConfigJson, from_days, json_range,
  to_day_config_json, yaml_days, json_days, unmarshal_yaml, unmarshal_json, marshal_yaml,
  marshal_json, weekly_config_json, marshal_duration, unmarshal_duration,
}
use null_private.Schedule.Durations.{IsExact, IsReadBack, minutes-IsReadBack}

abbrev pub AllValid : List DayRange → Type 0
AllValid [] = Unit {0}
AllValid (r ∷ rs) = (validate r ≡ none) × AllValid rs

Decoded-cases :
    {A : Type 0} (d : Decoded A) → ((x : A) × (d ≡ ok x)) ⊎ ((e : ScheduleError) × (d ≡ err e))
Decoded-cases (ok x) = inl (x, refl)
Decoded-cases (err e) = inr (e, refl)

check_days-valid : (i : ℕ) (rs : List DayRange) → AllValid rs → check_days i rs ≡ ok rs
unfolding check_days
check_days-valid i [] h = refl
check_days-valid i (r ∷ rs) h = ground (arith, check_days-valid (i + 1) rs)

check_days-eq-ok :
    (i : ℕ) (rs rs' : List DayRange) → check_days i rs ≡ ok rs' → (rs' ≡ rs) × AllValid rs
unfolding check_days
check_days-eq-ok i [] rs' h = ground arith
check_days-eq-ok i (r ∷ rs) rs' h = elim (Decoded-cases (check_days (i + 1) rs)) [
  | inl e ↦ let rest = check_days-eq-ok (i + 1) rs e.0 e.1 in ground (arith, rest)
  | inr e ↦ absurd (ground (arith, e))
]

json_range-to_day_config_json : (r : DayRange) → json_range (to_day_config_json r) ≡ r
json_range-to_day_config_json r =
    ground (arith, eq_of_eqb_ℤ r.start (pos 0), eq_of_eqb_ℤ r.end (pos 0))

-- The days of a week by their weekdays.
abbrev by_weekday : List DayRange → List DayRange
by_weekday days =
    day_at days 0
    ∷ day_at days 1
    ∷ day_at days 2
    ∷ day_at days 3
    ∷ day_at days 4
    ∷ day_at days 5
    ∷ day_at days 6
    ∷ []

by_weekday_lem : (days : List DayRange) → length days ≡ 7 → by_weekday days ≡ days
by_weekday_lem [] h = absurd (omega (arith, h))
by_weekday_lem (a ∷ []) h = absurd (omega (arith, h))
by_weekday_lem (a ∷ b ∷ []) h = absurd (omega (arith, h))
by_weekday_lem (a ∷ b ∷ c ∷ []) h = absurd (omega (arith, h))
by_weekday_lem (a ∷ b ∷ c ∷ d ∷ []) h = absurd (omega (arith, h))
by_weekday_lem (a ∷ b ∷ c ∷ d ∷ e ∷ []) h = absurd (omega (arith, h))
by_weekday_lem (a ∷ b ∷ c ∷ d ∷ e ∷ f ∷ []) h = absurd (omega (arith, h))
by_weekday_lem (a ∷ b ∷ c ∷ d ∷ e ∷ f ∷ g ∷ []) h = refl
by_weekday_lem (a ∷ b ∷ c ∷ d ∷ e ∷ f ∷ g ∷ x ∷ xs) h = absurd (omega (arith, h))

empty_valid : validate empty_range ≡ none
unfolding validate
empty_valid = refl

day_at-valid : (days : List DayRange) (i : ℕ) → AllValid days → validate (day_at days i) ≡ none
day_at-valid [] i h = empty_valid
day_at-valid (r ∷ rs) zero h = h.0
day_at-valid (r ∷ rs) (suc i) h = day_at-valid rs i h.1

-- The durations of a day, if it is there, are read back from their texts.
abbrev pub IsDayReadBack :
    {Text : Type 0} → (ℤ → Text) → (Text → Option ℤ) → Option DayConfigJson → Type 0
IsDayReadBack put take none = Unit {0}
IsDayReadBack put take (some d) =
    (take (put d.start) ≡ some d.start) × (take (put d.end) ≡ some d.end)

abbrev pub IsWeekReadBack :
    {Text : Type 0} → (ℤ → Text) → (Text → Option ℤ) → WeeklyConfigJson → Type 0
IsWeekReadBack put take conf =
    IsDayReadBack put take conf.sunday
    × IsDayReadBack put take conf.monday
    × IsDayReadBack put take conf.tuesday
    × IsDayReadBack put take conf.wednesday
    × IsDayReadBack put take conf.thursday
    × IsDayReadBack put take conf.friday
    × IsDayReadBack put take conf.saturday

-- What is encoded is decoded to the same structure; in JSON, if the texts of its durations are read
-- back.
pub record IsFaithful {Float Text Node Data : Type 0} (floats : Floats Float Text)
    (codec : Codec Node Text Data) : Type 0 where
  pub yaml_reads :
      (conf : WeeklyConfigYaml)
      → (value : Node) × (codec.encode_yaml conf ≡ some value)
        × (codec.decode_yaml value ≡ some conf)
  pub json_reads :
      (conf : WeeklyConfigJson)
      → IsWeekReadBack (marshal_duration floats) (unmarshal_duration floats) conf
      → (bytes : Data) × (codec.encode_json (marshal_duration floats) conf ≡ some bytes)
        × (codec.decode_json (unmarshal_duration floats) bytes ≡ some conf)

module _ {Float Text : Type 0} (floats : Floats Float Text) (exact : IsExact floats) where
  within-IsReadBack :
      (a b : ℤ)
      → IsWithinDay (record { start = a; end = b })
      → IsReadBack floats a × IsReadBack floats b
  within-IsReadBack (pos s) (pos e) (lt, le, whole_s, whole_e) = (
    minutes-IsReadBack floats exact s (omega arith) whole_s,
    minutes-IsReadBack floats exact e le whole_e,
  )
  within-IsReadBack (pos s) (negsuc e) h = absurd h
  within-IsReadBack (negsuc s) e h = absurd h

  valid-IsDayReadBack :
      (r : DayRange)
      → validate r ≡ none
      → IsDayReadBack (marshal_duration floats) (unmarshal_duration floats) (to_day_config_json r)
  valid-IsDayReadBack r h = elim (Bool-cases (is_empty r)) [
    | inl nothing ↦ rw nothing tt
    | inr filled ↦ elim ((validate-eq-none_iff r).0 h) [
      | inl e ↦ absurd (ground (arith, filled, ap is_empty e))
      | inr within ↦ rw filled (within-IsReadBack r.start r.end within)
    ]
  ]

module _ {Location Time : Type 0} (zones : Zones Location Time) where
  -- The days that `MarshalJSON` writes, read as ranges.
  week_json : (w : Weekly Location) → json_days (weekly_config_json zones w) ≡ by_weekday w.days
  unfolding weekly_config_json
  week_json w =
      let same : (i : ℕ) → json_range (to_day_config_json (day_at w.days i)) ≡ day_at w.days i =
        λ i. json_range-to_day_config_json (day_at w.days i) in
      ap₂ ◌∷◌ (same 0) (
        ap₂ ◌∷◌ (same 1) (
          ap₂ ◌∷◌ (same 2)
            (ap₂ ◌∷◌ (same 3) (ap₂ ◌∷◌ (same 4) (ap₂ ◌∷◌ (same 5) (ap₂ ◌∷◌ (same 6) refl))))))

  from_days-ok :
      (zone : String) (days : List DayRange) (local : Location)
      → AllValid days
      → zones.load_location zone ≡ some local
      → from_days zones zone days ≡ ok (record { location = local; days = days })
  from_days-ok zone days local valid named =
      let checked = check_days-valid 0 days valid in ground (arith, checked)

  from_days-eq-ok :
      (zone : String) (days : List DayRange) (w : Weekly Location)
      → from_days zones zone days ≡ ok w
      → (w.days ≡ days) × AllValid days × (zones.load_location zone ≡ some w.location)
  from_days-eq-ok zone days w h = elim (Option-cases (zones.load_location zone)) [
    | inl none_ ↦ absurd (ground arith)
    | inr some_ ↦ elim (Decoded-cases (check_days 0 days)) [
      | inl ok_ ↦ let checked = check_days-eq-ok 0 days ok_.0 ok_.1 in ground (arith, checked)
      | inr err_ ↦ absurd (ground arith)
    ]
  ]

  module _ {Float Text Node Data : Type 0} (floats : Floats Float Text)
      (codec : Codec Node Text Data) where
    -- A schedule of seven valid days is encoded in YAML and in JSON, and it is read back from both as it
    -- was: each weekday with its range, and the location.
    -- It is assumed that the location is the one that its name loads, that the codecs of the structures
    -- read back what they write, the one of JSON where the texts of the durations are read back, and that
    -- float64 arithmetic on milliseconds is exact on whole numbers up to 2^53.
    pub unmarshal-marshal :
        IsExact floats
        → IsFaithful floats codec
        → (w : Weekly Location) → length w.days ≡ 7
        → AllValid w.days
        → zones.load_location (zones.name_of w.location) ≡ some w.location
        → ((value : Node) × (codec.encode_yaml (marshal_yaml zones w) ≡ some value)
            × (unmarshal_yaml zones floats codec value ≡ ok w))
          × ((bytes : Data) × (marshal_json zones floats codec w ≡ some bytes)
              × (unmarshal_json zones floats codec bytes ≡ ok w))
    unfolding unmarshal_yaml unmarshal_json marshal_yaml marshal_json weekly_config_json
    unmarshal-marshal exact faithful w seven valid named =
        let read = from_days-ok (zones.name_of w.location) w.days w.location valid named in
        let back : (i : ℕ)
            → IsDayReadBack (marshal_duration floats) (unmarshal_duration floats)
                (to_day_config_json (day_at w.days i)) =
          λ i. valid-IsDayReadBack floats exact (day_at w.days i) (day_at-valid w.days i valid) in
        let (value, yaml_written, yaml_read) = faithful.yaml_reads (marshal_yaml zones w) in
        let (bytes, json_written, json_read) =
          faithful.json_reads (weekly_config_json zones w)
            (back 0, back 1, back 2, back 3, back 4, back 5, back 6) in
        let days = by_weekday_lem w.days seven in
        let from : List DayRange → Decoded (Weekly Location) =
          from_days zones (zones.name_of w.location) in
        (
          (value, yaml_written, rw (unmarshal_yaml, yaml_read) (ap from days ∙ read)),
          (
            bytes,
            json_written,
            rw (unmarshal_json, json_read) (ap from (week_json w) ∙ ap from days ∙ read),
          ),
        )

    -- A schedule that is read from YAML has the days of the configuration by their weekdays, all of
    -- them are valid, and its location is the one that the configuration names.
    pub unmarshal_yaml-AllValid :
        (value : Node) (w : Weekly Location)
        → unmarshal_yaml zones floats codec value ≡ ok w
        → (conf : WeeklyConfigYaml) × (codec.decode_yaml value ≡ some conf)
          × (w.days ≡ yaml_days conf)
          × AllValid (yaml_days conf)
          × (zones.load_location conf.time_zone ≡ some w.location)
    unfolding unmarshal_yaml
    unmarshal_yaml-AllValid value w h = elim (Option-cases (codec.decode_yaml value)) [
      | inl bad ↦ absurd (ground (arith, h, bad))
      | inr (conf, decoded) ↦
          let (same, valid, named) =
            from_days-eq-ok conf.time_zone (yaml_days conf) w (ground (arith, h, decoded)) in
          (conf, decoded, same, valid, named)
    ]
