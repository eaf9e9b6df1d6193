-- ===== src/Schedule/Examples.antt =====
-- A schedule of working days, over a day that is the same in every location; durations of texts and
-- documents that are what they stand for.
use null_private.Prelude.{
  ℕ, ◌*◌, ◌/◌, String, ◌≡◌, ◌↔◌, ◌⊎◌, refl, Option, none, some, [], ◌∷◌, arith, ap, ap₂,
}
use null_private.Prelude.Int.{ℤ, pos}
use null_private.Schedule.{DayRange, empty_range, validate, Zones, Weekly, ok}
use null_private.Schedule.Validity.{IsWithinDay, validate-eq-none_iff}
use null_private.Schedule.Codec.{
  Floats, Codec, WeeklyConfigYaml, WeeklyConfigJson, DayConfigJson, unmarshal_yaml, unmarshal_json,
  marshal_yaml, marshal_json, marshal_duration, unmarshal_duration,
}
use null_private.Schedule.Durations.{IsExact}
use null_private.Schedule.Config.{
  AllValid, IsDayReadBack, IsWeekReadBack, IsFaithful, unmarshal-marshal,
}

-- locations are their names, times are the nanoseconds of a week
abbrev zones₀ : Zones String ℕ
zones₀ = record {
  weekday = λ local t. 3;
  since_midnight = λ local t. pos t;
  name_of = λ local. local;
  load_location = λ name. some name;
}

-- from 9:00 to 17:00
abbrev office : DayRange
office = record { start = pos 32_400_000_000_000; end = pos 61_200_000_000_000 }

abbrev week₀ : Weekly String
week₀ = record {
  location = "UTC";
  days = empty_range ∷ office ∷ office ∷ office ∷ office ∷ office ∷ empty_range ∷ [];
}

office_valid : validate office ≡ none
unfolding validate
office_valid = refl

empty_valid : validate empty_range ≡ none
unfolding validate
empty_valid = refl

week₀-AllValid : AllValid week₀.days
week₀-AllValid = (
  empty_valid,
  (office_valid, (office_valid, (office_valid, (office_valid, (office_valid, (empty_valid, tt)))))),
)

validate-eq-none_iff_example :
    (validate office ≡ none) ↔ ((office ≡ empty_range) ⊎ IsWithinDay office)
validate-eq-none_iff_example = validate-eq-none_iff office

-- Whole numbers only, and their texts are the numbers.
abbrev part₀ : (ℕ → ℕ → ℕ) → ℤ → ℤ → ℤ
part₀ op (pos a) (pos b) = pos (op a b)
part₀ op _ _ = pos 0

abbrev floats₀ : Floats ℤ ℤ
floats₀ = record {
  of_int = λ d. d;
  to_int = λ f. f;
  quotient = part₀ ◌/◌;
  product = part₀ ◌*◌;
  format = λ f. f;
  parse = λ b. some b;
}

floats₀-IsExact : IsExact floats₀
floats₀-IsExact = record {
  to_int-of_int = λ n h. refl;
  quotient_exact = λ n h. ap pos (omega arith);
  product_exact = λ n h. refl;
  parse-format = λ n h. refl;
}

-- A document of JSON is the structure with the texts of the durations.
abbrev put₀ : (ℤ → ℤ) → Option DayConfigJson → Option DayConfigJson
put₀ put none = none
put₀ put (some d) = some (record { start = put d.start; end = put d.end })

abbrev both₀ : Option ℤ → Option ℤ → Option (Option DayConfigJson)
both₀ (some s) (some e) = some (some (record { start = s; end = e }))
both₀ _ _ = none

unfoldable take₀ : (ℤ → Option ℤ) → Option DayConfigJson → Option (Option DayConfigJson)
take₀ take none = some none
take₀ take (some d) = both₀ (take d.start) (take d.end)

unfoldable decode₀ : (ℤ → Option ℤ) → WeeklyConfigJson → Option WeeklyConfigJson
decode₀ take conf = elim (take₀ take conf.sunday) [
  | none ↦ none
  | some su' ↦ elim (take₀ take conf.monday) [
    | none ↦ none
    | some mo' ↦ elim (take₀ take conf.tuesday) [
      | none ↦ none
      | some tu' ↦ elim (take₀ take conf.wednesday) [
        | none ↦ none
        | some we' ↦ elim (take₀ take conf.thursday) [
          | none ↦ none
          | some th' ↦ elim (take₀ take conf.friday) [
            | none ↦ none
            | some fr' ↦ elim (take₀ take conf.saturday) [
              | none ↦ none
              | some sa' ↦ some (record {
                sunday = su';
                monday = mo';
                tuesday = tu';
                wednesday = we';
                thursday = th';
                friday = fr';
                saturday = sa';
                time_zone = conf.time_zone;
              })
            ]
          ]
        ]
      ]
    ]
  ]
]

abbrev encode₀ : (ℤ → ℤ) → WeeklyConfigJson → WeeklyConfigJson
encode₀ put conf = record {
  sunday = put₀ put conf.sunday;
  monday = put₀ put conf.monday;
  tuesday = put₀ put conf.tuesday;
  wednesday = put₀ put conf.wednesday;
  thursday = put₀ put conf.thursday;
  friday = put₀ put conf.friday;
  saturday = put₀ put conf.saturday;
  time_zone = conf.time_zone;
}

abbrev codec₀ : Codec WeeklyConfigYaml ℤ WeeklyConfigJson
codec₀ = record {
  encode_yaml = λ conf. some conf;
  decode_yaml = λ value. some value;
  encode_json = λ put conf. some (encode₀ put conf);
  decode_json = decode₀;
}

take-put₀ :
    (put : ℤ → ℤ) (take : ℤ → Option ℤ) (d : Option DayConfigJson)
    → IsDayReadBack put take d
    → take₀ take (put₀ put d) ≡ some d
unfolding take₀
take-put₀ put take none h = refl
take-put₀ put take (some d) h = ap₂ both₀ h.0 h.1

decode₀_lem :
    (put : ℤ → ℤ) (take : ℤ → Option ℤ) (conf : WeeklyConfigJson)
    → IsWeekReadBack put take conf
    → decode₀ take (encode₀ put conf) ≡ some conf
unfolding decode₀
decode₀_lem put take conf back =
    rw
      (
        decode₀,
        take-put₀ put take conf.sunday back.0,
        take-put₀ put take conf.monday back.1,
        take-put₀ put take conf.tuesday back.2,
        take-put₀ put take conf.wednesday back.3,
        take-put₀ put take conf.thursday back.4,
        take-put₀ put take conf.friday back.5,
        take-put₀ put take conf.saturday back.6,
      )
      refl

codec₀-IsFaithful : IsFaithful floats₀ codec₀
codec₀-IsFaithful = record {
  yaml_reads = λ conf. (conf, refl, refl);
  json_reads = λ conf back. (
    encode₀ (marshal_duration floats₀) conf,
    refl,
    decode₀_lem (marshal_duration floats₀) (unmarshal_duration floats₀) conf back,
  );
}

unmarshal-marshal_example :
    ((value : WeeklyConfigYaml) × (codec₀.encode_yaml (marshal_yaml zones₀ week₀) ≡ some value)
      × (unmarshal_yaml zones₀ floats₀ codec₀ value ≡ ok week₀))
    × ((bytes : WeeklyConfigJson) × (marshal_json zones₀ floats₀ codec₀ week₀ ≡ some bytes)
        × (unmarshal_json zones₀ floats₀ codec₀ bytes ≡ ok week₀))
unmarshal-marshal_example =
    unmarshal-marshal zones₀ floats₀ codec₀ floats₀-IsExact codec₀-IsFaithful week₀ refl
      week₀-AllValid refl

-- Monday is written as Monday.
monday₀ : (marshal_yaml zones₀ week₀).monday ≡ record { start = office.start; end = office.end }
unfolding marshal_yaml
monday₀ = refl
