-- ===== src/Schedule.antt =====
-- internal/schedule/schedule.go: weekly schedules. Durations are counts of nanoseconds. The days of
-- the week stand in a list, from Sunday on. `Location` and what the code asks of `time` about it are
-- parameters: the weekday of a time in a location, the time since the midnight that begins its day
-- there, the name of a location and the location of a name.
mod Examples
pub mod Validity
pub mod Codec
pub mod Durations
pub mod Config
use null_private.Prelude.{
  ℕ, zero, suc, ◌+◌, ◌-◌, ◌*◌, ◌%◌, String, Bool, true, false, ◌&&◌, Option, none, some, List, [],
  ◌∷◌, map, if◌then◌else◌,
}
use null_private.Prelude.Int.{ℤ, pos, negsuc, leb_ℤ, ltb_ℤ, eqb_ℤ, sub_ℕ}

pub record DayRange : Type 0 where
  pub start : ℤ
  pub end : ℤ

abbrev pub empty_range : DayRange
empty_range = record { start = pos 0; end = pos 0 }

abbrev pub minute : ℕ
minute = 60_000_000_000

-- 24 hours
abbrev pub max_day_range : ℕ
max_day_range = 86_400_000_000_000

pub data RangeError : Type 0 where
  negative_start negative_end start_not_before_end start_too_late end_too_late : RangeError
  start_not_rounded end_not_rounded : RangeError

abbrev pub is_empty : DayRange → Bool
is_empty r = eqb_ℤ r.start (pos 0) && eqb_ℤ r.end (pos 0)

-- `dayRange.validate`
unfoldable pub validate_range : DayRange → Option RangeError
validate_range r =
    if is_empty r
    then none
    else if ltb_ℤ r.start (pos 0)
    then some negative_start
    else if ltb_ℤ r.end (pos 0)
    then some negative_end
    else if leb_ℤ r.end r.start
    then some start_not_before_end
    else if leb_ℤ (pos max_day_range) r.start
    then some start_too_late
    else if ltb_ℤ (pos max_day_range) r.end
    then some end_too_late
    else none

-- `Duration.Truncate(time.Minute)`, toward zero
abbrev pub truncate : ℤ → ℤ
truncate (pos n) = pos (n - n % minute)
truncate (negsuc n) = sub_ℕ ((n + 1) % minute) (n + 1)

-- `Weekly.validate`
unfoldable pub validate : DayRange → Option RangeError
unfolding validate_range
validate r = elim (validate_range r) [
  | some e ↦ some e
  | none ↦
      if eqb_ℤ (truncate r.start) r.start
      then (if eqb_ℤ (truncate r.end) r.end then none else some end_not_rounded)
      else some start_not_rounded
]

unfoldable pub contains_offset : DayRange → ℤ → Bool
contains_offset r offset = leb_ℤ r.start offset && ltb_ℤ offset r.end

abbrev pub day_at : List DayRange → ℕ → DayRange
day_at [] i = empty_range
day_at (r ∷ rs) zero = r
day_at (r ∷ rs) (suc i) = day_at rs i

pub record Weekly (Location : Type 0) : Type 0 where
  pub location : Location
  pub days : List DayRange

abbrev repeat_day : ℕ → DayRange → List DayRange
repeat_day zero r = []
repeat_day (suc n) r = r ∷ repeat_day n r

unfoldable pub empty_weekly : {Location : Type 0} → Location → Weekly Location
empty_weekly local = record { location = local; days = repeat_day 7 empty_range }

unfoldable pub full_weekly : {Location : Type 0} → Location → Weekly Location
full_weekly local = record {
  location = local;
  days = repeat_day 7 (record { start = pos 0; end = pos max_day_range });
}

-- What the code asks of `time`.
pub record Zones (Location Time : Type 0) : Type 0 where
  pub weekday : Location → Time → ℕ
  pub since_midnight : Location → Time → ℤ
  pub name_of : Location → String
  pub load_location : String → Option Location

module _ {Location Time : Type 0} (zones : Zones Location Time) where
  unfoldable pub contains : Weekly Location → Time → Bool
  unfolding contains_offset
  contains w t =
      contains_offset (day_at w.days (zones.weekday w.location t))
        (zones.since_midnight w.location t)

-- `bad_data` is an error of the decoder.
pub data ScheduleError : Type 0 where
  bad_data bad_location : ScheduleError
  bad_day : ℕ → RangeError → ScheduleError

pub data Decoded (A : Type 0) : Type 0 where
  ok : A → Decoded A
  err : ScheduleError → Decoded A

-- The loop over the days, from day `i` on.
unfoldable pub check_days : ℕ → List DayRange → Decoded (List DayRange)
unfolding validate
check_days i [] = ok []
check_days i (r ∷ rs) =
    let later = check_days (i + 1) rs in
    elim (validate r) [
      | some e ↦ err (bad_day i e)
      | none ↦ elim later [ ok rs' ↦ ok (r ∷ rs') | err e ↦ err e ]
    ]
