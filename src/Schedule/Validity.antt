-- ===== src/Schedule/Validity.antt =====
-- Which ranges are valid, and what a schedule contains.
use null_private.Prelude.{
  ℕ, zero, suc, ◌%◌, ◌≤◌, ◌<◌, ◌≡◌, refl, ◌↔◌, ◌⊎◌, inl, inr, true, false, none, arith,
}
use null_private.Prelude.Int.{ℤ, pos, negsuc}
use null_private.Schedule.{
  DayRange, empty_range, minute, max_day_range, validate, contains, contains_offset, Zones,
  empty_weekly, full_weekly, day_at,
}

-- Two bounds within a day, in whole minutes, the first before the second.
abbrev AreWithinDay : ℤ → ℤ → Type 0
AreWithinDay (pos s) (pos e) = (s < e) × (e ≤ max_day_range) × (s % minute ≡ 0) × (e % minute ≡ 0)
AreWithinDay _ _ = ⊥

abbrev pub IsWithinDay : DayRange → Type 0
IsWithinDay r = AreWithinDay r.start r.end

valid_bounds :
    (a b : ℤ)
    → validate (record { start = a; end = b }) ≡ none
    → (◌≡◌ {A = DayRange} (record { start = a; end = b }) empty_range) ⊎ AreWithinDay a b
unfolding validate
valid_bounds (pos s) (pos e) h = ground arith
valid_bounds (pos s) (negsuc e) h = ground arith
valid_bounds (negsuc s) (pos e) h = ground arith
valid_bounds (negsuc s) (negsuc e) h = ground arith

bounds_valid : (a b : ℤ) → AreWithinDay a b → validate (record { start = a; end = b }) ≡ none
unfolding validate
bounds_valid (pos s) (pos e) h = ground arith
bounds_valid (pos s) (negsuc e) h = absurd h
bounds_valid (negsuc s) e h = absurd h

empty_valid : validate empty_range ≡ none
unfolding validate
empty_valid = refl

-- A range is valid exactly if it is empty, or lies within a day and is rounded to minutes.
pub validate-eq-none_iff :
    (r : DayRange) → (validate r ≡ none) ↔ ((r ≡ empty_range) ⊎ IsWithinDay r)
validate-eq-none_iff r = (
  valid_bounds r.start r.end,
  elim [ inl e ↦ rw e empty_valid | inr within ↦ bounds_valid r.start r.end within ],
)

below_seven :
    (day : ℕ) (offset : ℤ) (n : ℕ)
    → day < 7
    → offset ≡ pos n
    → (contains_offset (day_at (empty_weekly offset).days day) offset ≡ false)
      × ((contains_offset (day_at (full_weekly offset).days day) offset ≡ true)
          ↔ (n < max_day_range))
unfolding contains_offset empty_weekly full_weekly
below_seven zero offset n h e = ground arith
below_seven (suc zero) offset n h e = ground arith
below_seven (suc (suc zero)) offset n h e = ground arith
below_seven (suc (suc (suc zero))) offset n h e = ground arith
below_seven (suc (suc (suc (suc zero)))) offset n h e = ground arith
below_seven (suc (suc (suc (suc (suc zero))))) offset n h e = ground arith
below_seven (suc (suc (suc (suc (suc (suc zero)))))) offset n h e = ground arith
below_seven (suc (suc (suc (suc (suc (suc (suc k))))))) offset n h e = absurd (omega arith)

-- A schedule contains a time exactly if the time since midnight lies in the range of its weekday, the
-- end left out: an empty schedule contains none, a full one all whose day has begun less than 24
-- hours ago.
pub contains_weekly :
    {Location Time : Type 0} (zones : Zones Location Time) (local : Location) (t : Time) (n : ℕ)
    → zones.weekday local t < 7
    → zones.since_midnight local t ≡ pos n
    → (contains zones (empty_weekly local) t ≡ false)
      × ((contains zones (full_weekly local) t ≡ true) ↔ (n < max_day_range))
unfolding contains empty_weekly full_weekly
contains_weekly zones local t n wd since =
    below_seven (zones.weekday local t) (zones.since_midnight local t) n wd since
