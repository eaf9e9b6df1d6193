-- ===== src/Stats/Examples.antt =====
-- Three requests, one of them blocked and one not valid.
use null_private.Prelude.{
  ℕ, zero, suc, ◌/◌, ◌%◌, ◌^◌, ◌≡◌, refl, some, List, [], ◌∷◌, length, drop, ltb, if◌then◌else◌,
}
use null_private.Prelude.Map.{string_eq}
use null_private.Stats.Series.{UnitDb, Series, fill_collected_stats}
use null_private.Stats.Series.Totals.{
  AllWhole, IsSized, sum, total, left_out, fill_collected_stats-total,
}
use null_private.Stats.Unit.{Entry, StatsUnit, new_unit}
use null_private.Stats.Unit.Counts.{update_all, IsCount, update_all-IsCount}

abbrev asked : Entry
asked = record {
  client = "c";
  domain = "a.b";
  upstream_stats = [];
  result = 1;
  processing_time = 7;
}

abbrev entries₀ : List Entry
entries₀ = asked ∷ record asked { result = 2 } ∷ record asked { result = 9 } ∷ []

update_all-IsCount_example :
    (u : StatsUnit) × (update_all 24 entries₀ (some (new_unit 5)) ≡ some u) × IsCount entries₀ u
update_all-IsCount_example = update_all-IsCount 24 entries₀ 5 refl

abbrev quiet_hour : UnitDb
quiet_hour = record { n_result = 0 ∷ 3 ∷ 1 ∷ 0 ∷ 0 ∷ 0 ∷ []; n_total = 4 }

abbrev hours_of : ℕ → List UnitDb
hours_of zero = []
hours_of (suc n) = quiet_hour ∷ hours_of n

hours_of-AllWhole : (n : ℕ) → AllWhole (hours_of n)
hours_of-AllWhole zero = tt
hours_of-AllWhole (suc n) = (refl, hours_of-AllWhole n)

fill_collected_stats-total_example :
    (s : Series) × (fill_collected_stats (hours_of 200) 7 ≡ some s)
    × (s.in_days ≡ ltb 7 (length (hours_of 200) / 24))
    × IsSized (if s.in_days then length (hours_of 200) / 24 else length (hours_of 200)) s
    × (sum s.dns_queries % 2 ^ 64
        ≡ total (drop (left_out (length (hours_of 200)) 7) (hours_of 200)) % 2 ^ 64)
fill_collected_stats-total_example =
    fill_collected_stats-total (hours_of 200) 7 (hours_of-AllWhole 200)
