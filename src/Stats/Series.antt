-- ===== src/Stats/Series.antt =====
-- internal/stats/unit.go: the counters of the units of a time span, by the hour or by the day.
pub mod Totals
use null_private.Prelude.{
  ℕ, zero, suc, ◌+◌, ◌-◌, ◌*◌, ◌/◌, ◌%◌, ◌^◌, Bool, true, false, Option, none, some, List, [], ◌∷◌,
  length, drop, ltb, ◌==◌ as nat_eqb, if◌then◌else◌,
}
use null_private.Stats.Unit.{add64}

-- `unitDB`, as far as it is read here.
pub record UnitDb : Type 0 where
  pub n_result : List ℕ
  pub n_total : ℕ

-- `StatsResp`, as far as it is filled here.
pub record Series : Type 0 where
  pub in_days : Bool
  pub dns_queries : List ℕ
  pub blocked_filtering : List ℕ
  pub replaced_safebrowsing : List ℕ
  pub replaced_parental : List ℕ

abbrev pub replicate : ℕ → ℕ → List ℕ
replicate zero n = []
replicate (suc k) n = n ∷ replicate k n

abbrev pub new_series : Bool → ℕ → Series
new_series in_days size = record {
  in_days = in_days;
  dns_queries = replicate size 0;
  blocked_filtering = replicate size 0;
  replaced_safebrowsing = replicate size 0;
  replaced_parental = replicate size 0;
}

infixl 5 ◌>>=◌
abbrev pub ◌>>=◌ : {A B : Type 0} → Option A → (A → Option B) → Option B
none >>= f = none
some a >>= f = f a

-- `ns[i]`; `none` is the panic of an index out of range.
abbrev pub nth : ℕ → List ℕ → Option ℕ
nth i [] = none
nth zero (n ∷ ns) = some n
nth (suc i) (n ∷ ns) = nth i ns

-- `ns[i] += n`, with the same panic
abbrev pub add_at : ℕ → ℕ → List ℕ → Option (List ℕ)
add_at i n [] = none
add_at zero n (m ∷ ms) = some (add64 m n ∷ ms)
add_at (suc i) n (m ∷ ms) = elim (add_at i n ms) [ none ↦ none | some rest ↦ some (m ∷ rest) ]

-- The body of the loops over the units. `RFiltered`, `RSafeBrowsing` and `RParental` are 2, 3 and 5.
unfoldable pub add_unit : ℕ → UnitDb → Series → Option Series
add_unit slot u s = do
  queries ← add_at slot u.n_total s.dns_queries
  filtered ← nth 2 u.n_result
  blocked ← add_at slot filtered s.blocked_filtering
  browsing ← nth 3 u.n_result
  replaced ← add_at slot browsing s.replaced_safebrowsing
  parental ← nth 5 u.n_result
  adult ← add_at slot parental s.replaced_parental
  some (record s {
    dns_queries = queries;
    blocked_filtering = blocked;
    replaced_safebrowsing = replaced;
    replaced_parental = adult;
  })

-- The loops over the units, each at the slot of its index.
unfoldable pub fill : (ℕ → ℕ) → ℕ → List UnitDb → Series → Option Series
fill slot i [] s = some s
fill slot i (u ∷ units) s = do s' ← add_unit (slot i) u s; fill slot (suc i) units s'

-- The hours of the current day count from 1 to 24.
unfoldable pub count_hours : ℕ → ℕ → ℕ
count_hours cur_hour days =
    (days - 1) * 24 + (if nat_eqb (cur_hour % 24) 0 then 24 else cur_hour % 24)

-- Of the units of 31 days, those of the first hours may be left out.
unfoldable pub fill_collected_stats_daily : List UnitDb → ℕ → ℕ → Series → Option Series
fill_collected_stats_daily units cur_hour days s =
    if ltb (length units) (count_hours cur_hour days)
    then none
    else fill (λ i. i / 24) 0 (drop (length units - count_hours cur_hour days) units) s

unfoldable pub fill_collected_stats : List UnitDb → ℕ → Option Series
fill_collected_stats units cur_hour =
    let days = length units / 24 in
    if ltb 7 days
    then fill_collected_stats_daily units cur_hour days (new_series true days)
    else fill (λ i. i) 0 units (new_series false (length units))
