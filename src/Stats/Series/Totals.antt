-- ===== src/Stats/Series/Totals.antt =====
-- What the series of a time span add up to.
use null_private.Prelude.{
  ℕ, zero, suc, ◌+◌, ◌-◌, ◌*◌, ◌/◌, ◌%◌, ◌^◌, ◌<◌, ◌≤◌, ◌≡◌, refl, ap, ◌∙◌, Bool, true, false, some,
  List, [], ◌∷◌, arith, length, drop, length-drop, ltb, ◌==◌ as nat_eqb, if◌then◌else◌, Bool-cases,
  inl, inr,
}
use null_private.Stats.Unit.{add64}
use null_private.Stats.Series.{
  UnitDb, Series, replicate, new_series, nth, add_at, add_unit, fill, count_hours,
  fill_collected_stats_daily, fill_collected_stats,
}

abbrev pub sum : List ℕ → ℕ
sum [] = 0
sum (n ∷ ns) = n + sum ns

-- The requests of some units.
abbrev pub total : List UnitDb → ℕ
total [] = 0
total (u ∷ units) = u.n_total + total units

-- Units with a counter for each of the six results.
abbrev pub AllWhole : List UnitDb → Type 0
AllWhole [] = Unit {0}
AllWhole (u ∷ units) = (length u.n_result ≡ 6) × AllWhole units

-- Series of one length.
pub record IsSized (size : ℕ) (s : Series) : Type 0 where
  pub queries : length s.dns_queries ≡ size
  pub blocked : length s.blocked_filtering ≡ size
  pub browsing : length s.replaced_safebrowsing ≡ size
  pub parental : length s.replaced_parental ≡ size

nth-some : (i : ℕ) (ns : List ℕ) → i < length ns → (n : ℕ) × (nth i ns ≡ some n)
nth-some i [] h = absurd (omega (arith, h))
nth-some zero (n ∷ ns) h = (n, refl)
nth-some (suc i) (n ∷ ns) h = nth-some i ns (omega (arith, h))

add_at-some :
    (i n : ℕ) (ns : List ℕ)
    → i < length ns
    → (ms : List ℕ) × (add_at i n ns ≡ some ms)
      × (length ms ≡ length ns)
      × (sum ms % 2 ^ 64 ≡ (sum ns + n) % 2 ^ 64)
add_at-some i n [] h = absurd (omega (arith, h))
add_at-some zero n (m ∷ ms) h = (add64 m n ∷ ms, refl, refl, omega arith)
add_at-some (suc i) n (m ∷ ms) h =
    let (rest, adds, size, sums) = add_at-some i n ms (omega (arith, h)) in
    (m ∷ rest, rw adds refl, ap suc size, omega (arith, sums))

length-replicate : (k n : ℕ) → length (replicate k n) ≡ k
length-replicate zero n = refl
length-replicate (suc k) n = ap suc (length-replicate k n)

sum-replicate : (k : ℕ) → sum (replicate k 0) ≡ 0
sum-replicate zero = refl
sum-replicate (suc k) = omega (arith, sum-replicate k)

add_unit-some :
    (slot size : ℕ) (u : UnitDb) (s : Series)
    → slot < size
    → length u.n_result ≡ 6
    → IsSized size s
    → (s' : Series) × (add_unit slot u s ≡ some s')
      × IsSized size s'
      × (s'.in_days ≡ s.in_days)
      × (sum s'.dns_queries % 2 ^ 64 ≡ (sum s.dns_queries + u.n_total) % 2 ^ 64)
unfolding add_unit
add_unit-some slot size u s h whole sized =
    let (queries, e₁, l₁, sums) =
      add_at-some slot u.n_total s.dns_queries (omega (arith, h, sized.queries)) in
    let (filtered, n₂) = nth-some 2 u.n_result (omega (arith, whole)) in
    let (blocked, e₂, l₂, _) =
      add_at-some slot filtered s.blocked_filtering (omega (arith, h, sized.blocked)) in
    let (browsing, n₃) = nth-some 3 u.n_result (omega (arith, whole)) in
    let (replaced, e₃, l₃, _) =
      add_at-some slot browsing s.replaced_safebrowsing (omega (arith, h, sized.browsing)) in
    let (parental, n₄) = nth-some 5 u.n_result (omega (arith, whole)) in
    let (adult, e₄, l₄, _) =
      add_at-some slot parental s.replaced_parental (omega (arith, h, sized.parental)) in
    (
      record s {
        dns_queries = queries;
        blocked_filtering = blocked;
        replaced_safebrowsing = replaced;
        replaced_parental = adult;
      },
      rw (e₁, n₂, e₂, n₃, e₃, n₄, e₄) refl,
      record {
        queries = l₁ ∙ sized.queries;
        blocked = l₂ ∙ sized.blocked;
        browsing = l₃ ∙ sized.browsing;
        parental = l₄ ∙ sized.parental;
      },
      refl,
      sums,
    )

fill-some :
    (slot : ℕ → ℕ) (i size : ℕ) (units : List UnitDb) (s : Series)
    → ((k : ℕ) → k < i + length units → slot k < size)
    → AllWhole units
    → IsSized size s
    → (s' : Series) × (fill slot i units s ≡ some s')
      × IsSized size s'
      × (s'.in_days ≡ s.in_days)
      × (sum s'.dns_queries % 2 ^ 64 ≡ (sum s.dns_queries + total units) % 2 ^ 64)
unfolding fill
fill-some slot i size [] s within whole sized = (s, refl, sized, refl, omega arith)
fill-some slot i size (u ∷ units) s within whole sized =
    let (s₁, once, sized₁, days₁, sums₁) =
      add_unit-some (slot i) size u s (within i (omega arith)) whole.0 sized in
    let (s', rest, sized', days', sums') =
      fill-some slot (suc i) size units s₁ (λ k h. within k (omega (arith, h))) whole.1 sized₁ in
    (s', rw once rest, sized', days' ∙ days₁, omega (arith, sums₁, sums'))

drop-AllWhole : (n : ℕ) (units : List UnitDb) → AllWhole units → AllWhole (drop n units)
drop-AllWhole zero units h = h
drop-AllWhole (suc n) [] h = tt
drop-AllWhole (suc n) (u ∷ units) h = drop-AllWhole n units h.1

new_series-IsSized : (in_days : Bool) (size : ℕ) → IsSized size (new_series in_days size)
new_series-IsSized in_days size = record {
  queries = length-replicate size 0;
  blocked = length-replicate size 0;
  browsing = length-replicate size 0;
  parental = length-replicate size 0;
}

-- The hours of the last days are among the units, and each falls on one of the days.
count_hours-le : (cur_hour n : ℕ) → 7 < n / 24 → count_hours cur_hour (n / 24) ≤ (n / 24) * 24
unfolding count_hours
count_hours-le cur_hour n h = elim (Bool-cases (nat_eqb (cur_hour % 24) 0)) [
  | inl full ↦ rw full (omega (arith, h))
  | inr part ↦ rw part (omega (arith, h))
]

day-lt : (k days : ℕ) → k < days * 24 → k / 24 < days
day-lt k days h = omega (arith, h)

-- How many units are left out of a series: none of a series of hours, and in a series of days those
-- before the first of its hours.
unfoldable pub left_out : ℕ → ℕ → ℕ
left_out n cur_hour = if ltb 7 (n / 24) then n - count_hours cur_hour (n / 24) else 0

-- For units with a counter for each result, the series are filled without an index out of range: by the
-- day if the units make more than seven days, and else by the hour, with one entry for each; and the
-- queries of the series add up, modulo 2 ^ 64, to those of the units that are not left out.
pub fill_collected_stats-total :
    (units : List UnitDb) (cur_hour : ℕ)
    → AllWhole units
    → (s : Series) × (fill_collected_stats units cur_hour ≡ some s)
      × (s.in_days ≡ ltb 7 (length units / 24))
      × IsSized (if s.in_days then length units / 24 else length units) s
      × (sum s.dns_queries % 2 ^ 64
          ≡ total (drop (left_out (length units) cur_hour) units) % 2 ^ 64)
unfolding fill_collected_stats fill_collected_stats_daily left_out
fill_collected_stats-total units cur_hour whole = elim (Bool-cases (ltb 7 (length units / 24))) [
  | inr hours ↦
      let (s, fills, sized, by, sums) =
        fill-some (λ i. i) 0 (length units) units (new_series false (length units))
          (λ k h. omega (arith, h)) whole (new_series-IsSized false (length units)) in
      (
        s,
        rw hours fills,
        rw hours by,
        rw by sized,
        rw hours (
            sums
            ∙ ap (λ n. (n + total units) % 2 ^ 64) (sum-replicate (length units))
            ∙ omega arith),
      )
  | inl days ↦
      let n : ℕ = length units in
      let hours : ℕ = count_hours cur_hour (n / 24) in
      let fits = count_hours-le cur_hour n (ground (arith, days)) in
      let inside : ltb n hours ≡ false = ground (arith, fits) in
      let last : List UnitDb = drop (n - hours) units in
      let many : length last ≡ hours = length-drop (n - hours) units ∙ omega (arith, fits) in
      let (s, fills, sized, by, sums) =
        fill-some (λ i. i / 24) 0 (n / 24) last (new_series true (n / 24))
          (λ k h. day-lt k (n / 24) (omega (arith, h, many, fits)))
          (drop-AllWhole (n - hours) units whole) (new_series-IsSized true (n / 24)) in
      (
        s,
        rw (days, inside) fills,
        rw days by,
        rw by sized,
        rw days (sums ∙ ap (λ k. (k + total last) % 2 ^ 64) (sum-replicate (n / 24)) ∙ omega arith),
      )
]
