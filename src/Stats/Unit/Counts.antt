-- ===== src/Stats/Unit/Counts.antt =====
-- What the counters of a unit count.
use null_private.Prelude.{
  ℕ, zero, suc, ◌+◌, ◌%◌, ◌^◌, ◌<◌, String, ◌≡◌, refl, sym, ap, ◌∙◌, Bool, true, false, not, ◌&&◌,
  Option, none, some, List, [], ◌∷◌, arith, ◌==◌ as nat_eqb, str_eq, if◌then◌else◌, Bool-cases,
  Option-cases, inl, inr, length,
}
use null_private.Prelude.Map.{Map, lookup, string_eq, lookup-insert}
use null_private.Stats.Unit.{
  Entry, StatsUnit, new_unit, r_not_filtered, add64, count_of, add_count, inc_at, add_entry,
  validate_entry, update,
}

-- The current unit after a series of requests.
unfoldable pub update_all : ℕ → List Entry → Option StatsUnit → Option StatsUnit
update_all limit [] curr = curr
update_all limit (e ∷ es) curr = update_all limit es (update true limit e curr)

abbrev is_valid : Entry → Bool
is_valid e = elim (validate_entry e) [ none ↦ true | some error ↦ false ]

-- How many of the valid entries have a property.
abbrev pub tally : (Entry → Bool) → List Entry → ℕ
tally P [] = 0
tally P (e ∷ es) = let rest = tally P es in if is_valid e && P e then suc rest else rest

abbrev pub at_index : ℕ → List ℕ → ℕ
at_index i [] = 0
at_index zero (n ∷ ns) = n
at_index (suc i) (n ∷ ns) = at_index i ns

-- A counter that is one more, modulo its width.
abbrev IsStep : Bool → ℕ → ℕ → Type 0
IsStep counted before now = now ≡ (if counted then add64 before 1 else before)

count_of-add_count :
    (k j : String) (m : Map String ℕ)
    → IsStep (str_eq k j) (count_of j m) (count_of j (add_count k 1 m))
unfolding add_count
count_of-add_count k j m = elim (Bool-cases (str_eq k j)) [
  | inl same ↦ ground (
    arith,
    same,
    lookup-insert k j (add64 (count_of k m) 1) m,
    ap (λ x. count_of x m) ((string_eq.beq_iff k j).0 same),
  )
  | inr apart ↦ ground (arith, apart, lookup-insert k j (add64 (count_of k m) 1) m)
]

at_index-inc_at :
    (i j : ℕ) (ns : List ℕ)
    → i < length ns
    → IsStep (nat_eqb i j) (at_index j ns) (at_index j (inc_at i ns))
at_index-inc_at i j [] h = absurd (omega (arith, h))
at_index-inc_at zero zero (n ∷ ns) h = ground arith
at_index-inc_at zero (suc j) (n ∷ ns) h = ground arith
at_index-inc_at (suc i) zero (n ∷ ns) h = ground arith
at_index-inc_at (suc i) (suc j) (n ∷ ns) h =
    ground (arith, at_index-inc_at i j ns (omega (arith, h)))

length-inc_at : (i : ℕ) (ns : List ℕ) → length (inc_at i ns) ≡ length ns
length-inc_at i [] = refl
length-inc_at zero (n ∷ ns) = refl
length-inc_at (suc i) (n ∷ ns) = ap suc (length-inc_at i ns)

abbrev run : List Entry → StatsUnit → StatsUnit
run [] u = u
run (e ∷ es) u = if is_valid e then run es (add_entry e u) else run es u

update_all-run :
    (limit : ℕ) (es : List Entry) (u : StatsUnit)
    → nat_eqb limit 0 ≡ false
    → update_all limit es (some u) ≡ some (run es u)
unfolding update_all update
update_all-run limit [] u h = refl
update_all-run limit (e ∷ es) u h = elim (Option-cases (validate_entry e)) [
  | inl valid ↦
      let step : update true limit e (some u) ≡ some (add_entry e u) = ground (arith, h, valid) in
      let same : run (e ∷ es) u ≡ run es (add_entry e u) = ground (arith, valid) in
      ap (update_all limit es) step ∙ update_all-run limit es (add_entry e u) h ∙ ap some (sym same)
  | inr (error, bad) ↦
      let step : update true limit e (some u) ≡ some u = ground (arith, h, bad) in
      let same : run (e ∷ es) u ≡ run es u = ground (arith, bad) in
      ap (update_all limit es) step ∙ update_all-run limit es u h ∙ ap some (sym same)
]

valid-lt : (e : Entry) → is_valid e ≡ true → e.result < 6
unfolding validate_entry
valid-lt e h = ground (arith, h)

-- A counter that each valid entry with a property makes one more.
module _ (F : StatsUnit → ℕ) (P : Entry → Bool)
    (step : (e : Entry) (u : StatsUnit)
      → is_valid e ≡ true
      → length u.n_result ≡ 6
      → IsStep (P e) (F u) (F (add_entry e u))) where
  counted :
      (es : List Entry) (u : StatsUnit)
      → length u.n_result ≡ 6
      → F (run es u) % 2 ^ 64 ≡ (F u + tally P es) % 2 ^ 64
  unfolding add_entry
  counted [] u h = omega arith
  counted (e ∷ es) u h = elim (Bool-cases (is_valid e)) [
    | inr bad ↦ rw bad (counted es u h)
    | inl valid ↦
        let rest = counted es (add_entry e u) (length-inc_at e.result u.n_result ∙ h) in
        elim (Bool-cases (P e)) [
          | inl one ↦
              rw (valid, one)
                (rest
                  ∙ more (F u) (F (add_entry e u)) (tally P es) (step e u valid h ∙ rw one refl))
          | inr other ↦
              rw (valid, other)
                (rest ∙ ap (λ n. (n + tally P es) % 2 ^ 64) (step e u valid h ∙ rw other refl))
        ]
  ]
    where
      more : (b n t : ℕ) → n ≡ add64 b 1 → (n + t) % 2 ^ 64 ≡ (b + suc t) % 2 ^ 64
      more b n t e = omega (arith, e)

  counted_new :
      (es : List Entry) (id : ℕ)
      → F (new_unit id) ≡ 0
      → F (run es (new_unit id)) % 2 ^ 64 ≡ tally P es % 2 ^ 64
  counted_new es id none_yet =
      counted es (new_unit id) refl ∙ ap (λ n. n % 2 ^ 64) (omega (arith, none_yet))

abbrev pub not_filtered : Entry → Bool
not_filtered e = nat_eqb e.result r_not_filtered

-- What a unit has counted, modulo the width of its counters.
pub record IsCount (es : List Entry) (u : StatsUnit) : Type 0 where
  pub total : u.n_total % 2 ^ 64 ≡ tally (λ e. true) es % 2 ^ 64
  pub results :
      (r : ℕ) → at_index r u.n_result % 2 ^ 64 ≡ tally (λ e. nat_eqb e.result r) es % 2 ^ 64
  pub domains :
      (d : String)
      → count_of d u.domains % 2 ^ 64 ≡ tally (λ e. not_filtered e && str_eq e.domain d) es % 2 ^ 64
  pub blocked_domains :
      (d : String)
      → count_of d u.blocked_domains % 2 ^ 64
        ≡ tally (λ e. not (not_filtered e) && str_eq e.domain d) es % 2 ^ 64
  pub clients :
      (c : String) → count_of c u.clients % 2 ^ 64 ≡ tally (λ e. str_eq e.client c) es % 2 ^ 64

zeros : (r : ℕ) → at_index r (0 ∷ 0 ∷ 0 ∷ 0 ∷ 0 ∷ 0 ∷ []) ≡ 0
zeros r = ground arith

run-IsCount : (es : List Entry) (id : ℕ) → IsCount es (run es (new_unit id))
unfolding add_entry lookup
run-IsCount es id = record {
  total = counted_new (λ u. u.n_total) (λ e. true) (λ e u v h. refl) es id refl;
  results = λ r.
      counted_new (λ u. at_index r u.n_result) (λ e. nat_eqb e.result r)
        (λ e u v h. at_index-inc_at e.result r u.n_result (omega (arith, valid-lt e v, h))) es id
        (zeros r);
  domains = λ d.
      counted_new (λ u. count_of d u.domains) (λ e. not_filtered e && str_eq e.domain d)
        (λ e u v h. ground (arith, count_of-add_count e.domain d u.domains)) es id refl;
  blocked_domains = λ d.
      counted_new (λ u. count_of d u.blocked_domains)
        (λ e. not (not_filtered e) && str_eq e.domain d)
        (λ e u v h. ground (arith, count_of-add_count e.domain d u.blocked_domains)) es id refl;
  clients = λ c.
      counted_new (λ u. count_of c u.clients) (λ e. str_eq e.client c)
        (λ e u v h. count_of-add_count e.client c u.clients) es id refl;
}

-- After any series of requests to a new unit, with statistics on, the unit is there, and its counters
-- are, modulo 2 ^ 64, the numbers of the valid entries: of all, of those with each result, of those not
-- filtered and those filtered for each domain, and of those from each client.
-- The limit must not be zero.
pub update_all-IsCount :
    (limit : ℕ) (es : List Entry) (id : ℕ)
    → nat_eqb limit 0 ≡ false
    → (u : StatsUnit) × (update_all limit es (some (new_unit id)) ≡ some u) × IsCount es u
update_all-IsCount limit es id h =
    (run es (new_unit id), update_all-run limit es (new_unit id) h, run-IsCount es id)
