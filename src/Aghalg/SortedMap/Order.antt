-- ===== src/Aghalg/SortedMap/Order.antt =====
-- Keys in order: what the search, the insertion and the deletion of a key do to them.
use Prim.Native.Nat.{Ordering}
use Prim.Native.Nat.Ordering.{lt, eq, gt}
use null_private.Prelude.{
  ◌≡◌, refl, sym, ◌∙◌, subst, Bool-cases, Bool, true, false, ◌||◌, none, some, List, [], ◌∷◌,
  if◌then◌else◌, arith, inl, inr, ◌⊎◌,
}
use null_private.Prelude.Map.{Eq, mem, ◌==◌}
use null_private.Aghalg.SortedMap.{IsOrder, set_at, insert_at, delete_at, search_func, first_key}

-- `key` comes before all of the keys.
abbrev pub Below : {K : Type 0} → (K → K → Ordering) → K → List K → Type 0
Below cmp key [] = Unit {0}
Below cmp key (k ∷ ks) = (cmp key k ≡ lt) × Below cmp key ks

abbrev pub IsSorted : {K : Type 0} → (K → K → Ordering) → List K → Type 0
IsSorted cmp [] = Unit {0}
IsSorted cmp (k ∷ ks) = Below cmp k ks × IsSorted cmp ks

abbrev pub without : {K : Type 0} ⦃e : Eq K⦄ → K → List K → List K
without key [] = []
without key (k ∷ ks) = if k == key then ks else k ∷ without key ks

module _ {K : Type 0} (cmp : K → K → Ordering) where
  -- The keys with one more, in its place.
  abbrev pub place : K → List K → List K
  place key [] = key ∷ []
  place key (k ∷ ks) = elim (cmp k key) [
    | lt ↦ k ∷ place key ks
    | eq ↦ key ∷ ks
    | gt ↦ key ∷ k ∷ ks
  ]

  -- What `Set` does to the keys.
  pub keys-set :
      (key : K) (ks : List K)
      → (if (search_func cmp key ks).1
          then set_at ks (search_func cmp key ks).0 key
          else insert_at ks (search_func cmp key ks).0 key)
        ≡ place key ks
  unfolding search_func
  keys-set key [] = refl
  keys-set key (k ∷ ks) = ground (arith, keys-set key ks)

module _ {K : Type 0} (cmp : K → K → Ordering) ⦃e : Eq K⦄ (o : IsOrder cmp) where
  pub mem-place : (j key : K) (ks : List K) → mem j (place cmp key ks) ≡ ((key == j) || mem j ks)
  mem-place j key [] = refl
  mem-place j key (k ∷ ks) =
      ground (arith, mem-place j key ks, o.zero_iff k key, e.beq_iff k j, e.beq_iff key j)

  Below-trans : (a b : K) (ks : List K) → cmp a b ≡ lt → Below cmp b ks → Below cmp a ks
  Below-trans a b [] h s = tt
  Below-trans a b (k ∷ ks) h s = (o.chained a b k h s.0, Below-trans a b ks h s.1)

  Below-place :
      (a key : K) (ks : List K) → cmp a key ≡ lt → Below cmp a ks → Below cmp a (place cmp key ks)
  Below-place a key [] h s = (h, tt)
  Below-place a key (k ∷ ks) h s = ground (arith, Below-place a key ks)

  pub place-IsSorted : (key : K) (ks : List K) → IsSorted cmp ks → IsSorted cmp (place cmp key ks)
  place-IsSorted key [] s = (tt, tt)
  place-IsSorted key (k ∷ ks) s = ground (
    arith,
    place-IsSorted key ks,
    Below-place k key ks,
    o.turned_iff key k,
    o.zero_iff k key,
    Below-trans key k ks,
  )

  -- A key before all of the keys is not among them.
  pub not-mem-Below : (key : K) (ks : List K) → Below cmp key ks → mem key ks ≡ false
  not-mem-Below key [] s = refl
  not-mem-Below key (k ∷ ks) s =
      ground (arith, not-mem-Below key ks, e.beq_iff k key, o.zero_iff key key)

  pub lt_of_mem : (a j : K) (ks : List K) → Below cmp a ks → mem j ks ≡ true → cmp a j ≡ lt
  lt_of_mem a j [] s h = absurd (ground (arith, h))
  lt_of_mem a j (k ∷ ks) s h = ground (arith, lt_of_mem a j ks, e.beq_iff k j)

  -- What `Del` does to the keys, where the key is among them.
  pub keys-del :
      (key : K) (ks : List K)
      → IsSorted cmp ks
      → mem key ks ≡ true
      → delete_at ks (search_func cmp key ks).0 ≡ some (without key ks)
  unfolding search_func
  keys-del key [] s h = absurd (ground (arith, h))
  keys-del key (k ∷ ks) s h = ground (
    arith,
    keys-del key ks,
    e.beq_iff k key,
    o.zero_iff k key,
    o.zero_iff key key,
    lt_of_mem k key ks,
  )

  pub mem-without :
      (j key : K) (ks : List K)
      → IsSorted cmp ks
      → mem j (without key ks) ≡ (if key == j then false else mem j ks)
  mem-without j key [] s = ground arith
  mem-without j key (k ∷ ks) s = ground (
    arith,
    mem-without j key ks,
    e.beq_iff k key,
    e.beq_iff key j,
    e.beq_iff k j,
    not-mem-Below k ks,
  )

  Below-without : (a key : K) (ks : List K) → Below cmp a ks → Below cmp a (without key ks)
  Below-without a key [] s = tt
  Below-without a key (k ∷ ks) s = ground (arith, Below-without a key ks)

  pub without-IsSorted : (key : K) (ks : List K) → IsSorted cmp ks → IsSorted cmp (without key ks)
  without-IsSorted key [] s = tt
  without-IsSorted key (k ∷ ks) s = ground (arith, without-IsSorted key ks, Below-without k key ks)

  -- A key at which `Range` stops is among the keys, makes the callback stop, and comes before every
  -- other key that does.
  pub first_key-least :
      (stops : K → Bool) (ks : List K) (k j : K)
      → IsSorted cmp ks
      → first_key stops ks ≡ some k
      → mem j ks ≡ true
      → stops j ≡ true
      → (k ≡ j) ⊎ (cmp k j ≡ lt)
  first_key-least stops [] k j s h here hit = absurd (ground (arith, h))
  first_key-least stops (x ∷ ks) k j s h here hit = elim (Bool-cases (stops x)) [
    | inl now ↦
        let first : x ≡ k = ground (arith, h) in
        elim (Bool-cases (x == j)) [
          | inl same ↦ inl (sym first ∙ (e.beq_iff x j).0 same)
          | inr apart ↦
              inr (subst (λ y. cmp y j ≡ lt) first (lt_of_mem x j ks s.0 (ground (arith, here))))
        ]
    | inr later ↦
        first_key-least stops ks k j s.1 (ground (arith, h)) (ground (arith, e.beq_iff x j)) hit
  ]

  pub first_key-mem :
      (stops : K → Bool) (ks : List K) (k : K)
      → first_key stops ks ≡ some k
      → (mem k ks ≡ true) × (stops k ≡ true)
  first_key-mem stops [] k h = absurd (ground (arith, h))
  first_key-mem stops (x ∷ ks) k h = ground (arith, first_key-mem stops ks k, e.beq_iff x k)

  pub first_key-none :
      (stops : K → Bool) (ks : List K) (j : K)
      → first_key stops ks ≡ none
      → mem j ks ≡ true
      → stops j ≡ false
  first_key-none stops [] j h here = absurd (ground (arith, here))
  first_key-none stops (x ∷ ks) j h here = ground (arith, first_key-none stops ks j, e.beq_iff x j)
