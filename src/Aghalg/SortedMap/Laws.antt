-- ===== src/Aghalg/SortedMap/Laws.antt =====
-- A sorted map as a map, and as the list of its keys in order.
use Prim.Native.Nat.{Ordering}
use null_private.Prelude.{
  ◌≡◌, refl, sym, ap, ◌∙◌, Bool, true, false, Option, none, some, if◌then◌else◌, arith,
  Option-cases, inl, inr, subst,
}
use null_private.Prelude.Map.{Eq, mem, lookup, delete, ◌==◌, lookup-insert, lookup-delete}
use null_private.Aghalg.SortedMap.{IsOrder, SortedMap, new_sorted_map, set, get, del}
use null_private.Aghalg.SortedMap.Order.{
  IsSorted, without, keys-set, mem-place, place-IsSorted, keys-del, mem-without, without-IsSorted,
}

abbrev pub is_some : {V : Type 0} → Option V → Bool
is_some none = false
is_some (some v) = true

module _ {K V : Type 0} (cmp : K → K → Ordering) ⦃e : Eq K⦄ where
  -- The keys are in order, and are those that have a value.
  pub record IsSortedMap (m : SortedMap K V) : Type 0 where
    pub sorted : IsSorted cmp m.keys
    pub domain : (k : K) → mem k m.keys ≡ is_some (get k m)

  pub new-IsSortedMap : IsSortedMap new_sorted_map
  unfolding get lookup
  new-IsSortedMap = record { sorted = tt; domain = λ k. refl }

  module _ (o : IsOrder cmp) (key : K) (m : SortedMap K V) (valid : IsSortedMap m) where
    -- `Set` keeps the keys in order and the map's keys those that have a value, and sets the value of
    -- the one key.
    -- The comparison must be a strict total order, and the map in order before.
    pub set-IsSortedMap :
        (val : V) (j : K)
        → IsSortedMap (set cmp key val m)
          × (get j (set cmp key val m) ≡ (if key == j then some val else get j m))
    unfolding set get
    set-IsSortedMap val j = (
      record {
        sorted =
            subst (IsSorted cmp) (sym (keys-set cmp key m.keys))
              (place-IsSorted cmp o key m.keys valid.sorted);
        domain = λ k.
            ap (mem k) (keys-set cmp key m.keys)
            ∙ mem-place cmp o k key m.keys
            ∙ ground (arith, valid.domain k, lookup-insert key k val m.vals);
      },
      lookup-insert key j val m.vals,
    )

    -- `Del` does not panic, keeps the keys in order and the map's keys those that have a value, and
    -- takes away the one key.
    -- The comparison must be a strict total order, and the map in order before.
    pub del-IsSortedMap :
        (j : K)
        → (m' : SortedMap K V) × (del cmp key m ≡ some m')
          × IsSortedMap m'
          × (get j m' ≡ (if key == j then none else get j m))
    unfolding del get
    del-IsSortedMap j = elim (Option-cases (lookup key m.vals)) [
      | inl missing ↦ (m, ground arith, valid, ground (arith, e.beq_iff key j))
      | inr (v, there) ↦
          let among : mem key m.keys ≡ true = ground (arith, valid.domain key) in
          let gone = keys-del cmp o key m.keys valid.sorted among in
          (
            record { vals = delete key m.vals; keys = without key m.keys },
            ground (arith, gone),
            record {
              sorted = without-IsSorted cmp o key m.keys valid.sorted;
              domain = λ k.
                  mem-without cmp o k key m.keys valid.sorted
                  ∙ ground (arith, valid.domain k, lookup-delete key k m.vals);
            },
            lookup-delete key j m.vals,
          )
    ]
