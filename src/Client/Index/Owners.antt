-- ===== src/Client/Index/Owners.antt =====
-- The maps of one kind of identifier: what the loops over the identifiers do to them, and what it
-- means that they agree with the clients.
use null_private.Prelude.{
  ℕ, ◌≡◌, refl, sym, ap, ◌∙◌, true, false, Option, none, some, List, [], ◌∷◌, arith, if◌then◌else◌,
  inl, inr, Bool-cases, Option-cases, ◌==◌ as nat_eqb,
}
use null_private.Prelude.Map.{
  Eq, Map, mem, lookup, insert, delete, ◌==◌, number_eq, lookup-insert, lookup-delete,
}
use null_private.Aghalg.SortedMap.{IsOrder, SortedMap, get, first_key}
use null_private.Aghalg.SortedMap.Order.{first_key-mem, first_key-none}
use null_private.Aghalg.SortedMap.Laws.{IsSortedMap, set-IsSortedMap, del-IsSortedMap}
use null_private.Client.Persistent.{Prefix, prefix_eq, Persistent, subnet_compare-IsOrder}
use null_private.Client.Index.{
  Netip, Index, insert_all, delete_all, first_other, subnet_order, set_all, del_all, subnet_value,
  subnet_uid, uid_or_zero,
}

module _ {K : Type 0} ⦃e : Eq K⦄ where
  pub lookup-insert_all :
      (j : K) (ks : List K) (u : ℕ) (m : Map K ℕ)
      → lookup j (insert_all ks u m) ≡ (if mem j ks then some u else lookup j m)
  unfolding insert_all
  lookup-insert_all j [] u m = refl
  lookup-insert_all j (k ∷ ks) u m =
      ground (arith, lookup-insert_all j ks u (insert k u m), lookup-insert k j u m)

  pub lookup-delete_all :
      (j : K) (ks : List K) (m : Map K ℕ)
      → lookup j (delete_all ks m) ≡ (if mem j ks then none else lookup j m)
  unfolding delete_all
  lookup-delete_all j [] m = refl
  lookup-delete_all j (k ∷ ks) m =
      ground (arith, lookup-delete_all j ks (delete k m), lookup-delete k j m)

  -- Where no identifier is another client's, each is the client's or nobody's.
  pub first_other-none :
      (uid : ℕ) (ks : List K) (f : K → Option ℕ) (k : K) (u : ℕ)
      → first_other uid ks f ≡ none
      → mem k ks ≡ true
      → f k ≡ some u
      → u ≡ uid
  unfolding first_other
  first_other-none uid [] f k u h here at = absurd (ground (arith, here))
  first_other-none uid (x ∷ ks) f k u h here at = elim (Bool-cases (x == k)) [
    | inl same ↦
        let at' : f x ≡ some u = ap f ((e.beq_iff x k).0 same) ∙ at in ground (arith, at', h)
    | inr apart ↦ elim (Option-cases (f x)) [
      | inl free ↦
          first_other-none uid ks f k u (ground (arith, free, h)) (ground (arith, apart, here)) at
      | inr (v, taken) ↦
          first_other-none uid ks f k u (ground (arith, taken, h)) (ground (arith, apart, here)) at
    ]
  ]

  -- A map, as a function, names for each identifier the client that has it.
  pub record Owns (ids : Persistent → List K) (f : K → Option ℕ) (clients : Map ℕ Persistent)
      : Type 0 where
    pub owned :
        (k : K) (u : ℕ)
        → f k ≡ some u
        → (c : Persistent) × (lookup u clients ≡ some c) × (mem k (ids c) ≡ true)
    pub known :
        (u : ℕ) (c : Persistent) (k : K)
        → lookup u clients ≡ some c
        → mem k (ids c) ≡ true
        → f k ≡ some u

  pub Owns_nil : (ids : Persistent → List K) → Owns ids (λ k. none) []
  unfolding lookup
  Owns_nil ids = record {
    owned = λ k u h. absurd (ground (arith, h));
    known = λ u c k h. absurd (ground (arith, h));
  }

  module _ (ids : Persistent → List K) (f g : K → Option ℕ) (clients : Map ℕ Persistent) (u : ℕ)
      (c : Persistent) (o : Owns ids f clients) where
    -- A client with identifiers that nobody has is added.
    pub Owns-insert :
        lookup u clients ≡ none
        → ((k : K) → mem k (ids c) ≡ true → f k ≡ none)
        → ((k : K) → g k ≡ (if mem k (ids c) then some u else f k))
        → Owns ids g (insert u c clients)
    Owns-insert new free change = record {
      owned = λ k v h. elim (Bool-cases (mem k (ids c))) [
        | inl here ↦ (
          c,
          ground (arith, change k, here, h, lookup-insert u v c clients, number_eq.beq_iff u v),
          here,
        )
        | inr other ↦
            let before = o.owned k v (ground (arith, change k, other, h)) in
            (
              before.0,
              ground (arith, before.1, new, lookup-insert u v c clients, number_eq.beq_iff u v),
              before.2,
            )
      ];
      known = λ v d k h here. elim (Bool-cases (nat_eqb u v)) [
        | inl same ↦
            let d_is : d ≡ c = ground (arith, same, h, lookup-insert u v c clients) in
            let here' : mem k (ids c) ≡ true = ap (λ x. mem k (ids x)) (sym d_is) ∙ here in
            ground (arith, change k, here', same)
        | inr apart ↦
            let old = o.known v d k (ground (arith, apart, h, lookup-insert u v c clients)) here in
            ground (arith, change k, free k, old)
      ];
    }

    -- A client is removed with its identifiers.
    pub Owns-delete :
        lookup u clients ≡ some c
        → ((k : K) → g k ≡ (if mem k (ids c) then none else f k))
        → Owns ids g (delete u clients)
    Owns-delete there change = record {
      owned = λ k v h.
          let before = o.owned k v (ground (arith, change k, h)) in
          elim (Bool-cases (nat_eqb u v)) [
            | inl same ↦
                let uid : u ≡ v = (number_eq.beq_iff u v).0 same in
                let d_is : before.0 ≡ c = ground (arith, uid, there, before.1) in
                let mine : mem k (ids c) ≡ true = ap (λ x. mem k (ids x)) (sym d_is) ∙ before.2 in
                absurd (ground (arith, change k, mine, h))
            | inr apart ↦
                (before.0, ground (arith, before.1, apart, lookup-delete u v clients), before.2)
          ];
      known = λ v d k h here.
          let stays : (nat_eqb u v) ≡ false = ground (arith, h, lookup-delete u v clients) in
          let old = o.known v d k (ground (arith, stays, h, lookup-delete u v clients)) here in
          elim (Bool-cases (mem k (ids c))) [
            | inl mine ↦ absurd (ground (arith, stays, old, o.known u c k there mine))
            | inr other ↦ ground (arith, change k, other, old)
          ];
    }

module _ (netip : Netip) (order : IsOrder netip.addr_compare) where
  abbrev pub IsSubnets : SortedMap Prefix ℕ → Type 0
  IsSubnets m = IsSortedMap (subnet_order netip) m

  subnets-IsOrder : IsOrder (subnet_order netip)
  subnets-IsOrder = subnet_compare-IsOrder netip.addr_compare order

  pub set_all-IsSubnets :
      (ps : List Prefix) (u : ℕ) (m : SortedMap Prefix ℕ)
      → IsSubnets m
      → IsSubnets (set_all netip ps u m)
  unfolding set_all
  set_all-IsSubnets [] u m v = v
  set_all-IsSubnets (p ∷ ps) u m v =
      set_all-IsSubnets ps u _ (set-IsSortedMap (subnet_order netip) subnets-IsOrder p m v u p).0

  pub get-set_all :
      (ps : List Prefix) (u : ℕ) (m : SortedMap Prefix ℕ) (j : Prefix)
      → IsSubnets m
      → get j (set_all netip ps u m) ≡ (if mem j ps then some u else get j m)
  unfolding set_all
  get-set_all [] u m j v = refl
  get-set_all (p ∷ ps) u m j v =
      let (v', now) = set-IsSortedMap (subnet_order netip) subnets-IsOrder p m v u j in
      ground (arith, get-set_all ps u _ j v', now)

  pub del_all-IsSubnets :
      (ps : List Prefix) (m : SortedMap Prefix ℕ)
      → IsSubnets m
      → (m' : SortedMap Prefix ℕ) × (del_all netip ps m ≡ some m')
        × IsSubnets m'
        × ((j : Prefix) → get j m' ≡ (if mem j ps then none else get j m))
  unfolding del_all
  del_all-IsSubnets [] m v = (m, refl, v, λ j. refl)
  del_all-IsSubnets (p ∷ ps) m v =
      let (m₁, once, v₁, _) = del-IsSortedMap (subnet_order netip) subnets-IsOrder p m v p in
      let (m', rest, v', gets) = del_all-IsSubnets ps m₁ v₁ in
      (
        m',
        ground (arith, once, rest),
        v',
        λ j.
            let (m₂, twice, _, now) =
              del-IsSortedMap (subnet_order netip) subnets-IsOrder p m v j in
            let same : m₂ ≡ m₁ = ground (arith, once, twice) in
            ground (arith, gets j, ap (get j) same, now),
      )

  value_none :
      (m : SortedMap Prefix ℕ) (p : Prefix) → IsSubnets m → mem p m.keys ≡ false → get p m ≡ none
  value_none m p v h = elim (Option-cases (get p m)) [
    | inl nothing ↦ nothing
    | inr (u, there) ↦ absurd (ground (arith, v.domain p, there, h))
  ]

  value_some :
      (m : SortedMap Prefix ℕ) (p : Prefix)
      → IsSubnets m
      → mem p m.keys ≡ true
      → some (uid_or_zero (get p m)) ≡ get p m
  value_some m p v h = elim (Option-cases (get p m)) [
    | inl nothing ↦ absurd (ground (arith, v.domain p, nothing, h))
    | inr (u, there) ↦ rw there refl
  ]

  -- The value that `clashesSubnet` finds is that of the subnet.
  pub subnet_value_lem :
      (ci : Index) (p : Prefix)
      → IsSubnets ci.subnet_to_uid
      → subnet_value ci p ≡ get p ci.subnet_to_uid
  subnet_value_lem ci p v = elim (Option-cases (first_key (λ q. p == q) ci.subnet_to_uid.keys)) [
    | inl nothing ↦
        let absent : mem p ci.subnet_to_uid.keys ≡ false =
          elim (Bool-cases (mem p ci.subnet_to_uid.keys)) [
            | inl there ↦ absurd (
                ground (
                  arith,
                  prefix_eq.beq_iff p p,
                  first_key-none (subnet_order netip) subnets-IsOrder (λ q. p == q)
                      ci.subnet_to_uid.keys p nothing there,
                ))
            | inr away ↦ away
          ] in
        let no_value : get p ci.subnet_to_uid ≡ none = value_none ci.subnet_to_uid p v absent in
        ap (subnet_uid ci) nothing ∙ sym no_value
    | inr (q, found) ↦
        let (among, equal) =
          first_key-mem (subnet_order netip) subnets-IsOrder (λ q. p == q) ci.subnet_to_uid.keys q
            found in
        let same : p ≡ q = (prefix_eq.beq_iff p q).0 equal in
        ap (subnet_uid ci) found
        ∙ ap (λ x. subnet_uid ci (some x)) (sym same)
        ∙ value_some ci.subnet_to_uid p v (ap (λ x. mem x ci.subnet_to_uid.keys) same ∙ among)
  ]
