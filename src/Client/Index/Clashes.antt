-- ===== src/Client/Index/Clashes.antt =====
-- The check that a client's identifiers are its own.
use null_private.Prelude.{
  ℕ, String, ◌≡◌, refl, sym, ap, ◌∙◌, Bool, true, false, Option, some, List, [], ◌∷◌, arith, inl,
  inr, ◌⊎◌, Bool-cases, Option-cases, ◌==◌ as nat_eqb,
}
use null_private.Prelude.Map.{Eq, mem, lookup, ◌==◌, number_eq, string_eq, bytes_eq}
use null_private.Dhcp.Lease.{addr_eq}
use null_private.Aghalg.SortedMap.{IsOrder, get}
use null_private.Client.Persistent.{
  prefix_eq, Persistent, ClientError, Result, ok, err, panic, is_mac, all_macs, same_name,
  same_client_id, same_ip, same_subnet, same_mac,
}
use null_private.Client.Index.{
  Netip, Index, first_other, client_of, found_as, find_by_name, clash_with, clashes_name,
  clashes_mac, clashes, subnet_value,
}
use null_private.Client.Index.Owners.{Owns, first_other-none, subnet_value_lem}
use null_private.Client.Index.Keeps.{IsConsistent, names_of, ids_of, ips_of, subnets_of}

-- What `first_other` returns is the UID of an identifier.
first_other-some :
    {K : Type 0} ⦃e : Eq K⦄ (uid : ℕ) (ks : List K) (f : K → Option ℕ) (u : ℕ)
    → first_other uid ks f ≡ some u
    → (k : K) × (f k ≡ some u)
unfolding first_other
first_other-some uid [] f u h = absurd (ground (arith, h))
first_other-some uid (k ∷ ks) f u h = elim (Option-cases (f k)) [
  | inl free ↦ first_other-some uid ks f u (ground (arith, free, h))
  | inr (w, taken) ↦ elim (Bool-cases (nat_eqb w uid)) [
    | inl mine ↦ first_other-some uid ks f u (ground (arith, taken, mine, h))
    | inr other ↦ (k, ground (arith, taken, other, h))
  ]
]

-- Every identifier of a list is the client's of `uid`, or nobody's.
abbrev pub IsOwn : {K : Type 0} ⦃e : Eq K⦄ → ℕ → List K → (K → Option ℕ) → Type 0
IsOwn {K} uid ks f = (k : K) (u : ℕ) → mem k ks ≡ true → f k ≡ some u → u ≡ uid

-- A loop that looks for a clash finds none only if there is none, and does not find a nil client.
clash_with-ok :
    {K : Type 0} ⦃e : Eq K⦄ (ids : Persistent → List K) (f : K → Option ℕ) (ci : Index) (uid : ℕ)
    (ks : List K) (kind : String → ClientError) (nil_client : Result (Unit {0}))
    → Owns ids f ci.uid_to_client
    → (IsOwn uid ks f × (clash_with kind nil_client (found_as ci (first_other uid ks f)) ≡ ok tt))
      ⊎ ((name : String) × (clash_with kind nil_client (found_as ci (first_other uid ks f))
            ≡ err (kind name)))
unfolding client_of
clash_with-ok ids f ci uid ks kind nil_client o = elim (Option-cases (first_other uid ks f)) [
  | inl nobody ↦ inl (λ k u here at. first_other-none uid ks f k u nobody here at, rw nobody refl)
  | inr (u, other) ↦
      let (k, at) = first_other-some uid ks f u other in
      let (p, there, _) = o.owned k u at in inr (p.name, ground (arith, other, there))
]

IsOwn-cons :
    {K : Type 0} ⦃e : Eq K⦄ (uid : ℕ) (x : K) (xs : List K) (f : K → Option ℕ)
    → ((u : ℕ) → f x ≡ some u → u ≡ uid)
    → IsOwn uid xs f
    → IsOwn uid (x ∷ xs) f
IsOwn-cons ⦃e⦄ uid x xs f first rest k u here at = elim (Bool-cases (x == k)) [
  | inl same ↦ first u (ap f ((e.beq_iff x k).0 same) ∙ at)
  | inr apart ↦ rest k u (ground (arith, apart, here)) at
]

IsOwn_nil : {K : Type 0} ⦃e : Eq K⦄ (uid : ℕ) (f : K → Option ℕ) → IsOwn uid [] f
IsOwn_nil uid f k u here at = absurd (ground (arith, here))

-- The three ends of a check: it passes and what it is meant to check holds, it refuses, or it panics
-- at a hardware address without a key.
abbrev pub IsChecked : Type 0 → Bool → Result (Unit {0}) → Type 0
IsChecked P valid r =
    (P × (r ≡ ok tt)) ⊎ (((e : ClientError) × (r ≡ err e)) ⊎ ((valid ≡ false) × (r ≡ panic)))

module _ (netip : Netip) (order : IsOrder netip.addr_compare) (ci : Index)
    (v : IsConsistent netip ci) (c : Persistent) where
  clashes_name-IsChecked :
      IsChecked (IsOwn c.uid (names_of c) (λ k. lookup k ci.name_to_uid)) true (clashes_name c ci)
  unfolding clashes_name find_by_name client_of
  clashes_name-IsChecked = elim (Option-cases (lookup c.name ci.name_to_uid)) [
    | inl nobody ↦ inl (
      IsOwn-cons c.uid c.name [] (λ k. lookup k ci.name_to_uid)
          (λ u at. absurd (ground (arith, nobody, at))) (IsOwn_nil c.uid _),
      ground (arith, nobody),
    )
    | inr (u, taken) ↦
        let (p, there, _) = v.names.owned c.name u taken in
        let (uid, _, _) = v.uids u p there in
        elim (Bool-cases (nat_eqb u c.uid)) [
          | inl mine ↦ inl (
            IsOwn-cons c.uid c.name [] (λ k. lookup k ci.name_to_uid)
                (λ w at. ground (arith, taken, at, mine)) (IsOwn_nil c.uid _),
            ground (arith, taken, there, uid, mine),
          )
          | inr other ↦ inr (inl (same_name p.name, ground (arith, taken, there, uid, other)))
        ]
  ]

  -- A hardware address that is the client's or nobody's leaves the check to the others.
  clashes_mac-rest :
      (mac : List ℕ) (macs : List (List ℕ)) (r : Result (Unit {0}))
      → is_mac mac ≡ true
      → ((u : ℕ) → lookup mac ci.mac_to_uid ≡ some u → u ≡ c.uid)
      → r ≡ clashes_mac c macs ci
      → IsChecked
          (IsOwn c.uid macs (λ k. lookup k ci.mac_to_uid))
          (all_macs macs)
          (clashes_mac c macs ci)
      → IsChecked (IsOwn c.uid (mac ∷ macs) (λ k. lookup k ci.mac_to_uid)) (all_macs (mac ∷ macs)) r
  clashes_mac-rest mac macs r good own same later = elim later [
    | inl (rest, passes) ↦
        inl (IsOwn-cons c.uid mac macs (λ k. lookup k ci.mac_to_uid) own rest, same ∙ passes)
    | inr (inl (e, clash)) ↦ inr (inl (e, same ∙ clash))
    | inr (inr (bad, panics)) ↦ inr (inr (ground (arith, good, bad), same ∙ panics))
  ]

  clashes_mac-IsChecked :
      (macs : List (List ℕ))
      → IsChecked
          (IsOwn c.uid macs (λ k. lookup k ci.mac_to_uid))
          (all_macs macs)
          (clashes_mac c macs ci)
  unfolding clashes_mac client_of
  clashes_mac-IsChecked [] = inl (IsOwn_nil c.uid _, refl)
  clashes_mac-IsChecked (mac ∷ macs) = elim (Bool-cases (is_mac mac)) [
    | inr bad ↦ inr (inr (rw bad refl, rw bad refl))
    | inl good ↦ elim (Option-cases (lookup mac ci.mac_to_uid)) [
      | inl nobody ↦
          clashes_mac-rest mac macs _ good (λ u at. absurd (ground (arith, nobody, at)))
            (ground (arith, good, nobody)) (clashes_mac-IsChecked macs)
      | inr (u, taken) ↦ elim (Bool-cases (nat_eqb u c.uid)) [
        | inl mine ↦
            clashes_mac-rest mac macs _ good (λ w at. ground (arith, taken, at, mine))
              (ground (arith, good, taken, mine)) (clashes_mac-IsChecked macs)
        | inr other ↦
            let (p, there, _) = v.macs.owned mac u taken in
            inr (inl (same_mac p.name, ground (arith, good, taken, other, there)))
      ]
    ]
  ]

  -- What it means that `clashes` passes: every identifier of the client is its own or nobody's.
  pub record IsClashFree : Type 0 where
    pub names : IsOwn c.uid (names_of c) (λ k. lookup k ci.name_to_uid)
    pub client_ids : IsOwn c.uid c.client_ids (λ k. lookup k ci.client_id_to_uid)
    pub ips : IsOwn c.uid c.ips (λ k. lookup k ci.ip_to_uid)
    pub subnets : IsOwn c.uid c.subnets (λ k. get k ci.subnet_to_uid)
    pub macs : IsOwn c.uid c.macs (λ k. lookup k ci.mac_to_uid)

  Owns-subnet_value : Owns subnets_of (subnet_value ci) ci.uid_to_client
  Owns-subnet_value = record {
    owned = λ k u h. v.subnets.owned k u (sym (subnet_value_lem netip order ci k v.in_order) ∙ h);
    known =
        λ u d k h here. subnet_value_lem netip order ci k v.in_order ∙ v.subnets.known u d k h here;
  }

  pub clashes-IsChecked : IsChecked IsClashFree (all_macs c.macs) (clashes c ci)
  unfolding clashes
  clashes-IsChecked = elim clashes_name-IsChecked [
    | inr (inl (e, clash)) ↦ inr (inl (e, rw clash refl))
    | inr (inr (bad, panics)) ↦ absurd (ground (arith, bad))
    | inl (names, ok₁) ↦
        elim (clash_with-ok ids_of (λ k. lookup k ci.client_id_to_uid) ci c.uid c.client_ids
          same_client_id panic v.client_ids) [
            | inr (name, clash) ↦ inr (inl (same_client_id name, rw (ok₁, clash) refl))
            | inl (client_ids, ok₂) ↦
                elim (clash_with-ok ips_of (λ k. lookup k ci.ip_to_uid) ci c.uid c.ips same_ip
                  (ok tt) v.ips) [
                    | inr (name, clash) ↦ inr (inl (same_ip name, rw (ok₁, ok₂, clash) refl))
                    | inl (ips, ok₃) ↦
                        elim (clash_with-ok subnets_of (subnet_value ci) ci c.uid c.subnets
                          same_subnet (ok tt) Owns-subnet_value) [
                            | inr (name, clash) ↦
                                inr (inl (same_subnet name, rw (ok₁, ok₂, ok₃, clash) refl))
                            | inl (subnets, ok₄) ↦ elim (clashes_mac-IsChecked c.macs) [
                              | inl (macs, ok₅) ↦ inl (
                                record {
                                  names = names;
                                  client_ids = client_ids;
                                  ips = ips;
                                  subnets = λ k u here at.
                                      subnets k u here
                                        (subnet_value_lem netip order ci k v.in_order ∙ at);
                                  macs = macs;
                                },
                                rw (ok₁, ok₂, ok₃, ok₄) ok₅,
                              )
                              | inr (inl (e, clash)) ↦ inr (inl (e, rw (ok₁, ok₂, ok₃, ok₄) clash))
                              | inr (inr (bad, panics)) ↦
                                  inr (inr (bad, rw (ok₁, ok₂, ok₃, ok₄) panics))
                            ]
                          ]
                  ]
          ]
  ]
