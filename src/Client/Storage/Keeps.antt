-- ===== src/Client/Storage/Keeps.antt =====
-- What every call on the storage leaves.
use null_private.Prelude.{
  ℕ, String, ◌≡◌, ◌≢◌, refl, sym, ap, ◌∙◌, subst, Bool, true, false, Option, none, some, List,
  arith, if◌then◌else◌, inl, inr, ◌⊎◌, Bool-cases, Option-cases, ◌==◌ as nat_eqb,
}
use null_private.Prelude.Map.{Eq, Map, mem, lookup, number_eq, string_eq, bytes_eq, lookup-delete}
use null_private.Dhcp.Lease.{addr_eq}
use null_private.Aghalg.SortedMap.{IsOrder}
use null_private.Client.Persistent.{
  prefix_eq, Persistent, ClientError, same_uid, not_found, Result, ok, err, panic, Result-cases,
  all_macs, Checks, validate_client,
}
use null_private.Client.Index.{
  Netip, Index, client_of, find_by_name, clashes_uid, add_client, remove_client,
}
use null_private.Client.Index.Owners.{Owns}
use null_private.Client.Index.Keeps.{
  IsConsistent, IsFree, names_of, ids_of, ips_of, subnets_of, macs_of, add_client-IsConsistent,
  remove_client-IsConsistent,
}
use null_private.Client.Index.Clashes.{IsOwn, IsClashFree, clashes-IsChecked}
use null_private.Client.Storage.{
  add, update, remove_by_name, Call, add_call, update_call, remove_call, valid_call, run_call,
}

-- A client that passes its validation keeps its identifiers, and has a UID.
validate_client-ok :
    (checks : Checks) (p p' : Persistent)
    → validate_client checks p ≡ ok p'
    → (all_macs p'.macs ≡ all_macs p.macs) × (nat_eqb p'.uid 0 ≡ false)
unfolding validate_client
validate_client-ok checks p p' e = ground arith

validate_client-ne-panic : (checks : Checks) (p : Persistent) → validate_client checks p ≢ panic
unfolding validate_client
validate_client-ne-panic checks p e = ground (arith, e)

-- An identifier that is the new client's or nobody's is nobody's, where no client has the UID.
free_of_new :
    {K : Type 0} ⦃e : Eq K⦄ (ids : Persistent → List K) (f : K → Option ℕ)
    (clients : Map ℕ Persistent) (uid : ℕ) (ks : List K)
    → Owns ids f clients
    → lookup uid clients ≡ none
    → IsOwn uid ks f
    → (k : K) → mem k ks ≡ true
    → f k ≡ none
free_of_new ids f clients uid ks o new own k here = elim (Option-cases (f k)) [
  | inl nobody ↦ nobody
  | inr (u, taken) ↦
      let (c, there, _) = o.owned k u taken in
      let mine : u ≡ uid = own k u here taken in absurd (ground (arith, mine, there, new))
]

-- The same for the identifiers of a client that takes the place of one that is removed.
free_of_removed :
    {K : Type 0} ⦃e : Eq K⦄ (ids : Persistent → List K) (f g : K → Option ℕ)
    (clients : Map ℕ Persistent) (c : Persistent) (uid : ℕ) (ks : List K)
    → Owns ids f clients
    → uid ≡ c.uid
    → lookup c.uid clients ≡ some c
    → ((k : K) → g k ≡ (if mem k (ids c) then none else f k))
    → IsOwn uid ks f
    → (k : K) → mem k ks ≡ true
    → g k ≡ none
free_of_removed ids f g clients c uid ks o same there change own k here =
    elim (Bool-cases (mem k (ids c))) [
      | inl old ↦ ground (arith, change k, old)
      | inr new ↦ elim (Option-cases (f k)) [
        | inl nobody ↦ ground (arith, change k, nobody)
        | inr (u, taken) ↦
            let (d, at, has) = o.owned k u taken in
            let mine : u ≡ c.uid = own k u here taken ∙ same in
            let d_is : d ≡ c = ground (arith, mine, at, there) in
            let had : mem k (ids c) ≡ true = ap (λ x. mem k (ids x)) (sym d_is) ∙ has in
            absurd (ground (arith, had, new))
      ]
    ]

-- How a call that keeps the index consistent may end.
abbrev pub IsKept : Netip → Bool → Result Index → Type 0
IsKept netip valid (ok ci') = IsConsistent netip ci'
IsKept netip valid (err e) = Unit {0}
IsKept netip valid panic = valid ≡ false

add_client-panic :
    (netip : Netip) (c : Persistent) (ci : Index)
    → nat_eqb c.uid 0 ≡ false
    → add_client netip c ci ≡ panic
    → all_macs c.macs ≡ false
unfolding add_client
add_client-panic netip c ci real panics = ground (arith, real, panics)

add_client-IsKept :
    (netip : Netip) (order : IsOrder netip.addr_compare) (ci : Index)
    → IsConsistent netip ci
    → (c : Persistent) → nat_eqb c.uid 0 ≡ false
    → IsFree c ci
    → lookup c.uid ci.uid_to_client ≡ none
    → IsKept netip (all_macs c.macs) (add_client netip c ci)
add_client-IsKept netip order ci v c real free new = elim (Result-cases (add_client netip c ci)) [
  | inl (ci', done) ↦
      subst (IsKept netip (all_macs c.macs)) (sym done)
        (add_client-IsConsistent netip order ci v c ci' free new done)
  | inr (inl (e, failed)) ↦ subst (IsKept netip (all_macs c.macs)) (sym failed) tt
  | inr (inr panics) ↦
      subst (IsKept netip (all_macs c.macs)) (sym panics) (add_client-panic netip c ci real panics)
]

module _ (netip : Netip) (order : IsOrder netip.addr_compare) (ci : Index)
    (v : IsConsistent netip ci) where
  -- A client that is found by name is there, under its UID.
  find_by_name-there :
      (name : String)
      → (find_by_name name ci ≡ none)
        ⊎ ((c : Persistent) × (find_by_name name ci ≡ some (some c))
            × (lookup c.uid ci.uid_to_client ≡ some c))
  unfolding find_by_name client_of
  find_by_name-there name = elim (Option-cases (lookup name ci.name_to_uid)) [
    | inl nobody ↦ inl (ground (arith, nobody))
    | inr (u, taken) ↦
        let (c, there, _) = v.names.owned name u taken in
        let (uid, _, _) = v.uids u c there in
        inr (c, ground (arith, taken, there), ap (λ x. lookup x ci.uid_to_client) uid ∙ there)
  ]

  IsFree-of_new :
      (c : Persistent)
      → lookup c.uid ci.uid_to_client ≡ none
      → IsClashFree netip order ci v c
      → IsFree c ci
  IsFree-of_new c new free = record {
    names = free_of_new names_of _ ci.uid_to_client c.uid (names_of c) v.names new free.names;
    client_ids =
        free_of_new ids_of _ ci.uid_to_client c.uid c.client_ids v.client_ids new free.client_ids;
    ips = free_of_new ips_of _ ci.uid_to_client c.uid c.ips v.ips new free.ips;
    subnets = free_of_new subnets_of _ ci.uid_to_client c.uid c.subnets v.subnets new free.subnets;
    macs = free_of_new macs_of _ ci.uid_to_client c.uid c.macs v.macs new free.macs;
  }

  -- A call that ends in an error keeps the index.
  IsKept-err :
      (valid : Bool) (e : ClientError) (r : Result Index) → r ≡ err e → IsKept netip valid r
  IsKept-err valid e r failed = subst (IsKept netip valid) (sym failed) tt

  add-IsKept :
      (checks : Checks) (p : Persistent) → IsKept netip (all_macs p.macs) (add netip checks p ci)
  unfolding add clashes_uid client_of
  add-IsKept checks p = elim (Result-cases (validate_client checks p)) [
    | inr (inl (e, bad)) ↦ IsKept-err _ e _ (ground (arith, bad))
    | inr (inr panics) ↦ absurd (validate_client-ne-panic checks p panics)
    | inl (c, good) ↦
        let (macs, real) = validate_client-ok checks p c good in
        elim (Option-cases (lookup c.uid ci.uid_to_client)) [
          | inr (d, taken) ↦ IsKept-err _ (same_uid d.name) _ (ground (arith, good, taken))
          | inl new ↦ elim (clashes-IsChecked netip order ci v c) [
            | inr (inl (e, clash)) ↦ IsKept-err _ e _ (ground (arith, good, new, clash))
            | inr (inr (bad, panics)) ↦
                let out : add netip checks p ci ≡ panic = ground (arith, good, new, panics) in
                subst (IsKept netip (all_macs p.macs)) (sym out) (sym macs ∙ bad)
            | inl (free, passes) ↦
                let out : add netip checks p ci ≡ add_client netip c ci =
                  ground (arith, good, new, passes) in
                let kept =
                  add_client-IsKept netip order ci v c real (IsFree-of_new c new free) new in
                subst (IsKept netip (all_macs p.macs)) (sym out)
                  (subst (λ b. IsKept netip b (add_client netip c ci)) macs kept)
          ]
        ]
  ]

  -- What is left of the stored client is not in the way of the one that takes its place.
  replace_client-IsKept :
      (stored c : Persistent)
      → lookup stored.uid ci.uid_to_client ≡ some stored
      → c.uid ≡ stored.uid
      → nat_eqb stored.uid 0 ≡ false
      → IsClashFree netip order ci v c
      → (removed : Index) × (remove_client netip stored ci ≡ ok removed)
        × IsKept netip (all_macs c.macs) (add_client netip c removed)
  replace_client-IsKept stored c there same real free =
      let (removed, done, w, clients, names, ids, ips, subnets, macs) =
        remove_client-IsConsistent netip order ci v stored there in
      (
        removed,
        done,
        add_client-IsKept netip order removed w c (ap (λ u. nat_eqb u 0) same ∙ real)
            (record {
              names =
                  free_of_removed names_of _ _ ci.uid_to_client stored c.uid (names_of c) v.names
                    same there names free.names;
              client_ids =
                  free_of_removed ids_of _ _ ci.uid_to_client stored c.uid c.client_ids v.client_ids
                    same there ids free.client_ids;
              ips =
                  free_of_removed ips_of _ _ ci.uid_to_client stored c.uid c.ips v.ips same there
                    ips free.ips;
              subnets =
                  free_of_removed subnets_of _ _ ci.uid_to_client stored c.uid c.subnets v.subnets
                    same there subnets free.subnets;
              macs =
                  free_of_removed macs_of _ _ ci.uid_to_client stored c.uid c.macs v.macs same there
                    macs free.macs;
            })
            (ap (λ m. lookup c.uid m) clients
              ∙ ground (
                arith,
                lookup-delete stored.uid c.uid ci.uid_to_client,
                number_eq.beq_iff stored.uid c.uid,
                same,
              )),
      )

  update-IsKept :
      (checks : Checks) (name : String) (p : Persistent)
      → IsKept netip (all_macs p.macs) (update netip checks name p ci)
  unfolding update
  update-IsKept checks name p = elim (Result-cases (validate_client checks p)) [
    | inr (inl (e, bad)) ↦ IsKept-err _ e _ (ground (arith, bad))
    | inr (inr panics) ↦ absurd (validate_client-ne-panic checks p panics)
    | inl (p', good) ↦ elim (find_by_name-there name) [
      | inl nobody ↦ IsKept-err _ not_found _ (ground (arith, good, nobody))
      | inr (stored, found, there) ↦
          let (macs, _) = validate_client-ok checks p p' good in
          let (_, _, real) = v.uids stored.uid stored there in
          let c : Persistent = record p' { uid = stored.uid } in
          elim (clashes-IsChecked netip order ci v c) [
            | inr (inl (e, clash)) ↦ IsKept-err _ e _ (ground (arith, good, found, clash))
            | inr (inr (bad, panics)) ↦
                let out : update netip checks name p ci ≡ panic =
                  ground (arith, good, found, panics) in
                subst (IsKept netip (all_macs p.macs)) (sym out) (sym macs ∙ bad)
            | inl (free, passes) ↦
                let (removed, done, kept) = replace_client-IsKept stored c there refl real free in
                let out : update netip checks name p ci ≡ add_client netip c removed =
                  ground (arith, good, found, passes, done) in
                subst (IsKept netip (all_macs p.macs)) (sym out)
                  (subst (λ b. IsKept netip b (add_client netip c removed)) macs kept)
          ]
    ]
  ]

  remove-IsKept :
      (checks : Checks) (name : String)
      → IsKept netip true (run_call netip checks (remove_call name) ci)
  unfolding remove_by_name
  remove-IsKept checks name = elim (find_by_name-there name) [
    | inl nobody ↦
        let out : run_call netip checks (remove_call name) ci ≡ ok ci = ground (arith, nobody) in
        subst (IsKept netip true) (sym out) v
    | inr (stored, found, there) ↦
        let (removed, done, w, _, _, _, _, _, _) =
          remove_client-IsConsistent netip order ci v stored there in
        let out : run_call netip checks (remove_call name) ci ≡ ok removed =
          ground (arith, found, done) in
        subst (IsKept netip true) (sym out) w
  ]

  pub run_call-IsKept :
      (checks : Checks) (call : Call)
      → IsKept netip (valid_call call) (run_call netip checks call ci)
  run_call-IsKept checks (add_call p) = add-IsKept checks p
  run_call-IsKept checks (update_call name p) = update-IsKept checks name p
  run_call-IsKept checks (remove_call name) = remove-IsKept checks name
