-- ===== src/Client/Runtime/Refresh.antt =====
-- What the steps that read a source anew do to the runtime clients.
use null_private.Prelude.{
  ◌≡◌, refl, ap, ◌∙◌, Bool, true, ◌&&◌, not, String, Option, none, some, List, [], ◌∷◌, arith,
  if◌then◌else◌, Bool-cases, Option-cases, inl, inr,
}
use null_private.Prelude.Map.{lookup, ◌==◌, lookup-insert}
use null_private.Prelude.Map.Keys.{IsMap, insert-IsMap}
use null_private.Dhcp.Lease.{Addr, addr_eq}
use null_private.Client.Runtime.{
  Source, WhoisInfo, Runtime, RuntimeIndex, hosts_to_set, set_hosts, unset, is_empty, client_or_new,
  set_info, clear_source, remove_empty, set_infos, refresh,
}
use null_private.Client.Runtime.Changes.{
  hosts_of, names_hosts, source_eqb, hosts_of-set_hosts, hosts_of-unset, whois-set_hosts,
  whois-unset,
}

-- What a source says of an address, and the WHOIS information.
abbrev pub hosts_at : Source → Option Runtime → Option (List String)
hosts_at s none = none
hosts_at s (some r) = hosts_of s r

abbrev pub whois_at : Option Runtime → Option WhoisInfo
whois_at none = none
whois_at (some r) = r.whois

abbrev without : Source → Option Runtime → Option Runtime
without src none = none
without src (some r) = some (unset src r)

abbrev non_empty : Option Runtime → Option Runtime
non_empty none = none
non_empty (some r) = if is_empty r then none else some r

-- The last host of an address in the pairs of a source.
abbrev pub last_host : List (Addr × String) → Addr → Option (List String)
last_host [] ip = none
last_host ((a, host) ∷ pairs) ip = elim (last_host pairs ip) [
  | some hosts ↦ some hosts
  | none ↦ if a == ip then some (hosts_to_set (host ∷ [])) else none
]

lookup-clear_source :
    (src : Source) (ri : RuntimeIndex) (ip : Addr)
    → lookup ip (clear_source src ri) ≡ without src (lookup ip ri)
unfolding clear_source lookup
lookup-clear_source src [] ip = refl
lookup-clear_source src ((a, r) ∷ ri) ip = ground (arith, lookup-clear_source src ri ip)

clear_source-IsMap : (src : Source) (ri : RuntimeIndex) → IsMap ri → IsMap (clear_source src ri)
unfolding clear_source
clear_source-IsMap src [] h = tt
clear_source-IsMap src ((a, r) ∷ ri) h =
    (lookup-clear_source src ri a ∙ ground (arith, h), clear_source-IsMap src ri h.1)

lookup-remove_empty :
    (ri : RuntimeIndex) (ip : Addr)
    → IsMap ri
    → lookup ip (remove_empty ri).0 ≡ non_empty (lookup ip ri)
unfolding remove_empty lookup
lookup-remove_empty [] ip h = refl
lookup-remove_empty ((a, r) ∷ ri) ip h =
    ground (arith, lookup-remove_empty ri ip h.1, addr_eq.beq_iff a ip, h)

remove_empty-IsMap : (ri : RuntimeIndex) → IsMap ri → IsMap (remove_empty ri).0
unfolding remove_empty
remove_empty-IsMap [] h = tt
remove_empty-IsMap ((a, r) ∷ ri) h =
    ground (arith, lookup-remove_empty ri a h.1, remove_empty-IsMap ri h.1, h)

set_infos-IsMap :
    (src : Source) (pairs : List (Addr × String)) (ri : RuntimeIndex)
    → IsMap ri
    → IsMap (set_infos src pairs ri)
unfolding set_infos set_info
set_infos-IsMap src [] ri h = h
set_infos-IsMap src ((a, host) ∷ pairs) ri h =
    set_infos-IsMap src pairs _
      (insert-IsMap a (set_hosts src (host ∷ []) (client_or_new a ri)) ri h)

hosts-client_or_new :
    (s : Source) (ip : Addr) (ri : RuntimeIndex)
    → hosts_of s (client_or_new ip ri) ≡ hosts_at s (lookup ip ri)
hosts-client_or_new s ip ri = elim (Option-cases (lookup ip ri)) [
  | inl missing ↦ ground (arith, missing)
  | inr (r, there) ↦ ground (arith, there)
]

hosts-set_info :
    (s src : Source) (a ip : Addr) (hosts : List String) (ri : RuntimeIndex)
    → names_hosts src ≡ true
    → hosts_at s (lookup ip (set_info a src hosts ri)) ≡ (
        if (a == ip) && source_eqb src s
        then some (hosts_to_set hosts)
        else hosts_at s (lookup ip ri))
unfolding set_info
hosts-set_info s src a ip hosts ri h = elim (Bool-cases (a == ip)) [
  | inr apart ↦
      ground (arith, apart, lookup-insert a ip (set_hosts src hosts (client_or_new a ri)) ri)
  | inl same ↦
      let place : a ≡ ip = (addr_eq.beq_iff a ip).0 same in
      ap (hosts_at s) (lookup-insert a ip (set_hosts src hosts (client_or_new a ri)) ri)
      ∙ rw same (
          hosts_of-set_hosts s src hosts (client_or_new a ri) h
          ∙ ap (λ x. if source_eqb src s then some (hosts_to_set hosts) else x)
              (hosts-client_or_new s a ri ∙ ap (λ x. hosts_at s (lookup x ri)) place))
]

whois-set_info :
    (src : Source) (a ip : Addr) (hosts : List String) (ri : RuntimeIndex)
    → whois_at (lookup ip (set_info a src hosts ri)) ≡ whois_at (lookup ip ri)
unfolding set_info
whois-set_info src a ip hosts ri = elim (Bool-cases (a == ip)) [
  | inr apart ↦
      ground (arith, apart, lookup-insert a ip (set_hosts src hosts (client_or_new a ri)) ri)
  | inl same ↦
      let place : a ≡ ip = (addr_eq.beq_iff a ip).0 same in
      let before : (client_or_new a ri).whois ≡ whois_at (lookup a ri) =
        elim (Option-cases (lookup a ri)) [
          | inl missing ↦ ground (arith, missing)
          | inr (r, there) ↦ ground (arith, there)
        ] in
      ap whois_at (lookup-insert a ip (set_hosts src hosts (client_or_new a ri)) ri)
      ∙ rw same (
          whois-set_hosts src hosts (client_or_new a ri)
          ∙ before
          ∙ ap (λ x. whois_at (lookup x ri)) place)
]

-- Where the source has none of the address, what was there before.
abbrev or_before : Option (List String) → Option (List String) → Option (List String)
or_before none before = before
or_before (some hosts) before = some hosts

hosts-set_infos :
    (s src : Source) (ip : Addr) (pairs : List (Addr × String)) (ri : RuntimeIndex)
    → names_hosts src ≡ true
    → hosts_at s (lookup ip (set_infos src pairs ri)) ≡ (
        if source_eqb src s
        then or_before (last_host pairs ip) (hosts_at s (lookup ip ri))
        else hosts_at s (lookup ip ri))
unfolding set_infos
hosts-set_infos s src ip [] ri h = ground arith
hosts-set_infos s src ip ((a, host) ∷ pairs) ri h =
    let rest = hosts-set_infos s src ip pairs (set_info a src (host ∷ []) ri) h in
    let once = hosts-set_info s src a ip (host ∷ []) ri h in
    elim (Bool-cases (source_eqb src s)) [
      | inr other ↦ ground (arith, rest, once, other)
      | inl same ↦ elim (Option-cases (last_host pairs ip)) [
        | inr (hosts, later) ↦ ground (arith, rest, same, later)
        | inl nothing ↦ ground (arith, rest, once, same, nothing)
      ]
    ]

whois-set_infos :
    (src : Source) (ip : Addr) (pairs : List (Addr × String)) (ri : RuntimeIndex)
    → whois_at (lookup ip (set_infos src pairs ri)) ≡ whois_at (lookup ip ri)
unfolding set_infos
whois-set_infos src ip [] ri = refl
whois-set_infos src ip ((a, host) ∷ pairs) ri =
    whois-set_infos src ip pairs (set_info a src (host ∷ []) ri)
    ∙ whois-set_info src a ip (host ∷ []) ri

-- A client that is dropped had nothing to say.
hosts-non_empty : (s : Source) (r : Option Runtime) → hosts_at s (non_empty r) ≡ hosts_at s r
unfolding is_empty
hosts-non_empty s none = refl
hosts-non_empty s (some r) = ground arith

whois-non_empty : (r : Option Runtime) → whois_at (non_empty r) ≡ whois_at r
unfolding is_empty
whois-non_empty none = refl
whois-non_empty (some r) = ground arith

abbrev pub says_something : Option Runtime → Bool
says_something none = true
says_something (some r) = not (is_empty r)

says-non_empty : (r : Option Runtime) → says_something (non_empty r) ≡ true
says-non_empty none = refl
says-non_empty (some r) = ground arith

hosts-cleared :
    (s src : Source) (ip : Addr) (pairs : List (Addr × String)) (ri : RuntimeIndex)
    → (if source_eqb src s
        then or_before (last_host pairs ip) (hosts_at s (lookup ip (clear_source src ri)))
        else hosts_at s (lookup ip (clear_source src ri)))
      ≡ (if source_eqb src s then last_host pairs ip else hosts_at s (lookup ip ri))
hosts-cleared s src ip pairs ri = elim (Option-cases (lookup ip ri)) [
  | inl missing ↦ ground (arith, lookup-clear_source src ri ip, missing)
  | inr (r, there) ↦ ground (arith, lookup-clear_source src ri ip, there, hosts_of-unset s src r)
]

whois-cleared :
    (src : Source) (ip : Addr) (ri : RuntimeIndex)
    → names_hosts src ≡ true
    → whois_at (lookup ip (clear_source src ri)) ≡ whois_at (lookup ip ri)
whois-cleared src ip ri h = elim (Option-cases (lookup ip ri)) [
  | inl missing ↦ ground (arith, lookup-clear_source src ri ip, missing)
  | inr (r, there) ↦ ground (arith, lookup-clear_source src ri ip, there, whois-unset src r h)
]

-- After the steps of `refresh`, for a source that names hosts, its pairs are all that is known from it:
-- the last host of each address in the pairs, an empty one as no host, and nothing of the addresses
-- that are not in them. What the other sources said and the WHOIS information stay as they were, and no
-- runtime client without information is left.
-- No address may stand twice in the index before, and none does afterwards.
pub refresh_lem :
    (src : Source) (pairs : List (Addr × String)) (ri : RuntimeIndex)
    → names_hosts src ≡ true
    → IsMap ri
    → IsMap (refresh src pairs ri)
      × ((ip : Addr) (s : Source)
          → (hosts_at s (lookup ip (refresh src pairs ri))
              ≡ (if source_eqb src s then last_host pairs ip else hosts_at s (lookup ip ri)))
            × (whois_at (lookup ip (refresh src pairs ri)) ≡ whois_at (lookup ip ri))
            × (says_something (lookup ip (refresh src pairs ri)) ≡ true))
unfolding refresh
refresh_lem src pairs ri h v =
    let cleared = clear_source src ri in
    let told = set_infos src pairs cleared in
    let told_v : IsMap told = set_infos-IsMap src pairs cleared (clear_source-IsMap src ri v) in
    (
      remove_empty-IsMap told told_v,
      λ ip s.
          let at : lookup ip (remove_empty told).0 ≡ non_empty (lookup ip told) =
            lookup-remove_empty told ip told_v in
          (
            ap (hosts_at s) at
                ∙ hosts-non_empty s (lookup ip told)
                ∙ hosts-set_infos s src ip pairs cleared h
                ∙ hosts-cleared s src ip pairs ri,
            ap whois_at at
                ∙ whois-non_empty (lookup ip told)
                ∙ whois-set_infos src ip pairs cleared
                ∙ whois-cleared src ip ri h,
            ap says_something at ∙ says-non_empty (lookup ip told),
          ),
    )
