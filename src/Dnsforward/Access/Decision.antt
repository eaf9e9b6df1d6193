-- ===== src/Dnsforward/Access/Decision.antt =====
-- What the access lists decide, in terms of the lists as they are configured.
use null_private.Prelude.{
  ℕ, suc, String, ◌≡◌, refl, ap, ◌∙◌, ◌⊎◌, inl, inr, Bool, true, false, not, ◌&&◌, ◌||◌, none, some,
  List, [], ◌∷◌, arith, str_eq, elem, if◌then◌else◌, Bool-cases, Option-cases, eq_iff,
}
use null_private.Prelude.Map.{mem, ◌==◌}
use null_private.Dhcp.Lease.{Addr, zero_addr, addr_beq, addr_eq}
use null_private.Client.Persistent.{Prefix}
use null_private.Client.Index.{without_zone}
use null_private.Dnsforward.Access.{
  AccessManager, ClientSets, AccessError, bad_allowed, bad_blocked, Result, ok, err, Calls,
  process_access_clients, new_access_ctx, is_nil, allowlist_mode, is_blocked_client_id, first_net,
  is_blocked_ip, is_blocked_client, no_rule,
}

Result-cases :
    {A : Type 0} (r : Result A) → ((a : A) × (r ≡ ok a)) ⊎ ((e : AccessError) × (r ≡ err e))
Result-cases (ok a) = inl (a, refl)
Result-cases (err e) = inr (e, refl)

-- Whether one of the networks has the address.
abbrev any_net : (Prefix → Bool) → List Prefix → Bool
any_net has [] = false
any_net has (net ∷ nets) = has net || any_net has nets

first_net-none :
    (has : Prefix → Bool) (nets : List Prefix)
    → first_net has nets ≡ none
    → any_net has nets ≡ false
first_net-none has [] h = refl
first_net-none has (net ∷ nets) h = ground (arith, h, first_net-none has nets)

first_net-some :
    (has : Prefix → Bool) (nets : List Prefix) (net : Prefix)
    → first_net has nets ≡ some net
    → any_net has nets ≡ true
first_net-some has [] net h = absurd (ground (arith, h))
first_net-some has (n ∷ nets) net h = ground (arith, h, first_net-some has nets net)

-- What a configured value says of a client: that the client has this address, an address of this
-- network (without its zone), or this ClientID, by the first of these forms that the value has.
abbrev matches_client : Calls → String → Addr → String → Bool
matches_client calls s ip id = elim (calls.formats.parse_addr s) [
  | some a ↦ a == ip
  | none ↦ elim (calls.formats.parse_prefix s) [
    | some net ↦ calls.contains net (without_zone ip)
    | none ↦ str_eq s id
  ]
]

abbrev pub any_matches : Calls → List String → Addr → String → Bool
any_matches calls [] ip id = false
any_matches calls (s ∷ strs) ip id = matches_client calls s ip id || any_matches calls strs ip id

-- What a client has in the sets that a list was read into.
abbrev in_sets : Calls → ClientSets → Addr → String → Bool
in_sets calls sets ip id =
    mem ip sets.ips
    || (any_net (λ net. calls.contains net (without_zone ip)) sets.nets || elem id sets.client_ids)

module _ (calls : Calls) (bad : ℕ → AccessError) where
  process_access_clients_lem :
      (i : ℕ) (strs : List String) (sets : ClientSets) (ip : Addr) (id : String)
      → process_access_clients calls.formats bad i strs ≡ ok sets
      → (in_sets calls sets ip id ≡ any_matches calls strs ip id)
        × ((is_nil sets.ips && (is_nil sets.client_ids && is_nil sets.nets)) ≡ is_nil strs)
  unfolding process_access_clients
  process_access_clients_lem i [] sets ip id h = ground (arith, h)
  process_access_clients_lem i (s ∷ strs) sets ip id h =
      elim (Result-cases (process_access_clients calls.formats bad (suc i) strs)) [
        | inr (e, fails) ↦ absurd (ground (arith, h, fails))
        | inl (rest, reads) ↦
            let (same, _) = process_access_clients_lem (suc i) strs rest ip id reads in
            elim (Option-cases (calls.formats.parse_addr s)) [
              | inr (a, addr) ↦ ground (arith, h, reads, addr, same)
              | inl no_addr ↦ elim (Option-cases (calls.formats.parse_prefix s)) [
                | inr (net, prefix) ↦ ground (arith, h, reads, no_addr, prefix, same)
                | inl no_prefix ↦ ground (arith, h, reads, no_addr, no_prefix, same)
              ]
            ]
      ]

  -- An empty ClientID is no value of a list.
  no_empty_id :
      (i : ℕ) (strs : List String) (sets : ClientSets)
      → calls.formats.valid_client_id "" ≡ false
      → process_access_clients calls.formats bad i strs ≡ ok sets
      → elem "" sets.client_ids ≡ false
  unfolding process_access_clients
  no_empty_id i [] sets strict h = ground (arith, h)
  no_empty_id i (s ∷ strs) sets strict h =
      elim (Result-cases (process_access_clients calls.formats bad (suc i) strs)) [
        | inr (e, fails) ↦ absurd (ground (arith, h, fails))
        | inl (rest, reads) ↦
            let absent = no_empty_id (suc i) strs rest strict reads in
            elim (Option-cases (calls.formats.parse_addr s)) [
              | inr (a, addr) ↦ ground (arith, h, reads, addr, absent)
              | inl no_addr ↦ elim (Option-cases (calls.formats.parse_prefix s)) [
                | inr (net, prefix) ↦ ground (arith, h, reads, no_addr, prefix, absent)
                | inl no_prefix ↦
                    ground (arith, h, reads, no_addr, no_prefix, absent, strict, eq_iff s "")
              ]
            ]
      ]

is_blocked_ip_lem :
    (calls : Calls) (ip : Addr) (a : AccessManager)
    → (is_blocked_ip calls ip a).0 ≡ (
        if allowlist_mode a
        then not (
            mem ip a.allowed_ips
            || any_net (λ net. calls.contains net (without_zone ip)) a.allowed_nets)
        else (mem ip a.blocked_ips
            || any_net (λ net. calls.contains net (without_zone ip)) a.blocked_nets))
unfolding is_blocked_ip
is_blocked_ip_lem calls ip a =
    let has : Prefix → Bool = λ net. calls.contains net (without_zone ip) in
    elim (Bool-cases (allowlist_mode a)) [
      | inl on ↦ elim (Option-cases (first_net has a.allowed_nets)) [
        | inl nothing ↦ ground (arith, on, nothing, first_net-none has a.allowed_nets)
        | inr (net, found) ↦ ground (arith, on, found, first_net-some has a.allowed_nets net found)
      ]
      | inr off ↦ elim (Option-cases (first_net has a.blocked_nets)) [
        | inl nothing ↦ ground (arith, off, nothing, first_net-none has a.blocked_nets)
        | inr (net, found) ↦ ground (arith, off, found, first_net-some has a.blocked_nets net found)
      ]
    ]

-- The decision in terms of the sets.
is_blocked_client_sets :
    (calls : Calls) (ip : Addr) (id : String) (a : AccessManager)
    → addr_beq ip zero_addr ≡ false
    → (is_blocked_client calls ip id a).0 ≡ (
        if allowlist_mode a
        then not (
            mem ip a.allowed_ips
            || any_net (λ net. calls.contains net (without_zone ip)) a.allowed_nets)
          && (if str_eq id "" then true else not (elem id a.allowed_client_ids))
        else (mem ip a.blocked_ips
            || any_net (λ net. calls.contains net (without_zone ip)) a.blocked_nets)
          || (if str_eq id "" then false else elem id a.blocked_client_ids))
unfolding is_blocked_client is_blocked_client_id
is_blocked_client_sets calls ip id a real =
    let by_ip = is_blocked_ip_lem calls ip a in
    elim (Bool-cases (allowlist_mode a)) [
      | inl on ↦ ground (arith, real, on, by_ip)
      | inr off ↦ ground (arith, real, off, by_ip)
    ]

-- The sets that the lists are read into, where they are accepted.
new_access_ctx-reads :
    (calls : Calls) (allowed blocked hosts : List String) (a : AccessManager)
    → new_access_ctx calls allowed blocked hosts ≡ ok a
    → (allow block : ClientSets) × (process_access_clients calls.formats bad_allowed 0 allowed
        ≡ ok allow)
      × (process_access_clients calls.formats bad_blocked 0 blocked ≡ ok block)
      × (a.allowed_ips ≡ allow.ips)
      × (a.allowed_nets ≡ allow.nets)
      × (a.allowed_client_ids ≡ allow.client_ids)
      × (a.blocked_ips ≡ block.ips)
      × (a.blocked_nets ≡ block.nets)
      × (a.blocked_client_ids ≡ block.client_ids)
unfolding new_access_ctx
new_access_ctx-reads calls allowed blocked hosts a h =
    elim (Result-cases (process_access_clients calls.formats bad_allowed 0 allowed)) [
      | inr (e, fails) ↦ absurd (ground (arith, h, fails))
      | inl (allow, r₁) ↦
          elim (Result-cases (process_access_clients calls.formats bad_blocked 0 blocked)) [
            | inr (e, fails) ↦ absurd (ground (arith, h, r₁, fails))
            | inl (block, r₂) ↦ (
              allow,
              block,
              r₁,
              r₂,
              ground (arith, h, r₁, r₂),
              ground (arith, h, r₁, r₂),
              ground (arith, h, r₁, r₂),
              ground (arith, h, r₁, r₂),
              ground (arith, h, r₁, r₂),
              ground (arith, h, r₁, r₂),
            )
          ]
    ]

-- With lists that are accepted, a client with an address is blocked exactly as they say: if there is a
-- list of allowed clients, a client that none of its values matches, by address, network or ClientID;
-- otherwise a client that a value of the list of blocked clients matches.
-- The empty text must not be a valid ClientID.
pub is_blocked_client_lem :
    (calls : Calls) (allowed blocked hosts : List String) (a : AccessManager) (ip : Addr)
    (id : String)
    → calls.formats.valid_client_id "" ≡ false
    → addr_beq ip zero_addr ≡ false
    → new_access_ctx calls allowed blocked hosts ≡ ok a
    → (is_blocked_client calls ip id a).0 ≡ (
        if is_nil allowed
        then any_matches calls blocked ip id
        else not (any_matches calls allowed ip id))
unfolding allowlist_mode
is_blocked_client_lem calls allowed blocked hosts a ip id strict real h =
    let (allow, block, r₁, r₂, e₁, e₂, e₃, e₄, e₅, e₆) =
      new_access_ctx-reads calls allowed blocked hosts a h in
    let (allows, mode) = process_access_clients_lem calls bad_allowed 0 allowed allow ip id r₁ in
    let (blocks, _) = process_access_clients_lem calls bad_blocked 0 blocked block ip id r₂ in
    let no_allowed = no_empty_id calls bad_allowed 0 allowed allow strict r₁ in
    let no_blocked = no_empty_id calls bad_blocked 0 blocked block strict r₂ in
    let has : Prefix → Bool = λ net. calls.contains net (without_zone ip) in
    let mode' : allowlist_mode a ≡ not (is_nil allowed) =
      ground (arith, mode, ap is_nil e₁, ap is_nil e₂, ap is_nil e₃) in
    let by_sets = is_blocked_client_sets calls ip id a real in
    let allow_ip : mem ip a.allowed_ips ≡ mem ip allow.ips = ap (mem ip) e₁ in
    let allow_net : any_net has a.allowed_nets ≡ any_net has allow.nets = ap (any_net has) e₂ in
    let allow_id : elem id a.allowed_client_ids ≡ elem id allow.client_ids = ap (elem id) e₃ in
    let block_ip : mem ip a.blocked_ips ≡ mem ip block.ips = ap (mem ip) e₄ in
    let block_net : any_net has a.blocked_nets ≡ any_net has block.nets = ap (any_net has) e₅ in
    let block_id : elem id a.blocked_client_ids ≡ elem id block.client_ids = ap (elem id) e₆ in
    elim (Bool-cases (str_eq id "")) [
      | inl empty ↦
          let none_allowed : elem id allow.client_ids ≡ false =
            ap (λ x. elem x allow.client_ids) ((eq_iff id "").0 empty) ∙ no_allowed in
          let none_blocked : elem id block.client_ids ≡ false =
            ap (λ x. elem x block.client_ids) ((eq_iff id "").0 empty) ∙ no_blocked in
          ground (
            arith, by_sets, mode', allows, blocks, allow_ip, allow_net, block_ip, block_net, empty,
            none_allowed, none_blocked,
          )
      | inr id_given ↦ ground (
        arith, by_sets, mode', allows, blocks, allow_ip, allow_net, allow_id, block_ip, block_net,
        block_id, id_given,
      )
    ]

-- In allowlist mode, a client that is blocked is blocked without a rule, whatever its address and
-- ClientID.
pub blocked_without_rule :
    (calls : Calls) (ip : Addr) (id : String) (a : AccessManager)
    → allowlist_mode a ≡ true
    → (is_blocked_client calls ip id a).0 ≡ true
    → (is_blocked_client calls ip id a).1 ≡ no_rule
unfolding is_blocked_client is_blocked_ip
blocked_without_rule calls ip id a on blocked =
    elim (Option-cases (first_net (λ net. calls.contains net (without_zone ip)) a.allowed_nets)) [
      | inl nothing ↦ ground (arith, on, blocked, nothing)
      | inr (net, found) ↦ ground (arith, on, blocked, found)
    ]
