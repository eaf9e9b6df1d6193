-- ===== src/Dnsforward/Access.antt =====
-- internal/dnsforward/access.go, and `IsBlockedClient` of dnsforward.go and `HandleBefore` of
-- beforerequest.go: which clients and hosts are refused before anything else is done. A set is the list
-- of what was added to it. The parsers, `netip.Prefix.Contains` and the engine for host rules are
-- parameters.
pub mod Decision
use null_private.Prelude.{
  ℕ, zero, suc, String, Bool, true, false, not, ◌&&◌, ◌||◌, Option, none, some, List, [], ◌∷◌,
  ◌==◌ as nat_eqb, str_eq, elem, if◌then◌else◌,
}
use null_private.Prelude.Map.{Eq, mem, ◌==◌}
use null_private.Dhcp.Lease.{Addr, zero_addr, addr_beq, addr_eq}
use null_private.Client.Persistent.{Prefix, IdFormats}
use null_private.Client.Index.{without_zone}

-- The host rules are kept as they are given to the engine.
pub record AccessManager : Type 0 where
  pub allowed_ips : List Addr
  pub blocked_ips : List Addr
  pub allowed_client_ids : List String
  pub blocked_client_ids : List String
  pub allowed_nets : List Prefix
  pub blocked_nets : List Prefix
  pub blocked_hosts : List String

-- What `processAccessClients` fills.
pub record ClientSets : Type 0 where
  pub ips : List Addr
  pub nets : List Prefix
  pub client_ids : List String

-- The number is the index of the value.
pub data AccessError : Type 0 where
  bad_allowed bad_blocked : ℕ → AccessError
  bad_hosts : AccessError

pub data Result (A : Type 0) : Type 0 where
  ok : A → Result A
  err : AccessError → Result A

infixl 5 ◌>>=◌
abbrev pub ◌>>=◌ : {A B : Type 0} → Result A → (A → Result B) → Result B
ok a >>= f = f a
err e >>= f = err e

abbrev no_clients : ClientSets
no_clients = record { ips = []; nets = []; client_ids = [] }

-- What the code calls: `add_hosts` is whether the engine takes the rules, `match_request` whether it
-- matches a request.
pub record Calls : Type 0 where
  pub formats : IdFormats
  pub contains : Prefix → Addr → Bool
  pub add_hosts : List String → Bool
  pub match_request : List String → String → ℕ → Bool

-- The loop of `processAccessClients` from an index on. The sets are what the rest of the values add.
unfoldable pub process_access_clients :
    IdFormats → (ℕ → AccessError) → ℕ → List String → Result ClientSets
process_access_clients f bad i [] = ok no_clients
process_access_clients f bad i (s ∷ strs) =
    let later = process_access_clients f bad (suc i) strs in
    elim (f.parse_addr s) [
      | some ip ↦ do sets ← later; ok (record sets { ips = ip ∷ sets.ips })
      | none ↦ elim (f.parse_prefix s) [
        | some net ↦ do sets ← later; ok (record sets { nets = net ∷ sets.nets })
        | none ↦
            if f.valid_client_id s
            then (do sets ← later; ok (record sets { client_ids = s ∷ sets.client_ids }))
            else err (bad i)
      ]
    ]

abbrev lower_all : IdFormats → List String → List String
lower_all f [] = []
lower_all f (h ∷ hosts) = f.lower h ∷ lower_all f hosts

unfoldable pub new_access_ctx :
    Calls → List String → List String → List String → Result AccessManager
new_access_ctx calls allowed blocked hosts = do
  allow ← process_access_clients calls.formats bad_allowed 0 allowed
  block ← process_access_clients calls.formats bad_blocked 0 blocked
  if calls.add_hosts (lower_all calls.formats hosts)
      then ok (record {
        allowed_ips = allow.ips;
        blocked_ips = block.ips;
        allowed_client_ids = allow.client_ids;
        blocked_client_ids = block.client_ids;
        allowed_nets = allow.nets;
        blocked_nets = block.nets;
        blocked_hosts = lower_all calls.formats hosts;
      })
      else err bad_hosts

abbrev pub is_nil : {A : Type 0} → List A → Bool
is_nil [] = true
is_nil (x ∷ xs) = false

unfoldable pub allowlist_mode : AccessManager → Bool
allowlist_mode a =
    not (is_nil a.allowed_ips) || (not (is_nil a.allowed_client_ids) || not (is_nil a.allowed_nets))

unfoldable pub is_blocked_client_id : String → AccessManager → Bool
is_blocked_client_id id a =
    if str_eq id ""
    then allowlist_mode a
    else if allowlist_mode a
    then not (elem id a.allowed_client_ids)
    else elem id a.blocked_client_ids

unfoldable pub is_blocked_host : Calls → String → ℕ → AccessManager → Bool
is_blocked_host calls host qt a = calls.match_request a.blocked_hosts host qt

-- The rule is the text of an address, a network or a ClientID; `no_rule` is the empty text.
pub data Rule : Type 0 where
  no_rule : Rule
  ip_rule : Addr → Rule
  net_rule : Prefix → Rule
  id_rule : String → Rule

-- The first of the networks with the address.
abbrev pub first_net : (Prefix → Bool) → List Prefix → Option Prefix
first_net has [] = none
first_net has (net ∷ nets) = let later = first_net has nets in if has net then some net else later

-- The search of `isBlockedIP` in the sets that it has chosen.
abbrev pub search_ip : (Prefix → Addr → Bool) → Addr → Bool → List Addr → List Prefix → Bool × Rule
search_ip contains ip blocked ips nets =
    if mem ip ips
    then (blocked, ip_rule ip)
    else elim (first_net (λ net. contains net (without_zone ip)) nets) [
      | some net ↦ (blocked, net_rule net)
      | none ↦ (not blocked, no_rule)
    ]

unfoldable pub is_blocked_ip : Calls → Addr → AccessManager → Bool × Rule
is_blocked_ip calls ip a =
    if allowlist_mode a
    then search_ip calls.contains ip false a.allowed_ips a.allowed_nets
    else search_ip calls.contains ip true a.blocked_ips a.blocked_nets

-- `cmp.Or(rule, clientID)`
abbrev pub rule_or_id : Rule → String → Rule
rule_or_id no_rule id = if str_eq id "" then no_rule else id_rule id
rule_or_id rule id = rule

unfoldable pub is_blocked_client : Calls → Addr → String → AccessManager → Bool × Rule
is_blocked_client calls ip id a =
    let (by_ip, rule) =
      (if addr_beq ip zero_addr then (false, no_rule) else is_blocked_ip calls ip a) in
    let by_id : Bool = is_blocked_client_id id a in
    if allowlist_mode a && (by_ip && by_id)
    then (true, rule)
    else if not (allowlist_mode a) && (by_ip || by_id)
    then (true, rule_or_id rule id)
    else (false, rule_or_id rule id)

-- How `HandleBefore` ends: an error in the ClientID, a refusal, or the ClientID that is remembered for
-- the request.
pub data Before : Type 0 where
  servfail : Before
  refused : Before
  goes_on : Option String → Before

-- The one question of a request, with its name normalised; `none` where there is not exactly one.
-- `client_id` is the ClientID of the request, with its error as `none`.
unfoldable pub handle_before :
    Calls → Option String → Addr → Option (String × ℕ) → AccessManager → Before
handle_before calls none ip question a = servfail
handle_before calls (some id) ip question a =
    let remembered : Option String = if str_eq id "" then none else some id in
    if (is_blocked_client calls ip id a).0 then refused else elim question [
      | none ↦ goes_on remembered
      | some q ↦ if is_blocked_host calls q.0 q.1 a then refused else goes_on remembered
    ]
