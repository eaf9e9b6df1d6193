-- ===== src/Dnsforward/Examples.antt =====
-- An allowlist with an address and a ClientID.
use null_private.Prelude.{
  String, ◌≡◌, refl, true, false, not, none, some, List, [], ◌∷◌, str_eq, if◌then◌else◌,
}
use null_private.Prelude.Map.{number_eq}
use null_private.Dhcp.Lease.{v4, addr_eq}
use null_private.Client.Persistent.{IdFormats}
use null_private.Dnsforward.Access.{
  AccessManager, Calls, new_access_ctx, is_nil, is_blocked_client, is_blocked_ip,
  is_blocked_client_id, allowlist_mode, process_access_clients, no_rule,
}
use null_private.Dnsforward.Access.Decision.{
  any_matches, is_blocked_client_lem, blocked_without_rule,
}

abbrev formats₀ : IdFormats
formats₀ = record {
  parse_addr = λ s. if str_eq s "1.1.1.1" then some (v4 1) else none;
  parse_prefix = λ s. none;
  parse_mac = λ s. none;
  valid_client_id = λ s. not (str_eq s "");
  lower = λ s. s;
}

abbrev calls₀ : Calls
calls₀ = record {
  formats = formats₀;
  contains = λ p a. false;
  add_hosts = λ rules. true;
  match_request = λ rules host qt. false;
}

abbrev allowed₀ : List String
allowed₀ = "1.1.1.1" ∷ "cli" ∷ []

abbrev access₀ : AccessManager
access₀ = record {
  allowed_ips = v4 1 ∷ [];
  blocked_ips = [];
  allowed_client_ids = "cli" ∷ [];
  blocked_client_ids = [];
  allowed_nets = [];
  blocked_nets = [];
  blocked_hosts = [];
}

is_blocked_client_lem_example : (is_blocked_client calls₀ (v4 2) "cli" access₀).0 ≡ (
    if is_nil allowed₀
    then any_matches calls₀ [] (v4 2) "cli"
    else not (any_matches calls₀ allowed₀ (v4 2) "cli"))
unfolding new_access_ctx process_access_clients
is_blocked_client_lem_example =
    is_blocked_client_lem calls₀ allowed₀ [] [] access₀ (v4 2) "cli" refl refl refl

blocked_without_rule_example : (is_blocked_client calls₀ (v4 2) "other" access₀).1 ≡ no_rule
unfolding allowlist_mode is_blocked_client is_blocked_ip is_blocked_client_id
blocked_without_rule_example = blocked_without_rule calls₀ (v4 2) "other" access₀ refl refl
