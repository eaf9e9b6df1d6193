-- ===== src/Client/Runtime.antt =====
-- internal/client/client.go and runtimeindex.go: the clients known only from other sources, and
-- internal/client/storage.go: what reads these sources. A nil slice is `none`; a runtime client is
-- reached by its address only, so that a change of it is a change of the map.
pub mod Changes
pub mod Refresh
pub mod Answers
use null_private.Prelude.{
  ℕ, zero, suc, ◌+◌, String, Bool, true, false, ◌&&◌, Option, none, some, List, [], ◌∷◌,
  if◌then◌else◌, str_eq,
}
use null_private.Prelude.Map.{Eq, Map, lookup, insert}
use null_private.Dhcp.Lease.{Addr, addr_eq}
use null_private.Client.Index.{Netip, Index, find_by_ip}

pub data Source : Type 0 where
  source_whois source_arp source_rdns source_dhcp source_hosts_file source_persistent : Source

unfoldable pub string_of : Source → String
string_of source_whois = "WHOIS"
string_of source_arp = "ARP"
string_of source_rdns = "rDNS"
string_of source_dhcp = "DHCP"
string_of source_hosts_file = "etc/hosts"
string_of source_persistent = ""

-- `whois.Info`
pub record WhoisInfo : Type 0 where
  pub city : String
  pub country : String
  pub orgname : String

pub record Runtime : Type 0 where
  pub ip : Addr
  pub whois : Option WhoisInfo
  pub arp : Option (List String)
  pub rdns : Option (List String)
  pub dhcp : Option (List String)
  pub hosts_file : Option (List String)

abbrev pub new_runtime : Addr → Runtime
new_runtime ip = record {
  ip = ip;
  whois = none;
  arp = none;
  rdns = none;
  dhcp = none;
  hosts_file = none;
}

-- The end of `Info`: the source and the first host.
abbrev pub first_host : List String → String
first_host [] = ""
first_host (host ∷ hosts) = host

-- `none` is Go's zero source.
unfoldable pub info : Runtime → Option Source × String
info r = elim r.hosts_file [
  | some hosts ↦ (some source_hosts_file, first_host hosts)
  | none ↦ elim r.dhcp [
    | some hosts ↦ (some source_dhcp, first_host hosts)
    | none ↦ elim r.rdns [
      | some hosts ↦ (some source_rdns, first_host hosts)
      | none ↦ elim r.arp [
        | some hosts ↦ (some source_arp, first_host hosts)
        | none ↦ elim r.whois [ some i ↦ (some source_whois, "") | none ↦ (none, "") ]
      ]
    ]
  ]
]

-- One empty host is no host.
abbrev pub hosts_to_set : List String → List String
hosts_to_set (host ∷ []) = if str_eq host "" then [] else host ∷ []
hosts_to_set hosts = hosts

unfoldable pub set_hosts : Source → List String → Runtime → Runtime
set_hosts source_arp hosts r = record r { arp = some (hosts_to_set hosts) }
set_hosts source_rdns hosts r = record r { rdns = some (hosts_to_set hosts) }
set_hosts source_dhcp hosts r = record r { dhcp = some (hosts_to_set hosts) }
set_hosts source_hosts_file hosts r = record r { hosts_file = some (hosts_to_set hosts) }
set_hosts source_whois hosts r = r
set_hosts source_persistent hosts r = r

unfoldable pub unset : Source → Runtime → Runtime
unset source_whois r = record r { whois = none }
unset source_arp r = record r { arp = none }
unset source_rdns r = record r { rdns = none }
unset source_dhcp r = record r { dhcp = none }
unset source_hosts_file r = record r { hosts_file = none }
unset source_persistent r = r

abbrev pub is_nil : {A : Type 0} → Option A → Bool
is_nil none = true
is_nil (some a) = false

unfoldable pub is_empty : Runtime → Bool
is_empty r =
    is_nil r.whois && (is_nil r.arp && (is_nil r.rdns && (is_nil r.dhcp && is_nil r.hosts_file)))

abbrev pub RuntimeIndex : Type 0
RuntimeIndex = Map Addr Runtime

-- The client of an address, or a new one.
abbrev pub client_or_new : Addr → RuntimeIndex → Runtime
client_or_new ip ri = elim (lookup ip ri) [ some r ↦ r | none ↦ new_runtime ip ]

unfoldable pub set_info : Addr → Source → List String → RuntimeIndex → RuntimeIndex
set_info ip src hosts ri = insert ip (set_hosts src hosts (client_or_new ip ri)) ri

unfoldable pub clear_source : Source → RuntimeIndex → RuntimeIndex
clear_source src [] = []
clear_source src ((ip, r) ∷ ri) = (ip, unset src r) ∷ clear_source src ri

-- The index, and how many clients were removed.
unfoldable pub remove_empty : RuntimeIndex → RuntimeIndex × ℕ
remove_empty [] = ([], 0)
remove_empty ((ip, r) ∷ ri) =
    let (rest, n) = remove_empty ri in if is_empty r then (rest, suc n) else ((ip, r) ∷ rest, n)

-- The loops of `addFromSystemARP`, `addFromHostsFile` and `UpdateDHCP` over what the source has.
unfoldable pub set_infos : Source → List (Addr × String) → RuntimeIndex → RuntimeIndex
set_infos src [] ri = ri
set_infos src ((ip, host) ∷ pairs) ri = set_infos src pairs (set_info ip src (host ∷ []) ri)

-- What these functions do to the index, once the source has been read.
unfoldable pub refresh : Source → List (Addr × String) → RuntimeIndex → RuntimeIndex
refresh src pairs ri = (remove_empty (set_infos src pairs (clear_source src ri))).0

-- `none` is an error of `Refresh`. The second result is whether the ARP table is kept; an empty one
-- takes its place otherwise. An answer without neighbours changes nothing.
unfoldable pub add_from_system_arp :
    Option (List (Addr × String)) → RuntimeIndex → RuntimeIndex × Bool
add_from_system_arp none ri = (ri, false)
add_from_system_arp (some []) ri = (ri, true)
add_from_system_arp (some (n ∷ ns)) ri = (refresh source_arp (n ∷ ns) ri, true)

-- An address of a hosts file with its first name.
unfoldable pub add_from_hosts_file : List (Addr × String) → RuntimeIndex → RuntimeIndex
add_from_hosts_file hosts ri = refresh source_hosts_file hosts ri

-- `leases` is `none` where there is no DHCP server or it is not a source.
unfoldable pub update_dhcp : Option (List (Addr × String)) → RuntimeIndex → RuntimeIndex
update_dhcp none ri = ri
update_dhcp (some leases) ri = refresh source_dhcp leases ri

-- An address of a persistent client keeps no WHOIS information.
unfoldable pub set_whois_info : Netip → Index → Addr → WhoisInfo → RuntimeIndex → RuntimeIndex
set_whois_info netip ci ip i ri = elim (find_by_ip netip ip ci) [
  | some c ↦ ri
  | none ↦ insert ip (record (client_or_new ip ri) { whois = some i }) ri
]

unfoldable pub update_address :
    Netip → Index → Addr → String → Option WhoisInfo → RuntimeIndex → RuntimeIndex
update_address netip ci ip host i ri =
    let named = if str_eq host "" then ri else set_info ip source_rdns (host ∷ []) ri in
    elim i [ none ↦ named | some i' ↦ set_whois_info netip ci ip i' named ]

-- The client, and the index, in which a lease is noted. `host_by_ip` is the DHCP server's.
unfoldable pub client_runtime :
    Bool → (Addr → String) → Addr → RuntimeIndex → Option Runtime × RuntimeIndex
client_runtime from_dhcp host_by_ip ip ri =
    let noted = set_info ip source_dhcp (host_by_ip ip ∷ []) ri in
    let lease_read =
      if str_eq (host_by_ip ip) "" then (lookup ip ri, ri) else (lookup ip noted, noted) in
    if from_dhcp
    then elim (lookup ip ri) [
      | none ↦ lease_read
      | some r ↦ if is_nil r.hosts_file then lease_read else (some r, ri)
    ]
    else (lookup ip ri, ri)
