-- ===== src/Client/Runtime/Answers.antt =====
-- What an answer of each source that names hosts does to the runtime clients: `addFromSystemARP`,
-- `addFromHostsFile` and `UpdateDHCP`.
use null_private.Prelude.{◌≡◌, refl, String, true, Option, none, some, List, [], ◌∷◌, if◌then◌else◌}
use null_private.Prelude.Map.{lookup}
use null_private.Prelude.Map.Keys.{IsMap}
use null_private.Dhcp.Lease.{Addr, addr_eq}
use null_private.Client.Runtime.{
  Source, source_arp, source_dhcp, source_hosts_file, RuntimeIndex, add_from_system_arp,
  add_from_hosts_file, update_dhcp,
}
use null_private.Client.Runtime.Changes.{source_eqb}
use null_private.Client.Runtime.Refresh.{hosts_at, whois_at, last_host, says_something, refresh_lem}

-- The neighbours, or an error; the addresses of the hosts files with their names; the leases, or no
-- DHCP server that is a source.
pub data Answer : Type 0 where
  arp_answer : Option (List (Addr × String)) → Answer
  hosts_file_answer : List (Addr × String) → Answer
  dhcp_answer : Option (List (Addr × String)) → Answer

abbrev pub answer : Answer → RuntimeIndex → RuntimeIndex
answer (arp_answer neighbours) ri = (add_from_system_arp neighbours ri).0
answer (hosts_file_answer hosts) ri = add_from_hosts_file hosts ri
answer (dhcp_answer leases) ri = update_dhcp leases ri

-- The pairs are all that the source says, and nothing else has changed.
abbrev IsAll : Source → List (Addr × String) → RuntimeIndex → RuntimeIndex → Type 0
IsAll src pairs ri ri' =
    IsMap ri'
    × ((ip : Addr) (s : Source)
        → (hosts_at s (lookup ip ri')
            ≡ (if source_eqb src s then last_host pairs ip else hosts_at s (lookup ip ri)))
          × (whois_at (lookup ip ri') ≡ whois_at (lookup ip ri))
          × (says_something (lookup ip ri') ≡ true))

abbrev pub IsAnswered : Answer → RuntimeIndex → RuntimeIndex → Type 0
IsAnswered (arp_answer none) ri ri' = ri' ≡ ri
IsAnswered (arp_answer (some [])) ri ri' = ri' ≡ ri
IsAnswered (arp_answer (some (n ∷ ns))) ri ri' = IsAll source_arp (n ∷ ns) ri ri'
IsAnswered (hosts_file_answer hosts) ri ri' = IsAll source_hosts_file hosts ri ri'
IsAnswered (dhcp_answer none) ri ri' = ri' ≡ ri
IsAnswered (dhcp_answer (some leases)) ri ri' = IsAll source_dhcp leases ri ri'

-- An answer of a hosts file or of DHCP, also an empty one, and an answer of ARP with a neighbour is all
-- that is then known from this source: the last host of each address in the answer, an empty one as no
-- host, and nothing of the addresses that are not in it. What the other sources said and the WHOIS
-- information stay as they were, and no runtime client without information is left. An error of ARP, an
-- answer of ARP without neighbours and a missing DHCP server change nothing.
-- No address may stand twice in the index before, and none does afterwards.
pub answer-IsAnswered : (a : Answer) (ri : RuntimeIndex) → IsMap ri → IsAnswered a ri (answer a ri)
unfolding add_from_system_arp add_from_hosts_file update_dhcp
answer-IsAnswered (arp_answer none) ri v = refl
answer-IsAnswered (arp_answer (some [])) ri v = refl
answer-IsAnswered (arp_answer (some (n ∷ ns))) ri v = refresh_lem source_arp (n ∷ ns) ri refl v
answer-IsAnswered (hosts_file_answer hosts) ri v = refresh_lem source_hosts_file hosts ri refl v
answer-IsAnswered (dhcp_answer none) ri v = refl
answer-IsAnswered (dhcp_answer (some leases)) ri v = refresh_lem source_dhcp leases ri refl v
