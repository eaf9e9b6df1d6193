-- ===== src/Client/Runtime/Changes.antt =====
-- What the changes of a runtime client do to the information of each source.
use null_private.Prelude.{
  ◌≡◌, refl, Bool, true, false, not, ◌≤◌, String, Option, none, some, List, arith, if◌then◌else◌,
  ◌==◌ as nat_eqb, ℕ, inl, inr, Option-cases,
}
use null_private.Client.Runtime.{
  Source, source_whois, source_arp, source_rdns, source_dhcp, source_hosts_file, source_persistent,
  Runtime, hosts_to_set, set_hosts, unset, is_empty, is_nil, info, first_host,
}

-- The hosts of a runtime client from a source that names hosts.
abbrev pub hosts_of : Source → Runtime → Option (List String)
hosts_of source_arp r = r.arp
hosts_of source_rdns r = r.rdns
hosts_of source_dhcp r = r.dhcp
hosts_of source_hosts_file r = r.hosts_file
hosts_of source_whois r = none
hosts_of source_persistent r = none

abbrev pub names_hosts : Source → Bool
names_hosts source_whois = false
names_hosts source_persistent = false
names_hosts _ = true

abbrev pub rank : Source → ℕ
rank source_whois = 1
rank source_arp = 2
rank source_rdns = 3
rank source_dhcp = 4
rank source_hosts_file = 5
rank source_persistent = 6

abbrev pub source_eqb : Source → Source → Bool
source_eqb a b = nat_eqb (rank a) (rank b)

pub hosts_of-set_hosts :
    (s src : Source) (hosts : List String) (r : Runtime)
    → names_hosts src ≡ true
    → hosts_of s (set_hosts src hosts r)
      ≡ (if source_eqb src s then some (hosts_to_set hosts) else hosts_of s r)
unfolding set_hosts
hosts_of-set_hosts s src hosts r h = ground arith

pub hosts_of-unset :
    (s src : Source) (r : Runtime)
    → hosts_of s (unset src r) ≡ (if source_eqb src s then none else hosts_of s r)
unfolding unset
hosts_of-unset s src r = ground arith

pub whois-set_hosts :
    (src : Source) (hosts : List String) (r : Runtime) → (set_hosts src hosts r).whois ≡ r.whois
unfolding set_hosts
whois-set_hosts src hosts r = ground arith

pub whois-unset :
    (src : Source) (r : Runtime) → names_hosts src ≡ true → (unset src r).whois ≡ r.whois
unfolding unset
whois-unset src r h = ground arith

-- Whether a runtime client has information from a source.
abbrev pub has_info : Source → Runtime → Bool
has_info source_whois r = not (is_nil r.whois)
has_info s r = not (is_nil (hosts_of s r))

-- A runtime client is empty exactly if no source has information on it; otherwise `Info` names the
-- source of highest priority (hosts files, DHCP, rDNS, ARP, WHOIS, in this order) that has, with its
-- first host, if it has one.
pub info-highest :
    (r : Runtime) (s : Source)
    → (is_empty r ≡ true → has_info s r ≡ false)
      × (is_empty r ≡ false
          → (t : Source) × (info r
              ≡ (some t, elim (hosts_of t r) [ none ↦ "" | some hosts ↦ first_host hosts ]))
            × (has_info t r ≡ true)
            × (has_info s r ≡ true → rank s ≤ rank t))
unfolding info is_empty
info-highest r s = elim (Option-cases r.hosts_file) [
  | inr (hosts, h) ↦
      (ground (arith, h), λ e. (source_hosts_file, rw h refl, ground (arith, h), ground arith))
  | inl no_hosts ↦ elim (Option-cases r.dhcp) [
    | inr (hosts, h) ↦ (
      ground (arith, no_hosts, h),
      λ e. (source_dhcp, rw (no_hosts, h) refl, ground (arith, h), ground (arith, no_hosts)),
    )
    | inl no_dhcp ↦ elim (Option-cases r.rdns) [
      | inr (hosts, h) ↦ (
        ground (arith, no_hosts, no_dhcp, h),
        λ e. (
          source_rdns,
          rw (no_hosts, no_dhcp, h) refl,
          ground (arith, h),
          ground (arith, no_hosts, no_dhcp),
        ),
      )
      | inl no_rdns ↦ elim (Option-cases r.arp) [
        | inr (hosts, h) ↦ (
          ground (arith, no_hosts, no_dhcp, no_rdns, h),
          λ e. (
            source_arp,
            rw (no_hosts, no_dhcp, no_rdns, h) refl,
            ground (arith, h),
            ground (arith, no_hosts, no_dhcp, no_rdns),
          ),
        )
        | inl no_arp ↦ elim (Option-cases r.whois) [
          | inr (i, h) ↦ (
            ground (arith, no_hosts, no_dhcp, no_rdns, no_arp, h),
            λ e. (
              source_whois,
              rw (no_hosts, no_dhcp, no_rdns, no_arp, h) refl,
              ground (arith, h),
              ground (arith, no_hosts, no_dhcp, no_rdns, no_arp),
            ),
          )
          | inl no_whois ↦ (
            ground (arith, no_hosts, no_dhcp, no_rdns, no_arp, no_whois),
            λ e. absurd (ground (arith, e, no_hosts, no_dhcp, no_rdns, no_arp, no_whois)),
          )
        ]
      ]
    ]
  ]
]
