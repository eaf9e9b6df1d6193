-- ===== src/Dhcpd/Pool.antt =====
-- internal/dhcpd/v4_unix.go: the leases of the DHCPv4 server and the addresses that it still has to
-- give. Leases are those of internal/dhcpsvc; they are shared by pointer in Go, and no operation here
-- changes one.
pub mod Free
pub mod Removal
use null_private.Prelude.{
  ℕ, zero, suc, ◌+◌, ◌-◌, ◌*◌, ◌^◌, String, Bool, true, false, not, ◌&&◌, ◌||◌, Option, none, some,
  List, [], ◌∷◌, ◌++◌, ltb, leb, str_eq, if◌then◌else◌,
}
use null_private.Prelude.Map.{Map, lookup, insert, delete, string_eq, bytes_eq, ◌==◌}
use null_private.Dhcp.Lease.{Addr, zero_addr, v4, v6, addr_eq, Lease}
use null_private.Dhcpd.BitSet.{BitSet, is_set, set_bit}
use null_private.Dhcpd.IpRange.{IpRange, offset, find}

-- The integer of `To16` of an address: an IPv4 address is mapped into IPv6.
abbrev pub mapped : ℕ
mapped = 65535 * 2 ^ 32

abbrev pub to16 : Addr → ℕ
to16 zero_addr = 0
to16 (v4 a) = mapped + a
to16 (v6 a z) = a

-- `To4`, `none` for nil
abbrev pub to4 : ℕ → Option Addr
to4 n = if leb mapped n && ltb n (mapped + 2 ^ 32) then some (v4 (n - mapped)) else none

-- `v4Server`, and what it reads of its configuration: the subnet is its test `Contains`.
pub record V4Server : Type 0 where
  pub leases : List Lease
  pub hosts_index : Map String Lease
  pub ip_index : Map Addr Lease
  pub leased_offsets : BitSet
  pub ip_range : Option IpRange
  pub subnet_contains : Addr → Bool

pub data AddError : Type 0 where
  not_in_subnet out_of_range dup_hostname : AddError

pub data Added : Type 0 where
  added : V4Server → Added
  refused : AddError → Added

-- The offset that `r.offset` returns, also where its flag is false.
abbrev pub offset_or_zero : Option ℕ → ℕ
offset_or_zero none = 0
offset_or_zero (some n) = n

abbrev is_some : Option ℕ → Bool
is_some none = false
is_some (some n) = true

-- The last part of `addLease`, once the host name is entered.
abbrev pub entered : Lease → Map String Lease → V4Server → V4Server
entered l hosts s = record s {
  leases = s.leases ++ (l ∷ []);
  hosts_index = hosts;
  ip_index = insert l.ip l s.ip_index;
  leased_offsets = set_bit (offset_or_zero (offset s.ip_range (to16 l.ip))) true s.leased_offsets;
}

abbrev add_named : Lease → V4Server → Added
add_named l s =
    if str_eq l.hostname ""
    then added (entered l s.hosts_index s)
    else elim (lookup l.hostname s.hosts_index) [
      | some _ ↦ refused dup_hostname
      | none ↦ added (entered l (insert l.hostname l s.hosts_index) s)
    ]

unfoldable pub add_lease_v4 : Lease → V4Server → Added
add_lease_v4 l s =
    if l.is_static
    then (if s.subnet_contains l.ip then add_named l s else refused not_in_subnet)
    else if is_some (offset s.ip_range (to16 l.ip))
    then add_named l s
    else refused out_of_range

-- The predicate of `nextIP`.
unfoldable pub is_free : V4Server → ℕ → Bool
is_free s ip = elim (offset s.ip_range ip) [
  | none ↦ false
  | some n ↦ not (is_set n s.leased_offsets)
]

-- The next address that is free, `none` for nil.
unfoldable pub next_ip : V4Server → Option Addr
next_ip s = elim (find s.ip_range (λ ip. is_free s ip)) [ none ↦ none | some ip ↦ to4 ip ]

abbrev unset : Option ℕ → BitSet → BitSet
unset none offsets = offsets
unset (some n) offsets = set_bit n false offsets

-- What `rmLeaseByIndex` does once the lease `l` is taken from the list.
abbrev pub taken_out : Lease → List Lease → V4Server → V4Server
taken_out l leases s = record s {
  leases = leases;
  hosts_index = delete l.hostname s.hosts_index;
  ip_index = delete l.ip s.ip_index;
  leased_offsets = unset (offset s.ip_range (to16 l.ip)) s.leased_offsets;
}

abbrev pub at_or_none : List Lease → ℕ → Option Lease
at_or_none [] i = none
at_or_none (l ∷ ls) zero = some l
at_or_none (l ∷ ls) (suc i) = at_or_none ls i

abbrev pub without : List Lease → ℕ → List Lease
without [] i = []
without (l ∷ ls) zero = ls
without (l ∷ ls) (suc i) = l ∷ without ls i

unfoldable pub rm_lease_by_index : ℕ → V4Server → V4Server
rm_lease_by_index i s = elim (at_or_none s.leases i) [
  | none ↦ s
  | some l ↦ taken_out l (without s.leases i) s
]

-- What `rmLease` finds: no lease of the address, one that is different, or its index.
pub data Search : Type 0 where
  missing different : Search
  at_index : ℕ → Search

unfoldable pub search_lease : Lease → ℕ → List Lease → Search
search_lease lease i [] = missing
search_lease lease i (l ∷ ls) =
    let later = search_lease lease (i + 1) ls in
    if l.ip == lease.ip
    then (if l.hw_addr == lease.hw_addr && str_eq l.hostname lease.hostname
        then at_index i
        else different)
    else later

-- `none` is an error, with which the server is unchanged.
unfoldable pub rm_lease : Lease → V4Server → Option V4Server
rm_lease lease s = elim s.leases [
  | [] ↦ some s
  | _ ∷ _ ↦ elim (search_lease lease 0 s.leases) [
    | missing ↦ none
    | different ↦ none
    | at_index i ↦ some (rm_lease_by_index i s)
  ]
]
