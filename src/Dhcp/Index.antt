-- ===== src/Dhcp/Index.antt =====
-- internal/dhcpsvc/leaseindex.go: the leases of a server, by address and by host name. `lower` is
-- `strings.ToLower`, which stays a parameter.
pub mod Keeps
pub mod Reads
use null_private.Prelude.{
  ℕ, String, Bool, true, false, not, ◌&&◌, Option, none, some, List, [], length, if◌then◌else◌,
}
use null_private.Prelude.Map.{Map, lookup, insert, delete, string_eq, bytes_eq, ◌==◌}
use null_private.Dhcp.Lease.{
  Addr, addr_eq, Lease, LeaseError, ip_exists, hostname_exists, no_ip, no_hostname, Result, ok, err,
  panic, ◌>>=◌, NetInterface, add_lease, update_lease, remove_lease,
}

pub record LeaseIndex : Type 0 where
  pub by_addr : Map Addr Lease
  pub by_name : Map String Lease

abbrev pub empty_index : LeaseIndex
empty_index = record { by_addr = []; by_name = [] }

unfoldable pub clear : LeaseIndex → LeaseIndex
clear idx = empty_index

unfoldable pub lease_by_addr : LeaseIndex → Addr → Option Lease
lease_by_addr idx addr = lookup addr idx.by_addr

unfoldable pub count : LeaseIndex → ℕ
count idx = length idx.by_addr

-- The lease found by a key belongs to another hardware address.
abbrev pub other_mac : Lease → Option Lease → Bool
other_mac l none = false
other_mac l (some existing) = not (l.hw_addr == existing.hw_addr)

module _ (lower : String → String) where
  unfoldable pub lease_by_name : LeaseIndex → String → Option Lease
  lease_by_name idx name = lookup (lower name) idx.by_name

  unfoldable pub add : Lease → LeaseIndex × NetInterface → Result (LeaseIndex × NetInterface)
  unfolding add_lease
  add l (idx, iface) = elim (lookup l.ip idx.by_addr) [
    | some _ ↦ err ip_exists
    | none ↦ elim (lookup (lower l.hostname) idx.by_name) [
      | some _ ↦ err hostname_exists
      | none ↦ do
        iface' ← add_lease l iface
        ok (
          record {
            by_addr = insert l.ip l idx.by_addr;
            by_name = insert (lower l.hostname) l idx.by_name;
          },
          iface',
        )
    ]
  ]

  unfoldable pub remove : Lease → LeaseIndex × NetInterface → Result (LeaseIndex × NetInterface)
  unfolding remove_lease
  remove l (idx, iface) = elim (lookup l.ip idx.by_addr) [
    | none ↦ err no_ip
    | some _ ↦ elim (lookup (lower l.hostname) idx.by_name) [
      | none ↦ err no_hostname
      | some _ ↦ do
        iface' ← remove_lease l iface
        ok (
          record {
            by_addr = delete l.ip idx.by_addr;
            by_name = delete (lower l.hostname) idx.by_name;
          },
          iface',
        )
    ]
  ]

  unfoldable pub update : Lease → LeaseIndex × NetInterface → Result (LeaseIndex × NetInterface)
  unfolding update_lease
  update l (idx, iface) =
      if other_mac l (lookup l.ip idx.by_addr)
      then err ip_exists
      else if other_mac l (lookup (lower l.hostname) idx.by_name)
      then err hostname_exists
      else do
        (iface', prev) ← update_lease l iface
        ok (
          record {
            by_addr = insert l.ip l (delete prev.ip idx.by_addr);
            by_name = insert (lower l.hostname) l (delete (lower prev.hostname) idx.by_name);
          },
          iface',
        )
