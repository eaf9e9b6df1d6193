-- ===== src/Dhcp/Server.antt =====
-- internal/dhcpsvc/server.go: the operations of `DHCPServer` on leases. The mutex makes each of them
-- one step. `store` is `dbStore`: whether the database file could be written. An operation whose
-- store fails has changed the leases, and returns the error.
pub mod Reads
use null_private.Prelude.{
  ℕ, String, Bool, true, false, Option, none, some, List, [], ◌∷◌, map, if◌then◌else◌,
}
use null_private.Prelude.Map.{Map}
use null_private.Dhcp.Lease.{
  Addr, zero_addr, v4, v6, Lease, LeaseError, no_ip, no_interface, Result, ok, err, panic, ◌>>=◌,
  NetInterface, reset,
}
use null_private.Dhcp.Index.{LeaseIndex, add, remove, update, clear, lease_by_addr, lease_by_name}

-- An interface of either family: its common part, and the test by which `find` chooses it, which
-- calls `netip`.
pub record DhcpInterface : Type 0 where
  pub contains : Addr → Bool
  pub common : NetInterface

pub record DhcpServer : Type 0 where
  pub leases : LeaseIndex
  pub interfaces4 : List DhcpInterface
  pub interfaces6 : List DhcpInterface

-- An operation on the index and one interface.
abbrev pub LeaseOp : Type 0
LeaseOp = LeaseIndex × NetInterface → Result (LeaseIndex × NetInterface)

-- `find`, and the operation on the index and the first interface that it chooses.
unfoldable pub on_first :
    Addr → LeaseOp → LeaseIndex → List DhcpInterface → Result (LeaseIndex × List DhcpInterface)
on_first addr op idx [] = err no_interface
on_first addr op idx (i ∷ is) =
    let later = on_first addr op idx is in
    if i.contains addr
    then (do (idx', common') ← op (idx, i.common); ok (idx', record i { common = common' } ∷ is))
    else (do (idx', is') ← later; ok (idx', i ∷ is'))

abbrev is4 : Addr → Bool
is4 (v4 a) = true
is4 _ = false

-- `ifaceForAddr`, and the operation on the interface that it returns.
unfoldable pub on_iface : Addr → LeaseOp → DhcpServer → Result DhcpServer
unfolding on_first
on_iface addr op srv =
    if is4 addr
    then (do
      (idx, is) ← on_first addr op srv.leases srv.interfaces4
      ok (record srv { leases = idx; interfaces4 = is }))
    else (do
      (idx, is) ← on_first addr op srv.leases srv.interfaces6
      ok (record srv { leases = idx; interfaces6 = is }))

unfoldable pub host_by_ip : DhcpServer → Addr → String
host_by_ip srv ip = elim (lease_by_addr srv.leases ip) [ some l ↦ l.hostname | none ↦ "" ]

unfoldable pub mac_by_ip : DhcpServer → Addr → List ℕ
mac_by_ip srv ip = elim (lease_by_addr srv.leases ip) [ some l ↦ l.hw_addr | none ↦ [] ]

abbrev reset_all : List DhcpInterface → List DhcpInterface
reset_all = map (λ (i : DhcpInterface). record i { common = reset i.common })

-- What a step of the server leaves: the server, and whether the database was written.
pub record Stored : Type 0 where
  pub server : DhcpServer
  pub written : Bool

unfoldable pub reset_leases : DhcpServer → DhcpServer
unfolding reset clear
reset_leases srv = record {
  leases = clear srv.leases;
  interfaces4 = reset_all srv.interfaces4;
  interfaces6 = reset_all srv.interfaces6;
}

module _ (store : DhcpServer → Bool) where
  abbrev with_store : DhcpServer → Stored
  with_store srv = record { server = srv; written = store srv }

  unfoldable pub reset_server : DhcpServer → Stored
  reset_server srv = with_store (reset_leases srv)

  module _ (lower : String → String) where
    unfoldable pub add_lease_to : Lease → DhcpServer → Result Stored
    add_lease_to l srv = do srv' ← on_iface l.ip (add lower l) srv; ok (with_store srv')

    unfoldable pub update_static_lease : Lease → DhcpServer → Result Stored
    update_static_lease l srv = do srv' ← on_iface l.ip (update lower l) srv; ok (with_store srv')

    unfoldable pub remove_lease_from : Lease → DhcpServer → Result Stored
    remove_lease_from l srv = do srv' ← on_iface l.ip (remove lower l) srv; ok (with_store srv')

    -- The lease with an address is looked up once the interface for the address is found.
    abbrev remove_by : Addr → LeaseOp
    remove_by addr (idx, iface) = elim (lease_by_addr idx addr) [
      | none ↦ err no_ip
      | some l ↦ remove lower l (idx, iface)
    ]

    unfoldable pub remove_lease_by_addr : Addr → DhcpServer → Result Stored
    remove_lease_by_addr addr srv = do
      srv' ← on_iface addr (remove_by addr) srv
      ok (with_store srv')

unfoldable pub ip_by_host : (String → String) → DhcpServer → String → Addr
ip_by_host lower srv host = elim (lease_by_name lower srv.leases host) [
  | some l ↦ l.ip
  | none ↦ zero_addr
]
