-- ===== src/Dhcp/Server/Reads.antt =====
-- What a client of the server reads after a lease is added, updated or removed.
use null_private.Prelude.{
  String, ◌≡◌, Bool, List, [], ◌∷◌, arith, if◌then◌else◌, Bool-cases, inl, inr,
}
use null_private.Prelude.Map.{string_eq, ◌==◌}
use null_private.Dhcp.Lease.{Addr, v4, zero_addr, Result-cases, addr_eq, Lease, ok, NetInterface}
use null_private.Dhcp.Index.{LeaseIndex, add, remove}
use null_private.Dhcp.Index.Reads.{lease-add, lease-remove}
use null_private.Dhcp.Server.{
  DhcpInterface, DhcpServer, LeaseOp, on_first, on_iface, host_by_ip, ip_by_host, Stored,
  add_lease_to, remove_lease_from,
}

-- An operation that succeeds on the server has succeeded on the index and one of its interfaces.
on_first-ran :
    (addr : Addr) (op : LeaseOp) (idx : LeaseIndex) (is : List DhcpInterface)
    (r : LeaseIndex × List DhcpInterface)
    → on_first addr op idx is ≡ ok r
    → (i : NetInterface) × (i' : NetInterface) × (op (idx, i) ≡ ok (r.0, i'))
unfolding on_first
on_first-ran addr op idx [] r e = cc
on_first-ran addr op idx (i ∷ is) r e = elim (Bool-cases (i.contains addr)) [
  | inl here ↦ elim (Result-cases (op (idx, i.common))) [
    | inl ((idx', common'), done) ↦ (i.common, common', ground arith)
    | inr other ↦ absurd (ground arith)
  ]
  | inr there ↦ elim (Result-cases (on_first addr op idx is)) [
    | inl ((idx', is'), done) ↦
        let (j, j', ran) = on_first-ran addr op idx is (idx', is') done in (j, j', ground arith)
    | inr other ↦ absurd (ground arith)
  ]
]

on_iface-ran :
    (addr : Addr) (op : LeaseOp) (srv srv' : DhcpServer)
    → on_iface addr op srv ≡ ok srv'
    → (i : NetInterface) × (i' : NetInterface) × (op (srv.leases, i) ≡ ok (srv'.leases, i'))
unfolding on_iface
on_iface-ran (v4 a) op srv srv' e =
    elim (Result-cases (on_first (v4 a) op srv.leases srv.interfaces4)) [
      | inl (r, done) ↦
          let (i, i', ran) = on_first-ran (v4 a) op srv.leases srv.interfaces4 r done in
          (i, i', ground arith)
      | inr other ↦ absurd (ground arith)
    ]
on_iface-ran addr op srv srv' e =
    elim (Result-cases (on_first addr op srv.leases srv.interfaces6)) [
      | inl (r, done) ↦
          let (i, i', ran) = on_first-ran addr op srv.leases srv.interfaces6 r done in
          (i, i', ground arith)
      | inr other ↦ absurd (ground arith)
    ]

module _ (store : DhcpServer → Bool) (lower : String → String) (l : Lease) (srv : DhcpServer) where
  -- After `AddLease`, whether or not the database was written, the host name and the address of the
  -- lease lead to one another, and every other address and name leads where it led before.
  pub reads-add_lease :
      (r : Stored) (a : Addr) (n : String)
      → add_lease_to store lower l srv ≡ ok r
      → (host_by_ip r.server a ≡ (if l.ip == a then l.hostname else host_by_ip srv a))
        × (ip_by_host lower r.server n
            ≡ (if lower l.hostname == lower n then l.ip else ip_by_host lower srv n))
  unfolding add_lease_to host_by_ip ip_by_host
  reads-add_lease r a n e = elim (Result-cases (on_iface l.ip (add lower l) srv)) [
    | inl (srv', done) ↦
        let (i, i', ran) = on_iface-ran l.ip (add lower l) srv srv' done in
        let (by_addr, by_name) = lease-add lower l srv.leases i (srv'.leases, i') a n ran in
        ground arith
    | inr other ↦ absurd (ground arith)
  ]

  -- After `RemoveLease`, the address and the host name of the lease lead nowhere, and every other
  -- address and name leads where it led before.
  pub reads-remove_lease :
      (r : Stored) (a : Addr) (n : String)
      → remove_lease_from store lower l srv ≡ ok r
      → (host_by_ip r.server a ≡ (if l.ip == a then "" else host_by_ip srv a))
        × (ip_by_host lower r.server n
            ≡ (if lower l.hostname == lower n then zero_addr else ip_by_host lower srv n))
  unfolding remove_lease_from host_by_ip ip_by_host
  reads-remove_lease r a n e = elim (Result-cases (on_iface l.ip (remove lower l) srv)) [
    | inl (srv', done) ↦
        let (i, i', ran) = on_iface-ran l.ip (remove lower l) srv srv' done in
        let (by_addr, by_name) = lease-remove lower l srv.leases i (srv'.leases, i') a n ran in
        ground arith
    | inr other ↦ absurd (ground arith)
  ]
