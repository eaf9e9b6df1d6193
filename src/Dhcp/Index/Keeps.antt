-- ===== src/Dhcp/Index/Keeps.antt =====
-- The index and the interface of a server with one interface agree, and every operation keeps that.
use null_private.Prelude.{
  ℕ, String, ◌≡◌, refl, sym, ap, ◌∙◌, false, none, some, List, arith, Option-cases, inl, inr,
}
use null_private.Prelude.Map.{
  Map, Eq, lookup, insert, delete, string_eq, bytes_eq, bytes_beq_iff, lookup-insert, lookup-delete,
}
use null_private.Prelude.Map.Agree.{
  Agree, Agree-insert, Agree-delete, Agree-ext, lookup-delete_self,
}
use null_private.Dhcp.Lease.{Addr, addr_eq, Lease, ok, NetInterface}
use null_private.Dhcp.Index.{LeaseIndex, add, remove, update, other_mac}

-- Each lease stands in the three maps, under its address, its lowered host name and its hardware
-- address, and nothing else does.
pub record IsConsistent (lower : String → String) (idx : LeaseIndex) (iface : NetInterface)
    : Type 0 where
  pub addr_name :
      Agree (λ (l : Lease). l.ip) idx.by_addr (λ (l : Lease). lower l.hostname) idx.by_name
  pub addr_mac : Agree (λ (l : Lease). l.ip) idx.by_addr (λ (l : Lease). l.hw_addr) iface.leases
  pub name_addr :
      Agree (λ (l : Lease). lower l.hostname) idx.by_name (λ (l : Lease). l.ip) idx.by_addr
  pub mac_addr : Agree (λ (l : Lease). l.hw_addr) iface.leases (λ (l : Lease). l.ip) idx.by_addr

abbrev ip_of : Lease → Addr
ip_of x = x.ip

abbrev mac_of : Lease → List ℕ
mac_of x = x.hw_addr

abbrev name_of : (String → String) → Lease → String
name_of lower x = lower x.hostname

-- The index with a lease put in and taken out.
abbrev pub put_in_index : (String → String) → Lease → LeaseIndex → LeaseIndex
put_in_index lower l idx = record {
  by_addr = insert l.ip l idx.by_addr;
  by_name = insert (lower l.hostname) l idx.by_name;
}

abbrev pub taken_from_index : (String → String) → Lease → LeaseIndex → LeaseIndex
taken_from_index lower l idx = record {
  by_addr = delete l.ip idx.by_addr;
  by_name = delete (lower l.hostname) idx.by_name;
}

-- A lease of which no key is taken may be put into the three maps.
insert-IsConsistent :
    (lower : String → String) (l : Lease) (idx : LeaseIndex) (iface : NetInterface)
    → IsConsistent lower idx iface
    → lookup l.ip idx.by_addr ≡ none
    → lookup (lower l.hostname) idx.by_name ≡ none
    → lookup l.hw_addr iface.leases ≡ none
    → IsConsistent lower
        (put_in_index lower l idx)
        (record iface { leases = insert l.hw_addr l iface.leases })
insert-IsConsistent lower l idx iface c no_ip no_name no_mac = record {
  addr_name = Agree-insert ip_of (name_of lower) idx.by_addr idx.by_name l c.addr_name no_name;
  addr_mac = Agree-insert ip_of mac_of idx.by_addr iface.leases l c.addr_mac no_mac;
  name_addr = Agree-insert (name_of lower) ip_of idx.by_name idx.by_addr l c.name_addr no_ip;
  mac_addr = Agree-insert mac_of ip_of iface.leases idx.by_addr l c.mac_addr no_ip;
}

-- A lease that the index holds may be taken out of the three maps.
delete-IsConsistent :
    (lower : String → String) (l : Lease) (idx : LeaseIndex) (iface : NetInterface)
    → IsConsistent lower idx iface
    → lookup l.ip idx.by_addr ≡ some l
    → IsConsistent lower
        (taken_from_index lower l idx)
        (record iface { leases = delete l.hw_addr iface.leases })
delete-IsConsistent lower l idx iface c there =
    let in_name = (c.addr_name l.ip l there).1 in
    let in_mac = (c.addr_mac l.ip l there).1 in
    record {
      addr_name = Agree-delete ip_of (name_of lower) idx.by_addr idx.by_name l c.addr_name in_name;
      addr_mac = Agree-delete ip_of mac_of idx.by_addr iface.leases l c.addr_mac in_mac;
      name_addr = Agree-delete (name_of lower) ip_of idx.by_name idx.by_addr l c.name_addr there;
      mac_addr = Agree-delete mac_of ip_of iface.leases idx.by_addr l c.mac_addr there;
    }

-- A key that is free, or that a lease of the hardware address of `l` has, is free once the lease of
-- that hardware address is taken out.
free-key :
    {K : Type 0} ⦃e : Eq K⦄ (f : Lease → K) (m : Map K Lease) (leases : Map (List ℕ) Lease)
    (l prev : Lease) (k : K)
    → ((j : K) (x : Lease) → lookup j m ≡ some x → (f x ≡ j) × (lookup x.hw_addr leases ≡ some x))
    → lookup l.hw_addr leases ≡ some prev
    → other_mac l (lookup k m) ≡ false
    → lookup k (delete (f prev) m) ≡ none
free-key f m leases l prev k stands in_mac mine = elim (Option-cases (lookup k m)) [
  | inl free ↦ ground (arith, lookup-delete (f prev) k m)
  | inr (x, there) ↦
      let (at, has) = stands k x there in
      let same : l.hw_addr ≡ x.hw_addr = (bytes_beq_iff l.hw_addr x.hw_addr).0 (ground arith) in
      let one : some x ≡ some prev = cc in
      let is_prev : x ≡ prev = cc in
      let key : f prev ≡ k = ap f (sym is_prev) ∙ at in rw (← key) (lookup-delete_self (f prev) m)
]

-- The leases of an interface may be replaced by those that a lookup cannot tell from them.
IsConsistent-ext :
    (lower : String → String) (idx : LeaseIndex) (iface iface' : NetInterface)
    → ((k : List ℕ) → lookup k iface'.leases ≡ lookup k iface.leases)
    → IsConsistent lower idx iface
    → IsConsistent lower idx iface'
IsConsistent-ext lower idx iface iface' same c = record {
  addr_name = c.addr_name;
  addr_mac =
      Agree-ext ip_of mac_of idx.by_addr iface.leases idx.by_addr iface'.leases (λ k. refl) same
        c.addr_mac;
  name_addr = c.name_addr;
  mac_addr =
      Agree-ext mac_of ip_of iface.leases idx.by_addr iface'.leases idx.by_addr same (λ k. refl)
        c.mac_addr;
}

lookup-insert-delete :
    (k j : List ℕ) (l : Lease) (m : Map (List ℕ) Lease)
    → lookup j (insert k l m) ≡ lookup j (insert k l (delete k m))
lookup-insert-delete k j l m =
    ground (arith, lookup-insert k j l m, lookup-insert k j l (delete k m), lookup-delete k j m)

module _ (lower : String → String) (l : Lease) (idx : LeaseIndex) (iface : NetInterface) where
  -- What a successful `add` has checked, and its result.
  pub add-eq-ok :
      (s' : LeaseIndex × NetInterface)
      → add lower l (idx, iface) ≡ ok s'
      → (lookup l.ip idx.by_addr ≡ none)
        × (lookup (lower l.hostname) idx.by_name ≡ none)
        × (lookup l.hw_addr iface.leases ≡ none)
        × (s'
            ≡ (put_in_index lower l idx, record iface { leases = insert l.hw_addr l iface.leases }))
  unfolding add
  add-eq-ok s' e = ground arith

  pub remove-eq-ok :
      (s' : LeaseIndex × NetInterface)
      → remove lower l (idx, iface) ≡ ok s'
      → s' ≡ (taken_from_index lower l idx, record iface { leases = delete l.hw_addr iface.leases })
  unfolding remove
  remove-eq-ok s' e = ground arith

  pub update-eq-ok :
      (s' : LeaseIndex × NetInterface)
      → update lower l (idx, iface) ≡ ok s'
      → (prev : Lease) × (lookup l.hw_addr iface.leases ≡ some prev)
        × (other_mac l (lookup l.ip idx.by_addr) ≡ false)
        × (other_mac l (lookup (lower l.hostname) idx.by_name) ≡ false)
        × (s' ≡ (
          put_in_index lower l (taken_from_index lower prev idx),
          record iface { leases = insert l.hw_addr l iface.leases },
        ))
  unfolding update
  update-eq-ok s' e = elim (Option-cases (lookup l.hw_addr iface.leases)) [
    | inl nothing ↦ absurd (ground arith)
    | inr (prev, there) ↦ (prev, there, ground arith, ground arith, ground arith)
  ]

  -- `add` that succeeds keeps the index and the interface in agreement.
  pub add-IsConsistent :
      (s' : LeaseIndex × NetInterface)
      → IsConsistent lower idx iface
      → add lower l (idx, iface) ≡ ok s'
      → IsConsistent lower s'.0 s'.1
  add-IsConsistent s' c e =
      let (no_ip, no_name, no_mac, result) = add-eq-ok s' e in
      rw result (insert-IsConsistent lower l idx iface c no_ip no_name no_mac)

  -- `remove` of a lease that the index holds keeps the index and the interface in agreement.
  pub remove-IsConsistent :
      (s' : LeaseIndex × NetInterface)
      → IsConsistent lower idx iface
      → lookup l.ip idx.by_addr ≡ some l
      → remove lower l (idx, iface) ≡ ok s'
      → IsConsistent lower s'.0 s'.1
  remove-IsConsistent s' c there e =
      rw (remove-eq-ok s' e) (delete-IsConsistent lower l idx iface c there)

  -- `update` that succeeds keeps the index and the interface in agreement: also where the address or
  -- the host name changes.
  pub update-IsConsistent :
      (s' : LeaseIndex × NetInterface)
      → IsConsistent lower idx iface
      → update lower l (idx, iface) ≡ ok s'
      → IsConsistent lower s'.0 s'.1
  update-IsConsistent s' c e =
      let (prev, in_mac, ip_mine, name_mine, result) = update-eq-ok s' e in
      let (mac, in_addr) = c.mac_addr l.hw_addr prev in_mac in
      let no_ip = free-key ip_of idx.by_addr iface.leases l prev l.ip c.addr_mac in_mac ip_mine in
      let no_name =
        free-key (name_of lower) idx.by_name iface.leases l prev (lower l.hostname)
          (λ j x h. let (at, has) = c.name_addr j x h in (at, (c.addr_mac x.ip x has).1)) in_mac
          name_mine in
      let kept =
        insert-IsConsistent lower l (taken_from_index lower prev idx)
          (record iface { leases = delete prev.hw_addr iface.leases })
          (delete-IsConsistent lower prev idx iface c in_addr) no_ip no_name
          (rw mac (lookup-delete_self l.hw_addr iface.leases)) in
      rw result (
        IsConsistent-ext lower _ _ _ (λ k. rw mac (lookup-insert-delete l.hw_addr k l iface.leases))
          kept)
