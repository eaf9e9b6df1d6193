-- ===== src/Dhcp/Index/Reads.antt =====
-- What the index returns after an operation, and an update that the check of duplicates lets through.
use null_private.Prelude.{
  String, ◌≡◌, ◌≢◌, refl, ap, ◌∙◌, subst, false, none, some, arith, if◌then◌else◌, length,
}
use null_private.Prelude.Map.{
  lookup, insert, delete, string_eq, bytes_eq, bytes_beq_iff, ◌==◌, lookup-insert, lookup-delete,
}
use null_private.Prelude.Map.Agree.{==_false, lookup-insert_self}
use null_private.Dhcp.Lease.{Addr, addr_eq, Lease, ok, NetInterface, mac_to_key}
use null_private.Dhcp.Index.{
  LeaseIndex, add, remove, update, other_mac, lease_by_addr, lease_by_name,
}
use null_private.Dhcp.Index.Keeps.{
  update-eq-ok, add-eq-ok, remove-eq-ok, put_in_index, taken_from_index,
}

module _ (lower : String → String) (l : Lease) (idx : LeaseIndex) (iface : NetInterface) where
  -- After `add`, the lease is found by its address and by its host name in any letter case, and every
  -- other address and name finds what it found before.
  pub lease-add :
      (s' : LeaseIndex × NetInterface) (a : Addr) (n : String)
      → add lower l (idx, iface) ≡ ok s'
      → (lease_by_addr s'.0 a ≡ (if l.ip == a then some l else lease_by_addr idx a))
        × (lease_by_name lower s'.0 n
            ≡ (if lower l.hostname == lower n then some l else lease_by_name lower idx n))
  unfolding lease_by_addr lease_by_name
  lease-add s' a n e =
      let (_, _, _, result) = add-eq-ok lower l idx iface s' e in
      rw result (
        lookup-insert l.ip a l idx.by_addr,
        lookup-insert (lower l.hostname) (lower n) l idx.by_name,
      )

  -- After `remove`, the address and the host name of the lease find nothing, and every other address
  -- and name finds what it found before.
  pub lease-remove :
      (s' : LeaseIndex × NetInterface) (a : Addr) (n : String)
      → remove lower l (idx, iface) ≡ ok s'
      → (lease_by_addr s'.0 a ≡ (if l.ip == a then none else lease_by_addr idx a))
        × (lease_by_name lower s'.0 n
            ≡ (if lower l.hostname == lower n then none else lease_by_name lower idx n))
  unfolding lease_by_addr lease_by_name
  lease-remove s' a n e =
      rw (remove-eq-ok lower l idx iface s' e)
        (lookup-delete l.ip a idx.by_addr, lookup-delete (lower l.hostname) (lower n) idx.by_name)

  -- After `update`, the lease is found by its address and its host name, the previous lease of its
  -- hardware address is not found by those that it alone had, and every other address and name finds
  -- what it found before.
  pub lease-update :
      (prev : Lease) (s' : LeaseIndex × NetInterface) (a : Addr) (n : String)
      → lookup l.hw_addr iface.leases ≡ some prev
      → update lower l (idx, iface) ≡ ok s'
      → (lease_by_addr s'.0 a
          ≡ (if l.ip == a then some l else if prev.ip == a then none else lease_by_addr idx a))
        × (lease_by_name lower s'.0 n ≡ (
            if lower l.hostname == lower n
            then some l
            else if lower prev.hostname == lower n
            then none
            else lease_by_name lower idx n))
  unfolding lease_by_addr lease_by_name
  lease-update prev s' a n there e =
      let (prev', there', _, _, result) = update-eq-ok lower l idx iface s' e in
      let same : prev' ≡ prev = ground (arith, there, there') in
      subst
        (λ p.
          (lookup a s'.0.by_addr
            ≡ (if l.ip == a then some l else if p.ip == a then none else lookup a idx.by_addr))
          × (lookup (lower n) s'.0.by_name ≡ (
              if lower l.hostname == lower n
              then some l
              else if lower p.hostname == lower n
              then none
              else lookup (lower n) idx.by_name)))
        same
        (rw result (
          lookup-insert l.ip a l (delete prev'.ip idx.by_addr)
              ∙ ap (λ x. if l.ip == a then some l else x) (lookup-delete prev'.ip a idx.by_addr),
          lookup-insert (lower l.hostname) (lower n) l (delete (lower prev'.hostname) idx.by_name)
              ∙ ap (λ x. if lower l.hostname == lower n then some l else x)
                  (lookup-delete (lower prev'.hostname) (lower n) idx.by_name),
        ))

  -- `update` takes the host name of another lease `b` without an error, where `b` has the same
  -- hardware address (on another interface) as the updated lease `a`: the index then finds `b` by its
  -- address, and the updated lease by the host name of `b`.
  pub update-takes_name :
      (a b : Lease)
      → length l.hw_addr ≡ 6
      → l.hw_addr ≡ b.hw_addr
      → lookup l.hw_addr iface.leases ≡ some a
      → other_mac l (lookup l.ip idx.by_addr) ≡ false
      → lookup (lower l.hostname) idx.by_name ≡ some b
      → lookup b.ip idx.by_addr ≡ some b
      → l.ip ≢ b.ip
      → a.ip ≢ b.ip
      → lower l.hostname ≡ lower b.hostname
      → (s' : LeaseIndex × NetInterface) × (update lower l (idx, iface) ≡ ok s')
        × (lease_by_addr s'.0 b.ip ≡ some b)
        × (lease_by_name lower s'.0 b.hostname ≡ some l)
  unfolding lease_by_addr lease_by_name update mac_to_key
  update-takes_name a b len mac in_mac mine named in_addr ne₁ ne₂ name =
      let name_mine : other_mac l (lookup (lower l.hostname) idx.by_name) ≡ false =
        rw (named, (bytes_beq_iff l.hw_addr b.hw_addr).1 mac) refl in
      (
        (
          put_in_index lower l (taken_from_index lower a idx),
          record iface { leases = insert l.hw_addr l iface.leases },
        ),
        ground arith,
        rw
            (
              lookup-insert l.ip b.ip l (delete a.ip idx.by_addr),
              ==_false l.ip b.ip ne₁,
              lookup-delete a.ip b.ip idx.by_addr,
              ==_false a.ip b.ip ne₂,
            )
            in_addr,
        rw (← name)
            (lookup-insert_self (lower l.hostname) l (delete (lower a.hostname) idx.by_name)),
      )
