-- ===== src/Dhcpd/Pool/Removal.antt =====
-- What the removal of a lease leaves.
use null_private.Prelude.{
  ℕ, suc, ◌+◌, ◌-◌, ◌%◌, ◌^◌, ◌≤◌, ◌≡◌, refl, ap, subst, sym, ◌∙◌, true, false, some, List, [], ◌∷◌,
  arith, Bool-cases, inl, inr, ◌⊎◌,
}
use null_private.Prelude.Map.{Map, ◌==◌, bytes_eq}
use null_private.Dhcp.Lease.{addr_eq, addr_beq_iff, Lease}
use null_private.Dhcpd.BitSet.{set_bit, is_set-set_bit}
use null_private.Dhcpd.IpRange.{IpRange, offset, contains_ip}
use null_private.Dhcpd.Pool.{
  V4Server, to16, is_free, Search, missing, different, at_index, search_lease, at_or_none,
  rm_lease_by_index, rm_lease, taken_out, without,
}

search_lease-at :
    (lease : Lease) (k i : ℕ) (ls : List Lease)
    → search_lease lease k ls ≡ at_index i
    → (l : Lease) × (k ≤ i) × (at_or_none ls (i - k) ≡ some l) × (l.ip ≡ lease.ip)
unfolding search_lease
search_lease-at lease k i [] e = absurd (ground (arith, e))
search_lease-at lease k i (l ∷ ls) e = elim (Bool-cases (l.ip == lease.ip)) [
  | inl here ↦
      let found : i ≡ k = ground (arith, e) in
      let first : i - k ≡ 0 = omega (arith, found) in
      (l, omega (arith, found), ap (at_or_none (l ∷ ls)) first, (addr_beq_iff l.ip lease.ip).0 here)
  | inr later ↦
      let (x, le, at, same) = search_lease-at lease (k + 1) i ls (ground (arith, e)) in
      let next : i - k ≡ suc (i - (k + 1)) = omega (arith, le) in
      (x, omega (arith, le), ap (at_or_none (l ∷ ls)) next ∙ at, same)
]

Search-cases : (x : Search) → ((i : ℕ) × (x ≡ at_index i)) ⊎ ((x ≡ missing) ⊎ (x ≡ different))
Search-cases missing = inr (inl refl)
Search-cases different = inr (inr refl)
Search-cases (at_index i) = inl (i, refl)

-- Where a lease was removed, it was at the index that was found.
rm_lease-found :
    (lease : Lease) (s s' : V4Server) (l₀ : Lease) (ls : List Lease)
    → s.leases ≡ l₀ ∷ ls
    → rm_lease lease s ≡ some s'
    → (i : ℕ) × (search_lease lease 0 s.leases ≡ at_index i) × (rm_lease_by_index i s ≡ s')
unfolding rm_lease
rm_lease-found lease s s' l₀ ls shape e = elim (Search-cases (search_lease lease 0 s.leases)) [
  | inl (i, at) ↦ (i, at, ground arith)
  | inr other ↦ absurd (ground arith)
]

taken_out-is_free :
    (s : V4Server) (l : Lease) (rest : List Lease) (words : Map ℕ ℕ) (n : ℕ)
    → s.leased_offsets ≡ some words
    → offset s.ip_range (to16 l.ip) ≡ some n
    → is_free (taken_out l rest s) (to16 l.ip) ≡ true
unfolding is_free
taken_out-is_free s l rest words n bits at =
    let unset_n = is_set-set_bit n n false words in
    let offsets : (taken_out l rest s).leased_offsets ≡ set_bit n false (some words) =
      rw at (ap (set_bit n false) bits) in
    ground (arith, at, offsets, unset_n)

rm_lease_by_index-at :
    (s : V4Server) (i : ℕ) (l : Lease)
    → at_or_none s.leases i ≡ some l
    → rm_lease_by_index i s ≡ taken_out l (without s.leases i) s
unfolding rm_lease_by_index
rm_lease_by_index-at s i l at = ground (arith, at)

-- The address of a lease of the range that is removed is free afterwards, if the server had leases.
pub rm_lease-is_free :
    (lease : Lease) (s s' : V4Server) (words : Map ℕ ℕ) (r : IpRange) (l₀ : Lease) (ls : List Lease)
    → s.leases ≡ l₀ ∷ ls
    → s.leased_offsets ≡ some words
    → s.ip_range ≡ some r
    → contains_ip (some r) (to16 lease.ip) ≡ true
    → rm_lease lease s ≡ some s'
    → is_free s' (to16 lease.ip) ≡ true
unfolding contains_ip offset
rm_lease-is_free lease s s' words r l₀ ls shape bits ranged inside e =
    let (i, found, removed) = rm_lease-found lease s s' l₀ ls shape e in
    let (l, _, at, same) = search_lease-at lease 0 i s.leases found in
    let there : offset s.ip_range (to16 l.ip) ≡ some ((to16 l.ip - r.start) % 2 ^ 64) =
      ap (λ x. offset x (to16 l.ip)) ranged ∙ ground (arith, same) in
    let free = taken_out-is_free s l (without s.leases i) words _ bits there in
    let start : i ≡ i - 0 = omega arith in
    let here : at_or_none s.leases i ≡ some l = ap (at_or_none s.leases) start ∙ at in
    let same_server : taken_out l (without s.leases i) s ≡ s' =
      sym (rm_lease_by_index-at s i l here) ∙ removed in
    subst (λ x. is_free s' (to16 x) ≡ true) same
      (subst (λ x. is_free x (to16 l.ip) ≡ true) same_server free)
