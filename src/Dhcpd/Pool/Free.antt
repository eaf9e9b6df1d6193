-- ===== src/Dhcpd/Pool/Free.antt =====
-- Which addresses are free before and after a lease is added.
use null_private.Prelude.{
  ℕ, ◌-◌, ◌%◌, ◌^◌, ◌≡◌, ◌≢◌, sym, ap, ◌∙◌, true, false, ◌&&◌, none, some, ltb, leb, if◌then◌else◌,
  arith, Option-cases, inl, inr, ◌==◌,
}
use null_private.Prelude.Map.{Map, string_eq}
use null_private.Dhcp.Lease.{Addr, addr_eq, Lease}
use null_private.Dhcpd.BitSet.{is_set, set_bit, is_set-set_bit}
use null_private.Dhcpd.IpRange.{IpRange, offset, find, contains_ip, find-least}
use null_private.Dhcpd.Pool.{
  V4Server, added, to16, to4, offset_or_zero, add_lease_v4, is_free, next_ip,
}

to16-to4 : (n : ℕ) (a : Addr) → to4 n ≡ some a → to16 a ≡ n
to16-to4 n a e = ground arith

-- `addLease` that succeeds has entered the lease.
add_lease_v4-added :
    (l : Lease) (s s' : V4Server)
    → add_lease_v4 l s ≡ added s'
    → (s'.ip_range ≡ s.ip_range)
      × (s'.leased_offsets
          ≡ set_bit (offset_or_zero (offset s.ip_range (to16 l.ip))) true s.leased_offsets)
unfolding add_lease_v4
add_lease_v4-added l s s' e = ground arith

-- The set of taken offsets after the lease is entered, and the offset of any address.
is_set-added :
    (l : Lease) (s s' : V4Server) (words : Map ℕ ℕ) (n : ℕ)
    → s.leased_offsets ≡ some words
    → add_lease_v4 l s ≡ added s'
    → is_set n s'.leased_offsets ≡ (
        if offset_or_zero (offset s.ip_range (to16 l.ip)) == n
        then true
        else is_set n s.leased_offsets)
is_set-added l s s' words n bits e =
    let (_, taken) = add_lease_v4-added l s s' e in
    let m = offset_or_zero (offset s.ip_range (to16 l.ip)) in
    rw taken (rw bits (is_set-set_bit m n true words))

offset-added :
    (l : Lease) (s s' : V4Server) (ip : ℕ)
    → add_lease_v4 l s ≡ added s'
    → offset s'.ip_range ip ≡ offset s.ip_range ip
offset-added l s s' ip e = ap (λ r. offset r ip) (add_lease_v4-added l s s' e).0

module _ (s : V4Server) (r : IpRange) where
  -- The address that the server gives next lies in its range and is free, and is the least such
  -- address.
  pub next_ip-is_free :
      (a : Addr) (j : ℕ)
      → s.ip_range ≡ some r
      → next_ip s ≡ some a
      → (contains_ip (some r) (to16 a) ≡ true)
        × (is_free s (to16 a) ≡ true)
        × ((leb r.start j && ltb j (to16 a) && is_free s j) ≡ false)
  unfolding next_ip
  next_ip-is_free a j ranged e = elim (Option-cases (find (some r) (λ ip. is_free s ip))) [
    | inl nothing ↦ absurd (ground (arith, ap (λ x. find x (λ ip. is_free s ip)) ranged))
    | inr (ip, found) ↦
        let same : to16 a ≡ ip =
          to16-to4 ip a (ground (arith, ap (λ x. find x (λ ip. is_free s ip)) ranged)) in
        rw same (find-least r (λ ip. is_free s ip) ip j found)
  ]

module _ (l : Lease) (s s' : V4Server) (words : Map ℕ ℕ) where
  -- After a lease is added, an address that is free was free before, and is not the lease's.
  pub is_free-add_lease_v4 :
      (a : Addr)
      → s.leased_offsets ≡ some words
      → add_lease_v4 l s ≡ added s'
      → is_free s' (to16 a) ≡ true
      → (is_free s (to16 a) ≡ true) × (a ≢ l.ip)
  unfolding is_free
  is_free-add_lease_v4 a bits e free = elim (Option-cases (offset s.ip_range (to16 a))) [
    | inl nowhere ↦ absurd (ground (arith, offset-added l s s' (to16 a) e))
    | inr (n, at) ↦
        let set_n = is_set-added l s s' words n bits e in
        (
          ground (arith, offset-added l s s' (to16 a) e, set_n),
          λ same.
              let here : offset s.ip_range (to16 l.ip) ≡ some n =
                ap (λ x. offset s.ip_range (to16 x)) (sym same) ∙ at in
              ground (arith, offset-added l s s' (to16 a) e, set_n, here),
        )
  ]

  -- A static lease outside the range is not meant to take an address of the range, and takes the
  -- first one: that one is not free afterwards.
  pub add_lease_v4-takes_start :
      (r : IpRange)
      → s.leased_offsets ≡ some words
      → s.ip_range ≡ some r
      → contains_ip (some r) (to16 l.ip) ≡ false
      → add_lease_v4 l s ≡ added s'
      → is_free s' r.start ≡ false
  unfolding is_free offset contains_ip
  add_lease_v4-takes_start r bits ranged outside e =
      let set_zero = is_set-added l s s' words 0 bits e in
      let nowhere : offset s.ip_range (to16 l.ip) ≡ none =
        ap (λ x. offset x (to16 l.ip)) ranged ∙ ground arith in
      let start : offset s'.ip_range r.start ≡ (
          if leb r.start r.start && leb r.start r.end
          then some ((r.start - r.start) % 2 ^ 64)
          else none) =
        offset-added l s s' r.start e ∙ ap (λ x. offset x r.start) ranged in
      let zero_offset : (r.start - r.start) % 2 ^ 64 ≡ 0 = omega arith in
      ground (arith, set_zero, nowhere, start, zero_offset)
