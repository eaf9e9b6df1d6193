-- ===== src/Client/Index/Finds.antt =====
-- What the searches of a consistent index find.
use Prim.Native.Nat.Ordering.{lt}
use null_private.Prelude.{
  ℕ, ◌≤◌, ◌≡◌, sym, ap, ◌∙◌, subst, Bool, true, false, Option, none, some, arith, inl, inr, ◌⊎◌,
  Option-cases, Bool-cases,
}
use null_private.Prelude.Map.{mem, lookup, number_eq}
use null_private.Dhcp.Lease.{Addr, addr_eq}
use null_private.Aghalg.SortedMap.{IsOrder, get, first_key}
use null_private.Aghalg.SortedMap.Order.{first_key-least, first_key-mem, first_key-none}
use null_private.Client.Persistent.{
  Prefix, prefix_eq, subnet_compare, subnet_compare-IsOrder, Persistent,
}
use null_private.Client.Index.{Netip, Index, without_zone, client_of, subnet_order, find_by_ip}
use null_private.Client.Index.Keeps.{IsConsistent}

-- A prefix that comes first in the order is no shorter.
bits_of_order :
    (netip : Netip) (p q : Prefix) → (p ≡ q) ⊎ (subnet_order netip p q ≡ lt) → q.bits ≤ p.bits
unfolding subnet_compare
bits_of_order netip p q (inl same) = subst (λ x. x.bits ≤ p.bits) same (ground arith)
bits_of_order netip p q (inr before) = ground (arith, before)

module _ (netip : Netip) (ci : Index) where
  -- No client has the address.
  abbrev pub IsUnknownIp : Addr → Type 0
  IsUnknownIp ip =
      (u : ℕ) (c : Persistent) → lookup u ci.uid_to_client ≡ some c → mem ip c.ips ≡ false

  -- The subnet of the client is the narrowest that has the address.
  pub record IsNarrowest (ip : Addr) (c : Persistent) (p : Prefix) : Type 0 where
    pub among : mem p c.subnets ≡ true
    pub has : netip.contains p (without_zone ip) ≡ true
    pub narrowest :
        (u : ℕ) (d : Persistent) (q : Prefix)
        → lookup u ci.uid_to_client ≡ some d
        → mem q d.subnets ≡ true
        → netip.contains q (without_zone ip) ≡ true
        → q.bits ≤ p.bits

  -- What a search for an address is meant to find: the client that has it; where none does, a client
  -- with the narrowest subnet that has it, without its zone; nothing if there is no such subnet.
  abbrev pub IsFoundByIp : Addr → Option (Option Persistent) → Type 0
  IsFoundByIp ip none =
      IsUnknownIp ip
      × ((u : ℕ) (c : Persistent) (p : Prefix)
          → lookup u ci.uid_to_client ≡ some c
          → mem p c.subnets ≡ true
          → netip.contains p (without_zone ip) ≡ false)
  IsFoundByIp ip (some none) = true ≡ false
  IsFoundByIp ip (some (some c)) =
      (lookup c.uid ci.uid_to_client ≡ some c)
      × ((mem ip c.ips ≡ true) ⊎ (IsUnknownIp ip × (p : Prefix) × IsNarrowest ip c p))

  module _ (order : IsOrder netip.addr_compare) (v : IsConsistent netip ci) where
    prefixes-IsOrder : IsOrder (subnet_order netip)
    prefixes-IsOrder = subnet_compare-IsOrder netip.addr_compare order

    -- The keys of the map are the subnets of the clients.
    key_of_subnet :
        (u : ℕ) (c : Persistent) (p : Prefix)
        → lookup u ci.uid_to_client ≡ some c
        → mem p c.subnets ≡ true
        → mem p ci.subnet_to_uid.keys ≡ true
    key_of_subnet u c p there has =
        ground (arith, v.in_order.domain p, v.subnets.known u c p there has)

    unknown_ip : (ip : Addr) → lookup ip ci.ip_to_uid ≡ none → IsUnknownIp ip
    unknown_ip ip nobody u c there = elim (Bool-cases (mem ip c.ips)) [
      | inl has ↦ absurd (ground (arith, nobody, v.ips.known u c ip there has))
      | inr other ↦ other
    ]

    subnet-IsFoundByIp :
        (ip : Addr) → lookup ip ci.ip_to_uid ≡ none → IsFoundByIp ip (find_by_ip netip ip ci)
    unfolding find_by_ip client_of
    subnet-IsFoundByIp ip nobody =
        let stops : Prefix → Bool = λ p. netip.contains p (without_zone ip) in
        let keys = ci.subnet_to_uid.keys in
        elim (Option-cases (first_key stops keys)) [
          | inl nothing ↦
              let out : find_by_ip netip ip ci ≡ none = ground (arith, nobody, nothing) in
              subst (IsFoundByIp ip) (sym out) (
                unknown_ip ip nobody,
                λ u c p there has.
                    first_key-none (subnet_order netip) prefixes-IsOrder stops keys p nothing
                      (key_of_subnet u c p there has),
              )
          | inr (p, found) ↦
              let (among, hit) =
                first_key-mem (subnet_order netip) prefixes-IsOrder stops keys p found in
              elim (Option-cases (get p ci.subnet_to_uid)) [
                | inl missing ↦ absurd (ground (arith, v.in_order.domain p, missing, among))
                | inr (u, taken) ↦
                    let (c, there, has) = v.subnets.owned p u taken in
                    let (uid, _, _) = v.uids u c there in
                    let out : find_by_ip netip ip ci ≡ some (some c) =
                      ground (arith, nobody, found, taken, there) in
                    subst (IsFoundByIp ip) (sym out) (
                      ap (λ x. lookup x ci.uid_to_client) uid ∙ there,
                      inr (
                        unknown_ip ip nobody,
                        p,
                        record {
                          among = has;
                          has = hit;
                          narrowest = λ w d q at owns inside. bits_of_order netip p q (
                              first_key-least (subnet_order netip) prefixes-IsOrder stops keys p q
                                v.in_order.sorted found (key_of_subnet w d q at owns) inside);
                        },
                      ),
                    )
              ]
        ]

    -- In a consistent index, a search for an address finds the client that has the address; where no
    -- client does, it finds a client with the longest prefix among all clients' subnets that contain
    -- the address without its zone; and it finds nothing only if there is no such subnet.
    -- The comparison of addresses must be a strict total order.
    pub find_by_ip-IsFoundByIp : (ip : Addr) → IsFoundByIp ip (find_by_ip netip ip ci)
    unfolding find_by_ip client_of
    find_by_ip-IsFoundByIp ip = elim (Option-cases (lookup ip ci.ip_to_uid)) [
      | inl nobody ↦ subnet-IsFoundByIp ip nobody
      | inr (u, taken) ↦
          let (c, there, has) = v.ips.owned ip u taken in
          let (uid, _, _) = v.uids u c there in
          let out : find_by_ip netip ip ci ≡ some (some c) = ground (arith, taken, there) in
          subst (IsFoundByIp ip) (sym out)
            (ap (λ x. lookup x ci.uid_to_client) uid ∙ there, inl has)
    ]
