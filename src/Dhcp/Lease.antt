-- ===== src/Dhcp/Lease.antt =====
-- internal/dhcpsvc/lease.go and interface.go: a lease, and the leases of one network interface.
use null_private.Prelude.{
  ℕ, String, ◌≡◌, refl, ◌↔◌, ◌⊎◌, inl, inr, Bool, true, false, ◌&&◌, ◌||◌, none, some, List, [],
  arith, length, ◌==◌ as nat_eqb, str_eq, eq_iff, if◌then◌else◌,
}
use null_private.Prelude.Map.{Eq, Map, lookup, insert, delete, bytes_eq}

-- A `netip.Addr`. Only its equality is used of it here.
pub data Addr : Type 0 where
  zero_addr : Addr
  v4 : ℕ → Addr
  v6 : ℕ → String → Addr

abbrev pub addr_beq : Addr → Addr → Bool
addr_beq zero_addr zero_addr = true
addr_beq (v4 a) (v4 b) = nat_eqb a b
addr_beq (v6 a z) (v6 b y) = nat_eqb a b && str_eq z y
addr_beq _ _ = false

pub addr_beq_iff : (a b : Addr) → (addr_beq a b ≡ true) ↔ (a ≡ b)
addr_beq_iff zero_addr b = ground arith
addr_beq_iff (v4 a) b = ground arith
addr_beq_iff (v6 a z) zero_addr = ground arith
addr_beq_iff (v6 a z) (v4 b) = ground arith
addr_beq_iff (v6 a z) (v6 b y) = ground (arith, eq_iff z y)

instance abbrev pub addr_eq : Eq Addr
addr_eq = record { beq = addr_beq; beq_iff = addr_beq_iff }

-- A hardware address is its bytes, an expiry its count of nanoseconds.
pub record Lease : Type 0 where
  pub ip : Addr
  pub expiry : ℕ
  pub hostname : String
  pub hw_addr : List ℕ
  pub is_static : Bool

pub data LeaseError : Type 0 where
  ip_exists hostname_exists mac_exists no_ip no_hostname no_mac no_interface : LeaseError

pub data Result (A : Type 0) : Type 0 where
  ok : A → Result A
  err : LeaseError → Result A
  panic : Result A

pub Result-cases :
    {A : Type 0} (r : Result A)
    → ((a : A) × (r ≡ ok a)) ⊎ (((e : LeaseError) × (r ≡ err e)) ⊎ (r ≡ panic))
Result-cases (ok a) = inl (a, refl)
Result-cases (err e) = inr (inl (e, refl))
Result-cases panic = inr (inr refl)

infixl 5 ◌>>=◌
abbrev pub ◌>>=◌ : {A B : Type 0} → Result A → (A → Result B) → Result B
ok a >>= f = f a
err e >>= f = err e
panic >>= f = panic

-- `macToKey`: the key of an address is its bytes, and other lengths panic.
unfoldable pub mac_to_key : List ℕ → Result (List ℕ)
mac_to_key mac =
    let n = length mac in if nat_eqb n 6 || nat_eqb n 8 || nat_eqb n 20 then ok mac else panic

-- `netInterface`
pub record NetInterface : Type 0 where
  pub leases : Map (List ℕ) Lease
  pub name : String
  pub lease_ttl : ℕ

unfoldable pub reset : NetInterface → NetInterface
reset iface = record iface { leases = [] }

unfoldable pub add_lease : Lease → NetInterface → Result NetInterface
unfolding mac_to_key
add_lease l iface = do
  mk ← mac_to_key l.hw_addr
  elim (lookup mk iface.leases) [
    | some _ ↦ err mac_exists
    | none ↦ ok (record iface { leases = insert mk l iface.leases })
  ]

-- The interface after the call, and the lease that was replaced.
unfoldable pub update_lease : Lease → NetInterface → Result (NetInterface × Lease)
unfolding mac_to_key
update_lease l iface = do
  mk ← mac_to_key l.hw_addr
  elim (lookup mk iface.leases) [
    | none ↦ err no_mac
    | some prev ↦ ok (record iface { leases = insert mk l iface.leases }, prev)
  ]

unfoldable pub remove_lease : Lease → NetInterface → Result NetInterface
unfolding mac_to_key
remove_lease l iface = do
  mk ← mac_to_key l.hw_addr
  elim (lookup mk iface.leases) [
    | none ↦ err no_mac
    | some _ ↦ ok (record iface { leases = delete mk iface.leases })
  ]
