-- ===== src/Client/Persistent.antt =====
-- internal/client/persistent.go: a client of the configuration and its identifiers. Prefixes and
-- addresses are those of `netip`, whose comparison is a parameter.
use Prim.Native.Nat.{Ordering}
use Prim.Native.Nat.Ordering.{lt, eq, gt}
use null_private.Prelude.{
  ℕ, ◌+◌, String, ◌≡◌, refl, ◌↔◌, ◌⊎◌, inl, inr, Bool, true, not, ◌&&◌, ◌||◌, Option, none, some,
  List, [], ◌∷◌, ◌++◌, arith, length, ltb, ◌==◌ as nat_eqb, str_eq, elem, if◌then◌else◌,
}
use null_private.Prelude.Map.{Eq}
use null_private.Dhcp.Lease.{Addr, addr_beq, addr_beq_iff}
use null_private.Aghalg.SortedMap.{IsOrder}

-- `netip.Prefix`
pub record Prefix : Type 0 where
  pub addr : Addr
  pub bits : ℕ

abbrev pub prefix_beq : Prefix → Prefix → Bool
prefix_beq p q = addr_beq p.addr q.addr && nat_eqb p.bits q.bits

pub prefix_beq_iff : (p q : Prefix) → (prefix_beq p q ≡ true) ↔ (p ≡ q)
prefix_beq_iff p q = ground (arith, addr_beq_iff p.addr q.addr)

instance abbrev pub prefix_eq : Eq Prefix
prefix_eq = record { beq = prefix_beq; beq_iff = prefix_beq_iff }

-- `subnetCompare`: longer prefixes first
unfoldable pub subnet_compare : (Addr → Addr → Ordering) → Prefix → Prefix → Ordering
subnet_compare addr_compare x y =
    if prefix_beq x y
    then eq
    else if nat_eqb x.bits y.bits
    then addr_compare x.addr y.addr
    else if ltb y.bits x.bits
    then lt
    else gt

pub subnet_compare-IsOrder :
    (addr_compare : Addr → Addr → Ordering)
    → IsOrder addr_compare
    → IsOrder (subnet_compare addr_compare)
unfolding subnet_compare
subnet_compare-IsOrder addr_compare o = record {
  zero_iff = λ a b. ground (arith, prefix_beq_iff a b, o.zero_iff a.addr b.addr);
  turned_iff = λ a b. (
    ground (arith, prefix_beq_iff a b, prefix_beq_iff b a, (o.turned_iff a.addr b.addr).0),
    ground (arith, prefix_beq_iff a b, prefix_beq_iff b a, (o.turned_iff a.addr b.addr).1),
  );
  chained = λ a b c. ground (
    arith,
    prefix_beq_iff a b,
    prefix_beq_iff b c,
    prefix_beq_iff a c,
    o.chained a.addr b.addr c.addr,
    (o.turned_iff a.addr b.addr).0,
    (o.zero_iff a.addr a.addr).1 refl,
  );
}

-- What identifies a client, and the settings that `validate` reads. The UID 0 is Go's zero UID. A
-- hardware address is its bytes.
pub record Persistent : Type 0 where
  pub name : String
  pub tags : List String
  pub upstreams : List String
  pub ips : List Addr
  pub subnets : List Prefix
  pub macs : List (List ℕ)
  pub client_ids : List String
  pub uid : ℕ

unfoldable pub identifiers_len : Persistent → ℕ
identifiers_len c = length c.ips + length c.subnets + length c.macs + length c.client_ids

pub data ClientError : Type 0 where
  empty_name id_required uid_required invalid_upstreams not_found : ClientError
  invalid_tag : String → ClientError
  same_uid same_name same_client_id same_ip same_subnet same_mac : String → ClientError

-- How a call ends; a panic is a nil dereference, or a hardware address of a length that has no key.
pub data Result (A : Type 0) : Type 0 where
  ok : A → Result A
  err : ClientError → Result A
  panic : Result A

infixl 5 ◌>>=◌
abbrev pub ◌>>=◌ : {A B : Type 0} → Result A → (A → Result B) → Result B
ok a >>= f = f a
err e >>= f = err e
panic >>= f = panic

pub Result-cases :
    {A : Type 0} (r : Result A)
    → ((a : A) × (r ≡ ok a)) ⊎ (((e : ClientError) × (r ≡ err e)) ⊎ (r ≡ panic))
Result-cases (ok a) = inl (a, refl)
Result-cases (err e) = inr (inl (e, refl))
Result-cases panic = inr (inr refl)

-- What `validate` calls: the parser of upstreams, `slices.Sort` on texts.
pub record Checks : Type 0 where
  pub upstreams_valid : List String → Bool
  pub sort : List String → List String
  pub allowed_tags : List String

-- The first tag that is not allowed. The allowed tags are sorted, so that the binary search finds each.
unfoldable pub bad_tag : List String → List String → Option String
bad_tag allowed [] = none
bad_tag allowed (t ∷ ts) =
    let later = bad_tag allowed ts in if elem t allowed then later else some t

unfoldable pub validate_client : Checks → Persistent → Result Persistent
unfolding identifiers_len bad_tag
validate_client checks c =
    if str_eq c.name ""
    then err empty_name
    else if nat_eqb (identifiers_len c) 0
    then err id_required
    else if nat_eqb c.uid 0
    then err uid_required
    else if not (checks.upstreams_valid c.upstreams)
    then err invalid_upstreams
    else elim (bad_tag checks.allowed_tags c.tags) [
      | some t ↦ err (invalid_tag t)
      | none ↦ ok (record c { tags = checks.sort c.tags })
    ]

-- `macToKey` turns the bytes into an array, and panics on other lengths.
abbrev pub is_mac : List ℕ → Bool
is_mac mac = nat_eqb (length mac) 6 || nat_eqb (length mac) 8 || nat_eqb (length mac) 20

abbrev pub all_macs : List (List ℕ) → Bool
all_macs [] = true
all_macs (mac ∷ macs) = is_mac mac && all_macs macs

-- What `SetIDs` calls of the parsers, each with its error as `none`, and `strings.ToLower`.
pub record IdFormats : Type 0 where
  pub parse_addr : String → Option Addr
  pub parse_prefix : String → Option Prefix
  pub parse_mac : String → Option (List ℕ)
  pub valid_client_id : String → Bool
  pub lower : String → String

-- The forms are tried in this order. `none` is an error.
unfoldable pub set_id : IdFormats → String → Persistent → Option Persistent
set_id f id c = if str_eq id "" then none else elim (f.parse_addr id) [
  | some ip ↦ some (record c { ips = c.ips ++ (ip ∷ []) })
  | none ↦ elim (f.parse_prefix id) [
    | some subnet ↦ some (record c { subnets = c.subnets ++ (subnet ∷ []) })
    | none ↦ elim (f.parse_mac id) [
      | some mac ↦ some (record c { macs = c.macs ++ (mac ∷ []) })
      | none ↦
          if f.valid_client_id id
          then some (record c { client_ids = c.client_ids ++ (f.lower id ∷ []) })
          else none
    ]
  ]
]
