-- ===== src/Client/Index.antt =====
-- internal/client/index.go: the persistent clients, and the maps from each kind of identifier to the
-- UID of its client. Calls that read nothing but pointers return `none` for a nil client.
pub mod Owners
pub mod Keeps
pub mod Clashes
pub mod Finds
use Prim.Native.Nat.{Ordering}
use null_private.Prelude.{
  ℕ, String, Bool, true, false, not, ◌&&◌, ◌||◌, Option, none, some, List, [], ◌∷◌, ◌==◌ as nat_eqb,
  length, if◌then◌else◌,
}
use null_private.Prelude.Map.{Eq, Map, lookup, insert, delete, ◌==◌, string_eq, number_eq, bytes_eq}
use null_private.Dhcp.Lease.{Addr, zero_addr, v4, v6, addr_eq}
use null_private.Aghalg.SortedMap.{SortedMap, new_sorted_map, set, get, del, first_key}
use null_private.Client.Persistent.{
  Prefix, prefix_eq, subnet_compare, Persistent, ClientError, same_uid, same_name, same_client_id,
  same_ip, same_subnet, same_mac, Result, ok, err, panic, ◌>>=◌, is_mac, all_macs,
}

-- What the code calls of `netip`: `Addr.Compare` and `Prefix.Contains`.
pub record Netip : Type 0 where
  pub addr_compare : Addr → Addr → Ordering
  pub contains : Prefix → Addr → Bool

pub record Index : Type 0 where
  pub name_to_uid : Map String ℕ
  pub client_id_to_uid : Map String ℕ
  pub ip_to_uid : Map Addr ℕ
  pub subnet_to_uid : SortedMap Prefix ℕ
  pub mac_to_uid : Map (List ℕ) ℕ
  pub uid_to_client : Map ℕ Persistent

abbrev pub new_index : Index
new_index = record {
  name_to_uid = [];
  client_id_to_uid = [];
  ip_to_uid = [];
  subnet_to_uid = new_sorted_map;
  mac_to_uid = [];
  uid_to_client = [];
}

-- The loops of `add` and `remove` over the identifiers of one kind.
module _ {K : Type 0} ⦃e : Eq K⦄ where
  unfoldable pub insert_all : List K → ℕ → Map K ℕ → Map K ℕ
  insert_all [] uid m = m
  insert_all (k ∷ ks) uid m = insert_all ks uid (insert k uid m)

  unfoldable pub delete_all : List K → Map K ℕ → Map K ℕ
  delete_all [] m = m
  delete_all (k ∷ ks) m = delete_all ks (delete k m)

  -- The first of the identifiers that another client has, as that client's UID.
  unfoldable pub first_other : ℕ → List K → (K → Option ℕ) → Option ℕ
  first_other uid [] f = none
  first_other uid (k ∷ ks) f =
      let later = first_other uid ks f in
      elim (f k) [ none ↦ later | some u ↦ if nat_eqb u uid then later else some u ]

abbrev pub without_zone : Addr → Addr
without_zone (v6 a z) = v6 a ""
without_zone a = a

-- A value that is missing reads as the zero UID.
abbrev pub uid_or_zero : Option ℕ → ℕ
uid_or_zero none = 0
uid_or_zero (some u) = u

-- The client of a UID, or nil.
unfoldable pub client_of : ℕ → Index → Option Persistent
client_of uid ci = lookup uid ci.uid_to_client

-- The results of the `find` functions: `none` is not found, and `some none` found and nil.
abbrev pub found_as : Index → Option ℕ → Option (Option Persistent)
found_as ci none = none
found_as ci (some uid) = some (client_of uid ci)

unfoldable pub find_by_client_id : String → Index → Option (Option Persistent)
find_by_client_id id ci = found_as ci (lookup id ci.client_id_to_uid)

unfoldable pub find_by_name : String → Index → Option (Option Persistent)
find_by_name name ci = found_as ci (lookup name ci.name_to_uid)

-- The UID of a subnet at which `Range` stops.
abbrev pub subnet_uid : Index → Option Prefix → Option ℕ
subnet_uid ci none = none
subnet_uid ci (some p) = some (uid_or_zero (get p ci.subnet_to_uid))

unfoldable pub find_by_cidr : Prefix → Index → Option (Option Persistent)
find_by_cidr subnet ci =
    found_as ci (subnet_uid ci (first_key (λ p. subnet == p) ci.subnet_to_uid.keys))

-- A panic where the hardware address has no key.
unfoldable pub find_by_mac : List ℕ → Index → Result (Option (Option Persistent))
find_by_mac mac ci = if is_mac mac then ok (found_as ci (lookup mac ci.mac_to_uid)) else panic

unfoldable pub size : Index → ℕ
size ci = length ci.uid_to_client

module _ (netip : Netip) where
  abbrev pub subnet_order : Prefix → Prefix → Ordering
  subnet_order = subnet_compare netip.addr_compare

  unfoldable pub find_by_ip : Addr → Index → Option (Option Persistent)
  find_by_ip ip ci = elim (lookup ip ci.ip_to_uid) [
    | some uid ↦ some (client_of uid ci)
    | none ↦
        found_as ci (
          subnet_uid ci (first_key (λ p. netip.contains p (without_zone ip)) ci.subnet_to_uid.keys))
  ]

  unfoldable pub set_all : List Prefix → ℕ → SortedMap Prefix ℕ → SortedMap Prefix ℕ
  set_all [] uid m = m
  set_all (p ∷ ps) uid m = set_all ps uid (set subnet_order p uid m)

  unfoldable pub del_all : List Prefix → SortedMap Prefix ℕ → Option (SortedMap Prefix ℕ)
  del_all [] m = some m
  del_all (p ∷ ps) m = elim (del subnet_order p m) [ none ↦ none | some m' ↦ del_all ps m' ]

  -- The index with the client and its identifiers entered.
  abbrev pub with_client : Persistent → Index → Index
  with_client c ci = record {
    name_to_uid = insert c.name c.uid ci.name_to_uid;
    client_id_to_uid = insert_all c.client_ids c.uid ci.client_id_to_uid;
    ip_to_uid = insert_all c.ips c.uid ci.ip_to_uid;
    subnet_to_uid = set_all c.subnets c.uid ci.subnet_to_uid;
    mac_to_uid = insert_all c.macs c.uid ci.mac_to_uid;
    uid_to_client = insert c.uid c ci.uid_to_client;
  }

  unfoldable pub add_client : Persistent → Index → Result Index
  add_client c ci =
      if nat_eqb c.uid 0 || not (all_macs c.macs) then panic else ok (with_client c ci)

  unfoldable pub remove_client : Persistent → Index → Result Index
  remove_client c ci = elim (del_all c.subnets ci.subnet_to_uid) [
    | none ↦ panic
    | some subnets ↦
        if all_macs c.macs
        then ok (record {
          name_to_uid = delete c.name ci.name_to_uid;
          client_id_to_uid = delete_all c.client_ids ci.client_id_to_uid;
          ip_to_uid = delete_all c.ips ci.ip_to_uid;
          subnet_to_uid = subnets;
          mac_to_uid = delete_all c.macs ci.mac_to_uid;
          uid_to_client = delete c.uid ci.uid_to_client;
        })
        else panic
  ]

unfoldable pub clashes_uid : Persistent → Index → Result (Unit {0})
clashes_uid c ci = elim (client_of c.uid ci) [ some p ↦ err (same_uid p.name) | none ↦ ok tt ]

-- The end of each of the loops: `p` is nil where the map names a UID without client, which is no clash
-- except where its name is read at once.
abbrev pub clash_with :
    (String → ClientError) → Result (Unit {0}) → Option (Option Persistent) → Result (Unit {0})
clash_with e nil_client none = ok tt
clash_with e nil_client (some none) = nil_client
clash_with e nil_client (some (some p)) = err (e p.name)

unfoldable pub clashes_name : Persistent → Index → Result (Unit {0})
clashes_name c ci = elim (find_by_name c.name ci) [
  | none ↦ ok tt
  | some none ↦ panic
  | some (some p) ↦ if nat_eqb p.uid c.uid then ok tt else err (same_name p.name)
]

-- The value of a subnet that `Range` finds among the keys.
abbrev pub subnet_value : Index → Prefix → Option ℕ
subnet_value ci s = subnet_uid ci (first_key (λ p. s == p) ci.subnet_to_uid.keys)

-- The loop of `clashesMAC`, with its panic.
unfoldable pub clashes_mac : Persistent → List (List ℕ) → Index → Result (Unit {0})
clashes_mac c [] ci = ok tt
clashes_mac c (mac ∷ macs) ci =
    let later = clashes_mac c macs ci in
    if is_mac mac
    then elim (lookup mac ci.mac_to_uid) [
      | none ↦ later
      | some u ↦
          if nat_eqb u c.uid then later else clash_with same_mac (ok tt) (some (client_of u ci))
    ]
    else panic

unfoldable pub clashes : Persistent → Index → Result (Unit {0})
clashes c ci = do
  _ ← clashes_name c ci
  _ ←
      clash_with same_client_id panic
        (found_as ci (first_other c.uid c.client_ids (λ k. lookup k ci.client_id_to_uid)))
  _ ←
      clash_with same_ip (ok tt)
        (found_as ci (first_other c.uid c.ips (λ k. lookup k ci.ip_to_uid)))
  _ ← clash_with same_subnet (ok tt) (found_as ci (first_other c.uid c.subnets (subnet_value ci)))
  clashes_mac c c.macs ci
