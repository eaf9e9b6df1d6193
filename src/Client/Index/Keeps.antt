-- ===== src/Client/Index/Keeps.antt =====
-- The index agrees with its clients, before and after a client is added or removed.
use null_private.Prelude.{
  ℕ, String, ◌≡◌, refl, sym, ap, subst, ◌∙◌, true, false, none, some, List, [], ◌∷◌, arith,
  if◌then◌else◌, inl, inr, Bool-cases, ◌==◌ as nat_eqb,
}
use null_private.Prelude.Map.{
  Map, mem, lookup, insert, delete, number_eq, string_eq, bytes_eq, lookup-insert, lookup-delete,
}
use null_private.Dhcp.Lease.{Addr, addr_eq}
use null_private.Aghalg.SortedMap.{IsOrder, get}
use null_private.Aghalg.SortedMap.Laws.{IsSortedMap, new-IsSortedMap}
use null_private.Client.Persistent.{Prefix, prefix_eq, Persistent, ok, all_macs}
use null_private.Client.Index.{
  Netip, Index, new_index, delete_all, subnet_order, with_client, add_client, remove_client,
}
use null_private.Client.Index.Owners.{
  Owns, Owns_nil, Owns-insert, Owns-delete, lookup-insert_all, lookup-delete_all, set_all-IsSubnets,
  get-set_all, del_all-IsSubnets,
}

abbrev pub names_of : Persistent → List String
names_of c = c.name ∷ []

abbrev pub ids_of : Persistent → List String
ids_of c = c.client_ids

abbrev pub ips_of : Persistent → List Addr
ips_of c = c.ips

abbrev pub subnets_of : Persistent → List Prefix
subnets_of c = c.subnets

abbrev pub macs_of : Persistent → List (List ℕ)
macs_of c = c.macs

-- Each map names for each identifier of its kind the one client that has it; every client stands under
-- its UID, and its hardware addresses have keys.
pub record IsConsistent (netip : Netip) (ci : Index) : Type 0 where
  pub names : Owns names_of (λ k. lookup k ci.name_to_uid) ci.uid_to_client
  pub client_ids : Owns ids_of (λ k. lookup k ci.client_id_to_uid) ci.uid_to_client
  pub ips : Owns ips_of (λ k. lookup k ci.ip_to_uid) ci.uid_to_client
  pub subnets : Owns subnets_of (λ k. get k ci.subnet_to_uid) ci.uid_to_client
  pub macs : Owns macs_of (λ k. lookup k ci.mac_to_uid) ci.uid_to_client
  pub in_order : IsSortedMap (subnet_order netip) ci.subnet_to_uid
  pub uids :
      (u : ℕ) (c : Persistent)
      → lookup u ci.uid_to_client ≡ some c
      → (c.uid ≡ u) × (all_macs c.macs ≡ true) × (nat_eqb c.uid 0 ≡ false)

-- No client has an identifier of `c`.
pub record IsFree (c : Persistent) (ci : Index) : Type 0 where
  pub names : (k : String) → mem k (names_of c) ≡ true → lookup k ci.name_to_uid ≡ none
  pub client_ids : (k : String) → mem k c.client_ids ≡ true → lookup k ci.client_id_to_uid ≡ none
  pub ips : (k : Addr) → mem k c.ips ≡ true → lookup k ci.ip_to_uid ≡ none
  pub subnets : (k : Prefix) → mem k c.subnets ≡ true → get k ci.subnet_to_uid ≡ none
  pub macs : (k : List ℕ) → mem k c.macs ≡ true → lookup k ci.mac_to_uid ≡ none

lookup-insert_name :
    (j k : String) (u : ℕ) (m : Map String ℕ)
    → lookup j (insert k u m) ≡ (if mem j (k ∷ []) then some u else lookup j m)
lookup-insert_name j k u m = ground (arith, lookup-insert k j u m)

lookup-delete_name :
    (j k : String) (m : Map String ℕ)
    → lookup j (delete k m) ≡ (if mem j (k ∷ []) then none else lookup j m)
lookup-delete_name j k m = ground (arith, lookup-delete k j m)

module _ (netip : Netip) (order : IsOrder netip.addr_compare) (ci : Index)
    (v : IsConsistent netip ci) where
  -- A client with a UID and identifiers that are new leaves the index consistent.
  pub add_client-IsConsistent :
      (c : Persistent) (ci' : Index)
      → IsFree c ci
      → lookup c.uid ci.uid_to_client ≡ none
      → add_client netip c ci ≡ ok ci'
      → IsConsistent netip ci'
  unfolding add_client
  add_client-IsConsistent c ci' free new e =
      let result : ci' ≡ with_client netip c ci = ground (arith, e) in
      let valid : all_macs c.macs ≡ true = ground (arith, e) in
      let real : nat_eqb c.uid 0 ≡ false = ground (arith, e) in
      subst (IsConsistent netip) (sym result) (record {
        names =
            Owns-insert names_of _ _ ci.uid_to_client c.uid c v.names new free.names
              (λ k. lookup-insert_name k c.name c.uid ci.name_to_uid);
        client_ids =
            Owns-insert ids_of _ _ ci.uid_to_client c.uid c v.client_ids new free.client_ids
              (λ k. lookup-insert_all k c.client_ids c.uid ci.client_id_to_uid);
        ips =
            Owns-insert ips_of _ _ ci.uid_to_client c.uid c v.ips new free.ips
              (λ k. lookup-insert_all k c.ips c.uid ci.ip_to_uid);
        subnets =
            Owns-insert subnets_of _ _ ci.uid_to_client c.uid c v.subnets new free.subnets
              (λ k. get-set_all netip order c.subnets c.uid ci.subnet_to_uid k v.in_order);
        macs =
            Owns-insert macs_of _ _ ci.uid_to_client c.uid c v.macs new free.macs
              (λ k. lookup-insert_all k c.macs c.uid ci.mac_to_uid);
        in_order = set_all-IsSubnets netip order c.subnets c.uid ci.subnet_to_uid v.in_order;
        uids = λ u d h. elim (Bool-cases (nat_eqb c.uid u)) [
          | inl same ↦
              let d_is : d ≡ c =
                ground (arith, same, h, lookup-insert c.uid u c ci.uid_to_client) in
              (
                ap (λ x. x.uid) d_is ∙ (number_eq.beq_iff c.uid u).0 same,
                ap (λ x. all_macs x.macs) d_is ∙ valid,
                ap (λ x. nat_eqb x.uid 0) d_is ∙ real,
              )
          | inr apart ↦
              v.uids u d (ground (arith, apart, h, lookup-insert c.uid u c ci.uid_to_client))
        ];
      })

  -- A client of a consistent index is removed without a panic; the index stays consistent, and the
  -- client's identifiers name nobody.
  pub remove_client-IsConsistent :
      (c : Persistent)
      → lookup c.uid ci.uid_to_client ≡ some c
      → (ci' : Index) × (remove_client netip c ci ≡ ok ci')
        × IsConsistent netip ci'
        × (ci'.uid_to_client ≡ delete c.uid ci.uid_to_client)
        × ((k : String)
            → lookup k ci'.name_to_uid
              ≡ (if mem k (names_of c) then none else lookup k ci.name_to_uid))
        × ((k : String)
            → lookup k ci'.client_id_to_uid
              ≡ (if mem k c.client_ids then none else lookup k ci.client_id_to_uid))
        × ((k : Addr)
            → lookup k ci'.ip_to_uid ≡ (if mem k c.ips then none else lookup k ci.ip_to_uid))
        × ((k : Prefix)
            → get k ci'.subnet_to_uid ≡ (if mem k c.subnets then none else get k ci.subnet_to_uid))
        × ((k : List ℕ)
            → lookup k ci'.mac_to_uid ≡ (if mem k c.macs then none else lookup k ci.mac_to_uid))
  unfolding remove_client
  remove_client-IsConsistent c there =
      let (subnets, dels, subnets_ok, gets) =
        del_all-IsSubnets netip order c.subnets ci.subnet_to_uid v.in_order in
      let (_, valid, _) = v.uids c.uid c there in
      let name_gone = λ (k : String). lookup-delete_name k c.name ci.name_to_uid in
      let id_gone = λ (k : String). lookup-delete_all k c.client_ids ci.client_id_to_uid in
      let ip_gone = λ (k : Addr). lookup-delete_all k c.ips ci.ip_to_uid in
      let mac_gone = λ (k : List ℕ). lookup-delete_all k c.macs ci.mac_to_uid in
      (
        record {
          name_to_uid = delete c.name ci.name_to_uid;
          client_id_to_uid = delete_all c.client_ids ci.client_id_to_uid;
          ip_to_uid = delete_all c.ips ci.ip_to_uid;
          subnet_to_uid = subnets;
          mac_to_uid = delete_all c.macs ci.mac_to_uid;
          uid_to_client = delete c.uid ci.uid_to_client;
        },
        ground (arith, dels, valid),
        record {
          names = Owns-delete names_of _ _ ci.uid_to_client c.uid c v.names there name_gone;
          client_ids = Owns-delete ids_of _ _ ci.uid_to_client c.uid c v.client_ids there id_gone;
          ips = Owns-delete ips_of _ _ ci.uid_to_client c.uid c v.ips there ip_gone;
          subnets = Owns-delete subnets_of _ _ ci.uid_to_client c.uid c v.subnets there gets;
          macs = Owns-delete macs_of _ _ ci.uid_to_client c.uid c v.macs there mac_gone;
          in_order = subnets_ok;
          uids = λ u d h. v.uids u d (ground (arith, h, lookup-delete c.uid u ci.uid_to_client));
        },
        refl,
        name_gone,
        id_gone,
        ip_gone,
        gets,
        mac_gone,
      )

pub new_index-IsConsistent : (netip : Netip) → IsConsistent netip new_index
unfolding get lookup
new_index-IsConsistent netip = record {
  names = Owns_nil names_of;
  client_ids = Owns_nil ids_of;
  ips = Owns_nil ips_of;
  subnets = Owns_nil subnets_of;
  macs = Owns_nil macs_of;
  in_order = new-IsSortedMap (subnet_order netip);
  uids = λ u c h. absurd (ground (arith, h));
}
