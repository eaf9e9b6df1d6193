-- ===== src/Dhcp/Examples.antt =====
-- A server with a lease, and what is done to it.
use null_private.Prelude.{ℕ, String, ◌≡◌, refl, true, none, some, List, [], ◌∷◌, arith}
use null_private.Prelude.Map.{lookup, insert, delete, string_eq}
use null_private.Dhcp.Lease.{v4, addr_eq, Lease, NetInterface, ok}
use null_private.Dhcp.Index.{
  LeaseIndex, empty_index, add, remove, update, lease_by_addr, lease_by_name,
}
use null_private.Dhcp.Index.Keeps.{IsConsistent, add-IsConsistent, update-IsConsistent}
use null_private.Dhcp.Index.Reads.{lease-update, update-takes_name}
use null_private.Dhcp.Server.{DhcpServer, Stored, on_iface, add_lease_to, remove_lease_from}

-- host names that are in lower case already
abbrev lower₀ : String → String
lower₀ s = s

abbrev mac₀ : List ℕ
mac₀ = 1 ∷ 2 ∷ 3 ∷ 4 ∷ 5 ∷ 6 ∷ []

abbrev host₀ : Lease
host₀ = record { ip = v4 10; expiry = 0; hostname = "host"; hw_addr = mac₀; is_static = true }

-- the lease of the same device with another address and host name
abbrev moved₀ : Lease
moved₀ = record { ip = v4 20; expiry = 0; hostname = "moved"; hw_addr = mac₀; is_static = true }

abbrev iface₀ : NetInterface
iface₀ = record { leases = []; name = "eth0"; lease_ttl = 60 }

abbrev index_of : Lease → LeaseIndex
index_of l = record { by_addr = (l.ip, l) ∷ []; by_name = (l.hostname, l) ∷ [] }

abbrev iface_of : Lease → NetInterface
iface_of l = record { leases = (l.hw_addr, l) ∷ []; name = "eth0"; lease_ttl = 60 }

empty-IsConsistent : IsConsistent lower₀ empty_index iface₀
unfolding lookup
empty-IsConsistent = record {
  addr_name = λ k v h. absurd (ground arith);
  addr_mac = λ k v h. absurd (ground arith);
  name_addr = λ k v h. absurd (ground arith);
  mac_addr = λ k v h. absurd (ground arith);
}

add₀ : add lower₀ host₀ (empty_index, iface₀) ≡ ok (index_of host₀, iface_of host₀)
unfolding add lookup insert
add₀ = refl

-- what `add-IsConsistent` shows of the index with the one lease
one-IsConsistent : IsConsistent lower₀ (index_of host₀) (iface_of host₀)
one-IsConsistent =
    add-IsConsistent lower₀ host₀ empty_index iface₀ (index_of host₀, iface_of host₀)
      empty-IsConsistent add₀

remove₀ : remove lower₀ host₀ (index_of host₀, iface_of host₀) ≡ ok (empty_index, iface₀)
unfolding remove lookup delete
remove₀ = refl

update₀ :
    update lower₀ moved₀ (index_of host₀, iface_of host₀) ≡ ok (index_of moved₀, iface_of moved₀)
unfolding update lookup insert delete
update₀ = refl

update-IsConsistent_example : IsConsistent lower₀ (index_of moved₀) (iface_of moved₀)
update-IsConsistent_example =
    update-IsConsistent lower₀ moved₀ (index_of host₀) (iface_of host₀)
      (index_of moved₀, iface_of moved₀) one-IsConsistent update₀

lease-update_example :
    (lease_by_addr (index_of moved₀) (v4 10) ≡ none)
    × (lease_by_name lower₀ (index_of moved₀) "moved" ≡ some moved₀)
unfolding lookup
lease-update_example =
    lease-update lower₀ moved₀ (index_of host₀) (iface_of host₀) host₀
      (index_of moved₀, iface_of moved₀) (v4 10) "moved" refl update₀

-- `host₀` on one interface and `guest₀`, of the same device, on another
abbrev guest₀ : Lease
guest₀ = record { ip = v4 30; expiry = 0; hostname = "guest"; hw_addr = mac₀; is_static = true }

abbrev renamed₀ : Lease
renamed₀ = record { ip = v4 10; expiry = 0; hostname = "guest"; hw_addr = mac₀; is_static = true }

abbrev both : LeaseIndex
both = record {
  by_addr = (v4 10, host₀) ∷ (v4 30, guest₀) ∷ [];
  by_name = ("host", host₀) ∷ ("guest", guest₀) ∷ [];
}

update-takes_name_example :
    (s' : LeaseIndex × NetInterface) × (update lower₀ renamed₀ (both, iface_of host₀) ≡ ok s')
    × (lease_by_addr s'.0 (v4 30) ≡ some guest₀)
    × (lease_by_name lower₀ s'.0 "guest" ≡ some renamed₀)
unfolding lookup
update-takes_name_example =
    update-takes_name lower₀ renamed₀ both (iface_of host₀) host₀ guest₀ refl refl refl refl refl
      refl (λ e. ground (arith, e)) (λ e. ground (arith, e)) refl

abbrev server_of : LeaseIndex → NetInterface → DhcpServer
server_of idx iface = record {
  leases = idx;
  interfaces4 = record { contains = λ a. true; common = iface } ∷ [];
  interfaces6 = [];
}

abbrev stored_of : LeaseIndex → NetInterface → Stored
stored_of idx iface = record { server = server_of idx iface; written = true }

add_lease₀ :
    add_lease_to (λ srv. true) lower₀ host₀ (server_of empty_index iface₀)
    ≡ ok (stored_of (index_of host₀) (iface_of host₀))
unfolding add_lease_to on_iface add lookup insert
add_lease₀ = refl

remove_lease₀ :
    remove_lease_from (λ srv. true) lower₀ host₀ (server_of (index_of host₀) (iface_of host₀))
    ≡ ok (stored_of empty_index iface₀)
unfolding remove_lease_from on_iface remove lookup delete
remove_lease₀ = refl
