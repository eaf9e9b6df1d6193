-- ===== src/Dhcpd/Examples.antt =====
-- A server for three addresses, and leases in and outside its range.
use null_private.Prelude.{ℕ, ◌+◌, ◌≡◌, ◌≢◌, refl, Bool, true, false, ◌&&◌, some, [], ◌∷◌, ltb, leb}
use null_private.Prelude.Map.{Map, lookup, insert, delete}
use null_private.Dhcp.Lease.{Addr, v4, Lease}
use null_private.Dhcpd.BitSet.{is_set, set_bit}
use null_private.Dhcpd.IpRange.{IpRange, contains_ip, find, offset}
use null_private.Dhcpd.Pool.{
  V4Server, added, to16, add_lease_v4, is_free, next_ip, rm_lease, search_lease, rm_lease_by_index,
}
use null_private.Dhcpd.Pool.Free.{next_ip-is_free, is_free-add_lease_v4, add_lease_v4-takes_start}
use null_private.Dhcpd.Pool.Removal.{rm_lease-is_free}

-- 10.0.0.1 to 10.0.0.3
abbrev ten : ℕ
ten = 167_772_160

abbrev range₀ : IpRange
range₀ = record { start = 281_470_849_515_521; end = 281_470_849_515_523 }

abbrev server₀ : V4Server
server₀ = record {
  leases = [];
  hosts_index = [];
  ip_index = [];
  leased_offsets = some [];
  ip_range = some range₀;
  subnet_contains = λ a. true;
}

abbrev lease_of : ℕ → Bool → Lease
lease_of a static = record {
  ip = v4 a;
  expiry = 0;
  hostname = "host";
  hw_addr = 1 ∷ 2 ∷ 3 ∷ 4 ∷ 5 ∷ 6 ∷ [];
  is_static = static;
}

-- The server with the lease `l`, of the offset `n` as the code computes it.
abbrev server_with : Lease → ℕ → V4Server
server_with l n = record {
  leases = l ∷ [];
  hosts_index = ("host", l) ∷ [];
  ip_index = (l.ip, l) ∷ [];
  leased_offsets = set_bit n true (some []);
  ip_range = some range₀;
  subnet_contains = λ a. true;
}

abbrev small : IpRange
small = record { start = 1; end = 3 }

next_ip₀ : next_ip server₀ ≡ some (v4 (ten + 1))
unfolding next_ip find is_free offset is_set lookup
next_ip₀ = refl

next_ip-is_free_example :
    (contains_ip (some range₀) (to16 (v4 (ten + 1))) ≡ true)
    × (is_free server₀ (to16 (v4 (ten + 1))) ≡ true)
    × ((leb range₀.start 7 && ltb 7 (to16 (v4 (ten + 1))) && is_free server₀ 7) ≡ false)
next_ip-is_free_example = next_ip-is_free server₀ range₀ (v4 (ten + 1)) 7 refl next_ip₀

add₀ :
    add_lease_v4 (lease_of (ten + 1) false) server₀
    ≡ added (server_with (lease_of (ten + 1) false) 0)
unfolding add_lease_v4 offset lookup insert
add₀ = refl

free₀ : is_free (server_with (lease_of (ten + 1) false) 0) (to16 (v4 (ten + 2))) ≡ true
unfolding is_free offset is_set set_bit lookup insert
free₀ = refl

is_free-add_lease_v4_example :
    (is_free server₀ (to16 (v4 (ten + 2))) ≡ true) × (◌≢◌ {A = Addr} (v4 (ten + 2)) (v4 (ten + 1)))
is_free-add_lease_v4_example =
    is_free-add_lease_v4 (lease_of (ten + 1) false) server₀
      (server_with (lease_of (ten + 1) false) 0) [] (v4 (ten + 2)) refl add₀ free₀

-- the static lease of 10.0.0.9, outside the range
add₁ :
    add_lease_v4 (lease_of (ten + 9) true) server₀ ≡ added (server_with (lease_of (ten + 9) true) 0)
unfolding add_lease_v4 offset lookup insert
add₁ = refl

add_lease_v4-takes_start_example :
    is_free (server_with (lease_of (ten + 9) true) 0) range₀.start ≡ false
unfolding contains_ip
add_lease_v4-takes_start_example =
    add_lease_v4-takes_start (lease_of (ten + 9) true) server₀
      (server_with (lease_of (ten + 9) true) 0) [] range₀ refl refl refl add₁

abbrev words₀ : Map ℕ ℕ
words₀ = (0, 1) ∷ []

abbrev full₀ : V4Server
full₀ = record (server_with (lease_of (ten + 1) false) 0) { leased_offsets = some words₀ }

abbrev emptied₀ : V4Server
emptied₀ = record server₀ { leased_offsets = some ((0, 0) ∷ []) }

rm_lease₀ : rm_lease (lease_of (ten + 1) false) full₀ ≡ some emptied₀
unfolding rm_lease search_lease rm_lease_by_index offset set_bit lookup insert delete
rm_lease₀ = refl

rm_lease-is_free_example : is_free emptied₀ (to16 (v4 (ten + 1))) ≡ true
unfolding contains_ip
rm_lease-is_free_example =
    rm_lease-is_free (lease_of (ten + 1) false) full₀ emptied₀ words₀ range₀
      (lease_of (ten + 1) false) [] refl refl refl refl rm_lease₀
