-- ===== src/Client/Examples.antt =====
-- Two clients, the calls that store and change them, and what the sources say of an address.
use null_private.Prelude.{
  ◌+◌, ◌-◌, ◌^◌, String, ◌≡◌, refl, Bool, true, false, ◌&&◌, some, List, [], ◌∷◌, ltb, leb,
}
use null_private.Prelude.Map.{lookup, string_eq, number_eq, bytes_eq}
use null_private.Prelude.Map.Keys.{IsMap}
use null_private.Dhcp.Lease.{Addr, v4, addr_eq}
use null_private.Aghalg.SortedMap.{get}
use null_private.Client.Orders.{addr_compare, addr_compare-IsOrder}
use null_private.Client.Persistent.{Prefix, prefix_eq, Persistent, Checks, ok}
use null_private.Client.Index.{Netip, Index, new_index, with_client, add_client, find_by_ip}
use null_private.Client.Index.Keeps.{
  IsConsistent, IsFree, new_index-IsConsistent, add_client-IsConsistent,
}
use null_private.Client.Index.Finds.{IsFoundByIp, find_by_ip-IsFoundByIp}
use null_private.Client.Storage.{Call, add_call, update_call, remove_call, run_calls}
use null_private.Client.Storage.Runs.{run_calls-IsConsistent}
use null_private.Client.Runtime.{Runtime, RuntimeIndex, new_runtime}
use null_private.Client.Runtime.Answers.{dhcp_answer, answer, IsAnswered, answer-IsAnswered}

-- Addresses of 32 bits: the ones whose number is in the block of the prefix.
abbrev in_block : Prefix → Addr → Bool
in_block p (v4 a) = elim p.addr [ v4 b ↦ leb b a && ltb a (b + 2 ^ (32 - p.bits)) | _ ↦ false ]
in_block p _ = false

abbrev netip₀ : Netip
netip₀ = record { addr_compare = addr_compare; contains = in_block }

abbrev checks₀ : Checks
checks₀ = record {
  upstreams_valid = λ u. true;
  sort = λ tags. tags;
  allowed_tags = "device_tv" ∷ [];
}

abbrev alice : Persistent
alice = record {
  name = "alice";
  tags = [];
  upstreams = [];
  ips = v4 7 ∷ [];
  subnets = record { addr = v4 16; bits = 28 } ∷ [];
  macs = [];
  client_ids = "cli" ∷ [];
  uid = 1;
}

abbrev bob : Persistent
bob = record alice { name = "bob"; ips = v4 9 ∷ []; subnets = []; client_ids = []; uid = 2 }

abbrev calls₀ : List Call
calls₀ =
    add_call alice
    ∷ add_call bob
    ∷ update_call "bob" (record bob { ips = v4 8 ∷ [] })
    ∷ remove_call "alice"
    ∷ []

run_calls-IsConsistent_example :
    (ci : Index) × (run_calls netip₀ checks₀ calls₀ new_index ≡ ok ci) × IsConsistent netip₀ ci
run_calls-IsConsistent_example =
    run_calls-IsConsistent netip₀ addr_compare-IsOrder checks₀ calls₀ new_index
      (new_index-IsConsistent netip₀) refl

abbrev with_alice : Index
with_alice = with_client netip₀ alice new_index

alice-IsFree : IsFree alice new_index
unfolding lookup get
alice-IsFree = record {
  names = λ k h. refl;
  client_ids = λ k h. refl;
  ips = λ k h. refl;
  subnets = λ k h. refl;
  macs = λ k h. refl;
}

with_alice-IsConsistent : IsConsistent netip₀ with_alice
unfolding add_client lookup
with_alice-IsConsistent =
    add_client-IsConsistent netip₀ addr_compare-IsOrder new_index (new_index-IsConsistent netip₀)
      alice with_alice alice-IsFree refl refl

find_by_ip-IsFoundByIp_example :
    IsFoundByIp netip₀ with_alice (v4 20) (find_by_ip netip₀ (v4 20) with_alice)
find_by_ip-IsFoundByIp_example =
    find_by_ip-IsFoundByIp netip₀ with_alice addr_compare-IsOrder with_alice-IsConsistent (v4 20)

abbrev seen : RuntimeIndex
seen =
    (v4 1, record (new_runtime (v4 1)) { dhcp = some ("old" ∷ []); rdns = some ("one" ∷ []) }) ∷ []

abbrev leases : List (Addr × String)
leases = (v4 2, "two") ∷ []

seen-IsMap : IsMap seen
unfolding lookup
seen-IsMap = (refl, tt)

answer-IsAnswered_example :
    IsAnswered (dhcp_answer (some leases)) seen (answer (dhcp_answer (some leases)) seen)
answer-IsAnswered_example = answer-IsAnswered (dhcp_answer (some leases)) seen seen-IsMap

abbrev one₀ : Runtime
one₀ = record (new_runtime (v4 1)) { dhcp = some []; rdns = some ("one" ∷ []) }
