-- ===== src/Client/Storage.antt =====
-- internal/client/storage.go: the operations on persistent clients. The mutex makes each one step.
-- What they do to the upstreams of a client (upstreammanager.go) does not touch the index, and is left
-- out; so is the copy that a client is returned as.
pub mod Keeps
pub mod Runs
use null_private.Prelude.{
  ℕ, String, Bool, true, false, ◌&&◌, Option, none, some, List, [], ◌∷◌, str_eq, if◌then◌else◌, not,
}
use null_private.Dhcp.Lease.{Addr, zero_addr, addr_beq}
use null_private.Client.Persistent.{
  Prefix, Persistent, ClientError, not_found, Checks, validate_client, Result, ok, err, panic,
  ◌>>=◌, all_macs,
}
use null_private.Client.Index.{
  Netip, Index, find_by_name, find_by_client_id, find_by_ip, find_by_cidr, find_by_mac, clashes_uid,
  clashes, add_client, remove_client,
}

module _ (netip : Netip) (checks : Checks) where
  unfoldable pub add : Persistent → Index → Result Index
  add p ci = do
    p' ← validate_client checks p
    _ ← clashes_uid p' ci
    _ ← clashes p' ci
    add_client netip p' ci

  -- The client that is found by name, once it is known to be found.
  abbrev pub stored_of : Option (Option Persistent) → Result Persistent
  stored_of none = err not_found
  stored_of (some none) = panic
  stored_of (some (some stored)) = ok stored

  unfoldable pub update : String → Persistent → Index → Result Index
  update name p ci = do
    p' ← validate_client checks p
    stored ← stored_of (find_by_name name ci)
    let c : Persistent = record p' { uid = stored.uid }
    _ ← clashes c ci
    removed ← remove_client netip stored ci
    add_client netip c removed

-- The index, and whether there was such a client.
unfoldable pub remove_by_name : Netip → String → Index → Result (Index × Bool)
remove_by_name netip name ci = elim (find_by_name name ci) [
  | none ↦ ok (ci, false)
  | some none ↦ panic
  | some (some p) ↦ do ci' ← remove_client netip p ci; ok (ci', true)
]

-- `FindParams`: an empty ClientID, the zero address, and `none` for the zero prefix and a nil hardware
-- address are not searched for.
pub record FindParams : Type 0 where
  pub client_id : String
  pub remote_ip : Addr
  pub subnet : Option Prefix
  pub mac : Option (List ℕ)

-- The rest of the search, where one form finds nothing.
abbrev pub or_else :
    Result (Option (Option Persistent))
    → Result (Option (Option Persistent))
    → Result (Option (Option Persistent))
or_else (ok none) later = later
or_else r later = r

module _ (netip : Netip) (mac_by_ip : Addr → Option (List ℕ)) where
  abbrev by_mac : Index → Option (List ℕ) → Result (Option (Option Persistent))
  by_mac ci none = ok none
  by_mac ci (some mac) = find_by_mac mac ci

  abbrev by_subnet : Index → Option Prefix → Option (Option Persistent)
  by_subnet ci none = none
  by_subnet ci (some p) = find_by_cidr p ci

  -- `Storage.findByIP`: by the address, then by the hardware address that the DHCP server knows for it.
  unfoldable pub find_ip : Addr → Index → Result (Option (Option Persistent))
  find_ip addr ci = or_else (ok (find_by_ip netip addr ci)) (by_mac ci (mac_by_ip addr))

  -- The loop of `Find` tries the forms that are given in this order.
  unfoldable pub find_client : FindParams → Index → Result (Option (Option Persistent))
  unfolding find_ip
  find_client params ci =
      or_else
        (if str_eq params.client_id "" then ok none else ok (find_by_client_id params.client_id ci))
        (or_else
          (if addr_beq params.remote_ip zero_addr then ok none else find_ip params.remote_ip ci)
          (or_else (ok (by_subnet ci params.subnet)) (by_mac ci params.mac)))

-- A call that changes the storage.
pub data Call : Type 0 where
  add_call : Persistent → Call
  update_call : String → Persistent → Call
  remove_call : String → Call

-- Whether the clients of a call have only hardware addresses with a key.
abbrev pub valid_call : Call → Bool
valid_call (add_call p) = all_macs p.macs
valid_call (update_call name p) = all_macs p.macs
valid_call (remove_call name) = true

abbrev pub index_of : Index × Bool → Index
index_of r = r.0

module _ (netip : Netip) (checks : Checks) where
  abbrev pub run_call : Call → Index → Result Index
  run_call (add_call p) ci = add netip checks p ci
  run_call (update_call name p) ci = update netip checks name p ci
  run_call (remove_call name) ci = do r ← remove_by_name netip name ci; ok (index_of r)

  -- The index after a call: unchanged by one that returns an error.
  abbrev pub after_call : Index → Result Index → Result Index
  after_call ci (ok ci') = ok ci'
  after_call ci (err e) = ok ci
  after_call ci panic = panic

  -- The index after a series of calls.
  unfoldable pub run_calls : List Call → Index → Result Index
  run_calls [] ci = ok ci
  run_calls (call ∷ calls) ci = do ci' ← after_call ci (run_call call ci); run_calls calls ci'
