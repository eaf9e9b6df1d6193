-- ===== src/Client/Storage/Runs.antt =====
-- What every series of calls on the storage leaves.
use null_private.Prelude.{
  ◌≡◌, refl, ap, subst, Bool, true, false, ◌&&◌, List, [], ◌∷◌, arith, inl, inr,
}
use null_private.Aghalg.SortedMap.{IsOrder}
use null_private.Client.Persistent.{Checks, ok, Result-cases}
use null_private.Client.Index.{Netip, Index}
use null_private.Client.Index.Keeps.{IsConsistent}
use null_private.Client.Storage.{Call, valid_call, run_call, after_call, run_calls}
use null_private.Client.Storage.Keeps.{IsKept, run_call-IsKept}

abbrev pub valid_calls : List Call → Bool
valid_calls [] = true
valid_calls (call ∷ calls) = valid_call call && valid_calls calls

module _ (netip : Netip) (order : IsOrder netip.addr_compare) (checks : Checks) where
  -- After a call whose hardware addresses have keys the index is there, and is consistent.
  after_call-IsConsistent :
      (call : Call) (ci : Index)
      → IsConsistent netip ci
      → valid_call call ≡ true
      → (ci' : Index) × (after_call netip checks ci (run_call netip checks call ci) ≡ ok ci')
        × IsConsistent netip ci'
  after_call-IsConsistent call ci v valid =
      let kept = run_call-IsKept netip order ci v checks call in
      elim (Result-cases (run_call netip checks call ci)) [
        | inl (ci', done) ↦ (
          ci',
          ap (after_call netip checks ci) done,
          subst (IsKept netip (valid_call call)) done kept,
        )
        | inr (inl (e, failed)) ↦ (ci, ap (after_call netip checks ci) failed, v)
        | inr (inr panics) ↦
            let bad : valid_call call ≡ false =
              subst (IsKept netip (valid_call call)) panics kept in
            absurd (ground (arith, bad, valid))
      ]

  -- Any series of calls that add, update and remove clients whose hardware addresses have 6, 8 or 20
  -- bytes, those that are refused included, runs without a panic from a consistent index, such as the
  -- empty one, and leaves a consistent index, where every map names for each identifier the one client
  -- that has it.
  -- The comparison of addresses must be a strict total order.
  pub run_calls-IsConsistent :
      (calls : List Call) (ci : Index)
      → IsConsistent netip ci
      → valid_calls calls ≡ true
      → (ci' : Index) × (run_calls netip checks calls ci ≡ ok ci') × IsConsistent netip ci'
  unfolding run_calls
  run_calls-IsConsistent [] ci v valid = (ci, refl, v)
  run_calls-IsConsistent (call ∷ calls) ci v valid =
      let (ci₁, once, w) = after_call-IsConsistent call ci v (ground (arith, valid)) in
      let (ci', rest, w') = run_calls-IsConsistent calls ci₁ w (ground (arith, valid)) in
      (ci', rw once rest, w')
