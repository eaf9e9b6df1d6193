-- ===== src/Aghalg/SortedMap.antt =====
-- internal/aghalg/sortedmap.go: a map with its keys in order.
pub mod Order
pub mod Laws
use Prim.Native.Nat.{Ordering}
use Prim.Native.Nat.Ordering.{lt, eq, gt}
use null_private.Prelude.{
  ℕ, zero, suc, ◌+◌, ◌≡◌, ◌↔◌, Bool, true, false, ◌||◌, Option, none, some, List, [], ◌∷◌,
  if◌then◌else◌,
}
use null_private.Prelude.Map.{Eq, Map, lookup, insert, delete, ◌==◌}

-- What the code relies on of a comparison function: a strict total order.
pub record IsOrder {K : Type 0} (cmp : K → K → Ordering) : Type 0 where
  pub zero_iff : (a b : K) → (cmp a b ≡ eq) ↔ (a ≡ b)
  pub turned_iff : (a b : K) → (cmp a b ≡ lt) ↔ (cmp b a ≡ gt)
  pub chained : (a b c : K) → cmp a b ≡ lt → cmp b c ≡ lt → cmp a c ≡ lt

pub record SortedMap (K V : Type 0) : Type 0 where
  pub vals : Map K V
  pub keys : List K

abbrev pub new_sorted_map : {K V : Type 0} → SortedMap K V
new_sorted_map = record { vals = []; keys = [] }

-- `keys[i] = key`
abbrev pub set_at : {K : Type 0} → List K → ℕ → K → List K
set_at [] i key = []
set_at (k ∷ ks) zero key = key ∷ ks
set_at (k ∷ ks) (suc i) key = k ∷ set_at ks i key

-- `slices.Insert(keys, i, key)`, for `i` at most the length
abbrev pub insert_at : {K : Type 0} → List K → ℕ → K → List K
insert_at ks zero key = key ∷ ks
insert_at [] (suc i) key = key ∷ []
insert_at (k ∷ ks) (suc i) key = k ∷ insert_at ks i key

-- `slices.Delete(keys, i, i+1)`; `none` is the panic of an index out of range.
abbrev pub delete_at : {K : Type 0} → List K → ℕ → Option (List K)
delete_at [] i = none
delete_at (k ∷ ks) zero = some ks
delete_at (k ∷ ks) (suc i) = elim (delete_at ks i) [ none ↦ none | some rest ↦ some (k ∷ rest) ]

-- The first key for which the callback of `Range` stops.
abbrev pub first_key : {K : Type 0} → (K → Bool) → List K → Option K
first_key stops [] = none
first_key stops (k ∷ ks) = let later = first_key stops ks in if stops k then some k else later

-- `slices.BinarySearchFunc` on sorted keys: the first position whose key is not less than `key`, and
-- whether the key there is equal to it.
unfoldable pub search_func : {K : Type 0} → (K → K → Ordering) → K → List K → ℕ × Bool
search_func cmp key [] = (0, false)
search_func cmp key (k ∷ ks) =
    let later = search_func cmp key ks in
    elim (cmp k key) [ lt ↦ (suc later.0, later.1) | eq ↦ (0, true) | gt ↦ (0, false) ]

unfoldable pub get : {K V : Type 0} ⦃e : Eq K⦄ → K → SortedMap K V → Option V
get key m = lookup key m.vals

module _ {K V : Type 0} (cmp : K → K → Ordering) ⦃e : Eq K⦄ where
  unfoldable pub set : K → V → SortedMap K V → SortedMap K V
  set key val m = record {
    vals = insert key val m.vals;
    keys =
        if (search_func cmp key m.keys).1
        then set_at m.keys (search_func cmp key m.keys).0 key
        else insert_at m.keys (search_func cmp key m.keys).0 key;
  }

  -- `none` is a panic.
  unfoldable pub del : K → SortedMap K V → Option (SortedMap K V)
  del key m = elim (lookup key m.vals) [
    | none ↦ some m
    | some _ ↦ elim (delete_at m.keys (search_func cmp key m.keys).0) [
      | none ↦ none
      | some ks ↦ some (record { vals = delete key m.vals; keys = ks })
    ]
  ]
