-- ===== src/Aghalg/Examples.antt =====
-- A map with two keys in order.
use Prim.Native.Nat.{compare}
use null_private.Prelude.{ℕ, ◌≡◌, none, some, arith, ◌==◌, if◌then◌else◌}
use null_private.Prelude.Map.{number_eq}
use null_private.Aghalg.SortedMap.{IsOrder, SortedMap, new_sorted_map, get, set, del}
use null_private.Aghalg.SortedMap.Laws.{
  IsSortedMap, new-IsSortedMap, set-IsSortedMap, del-IsSortedMap,
}

numbers-IsOrder : IsOrder compare
numbers-IsOrder = record {
  zero_iff = λ a b. ground arith;
  turned_iff = λ a b. ground arith;
  chained = λ a b c. ground arith;
}

abbrev one_key : SortedMap ℕ ℕ
one_key = set compare 5 50 new_sorted_map

abbrev two_keys : SortedMap ℕ ℕ
two_keys = set compare 3 30 one_key

one_key-IsSortedMap : IsSortedMap compare one_key
one_key-IsSortedMap =
    (set-IsSortedMap compare numbers-IsOrder 5 new_sorted_map (new-IsSortedMap compare) 50 5).0

set-IsSortedMap_example :
    IsSortedMap compare two_keys × (get 5 two_keys ≡ (if 3 == 5 then some 30 else get 5 one_key))
set-IsSortedMap_example = set-IsSortedMap compare numbers-IsOrder 3 one_key one_key-IsSortedMap 30 5

del-IsSortedMap_example :
    (m : SortedMap ℕ ℕ) × (del compare 5 one_key ≡ some m)
    × IsSortedMap compare m
    × (get 5 m ≡ (if 5 == 5 then none else get 5 one_key))
del-IsSortedMap_example = del-IsSortedMap compare numbers-IsOrder 5 one_key one_key-IsSortedMap 5
