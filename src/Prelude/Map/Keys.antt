-- ===== src/Prelude/Map/Keys.antt =====
-- Maps in which no key stands twice.
use null_private.Prelude.{◌≡◌, refl, none, [], ◌∷◌, arith}
use null_private.Prelude.Map.{Eq, Map, lookup, insert, delete, lookup-insert, lookup-delete}

abbrev pub IsMap : {K V : Type 0} ⦃e : Eq K⦄ → Map K V → Type 0
IsMap [] = Unit {0}
IsMap ((k, v) ∷ m) = (lookup k m ≡ none) × IsMap m

module _ {K V : Type 0} ⦃e : Eq K⦄ where
  pub insert-IsMap : (k : K) (v : V) (m : Map K V) → IsMap m → IsMap (insert k v m)
  unfolding insert lookup
  insert-IsMap k v [] h = (refl, tt)
  insert-IsMap k v ((j, w) ∷ m) h =
      ground (arith, e.beq_iff j k, e.beq_iff k j, lookup-insert k j v m, insert-IsMap k v m)

  pub delete-IsMap : (k : K) (m : Map K V) → IsMap m → IsMap (delete k m)
  unfolding delete
  delete-IsMap k [] h = tt
  delete-IsMap k ((j, w) ∷ m) h = ground (arith, lookup-delete k j m, delete-IsMap k m)
