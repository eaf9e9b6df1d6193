-- ===== src/Migrate/Yaml/Laws.antt =====
-- The laws of the maps of Migrate/Yaml.antt, on which the proofs about migrations stand.
use null_private.Prelude.{
  String, ◌≡◌, refl, ◌∙◌, false, inl, inr, List, [], ◌∷◌, elem, Option, none, some, arith, str_eq,
  eq_iff, if◌then◌else◌,
}
use null_private.Migrate.Yaml.{
  Value, obj, arr, Items, Fields, end, field, Yobj, get, put, del, get_in, put_in, del_in, store,
  store_arr, Outcome, ok, fail, panic, ◌>>=◌, Reader, Move, move_val, join_moves, join, Error,
  Outcome-cases,
}

-- One key is read after another one is written.
pub get-put :
    (k j : String) (v : Value) (fs : Fields)
    → get j (put k v fs) ≡ (if str_eq k j then some v else get j fs)
unfolding get put
get-put k j v end = refl
get-put k j v (field i w fs) = ground (arith, eq_iff k j, eq_iff i k, eq_iff i j, get-put k j v fs)

pub get-del :
    (k j : String) (fs : Fields) → get j (del k fs) ≡ (if str_eq k j then none else get j fs)
unfolding get del
get-del k j end = ground arith
get-del k j (field i w fs) = ground (arith, eq_iff k j, eq_iff i k, eq_iff i j, get-del k j fs)

-- What `put_in` and `del_in` leave of the other keys.
pub get_in-put_in :
    (k j : String) (v : Value) (o o' : Yobj)
    → put_in k v o ≡ ok o'
    → get_in j o' ≡ (if str_eq k j then some v else get_in j o)
get_in-put_in k j v none o' h = ground arith
get_in-put_in k j v (some fs) o' h = ground (arith, get-put k j v fs)

pub get_in-del_in :
    (k j : String) (o : Yobj) → get_in j (del_in k o) ≡ (if str_eq k j then none else get_in j o)
get_in-del_in k j none = ground arith
get_in-del_in k j (some fs) = get-del k j fs

pub get_in-store :
    (k j : String) (inner o : Yobj) → str_eq k j ≡ false → get_in j (store k inner o) ≡ get_in j o
get_in-store k j none o h = refl
get_in-store k j (some fs) none h = refl
get_in-store k j (some fs) (some o) h = rw (get-put k j (obj fs) o, h)

pub get_in-store_arr :
    (k j : String) (xs : Items) (o : Yobj)
    → str_eq k j ≡ false
    → get_in j (store_arr k xs o) ≡ get_in j o
get_in-store_arr k j xs none h = refl
get_in-store_arr k j xs (some o) h = ground (arith, get-put k j (arr xs) o)

pub get-put_ne :
    (k j : String) (v : Value) (fs : Fields) → str_eq k j ≡ false → get j (put k v fs) ≡ get j fs
get-put_ne k j v fs h = rw (get-put k j v fs, h)

pub get-del_ne : (k j : String) (fs : Fields) → str_eq k j ≡ false → get j (del k fs) ≡ get j fs
get-del_ne k j fs h = rw (get-del k j fs, h)

-- A move changes its source at one key only.
pub get_in-move_val :
    {A : Type 0} (r : Reader A) (a b k : String) (s s' : Yobj × Yobj)
    → str_eq a k ≡ false
    → move_val r a b s ≡ ok s'
    → get_in k s'.0 ≡ get_in k s.0
unfolding move_val
get_in-move_val r a b k (src, dst) s' h e = grind (arith, get_in-del_in)

abbrev pub from_keys : List Move → List String
from_keys [] = []
from_keys (m ∷ ms) = m.from_key ∷ from_keys ms

-- Moves change their source at their keys only.
pub get_in-join_moves :
    (ms : List Move) (k : String) (s s' : Yobj × Yobj) (errs : Option Error)
    → elem k (from_keys ms) ≡ false
    → join_moves ms s errs ≡ ok s'
    → get_in k s'.0 ≡ get_in k s.0
unfolding join_moves
get_in-join_moves [] k s s' none h e = ground arith
get_in-join_moves [] k s s' (some x) h e = ground arith
get_in-join_moves (m ∷ ms) k s s' errs h e =
    elim (Outcome-cases (move_val m.reader m.from_key m.to_key s)) [
      | inl (s₁, moved) ↦ grind (
        arith,
        get_in-join_moves ms k s₁ s' errs,
        get_in-move_val m.reader m.from_key m.to_key k s s₁,
      )
      | inr (inl (x, failed)) ↦ ground (arith, get_in-join_moves ms k s s' (join errs x))
      | inr (inr panics) ↦ ground arith
    ]

-- A value that the first of two steps keeps, and the second too, is kept by both.
pub >>=-keeps :
    {A B : Type 0} {v : Option Value} (g : A → Option Value) (h : B → Option Value) (m : Outcome A)
    (f : A → Outcome B)
    → ((a : A) → m ≡ ok a → g a ≡ v)
    → ((a : A) (b : B) → f a ≡ ok b → h b ≡ g a)
    → (b : B) → (m >>= f) ≡ ok b
    → h b ≡ v
>>=-keeps g h (ok a) f first second b e = second a b e ∙ first a refl
>>=-keeps g h (fail x) f first second b e = cc
>>=-keeps g h panic f first second b e = cc
