-- ===== src/Migrate/Yaml.antt =====
-- internal/configmigrate/yaml.go: the values of a decoded configuration file, the maps that hold
-- them, and the typed reads and moves on which every migration stands.
--
-- A map is a list of entries, the first of a key being the one that is read. `none` is Go's nil map,
-- which reads as empty and panics when written. A map inside a map is shared by reference in Go; the
-- model stores the changed inner map back.
pub mod Laws
pub mod Moves
use null_private.Prelude.{
  ℕ, ◌+◌, ◌≡◌, refl, ◌⊎◌, inl, inr, String, Bool, Option, none, some, List, [], ◌∷◌, str_eq,
  if◌then◌else◌, false,
}
use null_private.Prelude.Int.{ℤ, pos}

mutual
  -- What an `any` of the decoded file can hold. `dur` and `mode` are the Go types
  -- `timeutil.Duration` and `dnsforward.UpstreamMode`, `strs` is `[]string`: they are written by
  -- migrations, and are not the `string`, `int` and `[]any` that a later one reads. `other` is a
  -- value of any other type.
  pub data Value : Type 0 where
    null : Value
    bool : Bool → Value
    int : ℤ → Value
    str : String → Value
    dur : ℤ → Value
    mode : String → Value
    strs : List String → Value
    other : String → Value
    nil_obj : Value
    obj : Fields → Value
    arr : Items → Value

  pub data Items : Type 0 where
    nil : Items
    cons : Value → Items → Items

  pub data Fields : Type 0 where
    end : Fields
    field : String → Value → Fields → Fields

-- `yobj`
abbrev pub Yobj : Type 0
Yobj = Option Fields

unfoldable pub get : String → Fields → Option Value
get k end = none
get k (field j v fs) = if str_eq j k then some v else get k fs

unfoldable pub put : String → Value → Fields → Fields
put k v end = field k v end
put k v (field j w fs) = if str_eq j k then field k v fs else field j w (put k v fs)

unfoldable pub del : String → Fields → Fields
del k end = end
del k (field j w fs) = let rest = del k fs in if str_eq j k then rest else field j w rest

-- `m[k]` on a map that may be nil
abbrev pub get_in : String → Yobj → Option Value
get_in k none = none
get_in k (some fs) = get k fs

abbrev pub del_in : String → Yobj → Yobj
del_in k none = none
del_in k (some fs) = some (del k fs)

-- The effect, on the map `conf`, of the changes made to the elements of the array at its key `k`.
abbrev pub store_arr : String → Items → Yobj → Yobj
store_arr k xs none = none
store_arr k xs (some conf) = elim (get k conf) [
  | some null ↦ some conf
  | _ ↦ some (put k (arr xs) conf)
]

pub data Error : Type 0 where
  unexpected_type : String → Error
  at_index : ℕ → Error → Error
  not_object : Error
  hash_failed : Error
  invalid_bind_host : String → Error
  unknown_current unknown_target target_lower : Error
  parsing encoding : Error
  joined : Error → Error → Error
  migrating : ℕ → Error → Error

-- The map at a key, nil if there is none.
abbrev section_of : Option Value → Yobj
section_of (some (obj fs)) = some fs
section_of _ = none

abbrev pub section : String → Yobj → Yobj
section k o = section_of (get_in k o)

-- How a call ends: with a result, with an error, or in a panic (a write to a nil map).
pub data Outcome (A : Type 0) : Type 0 where
  ok : A → Outcome A
  fail : Error → Outcome A
  panic : Outcome A

pub Outcome-cases :
    {A : Type 0} (r : Outcome A)
    → ((a : A) × (r ≡ ok a)) ⊎ (((e : Error) × (r ≡ fail e)) ⊎ (r ≡ panic))
Outcome-cases (ok a) = inl (a, refl)
Outcome-cases (fail e) = inr (inl (e, refl))
Outcome-cases panic = inr (inr refl)

infixl 5 ◌>>=◌
abbrev pub ◌>>=◌ : {A B : Type 0} → Outcome A → (A → Outcome B) → Outcome B
ok a >>= f = f a
fail e >>= f = fail e
panic >>= f = panic

-- `m[k] = v`
abbrev pub put_in : String → Value → Yobj → Outcome Yobj
put_in k v none = panic
put_in k v (some fs) = ok (some (put k v fs))

-- The effect, on the map `conf`, of the writes that were made to the map at its key `k`. A nil map
-- has taken no write.
abbrev pub store : String → Yobj → Yobj → Yobj
store k (some fs) (some conf) = some (put k (obj fs) conf)
store k _ conf = conf

-- The type `T` of a read `fieldVal[T]`: the assertion `val.(T)`, the zero value, and the value of
-- type `any` that a `T` is.
pub record Reader (A : Type 0) : Type 0 where
  pub cast : Value → Option A
  pub zero_value : A
  pub embed : A → Value

abbrev pub any_r : Reader Value
any_r = record { cast = λ v. some v; zero_value = null; embed = λ v. v }

abbrev cast_bool : Value → Option Bool
cast_bool (bool b) = some b
cast_bool _ = none

abbrev cast_int : Value → Option ℤ
cast_int (int n) = some n
cast_int _ = none

abbrev cast_str : Value → Option String
cast_str (str s) = some s
cast_str _ = none

abbrev cast_obj : Value → Option Yobj
cast_obj (obj fs) = some (some fs)
cast_obj nil_obj = some none
cast_obj _ = none

abbrev cast_arr : Value → Option Items
cast_arr (arr xs) = some xs
cast_arr _ = none

abbrev pub embed_obj : Yobj → Value
embed_obj none = nil_obj
embed_obj (some fs) = obj fs

abbrev pub bool_r : Reader Bool
bool_r = record { cast = cast_bool; zero_value = false; embed = bool }

abbrev pub int_r : Reader ℤ
int_r = record { cast = cast_int; zero_value = pos 0; embed = int }

abbrev pub str_r : Reader String
str_r = record { cast = cast_str; zero_value = ""; embed = str }

abbrev pub obj_r : Reader Yobj
obj_r = record { cast = cast_obj; zero_value = none; embed = embed_obj }

-- A nil `yarr` behaves as an empty one in all that the migrations do with it.
abbrev pub arr_r : Reader Items
arr_r = record { cast = cast_arr; zero_value = nil; embed = arr }

-- What `fieldVal` returns: `(zero, false, nil)`, `(zero, false, err)` or `(v, true, nil)`.
pub data Field (A : Type 0) : Type 0 where
  absent wrong : Field A
  found : A → Field A

pub Field-cases :
    {A : Type 0} (f : Field A) → (f ≡ absent) ⊎ ((f ≡ wrong) ⊎ ((a : A) × (f ≡ found a)))
Field-cases absent = inl refl
Field-cases wrong = inr (inl refl)
Field-cases (found a) = inr (inr (a, refl))

-- the assertion, once the value is known not to be nil
abbrev asserted : {A : Type 0} → Option A → Field A
asserted none = wrong
asserted (some a) = found a

abbrev classify : {A : Type 0} → Reader A → Option Value → Field A
classify r none = absent
classify r (some null) = found r.zero_value
classify r (some v) = asserted (r.cast v)

unfoldable pub field_val : {A : Type 0} → Reader A → Yobj → String → Field A
field_val r o k = classify r (get_in k o)

-- `if !ok { return err }` after a read, where `b` is what is returned with no error
abbrev pub on_found : {A B : Type 0} → Field A → String → B → (A → Outcome B) → Outcome B
on_found absent k b f = ok b
on_found wrong k b f = fail (unexpected_type k)
on_found (found a) k b f = f a

-- `if !ok { return nil }`, where the error is ignored
abbrev pub if_found : {A B : Type 0} → Field A → B → (A → Outcome B) → Outcome B
if_found (found a) b f = f a
if_found _ b f = ok b

-- The value `v` of a read whose flag is ignored, and whose error is not.
abbrev pub value_or_fail : {A : Type 0} → Reader A → String → Field A → Outcome A
value_or_fail r k absent = ok r.zero_value
value_or_fail r k wrong = fail (unexpected_type k)
value_or_fail r k (found a) = ok a

-- The value `v` of a read whose flag and error are both ignored.
abbrev pub value_or_zero : {A : Type 0} → Reader A → Field A → A
value_or_zero r (found a) = a
value_or_zero r _ = r.zero_value

-- `moveVal` between two different maps: both maps after the call
abbrev pub finish_move :
    {A : Type 0} → Reader A → String → String → Yobj × Yobj → Field A → Outcome (Yobj × Yobj)
finish_move r a b s absent = ok s
finish_move r a b s wrong = fail (unexpected_type a)
finish_move r a b (src, dst) (found v) = do dst' ← put_in b (r.embed v) dst; ok (del_in a src, dst')

unfoldable pub move_val :
    {A : Type 0} → Reader A → String → String → Yobj × Yobj → Outcome (Yobj × Yobj)
unfolding field_val
move_val r a b s = finish_move r a b s (field_val r s.0 a)

abbrev pub move_same_val : {A : Type 0} → Reader A → String → Yobj × Yobj → Outcome (Yobj × Yobj)
move_same_val r k = move_val r k k

-- `moveVal` with one map as source and destination
abbrev finish_rename : {A : Type 0} → Reader A → String → String → Yobj → Field A → Outcome Yobj
finish_rename r a b o absent = ok o
finish_rename r a b o wrong = fail (unexpected_type a)
finish_rename r a b o (found v) = do o' ← put_in b (r.embed v) o; ok (del_in a o')

unfoldable pub rename_val : {A : Type 0} → Reader A → String → String → Yobj → Outcome Yobj
unfolding field_val
rename_val r a b o = finish_rename r a b o (field_val r o a)

-- One argument of an `errors.Join` over moves.
pub record Move : Type 0 where
  pub reader : Reader Value
  pub from_key : String
  pub to_key : String

-- A typed reader as one of values.
abbrev pub typed : {A : Type 0} → Reader A → Reader Value
typed r = record {
  cast = λ v. elim (r.cast v) [ none ↦ none | some a ↦ some (r.embed a) ];
  zero_value = r.embed r.zero_value;
  embed = λ v. v;
}

abbrev pub move : {A : Type 0} → Reader A → String → String → Move
move r a b = record { reader = typed r; from_key = a; to_key = b }

abbrev pub join : Option Error → Error → Option Error
join none e = some e
join (some d) e = some (joined d e)

-- `errors.Join` of moves: each is made, also after one that failed.
unfoldable pub join_moves : List Move → Yobj × Yobj → Option Error → Outcome (Yobj × Yobj)
unfolding move_val
join_moves [] s none = ok s
join_moves [] s (some e) = fail e
join_moves (m ∷ ms) s errs = elim (move_val m.reader m.from_key m.to_key s) [
  | ok s' ↦ join_moves ms s' errs
  | fail e ↦ join_moves ms s (join errs e)
  | panic ↦ panic
]

-- `for i, v := range xs` whose body changes the element, or leaves the function.
unfoldable pub each_item : (ℕ → Value → Outcome Value) → ℕ → Items → Outcome Items
each_item body i nil = ok nil
each_item body i (cons v rest) =
    let later = each_item body (i + 1) rest in do v' ← body i v; rest' ← later; ok (cons v' rest')

-- `append(xs, v)`
unfoldable pub append_item : Items → Value → Items
append_item nil v = cons v nil
append_item (cons w rest) v = cons w (append_item rest v)
