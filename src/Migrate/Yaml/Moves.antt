-- ===== src/Migrate/Yaml/Moves.antt =====
-- A joined series of moves (`errors.Join` over `moveVal`): what becomes of each setting.
use null_private.Prelude.{
  ℕ, zero, suc, String, ◌≡◌, refl, ap₂, ◌∙◌, Bool, true, false, not, ◌&&◌, Option, none, some, List,
  [], ◌∷◌, inl, inr, arith, elem, str_eq, eq_refl, get_elem?, eq_iff,
}
use null_private.Migrate.Yaml.{
  Value, Fields, Yobj, Error, Outcome-cases, ok, Move, Field, absent, wrong, found, field_val,
  get_in, move_val, finish_move, join_moves, join, Reader, Field-cases, unexpected_type, del, put,
}
use null_private.Migrate.Yaml.Laws.{
  from_keys, get_in-move_val, get_in-join_moves, get_in-del_in, get-put,
}

abbrev pub to_keys : List Move → List String
to_keys [] = []
to_keys (m ∷ ms) = m.to_key ∷ to_keys ms

abbrev pub distinct : List String → Bool
distinct [] = true
distinct (k ∷ ks) = not (elem k ks) && distinct ks

-- The value of a destination key after a move that read `f` from the source.
abbrev pub after_move : Reader Value → Option Value → Field Value → Option Value
after_move r old (found v) = some (r.embed v)
after_move r old _ = old

get_in-move_val_to :
    (r : Reader Value) (a b k : String) (s s' : Yobj × Yobj)
    → str_eq b k ≡ false
    → move_val r a b s ≡ ok s'
    → get_in k s'.1 ≡ get_in k s.1
unfolding move_val
get_in-move_val_to r a b k (src, none) s' h e = ground arith
get_in-move_val_to r a b k (src, some dst) s' h e = grind (arith, get-put)

get_in-join_moves_to :
    (ms : List Move) (k : String) (s s' : Yobj × Yobj) (errs : Option Error)
    → elem k (to_keys ms) ≡ false
    → join_moves ms s errs ≡ ok s'
    → get_in k s'.1 ≡ get_in k s.1
unfolding join_moves
get_in-join_moves_to [] k s s' none h e = ground arith
get_in-join_moves_to [] k s s' (some x) h e = ground arith
get_in-join_moves_to (m ∷ ms) k s s' errs h e =
    elim (Outcome-cases (move_val m.reader m.from_key m.to_key s)) [
      | inl (s₁, moved) ↦ ground (
        arith,
        get_in-join_moves_to ms k s₁ s' errs,
        get_in-move_val_to m.reader m.from_key m.to_key k s s₁,
      )
      | inr (inl (x, failed)) ↦ ground (arith, get_in-join_moves_to ms k s s' (join errs x))
      | inr (inr panics) ↦ ground arith
    ]

-- The setting of `m` after a call that took the maps `s` to `s'`: it stands under its new key, if it
-- was there, and not under its old one.
abbrev pub IsMoved : Move → Yobj × Yobj → Yobj × Yobj → Type 0
IsMoved m s s' =
    (get_in m.to_key s'.1
      ≡ after_move m.reader (get_in m.to_key s.1) (field_val m.reader s.0 m.from_key))
    × (get_in m.from_key s'.0 ≡ none)

absent-of-field_val :
    (r : Reader Value) (a : String) (src : Yobj) → field_val r src a ≡ absent → get_in a src ≡ none
unfolding field_val
absent-of-field_val r a src h = ground arith

finish_move-IsMoved :
    (m : Move) (s s' : Yobj × Yobj) (f : Field Value)
    → (f ≡ absent → get_in m.from_key s.0 ≡ none)
    → finish_move m.reader m.from_key m.to_key s f ≡ ok s'
    → (get_in m.to_key s'.1 ≡ after_move m.reader (get_in m.to_key s.1) f)
      × (get_in m.from_key s'.0 ≡ none)
finish_move-IsMoved m s s' absent none_there e = ground (arith, none_there refl)
finish_move-IsMoved m s s' wrong none_there e = cc
finish_move-IsMoved m (src, none) s' (found v) none_there e = cc
finish_move-IsMoved m (src, some dst) s' (found v) none_there e = ground (
  arith,
  eq_refl m.from_key,
  eq_refl m.to_key,
  get_in-del_in m.from_key m.from_key src,
  get-put m.to_key m.to_key (m.reader.embed v) dst,
)

move_val-IsMoved :
    (m : Move) (s s' : Yobj × Yobj)
    → move_val m.reader m.from_key m.to_key s ≡ ok s'
    → IsMoved m s s'
move_val-IsMoved m s s' e =
    finish_move-IsMoved m s s' (field_val m.reader s.0 m.from_key)
      (absent-of-field_val m.reader m.from_key s.0) (unfold move_val in e)

join_moves-errs :
    (ms : List Move) (s s' : Yobj × Yobj) (errs : Option Error)
    → join_moves ms s errs ≡ ok s'
    → errs ≡ none
unfolding join_moves
join_moves-errs [] s s' none e = refl
join_moves-errs [] s s' (some x) e = cc
join_moves-errs (m ∷ ms) s s' errs e =
    elim (Outcome-cases (move_val m.reader m.from_key m.to_key s)) [
      | inl (s₁, moved) ↦ join_moves-errs ms s₁ s' errs (ground arith)
      | inr (inl (x, failed)) ↦ absurd (ground (arith, join_moves-errs ms s s' (join errs x)))
      | inr (inr panics) ↦ absurd (ground arith)
    ]

-- A series that succeeds began with a move that did.
join_moves-first :
    (m : Move) (ms : List Move) (s s' : Yobj × Yobj) (errs : Option Error)
    → join_moves (m ∷ ms) s errs ≡ ok s'
    → (s₁ : Yobj × Yobj) × (move_val m.reader m.from_key m.to_key s ≡ ok s₁)
      × (join_moves ms s₁ errs ≡ ok s')
unfolding join_moves
join_moves-first m ms s s' errs e = elim (Outcome-cases (move_val m.reader m.from_key m.to_key s)) [
  | inl (s₁, moved) ↦ (s₁, moved, ground arith)
  | inr (inl (x, failed)) ↦ absurd (ground (arith, join_moves-errs ms s s' (join errs x)))
  | inr (inr panics) ↦ absurd (ground arith)
]

-- A key of a later move is none of this one's.
elem-at :
    (ms : List Move) (n : ℕ) (m : Move)
    → get_elem? ms n ≡ some m
    → (elem m.from_key (from_keys ms) ≡ true) × (elem m.to_key (to_keys ms) ≡ true)
elem-at [] n m h = cc
elem-at (x ∷ ms) zero m h = ground (arith, eq_refl m.from_key, eq_refl m.to_key)
elem-at (x ∷ ms) (suc n) m h = ground (arith, elem-at ms n m h)

ne_of_elem :
    (a b : String) (ks : List String) → elem a ks ≡ false → elem b ks ≡ true → str_eq a b ≡ false
ne_of_elem a b ks h k = ground (arith, eq_iff a b)

field_val-move_val :
    (m x : Move) (s s₁ : Yobj × Yobj)
    → str_eq x.from_key m.from_key ≡ false
    → move_val x.reader x.from_key x.to_key s ≡ ok s₁
    → field_val m.reader s₁.0 m.from_key ≡ field_val m.reader s.0 m.from_key
unfolding field_val
field_val-move_val m x s s₁ h e =
    rw (get_in-move_val x.reader x.from_key x.to_key m.from_key s s₁ h e)

-- Of moves with different sources and different destinations that all succeed, each has moved its
-- setting, whatever its place in the list.
pub join_moves-IsMoved :
    (ms : List Move) (n : ℕ) (m : Move) (s s' : Yobj × Yobj) (errs : Option Error)
    → distinct (from_keys ms) ≡ true
    → distinct (to_keys ms) ≡ true
    → get_elem? ms n ≡ some m
    → join_moves ms s errs ≡ ok s'
    → IsMoved m s s'
unfolding join_moves
join_moves-IsMoved [] n m s s' errs d₁ d₂ at e = cc
join_moves-IsMoved (x ∷ ms) zero m s s' errs d₁ d₂ at e =
    let (s₁, moved, later) = join_moves-first x ms s s' errs e in
    ground (
      arith,
      move_val-IsMoved x s s₁ moved,
      get_in-join_moves ms x.from_key s₁ s' errs,
      get_in-join_moves_to ms x.to_key s₁ s' errs,
    )
join_moves-IsMoved (x ∷ ms) (suc n) m s s' errs d₁ d₂ at e =
    let (s₁, moved, later) = join_moves-first x ms s s' errs e in
    let (from_in, to_in) = elem-at ms n m at in
    let from_ne = ne_of_elem x.from_key m.from_key (from_keys ms) (ground arith) from_in in
    let to_ne = ne_of_elem x.to_key m.to_key (to_keys ms) (ground arith) to_in in
    let (there, gone) =
      join_moves-IsMoved ms n m s₁ s' errs (ground arith) (ground arith) at later in
    (
      there
          ∙ ap₂ (after_move m.reader)
              (get_in-move_val_to x.reader x.from_key x.to_key m.to_key s s₁ to_ne moved)
              (field_val-move_val m x s s₁ from_ne moved),
      gone,
    )

-- Two maps that are not nil are not nil after a series of moves.
pub join_moves-some :
    (ms : List Move) (src dst : Fields) (s' : Yobj × Yobj) (errs : Option Error)
    → join_moves ms (some src, some dst) errs ≡ ok s'
    → (src' : Fields) × (dst' : Fields) × (s' ≡ (some src', some dst'))
unfolding join_moves move_val
join_moves-some [] src dst s' none e = (src, dst, ground arith)
join_moves-some [] src dst s' (some x) e = cc
join_moves-some (m ∷ ms) src dst s' errs e =
    elim (Field-cases (field_val m.reader (some src) m.from_key)) [
      | inl nothing ↦ join_moves-some ms src dst s' errs (ground arith)
      | inr (inl bad) ↦
          join_moves-some ms src dst s' (join errs (unexpected_type m.from_key)) (ground arith)
      | inr (inr (v, there)) ↦
          join_moves-some ms (del m.from_key src) (put m.to_key (m.reader.embed v) dst) s' errs
            (ground arith)
    ]
