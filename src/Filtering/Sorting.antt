-- ===== src/Filtering/Sorting.antt =====
-- A sort of rewrites, which the tests take for `slices.SortFunc`.
use Prim.Native.Nat.Ordering.{lt}
use mathlib.Core.List.{Memᴰ}
use mathlib.Core.List.Memᴰ
use mathlib.Core.List.Memᴰ.{head, tail}
use null_private.Prelude.{
  ◌≡◌, ◌≢◌, refl, sym, subst, ◌↔◌, ◌⊎◌, inl, inr, Bool, true, false, List, [], ◌∷◌, arith,
  if◌then◌else◌, Bool-cases,
}
use null_private.Filtering.Rewrites.{LegacyRewrite, compare_rewrites}
use null_private.Filtering.Rewrites.Select.{IsOrdered, IsSort}

abbrev is_before : LegacyRewrite → LegacyRewrite → Bool
is_before x r = elim (compare_rewrites x r) [ lt ↦ true | _ ↦ false ]

abbrev put : LegacyRewrite → List LegacyRewrite → List LegacyRewrite
put x [] = x ∷ []
put x (r ∷ rs) = let later = put x rs in if is_before x r then x ∷ r ∷ rs else r ∷ later

abbrev pub sort_rewrites : List LegacyRewrite → List LegacyRewrite
sort_rewrites [] = []
sort_rewrites (x ∷ xs) = put x (sort_rewrites xs)

before_trans :
    (x y z : LegacyRewrite)
    → compare_rewrites x y ≡ lt
    → compare_rewrites y z ≡ lt
    → compare_rewrites x z ≡ lt
unfolding compare_rewrites
before_trans x y z h k = ground (arith, h, k)

not_both : (x y : LegacyRewrite) → compare_rewrites x y ≡ lt → compare_rewrites y x ≢ lt
unfolding compare_rewrites
not_both x y h k = ground (arith, h, k)

Memᴰ-put :
    (y x : LegacyRewrite) (rs : List LegacyRewrite) → Memᴰ y (put x rs) ↔ ((y ≡ x) ⊎ Memᴰ y rs)
Memᴰ-put y x [] = (Memᴰ.cases_cons, elim [ inl e ↦ head e | inr m ↦ tail m ])
Memᴰ-put y x (r ∷ rs) = elim (Bool-cases (is_before x r)) [
  | inl first ↦
      let step : put x (r ∷ rs) ≡ x ∷ r ∷ rs = rw first refl in
      (λ m. Memᴰ.cases_cons (subst (Memᴰ y) step m), λ h. subst (Memᴰ y) (sym step) (joined h))
  | inr later ↦
      let step : put x (r ∷ rs) ≡ r ∷ put x rs = rw later refl in
      let (out, back) = Memᴰ-put y x rs in
      (
        λ m. elim (Memᴰ.cases_cons (subst (Memᴰ y) step m)) [
          | inl e ↦ inr (head e)
          | inr n ↦ elim (out n) [ inl e ↦ inl e | inr k ↦ inr (tail k) ]
        ],
        λ h. subst (Memᴰ y) (sym step) (elim h [
          | inl e ↦ tail (back (inl e))
          | inr m ↦ elim (Memᴰ.cases_cons m) [ inl e ↦ head e | inr k ↦ tail (back (inr k)) ]
        ]),
      )
]
  where
    joined : {l : List LegacyRewrite} → (y ≡ x) ⊎ Memᴰ y l → Memᴰ y (x ∷ l)
    joined (inl e) = head e
    joined (inr m) = tail m

put-IsOrdered : (x : LegacyRewrite) (rs : List LegacyRewrite) → IsOrdered rs → IsOrdered (put x rs)
put-IsOrdered x [] o = (λ y m. absurd (Memᴰ.not-nil m), tt)
put-IsOrdered x (r ∷ rs) o = elim (Bool-cases (is_before x r)) [
  | inl first ↦
      let step : put x (r ∷ rs) ≡ x ∷ r ∷ rs = rw first refl in
      let before : compare_rewrites x r ≡ lt = ground (arith, first) in
      subst IsOrdered (sym step) (
        λ y m. elim (Memᴰ.cases_cons m) [
          | inl e ↦ λ h. not_both x r before (subst (λ z. compare_rewrites z x ≡ lt) e h)
          | inr k ↦ λ h. o.0 y k (before_trans y x r h before)
        ],
        o,
      )
  | inr later ↦
      let step : put x (r ∷ rs) ≡ r ∷ put x rs = rw later refl in
      subst IsOrdered (sym step) (
        λ y m. elim ((Memᴰ-put y x rs).0 m) [
          | inl e ↦ λ h. ground (arith, later, subst (λ z. compare_rewrites z r ≡ lt) e h)
          | inr k ↦ o.0 y k
        ],
        put-IsOrdered x rs o.1,
      )
]

pub sort_rewrites-IsSort : IsSort sort_rewrites
sort_rewrites-IsSort = record { entries = same; ordered = ordered }
  where
    same : (x : LegacyRewrite) (es : List LegacyRewrite) → Memᴰ x (sort_rewrites es) ↔ Memᴰ x es
    same x [] = (λ m. m, λ m. m)
    same x (e ∷ es) =
        let (out, back) = Memᴰ-put x e (sort_rewrites es) in
        let (down, up) = same x es in
        (
          λ m. elim (out m) [ inl h ↦ head h | inr k ↦ tail (down k) ],
          λ m. elim (Memᴰ.cases_cons m) [ inl h ↦ back (inl h) | inr k ↦ back (inr (up k)) ],
        )

    ordered : (es : List LegacyRewrite) → IsOrdered (sort_rewrites es)
    ordered [] = tt
    ordered (e ∷ es) = put-IsOrdered e (sort_rewrites es) (ordered es)
