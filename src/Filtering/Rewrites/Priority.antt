-- ===== src/Filtering/Rewrites/Priority.antt =====
-- The priority among the entries for a question.
use Prim.Native.Nat.Ordering.{lt}
use mathlib.Core.List.{Memᴰ}
use mathlib.Core.List.Memᴰ
use mathlib.Core.List.Memᴰ.{head, tail}
use null_private.Prelude.{
  ℕ, ◌≤◌, ◌≡◌, ◌≢◌, refl, sym, ap, ◌∙◌, subst, ◌↔◌, ◌⊎◌, inl, inr, Bool, true, false, List, [], ◌∷◌,
  arith, length, ◌==◌ as nat_eqb, if◌then◌else◌, Bool-cases,
}
use null_private.Filtering.Rewrites.{
  Text, LegacyRewrite, type_cname, is_wildcard, compare_rewrites, collect, before_wildcard, cut,
  find_rewrites,
}
use null_private.Filtering.Rewrites.Select.{
  IsOrdered, IsSort, IsFor, collect_iff, is_known, matched_lem, before_wildcard-among,
}

abbrev pub is_cname : LegacyRewrite → Bool
is_cname r = nat_eqb r.type type_cname

-- What it means that `x` does not belong before `r`: CNAMEs come first; among CNAMEs, and among the
-- others, exact names come before wildcards, and longer wildcards before shorter ones.
priority :
    (x r : LegacyRewrite)
    → compare_rewrites x r ≢ lt
    → (is_cname x ≡ true → is_cname r ≡ true)
      × (is_cname x ≡ is_cname r
          → is_wildcard r.domain ≡ true
          → (is_wildcard x.domain ≡ true) × (length x.domain ≤ length r.domain))
unfolding compare_rewrites
priority x r h = ground (arith, h)

-- The entries that are selected, in order, of those for the question.
abbrev pub IsSelection : List LegacyRewrite → Text → ℕ → List LegacyRewrite → Type 0
IsSelection entries host qtype [] = (x : LegacyRewrite) → IsFor entries host qtype x → true ≡ false
IsSelection entries host qtype (r ∷ rs) =
    IsFor entries host qtype r
    × ((x : LegacyRewrite)
        → Memᴰ x rs
        → IsFor entries host qtype x × (is_wildcard x.domain ≡ false))
    × (is_wildcard r.domain ≡ true → rs ≡ [])
    × ((x : LegacyRewrite)
        → IsFor entries host qtype x
        → (is_cname x ≡ true → is_cname r ≡ true)
          × (is_cname x ≡ is_cname r
              → is_wildcard r.domain ≡ true
              → (is_wildcard x.domain ≡ true) × (length x.domain ≤ length r.domain))
          × (is_cname r ≡ false → is_wildcard x.domain ≡ false → Memᴰ x (r ∷ rs)))

-- Without CNAMEs, every exact entry stands before the first wildcard.
before_wildcard_complete :
    (rws : List LegacyRewrite) (x : LegacyRewrite)
    → IsOrdered rws
    → ((y : LegacyRewrite) → Memᴰ y rws → is_cname y ≡ false)
    → is_wildcard x.domain ≡ false
    → Memᴰ x rws
    → Memᴰ x (before_wildcard rws)
unfolding before_wildcard
before_wildcard_complete [] x o plain exact m = absurd (Memᴰ.not-nil m)
before_wildcard_complete (r ∷ rws) x o plain exact m = elim (Bool-cases (is_wildcard r.domain)) [
  | inl wild ↦ elim (Memᴰ.cases_cons m) [
    | inl same ↦ absurd (ground (arith, wild, ap (λ y. is_wildcard y.domain) same, exact))
    | inr later ↦
        let (_, below) = priority x r (o.0 x later) in
        let (wild', _) = below (plain x m ∙ sym (plain r (head refl))) wild in
        absurd (ground (arith, wild', exact))
  ]
  | inr e ↦
      let step : before_wildcard (r ∷ rws) ≡ r ∷ before_wildcard rws = rw e refl in
      subst (Memᴰ x) (sym step) (elim (Memᴰ.cases_cons m) [
        | inl same ↦ head same
        | inr later ↦
            tail (before_wildcard_complete rws x o.1 (λ y n. plain y (tail n)) exact later)
      ])
]

not_before_self : (r : LegacyRewrite) → compare_rewrites r r ≢ lt
unfolding compare_rewrites
not_before_self r h = ground (arith, h)

List-cases : {A : Type 0} (xs : List A) → (xs ≡ []) ⊎ ((y : A) × (ys : List A) × (xs ≡ y ∷ ys))
List-cases [] = inl refl
List-cases (x ∷ xs) = inr (x, xs, refl)

-- What the cut makes of the ordered entries for a question.
cut-IsSelection :
    (entries : List LegacyRewrite) (host : Text) (qtype : ℕ) (rws : List LegacyRewrite)
    → ((x : LegacyRewrite) → Memᴰ x rws ↔ IsFor entries host qtype x)
    → IsOrdered rws
    → IsSelection entries host qtype (cut rws)
unfolding cut
cut-IsSelection entries host qtype [] all o = λ x f. absurd (Memᴰ.not-nil ((all x).1 f))
cut-IsSelection entries host qtype (r ∷ rws) all o =
    let first : (x : LegacyRewrite) → IsFor entries host qtype x → compare_rewrites x r ≢ lt =
      λ x f. elim (Memᴰ.cases_cons ((all x).1 f)) [
        | inl same ↦ subst (λ y. compare_rewrites y r ≢ lt) (sym same) (not_before_self r)
        | inr later ↦ o.0 x later
      ] in
    elim (Bool-cases (is_wildcard r.domain)) [
      | inl wild ↦
          let rest : (if is_wildcard r.domain then [] else before_wildcard rws) ≡ [] =
            rw wild refl in
          subst (λ l. IsSelection entries host qtype (r ∷ l)) (sym rest)
            (
              (all r).0 (head refl),
              λ x m. absurd (Memᴰ.not-nil m),
              λ w. refl,
              λ x f. (
                (priority x r (first x f)).0,
                (priority x r (first x f)).1,
                λ plain exact.
                    let cname : is_cname x ≡ false =
                      ground (arith, plain, (priority x r (first x f)).0) in
                    absurd (
                      ground (arith, exact, (priority x r (first x f)).1 (cname ∙ sym plain) wild)),
              ),
            )
      | inr e ↦
          let rest : (if is_wildcard r.domain then [] else before_wildcard rws)
              ≡ before_wildcard rws =
            rw e refl in
          subst (λ l. IsSelection entries host qtype (r ∷ l)) (sym rest)
            (
              (all r).0 (head refl),
              λ x m.
                  (let (m', exact) = before_wildcard-among rws x m in ((all x).0 (tail m'), exact)),
              λ w. absurd (ground (arith, e, w)),
              λ x f. (
                (priority x r (first x f)).0,
                (priority x r (first x f)).1,
                λ plain exact. elim (Memᴰ.cases_cons ((all x).1 f)) [
                  | inl same ↦ head same
                  | inr later ↦ tail (
                      before_wildcard_complete rws x o.1
                        (λ y n. ground (arith, plain, (priority y r (o.0 y n)).0)) exact later)
                ],
              ),
            )
    ]

module _ (sort : List LegacyRewrite → List LegacyRewrite) (s : IsSort sort) where
  -- The search for rewrites selects, in this order, of the entries that match the host and the question
  -- type: first a CNAME, if there is one; a wildcard only as the only entry, and only if no entry of
  -- its kind (CNAMEs, or addresses) is exact or has a longer wildcard; and where there is no CNAME,
  -- every exact entry. It selects nothing only if there is no entry to select, and `matched` says
  -- whether any entry matches the host, for whatever type.
  -- The sort must return the same entries, in order.
  pub find_rewrites-IsSelection :
      (entries : List LegacyRewrite) (host : Text) (qtype : ℕ)
      → IsSelection entries host qtype (find_rewrites sort entries host qtype).0
        × ((find_rewrites sort entries host qtype).1 ≡ is_known entries host)
  unfolding find_rewrites
  find_rewrites-IsSelection entries host qtype = elim (List-cases (collect entries host qtype).0) [
    | inl nothing ↦
        let out : (find_rewrites sort entries host qtype).0 ≡ [] = ground (arith, nothing) in
        (
          subst (IsSelection entries host qtype) (sym out) (λ x f.
              absurd
                (Memᴰ.not-nil (subst (Memᴰ x) nothing ((collect_iff entries host qtype x).1 f)))),
          ground (arith, nothing, matched_lem entries host qtype),
        )
    | inr (e, es, some_for) ↦
        let out : (find_rewrites sort entries host qtype).0 ≡ cut (sort (e ∷ es)) =
          ground (arith, some_for) in
        (
          subst (IsSelection entries host qtype) (sym out) (
              cut-IsSelection entries host qtype (sort (e ∷ es))
                (λ x. (
                  λ m.
                      (collect_iff entries host qtype x).0
                        (subst (Memᴰ x) (sym some_for) ((s.entries x (e ∷ es)).0 m)),
                  λ f.
                      (s.entries x (e ∷ es)).1
                        (subst (Memᴰ x) some_for ((collect_iff entries host qtype x).1 f)),
                ))
                (s.ordered (e ∷ es))),
          ground (arith, some_for, matched_lem entries host qtype),
        )
  ]
