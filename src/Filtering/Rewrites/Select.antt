-- ===== src/Filtering/Rewrites/Select.antt =====
-- Which entries `findRewrites` selects.
use Prim.Native.Nat.Ordering.{lt}
use mathlib.Core.List.{Memᴰ}
use mathlib.Core.List.Memᴰ
use mathlib.Core.List.Memᴰ.{head, tail}
use null_private.Prelude.{
  ℕ, ◌≡◌, ◌≢◌, refl, sym, ap, ◌∙◌, subst, ◌↔◌, inl, inr, Bool, true, false, ◌||◌, ◌&&◌, List, [],
  ◌∷◌, arith, if◌then◌else◌, Bool-cases,
}
use null_private.Filtering.Rewrites.{
  Text, LegacyRewrite, matches_host, matches_qtype, is_wildcard, compare_rewrites, collect,
  before_wildcard,
}

-- An order in which no entry stands after one that it belongs before.
abbrev pub IsOrdered : List LegacyRewrite → Type 0
IsOrdered [] = Unit {0}
IsOrdered (r ∷ rws) = ((x : LegacyRewrite) → Memᴰ x rws → compare_rewrites x r ≢ lt) × IsOrdered rws

-- What `slices.SortFunc` does: the same entries, in order.
pub record IsSort (sort : List LegacyRewrite → List LegacyRewrite) : Type 0 where
  pub entries : (x : LegacyRewrite) (es : List LegacyRewrite) → Memᴰ x (sort es) ↔ Memᴰ x es
  pub ordered : (es : List LegacyRewrite) → IsOrdered (sort es)

-- An entry for a question.
pub record IsFor (entries : List LegacyRewrite) (host : Text) (qtype : ℕ) (rw : LegacyRewrite)
    : Type 0 where
  pub entry : Memᴰ rw entries
  pub for_host : matches_host rw host ≡ true
  pub for_type : matches_qtype rw qtype ≡ true

IsFor-tail :
    (e : LegacyRewrite) (entries : List LegacyRewrite) (host : Text) (qtype : ℕ) (x : LegacyRewrite)
    → IsFor entries host qtype x
    → IsFor (e ∷ entries) host qtype x
IsFor-tail e entries host qtype x r = record {
  entry = tail r.entry;
  for_host = r.for_host;
  for_type = r.for_type;
}

collect_step :
    (e : LegacyRewrite) (entries : List LegacyRewrite) (host : Text) (qtype : ℕ)
    → (collect (e ∷ entries) host qtype).0 ≡ (
        if matches_host e host && matches_qtype e qtype
        then e ∷ (collect entries host qtype).0
        else (collect entries host qtype).0)
unfolding collect
collect_step e entries host qtype = ground arith

matched_step :
    (e : LegacyRewrite) (entries : List LegacyRewrite) (host : Text) (qtype : ℕ)
    → (collect (e ∷ entries) host qtype).1 ≡ (matches_host e host || (collect entries host qtype).1)
unfolding collect
matched_step e entries host qtype = ground arith

-- The first loop keeps exactly the entries for the question.
pub collect_iff :
    (entries : List LegacyRewrite) (host : Text) (qtype : ℕ) (x : LegacyRewrite)
    → Memᴰ x (collect entries host qtype).0 ↔ IsFor entries host qtype x
unfolding collect
collect_iff [] host qtype x = (λ m. absurd (Memᴰ.not-nil m), λ r. absurd (Memᴰ.not-nil r.entry))
collect_iff (e ∷ entries) host qtype x =
    let (sound, complete) = collect_iff entries host qtype x in
    elim (Bool-cases (matches_host e host && matches_qtype e qtype)) [
      | inl keep ↦
          let step : (collect (e ∷ entries) host qtype).0 ≡ e ∷ (collect entries host qtype).0 =
            collect_step e entries host qtype ∙ rw keep refl in
          (
            λ m. elim (Memᴰ.cases_cons (subst (Memᴰ x) step m)) [
              | inl same ↦ subst (IsFor (e ∷ entries) host qtype) (sym same) (record {
                entry = head refl;
                for_host = ground (arith, keep);
                for_type = ground (arith, keep);
              })
              | inr later ↦ IsFor-tail e entries host qtype x (sound later)
            ],
            λ r. subst (Memᴰ x) (sym step) (elim (Memᴰ.cases_cons r.entry) [
              | inl same ↦ head same
              | inr later ↦ tail (
                  complete (record { entry = later; for_host = r.for_host; for_type = r.for_type }))
            ]),
          )
      | inr skip ↦
          let step : (collect (e ∷ entries) host qtype).0 ≡ (collect entries host qtype).0 =
            collect_step e entries host qtype ∙ rw skip refl in
          (
            λ m. IsFor-tail e entries host qtype x (sound (subst (Memᴰ x) step m)),
            λ r. subst (Memᴰ x) (sym step) (elim (Memᴰ.cases_cons r.entry) [
              | inl same ↦
                  let host_e : matches_host e host ≡ true =
                    subst (λ y. matches_host y host ≡ true) same r.for_host in
                  let type_e : matches_qtype e qtype ≡ true =
                    subst (λ y. matches_qtype y qtype ≡ true) same r.for_type in
                  absurd (ground (arith, skip, host_e, type_e))
              | inr later ↦
                  complete (record { entry = later; for_host = r.for_host; for_type = r.for_type })
            ]),
          )
    ]

-- Whether the host is among the entries, of whatever type.
abbrev pub is_known : List LegacyRewrite → Text → Bool
is_known [] host = false
is_known (e ∷ entries) host = matches_host e host || is_known entries host

pub matched_lem :
    (entries : List LegacyRewrite) (host : Text) (qtype : ℕ)
    → (collect entries host qtype).1 ≡ is_known entries host
unfolding collect
matched_lem [] host qtype = refl
matched_lem (e ∷ entries) host qtype =
    matched_step e entries host qtype
    ∙ ap (λ b. matches_host e host || b) (matched_lem entries host qtype)

-- The second loop takes entries from the front, at least one, and wildcards only as the first.
pub before_wildcard-among :
    (rws : List LegacyRewrite) (x : LegacyRewrite)
    → Memᴰ x (before_wildcard rws)
    → Memᴰ x rws × (is_wildcard x.domain ≡ false)
unfolding before_wildcard
before_wildcard-among [] x m = absurd (Memᴰ.not-nil m)
before_wildcard-among (r ∷ rws) x m = elim (Bool-cases (is_wildcard r.domain)) [
  | inl wild ↦ absurd (Memᴰ.not-nil (subst (Memᴰ x) (rw wild refl) m))
  | inr exact ↦
      let step : before_wildcard (r ∷ rws) ≡ r ∷ before_wildcard rws = rw exact refl in
      elim (Memᴰ.cases_cons (subst (Memᴰ x) step m)) [
        | inl same ↦ (head same, ap (λ y. is_wildcard y.domain) same ∙ exact)
        | inr later ↦ let (m', e) = before_wildcard-among rws x later in (tail m', e)
      ]
]
