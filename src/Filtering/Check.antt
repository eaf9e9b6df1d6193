-- ===== src/Filtering/Check.antt =====
-- internal/filtering/filtering.go: `CheckHost`. The checkers (`d.hostCheckers`) are parameters, and so
-- are `strings.ToLower` and the settings.
use null_private.Prelude.{
  ℕ, ◌<◌, String, ◌≡◌, ◌≢◌, refl, sym, ap, subst, ◌⊎◌, inl, inr, Bool, true, false, Option, none,
  some, List, [], ◌∷◌, ◌++◌, arith, length, if◌then◌else◌, Bool-cases, Option-cases,
}
use null_private.Prelude.Map.{◌==◌, bytes_eq}
use null_private.Filtering.Outcome.{Outcome, no_outcome, reason_eqb, rewritten, matched}
use null_private.Filtering.Rewrites.{Text, LegacyRewrite, process_rewrites}
use null_private.Filtering.Rewrites.Select.{IsSort}
use null_private.Filtering.Rewrites.Chain.{IsRewrite}
use null_private.Filtering.Rewrites.Terminates.{process_rewrites-IsOutcome}

-- The end of a check: `err` has the name of the checker that failed.
pub data Checked : Type 0 where
  ok : Outcome → Checked
  err : String → Checked

-- `none` is an error of the checker; `S` are the settings.
pub record HostChecker (S : Type 0) : Type 0 where
  pub check : Text → ℕ → S → Option Outcome
  pub name : String

module _ {S : Type 0} where
  unfoldable pub run_checkers : List (HostChecker S) → Text → ℕ → S → Checked
  run_checkers [] host qtype setts = ok no_outcome
  run_checkers (hc ∷ checkers) host qtype setts =
      let later = run_checkers checkers host qtype setts in
      elim (hc.check host qtype setts) [
        | none ↦ err hc.name
        | some res ↦ if matched res.reason then ok res else later
      ]

  -- `none` is fuel that has run out.
  unfoldable pub check_host :
      (List LegacyRewrite → List LegacyRewrite)
      → (Text → Text)
      → (S → Bool)
      → List (HostChecker S)
      → List LegacyRewrite
      → ℕ
      → Text
      → ℕ
      → S
      → Option Checked
  check_host sort lower filtering_enabled checkers entries fuel host qtype setts =
      let rest : Checked = run_checkers checkers (lower host) qtype setts in
      if host == []
      then some (ok no_outcome)
      else if filtering_enabled setts
      then elim (process_rewrites sort entries qtype fuel (lower host)) [
        | none ↦ none
        | some res ↦ if reason_eqb res.reason rewritten then some (ok res) else some rest
      ]
      else some rest

  -- A checker that finds nothing.
  abbrev IsSilent : Text → ℕ → S → List (HostChecker S) → Type 0
  IsSilent host qtype setts [] = Unit {0}
  IsSilent host qtype setts (hc ∷ checkers) =
      ((res : Outcome) × (hc.check host qtype setts ≡ some res) × (matched res.reason ≡ false))
      × IsSilent host qtype setts checkers

  -- What the checkers decide: the first that fails or matches, and nothing if none does.
  abbrev pub IsDecided : Text → ℕ → S → List (HostChecker S) → Checked → Type 0
  IsDecided host qtype setts checkers (err name) =
      (before after : List (HostChecker S)) × (hc : HostChecker S) × (checkers
        ≡ before ++ (hc ∷ after))
      × IsSilent host qtype setts before
      × (hc.check host qtype setts ≡ none)
      × (hc.name ≡ name)
  IsDecided host qtype setts checkers (ok res) =
      (IsSilent host qtype setts checkers × (res ≡ no_outcome))
      ⊎ ((before after : List (HostChecker S)) × (hc : HostChecker S) × (checkers
            ≡ before ++ (hc ∷ after))
          × IsSilent host qtype setts before
          × (hc.check host qtype setts ≡ some res)
          × (matched res.reason ≡ true))

  run_checkers-IsDecided :
      (checkers : List (HostChecker S)) (host : Text) (qtype : ℕ) (setts : S)
      → IsDecided host qtype setts checkers (run_checkers checkers host qtype setts)
  unfolding run_checkers
  run_checkers-IsDecided [] host qtype setts = inl (tt, refl)
  run_checkers-IsDecided (hc ∷ checkers) host qtype setts =
      elim (Option-cases (hc.check host qtype setts)) [
        | inl fails ↦
            let out : run_checkers (hc ∷ checkers) host qtype setts ≡ err hc.name = rw fails refl in
            subst (IsDecided host qtype setts (hc ∷ checkers)) (sym out)
              ([], checkers, hc, refl, tt, fails, refl)
        | inr (res, answers) ↦ elim (Bool-cases (matched res.reason)) [
          | inl found ↦
              let out : run_checkers (hc ∷ checkers) host qtype setts ≡ ok res =
                rw (answers, found) refl in
              subst (IsDecided host qtype setts (hc ∷ checkers)) (sym out)
                (inr ([], checkers, hc, refl, tt, answers, found))
          | inr silent ↦
              let out : run_checkers (hc ∷ checkers) host qtype setts
                  ≡ run_checkers checkers host qtype setts =
                rw (answers, silent) refl in
              subst (IsDecided host qtype setts (hc ∷ checkers)) (sym out) (
                decided-cons hc checkers (run_checkers checkers host qtype setts)
                  (res, answers, silent) (run_checkers-IsDecided checkers host qtype setts))
        ]
      ]
    where
      decided-cons :
          (hc : HostChecker S) (checkers : List (HostChecker S)) (c : Checked)
          → ((res : Outcome) × (hc.check host qtype setts ≡ some res)
              × (matched res.reason ≡ false))
          → IsDecided host qtype setts checkers c
          → IsDecided host qtype setts (hc ∷ checkers) c
      decided-cons hc checkers (err name) quiet (before, after, x, split, silent, fails, named) =
          (hc ∷ before, after, x, ap (◌∷◌ hc) split, (quiet, silent), fails, named)
      decided-cons hc checkers (ok res) quiet (inl (silent, nothing)) =
          inl ((quiet, silent), nothing)
      decided-cons hc checkers (ok res) quiet
            (inr (before, after, x, split, silent, answers, found)) =
          inr (hc ∷ before, after, x, ap (◌∷◌ hc) split, (quiet, silent), answers, found)

  -- What a check with filtering enabled comes to, by the outcome of its rewrites.
  abbrev IsRewritten :
      List LegacyRewrite → Text → ℕ → S → List (HostChecker S) → Outcome → Checked → Type 0
  IsRewritten entries host qtype setts checkers res c =
      ((res.reason ≡ rewritten) × IsRewrite entries qtype host res × (c ≡ ok res))
      ⊎ ((res.reason ≢ rewritten) × IsDecided host qtype setts checkers c)

  -- What a check comes to: exactly one of three cases, each with its condition.
  abbrev pub IsChecked :
      (List LegacyRewrite → List LegacyRewrite)
      → (Text → Text)
      → (S → Bool)
      → List (HostChecker S)
      → List LegacyRewrite
      → ℕ
      → Text
      → ℕ
      → S
      → Checked
      → Type 0
  IsChecked sort lower filtering_enabled checkers entries fuel host qtype setts c =
      ((host ≡ []) × (c ≡ ok no_outcome))
      ⊎ (((host ≢ [])
            × (filtering_enabled setts ≡ false)
            × IsDecided (lower host) qtype setts checkers c)
          ⊎ ((host ≢ [])
              × (filtering_enabled setts ≡ true)
              × ((res : Outcome) × (process_rewrites sort entries qtype fuel (lower host)
                    ≡ some res)
                  × IsRewritten entries (lower host) qtype setts checkers res c)))

  -- A check always ends. A request for the root is not checked. With filtering disabled, any other host
  -- has the outcome of the first checker that fails or matches, and none if no checker does. With
  -- filtering enabled, its rewrites are processed first: if their outcome is that it is rewritten, this
  -- outcome is that of the check, and it is what a chain of CNAMEs leads to; if not, the checkers decide
  -- in the same way.
  -- The fuel must exceed the number of rewrites, and their sort return the same entries, in order.
  pub check_host-IsChecked :
      (sort : List LegacyRewrite → List LegacyRewrite) (s : IsSort sort) (lower : Text → Text)
      (filtering_enabled : S → Bool) (checkers : List (HostChecker S))
      (entries : List LegacyRewrite) (fuel : ℕ) (host : Text) (qtype : ℕ) (setts : S)
      → length entries < fuel
      → (c : Checked) × (check_host sort lower filtering_enabled checkers entries fuel host qtype
            setts
          ≡ some c)
        × IsChecked sort lower filtering_enabled checkers entries fuel host qtype setts c
  unfolding check_host
  check_host-IsChecked sort s lower filtering_enabled checkers entries fuel host qtype setts
        enough =
      let rest : Checked = run_checkers checkers (lower host) qtype setts in
      let decided = run_checkers-IsDecided checkers (lower host) qtype setts in
      elim (Bool-cases (host == [])) [
        | inl root ↦ (ok no_outcome, rw root refl, inl ((bytes_eq.beq_iff host []).0 root, refl))
        | inr named ↦
            let named' : host ≢ [] =
              λ e. (let same = (bytes_eq.beq_iff host []).1 e in ground (arith, same, named)) in
            elim (Bool-cases (filtering_enabled setts)) [
              | inr off ↦ (rest, rw (named, off) refl, inr (inl (named', off, decided)))
              | inl on ↦
                  let (res, runs, is, _) =
                    process_rewrites-IsOutcome sort s entries qtype fuel (lower host) enough in
                  elim (Bool-cases (reason_eqb res.reason rewritten)) [
                    | inr other ↦ (
                      rest,
                      rw (named, on, runs, other) refl,
                      inr (
                          inr (
                            named',
                            on,
                            (res, runs, inr ((λ e. ground (arith, other, e)), decided)),
                          )),
                    )
                    | inl hit ↦ (
                      ok res,
                      rw (named, on, runs, hit) refl,
                      inr (
                          inr (
                            named',
                            on,
                            (
                              res,
                              runs,
                              inl (
                                ground (arith, hit),
                                elim is [
                                  | inl nothing ↦ absurd (ground (arith, hit, nothing))
                                  | inr rewrite ↦ rewrite
                                ],
                                refl,
                              ),
                            ),
                          )),
                    )
                  ]
            ]
      ]
