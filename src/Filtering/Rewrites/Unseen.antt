-- ===== src/Filtering/Rewrites/Unseen.antt =====
-- The measure of the loop over CNAMEs.
use mathlib.Core.List.{Memᴰ}
use mathlib.Core.List.Memᴰ
use null_private.Prelude.{
  ℕ, suc, ◌≤◌, ◌<◌, ◌≡◌, ap, subst, inl, inr, true, false, List, [], ◌∷◌, arith, length,
  if◌then◌else◌,
}
use null_private.Prelude.Map.{mem, ◌==◌, bytes_eq}
use null_private.Filtering.Rewrites.{Text, LegacyRewrite}

-- How many entries have an answer that the loop has not met.
abbrev pub unseen : List Text → List LegacyRewrite → ℕ
unseen cnames [] = 0
unseen cnames (e ∷ entries) =
    let rest = unseen cnames entries in if mem e.answer cnames then rest else suc rest

unseen-le :
    (a : Text) (cnames : List Text) (es : List LegacyRewrite)
    → unseen (a ∷ cnames) es ≤ unseen cnames es
unseen-le a cnames [] = omega arith
unseen-le a cnames (e ∷ es) = ground (arith, unseen-le a cnames es)

pub unseen-lt :
    (r : LegacyRewrite) (cnames : List Text) (es : List LegacyRewrite)
    → Memᴰ r es
    → mem r.answer cnames ≡ false
    → unseen (r.answer ∷ cnames) es < unseen cnames es
unseen-lt r cnames [] m new = absurd (Memᴰ.not-nil m)
unseen-lt r cnames (e ∷ es) m new = elim (Memᴰ.cases_cons m) [
  | inl same ↦
      let same_answer : r.answer ≡ e.answer = ap (λ x. x.answer) same in
      let new' : mem e.answer cnames ≡ false = subst (λ x. mem x cnames ≡ false) same_answer new in
      let seen : (r.answer == e.answer) ≡ true =
        (bytes_eq.beq_iff r.answer e.answer).1 same_answer in
      ground (arith, unseen-le r.answer cnames es, new', seen)
  | inr later ↦ ground (arith, unseen-lt r cnames es later new)
]

pub unseen_nil : (es : List LegacyRewrite) → unseen [] es ≤ length es
unseen_nil [] = omega arith
unseen_nil (e ∷ es) = ground (arith, unseen_nil es)
