-- ===== src/Filtering/Rewrites/Terminates.antt =====
-- The loop over CNAMEs ends, and how.
use mathlib.Core.List.{Memᴰ}
use mathlib.Core.List.Memᴰ
use mathlib.Core.List.Memᴰ.{head}
use null_private.Prelude.{
  ℕ, zero, suc, ◌<◌, ◌≡◌, refl, sym, ap, ◌∙◌, subst, ◌⊎◌, inl, inr, Bool, true, false, ◌||◌, ◌&&◌,
  Option, some, List, [], ◌∷◌, arith, length, ◌==◌ as nat_eqb, Bool-cases,
}
use null_private.Prelude.Map.{mem, ◌==◌, bytes_eq}
use null_private.Filtering.Outcome.{Outcome, rewritten, no_outcome}
use null_private.Filtering.Rewrites.{
  Text, LegacyRewrite, type_cname, is_wildcard, find_rewrites, set_rewrite_result, Turn, return,
  break, again, follow, turn, run_loop, process_rewrites,
}
use null_private.Filtering.Rewrites.Select.{IsFor, IsSort, is_known}
use null_private.Filtering.Rewrites.Priority.{IsSelection, find_rewrites-IsSelection}
use null_private.Filtering.Rewrites.Unseen.{unseen, unseen-lt, unseen_nil}
use null_private.Filtering.Rewrites.Chain.{
  Chain, here, hop, Chain-trans, set_rewrite_result-IsAnswer, IsRewrite,
}

-- What holds each time the loop starts.
record IsAt (entries : List LegacyRewrite) (qtype : ℕ) (orig host : Text) (res : Outcome)
    : Type 0 where
  chain : Chain entries qtype orig host
  canon : (res.canon_name ≡ host) ⊎ ((res.canon_name ≡ []) × (host ≡ orig))
  ips : res.ip_list ≡ []
  reason : res.reason ≡ rewritten

-- The two ways in which a loop that has not found an exception ends.
abbrev pub IsOutcome : List LegacyRewrite → ℕ → Text → Outcome → Type 0
IsOutcome entries qtype host res = (res ≡ no_outcome) ⊎ IsRewrite entries qtype host res

module _ (entries : List LegacyRewrite) (qtype : ℕ) (orig : Text) where
  at-IsRewrite :
      (host : Text) (res : Outcome)
      → IsAt entries qtype orig host res
      → IsRewrite entries qtype orig res
  at-IsRewrite host res at = record {
    last = host;
    chain = at.chain;
    canon = at.canon;
    ips = λ ip m. absurd (Memᴰ.not-nil (subst (Memᴰ ip) at.ips m));
    reason = inl at.reason;
  }

  answer-IsRewrite :
      (host : Text) (res : Outcome) (rws : List LegacyRewrite)
      → IsAt entries qtype orig host res
      → ((x : LegacyRewrite) → Memᴰ x rws → IsFor entries host qtype x)
      → IsRewrite entries qtype orig (set_rewrite_result res rws qtype)
  answer-IsRewrite host res rws at all =
      let answer = set_rewrite_result-IsAnswer (IsFor entries host qtype) qtype rws res all in
      record {
        last = host;
        chain = at.chain;
        canon = elim at.canon [
          | inl named ↦ inl (answer.canon ∙ named)
          | inr (unnamed, first) ↦ inr (answer.canon ∙ unnamed, first)
        ];
        ips = λ ip m. elim (answer.ips ip m) [
          | inl before ↦ absurd (Memᴰ.not-nil (subst (Memᴰ ip) at.ips before))
          | inr new ↦ new
        ];
        reason = elim answer.reason [
          | inl kept ↦ inl (kept ∙ at.reason)
          | inr exception ↦ inr exception
        ];
      }

module _ (sort : List LegacyRewrite → List LegacyRewrite) (s : IsSort sort)
    (entries : List LegacyRewrite) (qtype : ℕ) where
  found-IsFor :
      (host : Text) (x : LegacyRewrite)
      → Memᴰ x (find_rewrites sort entries host qtype).0
      → IsFor entries host qtype x
  found-IsFor host x m =
      selected (find_rewrites sort entries host qtype).0
        (find_rewrites-IsSelection sort s entries host qtype).0 m
    where
      selected :
          (rws : List LegacyRewrite)
          → IsSelection entries host qtype rws
          → Memᴰ x rws
          → IsFor entries host qtype x
      selected [] sel n = absurd (Memᴰ.not-nil n)
      selected (r ∷ rs) sel n = elim (Memᴰ.cases_cons n) [
        | inl same ↦ subst (IsFor entries host qtype) (sym same) sel.0
        | inr later ↦ (sel.1 x later).0
      ]

  -- How the loop ends where it starts with the rewrites of a host that it has reached.
  IsDone : ℕ → Text → Outcome → Text → List LegacyRewrite → Bool → List Text → Type 0
  IsDone fuel orig res host rws matched cnames =
      (res' : Outcome) × (run_loop sort entries qtype fuel orig res host rws matched cnames
        ≡ some res')
      × IsOutcome entries qtype orig res'

  -- How the loop goes on after a turn.
  abbrev after : ℕ → Text → Turn → Option Outcome
  after fuel orig (return res) = some res
  after fuel orig (break res host rws) = some (set_rewrite_result res rws qtype)
  after fuel orig (again res host rws matched cnames) =
      run_loop sort entries qtype fuel orig res host rws matched cnames

  IsEnd : ℕ → Text → Turn → Type 0
  IsEnd fuel orig t =
      (res' : Outcome) × (after fuel orig t ≡ some res') × IsOutcome entries qtype orig res'

  -- A host that a CNAME leads to.
  hop-IsAt :
      (orig host : Text) (res : Outcome) (r : LegacyRewrite)
      → IsAt entries qtype orig host res
      → IsFor entries host qtype r
      → nat_eqb r.type type_cname ≡ true
      → IsAt entries qtype orig r.answer (record res { canon_name = r.answer })
  hop-IsAt orig host res r at for_r cname = record {
    chain =
        Chain-trans orig host r.answer at.chain (hop host r r.answer for_r cname (here r.answer));
    canon = inl refl;
    ips = at.ips;
    reason = at.reason;
  }

  -- A turn at a CNAME ends the loop, or leads to a host with an answer that was not met before.
  follow-IsEnd :
      (fuel : ℕ) (orig : Text) (res : Outcome) (host : Text) (r : LegacyRewrite)
      (rws : List LegacyRewrite) (cnames : List Text)
      → IsAt entries qtype orig host res
      → IsFor entries host qtype r
      → nat_eqb r.type type_cname ≡ true
      → ((x : LegacyRewrite) → Memᴰ x rws → IsFor entries host qtype x)
      → (mem r.answer cnames ≡ false
          → IsDone fuel orig
              (record res { canon_name = r.answer })
              r.answer
              (find_rewrites sort entries r.answer qtype).0
              (find_rewrites sort entries r.answer qtype).1
              (r.answer ∷ cnames))
      → IsEnd fuel orig (follow sort entries qtype orig res host r rws cnames)
  unfolding follow IsEnd IsDone
  follow-IsEnd fuel orig res host r rws cnames at for_r cname all next =
      elim (Bool-cases ((orig == r.answer) || (r.domain == r.answer))) [
        | inl exception ↦ (no_outcome, rw exception refl, inl refl)
        | inr plain ↦ elim (Bool-cases ((host == r.answer) && is_wildcard r.domain)) [
          | inl itself ↦
              let named : Outcome = record res { canon_name = host } in
              (
                set_rewrite_result named rws qtype,
                rw (plain, itself) refl,
                inr (
                    answer-IsRewrite entries qtype orig host named rws
                      (record {
                        chain = at.chain;
                        canon = inl refl;
                        ips = at.ips;
                        reason = at.reason;
                      })
                      all),
              )
          | inr moves ↦ elim (Bool-cases (mem r.answer cnames)) [
            | inl met ↦ (
              res,
              rw (plain, moves, met) refl,
              inr (at-IsRewrite entries qtype orig host res at),
            )
            | inr new ↦ let (res', runs, is) = next new in (res', rw (plain, moves, new) runs, is)
          ]
        ]
      ]

  run_loop-IsDone :
      (fuel : ℕ) (orig : Text) (res : Outcome) (host : Text) (rws : List LegacyRewrite)
      (matched : Bool) (cnames : List Text)
      → unseen cnames entries < fuel
      → IsAt entries qtype orig host res
      → ((x : LegacyRewrite) → Memᴰ x rws → IsFor entries host qtype x)
      → IsDone fuel orig res host rws matched cnames
  unfolding run_loop turn IsDone IsEnd
  run_loop-IsDone zero orig res host rws matched cnames enough at all =
      absurd (omega (arith, enough))
  run_loop-IsDone (suc fuel) orig res host [] matched cnames enough at all = (
    set_rewrite_result res [] qtype,
    refl,
    inr (answer-IsRewrite entries qtype orig host res [] at all),
  )
  run_loop-IsDone (suc fuel) orig res host (r ∷ rs) matched cnames enough at all =
      elim (Bool-cases (matched && nat_eqb r.type type_cname)) [
        | inr ends ↦
            let step : turn sort entries qtype orig res host (r ∷ rs) matched cnames
                ≡ break res host (r ∷ rs) =
              rw ends refl in
            (
              set_rewrite_result res (r ∷ rs) qtype,
              ap (after fuel orig) step,
              inr (answer-IsRewrite entries qtype orig host res (r ∷ rs) at all),
            )
        | inl cname ↦
            let step : turn sort entries qtype orig res host (r ∷ rs) matched cnames
                ≡ follow sort entries qtype orig res host r (r ∷ rs) cnames =
              rw cname refl in
            let cname' : nat_eqb r.type type_cname ≡ true = ground (arith, cname) in
            let for_r : IsFor entries host qtype r = all r (head refl) in
            let (res', runs, is) =
              follow-IsEnd fuel orig res host r (r ∷ rs) cnames at for_r cname' all (λ new.
                run_loop-IsDone fuel orig _ r.answer _ _ (r.answer ∷ cnames)
                  (ground (arith, enough, unseen-lt r cnames entries for_r.entry new))
                  (hop-IsAt orig host res r at for_r cname') (found-IsFor r.answer)) in
            (res', ap (after fuel orig) step ∙ runs, is)
      ]

  -- The rewrites of a host end after at most one more round than there are entries: each round of the
  -- loop over CNAMEs meets an answer that it has not met. The outcome is none at all, or it is what a
  -- chain of CNAMEs leads to: the canonical name is the last host of the chain, every address is that
  -- of an entry for that host and the question type, and only an exception of that host and type makes
  -- it other than "rewritten". A host that matches no entry has no outcome.
  -- The sort must return the same entries, in order.
  pub process_rewrites-IsOutcome :
      (fuel : ℕ) (host : Text)
      → length entries < fuel
      → (res : Outcome) × (process_rewrites sort entries qtype fuel host ≡ some res)
        × IsOutcome entries qtype host res
        × (is_known entries host ≡ false → res ≡ no_outcome)
  unfolding process_rewrites IsDone
  process_rewrites-IsOutcome fuel host enough =
      let (_, known) = find_rewrites-IsSelection sort s entries host qtype in
      elim (Bool-cases (find_rewrites sort entries host qtype).1) [
        | inr unknown ↦ (no_outcome, rw unknown refl, inl refl, λ h. refl)
        | inl matched ↦
            let start : Outcome = record no_outcome { reason = rewritten } in
            let (res, runs, is) =
              run_loop-IsDone fuel host start host (find_rewrites sort entries host qtype).0 true []
                (omega (arith, enough, unseen_nil entries))
                (record { chain = here host; canon = inr (refl, refl); ips = refl; reason = refl })
                (found-IsFor host) in
            let starts : process_rewrites sort entries qtype fuel host
                ≡ run_loop sort entries qtype fuel host start host
                    (find_rewrites sort entries host qtype).0 true [] =
              rw matched refl in
            (res, starts ∙ runs, is, λ unknown. absurd (ground (arith, matched, known, unknown)))
      ]
