-- ===== src/Filtering/Rewrites.antt =====
-- internal/filtering/rewrites.go, the rewrites of host names, and `processRewrites` of
-- internal/filtering/filtering.go. Host names and answers are bytes. An entry is never changed in
-- place once it is stored.
pub mod Select
pub mod Priority
pub mod Unseen
pub mod Terminates
pub mod Chain
pub mod Edits
use Prim.Native.Nat.{Ordering, compare}
use Prim.Native.Nat.Ordering.{lt, eq, gt}
use null_private.Prelude.{
  ℕ, zero, suc, ◌-◌, Bool, true, false, not, ◌&&◌, ◌||◌, Option, none, some, List, [], ◌∷◌, ◌++◌,
  length, ltb, take, drop, ◌==◌ as nat_eqb, if◌then◌else◌,
}
use null_private.Prelude.Map.{Eq, mem, ◌==◌, bytes_eq}
use null_private.Dhcp.Lease.{Addr, zero_addr, v4, v6, addr_beq}
use null_private.Filtering.Outcome.{Outcome, no_outcome, rewritten, not_filtered_not_found}

abbrev pub Text : Type 0
Text = List ℕ

-- The record types of `miekg/dns` that the code names.
abbrev pub type_a : ℕ
type_a = 1

abbrev pub type_cname : ℕ
type_cname = 5

abbrev pub type_aaaa : ℕ
type_aaaa = 28

pub record LegacyRewrite : Type 0 where
  pub domain : Text
  pub answer : Text
  pub ip : Addr
  pub type : ℕ

unfoldable pub equal : LegacyRewrite → LegacyRewrite → Bool
equal rw other = (rw.domain == other.domain) && (rw.answer == other.answer)

unfoldable pub matches_qtype : LegacyRewrite → ℕ → Bool
matches_qtype rw qt =
    if nat_eqb rw.type type_cname
    then true
    else if not (nat_eqb qt type_a) && not (nat_eqb qt type_aaaa)
    then false
    else nat_eqb rw.type qt || addr_beq rw.ip zero_addr

-- `strings.ToLower`, and `netip.ParseAddr` with its error as `none`.
pub record Texts : Type 0 where
  pub lower : Text → Text
  pub parse_addr : Text → Option Addr

abbrev pub is4 : Addr → Bool
is4 (v4 a) = true
is4 a = false

abbrev text_a : Text
text_a = 65 ∷ []

abbrev text_aaaa : Text
text_aaaa = 65 ∷ 65 ∷ 65 ∷ 65 ∷ []

-- An entry is not nil.
unfoldable pub normalize : Texts → LegacyRewrite → LegacyRewrite
normalize texts rw =
    let domain : Text = texts.lower rw.domain in
    if rw.answer == text_aaaa
    then record rw { domain = domain; ip = zero_addr; type = type_aaaa }
    else if rw.answer == text_a
    then record rw { domain = domain; ip = zero_addr; type = type_a }
    else elim (texts.parse_addr rw.answer) [
      | none ↦ record rw { domain = domain; type = type_cname }
      | some ip ↦ record rw {
        domain = domain;
        ip = ip;
        type = if is4 ip then type_a else type_aaaa;
      }
    ]

unfoldable pub prepare_rewrites : Texts → List LegacyRewrite → List LegacyRewrite
prepare_rewrites texts [] = []
prepare_rewrites texts (rw ∷ rws) = normalize texts rw ∷ prepare_rewrites texts rws

-- `*.` is 42, 46.
unfoldable pub is_wildcard : Text → Bool
is_wildcard (a ∷ b ∷ rest) = nat_eqb a 42 && nat_eqb b 46
is_wildcard _ = false

-- `strings.HasSuffix`
abbrev pub has_suffix : Text → Text → Bool
has_suffix s suffix =
    not (ltb (length s) (length suffix)) && (drop (length s - length suffix) s == suffix)

unfoldable pub match_domain_wildcard : Text → Text → Bool
match_domain_wildcard host wildcard = is_wildcard wildcard && has_suffix host (drop 1 wildcard)

-- The sign of the result: `lt` is negative.
unfoldable pub compare_rewrites : LegacyRewrite → LegacyRewrite → Ordering
compare_rewrites rw b =
    let by_domain : Ordering =
      (let a_wild : Bool = is_wildcard rw.domain in
        let b_wild : Bool = is_wildcard b.domain in
        if a_wild
        then if b_wild then compare (length b.domain) (length rw.domain) else gt
        else if b_wild
        then lt
        else compare (length b.domain) (length rw.domain)) in
    if nat_eqb rw.type type_cname
    then if nat_eqb b.type type_cname then by_domain else lt
    else if nat_eqb b.type type_cname
    then gt
    else by_domain

abbrev pub matches_host : LegacyRewrite → Text → Bool
matches_host e host = (e.domain == host) || match_domain_wildcard host e.domain

-- The first loop of `findRewrites`: the entries of the question type, and whether any entry matched.
unfoldable pub collect : List LegacyRewrite → Text → ℕ → List LegacyRewrite × Bool
collect [] host qtype = ([], false)
collect (e ∷ entries) host qtype =
    let (rewrites, matched) = collect entries host qtype in
    if matches_host e host
    then (if matches_qtype e qtype then e ∷ rewrites else rewrites, true)
    else (rewrites, matched)

-- The entries before the first wildcard.
unfoldable pub before_wildcard : List LegacyRewrite → List LegacyRewrite
before_wildcard [] = []
before_wildcard (rw ∷ rws) = if is_wildcard rw.domain then [] else rw ∷ before_wildcard rws

-- The second loop, which keeps at least one entry.
unfoldable pub cut : List LegacyRewrite → List LegacyRewrite
cut [] = []
cut (rw ∷ rws) = rw ∷ (if is_wildcard rw.domain then [] else before_wildcard rws)

-- `sort` is `slices.SortFunc` with `Compare`.
unfoldable pub find_rewrites :
    (List LegacyRewrite → List LegacyRewrite)
    → List LegacyRewrite
    → Text
    → ℕ
    → List LegacyRewrite × Bool
find_rewrites sort entries host qtype = elim (collect entries host qtype).0 [
  | [] ↦ ([], (collect entries host qtype).1)
  | e ∷ es ↦ (cut (sort (e ∷ es)), (collect entries host qtype).1)
]

unfoldable pub set_rewrite_result : Outcome → List LegacyRewrite → ℕ → Outcome
set_rewrite_result res [] qtype = res
set_rewrite_result res (rw ∷ rws) qtype =
    let typed : Bool = nat_eqb rw.type qtype && (nat_eqb qtype type_a || nat_eqb qtype type_aaaa) in
    let later =
      set_rewrite_result
        (if typed then record res { ip_list = res.ip_list ++ (rw.ip ∷ []) } else res) rws qtype in
    if typed && addr_beq rw.ip zero_addr
    then record res { reason = not_filtered_not_found }
    else later

-- How the loop over CNAMEs goes on: it returns, it breaks with a host and its rewrites, or it goes
-- around once more with a new host.
pub data Turn : Type 0 where
  return : Outcome → Turn
  break : Outcome → Text → List LegacyRewrite → Turn
  again : Outcome → Text → List LegacyRewrite → Bool → List Text → Turn

module _ (sort : List LegacyRewrite → List LegacyRewrite) (entries : List LegacyRewrite)
    (qtype : ℕ) where
  -- The body of the loop.
  unfoldable pub follow :
      Text → Outcome → Text → LegacyRewrite → List LegacyRewrite → List Text → Turn
  follow orig_host res host rw rewrites cnames =
      if (orig_host == rw.answer) || (rw.domain == rw.answer)
      then return no_outcome
      else if (host == rw.answer) && is_wildcard rw.domain
      then break (record res { canon_name = host }) host rewrites
      else if mem rw.answer cnames
      then return res
      else (let (rewrites', matched) = find_rewrites sort entries rw.answer qtype in
          again (record res { canon_name = rw.answer }) rw.answer rewrites' matched
            (rw.answer ∷ cnames))

  -- The condition and the body of the loop.
  unfoldable pub turn : Text → Outcome → Text → List LegacyRewrite → Bool → List Text → Turn
  turn orig_host res host [] matched cnames = break res host []
  turn orig_host res host (rw ∷ rws) matched cnames =
      if matched && nat_eqb rw.type type_cname
      then follow orig_host res host rw (rw ∷ rws) cnames
      else break res host (rw ∷ rws)

  -- The loop and what follows it, on fuel.
  unfoldable pub run_loop :
      ℕ → Text → Outcome → Text → List LegacyRewrite → Bool → List Text → Option Outcome
  run_loop zero orig_host res host rewrites matched cnames = none
  run_loop (suc fuel) orig_host res host rewrites matched cnames =
      elim (turn orig_host res host rewrites matched cnames) [
        | return res' ↦ some res'
        | break res' host' rewrites' ↦ some (set_rewrite_result res' rewrites' qtype)
        | again res' host' rewrites' matched' cnames' ↦
            run_loop fuel orig_host res' host' rewrites' matched' cnames'
      ]

  unfoldable pub process_rewrites : ℕ → Text → Option Outcome
  process_rewrites fuel host =
      let (rewrites, matched) = find_rewrites sort entries host qtype in
      if matched
      then run_loop fuel host (record no_outcome { reason = rewritten }) host rewrites matched []
      else some no_outcome
