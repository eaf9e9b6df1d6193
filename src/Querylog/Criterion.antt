-- ===== src/Querylog/Criterion.antt =====
-- internal/querylog/searchcriterion.go and searchparams.go: whether an entry is searched for, and the
-- quick test on its line; `client` of search.go, which both use. An entry has what they read of it.
use null_private.Prelude.{
  ℕ, Bool, true, false, not, ◌&&◌, ◌||◌, Option, none, some, List, [], ◌∷◌, ◌++◌, ◌≡◌, ◌↔◌, refl,
  arith, if◌then◌else◌,
}
use null_private.Prelude.Int.{ℤ, ltb_ℤ}
use null_private.Prelude.Map.{Map, Eq, ◌==◌, bytes_beq, bytes_beq_iff, lookup, insert}
use null_private.Filtering.Outcome.{
  Reason, is_in, reason_eqb, not_filtered_allow_list, filtered_block_list, filtered_safe_browsing,
  filtered_parental, filtered_safe_search, filtered_blocked_service, rewritten,
  rewritten_auto_hosts, rewritten_rule,
}
use null_private.Querylog.File.{LogLine}
use null_private.Querylog.Json.{codes, read_json_value}
pub mod Quick

pub record Client : Type 0 where
  pub name : LogLine
  pub ignore_query_log : Bool

-- The address is its text, which `IP.String` gives.
pub record LogEntry : Type 0 where
  pub client : Option Client
  pub time : ℤ
  pub q_host : LogLine
  pub client_id : LogLine
  pub ip : LogLine
  pub reason : Reason
  pub is_filtered : Bool

pub data CriterionType : Type 0 where
  ct_term ct_filtering_status : CriterionType

pub record SearchCriterion : Type 0 where
  pub value : LogLine
  pub ascii_val : LogLine
  pub criterion_type : CriterionType
  pub strict : Bool

-- The zero time, which disables the limit, is `none`.
pub record SearchParams : Type 0 where
  pub older_than : Option ℤ
  pub search_criteria : List SearchCriterion
  pub offset : ℤ
  pub limit : ℤ
  pub max_file_scan_entries : ℤ

abbrev pub ClientCache : Type 0
ClientCache = Map (LogLine × LogLine) (Option Client)

abbrev pub pair_beq : LogLine × LogLine → LogLine × LogLine → Bool
pair_beq (a, b) (c, d) = bytes_beq a c && bytes_beq b d

pub pair_beq_iff : (p q : LogLine × LogLine) → (pair_beq p q ≡ true) ↔ (p ≡ q)
pair_beq_iff (a, b) (c, d) = ground (arith, bytes_beq_iff a c, bytes_beq_iff b d)

instance abbrev pub pair_eq : Eq (LogLine × LogLine)
pair_eq = record { beq = pair_beq; beq_iff = pair_beq_iff }

abbrev non_empty : LogLine → List LogLine
non_empty [] = []
non_empty (x ∷ id) = (x ∷ id) ∷ []

abbrev pub ids_of : LogLine → LogLine → List LogLine
ids_of client_id ip = non_empty client_id ++ non_empty ip

abbrev pub name_of : Option Client → LogLine
name_of none = []
name_of (some c) = c.name

abbrev pub host_key : LogLine
host_key = codes "\"QH\":\""

abbrev pub ip_key : LogLine
ip_key = codes "\"IP\":\""

abbrev pub cid_key : LogLine
cid_key = codes "\"CID\":\""

-- The finder of clients is the caller's (an error is `none`), and the comparisons without regard to
-- case are the library's.
pub record Env : Type 0 where
  pub find_client : List LogLine → Option (Option Client)
  pub equal_fold : LogLine → LogLine → Bool
  pub contains_fold : LogLine → LogLine → Bool

module _ (env : Env) where
  -- On an error there is no client, and the callers go on with that.
  unfoldable pub client : LogLine → LogLine → ClientCache → Option Client × ClientCache
  client client_id ip cache = elim (lookup (client_id, ip) cache) [
    | some c ↦ (c, cache)
    | none ↦ elim (env.find_client (ids_of client_id ip)) [
      | none ↦ (none, cache)
      | some c ↦ (c, insert (client_id, ip) c cache)
    ]
  ]

  abbrev is_ascii_match : (LogLine → LogLine → Bool) → LogLine → LogLine → Bool
  is_ascii_match test host [] = false
  is_ascii_match test host (x ∷ ascii) = test host (x ∷ ascii)

  abbrev case_strict : LogLine → LogLine → LogLine → LogLine → LogLine → LogLine → Bool
  case_strict term ascii client_id name host ip =
      env.equal_fold host term
      || is_ascii_match env.equal_fold host ascii
      || env.equal_fold client_id term
      || env.equal_fold ip term
      || env.equal_fold name term

  abbrev case_non_strict : LogLine → LogLine → LogLine → LogLine → LogLine → LogLine → Bool
  case_non_strict term ascii client_id name host ip =
      env.contains_fold client_id term
      || env.contains_fold host term
      || is_ascii_match env.contains_fold host ascii
      || env.contains_fold ip term
      || env.contains_fold name term

  abbrev pub term_case : SearchCriterion → LogLine → LogLine → LogLine → LogLine → Bool
  term_case c client_id name host ip =
      if c.strict
      then case_strict c.value c.ascii_val client_id name host ip
      else case_non_strict c.value c.ascii_val client_id name host ip

  abbrev pub quick_found :
      SearchCriterion → LogLine → Option Client × ClientCache → Bool × ClientCache
  quick_found c line r = (
    term_case c (read_json_value line cid_key) (name_of r.0) (read_json_value line host_key)
        (read_json_value line ip_key),
    r.1,
  )

  unfoldable pub quick_match_criterion :
      SearchCriterion → LogLine → ClientCache → Bool × ClientCache
  quick_match_criterion c line cache = elim c.criterion_type [
    | ct_filtering_status ↦ (true, cache)
    | ct_term ↦
        quick_found c line
          (client (read_json_value line cid_key) (read_json_value line ip_key) cache)
  ]

  -- Its default, a panic, is not reached: it is asked for these five values only.
  abbrev is_filtered_with_reason : LogLine → Reason → Bool
  is_filtered_with_reason value reason =
      if bytes_beq value (codes "blocked")
      then is_in reason (filtered_block_list ∷ filtered_blocked_service ∷ [])
      else if bytes_beq value (codes "blocked_parental")
      then reason_eqb reason filtered_parental
      else if bytes_beq value (codes "blocked_safebrowsing")
      then reason_eqb reason filtered_safe_browsing
      else if bytes_beq value (codes "blocked_services")
      then reason_eqb reason filtered_blocked_service
      else reason_eqb reason filtered_safe_search

  abbrev is_one_of : LogLine → List LogLine → Bool
  is_one_of value [] = false
  is_one_of value (v ∷ vs) = bytes_beq value v || is_one_of value vs

  abbrev pub kinds_of_blocking : List LogLine
  kinds_of_blocking =
      codes "blocked"
      ∷ codes "blocked_parental"
      ∷ codes "blocked_safebrowsing"
      ∷ codes "blocked_services"
      ∷ codes "safe_search"
      ∷ []

  unfoldable pub filtering_status_case : LogLine → Reason → Bool → Bool
  filtering_status_case value reason is_filtered =
      if bytes_beq value (codes "all")
      then true
      else if bytes_beq value (codes "filtered")
      then is_filtered
        || is_in reason
            (not_filtered_allow_list ∷ rewritten ∷ rewritten_auto_hosts ∷ rewritten_rule ∷ [])
      else if is_one_of value kinds_of_blocking
      then is_filtered && is_filtered_with_reason value reason
      else if bytes_beq value (codes "whitelisted")
      then reason_eqb reason not_filtered_allow_list
      else if bytes_beq value (codes "rewritten")
      then is_in reason (rewritten ∷ rewritten_auto_hosts ∷ rewritten_rule ∷ [])
      else if bytes_beq value (codes "processed")
      then not (
          is_in reason
            (filtered_block_list ∷ filtered_blocked_service ∷ not_filtered_allow_list ∷ []))
      else false

  unfoldable pub match_criterion : SearchCriterion → LogEntry → Bool
  match_criterion c e = elim c.criterion_type [
    | ct_term ↦ term_case c e.client_id (name_of e.client) e.q_host e.ip
    | ct_filtering_status ↦ filtering_status_case c.value e.reason e.is_filtered
  ]

  abbrev pub quick_rest :
      Bool × ClientCache → (ClientCache → Bool × ClientCache) → Bool × ClientCache
  quick_rest (true, cache) rest = rest cache
  quick_rest (false, cache) rest = (false, cache)

  unfoldable pub quick_match : List SearchCriterion → LogLine → ClientCache → Bool × ClientCache
  quick_match [] line cache = (true, cache)
  quick_match (c ∷ criteria) line cache =
      quick_rest (quick_match_criterion c line cache) (λ after. quick_match criteria line after)

  unfoldable pub match_all : List SearchCriterion → LogEntry → Bool
  match_all [] e = true
  match_all (c ∷ criteria) e = match_criterion c e && match_all criteria e

  abbrev is_too_new : Option ℤ → ℤ → Bool
  is_too_new none time = false
  is_too_new (some t) time = not (ltb_ℤ time t)

  unfoldable pub matches : SearchParams → LogEntry → Bool
  unfolding match_all
  matches s e = if is_too_new s.older_than e.time then false else match_all s.search_criteria e
