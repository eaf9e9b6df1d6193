-- ===== src/Querylog/Params.antt =====
-- internal/querylog/http.go: the search parameters of a request. The query is its values by name, and
-- the parsers of times and numbers, the lower case and the form of a name in ASCII are the libraries'.
use null_private.Prelude.{
  ◌++◌, Bool, true, false, Option, none, some, List, [], ◌∷◌, ◌==◌ as nat_eqb, if◌then◌else◌,
}
use null_private.Prelude.Int.{ℤ, pos}
use null_private.Prelude.Map.{bytes_beq, mem, bytes_eq}
use null_private.Querylog.File.{LogLine}
use null_private.Querylog.Json.{codes}
use null_private.Querylog.Criterion.{
  SearchCriterion, CriterionType, ct_term, ct_filtering_status, SearchParams,
}

abbrev pub filtering_status_values : List LogLine
filtering_status_values =
    codes "all"
    ∷ codes "filtered"
    ∷ codes "blocked"
    ∷ codes "blocked_services"
    ∷ codes "blocked_safebrowsing"
    ∷ codes "blocked_parental"
    ∷ codes "whitelisted"
    ∷ codes "rewritten"
    ∷ codes "safe_search"
    ∷ codes "processed"
    ∷ []

abbrev pub new_search_params : SearchParams
new_search_params = record {
  older_than = none;
  search_criteria = [];
  offset = pos 0;
  limit = pos 500;
  max_file_scan_entries = pos 50_000;
}

-- The text before a last byte that is a double quote.
abbrev before_last_quote : LogLine → Option LogLine
before_last_quote [] = none
before_last_quote (x ∷ []) = if nat_eqb x 34 then some [] else none
before_last_quote (x ∷ y ∷ s) = elim (before_last_quote (y ∷ s)) [
  | none ↦ none
  | some t ↦ some (x ∷ t)
]

abbrev or_whole : LogLine → Option LogLine → Bool × LogLine
or_whole s none = (false, s)
or_whole s (some t) = (true, t)

unfoldable pub double_quotes_enclosed_value : LogLine → Bool × LogLine
double_quotes_enclosed_value [] = (false, [])
double_quotes_enclosed_value (x ∷ s) =
    if nat_eqb x 34 then or_whole (x ∷ s) (before_last_quote s) else (false, x ∷ s)

pub record Query : Type 0 where
  pub older_than : LogLine
  pub limit : LogLine
  pub offset : LogLine
  pub search : LogLine
  pub response_status : LogLine

pub data ParamError : Type 0 where
  invalid_time invalid_value : ParamError

pub data Parsed (A : Type 0) : Type 0 where
  parsed : A → Parsed A
  failed : ParamError → Parsed A

pub record Parsers : Type 0 where
  pub parse_time : LogLine → Option (Option ℤ)
  pub parse_int : LogLine → Option ℤ
  pub to_lower : LogLine → LogLine
  pub to_ascii : LogLine → Bool × LogLine

module _ (parsers : Parsers) where
  -- What `ToASCII` returns with an error is kept.
  abbrev other_ascii : LogLine → Bool × LogLine → LogLine
  other_ascii lowered (false, ascii) = ascii
  other_ascii lowered (true, ascii) = if bytes_beq ascii lowered then [] else ascii

  abbrev criterion : CriterionType → Bool × LogLine → Parsed (List SearchCriterion)
  criterion ct_term (strict, val) = parsed (
      record {
        value = val;
        ascii_val = other_ascii (parsers.to_lower val) (parsers.to_ascii (parsers.to_lower val));
        criterion_type = ct_term;
        strict = strict;
      }
      ∷ [])
  criterion ct_filtering_status (strict, val) =
      if mem val filtering_status_values
      then parsed (
          record {
            value = val;
            ascii_val = [];
            criterion_type = ct_filtering_status;
            strict = strict;
          }
          ∷ [])
      else failed invalid_value

  -- No criterion, or the one of the parameter.
  unfoldable pub parse_search_criterion : LogLine → CriterionType → Parsed (List SearchCriterion)
  parse_search_criterion [] ct = parsed []
  parse_search_criterion (x ∷ val) ct = criterion ct (double_quotes_enclosed_value (x ∷ val))

  abbrev with_limit : Option ℤ → SearchParams → SearchParams
  with_limit none p = p
  with_limit (some n) p = record p { limit = n }

  -- With an offset all the lines are scanned.
  abbrev with_offset : Option ℤ → SearchParams → SearchParams
  with_offset none p = p
  with_offset (some n) p = record p { offset = n; max_file_scan_entries = pos 0 }

  abbrev older : LogLine → Parsed (Option ℤ)
  older [] = parsed none
  older (x ∷ t) = elim (parsers.parse_time (x ∷ t)) [
    | none ↦ failed invalid_time
    | some time ↦ parsed time
  ]

  infixl 5 ◌>>=◌
  abbrev ◌>>=◌ : {A B : Type 0} → Parsed A → (A → Parsed B) → Parsed B
  parsed a >>= f = f a
  failed e >>= f = failed e

  unfoldable pub parse_search_params : Query → Parsed SearchParams
  parse_search_params q = do
    older_than ← older q.older_than
    term ← parse_search_criterion q.search ct_term
    status ← parse_search_criterion q.response_status ct_filtering_status
    parsed (
        with_offset (parsers.parse_int q.offset) (
          with_limit (parsers.parse_int q.limit) (record new_search_params {
            older_than = older_than;
            search_criteria = term ++ status;
          })))
