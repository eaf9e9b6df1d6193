-- ===== src/Querylog/Config.antt =====
-- internal/querylog: the configuration (querylog.go), its intervals (qlog.go), and the requests that
-- change it (http.go).
use null_private.Prelude.{
  ℕ, ◌*◌, ◌/◌, Bool, true, false, not, ◌||◌, Option, none, some, if◌then◌else◌,
}
use null_private.Prelude.Int.{ℤ, pos, ltb_ℤ, eqb_ℤ}
use null_private.Querylog.File.{LogLine}
use null_private.Querylog.Criterion.{Client}

pub record Config : Type 0 where
  pub ignored : LogLine → Bool
  pub rotation_ivl : ℤ
  pub mem_size : ℕ
  pub enabled : Bool
  pub file_enabled : Bool
  pub anonymize_client_ip : Bool

pub data IntervalError : Type 0 where
  less_than_hour more_than_year : IntervalError

abbrev pub hour : ℕ
hour = 3_600_000_000_000

abbrev pub day : ℕ
day = 24 * hour

unfoldable pub validate_ivl : ℤ → Option IntervalError
validate_ivl ivl =
    if ltb_ℤ ivl (pos hour)
    then some less_than_hour
    else if ltb_ℤ (pos (365 * day)) ivl
    then some more_than_year
    else none

unfoldable pub check_interval : ℤ → Bool
check_interval ivl =
    eqb_ℤ ivl (pos (day / 4))
    || eqb_ℤ ivl (pos day)
    || eqb_ℤ ivl (pos (day * 7))
    || eqb_ℤ ivl (pos (day * 30))
    || eqb_ℤ ivl (pos (day * 90))

-- `aghalg.NullBool`.
pub data NullBool : Type 0 where
  nb_null nb_true nb_false : NullBool

abbrev pub is_true : NullBool → Bool
is_true nb_true = true
is_true _ = false

abbrev or_old : NullBool → Bool → Bool
or_old nb_null old = old
or_old b old = is_true b

-- The body of the deprecated request: an interval that is left out is `none`, else it is the duration
-- that the code computes of the number of days.
pub record ConfigJson : Type 0 where
  pub json_enabled : NullBool
  pub interval : Option ℤ
  pub json_anonymize : NullBool

-- The body of the request, with the engine for its ignored hosts, if they can be compiled, and the
-- duration of its milliseconds.
pub record GetConfigResp : Type 0 where
  pub resp_ignored : Option (LogLine → Bool)
  pub resp_interval : ℤ
  pub resp_enabled : NullBool
  pub resp_anonymize : NullBool

pub data Response : Type 0 where
  done bad_request unprocessable : Response

abbrev with_interval : Option ℤ → ℤ → ℤ
with_interval none old = old
with_interval (some ivl) old = ivl

abbrev pub is_unsupported : Option ℤ → Bool
is_unsupported none = false
is_unsupported (some ivl) = not (check_interval ivl)

unfoldable pub handle_query_log_config : ConfigJson → Config → Response × Config
handle_query_log_config body conf = if is_unsupported body.interval then (bad_request, conf) else (
  done,
  record conf {
    enabled = or_old body.json_enabled conf.enabled;
    rotation_ivl = with_interval body.interval conf.rotation_ivl;
    anonymize_client_ip = or_old body.json_anonymize conf.anonymize_client_ip;
  },
)

abbrev is_null : NullBool → Bool
is_null nb_null = true
is_null _ = false

unfoldable pub handle_put_query_log_config : GetConfigResp → Config → Response × Config
handle_put_query_log_config body conf = elim body.resp_ignored [
  | none ↦ (unprocessable, conf)
  | some engine ↦ elim (validate_ivl body.resp_interval) [
    | some e ↦ (unprocessable, conf)
    | none ↦
        if is_null body.resp_enabled || is_null body.resp_anonymize
        then (unprocessable, conf)
        else (
          done,
          record conf {
            ignored = engine;
            rotation_ivl = body.resp_interval;
            enabled = is_true body.resp_enabled;
            anonymize_client_ip = is_true body.resp_anonymize;
          },
        )
  ]
]

abbrev pub ignores : Option Client → Bool
ignores none = false
ignores (some c) = c.ignore_query_log

-- `found` is what the finder of clients says of the request's identifiers.
unfoldable pub should_log : Config → Option Client → LogLine → Bool
should_log conf found host = if ignores found then false else not (conf.ignored host)
