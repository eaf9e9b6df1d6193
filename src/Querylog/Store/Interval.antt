-- ===== src/Querylog/Store/Interval.antt =====
-- The interval of the rotation.
use null_private.Prelude.{
  ℕ, ◌≡◌, refl, true, Option, none, some, arith, inl, inr, Bool-cases, List, [], ◌∷◌,
}
use null_private.Prelude.Int.{ℤ, pos, negsuc, ◌≤ℤ◌}
use null_private.Querylog.File.{LogLine}
use null_private.Querylog.Criterion.{LogEntry}
use null_private.Querylog.Config.{
  Config, ConfigJson, GetConfigResp, validate_ivl, check_interval, handle_query_log_config,
  handle_put_query_log_config,
}
use null_private.Querylog.Store.{RingBuffer, QueryLog, new_query_log}

-- From 3,600 seconds, an hour, to 31,536,000 seconds, which are 365 days, in nanoseconds.
abbrev IsWithin : ℤ → Type 0
IsWithin ivl = (pos 3_600_000_000_000 ≤ℤ ivl) × (ivl ≤ℤ pos 31_536_000_000_000_000)

abbrev pub IsValid : Config → Type 0
IsValid conf = IsWithin conf.rotation_ivl

check_interval-IsWithin : (ivl : ℤ) → check_interval ivl ≡ true → IsWithin ivl
unfolding check_interval
check_interval-IsWithin (pos n) h = ground arith
check_interval-IsWithin (negsuc n) h = ground arith

validate_ivl-IsWithin : (ivl : ℤ) → validate_ivl ivl ≡ none → IsWithin ivl
unfolding validate_ivl
validate_ivl-IsWithin (pos n) h = ground arith
validate_ivl-IsWithin (negsuc n) h = ground arith

handle_query_log_config-IsValid :
    (body : ConfigJson) (conf : Config)
    → IsValid conf
    → IsValid (handle_query_log_config body conf).1
unfolding handle_query_log_config
handle_query_log_config-IsValid body conf h = go body.interval refl
  where
    go : (o : Option ℤ) → body.interval ≡ o → IsValid (handle_query_log_config body conf).1
    go none e = rw (handle_query_log_config, e) h
    go (some ivl) e = elim (Bool-cases (check_interval ivl)) [
      | inl known ↦ rw (handle_query_log_config, e, known) (check_interval-IsWithin ivl known)
      | inr other ↦ rw (handle_query_log_config, e, other) h
    ]

handle_put_query_log_config-IsValid :
    (body : GetConfigResp) (conf : Config)
    → IsValid conf
    → IsValid (handle_put_query_log_config body conf).1
unfolding handle_put_query_log_config
handle_put_query_log_config-IsValid body conf h =
    ground (arith, h, validate_ivl-IsWithin body.resp_interval)

-- The requests that change the configuration.
pub data Request : Type 0 where
  config : ConfigJson → Request
  put_config : GetConfigResp → Request

abbrev pub handle : Request → Config → Config
handle (config body) conf = (handle_query_log_config body conf).1
handle (put_config body) conf = (handle_put_query_log_config body conf).1

abbrev pub handle_all : List Request → Config → Config
handle_all [] conf = conf
handle_all (r ∷ rs) conf = handle_all rs (handle r conf)

handle_all-IsValid :
    (rs : List Request) (conf : Config) → IsValid conf → IsValid (handle_all rs conf)
handle_all-IsValid [] conf h = h
handle_all-IsValid (config body ∷ rs) conf h =
    handle_all-IsValid rs (handle (config body) conf) (handle_query_log_config-IsValid body conf h)
handle_all-IsValid (put_config body ∷ rs) conf h =
    handle_all-IsValid rs (handle (put_config body) conf)
      (handle_put_query_log_config-IsValid body conf h)

-- The rotation interval of a new query log is at least an hour and at most 365 days, and it still does after any
-- requests for another configuration, of both kinds and whatever they ask for.
pub new_query_log-IsValid :
    {B : Type 0} (ring : RingBuffer B) (normalize : LogLine → LogLine)
    (encode : LogEntry → Option LogLine) (parse_time : LogLine → Option ℤ) (new_ring : ℕ → B)
    (conf : Config) (log old : Option (List LogLine)) (l : QueryLog B) (rs : List Request)
    → new_query_log ring normalize encode parse_time new_ring conf log old ≡ some l
    → IsValid (handle_all rs l.conf)
unfolding new_query_log
new_query_log-IsValid ring normalize encode parse_time new_ring conf log old l rs e =
    handle_all-IsValid rs l.conf (validate_ivl-IsWithin l.conf.rotation_ivl (ground (arith, e)))
