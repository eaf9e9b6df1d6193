-- ===== src/Querylog/Store/Examples.antt =====
-- A query log that is added to, and requests for its configuration.
use null_private.Prelude.{ℕ, ◌*◌, ◌≡◌, refl, true, false, none, some, List, [], ◌∷◌, take, arith}
use null_private.Prelude.Int.{pos}
use null_private.Querylog.File.{LogLine}
use null_private.Querylog.Criterion.{LogEntry, pair_eq}
use null_private.Querylog.Store.{RingBuffer, QueryLog, AddParams, validate_params, new_query_log}
use null_private.Querylog.Config.{Config, day, validate_ivl, nb_null, nb_true, nb_false}
use null_private.Querylog.Store.Keeps.{HasRoom, add_all, recorded, lines_onto, add_all-recorded}
use null_private.Querylog.Store.Interval.{
  IsValid, Request, config, put_config, handle_all, new_query_log-IsValid,
}

-- A buffer for two entries.
abbrev ring₀ : RingBuffer (List LogEntry)
ring₀ = record {
  push = λ e b. take 2 (e ∷ b);
  clear = λ b. [];
  range = λ b. b;
  capacity = λ b. 2;
  range-push = λ e b. refl;
  range-clear = λ b. refl;
  capacity-push = λ e b. refl;
  capacity-clear = λ b. refl;
}

abbrev conf₀ : Config
conf₀ = record {
  ignored = λ host. false;
  rotation_ivl = pos day;
  mem_size = 2;
  enabled = true;
  file_enabled = true;
  anonymize_client_ip = false;
}

abbrev log₀ : QueryLog (List LogEntry)
log₀ = record {
  conf = conf₀;
  buffer = [];
  flush_pending = false;
  log_file = none;
  old_log_file = none;
}

abbrev params₀ : ℕ → AddParams
params₀ x = record {
  question = some ((x ∷ []) ∷ []);
  client_id = [];
  client_ip = some (49 ∷ []);
  result = none;
  now = pos x;
}

abbrev host_of : LogEntry → LogLine
host_of e = e.q_host

add_all-recorded_example :
    HasRoom ring₀
      (λ name. name)
      (λ e. some (host_of e))
      (λ val. none)
      host_of
      (λ e. refl)
      (add_all ring₀
        (λ name. name)
        (λ e. some (host_of e))
        (λ val. none)
        host_of
        (λ e. refl)
        (params₀ 50 ∷ params₀ 51 ∷ params₀ 52 ∷ [])
        log₀)
    × (recorded ring₀
          (λ name. name)
          (λ e. some (host_of e))
          (λ val. none)
          host_of
          (λ e. refl)
          (add_all ring₀
            (λ name. name)
            (λ e. some (host_of e))
            (λ val. none)
            host_of
            (λ e. refl)
            (params₀ 50 ∷ params₀ 51 ∷ params₀ 52 ∷ [])
            log₀)
        ≡ (52 ∷ []) ∷ (51 ∷ []) ∷ (50 ∷ []) ∷ [])
unfolding validate_params lines_onto
add_all-recorded_example =
    add_all-recorded ring₀ (λ name. name) (λ e. some (host_of e)) (λ val. none) host_of (λ e. refl)
      (params₀ 50 ∷ params₀ 51 ∷ params₀ 52 ∷ []) log₀
      (record {
        enabled = refl;
        file_enabled = refl;
        not_pending = refl;
        fits = omega arith;
        room = omega arith;
      })
      (refl, (refl, (refl, tt)))

abbrev year_and_more : Request
year_and_more = put_config (record {
  resp_ignored = some (λ host. true);
  resp_interval = pos (366 * day);
  resp_enabled = nb_true;
  resp_anonymize = nb_false;
})

abbrev a_week : Request
a_week =
    config
      (record { json_enabled = nb_null; interval = some (pos (7 * day)); json_anonymize = nb_true })

new_query_log-IsValid_example : IsValid (handle_all (year_and_more ∷ a_week ∷ []) conf₀)
unfolding new_query_log validate_ivl
new_query_log-IsValid_example =
    new_query_log-IsValid ring₀ (λ name. name) (λ e. some (host_of e)) (λ val. none) (λ n. []) conf₀
      none none log₀ (year_and_more ∷ a_week ∷ []) refl
