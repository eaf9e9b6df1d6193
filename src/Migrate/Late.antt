-- ===== src/Migrate/Late.antt =====
-- internal/configmigrate/v20.go to v29.go.
use null_private.Prelude.{
  ℕ, ◌+◌, ◌^◌, String, Bool, false, none, some, List, [], ◌∷◌, str_eq, if◌then◌else◌,
}
use null_private.Prelude.Int.{ℤ, pos, mul64, to_word, eqb_ℤ}
use null_private.Migrate.Env.{Env, Migrator}
use null_private.Migrate.Yaml.{
  Value, bool, int, str, dur, mode, strs, obj, arr, Items, nil, cons, Fields, end, field, Yobj,
  put_in, del_in, store, store_arr, unexpected_type, at_index, not_object, invalid_bind_host,
  Outcome, ok, fail, ◌>>=◌, any_r, bool_r, int_r, str_r, obj_r, arr_r, Field, absent, wrong, found,
  field_val, on_found, value_or_fail, value_or_zero, move_val, Move, move, join_moves, embed_obj,
  each_item,
}
use null_private.Migrate.Early.{set_version}
use null_private.Migrate.Middle.{day, hour}

-- The interval in days, where 0 and an absent one stand for 1.
abbrev stats_interval : Field ℤ → Outcome ℤ
stats_interval absent = ok (pos 1)
stats_interval wrong = fail (unexpected_type "interval")
stats_interval (found n) = ok (if eqb_ℤ n (pos 0) then pos 1 else n)

unfoldable pub migrate_to20 : Yobj → Outcome Yobj
unfolding field_val mul64
migrate_to20 conf = do
  conf' ← set_version 20 conf
  on_found (field_val obj_r conf' "statistics") "statistics" conf' λ stats. do
    ivl ← stats_interval (field_val int_r stats "interval")
    stats' ← put_in "interval" (dur (mul64 ivl day)) stats
    ok (store "statistics" stats' conf')

abbrev pub local_schedule : Value
local_schedule = obj (field "time_zone" (str "Local") end)

unfoldable pub migrate_to21 : Yobj → Outcome Yobj
unfolding field_val move_val
migrate_to21 conf = do
  conf' ← set_version 21 conf
  on_found (field_val obj_r conf' "dns") "dns" conf' λ dns. do
    (dns₁, svcs) ←
        move_val arr_r "blocked_services" "ids" (dns, some (field "schedule" local_schedule end))
    dns₂ ← put_in "blocked_services" (embed_obj svcs) dns₁
    ok (store "dns" dns₂ conf')

-- The body of the loop of `migrateTo22`.
unfoldable pub client_services : ℕ → Value → Outcome Value
unfolding field_val
client_services i v = elim (obj_r.cast v) [
  | none ↦ fail (at_index i not_object)
  | some c ↦ elim (field_val arr_r c "blocked_services") [
    | absent ↦ ok v
    | wrong ↦ fail (at_index i (unexpected_type "blocked_services"))
    | found services ↦ do
      c' ←
          put_in "blocked_services"
            (obj (field "ids" (arr services) (field "schedule" local_schedule end))) c
      ok (embed_obj c')
  ]
]

unfoldable pub migrate_to22 : Yobj → Outcome Yobj
unfolding field_val
migrate_to22 conf = do
  conf' ← set_version 22 conf
  on_found (field_val obj_r conf' "clients") "clients" conf' λ clients.
      on_found (field_val arr_r clients "persistent") "persistent" conf' λ persistent. do
        persistent' ← each_item client_services 0 persistent
        ok (store "clients" (store_arr "persistent" persistent' clients) conf')

unfoldable pub migrate_to23 : Env → Yobj → Outcome Yobj
unfolding field_val mul64
migrate_to23 env conf = do
  conf₁ ← set_version 23 conf
  on_found (field_val str_r conf₁ "bind_host") "bind_host" conf₁ λ bind_host.
      elim (env.parse_addr bind_host) [
        | none ↦ fail (invalid_bind_host bind_host)
        | some with_port ↦ do
          bind_port ← value_or_fail int_r "bind_port" (field_val int_r conf₁ "bind_port")
          session_ttl ←
              value_or_fail int_r "web_session_ttl" (field_val int_r conf₁ "web_session_ttl")
          conf₂ ←
              put_in "http"
                (obj (
                  field "address" (str (with_port (to_word (2 ^ 16) bind_port)))
                    (field "session_ttl" (str (env.duration_string (mul64 session_ttl hour))) end)))
                conf₁
          ok (del_in "web_session_ttl" (del_in "bind_port" (del_in "bind_host" conf₂)))
      ]

abbrev pub log_moves : List Move
log_moves =
    move str_r "log_file" "file"
    ∷ move int_r "log_max_backups" "max_backups"
    ∷ move int_r "log_max_size" "max_size"
    ∷ move int_r "log_max_age" "max_age"
    ∷ move bool_r "log_compress" "compress"
    ∷ move bool_r "log_localtime" "local_time"
    ∷ move bool_r "verbose" "verbose"
    ∷ []

-- `if len(obj) != 0 { diskConf[k] = obj }`
abbrev pub put_nonempty : String → Yobj → Yobj → Outcome Yobj
put_nonempty k (some (field j v fs)) conf = put_in k (obj (field j v fs)) conf
put_nonempty k _ conf = ok conf

unfoldable pub migrate_to24 : Yobj → Outcome Yobj
migrate_to24 conf = do
  conf₁ ← set_version 24 conf
  (conf₂, log_obj) ← join_moves log_moves (conf₁, some end) none
  put_nonempty "log" log_obj conf₂

abbrev pub pprof_defaults : Fields
pprof_defaults = field "enabled" (bool false) (field "port" (int (pos 6060)) end)

unfoldable pub migrate_to25 : Yobj → Outcome Yobj
unfolding field_val move_val
migrate_to25 conf = do
  conf₁ ← set_version 25 conf
  on_found (field_val obj_r conf₁ "http") "http" conf₁ λ http_obj. do
    (conf₂, pprof_obj) ← move_val bool_r "debug_pprof" "enabled" (conf₁, some pprof_defaults)
    http_obj' ← put_in "pprof" (embed_obj pprof_obj) http_obj
    ok (store "http" http_obj' conf₂)

abbrev pub filtering_moves : List Move
filtering_moves =
    move bool_r "filtering_enabled" "filtering_enabled"
    ∷ move int_r "filters_update_interval" "filters_update_interval"
    ∷ move bool_r "parental_enabled" "parental_enabled"
    ∷ move bool_r "safebrowsing_enabled" "safebrowsing_enabled"
    ∷ move int_r "safebrowsing_cache_size" "safebrowsing_cache_size"
    ∷ move int_r "safesearch_cache_size" "safesearch_cache_size"
    ∷ move int_r "parental_cache_size" "parental_cache_size"
    ∷ move obj_r "safe_search" "safe_search"
    ∷ move arr_r "rewrites" "rewrites"
    ∷ move obj_r "blocked_services" "blocked_services"
    ∷ move bool_r "protection_enabled" "protection_enabled"
    ∷ move str_r "blocking_mode" "blocking_mode"
    ∷ move str_r "blocking_ipv4" "blocking_ipv4"
    ∷ move str_r "blocking_ipv6" "blocking_ipv6"
    ∷ move int_r "blocked_response_ttl" "blocked_response_ttl"
    ∷ move any_r "protection_disabled_until" "protection_disabled_until"
    ∷ move str_r "parental_block_host" "parental_block_host"
    ∷ move str_r "safebrowsing_block_host" "safebrowsing_block_host"
    ∷ []

unfoldable pub migrate_to26 : Yobj → Outcome Yobj
unfolding field_val
migrate_to26 conf = do
  conf' ← set_version 26 conf
  on_found (field_val obj_r conf' "dns") "dns" conf' λ dns. do
    (dns', filtering_obj) ← join_moves filtering_moves (dns, some end) none
    put_nonempty "filtering" filtering_obj (store "dns" dns' conf')

-- The body of the loop of `replaceDot`.
abbrev replace_host : ℕ → Value → Outcome Value
replace_host i (str host) = ok (str (if str_eq host "." then "|.^" else host))
replace_host i v = ok v

unfoldable pub replace_dot : String → Yobj → Outcome Yobj
unfolding field_val
replace_dot k conf = on_found (field_val obj_r conf k) k conf λ section.
    on_found (field_val arr_r section "ignored") "ignored" conf λ ignored. do
      ignored' ← each_item replace_host 0 ignored
      ok (store k (store_arr "ignored" ignored' section) conf)

unfoldable pub migrate_to27 : Yobj → Outcome Yobj
migrate_to27 conf = do
  conf₁ ← set_version 27 conf
  conf₂ ← replace_dot "querylog" conf₁
  replace_dot "statistics" conf₂

-- `dnsforward.UpstreamModeParallel` and the others
abbrev pub upstream_mode : Bool → Bool → String
upstream_mode all_servers fastest_addr =
    if all_servers then "parallel" else if fastest_addr then "fastest_addr" else "load_balance"

unfoldable pub migrate_to28 : Yobj → Outcome Yobj
unfolding field_val
migrate_to28 conf = do
  conf' ← set_version 28 conf
  on_found (field_val obj_r conf' "dns") "dns" conf' λ dns. do
    dns' ←
        put_in "upstream_mode"
          (mode (
            upstream_mode (value_or_zero bool_r (field_val bool_r dns "all_servers"))
              (value_or_zero bool_r (field_val bool_r dns "fastest_addr"))))
          dns
    ok (store "dns" (del_in "fastest_addr" (del_in "all_servers" dns')) conf')

-- The loop of `migrateTo29`: the absolute paths among the URLs of the filters.
unfoldable pub fs_paths : Env → ℕ → Items → Outcome (List String)
unfolding field_val
fs_paths env i nil = ok []
fs_paths env i (cons v rest) =
    let later = fs_paths env (i + 1) rest in
    elim (obj_r.cast v) [
      | none ↦ fail (at_index i not_object)
      | some f ↦ do
        paths ← later
        ok (elim (field_val str_r f "url") [
          | found u ↦ if env.is_abs u then u ∷ paths else paths
          | _ ↦ paths
        ])
    ]

unfoldable pub migrate_to29 : Env → Migrator → Yobj → Outcome Yobj
unfolding field_val
migrate_to29 env m conf = do
  conf' ← set_version 29 conf
  on_found (field_val arr_r conf' "filters") "filters" conf' λ filters. do
    paths ← fs_paths env 0 filters
    on_found (field_val obj_r conf' "filtering") "filtering" conf' λ flt_conf. do
      flt_conf' ←
          put_in "safe_fs_patterns" (strs (env.user_filters_glob m.data_dir ∷ paths)) flt_conf
      ok (store "filtering" flt_conf' conf')
