-- ===== src/Migrate/Middle.antt =====
-- internal/configmigrate/v10.go to v19.go.
use null_private.Prelude.{ℕ, Bool, true, false, none, some, List, [], ◌∷◌, if◌then◌else◌}
use null_private.Prelude.Int.{ℤ, pos, mul64, eqb_ℤ}
use null_private.Migrate.Env.{Env}
use null_private.Migrate.Yaml.{
  Value, bool, int, str, dur, obj, arr, Items, nil, Fields, end, field, Yobj, put_in, del_in, store,
  store_arr, unexpected_type, Outcome, ok, fail, ◌>>=◌, any_r, bool_r, int_r, str_r, obj_r, arr_r,
  Field, absent, wrong, found, field_val, on_found, if_found, value_or_fail, value_or_zero,
  move_val, move_same_val, Move, move, join_moves, embed_obj, each_item,
}
use null_private.Migrate.Early.{set_version}
use null_private.Migrate.Quic.{add_quic_ports}

unfoldable pub migrate_to10 : Env → Yobj → Outcome Yobj
unfolding field_val
migrate_to10 env conf = do
  conf' ← set_version 10 conf
  on_found (field_val obj_r conf' "dns") "dns" conf' λ dns. do
    dns₁ ← add_quic_ports env "upstream_dns" dns
    dns₂ ← add_quic_ports env "local_ptr_upstreams" dns₁
    ok (store "dns" dns₂ conf')

unfoldable pub migrate_to11 : Yobj → Outcome Yobj
unfolding field_val
migrate_to11 conf = do
  conf' ← set_version 11 conf
  rlimit ← value_or_fail int_r "rlimit_nofile" (field_val int_r conf' "rlimit_nofile")
  put_in "os"
      (obj
        (field "group" (str "") (field "rlimit_nofile" (int rlimit) (field "user" (str "") end))))
      (del_in "rlimit_nofile" conf')

-- `timeutil.Day` and `time.Hour`, in nanoseconds
abbrev pub day : ℕ
day = 86_400_000_000_000

abbrev pub hour : ℕ
hour = 3_600_000_000_000

-- The interval, or the default of 90 days where the field is absent.
abbrev qlog_interval : Field ℤ → Outcome ℤ
qlog_interval absent = ok (pos 90)
qlog_interval wrong = fail (unexpected_type "querylog_interval")
qlog_interval (found n) = ok n

unfoldable pub migrate_to12 : Yobj → Outcome Yobj
unfolding field_val mul64
migrate_to12 conf = do
  conf' ← set_version 12 conf
  on_found (field_val obj_r conf' "dns") "dns" conf' λ dns. do
    ivl ← qlog_interval (field_val int_r dns "querylog_interval")
    dns' ← put_in "querylog_interval" (dur (mul64 ivl day)) dns
    ok (store "dns" dns' conf')

unfoldable pub migrate_to13 : Yobj → Outcome Yobj
unfolding field_val move_val
migrate_to13 conf = do
  conf' ← set_version 13 conf
  on_found (field_val obj_r conf' "dns") "dns" conf' λ dns.
      on_found (field_val obj_r conf' "dhcp") "dhcp" conf' λ dhcp. do
        (dns', dhcp') ← move_same_val str_r "local_domain_name" (dns, dhcp)
        ok (store "dhcp" dhcp' (store "dns" dns' conf'))

abbrev pub runtime_clients : Fields
runtime_clients = field "whois" (bool true) (
    field "arp" (bool true)
      (field "rdns" (bool false) (field "dhcp" (bool true) (field "hosts" (bool true) end))))

abbrev pub clients_obj : Items → Yobj → Value
clients_obj persistent runtime =
    obj (field "persistent" (arr persistent) (field "runtime_sources" (embed_obj runtime) end))

-- `runtimeClients` is filled after it is stored in "clients": the model stores its last value.
unfoldable pub migrate_to14 : Yobj → Outcome Yobj
unfolding field_val move_val
migrate_to14 conf = do
  conf₁ ← set_version 14 conf
  persistent ← value_or_fail arr_r "clients" (field_val arr_r conf₁ "clients")
  conf₂ ← put_in "clients" (clients_obj persistent (some runtime_clients)) conf₁
  on_found (field_val obj_r conf₂ "dns") "dns" conf₂ λ dns. do
    (dns', runtime) ← move_val bool_r "resolve_clients" "rdns" (dns, some runtime_clients)
    conf₃ ← put_in "clients" (clients_obj persistent runtime) conf₂
    ok (store "dns" dns' conf₃)

abbrev pub qlog_defaults : Fields
qlog_defaults = field "ignored" (arr nil) (
    field "enabled" (bool true) (
      field "file_enabled" (bool true)
        (field "interval" (str "2160h") (field "size_memory" (int (pos 1000)) end))))

abbrev pub qlog_moves : List Move
qlog_moves =
    move bool_r "querylog_enabled" "enabled"
    ∷ move bool_r "querylog_file_enabled" "file_enabled"
    ∷ move any_r "querylog_interval" "interval"
    ∷ move int_r "querylog_size_memory" "size_memory"
    ∷ []

unfoldable pub migrate_to15 : Yobj → Outcome Yobj
unfolding field_val
migrate_to15 conf = do
  conf' ← set_version 15 conf
  on_found (field_val obj_r conf' "dns") "dns" conf' λ dns. do
    (dns', qlog) ← join_moves qlog_moves (dns, some qlog_defaults) none
    conf₂ ← put_in "querylog" (embed_obj qlog) conf'
    ok (store "dns" dns' conf₂)

abbrev pub stats_obj : Bool → ℤ → Value
stats_obj enabled interval = obj (
    field "enabled" (bool enabled)
      (field "interval" (int interval) (field "ignored" (arr nil) end)))

unfoldable pub migrate_to16 : Yobj → Outcome Yobj
unfolding field_val
migrate_to16 conf = do
  conf₁ ← set_version 16 conf
  on_found (field_val obj_r conf₁ "dns") "dns" conf₁ λ dns. do
    conf₂ ← put_in "statistics" (stats_obj true (pos 1)) conf₁
    on_found (field_val int_r dns "statistics_interval") "statistics_interval" conf₂ λ ivl. do
      conf₃ ←
          put_in "statistics"
            (if eqb_ℤ ivl (pos 0) then stats_obj false (pos 1) else stats_obj true ivl) conf₂
      ok (store "dns" (del_in "statistics_interval" dns) conf₃)

unfoldable pub migrate_to17 : Yobj → Outcome Yobj
unfolding field_val
migrate_to17 conf = do
  conf' ← set_version 17 conf
  on_found (field_val obj_r conf' "dns") "dns" conf' λ dns. do
    dns' ←
        put_in "edns_client_subnet"
          (obj (
            field "enabled"
              (bool (value_or_zero bool_r (field_val bool_r dns "edns_client_subnet")))
              (field "use_custom" (bool false) (field "custom_ip" (str "") end))))
          dns
    ok (store "dns" dns' conf')

abbrev pub safe_search_defaults : Fields
safe_search_defaults = field "enabled" (bool true) (
    field "bing" (bool true) (
      field "duckduckgo" (bool true) (
        field "google" (bool true) (
          field "pixabay" (bool true)
            (field "yandex" (bool true) (field "youtube" (bool true) end))))))

-- `safeSearch` is filled after it is stored in "safe_search": the model stores its last value.
unfoldable pub migrate_to18 : Yobj → Outcome Yobj
unfolding field_val move_val
migrate_to18 conf = do
  conf' ← set_version 18 conf
  on_found (field_val obj_r conf' "dns") "dns" conf' λ dns. do
    dns₁ ← put_in "safe_search" (obj safe_search_defaults) dns
    (dns₂, safe_search) ←
        move_val bool_r "safesearch_enabled" "enabled" (dns₁, some safe_search_defaults)
    dns₃ ← put_in "safe_search" (embed_obj safe_search) dns₂
    ok (store "dns" dns₃ conf')

-- `moveVal` whose error is only logged
abbrev move_or_log : Yobj × Yobj → Outcome (Yobj × Yobj) → Outcome (Yobj × Yobj)
move_or_log s (fail e) = ok s
move_or_log s r = r

-- The body of the loop of `migrateTo19`.
unfoldable pub client_safe_search : ℕ → Value → Outcome Value
unfolding move_val
client_safe_search i v = elim (obj_r.cast v) [
  | none ↦ ok v
  | some c ↦ do
    (c₁, safe_search) ←
        move_or_log (c, some safe_search_defaults)
          (move_val bool_r "safesearch_enabled" "enabled" (c, some safe_search_defaults))
    c₂ ← put_in "safe_search" (embed_obj safe_search) c₁
    ok (embed_obj c₂)
]

unfoldable pub migrate_to19 : Yobj → Outcome Yobj
unfolding field_val
migrate_to19 conf = do
  conf' ← set_version 19 conf
  on_found (field_val obj_r conf' "clients") "clients" conf' λ clients.
      if_found (field_val arr_r clients "persistent") conf' λ persistent. do
        persistent' ← each_item client_safe_search 0 persistent
        ok (store "clients" (store_arr "persistent" persistent' clients) conf')
