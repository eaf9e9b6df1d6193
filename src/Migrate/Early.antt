-- ===== src/Migrate/Early.antt =====
-- internal/configmigrate/v1.go to v9.go. The removal of files that v1 and v2 also attempt is left
-- out: its result is only logged.
use null_private.Prelude.{ℕ, String, true, none, some, List, [], ◌∷◌, str_eq, if◌then◌else◌}
use null_private.Prelude.Int.{pos}
use null_private.Migrate.Env.{Env}
use null_private.Migrate.Yaml.{
  Value, bool, int, str, obj, arr, Items, nil, cons, end, Yobj, put, put_in, del_in, store,
  unexpected_type, at_index, not_object, hash_failed, Outcome, ok, fail, panic, ◌>>=◌, any_r, int_r,
  str_r, obj_r, arr_r, absent, wrong, found, field_val, on_found, if_found, move_val, rename_val,
  move, join_moves, store_arr, each_item, append_item, embed_obj, nil_obj, Move,
}

-- `diskConf["schema_version"] = n`
abbrev pub set_version : ℕ → Yobj → Outcome Yobj
set_version n conf = put_in "schema_version" (int (pos n)) conf

unfoldable pub migrate_to1 : Yobj → Outcome Yobj
migrate_to1 conf = set_version 1 conf

unfoldable pub migrate_to2 : Yobj → Outcome Yobj
unfolding rename_val
migrate_to2 conf = do conf' ← set_version 2 conf; rename_val any_r "coredns" "dns" conf'

unfoldable pub migrate_to3 : Yobj → Outcome Yobj
unfolding field_val
migrate_to3 conf = do
  conf' ← set_version 3 conf
  on_found (field_val obj_r conf' "dns") "dns" conf' λ dns.
      on_found (field_val any_r dns "bootstrap_dns") "bootstrap_dns" conf' λ bootstrap_dns. do
        dns' ← put_in "bootstrap_dns" (arr (cons bootstrap_dns nil)) dns
        ok (store "dns" dns' conf')

-- The body of the loop of `migrateTo4`.
abbrev use_global_services : ℕ → Value → Outcome Value
use_global_services i (obj c) = ok (obj (put "use_global_blocked_services" (bool true) c))
use_global_services i nil_obj = panic
use_global_services i v = ok v

unfoldable pub migrate_to4 : Yobj → Outcome Yobj
unfolding field_val
migrate_to4 conf = do
  conf' ← set_version 4 conf
  if_found (field_val arr_r conf' "clients") conf' λ clients. do
    clients' ← each_item use_global_services 0 clients
    ok (store_arr "clients" clients' conf')

unfoldable pub migrate_to5 : Env → Yobj → Outcome Yobj
unfolding field_val
migrate_to5 env conf = do
  conf₁ ← set_version 5 conf
  (conf₂, user) ← move_val str_r "auth_name" "name" (conf₁, some end)
  on_found (field_val str_r conf₂ "auth_pass") "auth_pass" conf₂ λ pass. elim (env.bcrypt pass) [
    | none ↦ fail hash_failed
    | some hash ↦ do
      user' ← put_in "password" (str hash) user
      put_in "users" (arr (cons (embed_obj user') nil)) (del_in "auth_pass" conf₂)
  ]

-- `val` for the key `id` of a client, appended to `ids` unless it is empty
unfoldable pub client_id : ℕ → Yobj → String → Items → Outcome Items
unfolding field_val append_item
client_id i c id ids = elim (field_val str_r c id) [
  | absent ↦ ok ids
  | wrong ↦ fail (at_index i (unexpected_type id))
  | found val ↦ ok (if str_eq val "" then ids else append_item ids (str val))
]

-- The loop over "ip" and "mac".
abbrev client_ids : ℕ → Yobj → Outcome Items
client_ids i c = do ids ← client_id i c "ip" nil; client_id i c "mac" ids

-- The body of the loop of `migrateTo6`.
unfoldable pub add_ids : ℕ → Value → Outcome Value
unfolding client_id
add_ids i v = elim (obj_r.cast v) [
  | none ↦ fail (at_index i not_object)
  | some c ↦ do ids ← client_ids i c; c' ← put_in "ids" (arr ids) c; ok (embed_obj c')
]

unfoldable pub migrate_to6 : Yobj → Outcome Yobj
unfolding field_val
migrate_to6 conf = do
  conf' ← set_version 6 conf
  on_found (field_val arr_r conf' "clients") "clients" conf'
      λ clients. do clients' ← each_item add_ids 0 clients; ok (store_arr "clients" clients' conf')

abbrev pub dhcpv4_moves : List Move
dhcpv4_moves =
    move str_r "gateway_ip" "gateway_ip"
    ∷ move str_r "subnet_mask" "subnet_mask"
    ∷ move str_r "range_start" "range_start"
    ∷ move str_r "range_end" "range_end"
    ∷ move int_r "lease_duration" "lease_duration"
    ∷ move int_r "icmp_timeout_msec" "icmp_timeout_msec"
    ∷ []

unfoldable pub migrate_to7 : Yobj → Outcome Yobj
unfolding field_val
migrate_to7 conf = do
  conf' ← set_version 7 conf
  if_found (field_val obj_r conf' "dhcp") conf' λ dhcp. do
    (dhcp₁, dhcpv4) ← join_moves dhcpv4_moves (dhcp, some end) none
    dhcp₂ ← put_in "dhcpv4" (embed_obj dhcpv4) dhcp₁
    ok (store "dhcp" dhcp₂ conf')

unfoldable pub migrate_to8 : Yobj → Outcome Yobj
unfolding field_val
migrate_to8 conf = do
  conf' ← set_version 8 conf
  on_found (field_val obj_r conf' "dns") "dns" conf' λ dns.
      on_found (field_val str_r dns "bind_host") "bind_host" conf' λ bind_host. do
        dns' ← put_in "bind_hosts" (arr (cons (str bind_host) nil)) (del_in "bind_host" dns)
        ok (store "dns" dns' conf')

unfoldable pub migrate_to9 : Yobj → Outcome Yobj
unfolding field_val rename_val
migrate_to9 conf = do
  conf' ← set_version 9 conf
  on_found (field_val obj_r conf' "dns") "dns" conf' λ dns. do
    dns' ← rename_val str_r "autohost_tld" "local_domain_name" dns
    ok (store "dns" dns' conf')
