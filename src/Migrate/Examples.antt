-- ===== src/Migrate/Examples.antt =====
-- Configurations that the migrations run on.
use null_private.Prelude.{ℕ, ◌≡◌, refl, true, false, Option, none, some, List, [], ◌∷◌, arith}
use null_private.Prelude.Int.{pos}
use null_private.Migrate.Env.{Env, Migrator}
use null_private.Migrate.Yaml.{
  Value, null, int, str, bool, obj, Fields, end, field, Yobj, get, put, del, get_in, section, ok,
  panic, field_val, join_moves, move, unknown_current, bool_r,
}
use null_private.Migrate.Middle.{migrate_to12, migrate_to17, migrate_to18}
use null_private.Migrate.Late.{
  migrate_to21, migrate_to25, migrate_to26, migrate_to27, migrate_to28, replace_dot,
}
use null_private.Migrate.Upgrade.{
  upgrade_config_schema, run_upgrades, validate_version, Codec, Migrated, migrate, schema_version,
}
use null_private.Migrate.Upgrade.Version.{
  upgrade_config_schema-version, upgrade_config_schema-frame,
}
use null_private.Migrate.Upgrade.File.{migrate-idempotent}
use null_private.Migrate.Upgrade.Results.{IsMigrated, migrate-IsMigrated}
use null_private.Migrate.Sections.{migrate_to26-moved, null_dns-panics}

abbrev env₀ : Env
env₀ = record {
  bcrypt = λ p. some p;
  parse_url = λ u. none;
  split_host = λ h. some h;
  parse_addr = λ a. some λ port. a;
  duration_string = λ d. "24h0m0s";
  is_abs = λ p. false;
  user_filters_glob = λ d. d;
}

abbrev migrator₀ : Migrator
migrator₀ = record { working_dir = "/opt"; data_dir = "/opt/data" }

abbrev dns₀ : Fields
dns₀ = field "port" (int (pos 53)) (field "filtering_enabled" (bool true) end)

abbrev fields₀ : Fields
fields₀ =
    field "schema_version" (int (pos 24)) (field "dns" (obj dns₀) (field "lang" (str "en") end))

abbrev conf₀ : Yobj
conf₀ = some fields₀

-- `fields₀` at version 27
abbrev fields₁ : Fields
fields₁ = field "schema_version" (int (pos 27)) (
    field "dns" (obj (field "port" (int (pos 53)) end)) (
      field "lang" (str "en")
        (field "filtering" (obj (field "filtering_enabled" (bool true) end)) end)))

-- `fields₀` at version 26
abbrev fields₂ : Fields
fields₂ = field "schema_version" (int (pos 26)) (
    field "dns" (obj (field "port" (int (pos 53)) end)) (
      field "lang" (str "en")
        (field "filtering" (obj (field "filtering_enabled" (bool true) end)) end)))

-- a configuration with `dns:` and nothing after it
abbrev null_dns : Fields
null_dns = field "schema_version" (int (pos 11)) (field "dns" null end)

upgrade₀ : upgrade_config_schema env₀ migrator₀ 24 27 conf₀ ≡ ok (some fields₁)
unfolding upgrade_config_schema run_upgrades migrate_to25 migrate_to26 migrate_to27 get put del
    join_moves replace_dot
upgrade₀ = refl

upgrade_config_schema-version_example : get_in "schema_version" (some fields₁) ≡ some (int (pos 27))
upgrade_config_schema-version_example =
    upgrade_config_schema-version env₀ migrator₀ 24 27 conf₀ (some fields₁) (omega arith) upgrade₀

upgrade_config_schema-frame_example : get_in "lang" (some fields₁) ≡ get_in "lang" conf₀
upgrade_config_schema-frame_example =
    upgrade_config_schema-frame env₀ migrator₀ 24 27 "lang" conf₀ (some fields₁) refl upgrade₀

migrate_to26-moved_example :
    (get_in "filtering_enabled" (section "filtering" (some fields₂)) ≡ some (bool true))
    × (get_in "filtering_enabled" (section "dns" (some fields₂)) ≡ none)
unfolding get put del field_val migrate_to26 join_moves
migrate_to26-moved_example =
    migrate_to26-moved fields₀ dns₀ (some fields₂) 0
      (move bool_r "filtering_enabled" "filtering_enabled") (bool true) refl refl refl refl

null_dns-panics_example :
    (migrate_to12 (some null_dns) ≡ panic)
    × (migrate_to17 (some null_dns) ≡ panic)
    × (migrate_to18 (some null_dns) ≡ panic)
    × (migrate_to21 (some null_dns) ≡ panic)
    × (migrate_to28 (some null_dns) ≡ panic)
unfolding get
null_dns-panics_example = null_dns-panics null_dns refl

-- Files of one byte, for configurations that hold their schema version and nothing
-- else.
abbrev version_conf : ℕ → Yobj
version_conf n = some (field "schema_version" (int (pos n)) end)

abbrev version_of : Option Value → Option (List ℕ)
version_of (some (int (pos n))) = some (n ∷ [])
version_of _ = none

abbrev read₀ : List ℕ → Option Yobj
read₀ (n ∷ []) = some (version_conf n)
read₀ _ = none

abbrev codec₀ : Codec
codec₀ = record { unmarshal = read₀; encode = λ o. version_of (get_in "schema_version" o) }

codec₀-version :
    (conf : Yobj) (b : List ℕ) (n : ℕ)
    → codec₀.encode conf ≡ some b
    → get_in "schema_version" conf ≡ some (int (pos n))
    → (conf' : Yobj) × (codec₀.unmarshal b ≡ some conf')
      × (get_in "schema_version" conf' ≡ some (int (pos n)))
unfolding get
codec₀-version conf b n written version = (version_conf n, ground arith, refl)

abbrev migrated₀ : Migrated
migrated₀ = record { new_body = 27 ∷ []; upgraded = true; error = none }

migrate₀ : migrate env₀ migrator₀ codec₀ (24 ∷ []) 27 ≡ ok migrated₀
unfolding migrate upgrade_config_schema run_upgrades migrate_to25 migrate_to26 migrate_to27
    validate_version schema_version get put replace_dot
migrate₀ = refl

migrate-IsMigrated_example :
    IsMigrated env₀ migrator₀ codec₀ (24 ∷ []) 27 (migrate env₀ migrator₀ codec₀ (24 ∷ []) 27)
migrate-IsMigrated_example = migrate-IsMigrated env₀ migrator₀ codec₀ (24 ∷ []) 27

migrate-idempotent_example :
    migrate env₀ migrator₀ codec₀ (27 ∷ []) 27
    ≡ ok (record { new_body = 27 ∷ []; upgraded = false; error = none })
migrate-idempotent_example =
    migrate-idempotent env₀ migrator₀ codec₀ codec₀-version (24 ∷ []) 27 migrated₀ migrate₀ refl

abbrev unchanged₀ : Migrated
unchanged₀ = record { new_body = 27 ∷ []; upgraded = false; error = none }

unchanged₀-migrate : migrate env₀ migrator₀ codec₀ (27 ∷ []) 27 ≡ ok unchanged₀
unfolding migrate validate_version schema_version get
unchanged₀-migrate = refl

abbrev failed₀ : Migrated
failed₀ = record { new_body = 28 ∷ []; upgraded = false; error = some unknown_current }

failed₀-migrate : migrate env₀ migrator₀ codec₀ (28 ∷ []) 27 ≡ ok failed₀
unfolding migrate validate_version schema_version get
failed₀-migrate = refl

-- The moves of the migration to version 24 that a configuration with two of its settings makes.
abbrev logs : Fields
logs = field "log_file" (str "a.log") (field "verbose" (bool true) end)

abbrev logs_moved : Yobj × Yobj
logs_moved = (some end, some (field "file" (str "a.log") (field "verbose" (bool true) end)))
