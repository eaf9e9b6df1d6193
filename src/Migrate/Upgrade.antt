-- ===== src/Migrate/Upgrade.antt =====
-- internal/configmigrate/migrator.go and configmigrate.go: the chain of migrations, and `Migrate`.
pub mod Chain
pub mod Version
pub mod File
pub mod Results
use null_private.Prelude.{
  ℕ, suc, ◌+◌, ◌-◌, ◌^◌, Bool, true, false, Option, none, some, List, [], ◌∷◌, ltb, leb, ◌&&◌, ◌==◌,
  take, drop, if◌then◌else◌,
}
use null_private.Prelude.Int.{ℤ, to_word}
use null_private.Migrate.Env.{Env, Migrator}
use null_private.Migrate.Yaml.{
  Yobj, Error, unknown_current, unknown_target, target_lower, parsing, encoding, migrating,
  unexpected_type, Outcome, ok, fail, panic, ◌>>=◌, int_r, field_val, Field, absent, wrong, found,
  value_or_fail,
}
use null_private.Migrate.Early.{
  migrate_to1, migrate_to2, migrate_to3, migrate_to4, migrate_to5, migrate_to6, migrate_to7,
  migrate_to8, migrate_to9,
}
use null_private.Migrate.Middle.{
  migrate_to10, migrate_to11, migrate_to12, migrate_to13, migrate_to14, migrate_to15, migrate_to16,
  migrate_to17, migrate_to18, migrate_to19,
}
use null_private.Migrate.Late.{
  migrate_to20, migrate_to21, migrate_to22, migrate_to23, migrate_to24, migrate_to25, migrate_to26,
  migrate_to27, migrate_to28, migrate_to29,
}

abbrev pub last_schema_version : ℕ
last_schema_version = 29

abbrev pub MigrateFunc : Type 0
MigrateFunc = Yobj → Outcome Yobj

-- the array `upgrades`
abbrev pub upgrades : Env → Migrator → List MigrateFunc
upgrades env m =
    migrate_to1
    ∷ migrate_to2
    ∷ migrate_to3
    ∷ migrate_to4
    ∷ migrate_to5 env
    ∷ migrate_to6
    ∷ migrate_to7
    ∷ migrate_to8
    ∷ migrate_to9
    ∷ migrate_to10 env
    ∷ migrate_to11
    ∷ migrate_to12
    ∷ migrate_to13
    ∷ migrate_to14
    ∷ migrate_to15
    ∷ migrate_to16
    ∷ migrate_to17
    ∷ migrate_to18
    ∷ migrate_to19
    ∷ migrate_to20
    ∷ migrate_to21
    ∷ migrate_to22
    ∷ migrate_to23 env
    ∷ migrate_to24
    ∷ migrate_to25
    ∷ migrate_to26
    ∷ migrate_to27
    ∷ migrate_to28
    ∷ migrate_to29 env m
    ∷ []

-- The error of a migration, wrapped with its version.
abbrev pub wrapped : ℕ → Outcome Yobj → Outcome Yobj
wrapped cur (fail e) = fail (migrating cur e)
wrapped cur r = r

-- The loop of `upgradeConfigSchema`, over the migrations from version `cur` on.
unfoldable pub run_upgrades : ℕ → List MigrateFunc → Yobj → Outcome Yobj
run_upgrades cur [] conf = ok conf
run_upgrades cur (f ∷ fs) conf = elim (wrapped cur (f conf)) [
  | ok conf' ↦ run_upgrades (cur + 1) fs conf'
  | fail e ↦ fail e
  | panic ↦ panic
]

-- The slice `upgrades[current:target]` panics out of range.
unfoldable pub upgrade_config_schema : Env → Migrator → ℕ → ℕ → Yobj → Outcome Yobj
upgrade_config_schema env m current target conf =
    if leb current target && leb target last_schema_version
    then run_upgrades current (take (target - current) (drop current (upgrades env m))) conf
    else panic

-- `none` is a nil error.
unfoldable pub validate_version : ℕ → ℕ → Option Error
validate_version current target =
    if ltb target current
    then some unknown_current
    else if ltb last_schema_version target
    then some unknown_target
    else if ltb target current
    then some target_lower
    else none

-- `yaml.Unmarshal` and the encoder of `gopkg.in/yaml.v3`; `none` is an error.
pub record Codec : Type 0 where
  pub unmarshal : List ℕ → Option Yobj
  pub encode : Yobj → Option (List ℕ)

-- The three results of `Migrate`.
pub record Migrated : Type 0 where
  pub new_body : List ℕ
  pub upgraded : Bool
  pub error : Option Error

abbrev failed : List ℕ → Error → Outcome Migrated
failed body e = ok (record { new_body = body; upgraded = false; error = some e })

-- The end of `Migrate`, once the schema is upgraded.
abbrev pub encoded : Codec → List ℕ → Outcome Yobj → Outcome Migrated
encoded codec body (ok conf) = elim (codec.encode conf) [
  | none ↦ failed body encoding
  | some new_body ↦ ok (record { new_body = new_body; upgraded = true; error = none })
]
encoded codec body (fail e) = failed body e
encoded codec body panic = panic

-- `Migrate` from the schema version on.
unfoldable pub migrate_from : Env → Migrator → Codec → List ℕ → ℕ → ℕ → Yobj → Outcome Migrated
migrate_from env m codec body current target conf = elim (validate_version current target) [
  | some e ↦ failed body e
  | none ↦
      if current == target
      then ok (record { new_body = body; upgraded = false; error = none })
      else encoded codec body (upgrade_config_schema env m current target conf)
]

-- `fieldVal[int](diskConf, "schema_version")`, as a `uint`
unfoldable pub schema_version : Yobj → Option ℕ
unfolding field_val
schema_version conf = elim (field_val int_r conf "schema_version") [
  | absent ↦ some 0
  | wrong ↦ none
  | found n ↦ some (to_word (2 ^ 64) n)
]

unfoldable pub migrate : Env → Migrator → Codec → List ℕ → ℕ → Outcome Migrated
unfolding migrate_from
migrate env m codec body target = elim (codec.unmarshal body) [
  | none ↦ failed body parsing
  | some conf ↦ elim (schema_version conf) [
    | none ↦ failed body (unexpected_type "schema_version")
    | some current ↦ migrate_from env m codec body current target conf
  ]
]
