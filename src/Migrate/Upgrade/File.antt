-- ===== src/Migrate/Upgrade/File.antt =====
-- What `Migrate` promises of the file: left as it is unless an upgrade was made, and upgraded once.
use null_private.Prelude.{
  ℕ, ◌^◌, ◌≤◌, ◌<◌, ◌≡◌, ◌↔◌, true, false, none, some, List, arith, Option-cases, inl, inr,
}
use null_private.Prelude.Int.{pos}
use null_private.Migrate.Env.{Env, Migrator}
use null_private.Migrate.Yaml.{int, Yobj, get_in, Error, Outcome-cases, ok}
use null_private.Migrate.Upgrade.{
  last_schema_version, validate_version, upgrade_config_schema, Codec, Migrated, migrate_from,
  schema_version, migrate,
}
use null_private.Migrate.Upgrade.Version.{upgrade_config_schema-version}

-- The version check passes exactly when the current version is at most the target, and the target at
-- most the last one.
pub validate_version-eq-none_iff :
    (current target : ℕ)
    → (validate_version current target ≡ none)
      ↔ ((current ≤ target) × (target ≤ last_schema_version))
unfolding validate_version
validate_version-eq-none_iff current target = ground arith

schema_version_lem :
    (conf : Yobj) (n : ℕ)
    → get_in "schema_version" conf ≡ some (int (pos n))
    → n < 2 ^ 64
    → schema_version conf ≡ some n
unfolding schema_version
schema_version_lem conf n h lt = ground arith

module _ (env : Env) (m : Migrator) (codec : Codec) where
  -- `Migrate` that reports no upgrade returns the body that it was given.
  pub migrate-unchanged :
      (body : List ℕ) (target : ℕ) (r : Migrated)
      → migrate env m codec body target ≡ ok r
      → r.upgraded ≡ false
      → r.new_body ≡ body
  unfolding migrate
  migrate-unchanged body target r h kept = ground arith

  -- `Migrate` that reports an error reports no upgrade, and returns the body that it was given.
  pub migrate-failed :
      (body : List ℕ) (target : ℕ) (r : Migrated) (e : Error)
      → migrate env m codec body target ≡ ok r
      → r.error ≡ some e
      → (r.upgraded ≡ false) × (r.new_body ≡ body)
  unfolding migrate
  migrate-failed body target r e h bad = ground arith

  -- What a reported upgrade consists of.
  abbrev pub IsUpgrade : List ℕ → ℕ → Migrated → Type 0
  IsUpgrade body target r =
      (conf : Yobj) × (conf' : Yobj) × (current : ℕ) × (codec.unmarshal body ≡ some conf)
      × (schema_version conf ≡ some current)
      × (current < target)
      × (target ≤ last_schema_version)
      × (upgrade_config_schema env m current target conf ≡ ok conf')
      × (codec.encode conf' ≡ some r.new_body)
      × (r.error ≡ none)

  migrate_from-upgraded :
      (body : List ℕ) (current target : ℕ) (conf : Yobj)
      → codec.unmarshal body ≡ some conf
      → schema_version conf ≡ some current
      → (r : Migrated) → migrate_from env m codec body current target conf ≡ ok r
      → r.upgraded ≡ true
      → IsUpgrade body target r
  unfolding migrate_from validate_version
  migrate_from-upgraded body current target conf parsed versioned r h up =
      elim (Outcome-cases (upgrade_config_schema env m current target conf)) [
        | inl (conf', done) ↦ (
          conf,
          conf',
          current,
          parsed,
          versioned,
          ground arith,
          ground arith,
          done,
          ground arith,
          ground arith,
        )
        | inr other ↦ absurd (ground arith)
      ]

  -- A reported upgrade is one: from the older version that the decoded file has, by the migrations up
  -- to the target, and the new body is the encoded result.
  pub migrate-upgraded :
      (body : List ℕ) (target : ℕ) (r : Migrated)
      → migrate env m codec body target ≡ ok r
      → r.upgraded ≡ true
      → IsUpgrade body target r
  unfolding migrate
  migrate-upgraded body target r h up = elim (Option-cases (codec.unmarshal body)) [
    | inl bad ↦ absurd (ground arith)
    | inr (conf, parsed) ↦ elim (Option-cases (schema_version conf)) [
      | inl bad ↦ absurd (ground arith)
      | inr (current, versioned) ↦
          migrate_from-upgraded body current target conf parsed versioned r (ground arith) up
    ]
  ]

  -- Migrating a file that was just upgraded, to the same version, changes nothing, if the decoder
  -- reads back the schema version of what the encoder wrote.
  pub migrate-idempotent :
      ((conf : Yobj) (b : List ℕ) (n : ℕ)
        → codec.encode conf ≡ some b
        → get_in "schema_version" conf ≡ some (int (pos n))
        → (conf' : Yobj) × (codec.unmarshal b ≡ some conf')
          × (get_in "schema_version" conf' ≡ some (int (pos n))))
      → (body : List ℕ) (target : ℕ) (r : Migrated) → migrate env m codec body target ≡ ok r
      → r.upgraded ≡ true
      → migrate env m codec r.new_body target
        ≡ ok (record { new_body = r.new_body; upgraded = false; error = none })
  unfolding migrate validate_version
  migrate-idempotent reads body target r h up =
      let (conf, conf', current, _, _, lt, le, done, written, _) =
        migrate-upgraded body target r h up in
      let (conf₂, parsed, version) =
        reads conf' r.new_body target written
          (upgrade_config_schema-version env m current target conf conf' lt done) in
      let versioned : schema_version conf₂ ≡ some target =
        schema_version_lem conf₂ target version (omega arith) in
      ground arith
