-- ===== src/Migrate/Upgrade/Results.antt =====
-- What `Migrate` returns, by what it finds in the file and by the target.
use null_private.Prelude.{
  ℕ, ◌-◌, ◌≤◌, ◌<◌, ◌≡◌, refl, subst, sym, ◌∙◌, ap, true, false, Option, none, some, List, arith,
  Option-cases, Bool-cases, ltb, ◌==◌, ◌⊎◌, inl, inr, take, drop,
}
use null_private.Prelude.Int.{pos}
use null_private.Migrate.Env.{Env, Migrator}
use null_private.Migrate.Yaml.{
  int, Yobj, get_in, Error, unknown_current, unknown_target, parsing, encoding, unexpected_type,
  Outcome, ok, fail, panic,
}
use null_private.Migrate.Upgrade.{
  last_schema_version, upgrades, run_upgrades, validate_version, upgrade_config_schema, Codec,
  encoded, Migrated, migrate_from, schema_version, migrate,
}
use null_private.Migrate.Upgrade.Version.{upgrade_config_schema_lem, upgrade_config_schema-version}

-- The body as it was, and no upgrade.
abbrev kept : List ℕ → Option Error → Outcome Migrated
kept body e = ok (record { new_body = body; upgraded = false; error = e })

module _ (env : Env) (m : Migrator) where
  -- The migrations from a version up to the target, the one to `current + 1` first.
  abbrev migrations : ℕ → ℕ → Yobj → Outcome Yobj
  migrations current target conf =
      run_upgrades current (take (target - current) (drop current (upgrades env m))) conf

  module _ (codec : Codec) where
    -- What is returned after the migrations.
    abbrev IsWritten : List ℕ → ℕ → Outcome Yobj → Outcome Migrated → Type 0
    IsWritten body target (ok conf) r =
        (get_in "schema_version" conf ≡ some (int (pos target)))
        × (((codec.encode conf ≡ none) × (r ≡ kept body (some encoding)))
            ⊎ ((b : List ℕ) × (codec.encode conf ≡ some b)
                × (r ≡ ok (record { new_body = b; upgraded = true; error = none }))))
    IsWritten body target (fail e) r = r ≡ kept body (some e)
    IsWritten body target panic r = r ≡ panic

    abbrev IsMigratedFrom : List ℕ → ℕ → ℕ → Yobj → Outcome Migrated → Type 0
    IsMigratedFrom body current target conf r =
        ((target < current) × (r ≡ kept body (some unknown_current)))
        ⊎ (((current ≤ target)
              × (last_schema_version < target)
              × (r ≡ kept body (some unknown_target)))
            ⊎ (((current ≡ target) × (target ≤ last_schema_version) × (r ≡ kept body none))
                ⊎ ((current < target)
                    × (target ≤ last_schema_version)
                    × IsWritten body target (migrations current target conf) r)))

    abbrev pub IsMigrated : List ℕ → ℕ → Outcome Migrated → Type 0
    IsMigrated body target r =
        ((codec.unmarshal body ≡ none) × (r ≡ kept body (some parsing)))
        ⊎ ((conf : Yobj) × (codec.unmarshal body ≡ some conf)
            × (((schema_version conf ≡ none)
                  × (r ≡ kept body (some (unexpected_type "schema_version"))))
                ⊎ ((current : ℕ) × (schema_version conf ≡ some current)
                    × IsMigratedFrom body current target conf r)))

    encoded-IsWritten :
        (body : List ℕ) (target : ℕ) (out : Outcome Yobj)
        → ((conf : Yobj) → out ≡ ok conf → get_in "schema_version" conf ≡ some (int (pos target)))
        → IsWritten body target out (encoded codec body out)
    encoded-IsWritten body target (ok conf) stamps = elim (Option-cases (codec.encode conf)) [
      | inl bad ↦ (stamps conf refl, inl (bad, ground (arith, bad)))
      | inr (b, written) ↦ (stamps conf refl, inr (b, written, ground (arith, written)))
    ]
    encoded-IsWritten body target (fail e) stamps = refl
    encoded-IsWritten body target panic stamps = refl

    migrate_from-IsMigratedFrom :
        (body : List ℕ) (current target : ℕ) (conf : Yobj)
        → IsMigratedFrom body current target conf
            (migrate_from env m codec body current target conf)
    unfolding migrate_from validate_version
    migrate_from-IsMigratedFrom body current target conf = elim (Bool-cases (ltb target current)) [
      | inl older ↦ inl (ground arith, ground arith)
      | inr not_older ↦ elim (Bool-cases (ltb last_schema_version target)) [
        | inl late ↦ inr (inl (ground arith, ground arith, ground arith))
        | inr in_time ↦ elim (Bool-cases (current == target)) [
          | inl same ↦ inr (inr (inl (ground arith, ground arith, ground arith)))
          | inr different ↦
              let lt : current < target = ground arith in
              let le : target ≤ last_schema_version = ground arith in
              let slice : upgrade_config_schema env m current target conf
                  ≡ migrations current target conf =
                upgrade_config_schema_lem env m current target conf (omega arith) le in
              let out : migrate_from env m codec body current target conf
                  ≡ encoded codec body (upgrade_config_schema env m current target conf) =
                ground arith in
              inr (
                inr (
                  inr (
                    lt,
                    le,
                    subst (IsWritten body target (migrations current target conf))
                        (sym (out ∙ ap (encoded codec body) slice))
                        (encoded-IsWritten body target (migrations current target conf)
                          (λ conf' ran.
                            upgrade_config_schema-version env m current target conf conf' lt
                              (slice ∙ ran))),
                  )))
        ]
      ]
    ]

    -- `Migrate` always ends in one of these ways. It refuses, with the error that tells why and the body
    -- as it was, a file that cannot be decoded or whose version is no integer, a file of a later version
    -- than the target, and a target after the last version. A file of the target version is returned as
    -- it was, without an upgrade. A file of an earlier version runs through exactly the migrations from
    -- its version up to the target, which are always there: if all of them succeed, the configuration
    -- has the target version, and its encoding is the new body, with an upgrade reported, or else the
    -- error of the encoder with the old body; the first error of a migration is returned with the old
    -- body. `Migrate` panics only where one of these migrations does.
    pub migrate-IsMigrated :
        (body : List ℕ) (target : ℕ) → IsMigrated body target (migrate env m codec body target)
    unfolding migrate
    migrate-IsMigrated body target = elim (Option-cases (codec.unmarshal body)) [
      | inl bad ↦ inl (bad, ground (arith, bad))
      | inr (conf, parsed) ↦ elim (Option-cases (schema_version conf)) [
        | inl bad ↦ inr (conf, parsed, inl (bad, ground (arith, parsed, bad)))
        | inr (current, versioned) ↦
            let out : migrate env m codec body target
                ≡ migrate_from env m codec body current target conf =
              rw (migrate, parsed, versioned) refl in
            inr (
              conf,
              parsed,
              inr (
                current,
                versioned,
                subst (IsMigratedFrom body current target conf) (sym out)
                    (migrate_from-IsMigratedFrom body current target conf),
              ),
            )
      ]
    ]
