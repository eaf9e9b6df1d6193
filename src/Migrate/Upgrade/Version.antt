-- ===== src/Migrate/Upgrade/Version.antt =====
-- What the chain of migrations promises: the version reached, the keys left alone, and that it may be
-- run in parts.
use null_private.Prelude.{
  ℕ, ◌+◌, ◌-◌, ◌≤◌, ◌<◌, String, ◌≡◌, refl, sym, ap, ◌∙◌, subst, leb, ◌&&◌, true, false, Bool-cases,
  inl, inr, some, List, [], ◌∷◌, ◌++◌, arith, elem, take, drop, length, length-take_of_le,
  length-drop, take_add, drop_add,
}
use null_private.Prelude.Int.{pos}
use null_private.Migrate.Env.{Env, Migrator}
use null_private.Migrate.Yaml.{int, Yobj, get_in, Outcome, ok, fail, panic, ◌>>=◌}
use null_private.Migrate.Frame.Early.{
  migrate_to1-Frames, migrate_to2-Frames, migrate_to3-Frames, migrate_to4-Frames,
  migrate_to5-Frames, migrate_to6-Frames, migrate_to7-Frames, migrate_to8-Frames,
  migrate_to9-Frames,
}
use null_private.Migrate.Frame.Middle.{
  migrate_to10-Frames, migrate_to11-Frames, migrate_to12-Frames, migrate_to13-Frames,
  migrate_to14-Frames, migrate_to15-Frames, migrate_to16-Frames, migrate_to17-Frames,
  migrate_to18-Frames, migrate_to19-Frames,
}
use null_private.Migrate.Frame.Late.{
  migrate_to20-Frames, migrate_to21-Frames, migrate_to22-Frames, migrate_to23-Frames,
  migrate_to24-Frames, migrate_to25-Frames, migrate_to26-Frames, migrate_to27-Frames,
  migrate_to28-Frames, migrate_to29-Frames,
}
use null_private.Migrate.Upgrade.{
  upgrades, run_upgrades, upgrade_config_schema, last_schema_version,
}
use null_private.Migrate.Upgrade.Chain.{
  AllFrames, AllFrames-drop, AllFrames-take, run_upgrades-append, chain-version, chain-frame,
  flatten,
}

-- The top-level keys besides "schema_version" that each migration may change.
abbrev pub footprints : List (List String)
footprints =
    ([])
    ∷ ("coredns" ∷ "dns" ∷ [])
    ∷ ("dns" ∷ [])
    ∷ ("clients" ∷ [])
    ∷ ("auth_name" ∷ "auth_pass" ∷ "users" ∷ [])
    ∷ ("clients" ∷ [])
    ∷ ("dhcp" ∷ [])
    ∷ ("dns" ∷ [])
    ∷ ("dns" ∷ [])
    ∷ ("dns" ∷ [])
    ∷ ("rlimit_nofile" ∷ "os" ∷ [])
    ∷ ("dns" ∷ [])
    ∷ ("dns" ∷ "dhcp" ∷ [])
    ∷ ("clients" ∷ "dns" ∷ [])
    ∷ ("dns" ∷ "querylog" ∷ [])
    ∷ ("dns" ∷ "statistics" ∷ [])
    ∷ ("dns" ∷ [])
    ∷ ("dns" ∷ [])
    ∷ ("clients" ∷ [])
    ∷ ("statistics" ∷ [])
    ∷ ("dns" ∷ [])
    ∷ ("clients" ∷ [])
    ∷ ("http" ∷ "bind_host" ∷ "bind_port" ∷ "web_session_ttl" ∷ [])
    ∷ ("log" ∷ "log_file" ∷ "log_max_backups" ∷ "log_max_size" ∷ "log_max_age" ∷ "log_compress"
        ∷ "log_localtime" ∷ "verbose" ∷ [])
    ∷ ("http" ∷ "debug_pprof" ∷ [])
    ∷ ("dns" ∷ "filtering" ∷ [])
    ∷ ("querylog" ∷ "statistics" ∷ [])
    ∷ ("dns" ∷ [])
    ∷ ("filtering" ∷ [])
    ∷ []

-- the pair, to be chained without brackets
infixr 4 ◌and◌
abbrev ◌and◌ : {A B : Type 0} → A → B → A × B
a and b = (a, b)

upgrades-AllFrames : (env : Env) (m : Migrator) → AllFrames 0 (upgrades env m) footprints
upgrades-AllFrames env m =
    migrate_to1-Frames
    and migrate_to2-Frames
    and migrate_to3-Frames
    and migrate_to4-Frames
    and migrate_to5-Frames env
    and migrate_to6-Frames
    and migrate_to7-Frames
    and migrate_to8-Frames
    and migrate_to9-Frames
    and migrate_to10-Frames env
    and migrate_to11-Frames
    and migrate_to12-Frames
    and migrate_to13-Frames
    and migrate_to14-Frames
    and migrate_to15-Frames
    and migrate_to16-Frames
    and migrate_to17-Frames
    and migrate_to18-Frames
    and migrate_to19-Frames
    and migrate_to20-Frames
    and migrate_to21-Frames
    and migrate_to22-Frames
    and migrate_to23-Frames env
    and migrate_to24-Frames
    and migrate_to25-Frames
    and migrate_to26-Frames
    and migrate_to27-Frames
    and migrate_to28-Frames
    and migrate_to29-Frames env m
    and tt

slice-AllFrames :
    (env : Env) (m : Migrator) (current target : ℕ)
    → current ≤ last_schema_version
    → AllFrames current
        (take (target - current) (drop current (upgrades env m)))
        (take (target - current) (drop current footprints))
slice-AllFrames env m current target h =
    AllFrames-take (target - current) current (drop current (upgrades env m))
      (drop current footprints)
      (subst (λ n. AllFrames n (drop current (upgrades env m)) (drop current footprints))
        (omega arith)
        (AllFrames-drop current 0 (upgrades env m) footprints (upgrades-AllFrames env m) h))

-- The bounds that an upgrade which succeeds has, and its run.
upgrade_config_schema-eq-ok :
    (env : Env) (m : Migrator) (current target : ℕ) (conf conf' : Yobj)
    → upgrade_config_schema env m current target conf ≡ ok conf'
    → (current ≤ target)
      × (target ≤ last_schema_version)
      × (run_upgrades current (take (target - current) (drop current (upgrades env m))) conf
          ≡ ok conf')
unfolding upgrade_config_schema
upgrade_config_schema-eq-ok env m current target conf conf' e =
    elim (Bool-cases (leb current target && leb target last_schema_version)) [
      | inl within ↦ (ground arith, ground arith, ground (arith, e))
      | inr out ↦ absurd (ground (arith, e))
    ]

pub upgrade_config_schema_lem :
    (env : Env) (m : Migrator) (current target : ℕ) (conf : Yobj)
    → current ≤ target
    → target ≤ last_schema_version
    → upgrade_config_schema env m current target conf
      ≡ run_upgrades current (take (target - current) (drop current (upgrades env m))) conf
unfolding upgrade_config_schema
upgrade_config_schema_lem env m current target conf h₁ h₂ =
    let within : (leb current target && leb target last_schema_version) ≡ true = ground arith in
    rw within refl

-- An upgrade to a later version that succeeds leaves the target version in the configuration.
pub upgrade_config_schema-version :
    (env : Env) (m : Migrator) (current target : ℕ) (conf conf' : Yobj)
    → current < target
    → upgrade_config_schema env m current target conf ≡ ok conf'
    → get_in "schema_version" conf' ≡ some (int (pos target))
upgrade_config_schema-version env m current target conf conf' lt e =
    let (_, le, ran) = upgrade_config_schema-eq-ok env m current target conf conf' e in
    let n : ℕ = target - current in
    let slice = take n (drop current (upgrades env m)) in
    let size : length slice ≡ n =
      length-take_of_le n (drop current (upgrades env m))
        (omega (arith, length-drop current (upgrades env m))) in
    chain-version current slice (take n (drop current footprints)) conf conf'
      (slice-AllFrames env m current target (omega arith)) (omega arith) ran
    ∙ ap (λ v. some (int (pos v))) (omega arith)

-- An upgrade that succeeds changes no top-level key but "schema_version" and those listed for the
-- migrations between the two versions.
pub upgrade_config_schema-frame :
    (env : Env) (m : Migrator) (current target : ℕ) (k : String) (conf conf' : Yobj)
    → elem k ("schema_version" ∷ flatten (take (target - current) (drop current footprints)))
      ≡ false
    → upgrade_config_schema env m current target conf ≡ ok conf'
    → get_in k conf' ≡ get_in k conf
upgrade_config_schema-frame env m current target k conf conf' h e =
    let (le, bound, ran) = upgrade_config_schema-eq-ok env m current target conf conf' e in
    chain-frame k current (take (target - current) (drop current (upgrades env m)))
      (take (target - current) (drop current footprints)) conf conf'
      (slice-AllFrames env m current target (omega (arith, le, bound))) h ran

>>=-ext :
    (r : Outcome Yobj) (f g : Yobj → Outcome Yobj)
    → ((c : Yobj) → f c ≡ g c)
    → (r >>= f) ≡ (r >>= g)
>>=-ext (ok c) f g h = h c
>>=-ext (fail e) f g h = refl
>>=-ext panic f g h = refl

-- Upgrading to a version in between and from there on to the target is upgrading at once: with the
-- same result, the same error, or a panic in both.
pub upgrade_config_schema_trans :
    (env : Env) (m : Migrator) (current mid target : ℕ) (conf : Yobj)
    → current ≤ mid
    → mid ≤ target
    → target ≤ last_schema_version
    → upgrade_config_schema env m current target conf
      ≡ (upgrade_config_schema env m current mid conf >>= upgrade_config_schema env m mid target)
upgrade_config_schema_trans env m current mid target conf h₁ h₂ h₃ =
    let all = upgrades env m in
    let first = take (mid - current) (drop current all) in
    let second = take (target - mid) (drop mid all) in
    let size : length first ≡ mid - current =
      length-take_of_le (mid - current) (drop current all)
        (omega (arith, length-drop current all)) in
    let e₁ : target - current ≡ (mid - current) + (target - mid) = omega arith in
    let e₂ : current + (mid - current) ≡ mid = omega arith in
    let e₃ : current + length first ≡ mid = omega arith in
    let cuts : take (target - current) (drop current all) ≡ first ++ second =
      ap (λ k. take k (drop current all)) e₁
      ∙ take_add (mid - current) (target - mid) (drop current all)
      ∙ ap (λ xs. first ++ take (target - mid) xs)
          (drop_add current (mid - current) all ∙ ap (λ k. drop k all) e₂) in
    upgrade_config_schema_lem env m current target conf (omega arith) h₃
    ∙ ap (λ xs. run_upgrades current xs conf) cuts
    ∙ run_upgrades-append current first second conf
    ∙ ap (λ k. run_upgrades current first conf >>= run_upgrades k second) e₃
    ∙ ap (λ r. r >>= run_upgrades mid second)
        (sym (upgrade_config_schema_lem env m current mid conf h₁ (omega arith)))
    ∙ >>=-ext (upgrade_config_schema env m current mid conf) (run_upgrades mid second)
        (upgrade_config_schema env m mid target)
        (λ c. sym (upgrade_config_schema_lem env m mid target c h₂ h₃))
