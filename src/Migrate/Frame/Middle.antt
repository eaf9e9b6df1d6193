-- ===== src/Migrate/Frame/Middle.antt =====
-- Which top-level keys the migrations of Migrate/Middle.antt change.
use null_private.Prelude.{refl, [], ◌∷◌, arith}
use null_private.Migrate.Env.{Env}
use null_private.Migrate.Frame.Defs.{Frames, frame_laws}
use null_private.Migrate.Middle.{
  migrate_to10, migrate_to11, migrate_to12, migrate_to13, migrate_to14, migrate_to15, migrate_to16,
  migrate_to17, migrate_to18, migrate_to19,
}

pub migrate_to10-Frames : (env : Env) → Frames 10 ("dns" ∷ []) (migrate_to10 env)
unfolding migrate_to10
migrate_to10-Frames env = record {
  nil_panics = refl;
  version = λ fs o' e. grind (arith, frame_laws);
  frame = λ k fs o' h e. grind (arith, frame_laws);
}

pub migrate_to11-Frames : Frames 11 ("rlimit_nofile" ∷ "os" ∷ []) migrate_to11
unfolding migrate_to11
migrate_to11-Frames = record {
  nil_panics = refl;
  version = λ fs o' e. grind (arith, frame_laws);
  frame = λ k fs o' h e. grind (arith, frame_laws);
}

pub migrate_to12-Frames : Frames 12 ("dns" ∷ []) migrate_to12
unfolding migrate_to12
migrate_to12-Frames = record {
  nil_panics = refl;
  version = λ fs o' e. grind (arith, frame_laws);
  frame = λ k fs o' h e. grind (arith, frame_laws);
}

pub migrate_to13-Frames : Frames 13 ("dns" ∷ "dhcp" ∷ []) migrate_to13
unfolding migrate_to13
migrate_to13-Frames = record {
  nil_panics = refl;
  version = λ fs o' e. grind (arith, frame_laws);
  frame = λ k fs o' h e. grind (arith, frame_laws);
}

pub migrate_to14-Frames : Frames 14 ("clients" ∷ "dns" ∷ []) migrate_to14
unfolding migrate_to14
migrate_to14-Frames = record {
  nil_panics = refl;
  version = λ fs o' e. grind (arith, frame_laws);
  frame = λ k fs o' h e. grind (arith, frame_laws);
}

pub migrate_to15-Frames : Frames 15 ("dns" ∷ "querylog" ∷ []) migrate_to15
unfolding migrate_to15
migrate_to15-Frames = record {
  nil_panics = refl;
  version = λ fs o' e. grind (arith, frame_laws);
  frame = λ k fs o' h e. grind (arith, frame_laws);
}

pub migrate_to16-Frames : Frames 16 ("dns" ∷ "statistics" ∷ []) migrate_to16
unfolding migrate_to16
migrate_to16-Frames = record {
  nil_panics = refl;
  version = λ fs o' e. grind (arith, frame_laws);
  frame = λ k fs o' h e. grind (arith, frame_laws);
}

pub migrate_to17-Frames : Frames 17 ("dns" ∷ []) migrate_to17
unfolding migrate_to17
migrate_to17-Frames = record {
  nil_panics = refl;
  version = λ fs o' e. grind (arith, frame_laws);
  frame = λ k fs o' h e. grind (arith, frame_laws);
}

pub migrate_to18-Frames : Frames 18 ("dns" ∷ []) migrate_to18
unfolding migrate_to18
migrate_to18-Frames = record {
  nil_panics = refl;
  version = λ fs o' e. grind (arith, frame_laws);
  frame = λ k fs o' h e. grind (arith, frame_laws);
}

pub migrate_to19-Frames : Frames 19 ("clients" ∷ []) migrate_to19
unfolding migrate_to19
migrate_to19-Frames = record {
  nil_panics = refl;
  version = λ fs o' e. grind (arith, frame_laws);
  frame = λ k fs o' h e. grind (arith, frame_laws);
}
