-- ===== src/Migrate/Frame/Late.antt =====
-- Which top-level keys the migrations of Migrate/Late.antt change.
use null_private.Prelude.{String, ◌≡◌, refl, ◌∙◌, false, none, some, [], ◌∷◌, arith, str_eq, elem}
use null_private.Prelude.Int.{pos}
use null_private.Migrate.Env.{Env, Migrator}
use null_private.Migrate.Yaml.{int, obj, put, end, field, ◌>>=◌, join_moves, Yobj, get_in, ok}
use null_private.Migrate.Yaml.Laws.{
  >>=-keeps, from_keys, get-put, get-put_ne, get-del_ne, get_in-put_in, get_in-store,
  get_in-join_moves,
}
use null_private.Migrate.Frame.Defs.{Frames, frame_laws}
use null_private.Migrate.Late.{
  migrate_to20, migrate_to21, migrate_to22, migrate_to23, migrate_to24, migrate_to25, migrate_to26,
  migrate_to27, migrate_to28, migrate_to29, log_moves, replace_dot, put_nonempty,
}

pub migrate_to20-Frames : Frames 20 ("statistics" ∷ []) migrate_to20
unfolding migrate_to20
migrate_to20-Frames = record {
  nil_panics = refl;
  version = λ fs o' e. grind (arith, frame_laws);
  frame = λ k fs o' h e. grind (arith, frame_laws);
}

pub migrate_to21-Frames : Frames 21 ("dns" ∷ []) migrate_to21
unfolding migrate_to21
migrate_to21-Frames = record {
  nil_panics = refl;
  version = λ fs o' e. grind (arith, frame_laws);
  frame = λ k fs o' h e. grind (arith, frame_laws);
}

pub migrate_to22-Frames : Frames 22 ("clients" ∷ []) migrate_to22
unfolding migrate_to22
migrate_to22-Frames = record {
  nil_panics = refl;
  version = λ fs o' e. grind (arith, frame_laws);
  frame = λ k fs o' h e. grind (arith, frame_laws);
}

pub migrate_to23-Frames :
    (env : Env)
    → Frames 23 ("http" ∷ "bind_host" ∷ "bind_port" ∷ "web_session_ttl" ∷ []) (migrate_to23 env)
unfolding migrate_to23
migrate_to23-Frames env = record {
  nil_panics = refl;
  version = λ fs o' e. grind (arith, frame_laws);
  frame = λ k fs o' h e.
      let h₀ : str_eq "schema_version" k ≡ false = ground arith in
      let h₁ : str_eq "http" k ≡ false = ground arith in
      let h₂ : str_eq "bind_host" k ≡ false = ground arith in
      let h₃ : str_eq "bind_port" k ≡ false = ground arith in
      let h₄ : str_eq "web_session_ttl" k ≡ false = ground arith in
      grind (arith, get-put_ne, get-del_ne);
}

put_nonempty-frame :
    (key k : String) (inner o o' : Yobj)
    → str_eq key k ≡ false
    → put_nonempty key inner o ≡ ok o'
    → get_in k o' ≡ get_in k o
put_nonempty-frame key k none o o' h e = ground arith
put_nonempty-frame key k (some end) o o' h e = ground arith
put_nonempty-frame key k (some (field j v fs)) o o' h e =
    ground (arith, get_in-put_in key k (obj (field j v fs)) o o')

migrate_to24-keeps :
    (k : String) (o o' : Yobj)
    → str_eq "log" k ≡ false
    → elem k (from_keys log_moves) ≡ false
    → (join_moves log_moves (o, some end) none >>= λ s. put_nonempty "log" s.1 s.0) ≡ ok o'
    → get_in k o' ≡ get_in k o
migrate_to24-keeps k o o' h₀ h e =
    >>=-keeps (λ s. get_in k s.0) (get_in k) (join_moves log_moves (o, some end) none)
      (λ s. put_nonempty "log" s.1 s.0) (λ s. get_in-join_moves log_moves k (o, some end) s none h)
      (λ s b. put_nonempty-frame "log" k s.1 s.0 b h₀) o' e

pub migrate_to24-Frames :
    Frames 24
      ("log" ∷ "log_file" ∷ "log_max_backups" ∷ "log_max_size" ∷ "log_max_age" ∷ "log_compress"
        ∷ "log_localtime" ∷ "verbose" ∷ [])
      migrate_to24
unfolding migrate_to24
migrate_to24-Frames = record {
  nil_panics = refl;
  version = λ fs o' e.
      migrate_to24-keeps "schema_version" (some (put "schema_version" (int (pos 24)) fs)) o' refl
        refl e
      ∙ rw get-put;
  frame = λ k fs o' h e.
      migrate_to24-keeps k (some (put "schema_version" (int (pos 24)) fs)) o' (ground arith)
        (ground arith) e
      ∙ get-put_ne "schema_version" k _ fs (ground arith);
}

pub migrate_to25-Frames : Frames 25 ("http" ∷ "debug_pprof" ∷ []) migrate_to25
unfolding migrate_to25
migrate_to25-Frames = record {
  nil_panics = refl;
  version = λ fs o' e. grind (arith, frame_laws);
  frame = λ k fs o' h e. grind (arith, frame_laws);
}

pub migrate_to26-Frames : Frames 26 ("dns" ∷ "filtering" ∷ []) migrate_to26
unfolding migrate_to26
migrate_to26-Frames = record {
  nil_panics = refl;
  version = λ fs o' e. grind (arith, frame_laws);
  frame = λ k fs o' h e. grind (arith, frame_laws);
}

replace_dot-frame :
    (key k : String) (o o' : Yobj)
    → str_eq key k ≡ false
    → replace_dot key o ≡ ok o'
    → get_in k o' ≡ get_in k o
unfolding replace_dot
replace_dot-frame key k o o' h e = grind (arith, get_in-store)

migrate_to27-keeps :
    (k : String) (o o' : Yobj)
    → elem k ("querylog" ∷ "statistics" ∷ []) ≡ false
    → (replace_dot "querylog" o >>= replace_dot "statistics") ≡ ok o'
    → get_in k o' ≡ get_in k o
migrate_to27-keeps k o o' h e =
    >>=-keeps (get_in k) (get_in k) (replace_dot "querylog" o) (replace_dot "statistics")
      (λ x. replace_dot-frame "querylog" k o x (ground arith))
      (λ x b. replace_dot-frame "statistics" k x b (ground arith)) o' e

pub migrate_to27-Frames : Frames 27 ("querylog" ∷ "statistics" ∷ []) migrate_to27
unfolding migrate_to27
migrate_to27-Frames = record {
  nil_panics = refl;
  version = λ fs o' e.
      migrate_to27-keeps "schema_version" (some (put "schema_version" (int (pos 27)) fs)) o' refl e
      ∙ rw get-put;
  frame = λ k fs o' h e.
      migrate_to27-keeps k (some (put "schema_version" (int (pos 27)) fs)) o' (ground arith) e
      ∙ get-put_ne "schema_version" k _ fs (ground arith);
}

pub migrate_to28-Frames : Frames 28 ("dns" ∷ []) migrate_to28
unfolding migrate_to28
migrate_to28-Frames = record {
  nil_panics = refl;
  version = λ fs o' e. grind (arith, frame_laws);
  frame = λ k fs o' h e. grind (arith, frame_laws);
}

pub migrate_to29-Frames :
    (env : Env) (m : Migrator) → Frames 29 ("filtering" ∷ []) (migrate_to29 env m)
unfolding migrate_to29
migrate_to29-Frames env m = record {
  nil_panics = refl;
  version = λ fs o' e. grind (arith, frame_laws);
  frame = λ k fs o' h e. grind (arith, frame_laws);
}
