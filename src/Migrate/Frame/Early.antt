-- ===== src/Migrate/Frame/Early.antt =====
-- Which top-level keys the migrations of Migrate/Early.antt change.
use null_private.Prelude.{String, ◌≡◌, refl, ◌∙◌, false, none, some, [], ◌∷◌, arith, elem}
use null_private.Prelude.Int.{pos}
use null_private.Migrate.Env.{Env}
use null_private.Migrate.Yaml.{
  int, str, arr, cons, nil, fail, hash_failed, on_found, field_val, put, put_in, del_in, embed_obj,
  end, ◌>>=◌, move_val, Yobj, get_in, Outcome, ok, str_r,
}
use null_private.Migrate.Yaml.Laws.{>>=-keeps, get-put, get-put_ne, get_in-move_val}
use null_private.Migrate.Frame.Defs.{Frames, frame_laws}
use null_private.Migrate.Early.{
  migrate_to1, migrate_to2, migrate_to3, migrate_to4, migrate_to5, migrate_to6, migrate_to7,
  migrate_to8, migrate_to9,
}

pub migrate_to1-Frames : Frames 1 ([]) migrate_to1
unfolding migrate_to1
migrate_to1-Frames = record {
  nil_panics = refl;
  version = λ fs o' e. grind (arith, frame_laws);
  frame = λ k fs o' h e. grind (arith, frame_laws);
}

pub migrate_to2-Frames : Frames 2 ("coredns" ∷ "dns" ∷ []) migrate_to2
unfolding migrate_to2
migrate_to2-Frames = record {
  nil_panics = refl;
  version = λ fs o' e. grind (arith, frame_laws);
  frame = λ k fs o' h e. grind (arith, frame_laws);
}

pub migrate_to3-Frames : Frames 3 ("dns" ∷ []) migrate_to3
unfolding migrate_to3
migrate_to3-Frames = record {
  nil_panics = refl;
  version = λ fs o' e. grind (arith, frame_laws);
  frame = λ k fs o' h e. grind (arith, frame_laws);
}

pub migrate_to4-Frames : Frames 4 ("clients" ∷ []) migrate_to4
unfolding migrate_to4
migrate_to4-Frames = record {
  nil_panics = refl;
  version = λ fs o' e. grind (arith, frame_laws);
  frame = λ k fs o' h e. grind (arith, frame_laws);
}

abbrev users_part : Env → Yobj × Yobj → Outcome Yobj
users_part env s = on_found (field_val str_r s.0 "auth_pass") "auth_pass" s.0 λ pass.
    elim (env.bcrypt pass) [
      | none ↦ fail hash_failed
      | some hash ↦ do
        user' ← put_in "password" (str hash) s.1
        put_in "users" (arr (cons (embed_obj user') nil)) (del_in "auth_pass" s.0)
    ]

users_part-frame :
    (env : Env) (k : String) (s : Yobj × Yobj) (o : Yobj)
    → elem k ("auth_pass" ∷ "users" ∷ []) ≡ false
    → users_part env s ≡ ok o
    → get_in k o ≡ get_in k s.0
unfolding field_val
users_part-frame env k (none, user) o h e = grind (arith, frame_laws)
users_part-frame env k (some fs, none) o h e = grind (arith, frame_laws)
users_part-frame env k (some fs, some user) o h e = grind (arith, frame_laws)

migrate_to5-keeps :
    (env : Env) (k : String) (o o' : Yobj)
    → elem k ("auth_name" ∷ "auth_pass" ∷ "users" ∷ []) ≡ false
    → (move_val str_r "auth_name" "name" (o, some end) >>= users_part env) ≡ ok o'
    → get_in k o' ≡ get_in k o
migrate_to5-keeps env k o o' h e =
    >>=-keeps (λ s. get_in k s.0) (get_in k) (move_val str_r "auth_name" "name" (o, some end))
      (users_part env)
      (λ s. get_in-move_val str_r "auth_name" "name" k (o, some end) s (ground arith))
      (λ s b. users_part-frame env k s b (ground arith)) o' e

pub migrate_to5-Frames :
    (env : Env) → Frames 5 ("auth_name" ∷ "auth_pass" ∷ "users" ∷ []) (migrate_to5 env)
unfolding migrate_to5
migrate_to5-Frames env = record {
  nil_panics = refl;
  version = λ fs o' e.
      migrate_to5-keeps env "schema_version" (some (put "schema_version" (int (pos 5)) fs)) o' refl
        e
      ∙ rw get-put;
  frame = λ k fs o' h e.
      migrate_to5-keeps env k (some (put "schema_version" (int (pos 5)) fs)) o' (ground arith) e
      ∙ get-put_ne "schema_version" k _ fs (ground arith);
}

pub migrate_to6-Frames : Frames 6 ("clients" ∷ []) migrate_to6
unfolding migrate_to6
migrate_to6-Frames = record {
  nil_panics = refl;
  version = λ fs o' e. grind (arith, frame_laws);
  frame = λ k fs o' h e. grind (arith, frame_laws);
}

pub migrate_to7-Frames : Frames 7 ("dhcp" ∷ []) migrate_to7
unfolding migrate_to7
migrate_to7-Frames = record {
  nil_panics = refl;
  version = λ fs o' e. grind (arith, frame_laws);
  frame = λ k fs o' h e. grind (arith, frame_laws);
}

pub migrate_to8-Frames : Frames 8 ("dns" ∷ []) migrate_to8
unfolding migrate_to8
migrate_to8-Frames = record {
  nil_panics = refl;
  version = λ fs o' e. grind (arith, frame_laws);
  frame = λ k fs o' h e. grind (arith, frame_laws);
}

pub migrate_to9-Frames : Frames 9 ("dns" ∷ []) migrate_to9
unfolding migrate_to9
migrate_to9-Frames = record {
  nil_panics = refl;
  version = λ fs o' e. grind (arith, frame_laws);
  frame = λ k fs o' h e. grind (arith, frame_laws);
}
