-- ===== src/Migrate/Frame/Defs.antt =====
-- What it means for a migration to change nothing but the version and some top-level keys.
use null_private.Prelude.{ℕ, String, ◌≡◌, false, none, some, List, ◌∷◌, elem}
use null_private.Prelude.Int.{pos}
use null_private.Migrate.Yaml.{int, Fields, Yobj, get, get_in, Outcome, ok, panic}
use null_private.Migrate.Yaml.Laws.{get-put, get-del}

-- A migration to version `n` sets that version, and changes no top-level key but `keys`.
pub record Frames (n : ℕ) (keys : List String) (f : Yobj → Outcome Yobj) : Type 0 where
  pub nil_panics : f none ≡ panic
  pub version :
      (fs : Fields) (o' : Yobj)
      → f (some fs) ≡ ok o'
      → get_in "schema_version" o' ≡ some (int (pos n))
  pub frame :
      (k : String) (fs : Fields) (o' : Yobj)
      → elem k ("schema_version" ∷ keys) ≡ false
      → f (some fs) ≡ ok o'
      → get_in k o' ≡ get k fs

pub ruleset frame_laws = (get-put, get-del)
