-- ===== src/Migrate/Upgrade/Chain.antt =====
-- The chain of migrations as a list: the versions that it passes, the keys that it changes, and its
-- cuts.
use null_private.Prelude.{
  ℕ, zero, suc, ◌+◌, ◌≤◌, ◌<◌, String, ◌≡◌, refl, ap, ◌∙◌, subst, false, none, some, List, [], ◌∷◌,
  ◌++◌, inl, inr, arith, elem, take, drop, length,
}
use null_private.Prelude.Int.{pos}
use null_private.Migrate.Yaml.{int, Fields, Yobj, get_in, Outcome-cases, ok, ◌>>=◌}
use null_private.Migrate.Frame.Defs.{Frames}
use null_private.Migrate.Upgrade.{MigrateFunc, run_upgrades, wrapped}

run_upgrades-step :
    (cur : ℕ) (f : MigrateFunc) (fs : List MigrateFunc) (conf : Yobj)
    → run_upgrades cur (f ∷ fs) conf ≡ (wrapped cur (f conf) >>= run_upgrades (cur + 1) fs)
unfolding run_upgrades
run_upgrades-step cur f fs conf = ground arith

-- A run over two lists is a run over the second after one over the first.
pub run_upgrades-append :
    (cur : ℕ) (fs gs : List MigrateFunc) (conf : Yobj)
    → run_upgrades cur (fs ++ gs) conf
      ≡ (run_upgrades cur fs conf >>= run_upgrades (cur + length fs) gs)
unfolding run_upgrades
run_upgrades-append cur [] gs conf = ap (λ n. run_upgrades n gs conf) (omega arith)
run_upgrades-append cur (f ∷ fs) gs conf = elim (Outcome-cases (f conf)) [
  | inl (c, done) ↦
      rw (done, run_upgrades)
        (run_upgrades-append (cur + 1) fs gs c
          ∙ ap (λ n. run_upgrades (cur + 1) fs c >>= run_upgrades n gs) (omega arith))
  | inr (inl (e, failed)) ↦ rw (failed, run_upgrades)
  | inr (inr panics) ↦ rw (panics, run_upgrades)
]

-- Each function of a list, the first being the migration to version `cur + 1`, changes only the keys
-- listed for it.
abbrev pub AllFrames : ℕ → List MigrateFunc → List (List String) → Type 0
AllFrames cur [] [] = Unit {0}
AllFrames cur (f ∷ fs) (ks ∷ kss) = Frames (cur + 1) ks f × AllFrames (cur + 1) fs kss
AllFrames cur _ _ = ⊥

pub AllFrames-drop :
    (n cur : ℕ) (fs : List MigrateFunc) (kss : List (List String))
    → AllFrames cur fs kss
    → n ≤ length fs
    → AllFrames (cur + n) (drop n fs) (drop n kss)
AllFrames-drop zero cur fs kss a h = subst (λ n. AllFrames n fs kss) (omega arith) a
AllFrames-drop (suc n) cur [] [] a h = absurd (omega arith)
AllFrames-drop (suc n) cur [] (ks ∷ kss) a h = absurd a
AllFrames-drop (suc n) cur (f ∷ fs) [] a h = absurd a
AllFrames-drop (suc n) cur (f ∷ fs) (ks ∷ kss) a h =
    subst (λ m. AllFrames m (drop n fs) (drop n kss)) (omega arith)
      (AllFrames-drop n (cur + 1) fs kss a.1 (omega arith))

pub AllFrames-take :
    (n cur : ℕ) (fs : List MigrateFunc) (kss : List (List String))
    → AllFrames cur fs kss
    → AllFrames cur (take n fs) (take n kss)
AllFrames-take zero cur fs kss a = tt
AllFrames-take (suc n) cur [] [] a = tt
AllFrames-take (suc n) cur [] (ks ∷ kss) a = absurd a
AllFrames-take (suc n) cur (f ∷ fs) [] a = absurd a
AllFrames-take (suc n) cur (f ∷ fs) (ks ∷ kss) a = (a.0, AllFrames-take n (cur + 1) fs kss a.1)

abbrev pub flatten : List (List String) → List String
flatten [] = []
flatten (ks ∷ kss) = ks ++ flatten kss

elem-append_false :
    (k : String) (xs ys : List String)
    → elem k (xs ++ ys) ≡ false
    → (elem k xs ≡ false) × (elem k ys ≡ false)
elem-append_false k [] ys h = (refl, h)
elem-append_false k (x ∷ xs) ys h = ground (arith, elem-append_false k xs ys)

-- A migration that succeeds leaves a map, not nil.
step-some :
    {n : ℕ} {ks : List String} {f : MigrateFunc} (a : Frames n ks f) (conf c : Yobj)
    → f conf ≡ ok c
    → (fs : Fields) × (c ≡ some fs)
step-some a none c e = absurd (cc a.nil_panics)
step-some a (some fs) none e = absurd (cc (a.version fs none e))
step-some a (some fs) (some c) e = (c, refl)

pub chain-version :
    (cur : ℕ) (fs : List MigrateFunc) (kss : List (List String)) (conf o : Yobj)
    → AllFrames cur fs kss
    → 0 < length fs
    → run_upgrades cur fs conf ≡ ok o
    → get_in "schema_version" o ≡ some (int (pos (cur + length fs)))
unfolding run_upgrades
chain-version cur [] kss conf o a h e = absurd (omega arith)
chain-version cur (f ∷ fs) [] conf o a h e = absurd a
chain-version cur (f ∷ fs) (ks ∷ kss) none o a h e = absurd (ground (arith, a.0.nil_panics))
chain-version cur (f ∷ []) (ks ∷ kss) (some c) o a h e = ground (arith, a.0.version c o)
chain-version cur (f ∷ g ∷ fs) (ks ∷ kss) (some c) o a h e = elim (Outcome-cases (f (some c))) [
  | inl (c', done) ↦
      chain-version (cur + 1) (g ∷ fs) kss c' o a.1 (omega arith) (ground arith)
      ∙ ap (λ n. some (int (pos n))) (omega arith)
  | inr other ↦ absurd (ground arith)
]

pub chain-frame :
    (k : String) (cur : ℕ) (fs : List MigrateFunc) (kss : List (List String)) (conf o : Yobj)
    → AllFrames cur fs kss
    → elem k ("schema_version" ∷ flatten kss) ≡ false
    → run_upgrades cur fs conf ≡ ok o
    → get_in k o ≡ get_in k conf
unfolding run_upgrades
chain-frame k cur [] kss conf o a h e = ground arith
chain-frame k cur (f ∷ fs) [] conf o a h e = absurd a
chain-frame k cur (f ∷ fs) (ks ∷ kss) none o a h e = absurd (ground (arith, a.0.nil_panics))
chain-frame k cur (f ∷ fs) (ks ∷ kss) (some c) o a h e = elim (Outcome-cases (f (some c))) [
  | inl (c', done) ↦
      let apart = elem-append_false k ks (flatten kss) (ground arith) in
      chain-frame k (cur + 1) fs kss c' o a.1 (ground arith) (ground arith)
      ∙ a.0.frame k c c' (ground arith) done
  | inr other ↦ absurd (ground arith)
]
