-- ===== src/Migrate/Sections.antt =====
-- What some migrations do to the settings of a section, and what they do at a section without value.
use null_private.Prelude.{
  ℕ, String, ◌≡◌, refl, sym, ap, ◌∙◌, none, some, inl, inr, arith, get_elem?,
}
use null_private.Prelude.Int.{pos}
use null_private.Migrate.Yaml.{
  Value, null, int, obj, Fields, end, field, Yobj, get, put, get_in, section, store, Outcome-cases,
  ok, panic, Move, found, field_val, join_moves,
}
use null_private.Migrate.Yaml.Laws.{get-put}
use null_private.Migrate.Yaml.Moves.{join_moves-IsMoved, after_move, join_moves-some}
use null_private.Migrate.Middle.{migrate_to12, migrate_to17, migrate_to18}
use null_private.Migrate.Late.{
  migrate_to21, migrate_to26, migrate_to28, filtering_moves, put_nonempty,
}

-- The last step of `migrateTo26`, from the maps that the moves have left.
stored_sections :
    (to : String) (v : Value) (conf dns flt : Fields) (o' : Yobj)
    → get to flt ≡ some v
    → put_nonempty "filtering" (some flt) (store "dns" (some dns) (some conf)) ≡ ok o'
    → (section "filtering" o' ≡ some flt) × (section "dns" o' ≡ some dns)
unfolding get
stored_sections to v conf dns end o' there e = cc
stored_sections to v conf dns (field j w rest) o' there e = ground (
  arith,
  get-put "filtering" "filtering" (obj (field j w rest)) (put "dns" (obj dns) conf),
  get-put "filtering" "dns" (obj (field j w rest)) (put "dns" (obj dns) conf),
  get-put "dns" "dns" (obj dns) conf,
)

-- After the migration to version 26, each of the moved settings that the section "dns" had (with the
-- type that is expected, or null) stands in the section "filtering" with its value, and no longer in
-- "dns".
pub migrate_to26-moved :
    (fs dns : Fields) (o' : Yobj) (n : ℕ) (m : Move) (v : Value)
    → get "dns" fs ≡ some (obj dns)
    → get_elem? filtering_moves n ≡ some m
    → field_val m.reader (some dns) m.from_key ≡ found v
    → migrate_to26 (some fs) ≡ ok o'
    → (get_in m.to_key (section "filtering" o') ≡ some (m.reader.embed v))
      × (get_in m.from_key (section "dns" o') ≡ none)
unfolding migrate_to26 get
migrate_to26-moved fs dns o' n m v sec at there e =
    elim (Outcome-cases (join_moves filtering_moves (some dns, some end) none)) [
      | inl (s', done) ↦
          let (dns', flt, shape) = join_moves-some filtering_moves dns end s' none done in
          let (moved, gone) =
            join_moves-IsMoved filtering_moves n m (some dns, some end) s' none refl refl at done in
          let there' : get_in m.to_key s'.1 ≡ some (m.reader.embed v) =
            moved ∙ ap (after_move m.reader none) there in
          let (filtering', dns'') =
            stored_sections m.to_key (m.reader.embed v) (put "schema_version" (int (pos 26)) fs)
              dns' flt o' (rw shape at there')
              (ground (arith, get-put "schema_version" "dns" (int (pos 26)) fs)) in
          (
            ap (get_in m.to_key) (filtering' ∙ ap (λ p. p.1) (sym shape)) ∙ there',
            ap (get_in m.from_key) (dns'' ∙ ap (λ p. p.0) (sym shape)) ∙ gone,
          )
      | inr other ↦ absurd (ground (arith, get-put "schema_version" "dns" (int (pos 26)) fs))
    ]

-- Where a configuration has a section "dns" without value, these migrations panic: they write to a
-- nil map.
pub null_dns-panics :
    (fs : Fields)
    → get "dns" fs ≡ some null
    → (migrate_to12 (some fs) ≡ panic)
      × (migrate_to17 (some fs) ≡ panic)
      × (migrate_to18 (some fs) ≡ panic)
      × (migrate_to21 (some fs) ≡ panic)
      × (migrate_to28 (some fs) ≡ panic)
unfolding migrate_to12 migrate_to17 migrate_to18 migrate_to21 migrate_to28
null_dns-panics fs h = (
  ground (arith, get-put "schema_version" "dns" (int (pos 12)) fs),
  ground (arith, get-put "schema_version" "dns" (int (pos 17)) fs),
  ground (arith, get-put "schema_version" "dns" (int (pos 18)) fs),
  ground (arith, get-put "schema_version" "dns" (int (pos 21)) fs),
  ground (arith, get-put "schema_version" "dns" (int (pos 28)) fs),
)
