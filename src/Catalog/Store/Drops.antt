-- ===== src/Catalog/Store/Drops.antt =====
-- internal/postgres/catalog_drop.go: the table drop.
use pilam.Prelude.{
  Bool, not, ◌&&◌, none, some, List, [], ◌∷◌, ◌++◌, any, find_first, keep_if, map, ltb_ℤ, eq_ℤ,
  if◌then◌else◌, ◌==◌, ◌!=◌, ℕ_eq, List_eq,
}
use pilam.Prelude.Text.{to_lower}
use pilam.Prelude.Sort.{sort_by}
use pilam.Errors.{no_drop, drop_name_taken, catalog_id_taken, constraint_failed, ok, err}
use pilam.Ids.{Uuid}
use pilam.Schema.{Season, Drop}
use pilam.World.{Env, Action, ◌>>=◌, reads, or_raise}
use pilam.Milestones.Store.Names.{by_name}

-- The unique index drop_season_name_key, seen from the row that is written.
abbrev drop_named : Drop → Drop → Bool
drop_named row other =
    (other.id != row.id)
    && ((other.season_id == row.season_id) && (to_lower other.name == to_lower row.name))

unfoldable pub by_id : Uuid → Action Drop
by_id id = do row ← reads (λ t. find_first (λ (r : Drop). r.id == id) t.drops); or_raise no_drop row

-- ORDER BY target_date, name
abbrev drop_order : Env → Drop → Drop → Bool
drop_order env a b =
    if eq_ℤ a.target_date.instant b.target_date.instant
    then by_name env a.name b.name
    else ltb_ℤ a.target_date.instant b.target_date.instant

unfoldable pub list_by_season : Env → Uuid → Action (List Drop)
list_by_season env season_id =
    reads (λ t. sort_by (drop_order env) (keep_if (λ (r : Drop). r.season_id == season_id) t.drops))

unfoldable pub create : Drop → Action (Unit {0})
create row w =
    if any (λ (r : Drop). r.id == row.id) w.tables.drops
    then (err catalog_id_taken, w)
    else if any (drop_named row) w.tables.drops
    then (err drop_name_taken, w)
    else if not (any (λ (r : Season). r.id == row.season_id) w.tables.seasons)
    then (err constraint_failed, w)
    else (ok tt, record w { tables = record w.tables { drops = w.tables.drops ++ row ∷ [] } })

-- UpdateDrop leaves the season of the row alone.
abbrev edited : Drop → Drop → Drop
edited row r =
    if r.id == row.id
    then record r { name = row.name; target_date = row.target_date; active = row.active }
    else r

unfoldable pub update : Drop → Action (Unit {0})
update row w = elim (find_first (λ (r : Drop). r.id == row.id) w.tables.drops) [
  | none ↦ (err no_drop, w)
  | some held ↦
      if any (drop_named (edited row held)) w.tables.drops then (err drop_name_taken, w) else (
        ok tt,
        record w { tables = record w.tables { drops = map (edited row) w.tables.drops } },
      )
]
