-- ===== src/Milestones/Store/Types.antt =====
-- internal/postgres/milestone_type.go: the table milestone_type.
use pilam.Prelude.{
  Bool, not, ◌&&◌, List, [], ◌∷◌, ◌++◌, any, find_first, map, if◌then◌else◌, ◌==◌, ◌!=◌, ℕ_eq,
  List_eq,
}
use pilam.Prelude.Text.{to_lower}
use pilam.Prelude.Sort.{sort_by}
use pilam.Errors.{no_type, name_taken, milestone_id_taken, ok, err}
use pilam.Ids.{Uuid}
use pilam.Schema.{MilestoneType}
use pilam.World.{Env, Action, ◌>>=◌, reads, or_raise}
use pilam.Milestones.Store.Names.{by_name}

-- The unique index on lower(name) of the types, seen from the row that is written.
abbrev type_named : MilestoneType → MilestoneType → Bool
type_named row other = (other.id != row.id) && (to_lower other.name == to_lower row.name)

unfoldable pub by_id : Uuid → Action MilestoneType
by_id id = do
  row ← reads (λ t. find_first (λ (r : MilestoneType). r.id == id) t.types)
  or_raise no_type row

unfoldable pub list : Env → Action (List MilestoneType)
list env = reads (λ t. sort_by (λ (a b : MilestoneType). by_name env a.name b.name) t.types)

unfoldable pub create : MilestoneType → Action (Unit {0})
create row w =
    if any (λ (r : MilestoneType). r.id == row.id) w.tables.types
    then (err milestone_id_taken, w)
    else if any (type_named row) w.tables.types
    then (err name_taken, w)
    else (ok tt, record w { tables = record w.tables { types = w.tables.types ++ row ∷ [] } })

unfoldable pub update : MilestoneType → Action (Unit {0})
update row w =
    if not (any (λ (r : MilestoneType). r.id == row.id) w.tables.types)
    then (err no_type, w)
    else if any (type_named row) w.tables.types
    then (err name_taken, w)
    else (
      ok tt,
      record w {
        tables = record w.tables {
          types = map (λ r. if r.id == row.id then row else r) w.tables.types;
        };
      },
    )
