-- ===== src/Milestones/Store/Templates.antt =====
-- internal/postgres/milestone_template.go: the table milestone_template.
use pilam.Prelude.{
  Bool, false, not, ◌&&◌, List, [], ◌∷◌, ◌++◌, any, find_first, map, if◌then◌else◌, ◌==◌, ◌!=◌,
  ℕ_eq, List_eq,
}
use pilam.Prelude.Text.{to_lower}
use pilam.Prelude.Sort.{sort_by}
use pilam.Errors.{no_template, name_taken, milestone_id_taken, constraint_failed, ok, err}
use pilam.Ids.{Uuid}
use pilam.Schema.{Template}
use pilam.World.{Env, Action, ◌>>=◌, reads, writes, or_raise}
use pilam.Milestones.Store.Names.{by_name}

-- The unique index on lower(name), seen from the row that is written.
abbrev template_named : Template → Template → Bool
template_named row other = (other.id != row.id) && (to_lower other.name == to_lower row.name)

-- The partial unique index that holds one default.
abbrev pub other_default : Template → Template → Bool
other_default row other = (other.id != row.id) && (row.default && other.default)

unfoldable pub by_id : Uuid → Action Template
by_id id = do
  row ← reads (λ t. find_first (λ (r : Template). r.id == id) t.templates)
  or_raise no_template row

unfoldable pub list : Env → Action (List Template)
list env = reads (λ t. sort_by (λ (a b : Template). by_name env a.name b.name) t.templates)

unfoldable pub create : Template → Action (Unit {0})
create row w =
    if any (λ (r : Template). r.id == row.id) w.tables.templates
    then (err milestone_id_taken, w)
    else if any (template_named row) w.tables.templates
    then (err name_taken, w)
    else if any (other_default row) w.tables.templates
    then (err constraint_failed, w)
    else (
      ok tt,
      record w { tables = record w.tables { templates = w.tables.templates ++ row ∷ [] } },
    )

unfoldable pub update : Template → Action (Unit {0})
update row w =
    if not (any (λ (r : Template). r.id == row.id) w.tables.templates)
    then (err no_template, w)
    else if any (template_named row) w.tables.templates
    then (err name_taken, w)
    else if any (other_default row) w.tables.templates
    then (err constraint_failed, w)
    else (
      ok tt,
      record w {
        tables = record w.tables {
          templates = map (λ r. if r.id == row.id then row else r) w.tables.templates;
        };
      },
    )

unfoldable pub cleared : Uuid → Template → Template
cleared keep r = if r.default && (r.id != keep) then record r { default = false } else r

unfoldable pub clear_default : Uuid → Action (Unit {0})
unfolding cleared
clear_default keep = writes (λ t. record t { templates = map (cleared keep) t.templates })
