-- ===== src/Milestones/Store/Items.antt =====
-- internal/postgres/milestone_template.go: the table milestone_template_item.
use pilam.Prelude.{
  ℕ, ◌+◌, not, ◌&&◌, ◌||◌, List, [], ◌∷◌, ◌++◌, any, keep_if, map, leb, ltb_ℤ, if◌then◌else◌, ◌==◌,
  ◌!=◌, ℕ_eq, List_eq, pos,
}
use pilam.Prelude.Sort.{sort_by}
use pilam.Errors.{no_item, milestone_id_taken, type_in_template, constraint_failed, ok, err}
use pilam.Ids.{Uuid}
use pilam.Schema.{MilestoneType, Template, TemplateItem}
use pilam.World.{Action, ◌>>◌, pure, reads, in_tx}

-- ListMilestoneTemplateItems, in position order.
unfoldable pub list : Uuid → Action (List TemplateItem)
list template_id = reads (λ t.
    sort_by (λ (a b : TemplateItem). leb a.position b.position)
      (keep_if (λ (r : TemplateItem). r.template_id == template_id) t.items))

-- The checks and keys of an insert. `int32` keeps an offset and a position as they are: the service
-- bounds the one, and the other counts rows.
unfoldable pub add : TemplateItem → Action (Unit {0})
add row w =
    if ltb_ℤ (pos 0) row.offset
    then (err constraint_failed, w)
    else if any (λ (r : TemplateItem). r.id == row.id) w.tables.items
    then (err milestone_id_taken, w)
    else if any
        (λ (r : TemplateItem). (r.template_id == row.template_id) && (r.type_id == row.type_id))
        w.tables.items
    then (err type_in_template, w)
    else if not (any (λ (r : Template). r.id == row.template_id) w.tables.templates)
        || not (any (λ (r : MilestoneType). r.id == row.type_id) w.tables.types)
    then (err constraint_failed, w)
    else (ok tt, record w { tables = record w.tables { items = w.tables.items ++ row ∷ [] } })

abbrev pub edited : TemplateItem → TemplateItem → TemplateItem
edited row r =
    if r.id == row.id
    then record r { type_id = row.type_id; offset = row.offset; position = row.position }
    else r

-- UpdateMilestoneTemplateItem leaves the template of the item alone.
unfoldable pub update : TemplateItem → Action (Unit {0})
update row w =
    if not (any (λ (r : TemplateItem). r.id == row.id) w.tables.items)
    then (err no_item, w)
    else if ltb_ℤ (pos 0) row.offset
    then (err constraint_failed, w)
    else if any
        (λ (r : TemplateItem).
          (r.id != row.id) && (r.template_id == row.template_id) && (r.type_id == row.type_id))
        w.tables.items
    then (err type_in_template, w)
    else if not (any (λ (r : MilestoneType). r.id == row.type_id) w.tables.types)
    then (err constraint_failed, w)
    else (ok tt, record w { tables = record w.tables { items = map (edited row) w.tables.items } })

unfoldable pub remove : Uuid → Action (Unit {0})
remove id w =
    if not (any (λ (r : TemplateItem). r.id == id) w.tables.items) then (err no_item, w) else (
      ok tt,
      record w {
        tables = record w.tables {
          items = keep_if (λ (r : TemplateItem). r.id != id) w.tables.items;
        };
      },
    )

abbrev placed : Uuid → ℕ → TemplateItem → TemplateItem
placed id position r = if r.id == id then record r { position = position } else r

-- SetMilestoneTemplateItemPosition
unfoldable set_position : Uuid → ℕ → Action (Unit {0})
set_position id position w =
    if not (any (λ (r : TemplateItem). r.id == id) w.tables.items) then (err no_item, w) else (
      ok tt,
      record w { tables = record w.tables { items = map (placed id position) w.tables.items } },
    )

-- The loop of `ReorderItems` at a position.
unfoldable place_from : ℕ → List Uuid → Action (Unit {0})
unfolding set_position
place_from position [] = pure tt
place_from position (id ∷ ordered) = do set_position id position; place_from (position + 1) ordered

unfoldable pub reorder : List Uuid → Action (Unit {0})
unfolding place_from in_tx
reorder [] = pure tt
reorder (id ∷ ordered) = in_tx (place_from 0 (id ∷ ordered))
