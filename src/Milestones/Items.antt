-- ===== src/Milestones/Items.antt =====
-- internal/milestones/templates.go: the items of a template, with their offsets and their order.
use pilam.Prelude.{
  ℕ, zero, suc, String, not, Option, none, some, List, [], ◌∷◌, ◌++◌, ◌==◌, List_eq, ℕ_eq,
  if◌then◌else◌, ℤ, pos, negsuc, ◌+ℤ◌, ℤ-Eq, any, map, length, get_elem?, find_first,
}
use pilam.Prelude.Text.{Text, itoa, join, codes}
use pilam.Errors.{
  Error, not_allowed, no_item, no_type, type_in_template, item_order, Result, ok, err,
}
use pilam.Ids.{Uuid}
use pilam.Schema.{MilestoneType, TemplateItem}
use pilam.Validate.{ready, at_most, at_least, err_of, fail}
use pilam.World.{
  Env, World, Action, ◌>>=◌, ◌>>◌, pure, raise_if, raise_some, or_raise, lift, new_id, in_tx,
}
use pilam.Trail.{record_trail}
use pilam.Rearranges.{rearranges, remove_at}
use pilam.Milestones.Naming.{changed}
use pilam.Milestones.Store.Items as Rows
use pilam.Milestones.Store.Types as TypeRows
use pilam.Milestones.Store.Templates as TemplateRows

-- `MaxOffset` and `MinOffset`: ten years before the target date.
abbrev max_offset : ℤ
max_offset = pos 0

abbrev min_offset : ℤ
min_offset = negsuc 3649

-- `checkOffset`
unfoldable check_offset : String → ℤ → Option Error
check_offset field offset =
    let (v, low) = at_most ready field offset max_offset in
    err_of (if low then (at_least v field offset min_offset).0 else v).errs

-- `itemValue`
unfoldable item_value : Text → ℤ → Text
item_value name offset = name ++ (codes " (" ++ (itoa offset ++ codes ")"))

-- A type that is not there and a type that is not active are the same answer.
unfoldable pub offered : Result MilestoneType × World → Result MilestoneType × World
offered (ok row, w) = if not row.active then (err (fail "type" not_allowed), w) else (ok row, w)
offered (err no_type, w) = (err (fail "type" not_allowed), w)
offered (err e, w) = (err e, w)

unfoldable pub active_type : Uuid → Action MilestoneType
unfolding offered
active_type type_id w = offered (TypeRows.by_id type_id w)

-- `AddTemplateItem`
unfoldable pub add_item : Env → Uuid → Uuid → ℤ → Action TemplateItem
unfolding active_type check_offset item_value
add_item env template_id type_id offset = do
  raise_some (check_offset "offset" offset)
  TemplateRows.by_id template_id
  milestone_type ← active_type type_id
  in_tx (do
    held ← Rows.list template_id
    raise_if (any (λ (i : TemplateItem). i.type_id == type_id) held) type_in_template
    id ← new_id env
    let item : TemplateItem = record {
      id = id;
      template_id = template_id;
      type_id = type_id;
      offset = offset;
      position = length held;
    }
    Rows.add item
    record_trail env (
        changed "milestone_template" template_id "item_added" "offset" []
          (item_value milestone_type.name offset)
        ∷ [])
    pure item)

-- `slices.IndexFunc` with the item at the index, from an index on.
unfoldable pub find_from : ℕ → Uuid → List TemplateItem → Option (ℕ × TemplateItem)
find_from at id [] = none
find_from at id (i ∷ items) = if i.id == id then some (at, i) else find_from (suc at) id items

-- `typeName`
unfoldable type_name : Uuid → Action Text
type_name type_id = do row ← TypeRows.by_id type_id; pure row.name

-- The end of `moveItem`: an offset that stays writes nothing.
unfoldable move_to : Env → TemplateItem → Uuid → ℤ → Action (Unit {0})
unfolding type_name
move_to env item template_id offset = if item.offset == offset then pure tt else (do
  Rows.update (record item { offset = offset })
  name ← type_name item.type_id
  record_trail env (
      changed "milestone_template" template_id "changed" "offset" (item_value name item.offset)
        (item_value name offset)
      ∷ []))

-- `moveItem`, where `offset_of` reads the items and the index of the one that moves.
unfoldable move_item :
    Env → Uuid → Uuid → String → (List TemplateItem → ℕ → Result ℤ) → Action (Unit {0})
unfolding find_from move_to
move_item env template_id item_id field offset_of = in_tx (do
  held ← Rows.list template_id
  (at, item) ← or_raise no_item (find_from 0 item_id held)
  offset ← lift (offset_of held at)
  raise_some (check_offset field offset)
  move_to env item template_id offset)

-- `SetTemplateItemOffset`
unfoldable pub set_offset : Env → Uuid → Uuid → ℤ → Action (Unit {0})
unfolding move_item check_offset item_value
set_offset env template_id item_id offset =
    move_item env template_id item_id "offset" (λ held at. ok offset)

-- The offset that a gap works out to: the first item has no item above it. Where Go's sum would wrap
-- around, both sums lie outside the bounds of an offset.
unfoldable offset_of_gap : ℤ → List TemplateItem → ℕ → Result ℤ
offset_of_gap gap held zero = err (fail "gap" not_allowed)
offset_of_gap gap held (suc above) = elim (get_elem? held above) [
  | none ↦ err (fail "gap" not_allowed)
  | some item ↦ ok (item.offset +ℤ gap)
]

-- `SetTemplateItemGap`
unfoldable pub set_gap : Env → Uuid → Uuid → ℤ → Action (Unit {0})
unfolding move_item offset_of_gap check_offset item_value
set_gap env template_id item_id gap = move_item env template_id item_id "gap" (offset_of_gap gap)

-- `itemIDs`
abbrev item_ids : List TemplateItem → List Uuid
item_ids items = map (λ (i : TemplateItem). i.id) items

-- `RemoveTemplateItem`
unfoldable pub remove_item : Env → Uuid → Uuid → Action (Unit {0})
unfolding find_from type_name item_value
remove_item env template_id item_id = in_tx (do
  held ← Rows.list template_id
  (at, removed) ← or_raise no_item (find_from 0 item_id held)
  Rows.remove item_id
  Rows.reorder (item_ids (remove_at at held))
  name ← type_name removed.type_id
  record_trail env (
      changed "milestone_template" template_id "item_removed" "offset"
        (item_value name removed.offset) []
      ∷ []))

-- `typeNames` with `listValue`: a type or an item that the maps do not hold has the empty name.
unfoldable name_of : List MilestoneType → List TemplateItem → Uuid → Text
name_of types held id = elim (find_first (λ (i : TemplateItem). i.id == id) held) [
  | none ↦ []
  | some item ↦ elim (find_first (λ (t : MilestoneType). t.id == item.type_id) types) [
    | none ↦ []
    | some row ↦ row.name
  ]
]

unfoldable list_value : List MilestoneType → List TemplateItem → List Uuid → Text
unfolding name_of
list_value types held order = join (codes ", ") (map (name_of types held) order)

unfoldable write_order : Env → Uuid → List TemplateItem → List Uuid → Action (Unit {0})
write_order env template_id held ordered = do
  Rows.reorder ordered
  types ← TypeRows.list env
  record_trail env (
      changed "milestone_template" template_id "items_reordered" "item_order"
        (list_value types held (item_ids held)) (list_value types held ordered)
      ∷ [])

-- `ReorderTemplateItems`
unfoldable pub reorder_items : Env → Uuid → List Uuid → Action (Unit {0})
unfolding write_order list_value
reorder_items env template_id ordered = in_tx (do
  held ← Rows.list template_id
  raise_if (not (rearranges (item_ids held) ordered)) item_order
  if item_ids held == ordered then pure tt else write_order env template_id held ordered)
