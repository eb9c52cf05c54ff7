-- ===== src/Tests/Templates.antt =====
-- A default template gives way to another, and a row of its screen is saved as it was rendered.
use pilam.Prelude.{arith, ◌≡◌, refl, false, true, some, [], ◌∷◌, pos, negsuc, ◌-ℤ◌, ℕ_eq, get_elem?}
use pilam.Prelude.Sort.{sort_by}
use pilam.Errors.{ok}
use pilam.Schema.{TemplateItem}
use pilam.World.{World}
use pilam.Prelude.Text.{codes}
use pilam.World.Invariants.{Leaves}
use pilam.Milestones.Templates.{TemplateUpdateParams, update_template}
use pilam.Milestones.Templates.Laws.{HasDefault, update_template-Invariant}
use pilam.Milestones.Rules.{gaps}
use pilam.Milestones.Items.{find_from}
use pilam.Milestones.Store.Items as ItemRows
use pilam.Screens.Templates.{SubmittedMove, move_row}
use pilam.Screens.Templates.Laws.{move_row-rendered}
use pilam.Tests.Base.{env, world}

world-HasDefault : HasDefault world.tables
world-HasDefault = (7, ((λ _. (refl, refl)), tt))

abbrev retired : TemplateUpdateParams
retired = record { name = codes "T"; description = []; default = false; active = false }

update_template-Invariant_example : Leaves HasDefault (update_template env 7 retired world)
update_template-Invariant_example = update_template-Invariant env 7 retired world world-HasDefault

abbrev first_item : TemplateItem
first_item = record { id = 21; template_id = 7; type_id = 3; offset = negsuc 29; position = 0 }

abbrev second_item : TemplateItem
second_item = record { id = 22; template_id = 7; type_id = 4; offset = negsuc 9; position = 1 }

abbrev two_items : World
two_items = record world { tables = record world.tables { items = second_item ∷ first_item ∷ [] } }

-- The box of the offset is empty.
abbrev as_shown : SubmittedMove
as_shown = record { offset = pos 0; has_offset = false; gap = pos 20; has_gap = true }

listed_items : ItemRows.list 7 two_items ≡ (ok (first_item ∷ second_item ∷ []), two_items)
unfolding ItemRows.list sort_by
listed_items = refl

found_second : find_from 0 22 (first_item ∷ second_item ∷ []) ≡ some (1, second_item)
unfolding find_from
found_second = refl

shown_gap : get_elem? (gaps (first_item ∷ second_item ∷ [])) 1 ≡ some (pos 20)
unfolding gaps ◌-ℤ◌
shown_gap = refl

move_row-rendered_example : move_row env 7 22 as_shown two_items ≡ (ok tt, two_items)
move_row-rendered_example =
    move_row-rendered env 7 22 as_shown 1 second_item (first_item ∷ second_item ∷ []) two_items
      listed_items found_second (λ h. absurd (ground (arith, h))) (λ h below. shown_gap)
