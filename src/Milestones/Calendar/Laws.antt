-- ===== src/Milestones/Calendar/Laws.antt =====
-- The operations of the calendar that fail.
use pilam.Prelude.{◌≡◌, ◌∙◌, Bool, false, List, [], ◌∷◌}
use pilam.Date.Gregorian.{Time}
use pilam.Ids.{Uuid}
use pilam.Schema.{Change, Milestone}
use pilam.World.{Env, World, raise_some}
use pilam.World.Laws.{Keeps, Reads, in_tx-Keeps, bind-Keeps, raise_some-Reads, or_raise-Reads}
use pilam.Milestones.Calendar.{
  move_plan, update_milestone, check_milestone, write_milestone, MilestoneUpdateParams,
  edited_milestone, milestone_changes,
}
use pilam.Milestones.Store.Calendar as Rows

by_id-Reads : (id : Uuid) (w : World) → Reads w (Rows.by_id id w)
unfolding Rows.by_id
by_id-Reads id w = or_raise-Reads _ _ w

write_milestone-Keeps :
    (env : Env) (row : Milestone) (changes : List Change) (w : World)
    → w.joined ≡ false
    → Keeps w (write_milestone env row changes w)
unfolding write_milestone
write_milestone-Keeps env row [] w j = tt
write_milestone-Keeps env row (c ∷ changes) w j = in_tx-Keeps _ w j

-- An update of a milestone that fails, outside a transaction, leaves every table as it was.
pub update_milestone-Keeps :
    (env : Env) (id : Uuid) (p : MilestoneUpdateParams) (w : World)
    → w.joined ≡ false
    → Keeps w (update_milestone env id p w)
unfolding update_milestone
update_milestone-Keeps env id p w j =
    bind-Keeps (raise_some (check_milestone env p)) _ w (raise_some-Reads _ w) (λ _ w1 j1.
      bind-Keeps (Rows.by_id id) _ w1 (by_id-Reads id w1) (λ row w2 j2.
        write_milestone-Keeps env (edited_milestone row p) (milestone_changes row p) w2
          (j2 ∙ (j1 ∙ j))))

-- A move of a plan date that fails, outside a transaction, leaves every table as it was.
pub move_plan-Keeps :
    (env : Env) (id : Uuid) (plan : Time) (shift : Bool) (w : World)
    → w.joined ≡ false
    → Keeps w (move_plan env id plan shift w)
unfolding move_plan
move_plan-Keeps env id plan shift w j = in_tx-Keeps _ w j
