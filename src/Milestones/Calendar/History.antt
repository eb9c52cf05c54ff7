-- ===== src/Milestones/Calendar/History.antt =====
-- The trail under a move of a plan date.
use pilam.Prelude.{Bool, ◌≡◌, ap, List, ◌++◌, map}
use pilam.Errors.{ok}
use pilam.Date.{iso}
use pilam.Date.Gregorian.{Time}
use pilam.Ids.{Uuid}
use pilam.Schema.{Change, Entry, Tables}
use pilam.World.{Env, World}
use pilam.Trail.Told.{change_of}
use pilam.Milestones.Rules.{Move}
use pilam.Milestones.Calendar.{move_plan}
use pilam.Milestones.Calendar.Preview.{move_plan-Moved}

-- What the trail says of one move: the plan date of the milestone before it and after it.
abbrev pub plan_changed : Move → Change
plan_changed m = record {
  entity = "milestone";
  entity_id = m.milestone.id;
  action = "changed";
  field_key = "plan_date";
  old = iso m.milestone.plan;
  new = iso m.plan;
}

-- The trail grew by one entry for each move, in their order.
abbrev pub TellsMoves : List Move → List Entry → List Entry → Type 0
TellsMoves kept old trail =
    (new : List Entry) × (map change_of new ≡ map plan_changed kept) × (trail ≡ old ++ new)

-- A move of a plan date that succeeds leaves the entries of the trail as they were and adds after
-- them one entry for each move it makes, in their order, which tells the plan date of the row
-- before and after.
pub move_plan-TellsMoves :
    (env : Env) (id : Uuid) (plan : Time) (shift : Bool) (w w' : World) (kept : List Move)
    → move_plan env id plan shift w ≡ (ok kept, w')
    → TellsMoves kept w.tables.trail w'.tables.trail
move_plan-TellsMoves env id plan shift w w' kept h =
    let (new, says, grown) = (move_plan-Moved env id plan shift w w' kept h).tells in
    (new, says, ap (λ (t : Tables). t.trail) grown)
