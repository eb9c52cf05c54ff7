-- ===== src/Milestones/Rules.antt =====
-- internal/milestones/state.go, cascade.go and apply.go: what a milestone reads as today, what moves
-- with a plan date, and the dates that a template gives.
use pilam.Prelude.{
  ℕ, zero, suc, Bool, true, false, not, ◌&&◌, ◌||◌, List, [], ◌∷◌, ℤ, pos, ◌+ℤ◌, ◌-ℤ◌, ltb_ℤ, eq_ℤ,
  if◌then◌else◌, ◌==◌, ℕ_eq, ℤ-Eq, map,
}
use pilam.Date.{is_zero, day, days, add_days, before, after}
use pilam.Date.Gregorian.{Time}
use pilam.Ids.{Uuid}
use pilam.Schema.{Milestone, TemplateItem}
pub mod Cascades
pub mod States

abbrev pub due_window : ℤ
due_window = pos 7

-- `State`
pub data State : Type 0 where
  done late due planned : State

-- `Milestone.Done`
abbrev is_done : Milestone → Bool
is_done m = not (is_zero m.fact)

-- `Milestone.State`
unfoldable pub state : Milestone → Time → State
state m today =
    if is_done m
    then done
    else if before m.plan today
    then late
    else if not (after m.plan (add_days today due_window))
    then due
    else planned

-- `Milestone.Slip`
unfoldable pub slip : Milestone → ℤ
slip m = days m.baseline m.plan

-- `Milestone.FactSlip`
unfoldable fact_slip : Milestone → ℤ
fact_slip m = if not (is_done m) then pos 0 else days m.baseline m.fact

-- `Milestone.OnTime`
unfoldable on_time : Milestone → Bool
on_time m = is_done m && not (after m.fact m.baseline)

pub record Move : Type 0 where
  pub milestone : Milestone
  pub plan : Time

-- `Move.Days`
unfoldable move_days : Move → ℤ
move_days m = days m.milestone.plan m.plan

abbrev pub move : Milestone → Time → Move
move m plan = record { milestone = m; plan = plan }

-- The rows that the loop of `Cascade` carries.
unfoldable pub carries : Milestone → Milestone → Bool
carries moved one =
    not ((one.id == moved.id) || not one.active || is_done one) && after one.plan moved.plan

unfoldable pub carried : Milestone → ℤ → List Milestone → List Move
unfolding carries
carried moved shift [] = []
carried moved shift (one ∷ held) =
    let rest = carried moved shift held in
    if carries moved one then move one (add_days one.plan shift) ∷ rest else rest

-- `Cascade`
unfoldable pub cascade : List Milestone → Milestone → Time → List Move
unfolding carried
cascade held moved typed =
    let plan = day typed in
    let shift = days moved.plan plan in
    if shift == pos 0
    then []
    else if ltb_ℤ shift (pos 0)
    then move moved plan ∷ []
    else move moved plan ∷ carried moved shift held

pub record Planned : Type 0 where
  pub type_id : Uuid
  pub baseline : Time
  pub plan : Time

abbrev planned_item : Time → TemplateItem → Planned
planned_item target item =
    let day = add_days target item.offset in
    record { type_id = item.type_id; baseline = day; plan = day }

-- `Apply`
unfoldable pub apply : List TemplateItem → Time → List Planned
apply items target = map (planned_item target) items

-- `Gaps`: the first item has no item above it.
unfoldable gaps_below : TemplateItem → List TemplateItem → List ℤ
gaps_below above [] = []
gaps_below above (item ∷ items) = (item.offset -ℤ above.offset) ∷ gaps_below item items

unfoldable pub gaps : List TemplateItem → List ℤ
unfolding gaps_below
gaps [] = []
gaps (item ∷ items) = pos 0 ∷ gaps_below item items
