-- ===== src/Milestones/Calendar.antt =====
-- internal/milestones/calendar.go: how the calendar of a model starts, how a step joins it, and how
-- one row moves.
use pilam.Prelude.{
  ℕ, zero, suc, String, Bool, true, false, not, ◌&&◌, ◌||◌, Option, none, some, List, [], ◌∷◌, ◌++◌,
  ◌==◌, ◌!=◌, List_eq, ℕ_eq, Bool_eq, if◌then◌else◌, ℤ, pos, any, map, length, take, ltb, nat_eq,
}
use pilam.Prelude.Text.{Text, trim_space, format_bool, itoa, codes}
use pilam.Errors.{Error, required, not_allowed, no_template, type_on_model, Result, ok, err}
use pilam.Date.{is_zero, day, equal, after, iso}
use pilam.Date.Gregorian.{Time, zero_time}
use pilam.Ids.{Uuid}
use pilam.Schema.{Change, Template, TemplateItem, Milestone}
use pilam.Validate.{ready, check, max_len, err_of, fail}
use pilam.World.{Env, World, Action, today, ◌>>=◌, ◌>>◌, pure, raise_if, raise_some, new_id, in_tx}
use pilam.Trail.{record_trail, activation}
use pilam.Milestones.Naming.{changed, moved_text}
use pilam.Milestones.Rules.{State, state, Planned, apply, Move, cascade}
use pilam.Milestones.Items.{active_type}
use pilam.Milestones.Store.Calendar as Rows
use pilam.Milestones.Store.Items as ItemRows
use pilam.Milestones.Store.Templates as TemplateRows
pub mod Laws
pub mod History
pub mod Written
pub mod Preview
pub mod Starts

pub record CalendarRow : Type 0 where
  pub milestone : Milestone
  pub state : State

-- `Calendar`
unfoldable pub calendar : Env → Uuid → Action (List CalendarRow)
calendar env model_id = do
  held ← Rows.by_model model_id
  pure (map (λ m. record { milestone = m; state = state m (today env) }) held)

-- A template that is not there and a template that is retired are the same answer.
unfoldable pub offered : Result Template × World → Result Template × World
offered (ok row, w) = if not row.active then (err (fail "template" not_allowed), w) else (ok row, w)
offered (err no_template, w) = (err (fail "template" not_allowed), w)
offered (err e, w) = (err e, w)

unfoldable pub active_template : Uuid → Action Template
unfolding offered
active_template id w = offered (TemplateRows.by_id id w)

abbrev pub on_model : List Milestone → Uuid → Bool
on_model held type_id = any (λ (m : Milestone). m.type_id == type_id) held

abbrev pub first_row : Uuid → Uuid → Planned → Milestone
first_row id model_id p = record {
  id = id;
  model_id = model_id;
  type_id = p.type_id;
  baseline = p.baseline;
  plan = p.plan;
  fact = zero_time;
  note = [];
  active = true;
}

-- The loop of `missing`, over what the template gives.
unfoldable pub missing : Env → List Milestone → Uuid → List Planned → Action (List Milestone)
unfolding new_id
missing env held model_id [] = pure []
missing env held model_id (p ∷ planned) =
    let rest = missing env held model_id planned in
    if on_model held p.type_id
    then rest
    else (do id ← new_id env; out ← rest; pure (first_row id model_id p ∷ out))

-- `appliedValue`
unfoldable applied_value : Text → ℕ → Text
applied_value name written = name ++ (codes " (" ++ (itoa (pos written) ++ codes ")"))

unfoldable pub write_missing : Env → Uuid → Text → List Milestone → Action (List Milestone)
unfolding applied_value
write_missing env model_id name [] = pure []
write_missing env model_id name (m ∷ written) = do
  Rows.create (m ∷ written)
  record_trail env (
      changed "model" model_id "template_applied" "template" []
        (applied_value name (length (m ∷ written)))
      ∷ [])
  pure (m ∷ written)

-- `ApplyTemplate`
unfoldable pub apply_template : Env → Uuid → Uuid → Action (List Milestone)
unfolding active_template missing write_missing
apply_template env model_id template_id = do
  template ← active_template template_id
  target ← Rows.target model_id
  items ← ItemRows.list template_id
  in_tx (do
    held ← Rows.by_model model_id
    written ← missing env held model_id (apply items target)
    write_missing env model_id template.name written)

-- `AddMilestone`
unfoldable pub add_milestone : Env → Uuid → Uuid → Time → Action Milestone
unfolding active_type
add_milestone env model_id type_id plan = do
  raise_if (is_zero plan) (fail "plan_date" required)
  active_type type_id
  Rows.target model_id
  id ← new_id env
  let row : Milestone =
      first_row id model_id (record { type_id = type_id; baseline = day plan; plan = day plan })
  in_tx (do
    held ← Rows.by_model model_id
    raise_if (on_model held type_id) type_on_model
    Rows.create (row ∷ [])
    record_trail env (changed "milestone" id "created" "plan_date" [] (iso row.plan) ∷ [])
    pure row)

pub record MilestoneUpdateParams : Type 0 where
  pub fact : Time
  pub note : Text
  pub active : Bool

-- `zeroSafeDay`, `sameDay`, `isoOrNone` and `factAction`.
unfoldable zero_safe_day : Time → Time
zero_safe_day d = if is_zero d then zero_time else day d

unfoldable same_day : Time → Time → Bool
same_day a b = if is_zero a || is_zero b then is_zero a && is_zero b else equal a b

unfoldable iso_or_none : Time → Text
iso_or_none d = if is_zero d then [] else iso d

unfoldable fact_action : Time → Time → String
fact_action was now =
    if is_zero was then "fact_stamped" else if is_zero now then "fact_cleared" else "changed"

abbrev note_milestone : Uuid → String → String → Text → Text → Change
note_milestone id = changed "milestone" id

-- The entries of an update, in the order of its fields.
unfoldable pub milestone_changes : Milestone → MilestoneUpdateParams → List Change
unfolding zero_safe_day same_day iso_or_none fact_action
milestone_changes row p =
    let fact = zero_safe_day p.fact in
    (if not (same_day fact row.fact)
      then note_milestone row.id (fact_action row.fact fact) "fact_date" (iso_or_none row.fact)
          (iso_or_none fact)
        ∷ []
      else [])
    ++ (moved_text (note_milestone row.id) "note" row.note (trim_space p.note)
        ++ (if p.active != row.active
            then note_milestone row.id (activation p.active) "active" (format_bool row.active)
                (format_bool p.active)
              ∷ []
            else []))

-- The row after the update: a fact date of the same day stays as it is.
unfoldable pub edited_milestone : Milestone → MilestoneUpdateParams → Milestone
unfolding zero_safe_day same_day
edited_milestone row p =
    let fact = zero_safe_day p.fact in
    record row {
      fact = if same_day fact row.fact then row.fact else fact;
      note = trim_space p.note;
      active = p.active;
    }

abbrev max_note_len : ℕ
max_note_len = 500

unfoldable pub check_milestone : Env → MilestoneUpdateParams → Option Error
unfolding zero_safe_day
check_milestone env p =
    let fact = zero_safe_day p.fact in
    let v =
      (check ready (is_zero fact || not (after fact (today env))) "fact_date" not_allowed).0 in
    err_of (max_len v "note" (trim_space p.note) max_note_len).0.errs

unfoldable pub write_milestone : Env → Milestone → List Change → Action (Unit {0})
write_milestone env row [] = pure tt
write_milestone env row (c ∷ changes) = in_tx (Rows.update row >> record_trail env (c ∷ changes))

-- `UpdateMilestone`
unfoldable pub update_milestone : Env → Uuid → MilestoneUpdateParams → Action (Unit {0})
unfolding check_milestone edited_milestone milestone_changes write_milestone
update_milestone env id p = do
  raise_some (check_milestone env p)
  row ← Rows.by_id id
  write_milestone env (edited_milestone row p) (milestone_changes row p)

-- `Moves`
unfoldable pub moves : Uuid → Time → Action (List Move)
moves id plan = do
  raise_if (is_zero plan) (fail "plan_date" required)
  moved ← Rows.by_id id
  held ← Rows.by_model moved.model_id
  pure (cascade held moved plan)

abbrev pub moved_row : Move → Milestone
moved_row m = record m.milestone { plan = m.plan }

-- The entry of one move.
abbrev pub move_change : Move → Change
move_change m =
    changed "milestone" m.milestone.id "changed" "plan_date" (iso m.milestone.plan) (iso m.plan)

-- The loop of `MovePlan` over the rows that move.
unfoldable pub write_moves : List Move → Action (Unit {0})
write_moves [] = pure tt
write_moves (m ∷ rest) = do Rows.update (moved_row m); write_moves rest

-- `MovePlan`: without `shift` the moved row alone. An empty list of changes records nothing.
unfoldable pub move_plan : Env → Uuid → Time → Bool → Action (List Move)
unfolding moves write_moves
move_plan env id plan shift = in_tx (do
  found ← moves id plan
  let kept : List Move = if not shift && ltb 1 (length found) then take 1 found else found
  write_moves kept
  record_trail env (map move_change kept)
  pure kept)
