-- ===== src/Screens/Calendar.antt =====
-- internal/http/models/calendar.go, with the card of internal/http/models/models.go that it answers
-- with: the calendar section of a model.
use pilam.Prelude.{
  Bool, true, false, not, ◌&&◌, ◌||◌, ◌==◌, ℕ_eq, List_eq, Option, none, some, List, [], ◌∷◌, ◌++◌,
  any, if◌then◌else◌, keep_if, map, find_first, ℕ, pos,
}
use mathlib.Core.Option as Option
use pilam.Prelude.Text.{Text, codes}
use pilam.Errors.{
  Error, FieldErrors, Result, ok, err, no_model, no_milestone, type_on_model, required, taken,
}
use pilam.Date.{is_zero}
use pilam.Date.Gregorian.{Time}
use pilam.Ids.{Uuid, nil_id}
use pilam.Schema.{Season, Drop, Model, Photo, MilestoneType, Template, Milestone}
use pilam.Validate.{fail}
use pilam.World.{Env, World, Action, today, ◌>>=◌, pure}
use pilam.Trail.{Scope}
use pilam.Accounts.Principals.{UuidForm, parse_id}
use pilam.Catalog.Seasons.{season}
use pilam.Catalog.Drops.{drop}
use pilam.Catalog.Models.{model}
use pilam.Catalog.Photos.{list_photos}
use pilam.Milestones.Rules.{Move}
use pilam.Milestones.Calendar.{
  CalendarRow, calendar, apply_template, add_milestone, moves, move_plan, update_milestone,
  MilestoneUpdateParams, on_model,
}
use pilam.Milestones.Store.Templates as TemplateRows
use pilam.Milestones.Store.Types as TypeRows
use pilam.Screens.{
  Answer, Form, posted_id, posted_day, posted_flag, shown, redirect, redirect_saved, not_found,
  server_error, rejections, joined,
}
use pilam.Screens.Trails.{Event, load_trail_of}
use pilam.Screens.Pages.{Screen, load_one, reading, refused_by}
use pilam.Screens.Models.{SelectOption, template_choices, model_path, has_rejections}
pub mod Laws
pub mod Saves

-- `calendar`: the rows, what the controls offer, and the name of each step for the history.
pub record Held : Type 0 where
  pub rows : List CalendarRow
  pub templates : List SelectOption
  pub types : List SelectOption
  pub steps : Uuid → Option Text

-- `typeChoices`: the active types that the model does not hold.
unfoldable pub type_choices : UuidForm → List MilestoneType → List CalendarRow → List SelectOption
type_choices ids types rows =
    map (λ (t : MilestoneType). record { value = ids.text t.id; label = t.name })
      (keep_if
        (λ (t : MilestoneType).
          not (not t.active || on_model (map (λ (r : CalendarRow). r.milestone) rows) t.id))
        types)

-- The name of the step that an identifier stands for, where the model holds it. A type that is not
-- there has the empty name.
abbrev pub name_in : List MilestoneType → Uuid → Text
name_in types id = elim (find_first (λ (t : MilestoneType). t.id == id) types) [
  | none ↦ []
  | some t ↦ t.name
]

unfoldable pub step_names : List MilestoneType → List CalendarRow → Uuid → Option Text
step_names types rows id =
    Option.map (λ (r : CalendarRow). name_in types r.milestone.type_id)
      (find_first (λ (r : CalendarRow). r.milestone.id == id) rows)

-- `loadCalendar`
unfoldable pub load_calendar : UuidForm → Env → Uuid → Action Held
unfolding type_choices step_names
load_calendar ids env model_id = do
  rows ← calendar env model_id
  types ← TypeRows.list env
  templates ← TemplateRows.list env
  pure (record {
    rows = rows;
    templates = template_choices ids templates;
    types = type_choices ids types rows;
    steps = step_names types rows;
  })

-- `scopes`
abbrev pub scopes_of : Held → Uuid → List Scope
scopes_of held model_id =
    record { entity = "model"; ids = model_id ∷ [] }
    ∷ record { entity = "milestone"; ids = map (λ (r : CalendarRow). r.milestone.id) held.rows }
    ∷ []

abbrev pub is_no_model : Error → Bool
is_no_model no_model = true
is_no_model _ = false

-- `loadOne`: a model whose drop or season cannot be read is a failure.
unfoldable pub load_model : UuidForm → Text → (Model → Drop → Season → Screen) → Screen
load_model ids raw page =
    load_one ids is_no_model model raw
      (λ m. reading (drop m.drop_id) (λ d. reading (season d.season_id) (page m d)))

module _ (ids : UuidForm) (env : Env) (raw : Text) where
  -- `modelCard`, with the status and the rejections that the page shows.
  unfoldable pub model_card : ℕ → FieldErrors → Screen
  unfolding load_model load_calendar
  model_card status errs = load_model ids raw (λ m d s. reading (list_photos m.id) (λ photos.
      reading (load_calendar ids env m.id) (λ held.
        reading (load_trail_of env held.steps (scopes_of held m.id))
          (λ events w. (record (shown status errs) { trail = events }, w)))))

  -- `Show`
  abbrev show : Screen
  show = model_card 200 []

  -- `refuseCalendar`, after `Rejections`.
  abbrev pub refuse_calendar : List (Option Error) → Screen
  refuse_calendar errs = refused_by (rejections errs) (model_card 422)

  -- `ApplyTemplate`
  abbrev pub required_id : Uuid × Option Error → Option Error
  required_id (id, some e) = some e
  required_id (id, none) = if id == nil_id then some (fail "template" required) else none

  abbrev pub after_write :
      {A : Type 0}
      → Model
      → (Error → Error)
      → List (Option Error)
      → Result A × World
      → Answer × World
  after_write m told boxes (ok a, w) = (redirect_saved (model_path ids m), w)
  after_write m told boxes (err e, w) = refuse_calendar (boxes ++ some (told e) ∷ []) w

  unfoldable pub apply_to : Form → Model → Screen
  unfolding model_card
  apply_to form m w =
      let template = posted_id ids form "template" in
      elim (required_id template) [
        | some e ↦ refuse_calendar (some e ∷ []) w
        | none ↦ after_write m (λ e. e) [] (apply_template env m.id template.0 w)
      ]

  unfoldable pub apply : Form → Screen
  unfolding apply_to
  apply form = load_model ids raw (λ m d s. apply_to form m)

  -- `AddMilestone`
  abbrev pub told_added : Error → Error
  told_added type_on_model = fail "type" taken
  told_added e = e

  unfoldable pub add_to : Form → Model → Screen
  unfolding model_card
  add_to form m w =
      let (type_id, bad_type) = posted_id ids form "type" in
      let (plan, bad_plan) = posted_day form "plan_date" in
      let boxes = bad_type ∷ bad_plan ∷ [] in
      elim (joined bad_type bad_plan) [
        | some e ↦ refuse_calendar (boxes ++ some e ∷ []) w
        | none ↦ after_write m told_added boxes (add_milestone env m.id type_id plan w)
      ]

  unfoldable pub add : Form → Screen
  unfolding add_to
  add form = load_model ids raw (λ m d s. add_to form m)

  -- `pressed`, over what the button of a row posts.
  unfoldable pub pressed : Text → MilestoneUpdateParams → MilestoneUpdateParams
  pressed action p =
      if action == codes "fact_today"
      then record p { fact = today env }
      else if action == codes "retire"
      then record p { active = false }
      else if action == codes "restore"
      then record p { active = true }
      else p

  -- `redirectDone`, or `RedirectSaved`, by the button.
  unfoldable pub redirect_done : Text → Uuid → Model → Answer
  redirect_done action id m =
      if action == codes "fact_today"
      then redirect (model_path ids m ++ (codes "?done=fact&step=" ++ ids.text id))
      else if action == codes "retire"
      then redirect (model_path ids m ++ codes "?done=retired")
      else redirect_saved (model_path ids m)

  module _ (form : Form) (m : Model) (id : Uuid) where
    abbrev pub edit : MilestoneUpdateParams
    edit = pressed (form.value "row_action") (record {
      fact = (posted_day form "fact_date").0;
      note = form.value "note";
      active = posted_flag form "active";
    })

    abbrev pub boxes_of : List (Option Error)
    boxes_of = (posted_day form "plan_date").1 ∷ (posted_day form "fact_date").1 ∷ []

    -- What a save answers where the service fails.
    unfoldable pub refuse_save : Error → Screen
    unfolding model_card
    refuse_save no_milestone w = (not_found, w)
    refuse_save e w = refuse_calendar (boxes_of ++ some e ∷ []) w

    unfoldable pub after_update : Result (Unit {0}) × World → Answer × World
    unfolding refuse_save redirect_done
    after_update (ok u, w) = (redirect_done (form.value "row_action") id m, w)
    after_update (err e, w) = refuse_save e w

    unfoldable pub after_move : Result (List Move) × World → Answer × World
    unfolding after_update pressed
    after_move (ok done, w) = after_update (update_milestone env id edit w)
    after_move (err e, w) = refuse_save e w

    -- A button of a row posts no plan date, and moves none.
    abbrev pub move_posted : Action (List Move)
    move_posted w =
        let plan = (posted_day form "plan_date").0 in
        if is_zero plan then (ok [], w) else move_plan env id plan (posted_flag form "shift") w

    unfoldable pub save_row : Screen
    unfolding after_move
    save_row w = elim (joined (posted_day form "plan_date").1 (posted_day form "fact_date").1) [
      | some e ↦ refuse_calendar (boxes_of ++ some e ∷ []) w
      | none ↦ after_move (move_posted w)
    ]

  -- `milestoneOf`
  abbrev pub with_milestone : Text → (Uuid → Screen) → Screen
  with_milestone raw_id page w = elim (parse_id ids raw_id) [
    | none ↦ (not_found, w)
    | some id ↦ page id w
  ]

  -- `SaveMilestone`
  unfoldable pub save : Text → Form → Screen
  unfolding save_row
  save raw_id form = load_model ids raw (λ m d s. with_milestone raw_id (save_row form m))

  -- `ShowCalendarEdit`, and `ShowMilestoneEdit`.
  abbrev pub shows : Screen
  shows w = (shown 200 [], w)

  unfoldable show_calendar_edit : Screen
  unfolding load_model load_calendar
  show_calendar_edit =
      load_model ids raw (λ m d s. reading (load_calendar ids env m.id) (λ held. shows))

  unfoldable show_milestone_edit : Text → Screen
  unfolding load_model load_calendar
  show_milestone_edit raw_id = load_model ids raw (λ m d s. with_milestone raw_id (λ id.
      reading (load_calendar ids env m.id) (λ held w.
        if any (λ (r : CalendarRow). r.milestone.id == id) held.rows
        then shows w
        else (not_found, w))))

  -- `PreviewPlan`, over the values of the query: what cannot be read or is refused shows no moves.
  abbrev pub preview_with : Model → Result (List Move) × World → Answer × World
  preview_with m (ok found, w) = reading (load_calendar ids env m.id) (λ held. shows) w
  preview_with m (err no_milestone, w) = (not_found, w)
  preview_with m (err e, w) =
      (if has_rejections (rejections (some e ∷ [])) then shown 200 [] else server_error, w)

  abbrev pub preview_of : Model → Uuid → Time × Option Error → Screen
  preview_of m id (plan, some e) w = shows w
  preview_of m id (plan, none) w =
      if is_zero plan then shows w else preview_with m (moves id plan w)

  unfoldable pub preview_plan : Text → Form → Screen
  unfolding load_model load_calendar
  preview_plan raw_id query =
      load_model ids raw
        (λ m d s. with_milestone raw_id (λ id. preview_of m id (posted_day query "plan_date")))
