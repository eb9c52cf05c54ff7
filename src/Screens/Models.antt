-- ===== src/Screens/Models.antt =====
-- internal/http/models/models.go: the creation of a model with its calendar.
use pilam.Prelude.{
  Bool, true, false, ◌||◌, ◌==◌, ℕ_eq, List_eq, Option, none, some, List, [], ◌∷◌, ◌++◌, any,
  if◌then◌else◌, not, ◌&&◌, keep_if, map,
}
use pilam.Prelude.Text.{Text, codes}
use pilam.Errors.{Error, FieldErrors, Result, ok, err, no_drop, not_allowed}
use pilam.Ids.{Uuid, nil_id}
use pilam.Schema.{Season, Drop, Model, Template, Milestone}
use pilam.Validate.{fail}
use pilam.World.{Env, World, Action, ◌>>=◌, pure}
use pilam.Accounts.Principals.{UuidForm}
use pilam.Catalog.Models.{create_model}
use pilam.Milestones.Calendar.{apply_template}
use pilam.Milestones.Store.Templates as TemplateRows
use pilam.Screens.{
  Answer, Form, posted_id, parsed_id, shown, server_error, redirect_saved, rejections, joined,
}
use pilam.Screens.Pages.{Screen, reading, form_page, refused_by}
use pilam.Screens.Drops.{DropGroup, by_season}
pub mod Choices
pub mod Laws

-- `SelectOption`
pub record SelectOption : Type 0 where
  pub value : Text
  pub label : Text

abbrev pub option_of : UuidForm → Template → SelectOption
option_of ids t = record { value = ids.text t.id; label = t.name }

-- `templateChoices`: the active templates, with the default one first.
unfoldable pub add_choices : UuidForm → List SelectOption → List Template → List SelectOption
add_choices ids choices [] = choices
add_choices ids choices (t ∷ templates) =
    add_choices ids
      (if not t.active
        then choices
        else if t.default
        then option_of ids t ∷ choices
        else choices ++ option_of ids t ∷ [])
      templates

abbrev pub template_choices : UuidForm → List Template → List SelectOption
template_choices ids templates = add_choices ids [] templates

-- `offersTemplate`
unfoldable pub offers_template : UuidForm → List SelectOption → Uuid → Bool
offers_template ids choices id =
    id == nil_id || any (λ (c : SelectOption). c.value == ids.text id) choices

-- `offerDrops`: the active seasons, and the active drops of the chosen one, or of them all.
pub record Offer : Type 0 where
  pub seasons : List Season
  pub drops : List DropGroup

unfoldable pub offered : Uuid → List DropGroup → Offer
offered chosen groups =
    let active = keep_if (λ (g : DropGroup). g.season.active) groups in
    let open_drops =
      λ (g : DropGroup). record g { drops = keep_if (λ (d : Drop). d.active) g.drops } in
    record {
      seasons = map (λ (g : DropGroup). g.season) active;
      drops =
          map open_drops
            (keep_if (λ (g : DropGroup). chosen == nil_id || g.season.id == chosen) active);
    }

unfoldable pub offer_drops : UuidForm → Form → Env → Action Offer
unfolding by_season offered
offer_drops ids form env = do
  groups ← by_season env
  pure (offered (parsed_id ids (form.value "season_id")) groups)

-- `startCalendar`, with an answer where the calendar cannot be written. A template that is gone
-- leaves the model without one.
abbrev pub has_rejections : Option FieldErrors → Bool
has_rejections none = false
has_rejections (some errs) = true

unfoldable pub started : Result (List Milestone) × World → Option Answer × World
started (ok written, w) = (none, w)
started (err e, w) =
    (if has_rejections (rejections (some e ∷ [])) then none else some server_error, w)

unfoldable pub start_calendar : Env → Uuid → Uuid → World → Option Answer × World
unfolding started
start_calendar env model_id template_id w =
    if template_id == nil_id then (none, w) else started (apply_template env model_id template_id w)

abbrev pub model_path : UuidForm → Model → Text
model_path ids m = codes "/models/" ++ ids.text m.id

abbrev pub told_model : Error → Error
told_model no_drop = fail "drop_id" not_allowed
told_model e = e

module _ (ids : UuidForm) (env : Env) (form : Form) where
  -- A form that is refused offers the drops again.
  abbrev pub refuse_model : List (Option Error) → Screen
  refuse_model errs =
      refused_by (rejections errs)
        (λ found. reading (offer_drops ids form env) (λ offer. form_page 422 found))

  -- What comes after the calendar of a new model.
  abbrev pub go_on : Model → Option Answer × World → Answer × World
  go_on m (none, w) = (redirect_saved (model_path ids m), w)
  go_on m (some answer, w) = (answer, w)

  unfoldable pub after_model : Uuid → List (Option Error) → Result Model × World → Answer × World
  unfolding start_calendar
  after_model template_id boxes (ok m, w) = go_on m (start_calendar env m.id template_id w)
  after_model template_id boxes (err e, w) = refuse_model (boxes ++ some (told_model e) ∷ []) w

  -- The box of the template, where what is not offered is refused.
  unfoldable pub template_box : List SelectOption → Uuid × Option Error → Option Error
  unfolding offers_template
  template_box choices (id, some e) = some e
  template_box choices (id, none) =
      if offers_template ids choices id then none else some (fail "template" not_allowed)

  unfoldable pub create_with : List SelectOption → Screen
  unfolding after_model template_box
  create_with choices w =
      let (drop_id, bad_drop) = posted_id ids form "drop_id" in
      let template = posted_id ids form "template" in
      let bad_template = template_box choices template in
      let boxes = bad_drop ∷ bad_template ∷ [] in
      elim (joined bad_drop bad_template) [
        | some e ↦ refuse_model (boxes ++ some e ∷ []) w
        | none ↦ after_model template.0 boxes (create_model env drop_id (form.value "article") w)
      ]

  -- `Create`
  unfoldable pub create : Screen
  unfolding create_with
  create =
      reading (TemplateRows.list env) (λ templates. create_with (template_choices ids templates))
