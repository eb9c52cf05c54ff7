-- ===== src/Screens/Templates.antt =====
-- internal/http/milestones: the screens of the milestone types and of the templates with their items.
use pilam.Prelude.{
  ℕ, ◌<◌, ltb, Bool, true, false, not, ◌&&◌, ◌||◌, ◌!=◌, ◌==◌, ℕ_eq, ℤ-Eq, List_eq, Option, none,
  some, List, [], ◌∷◌, ◌++◌, if◌then◌else◌, keep_if, map, any, get_elem?, ℤ, pos, String,
}
use pilam.Prelude.Text.{Text, codes}
use pilam.Errors.{
  Error, FieldErrors, Result, ok, err, no_type, no_template, no_item, name_taken, type_in_template,
  item_order, taken,
}
use pilam.Date.{parse}
use pilam.Ids.{Uuid}
use pilam.Schema.{MilestoneType, Template, TemplateItem}
use pilam.Validate.{fail}
use pilam.World.{Env, World, Action, ◌>>=◌, pure, raise}
use pilam.Accounts.Principals.{UuidForm, parse_id}
use pilam.Milestones.Rules.{gaps}
use pilam.Milestones.Types.{create_type, update_type}
use pilam.Milestones.Templates.{create_template, update_template}
use pilam.Milestones.Items.{find_from, add_item, set_offset, set_gap, remove_item, reorder_items}
use pilam.Milestones.Store.Types as TypeRows
use pilam.Milestones.Store.Templates as TemplateRows
use pilam.Milestones.Store.Items as ItemRows
use pilam.Screens.{
  Answer, Form, posted_id, posted_number, posted_order, posted_flag, shown, redirect_saved,
  not_found, server_error, rejections, joined,
}
use pilam.Screens.Trails.{Event, load_trail}
use pilam.Screens.Models.{SelectOption}
use pilam.Screens.Pages.{Screen, load_one, reading, with_trail, form_page, answered, refused_by}
pub mod Laws

-- A taken name is told at its box.
abbrev told_name : Error → Error
told_name name_taken = fail "name" taken
told_name e = e

abbrev is_no_type : Error → Bool
is_no_type no_type = true
is_no_type _ = false

abbrev is_no_template : Error → Bool
is_no_template no_template = true
is_no_template _ = false

abbrev type_path : UuidForm → Uuid → Text
type_path ids id = codes "/milestones/types/" ++ ids.text id

-- `ShowSection`
unfoldable show_section : Env → Screen
show_section env =
    reading (TemplateRows.list env)
      (λ templates. reading (TypeRows.list env) (λ types. form_page 200 []))

module _ (ids : UuidForm) (env : Env) where
  -- `CreateType`
  unfoldable create_type_form : Form → Screen
  unfolding answered redirect_saved
  create_type_form form w =
      answered (λ (t : MilestoneType). redirect_saved (type_path ids t.id)) told_name []
        (form_page 422) (create_type env (form.value "name") (form.value "description") w)

  -- `ShowType`, and `SaveType`.
  unfoldable show_type : Text → Screen
  unfolding load_one
  show_type raw =
      load_one ids is_no_type TypeRows.by_id raw
        (λ (t : MilestoneType). with_trail env "milestone_type" t.id 200 [])

  unfoldable save_type : Form → MilestoneType → Screen
  unfolding answered redirect_saved
  save_type form t w =
      answered (λ u. redirect_saved (type_path ids t.id)) told_name []
        (with_trail env "milestone_type" t.id 422)
        (update_type env t.id
          (record {
            name = form.value "name";
            description = form.value "description";
            active = posted_flag form "active";
          })
          w)

  unfoldable save_type_form : Text → Form → Screen
  unfolding load_one save_type
  save_type_form raw form = load_one ids is_no_type TypeRows.by_id raw (save_type form)

-- `postedTarget` and `previewTarget`, of what the form or the query holds.
unfoldable readable_day : Text → Text
readable_day raw = elim (parse raw) [ some d ↦ raw | none ↦ [] ]

-- `redirectToTemplate`. The escape of a readable day is the day.
abbrev target_query : Text → Text
target_query target = if target == [] then [] else codes "?target=" ++ target

unfoldable back_to : UuidForm → Uuid → Text → Answer
unfolding redirect_saved
back_to ids id target =
    redirect_saved (codes "/milestones/templates/" ++ (ids.text id ++ target_query target))

-- `typeChoices`: the active types that the template does not hold.
unfoldable template_types : UuidForm → List MilestoneType → List TemplateItem → List SelectOption
template_types ids types held =
    map (λ (t : MilestoneType). record { value = ids.text t.id; label = t.name })
      (keep_if
        (λ (t : MilestoneType).
          not (not t.active || any (λ (i : TemplateItem). i.type_id == t.id) held))
        types)

-- `submittedMove`: a number of each box, where it holds one.
pub record SubmittedMove : Type 0 where
  pub offset : ℤ
  pub has_offset : Bool
  pub gap : ℤ
  pub has_gap : Bool

-- Whether a posted gap differs from the one of an item that has an item above it.
abbrev moves_gap : SubmittedMove → List TemplateItem → ℕ → Bool
moves_gap p items at =
    p.has_gap
    && ltb 0 at
    && (elim (get_elem? (gaps items) at) [ none ↦ true | some g ↦ p.gap != g ])

-- `moveItem`: the box that differs from what the screen showed is the edit, and the offset wins.
unfoldable pub move_of : Env → Uuid → Uuid → SubmittedMove → List TemplateItem → Action (Unit {0})
unfolding find_from
move_of env template_id item_id p items = elim (find_from 0 item_id items) [
  | none ↦ raise no_item
  | some (at, item) ↦
      if p.has_offset && (p.offset != item.offset)
      then set_offset env template_id item_id p.offset
      else if moves_gap p items at
      then set_gap env template_id item_id p.gap
      else pure tt
]

unfoldable pub move_row : Env → Uuid → Uuid → SubmittedMove → Action (Unit {0})
unfolding move_of
move_row env template_id item_id p = do
  items ← ItemRows.list template_id
  move_of env template_id item_id p items

module _ (ids : UuidForm) (env : Env) (form : Form) where
  abbrev target : Text
  target = readable_day (form.value "target")

  -- `fillEditor`, and `refuse`.
  unfoldable editor : ℕ → FieldErrors → Template → Screen
  unfolding template_types
  editor status errs t = reading (ItemRows.list t.id) (λ items.
      reading (TypeRows.list env) (λ types. with_trail env "milestone_template" t.id status errs))

  abbrev edit_again : Template → FieldErrors → Screen
  edit_again t errs = editor 422 errs t

  -- `loadTemplate`, and `itemOf`.
  abbrev load_template : Text → (Template → Screen) → Screen
  load_template raw page = load_one ids is_no_template TemplateRows.by_id raw page

  abbrev with_item : Text → (Uuid → Screen) → Screen
  with_item raw_id page w = elim (parse_id ids raw_id) [
    | none ↦ (not_found, w)
    | some id ↦ page id w
  ]

  -- `ShowTemplate`
  unfoldable show_template : Text → Screen
  unfolding load_one editor
  show_template raw = load_template raw (editor 200 [])

  -- `CreateTemplate`
  unfoldable create_template_form : Screen
  unfolding answered back_to
  create_template_form w =
      answered (λ (t : Template). back_to ids t.id []) told_name [] (form_page 422)
        (create_template env (form.value "name") (form.value "description")
          (posted_flag form "default") w)

  -- `SaveTemplate`
  unfoldable save_template : Template → Screen
  unfolding answered back_to editor
  save_template t w =
      answered (λ u. back_to ids t.id target) told_name [] (edit_again t)
        (update_template env t.id
          (record {
            name = form.value "name";
            description = form.value "description";
            default = posted_flag form "default";
            active = posted_flag form "active";
          })
          w)

  unfoldable save_template_form : Text → Screen
  unfolding load_one save_template
  save_template_form raw = load_template raw save_template

  -- `AddItem`
  abbrev told_item : Error → Error
  told_item type_in_template = fail "type" taken
  told_item e = e

  unfoldable add_to_template : Template → Screen
  unfolding answered back_to editor
  add_to_template t w =
      let (type_id, bad_type) = posted_id ids form "type" in
      let (offset, held, bad_offset) = posted_number form "offset" in
      let boxes = bad_type ∷ bad_offset ∷ [] in
      elim (joined bad_type bad_offset) [
        | some e ↦ refused_by (rejections (boxes ++ some e ∷ [])) (edit_again t) w
        | none ↦
            answered (λ i. back_to ids t.id target) told_item boxes (edit_again t)
              (add_item env t.id type_id offset w)
      ]

  unfoldable add_item_form : Text → Screen
  unfolding load_one add_to_template
  add_item_form raw = load_template raw add_to_template

  -- The end of `SaveItem`: an item that is not there is a 404.
  abbrev after_row : Template → Result (Unit {0}) × World → Answer × World
  after_row t (ok u, w) = (back_to ids t.id target, w)
  after_row t (err no_item, w) = (not_found, w)
  after_row t (err e, w) = refused_by (rejections (some e ∷ [])) (edit_again t) w

  unfoldable save_item : Template → Uuid → Screen
  unfolding move_row back_to editor
  save_item t id w =
      let (offset, has_offset, bad_offset) = posted_number form "offset" in
      let (gap, has_gap, bad_gap) = posted_number form "gap" in
      elim (joined bad_offset bad_gap) [
        | some e ↦ refused_by (rejections (some e ∷ [])) (edit_again t) w
        | none ↦ after_row t (
            move_row env t.id id
              (record { offset = offset; has_offset = has_offset; gap = gap; has_gap = has_gap }) w)
      ]

  unfoldable save_item_form : Text → Text → Screen
  unfolding load_one save_item
  save_item_form raw raw_id = load_template raw (λ t. with_item raw_id (save_item t))

  -- `RemoveItem`
  abbrev after_remove : Template → Result (Unit {0}) × World → Answer × World
  after_remove t (ok u, w) = (back_to ids t.id target, w)
  after_remove t (err no_item, w) = (not_found, w)
  after_remove t (err e, w) = (server_error, w)

  unfoldable remove_item_form : Text → Text → Screen
  unfolding load_one back_to
  remove_item_form raw raw_id =
      load_template raw (λ t. with_item raw_id (λ id w. after_remove t (remove_item env t.id id w)))

  -- `ReorderItems`: an order that cannot be read or names other items brings the editor back.
  abbrev after_order : Template → Result (Unit {0}) × World → Answer × World
  after_order t (ok u, w) = (back_to ids t.id target, w)
  after_order t (err item_order, w) = editor 422 [] t w
  after_order t (err e, w) = (server_error, w)

  abbrev reorder_as : Template → Option (List Uuid) → Screen
  reorder_as t none w = editor 422 [] t w
  reorder_as t (some ordered) w = after_order t (reorder_items env t.id ordered w)

  unfoldable reorder_items_form : Text → Screen
  unfolding load_one back_to editor
  reorder_items_form raw =
      load_template raw (λ t. reorder_as t (posted_order ids form "item_order"))
