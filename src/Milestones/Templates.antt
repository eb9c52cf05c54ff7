-- ===== src/Milestones/Templates.antt =====
-- internal/milestones/templates.go: the templates that a calendar is built from.
use pilam.Prelude.{
  ℕ, String, Bool, true, false, not, ◌||◌, Option, none, some, List, [], ◌∷◌, ◌++◌, ◌==◌, ◌!=◌,
  List_eq, ℕ_eq, Bool_eq, if◌then◌else◌,
}
use pilam.Prelude.Text.{Text, trim_space, format_bool}
use pilam.Errors.{Error, not_allowed}
use pilam.Ids.{Uuid}
use pilam.Schema.{Change, Template}
use pilam.Validate.{ready, merge, check, err_of}
use pilam.World.{Env, Action, ◌>>=◌, ◌>>◌, pure, raise_some, new_id, in_tx}
use pilam.Trail.{record_trail, activation}
use pilam.Milestones.Naming.{check_naming, changed, moved_text}
use pilam.Milestones.Store.Templates as Rows
pub mod Laws

pub record TemplateUpdateParams : Type 0 where
  pub name : Text
  pub description : Text
  pub default : Bool
  pub active : Bool

-- The default flag of the other templates goes before a default is written.
unfoldable pub make_room : Template → Action (Unit {0})
make_room row = if row.default then Rows.clear_default row.id else pure tt

-- `CreateTemplate`
unfoldable pub create_template : Env → Text → Text → Bool → Action Template
unfolding make_room
create_template env name description default = do
  raise_some (check_naming (trim_space name) (trim_space description))
  id ← new_id env
  let row : Template = record {
    id = id;
    name = trim_space name;
    description = trim_space description;
    default = default;
    active = true;
  }
  in_tx (do
    make_room row
    Rows.create row
    record_trail env (changed "milestone_template" id "created" "" [] row.name ∷ [])
    pure row)

abbrev note_template : Uuid → String → String → Text → Text → Change
note_template id = changed "milestone_template" id

abbrev moved_flag :
    (String → String → Text → Text → Change) → String → String → Bool → Bool → List Change
moved_flag note action field old new =
    if new != old then note action field (format_bool old) (format_bool new) ∷ [] else []

-- The entries of an update, in the order of its fields.
unfoldable template_changes : Template → TemplateUpdateParams → List Change
template_changes row p =
    moved_text (note_template row.id) "name" row.name (trim_space p.name)
    ++ (moved_text (note_template row.id) "description" row.description (trim_space p.description)
        ++ (moved_flag (note_template row.id) "changed" "default" row.default p.default
            ++ moved_flag (note_template row.id) (activation p.active) "active" row.active
                p.active))

abbrev pub edited_template : Template → TemplateUpdateParams → Template
edited_template row p = record row {
  name = trim_space p.name;
  description = trim_space p.description;
  default = p.default;
  active = p.active;
}

unfoldable pub write_template : Env → Template → List Change → Action (Unit {0})
unfolding make_room
write_template env row [] = pure tt
write_template env row (c ∷ changes) =
    in_tx (do make_room row; Rows.update row; record_trail env (c ∷ changes))

-- The rejections of an update: an inactive template cannot be the default.
unfoldable pub check_template : TemplateUpdateParams → Option Error
check_template p =
    err_of
      (check (merge ready (check_naming (trim_space p.name) (trim_space p.description)))
        (not p.default || p.active) "default" not_allowed).0.errs

-- `UpdateTemplate`
unfoldable pub update_template : Env → Uuid → TemplateUpdateParams → Action (Unit {0})
unfolding template_changes write_template check_template
update_template env id p = do
  raise_some (check_template p)
  row ← Rows.by_id id
  write_template env (edited_template row p) (template_changes row p)
