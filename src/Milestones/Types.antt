-- ===== src/Milestones/Types.antt =====
-- internal/milestones/type.go: the milestone types.
use pilam.Prelude.{
  String, Bool, true, List, [], ◌∷◌, ◌++◌, ◌!=◌, List_eq, ℕ_eq, Bool_eq, if◌then◌else◌,
}
use pilam.Prelude.Text.{Text, trim_space, format_bool}
use pilam.Ids.{Uuid}
use pilam.Schema.{Change, MilestoneType}
use pilam.World.{Env, Action, ◌>>=◌, ◌>>◌, pure, raise_some, new_id, in_tx}
use pilam.Trail.{record_trail, activation}
use pilam.Milestones.Naming.{check_naming, changed, moved_text}
use pilam.Milestones.Store.Types as Rows

pub record TypeUpdateParams : Type 0 where
  pub name : Text
  pub description : Text
  pub active : Bool

-- `CreateType`
unfoldable pub create_type : Env → Text → Text → Action MilestoneType
create_type env name description = do
  raise_some (check_naming (trim_space name) (trim_space description))
  id ← new_id env
  let row : MilestoneType = record {
    id = id;
    name = trim_space name;
    description = trim_space description;
    active = true;
  }
  in_tx (do
    Rows.create row
    record_trail env (changed "milestone_type" id "created" "" [] row.name ∷ [])
    pure row)

abbrev note_type : Uuid → String → String → Text → Text → Change
note_type id = changed "milestone_type" id

-- The entries of an update, in the order of its fields.
unfoldable type_changes : MilestoneType → TypeUpdateParams → List Change
type_changes row p =
    moved_text (note_type row.id) "name" row.name (trim_space p.name)
    ++ (moved_text (note_type row.id) "description" row.description (trim_space p.description)
        ++ (if p.active != row.active
            then note_type row.id (activation p.active) "active" (format_bool row.active)
                (format_bool p.active)
              ∷ []
            else []))

abbrev edited_type : MilestoneType → TypeUpdateParams → MilestoneType
edited_type row p = record row {
  name = trim_space p.name;
  description = trim_space p.description;
  active = p.active;
}

-- A write of what moved, or nothing where nothing did.
unfoldable write_type : Env → MilestoneType → List Change → Action (Unit {0})
write_type env row [] = pure tt
write_type env row (c ∷ changes) = in_tx (Rows.update row >> record_trail env (c ∷ changes))

-- `UpdateType`
unfoldable pub update_type : Env → Uuid → TypeUpdateParams → Action (Unit {0})
unfolding type_changes write_type
update_type env id p = do
  raise_some (check_naming (trim_space p.name) (trim_space p.description))
  row ← Rows.by_id id
  write_type env (edited_type row p) (type_changes row p)
