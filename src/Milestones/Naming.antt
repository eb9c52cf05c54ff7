-- ===== src/Milestones/Naming.antt =====
-- internal/milestones/milestones.go: the fields and bounds that a type and a template share, and the
-- facts of the trail.
use pilam.Prelude.{ℕ, String, Option, List, [], ◌∷◌, ◌!=◌, List_eq, ℕ_eq, if◌then◌else◌}
use pilam.Prelude.Text.{Text}
use pilam.Errors.{Error}
use pilam.Ids.{Uuid}
use pilam.Schema.{Change}
use pilam.Validate.{Validator, ready, require, max_len, err_of}

abbrev max_name_len : ℕ
max_name_len = 30

abbrev max_description_len : ℕ
max_description_len = 200

-- One field: filled in, and then within its length.
unfoldable check_text : Validator → String → Text → ℕ → Validator
check_text v name value limit =
    let (v', filled) = require v name value in
    if filled then (max_len v' name value limit).0 else v'

-- `checkNaming`
unfoldable pub check_naming : Text → Text → Option Error
unfolding check_text
check_naming name description =
    err_of
      (check_text (check_text ready "name" name max_name_len) "description" description
        max_description_len).errs

abbrev pub changed : String → Uuid → String → String → Text → Text → Change
changed entity id action field old new = record {
  entity = entity;
  entity_id = id;
  action = action;
  field_key = field;
  old = old;
  new = new;
}

-- One entry for a field that moved, and none for one that stays.
abbrev pub moved_text :
    (String → String → Text → Text → Change) → String → Text → Text → List Change
moved_text note field old new = if new != old then note "changed" field old new ∷ [] else []
