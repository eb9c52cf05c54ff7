-- ===== src/Catalog/Facts.antt =====
-- internal/catalog/catalog.go: the facts that a catalog write states, and the calendar day of a date.
use pilam.Prelude.{String, Bool, not, List, [], ◌∷◌, ◌!=◌, List_eq, ℕ_eq, Bool_eq, if◌then◌else◌}
use pilam.Prelude.Text.{Text, format_bool}
use pilam.Date.{equal, iso}
use pilam.Date.Gregorian.{Time}
use pilam.Ids.{Uuid}
use pilam.Schema.{Change}
use pilam.Trail.{activation}

-- `change`
abbrev pub change : String → Uuid → String → String → Text → Text → Change
change entity entity_id action field old next = record {
  entity = entity;
  entity_id = entity_id;
  action = action;
  field_key = field;
  old = old;
  new = next;
}

-- The three fields of an update: one entry for a field that moved, and none for one that stays.
abbrev pub moved_text :
    (String → String → Text → Text → Change) → String → Text → Text → List Change
moved_text note field old next = if next != old then note "changed" field old next ∷ [] else []

abbrev pub moved_day : (String → String → Text → Text → Change) → String → Time → Time → List Change
moved_day note field old next =
    if not (equal next old) then note "changed" field (iso old) (iso next) ∷ [] else []

abbrev pub moved_active : (String → String → Text → Text → Change) → Bool → Bool → List Change
moved_active note old next =
    if next != old
    then note (activation next) "active" (format_bool old) (format_bool next) ∷ []
    else []
