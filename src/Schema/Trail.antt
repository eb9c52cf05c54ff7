-- ===== src/Schema/Trail.antt =====
-- internal/audit/audit.go: the facts that a domain states, and the rows of the trail.
use pilam.Prelude.{String}
use pilam.Prelude.Text.{Text}
use pilam.Date.Gregorian.{Time}
use pilam.Ids.{Uuid}

pub record Change : Type 0 where
  pub entity : String
  pub entity_id : Uuid
  pub action : String
  pub field_key : String
  pub old : Text
  pub new : Text

pub record Entry : Type 0 where
  pub id : Uuid
  pub at : Time
  pub actor_id : Uuid
  pub entity : String
  pub entity_id : Uuid
  pub action : String
  pub field_key : String
  pub old : Text
  pub new : Text
  pub request_id : Text
