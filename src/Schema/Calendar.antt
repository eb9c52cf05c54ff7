-- ===== src/Schema/Calendar.antt =====
-- internal/milestones: milestone types, templates with their items, and the milestones of a model.
use pilam.Prelude.{ℕ, ℤ, Bool}
use pilam.Prelude.Text.{Text}
use pilam.Date.Gregorian.{Time}
use pilam.Ids.{Uuid}

-- `milestones.Type`
pub record MilestoneType : Type 0 where
  pub id : Uuid
  pub name : Text
  pub description : Text
  pub active : Bool

pub record Template : Type 0 where
  pub id : Uuid
  pub name : Text
  pub description : Text
  pub default : Bool
  pub active : Bool

pub record TemplateItem : Type 0 where
  pub id : Uuid
  pub template_id : Uuid
  pub type_id : Uuid
  pub offset : ℤ
  pub position : ℕ

-- The zero time is a fact date that is not there.
pub record Milestone : Type 0 where
  pub id : Uuid
  pub model_id : Uuid
  pub type_id : Uuid
  pub baseline : Time
  pub plan : Time
  pub fact : Time
  pub note : Text
  pub active : Bool
