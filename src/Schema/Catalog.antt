-- ===== src/Schema/Catalog.antt =====
-- internal/catalog: seasons, drops, models and the photos of a model.
use pilam.Prelude.{ℕ, Bool}
use pilam.Prelude.Text.{Text}
use pilam.Date.Gregorian.{Time}
use pilam.Ids.{Uuid}

pub record Season : Type 0 where
  pub id : Uuid
  pub name : Text
  pub start_date : Time
  pub active : Bool

pub record Drop : Type 0 where
  pub id : Uuid
  pub season_id : Uuid
  pub name : Text
  pub target_date : Time
  pub active : Bool

pub record Model : Type 0 where
  pub id : Uuid
  pub drop_id : Uuid
  pub article : Text
  pub active : Bool

pub record Photo : Type 0 where
  pub id : Uuid
  pub model_id : Uuid
  pub media_key : Text
  pub position : ℕ
