-- ===== src/Schema.antt =====
-- The rows of the program, and the database that holds them (db/migrations). A row has the fields of
-- the Go struct that the adapters of internal/postgres turn it into.
mod Accounts
mod Catalog
mod Calendar
mod Trail
pub use Accounts.*
pub use Catalog.*
pub use Calendar.*
pub use Trail.*
use pilam.Prelude.{List}

pub record Tables : Type 0 where
  pub users : List User
  pub seasons : List Season
  pub drops : List Drop
  pub models : List Model
  pub photos : List Photo
  pub types : List MilestoneType
  pub templates : List Template
  pub items : List TemplateItem
  pub milestones : List Milestone
  pub trail : List Entry
