-- ===== src/Milestones/Store.antt =====
-- internal/postgres/milestone*.go over db/queries/milestone.sql: the rows of the calendar in the
-- database, with the constraints of its tables. An update writes the columns that its query sets.
pub mod Names
pub mod Types
pub mod Templates
pub mod Items
pub mod Calendar
pub mod Lists
