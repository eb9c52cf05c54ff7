-- ===== src/Milestones.antt =====
-- internal/milestones: the time and action calendar. `Rules` holds its pure rules, and
-- `Types`, `Templates`, `Items` and `Calendar` the operations of the service.
pub mod Naming
pub mod Calendar
pub mod Listed
pub mod Types
pub mod Templates
pub mod Items
pub mod Rules
pub mod Store
