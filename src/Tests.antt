-- ===== src/Tests.antt =====
-- Runs of the model at concrete inputs, and the theorems applied at them.
mod Dates
mod Rules
mod Validation
mod Throttle
mod Base
mod Accounts
mod Calendar
mod Templates
mod Catalog
mod Lists
mod Sessions
mod Passwords
mod Trails
mod Blobs
mod Screens
mod Handed
mod Steps
