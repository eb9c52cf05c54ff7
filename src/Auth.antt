-- ===== src/Auth.antt =====
-- internal/auth: who the user is.
pub mod Throttle
