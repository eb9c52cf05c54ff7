-- ===== src/Schema/Accounts.antt =====
-- internal/auth/auth.go: who the user is.
use pilam.Prelude.{ℤ, Bool}
use pilam.Prelude.Text.{Text}
use pilam.Ids.{Uuid}

-- `Role`, which may hold any text; `other` is a role that `Valid` refuses.
pub data Role : Type 0 where
  member root other : Role

pub record Identity : Type 0 where
  pub user_id : Uuid
  pub email : Text
  pub first_name : Text
  pub last_name : Text
  pub role : Role
  pub passwd_expired : Bool

pub record User : Type 0 where
  pub id : Uuid
  pub email : Text
  pub first_name : Text
  pub last_name : Text
  pub passwd_hash : Text
  pub role : Role
  pub active : Bool
  pub session_epoch : ℤ
  pub passwd_expired : Bool
