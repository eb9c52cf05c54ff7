-- ===== src/Screens/Users.antt =====
-- internal/http/users/users.go: the screens of the users.
use pilam.Prelude.{
  Bool, true, false, Option, none, some, [], ◌++◌, ◌==◌, List_eq, ℕ_eq, if◌then◌else◌,
}
use pilam.Prelude.Text.{Text, codes}
use pilam.Errors.{
  Error, FieldErrors, Result, ok, err, rejected, no_user, email_taken, self_lockout, taken,
}
use pilam.Ids.{Uuid}
use pilam.Schema.{Role, member, root, other, User}
use pilam.Validate.{fail}
use pilam.World.{Env, World}
use pilam.Accounts.{Passwords}
use pilam.Accounts.Principals.{UuidForm, parse_id}
use pilam.Accounts.Logins.{reset_password}
use pilam.Accounts.Edits.{NewUser, UpdateParams, update, invite}
use pilam.Accounts.Directory.{Account, account, list_accounts}
use pilam.Screens.{Answer, Form, posted_flag, shown, redirect_saved, not_found, server_error}
use pilam.Screens.Pages.{Screen, load_one, reading, with_trail, refused_by, form_page}
pub mod Laws

-- An answer with the password that the page shows once, if it shows one.
pub record Handed : Type 0 where
  pub answer : Answer
  pub passwd : Option Text

abbrev pub plainly : Answer × World → Handed × World
plainly (a, w) = (record { answer = a; passwd = none }, w)

-- `showPasswdOnce`
abbrev pub show_passwd_once : Text → World → Handed × World
show_passwd_once plain w = (record { answer = shown 200 []; passwd = some plain }, w)

-- `validate.From`
abbrev pub from : Error → Option FieldErrors
from (rejected errs) = some errs
from _ = none

abbrev is_no_user : Error → Bool
is_no_user no_user = true
is_no_user _ = false

-- `auth.Role` of what the form holds.
unfoldable role_of : Text → Role
role_of t = if t == codes "member" then member else if t == codes "root" then root else other

abbrev told_email : Error → Error
told_email email_taken = fail "email" taken
told_email e = e

module _ (ids : UuidForm) (env : Env) where
  -- `loadOne`
  unfoldable pub load_user : Text → (Account → Screen) → Screen
  unfolding load_one
  load_user raw page = load_one ids is_no_user account raw page

  -- `ShowList`, and `Show`.
  unfoldable show_users : Text → Screen
  show_users query = reading (list_accounts env query) (λ accounts. form_page 200 [])

  unfoldable show_user : Text → Screen
  unfolding load_user
  show_user raw = load_user raw (λ (a : Account). with_trail env "user" a.id 200 [])

  -- The end of `Save`: a lock-out of oneself is told by an alert.
  abbrev after_save : Account → Result (Unit {0}) × World → Answer × World
  after_save a (ok u, w) = (redirect_saved (codes "/users/" ++ ids.text a.id), w)
  after_save a (err self_lockout, w) = with_trail env "user" a.id 422 [] w
  after_save a (err e, w) = refused_by (from e) (with_trail env "user" a.id 422) w

  abbrev submitted : Form → UpdateParams
  submitted form = record {
    first_name = form.value "first_name";
    last_name = form.value "last_name";
    role = role_of (form.value "role");
    active = posted_flag form "active";
  }

  -- `Save`
  unfoldable save_user : Form → Account → Screen
  unfolding redirect_saved role_of
  save_user form a w = after_save a (update env a.id (submitted form) w)

  unfoldable pub save_user_form : Text → Form → Screen
  unfolding load_user save_user
  save_user_form raw form = load_user raw (save_user form)

  module _ (p : Passwords) where
    -- `Create`
    abbrev after_invite : Result (User × Text) × World → Handed × World
    after_invite (ok (u, plain), w) = show_passwd_once plain w
    after_invite (err e, w) = plainly (refused_by (from (told_email e)) (form_page 422) w)

    unfoldable pub create_user : Form → World → Handed × World
    unfolding invite role_of
    create_user form w = after_invite (
        invite p env
          (record {
            email = form.value "email";
            first_name = form.value "first_name";
            last_name = form.value "last_name";
            role = role_of (form.value "role");
            passwd = [];
            passwd_expired = false;
          })
          w)

    -- `ResetPasswd`
    abbrev after_reset : Result Text × World → Handed × World
    after_reset (ok plain, w) = show_passwd_once plain w
    after_reset (err e, w) = plainly (server_error, w)

    abbrev reset_of : Result Account × World → Handed × World
    reset_of (ok a, w) = after_reset (reset_password p env a.id w)
    reset_of (err e, w) = plainly (if is_no_user e then not_found else server_error, w)

    unfoldable pub reset_passwd : Text → World → Handed × World
    reset_passwd raw w = elim (parse_id ids raw) [
      | none ↦ plainly (not_found, w)
      | some id ↦ reset_of (account id w)
    ]
