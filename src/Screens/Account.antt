-- ===== src/Screens/Account.antt =====
-- internal/http/account: signing in and out, and the change of a password.
use pilam.Prelude.{
  ℕ, Bool, true, false, Option, none, some, List, [], ◌∷◌, if◌then◌else◌, ◌==◌, List_eq, ℕ_eq,
}
use pilam.Prelude.Text.{Text, trim_space, codes}
use pilam.Errors.{Error, Result, ok, err, mismatch, rejected}
use pilam.Schema.{Identity}
use pilam.Validate.{Validator, ready, require, check, err_of}
use pilam.World.{Env, World, Action}
use pilam.Session.{issue}
use pilam.Accounts.{Passwords, Principal}
use pilam.Accounts.Logins.{authenticate, change_password}
use pilam.Accounts.Principals.{UuidForm, principal_text}
use pilam.Screens.{Answer, Form, shown, redirect, send_to, server_error, set, dropped}
pub mod Renewal

-- internal/http/paths
abbrev pub login_path : Text
login_path = codes "/login"

abbrev pub success_path : Text
success_path = codes "/models"

-- `ShowLogin` and `ShowChangePassword`, of what `auth.FromContext` finds.
unfoldable show_login : Option Identity → Answer
show_login none = shown 200 []
show_login (some identity) = redirect success_path

unfoldable show_change_password : Bool → Option Identity → Answer
show_change_password htmx none = send_to htmx login_path
show_change_password htmx (some identity) = shown 200 []

-- `SubmitLogout`
abbrev submit_logout : Answer
submit_logout = record (redirect login_path) { cookie = dropped }

-- What a refusal of a form answers with: the form and its rejections, or a failure.
unfoldable pub refuse : ℕ → Error → Answer
refuse status (rejected errs) = shown status errs
refuse status e = server_error

-- What a posted login and a posted change of password hold, before the service sees them.
unfoldable check_login : Text → Text → Option Error
check_login email passwd = err_of (require (require ready "email" email).0 "password" passwd).0.errs

abbrev match_repeat : Text → Text → Validator × Bool → Validator
match_repeat next repeat (v, false) = v
match_repeat next repeat (v, true) = (check v (next == repeat) "repeat_passwd" mismatch).0

unfoldable pub check_change : Text → Text → Text → Option Error
check_change current next repeat =
    let v = (require (require ready "current_passwd" current).0 "new_passwd" next).0 in
    err_of (match_repeat next repeat (require v "repeat_passwd" repeat)).errs

-- The session manager signs with `sign`, and a session lives for `ttl`.
module _ (sign : Text → List ℕ) (ttl : ℕ) (ids : UuidForm) (p : Passwords) (env : Env) where
  -- `SetSession`, with the redirect after it.
  abbrev pub welcome : Principal → Answer
  welcome principal = record (redirect success_path) {
    cookie = set (issue sign ttl env.now.instant (principal_text ids principal));
  }

  unfoldable pub after_login : Result (Identity × Principal) × World → Answer × World
  after_login (ok (identity, principal), w) = (welcome principal, w)
  after_login (err e, w) = (refuse 401 e, w)

  -- `SubmitLogin`
  unfoldable pub submit_login : Form → World → Answer × World
  unfolding check_login refuse after_login
  submit_login form w =
      let email = trim_space (form.value "email") in
      let passwd = form.value "password" in
      elim (check_login email passwd) [
        | some e ↦ (refuse 401 e, w)
        | none ↦ after_login (authenticate p env email passwd w)
      ]

  unfoldable pub after_change : Result Principal × World → Answer × World
  after_change (ok principal, w) = (welcome principal, w)
  after_change (err e, w) = (refuse 422 e, w)

  unfoldable pub change_as : Identity → Text → Text → Text → World → Answer × World
  unfolding check_change refuse after_change
  change_as identity current next repeat w = elim (check_change current next repeat) [
    | some e ↦ (refuse 422 e, w)
    | none ↦ after_change (change_password p env identity.user_id current next w)
  ]

  -- `SubmitChangePassword`
  unfoldable pub submit_change : Bool → Option Identity → Form → World → Answer × World
  unfolding change_as
  submit_change htmx none form w = (send_to htmx login_path, w)
  submit_change htmx (some identity) form w =
      change_as identity (form.value "current_passwd") (form.value "new_passwd")
        (form.value "repeat_passwd") w
