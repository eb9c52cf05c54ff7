-- ===== src/Middleware.antt =====
-- internal/http/middleware with the chains of internal/http/router.go: who a request comes from, and
-- which handlers it reaches.
use pilam.Prelude.{
  Bool, true, false, not, ◌&&◌, ◌||◌, Option, none, some, List, [], ◌∷◌, if◌then◌else◌, ◌==◌,
  List_eq, ℕ_eq, ℤ,
}
use pilam.Prelude.Text.{Text}
use pilam.Errors.{Result, ok, err}
use pilam.Ids.{nil_id}
use pilam.Schema.{Identity, Role, root}
use pilam.Session.{verify}
use pilam.Accounts.{allows}
pub mod Laws
pub mod Cookies

-- A request as the links see it: its session cookie and its path, what its context carries, and
-- whether the answer takes the cookie away.
pub record Visit : Type 0 where
  pub cookie : Option Text
  pub path : Text
  pub subject : Option Text
  pub identity : Option Identity
  pub cleared : Bool

-- What becomes of a request: the handler of its route, a redirect or a 403.
pub data Reply : Type 0 where
  served : Visit → Reply
  sent_to : Text → Visit → Reply
  refused : Visit → Reply

abbrev pub Handler : Type 0
Handler = Visit → Reply

-- `Middleware` and `Chain`
abbrev pub Link : Type 0
Link = Handler → Handler

unfoldable pub chain : List Link → Link
chain [] next = next
chain (link ∷ links) next = link (chain links next)

-- `Session`, over the subject that `Verify` reads from a cookie. `ClearSession` is the flag.
unfoldable pub after_verify : Handler → Visit → Option Text → Reply
after_verify next v none = next (record v { cleared = true })
after_verify next v (some subject) = next (record v { subject = some subject })

unfoldable pub session : (Text → Option Text) → Link
unfolding after_verify
session verified next v = elim v.cookie [
  | none ↦ next v
  | some value ↦ after_verify next v (verified value)
]

-- `SubjectFromContext`
unfoldable pub subject_of : Visit → Option Text
subject_of v = elim v.subject [
  | none ↦ none
  | some subject ↦ if subject == [] then none else some subject
]

-- `Identity`
unfoldable pub after_resolve : Handler → Visit → Result Identity → Reply
after_resolve next v (ok identity) = next (record v { identity = some identity })
after_resolve next v (err e) = next (record v { cleared = true })

unfoldable pub identify : (Text → Result Identity) → Link
unfolding subject_of after_resolve
identify resolver next v = elim (subject_of v) [
  | none ↦ next v
  | some subject ↦ after_resolve next v (resolver subject)
]

-- `auth.FromContext`
unfoldable pub known : Visit → Option Identity
known v = elim v.identity [
  | none ↦ none
  | some identity ↦ if identity.user_id == nil_id then none else some identity
]

-- `RequireIdentity`
unfoldable pub require_identity : Text → Link
unfolding known
require_identity login next v = elim (known v) [ some identity ↦ next v | none ↦ sent_to login v ]

-- `RequirePasswordChange`
unfoldable pub require_password_change : Text → Link
unfolding known
require_password_change change next v = elim (known v) [
  | none ↦ next v
  | some identity ↦
      if not identity.passwd_expired || (v.path == change) then next v else sent_to change v
]

-- `RequireRole`
unfoldable pub require_role : Role → Link
unfolding known
require_role required next v = elim (known v) [
  | none ↦ refused v
  | some identity ↦ if allows identity.role required then next v else refused v
]

-- The links of `router.go` that know who a request comes from, its guards, and the paths that they
-- send a request to.
module _ (verified : Text → Option Text) (resolver : Text → Result Identity)
    (login change : Text) where
  unfoldable pub site : Link
  unfolding chain session identify
  site = chain (session verified ∷ identify resolver ∷ [])

  unfoldable pub guard : Link
  unfolding chain require_identity require_password_change
  guard = chain (require_identity login ∷ require_password_change change ∷ [])

  unfoldable pub root_guard : Link
  unfolding chain guard require_role
  root_guard = chain (guard ∷ require_role root ∷ [])
