-- ===== src/Accounts.antt =====
-- internal/auth/auth.go with internal/postgres/users.go: the accounts, their logins and their edits.
use pilam.Prelude.{
  ℕ, ◌+◌, String, Bool, true, false, not, ◌&&◌, ◌||◌, Option, none, some, List, [], ◌∷◌, ◌++◌, ◌==◌,
  ◌!=◌, List_eq, ℕ_eq, Bool_eq, if◌then◌else◌, ℤ, pos, ◌+ℤ◌, ℤ-Eq, any, all, map, find_first,
  keep_if,
}
use pilam.Prelude.Int.{int32}
use pilam.Prelude.Text.{Text, trim_space, to_lower, contains, fields, format_bool, codes}
use pilam.Errors.{
  Error, no_user, email_taken, user_id_taken, self_lockout, not_resolved, rejected, required,
  not_allowed, incorrect, constraint_failed, Result, ok, err,
}
use pilam.Date.Gregorian.{Time}
use pilam.Ids.{Uuid, nil_id}
use pilam.Schema.{Role, member, root, other, Identity, User, Change}
use pilam.Validate.{Validator, ready, require, check, merge, min_len, max_len, err_of, fail}
use pilam.World.{
  Env, World, Action, ◌>>=◌, ◌>>◌, pure, raise, raise_if, raise_some, or_raise, reads, lift, new_id,
  in_tx,
}
use pilam.Trail.{record_changes, from_context}
use pilam.Auth.Throttle
pub mod Logins
pub mod Edits
pub mod Laws
pub mod Liveness
pub mod Sessions
pub mod Rows
pub mod Lockout
pub mod Principals
pub mod Directory

-- internal/platform/password, whose hashes rest on argon2: a hash is made from the plain text and
-- a draw of randomness, and a check of one answers whether it holds and whether it wants a rehash.
pub record Passwords : Type 0 where
  pub hash : ℕ → Text → Text
  pub verify : Text → Text → Result (Bool × Bool)
  pub generate : ℕ → Text
  pub dummy : Text

-- `Role.Valid` and `Role.Allows`
unfoldable pub is_valid_role : Role → Bool
is_valid_role member = true
is_valid_role root = true
is_valid_role other = false

abbrev pub role_eq : Role → Role → Bool
role_eq member member = true
role_eq root root = true
role_eq other other = true
role_eq _ _ = false

unfoldable pub allows : Role → Role → Bool
allows r asked = role_eq r root || role_eq r asked

abbrev pub role_text : Role → Text
role_text member = codes "member"
role_text root = codes "root"
role_text other = []

-- `User.Identity`, `Principal` and `User.Principal`.
unfoldable pub identity_of : User → Identity
identity_of u = record {
  user_id = u.id;
  email = u.email;
  first_name = u.first_name;
  last_name = u.last_name;
  role = u.role;
  passwd_expired = u.passwd_expired;
}

pub record Principal : Type 0 where
  pub user_id : Uuid
  pub epoch : ℤ

abbrev pub principal_of : User → Principal
principal_of u = record { user_id = u.id; epoch = u.session_epoch }

-- `NormalizeEmail`
unfoldable pub normalize_email : Text → Text
normalize_email email = to_lower (trim_space email)

-- `Users.ByID` and `Users.ByEmail`, over the queries of db/queries/users.sql.
unfoldable pub by_id : Uuid → Action User
by_id id = do row ← reads (λ t. find_first (λ (u : User). u.id == id) t.users); or_raise no_user row

unfoldable pub by_email : Text → Action User
by_email email = do
  row ← reads (λ t. find_first (λ (u : User). to_lower u.email == to_lower email) t.users)
  or_raise no_user row

-- The unique index on lower(email), seen from the row that is written.
abbrev pub same_email : User → User → Bool
same_email row u = (u.id != row.id) && (to_lower u.email == to_lower row.email)

-- The parameters of an insert and of an update: the column of the epoch has 32 bits.
abbrev pub as_stored : User → User
as_stored u = record u { session_epoch = int32 u.session_epoch }

unfoldable pub create_row : User → Action (Unit {0})
unfolding int32
create_row row w =
    if not (is_valid_role row.role)
    then (err constraint_failed, w)
    else if any (λ (u : User). u.id == row.id) w.tables.users
    then (err user_id_taken, w)
    else if any (same_email row) w.tables.users
    then (err email_taken, w)
    else (
      ok tt,
      record w { tables = record w.tables { users = w.tables.users ++ as_stored row ∷ [] } },
    )

unfoldable pub update_row : User → Action (Unit {0})
unfolding int32
update_row row w =
    if not (any (λ (u : User). u.id == row.id) w.tables.users)
    then (err no_user, w)
    else if not (is_valid_role row.role)
    then (err constraint_failed, w)
    else if any (same_email row) w.tables.users
    then (err email_taken, w)
    else (
      ok tt,
      record w {
        tables = record w.tables {
          users = map (λ u. if u.id == row.id then as_stored row else u) w.tables.users;
        };
      },
    )

-- `userChange`
abbrev pub user_change : Uuid → String → String → Text → Text → Change
user_change id action field old new = record {
  entity = "user";
  entity_id = id;
  action = action;
  field_key = field;
  old = old;
  new = new;
}

-- `Service.actor`
unfoldable pub actor : Env → Uuid → Uuid
unfolding from_context
actor env fallback = elim (from_context env) [ none ↦ fallback | some identity ↦ identity.user_id ]

-- `Service.write`: the row and what changed, in one transaction.
unfoldable pub write : Env → User → List Change → Action (Unit {0})
write env row changes = in_tx (update_row row >> record_changes env (actor env row.id) changes)

-- The calls of the throttle.
abbrev pub throttle_reset : Text → Action (Unit {0})
throttle_reset key w = (ok tt, record w { failed = Throttle.reset key w.failed })

abbrev pub throttle_fail : Env → Text → Action (Unit {0})
throttle_fail env key w = (ok tt, record w { failed = Throttle.fail env.now key w.failed })

-- `Resolve`, of what `ParsePrincipal` reads from the subject. Every failure is `ErrNotResolved`.
unfoldable pub resolve_row : Principal → User → Result Identity
unfolding identity_of
resolve_row p u =
    if not u.active
    then err not_resolved
    else if u.session_epoch != p.epoch
    then err not_resolved
    else ok (identity_of u)

unfoldable pub resolve : Option Principal → Action Identity
resolve none w = (err not_resolved, w)
resolve (some p) w = elim (find_first (λ (u : User). u.id == p.user_id) w.tables.users) [
  | none ↦ (err not_resolved, w)
  | some u ↦ (resolve_row p u, w)
]
