-- ===== src/Accounts/Edits.antt =====
-- internal/auth/auth.go: the users section.
use pilam.Prelude.{
  String, Bool, true, false, not, ◌&&◌, ◌||◌, Option, none, some, List, [], ◌∷◌, ◌++◌, ◌!=◌,
  List_eq, ℕ_eq, Bool_eq, if◌then◌else◌, pos, ◌+ℤ◌, any, all,
}
use pilam.Prelude.Text.{Text, trim_space, to_lower, contains, format_bool}
use pilam.Errors.{Error, self_lockout, not_allowed}
use pilam.Ids.{Uuid}
use pilam.Schema.{Role, root, User, Change}
use pilam.Validate.{ready, require, check, merge, err_of}
use pilam.World.{Env, Action, ◌>>=◌, ◌>>◌, pure, raise_if, raise_some, new_id, in_tx}
use pilam.Trail.{record_changes, from_context}
use pilam.Accounts.{
  Passwords, is_valid_role, role_eq, role_text, normalize_email, by_id, create_row, user_change,
  write, actor,
}
use pilam.Accounts.Logins.{check_password, hash_new, generate_new}

pub record NewUser : Type 0 where
  pub email : Text
  pub first_name : Text
  pub last_name : Text
  pub role : Role
  pub passwd : Text
  pub passwd_expired : Bool

-- The rejections of `NewUser.user`.
unfoldable check_new : NewUser → Option Error
check_new n =
    let v = (require ready "email" n.email).0 in
    let v' = (require (require v "first_name" n.first_name).0 "last_name" n.last_name).0 in
    let v'' = (check v' (is_valid_role n.role) "role" not_allowed).0 in
    err_of (merge v'' (check_password "passwd" n.passwd)).errs

-- `NewUser.user`
unfoldable build_user : Passwords → NewUser → Uuid → Action User
unfolding check_new hash_new
build_user p n id = do
  raise_some (check_new n)
  hash ← hash_new p n.passwd
  pure (record {
    id = id;
    email = normalize_email n.email;
    first_name = trim_space n.first_name;
    last_name = trim_space n.last_name;
    passwd_hash = hash;
    role = n.role;
    active = true;
    session_epoch = pos 1;
    passwd_expired = n.passwd_expired;
  })

-- `Service.Create`
unfoldable pub create : Passwords → Env → NewUser → Action User
unfolding build_user
create p env n = do
  id ← new_id env
  row ← build_user p n id
  in_tx (
      create_row row
      >> record_changes env (actor env row.id) (user_change row.id "created" "" [] [] ∷ []))
  pure row

-- `Service.Invite`
unfoldable pub invite : Passwords → Env → NewUser → Action (User × Text)
unfolding create generate_new
invite p env n = do
  plain ← generate_new p
  row ← create p env (record n { passwd = plain; passwd_expired = true })
  pure (row, plain)

pub record UpdateParams : Type 0 where
  pub first_name : Text
  pub last_name : Text
  pub role : Role
  pub active : Bool

unfoldable pub check_update : UpdateParams → Option Error
check_update p =
    let v = (require ready "first_name" (trim_space p.first_name)).0 in
    let v' = (require v "last_name" (trim_space p.last_name)).0 in
    err_of (check v' (is_valid_role p.role) "role" not_allowed).0.errs

-- `locksOut`
unfoldable pub locks_out : Env → User → UpdateParams → Bool
unfolding from_context
locks_out env u p = elim (from_context env) [
  | none ↦ false
  | some identity ↦
      if identity.user_id != u.id
      then false
      else not p.active || (role_eq u.role root && not (role_eq p.role root))
]

abbrev note_name : Uuid → String → Text → Text → List Change
note_name id field old new =
    if new != old then user_change id "name_changed" field old new ∷ [] else []

-- The entries of an update, in the order of its fields.
unfoldable pub update_changes : User → UpdateParams → List Change
update_changes u p =
    note_name u.id "first_name" u.first_name (trim_space p.first_name)
    ++ (note_name u.id "last_name" u.last_name (trim_space p.last_name)
        ++ ((if not (role_eq p.role u.role)
              then user_change u.id "role_changed" "role" (role_text u.role) (role_text p.role) ∷ []
              else [])
            ++ (if p.active != u.active
                then user_change u.id (if p.active then "reactivated" else "deactivated") "active"
                    (format_bool u.active) (format_bool p.active)
                  ∷ []
                else [])))

-- The row after the update: a deactivation ends the sessions of the user.
unfoldable pub updated : User → UpdateParams → User
updated u p = record u {
  first_name = trim_space p.first_name;
  last_name = trim_space p.last_name;
  role = p.role;
  session_epoch = if u.active && not p.active then u.session_epoch +ℤ pos 1 else u.session_epoch;
  active = p.active;
}

unfoldable pub write_update : Env → User → List Change → Action (Unit {0})
unfolding write
write_update env row [] = pure tt
write_update env row (c ∷ changes) = write env row (c ∷ changes)

-- `Service.Update`
unfoldable pub update : Env → Uuid → UpdateParams → Action (Unit {0})
unfolding check_update locks_out update_changes updated write_update
update env id p = do
  raise_some (check_update p)
  u ← by_id id
  raise_if (locks_out env u p) self_lockout
  write_update env (updated u p) (update_changes u p)

-- `matches`: every term is part of the address or of one of the names.
unfoldable pub matches : User → List Text → Bool
matches u terms =
    all
      (λ term.
        any (λ field. contains field term)
          (to_lower u.email ∷ to_lower u.first_name ∷ to_lower u.last_name ∷ []))
      terms
