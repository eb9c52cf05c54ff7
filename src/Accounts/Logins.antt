-- ===== src/Accounts/Logins.antt =====
-- internal/auth/auth.go: the login, and the two ways to a new password.
use pilam.Prelude.{
  ◌+◌, Bool, true, false, not, ◌||◌, Option, [], ◌∷◌, if◌then◌else◌, pos, ◌+ℤ◌, String,
}
use pilam.Prelude.Text.{Text, codes}
use pilam.Errors.{Error, no_user, not_resolved, incorrect, Result, ok, err}
use pilam.Ids.{Uuid, nil_id}
use pilam.Schema.{other, Identity, User}
use pilam.Validate.{ready, min_len, max_len, err_of, fail}
use pilam.World.{Env, World, Action, ◌>>=◌, ◌>>◌, pure, raise, raise_if, raise_some}
use pilam.Auth.Throttle
use pilam.Accounts.{
  Passwords, Principal, principal_of, identity_of, normalize_email, by_id, by_email, user_change,
  write, throttle_reset, throttle_fail,
}

-- `password.Check`: 12 to 128 characters.
unfoldable pub check_password : String → Text → Option Error
check_password field plain =
    err_of (max_len (min_len ready field plain 12).0 field plain 128).0.errs

-- `password.Hash`, with a salt of its own.
unfoldable pub hash_new : Passwords → Text → Action Text
hash_new p plain w = (ok (p.hash w.entropy plain), record w { entropy = w.entropy + 1 })

-- `password.Generate`
unfoldable pub generate_new : Passwords → Action Text
generate_new p w = (ok (p.generate w.entropy), record w { entropy = w.entropy + 1 })

-- `rejected`
abbrev login_rejected : Error
login_rejected = fail "" incorrect

-- The user of an address that names nobody, whose hash is verified all the same.
abbrev pub nobody : Passwords → User
nobody p = record {
  id = nil_id;
  email = [];
  first_name = [];
  last_name = [];
  passwd_hash = p.dummy;
  role = other;
  active = false;
  session_epoch = pos 0;
  passwd_expired = false;
}

unfoldable pub user_or_nobody : Passwords → Result User × World → Result User × World
user_or_nobody p (ok u, w) = (ok u, w)
user_or_nobody p (err no_user, w) = (ok (nobody p), w)
user_or_nobody p (err e, w) = (err not_resolved, w)

-- A failure of `rehash` is logged and forgotten.
unfoldable pub forget : Result (Unit {0}) × World → Result (Unit {0}) × World
forget (r, w) = (ok tt, w)

unfoldable pub rehash : Passwords → Env → User → Text → Action (Unit {0})
unfolding hash_new forget write
rehash p env u plain w =
    forget ((do hash ← hash_new p plain; write env (record u { passwd_hash = hash }) []) w)

-- What `password.Verify` said, where an unreadable hash is no login.
abbrev verified : Result (Bool × Bool) → Action (Bool × Bool)
verified (ok answer) = pure answer
verified (err e) = raise not_resolved

-- The end of a login, once the password was read.
unfoldable pub admit :
    Passwords → Env → Text → Text → User → Bool × Bool → Action (Identity × Principal)
unfolding rehash identity_of
admit p env email plain u (holds, stale) =
    if not holds || not u.active then throttle_fail env email >> raise login_rejected else (do
      throttle_reset email
      if stale then rehash p env u plain else pure tt
      pure (identity_of u, principal_of u))

-- `Authenticate`
unfoldable pub authenticate : Passwords → Env → Text → Text → Action (Identity × Principal)
unfolding user_or_nobody
authenticate p env submitted plain w =
    let email = normalize_email submitted in
    let attempt : Action (Identity × Principal) = (do
      u ← λ v. user_or_nobody p (by_email email v)
      answer ← verified (p.verify u.passwd_hash plain)
      admit p env email plain u answer) in
    if not (Throttle.allow env.now email w.failed) then (err login_rejected, w) else attempt w

-- `ChangePassword`
unfoldable pub change_password : Passwords → Env → Uuid → Text → Text → Action Principal
unfolding check_password hash_new write
change_password p env id current next = do
  u ← by_id id
  (holds, stale) ← λ w. (p.verify u.passwd_hash current, w)
  raise_if (not holds) (fail "current_passwd" incorrect)
  raise_some (check_password "new_passwd" next)
  hash ← hash_new p next
  let row : User = record u {
    passwd_hash = hash;
    passwd_expired = false;
    session_epoch = u.session_epoch +ℤ pos 1;
  }
  write env row (user_change row.id "passwd_changed" "passwd" [] (codes "set") ∷ [])
  throttle_reset row.email
  pure (principal_of row)

-- `ResetPassword`
unfoldable pub reset_password : Passwords → Env → Uuid → Action Text
unfolding generate_new hash_new write
reset_password p env id = do
  u ← by_id id
  plain ← generate_new p
  hash ← hash_new p plain
  let row : User = record u {
    passwd_hash = hash;
    passwd_expired = true;
    session_epoch = u.session_epoch +ℤ pos 1;
  }
  write env row (user_change row.id "passwd_reset" "passwd" [] (codes "set") ∷ [])
  throttle_reset row.email
  pure plain
