-- ===== src/Screens/Users/Laws.antt =====
-- The password that the page of a reset shows.
use pilam.Prelude.{ℕ, Bool, ◌≡◌, refl, sym, ap, ◌∙◌, true, none, some, arith}
use mathlib.Core.Path.{subst}
use pilam.Prelude.Text.{Text}
use pilam.Errors.{Result, ok, err, no_user}
use pilam.Schema.{User}
use pilam.World.{Env, World, ◌>>=◌, or_raise, pure}
use pilam.Accounts.{Passwords, principal_of, as_stored, identity_of, normalize_email, by_id}
use pilam.Accounts.Rows.{user_of}
use pilam.Accounts.Principals.{UuidForm, parse_id}
use pilam.Accounts.Logins.{authenticate, reset_password}
use pilam.Accounts.Directory.{account, account_of}
use pilam.Accounts.Sessions.{reset_to}
use pilam.Accounts.Sessions.Handed.{reset_password-admits}
use pilam.Screens.{not_found}
use pilam.Screens.Users.{Handed, plainly, after_reset, reset_of, reset_passwd}

account-user_of :
    (u : User) (w : World)
    → user_of u.id w.tables ≡ some u
    → account u.id w ≡ (ok (account_of u), w)
unfolding account by_id
account-user_of u w held =
    ap (λ o. ((λ v. or_raise no_user o v) >>= (λ x. pure (account_of x))) w) held

module _ (p : Passwords) (ids : UuidForm) (env later : Env) (raw submitted plain : Text) (w : World)
    (u : User) where
  -- The login that a password lets in, with the row that the reset stored.
  abbrev pub Admits : World → Type 0
  Admits w' =
      (hash : Text) × ((authenticate p later submitted plain w').0
        ≡ ok (identity_of (reset_to u hash), principal_of (as_stored (reset_to u hash))))

  -- Where the page of a reset shows a password, a login at any later time with that password and
  -- the address of the user, however it is spaced and cased, succeeds from the tables that the page
  -- left, and answers with the row under a new hash, whose password has expired and whose epoch is
  -- the next one as the 32 bits of its column hold it. The user is active, and a hash verifies the
  -- password that it was made of.
  pub reset_passwd-Admits :
      ((n : ℕ) (t : Text) → (stale : Bool) × (p.verify (p.hash n t) t ≡ ok (true, stale)))
      → parse_id ids raw ≡ some u.id
      → user_of u.id w.tables ≡ some u
      → u.active ≡ true
      → normalize_email submitted ≡ u.email
      → (reset_passwd ids env p raw w).0.passwd ≡ some plain
      → Admits (reset_passwd ids env p raw w).1
  unfolding reset_passwd
  reset_passwd-Admits verifies read held active named shows =
      subst (λ (r : Handed × World). Admits r.1) (sym run)
        (by_result (reset_password p env u.id w) refl
          (ap (λ (r : Handed × World). r.0.passwd) (sym run) ∙ shows))
    where
      run : reset_passwd ids env p raw w ≡ after_reset ids env p (reset_password p env u.id w)
      run =
          ap
            (λ o. elim o as (λ _. Handed × World) [
              | none ↦ plainly (not_found, w)
              | some id ↦ reset_of ids env p (account id w)
            ])
            read
          ∙ ap (reset_of ids env p) (account-user_of u w held)

      inj : (a b : Text) → some a ≡ some b → a ≡ b
      inj a b h = ap (λ o. elim o [ some x ↦ x | none ↦ a ]) h

      by_result :
          (r : Result Text × World)
          → reset_password p env u.id w ≡ r
          → (after_reset ids env p r).0.passwd ≡ some plain
          → Admits (after_reset ids env p r).1
      by_result (ok shown, w') ran e =
          reset_password-admits p env later submitted plain w w' u verifies held active named
            (ran ∙ ap (λ t. (ok t, w')) (inj shown plain e))
      by_result (err d, w') ran e = absurd (ground arith)
