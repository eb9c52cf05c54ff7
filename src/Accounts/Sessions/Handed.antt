-- ===== src/Accounts/Sessions/Handed.antt =====
-- The password that a reset hands over.
use pilam.Prelude.{
  ℕ, ◌≡◌, refl, sym, ap, ◌∙◌, true, false, some, List, [], ◌∷◌, ◌==◌, ◌&&◌, List_eq, ℕ_eq, any, map,
  find_first, if◌then◌else◌, arith, Bool, Bool-cases, not, ◌||◌, inl, inr,
}
use mathlib.Core.Path.{subst}
use pilam.Prelude.Text.{Text, to_lower}
use pilam.Errors.{Result, ok, err}
use pilam.Date.Gregorian.{Time}
use pilam.Schema.{User, Change}
use pilam.World.{Env, World, ◌>>◌, pure}
use pilam.World.Success.{bind-Answers}
use pilam.Auth.Throttle.{allow}
use pilam.Auth.Throttle.Laws.{allow-reset}
use pilam.Accounts.{
  Passwords, principal_of, identity_of, normalize_email, by_id, by_email, same_email, as_stored,
  update_row, write, throttle_reset,
}
use pilam.Accounts.Rows.{user_of, by_id-ok}
use pilam.Accounts.Logins.{authenticate, reset_password, hash_new, generate_new}
use pilam.Accounts.Liveness.{admit-ok}
use pilam.Accounts.Sessions.{reset_to, write-leaves, reset_made, reset_hashed, reset_row, finish}

split_or : (a b c : Bool) → a ≡ true → ((a && b) || c) ≡ false → (b ≡ false) × (c ≡ false)
split_or a b c h k = (ground arith, ground arith)

find-email :
    (row : User) (rows : List User)
    → any (λ (u : User). u.id == row.id) rows ≡ true
    → any (same_email row) rows ≡ false
    → find_first
        (λ (r : User). to_lower r.email == to_lower row.email)
        (map (λ u. if u.id == row.id then as_stored row else u) rows)
      ≡ some (as_stored row)
find-email row [] h k = absurd (ground arith)
find-email row (r ∷ rows) h k = elim (Bool-cases (r.id == row.id)) [
  | inl here ↦
      let self : (to_lower row.email == to_lower row.email) ≡ true =
        (List_eq.equal_iff (to_lower row.email) (to_lower row.email)).1 refl in
      rw (here, self) refl
  | inr apart ↦
      let (differs, rest) =
        split_or (not (r.id == row.id)) (to_lower r.email == to_lower row.email)
          (any (same_email row) rows) (ap not apart) k in
      let left : any (λ (u : User). u.id == row.id) rows ≡ true =
        sym (ap (λ b. b || any (λ (u : User). u.id == row.id) rows) apart) ∙ h in
      rw (apart, differs) (find-email row rows left rest)
]

-- A row that was updated is the one that its address finds.
email-update_row :
    (row : User) (w w' : World)
    → update_row row w ≡ (ok tt, w')
    → find_first (λ (r : User). to_lower r.email == to_lower row.email) w'.tables.users
      ≡ some (as_stored row)
unfolding update_row
email-update_row row w w' h = ground (arith, find-email row w.tables.users)

email-write :
    (env : Env) (row : User) (changes : List Change) (w w' : World)
    → write env row changes w ≡ (ok tt, w')
    → find_first (λ (r : User). to_lower r.email == to_lower row.email) w'.tables.users
      ≡ some (as_stored row)
email-write env row changes w w' h =
    write-leaves
      (λ t.
        find_first (λ (r : User). to_lower r.email == to_lower row.email) t.users
        ≡ some (as_stored row))
      (λ t e k. k) env row changes w w' (email-update_row row) h

-- What the end of a reset leaves: the row under its address, and its key let go.
finish-Lets :
    (env : Env) (row : User) (changes : List Change) (a a' : Text) (w w' : World)
    → finish env row changes row.email a w ≡ (ok a', w')
    → (a' ≡ a)
      × (find_first (λ (r : User). to_lower r.email == to_lower row.email) w'.tables.users
          ≡ some (as_stored row))
      × ((now : Time) → allow now row.email w'.failed ≡ true)
unfolding finish
finish-Lets env row changes a a' w w' h =
    let written =
      bind-Answers (write env row changes) (λ _. throttle_reset row.email >> pure a) w w' a' h in
    let v = written.0.after in
    (
      sym (ap (λ r. elim r.0 [ ok x ↦ x | err e ↦ a ]) written.1),
      sym (
            ap
              (λ (r : Result Text × World).
                find_first (λ (u : User). to_lower u.email == to_lower row.email) r.1.tables.users)
              written.1)
          ∙ email-write env row changes w v written.0.same,
      λ now.
          sym (ap (λ (r : Result Text × World). allow now row.email r.1.failed) written.1)
          ∙ allow-reset now row.email v.failed,
    )

-- A login that the throttle lets try, with a password that the hash of the active user verifies.
allowed-ok :
    (p : Passwords) (env : Env) (submitted plain : Text) (w : World) (u : User) (stale : Bool)
    → allow env.now (normalize_email submitted) w.failed ≡ true
    → find_first
        (λ (r : User). to_lower r.email == to_lower (normalize_email submitted))
        w.tables.users
      ≡ some u
    → u.active ≡ true
    → p.verify u.passwd_hash plain ≡ ok (true, stale)
    → (authenticate p env submitted plain w).0 ≡ ok (identity_of u, principal_of u)
unfolding authenticate by_email
allowed-ok p env submitted plain w u stale may found active holds =
    ground (arith, admit-ok p env (normalize_email submitted) plain u stale w active)

-- After a reset that succeeds, a login at any time with the password that it answers and with the address
-- of its active user succeeds, with the row that the reset stored under a new hash. A hash verifies the
-- password that it was made of.
pub reset_password-admits :
    (p : Passwords) (env later : Env) (submitted plain : Text) (w w' : World) (u : User)
    → ((n : ℕ) (t : Text) → (stale : Bool) × (p.verify (p.hash n t) t ≡ ok (true, stale)))
    → user_of u.id w.tables ≡ some u
    → u.active ≡ true
    → normalize_email submitted ≡ u.email
    → reset_password p env u.id w ≡ (ok plain, w')
    → (hash : Text) × ((authenticate p later submitted plain w').0
        ≡ ok (identity_of (reset_to u hash), principal_of (as_stored (reset_to u hash))))
unfolding reset_password finish hash_new identity_of
reset_password-admits p env later submitted plain w w' u verifies held active named h =
    let read = bind-Answers (by_id u.id) (reset_row p env) w w' plain h in
    let found = by_id-ok u.id w read.0.after read.0.value read.0.same in
    let same : read.0.value ≡ u = ground (arith, found.0, held) in
    let made =
      bind-Answers (generate_new p) (reset_made p env read.0.value) read.0.after w' plain read.1 in
    let hashed =
      bind-Answers (hash_new p made.0.value) (reset_hashed env read.0.value made.0.value)
        made.0.after w' plain made.1 in
    let row = reset_to read.0.value hashed.0.value in
    let left = finish-Lets env row _ _ plain hashed.0.after w' hashed.1 in
    let key : normalize_email submitted ≡ read.0.value.email =
      named ∙ ap (λ (x : User). x.email) (sym same) in
    let n = made.0.after.entropy in
    let hash_is : p.hash n made.0.value ≡ hashed.0.value =
      ap (λ (r : Result Text × World). elim r.0 [ ok x ↦ x | err e ↦ [] ]) hashed.0.same in
    let (stale, holds) = verifies n made.0.value in
    let verified : p.verify hashed.0.value plain ≡ ok (true, stale) =
      ap (λ x. p.verify x plain) (sym hash_is)
      ∙ (ap (p.verify (p.hash n made.0.value)) left.0 ∙ holds) in
    let login =
      allowed-ok p later submitted plain w' (as_stored row) stale
        (subst (λ k. allow later.now k w'.failed ≡ true) (sym key) (left.2 later.now))
        (subst
          (λ k.
            find_first (λ (r : User). to_lower r.email == to_lower k) w'.tables.users
            ≡ some (as_stored row))
          (sym key) left.1)
        (ap (λ (x : User). x.active) same ∙ active) verified in
    subst
      (λ (x : User).
        (hash : Text) × ((authenticate p later submitted plain w').0
          ≡ ok (identity_of (reset_to x hash), principal_of (as_stored (reset_to x hash)))))
      same (hashed.0.value, login)
