-- ===== src/Accounts/Sessions.antt =====
-- The sessions of a user after a new password.
use pilam.Prelude.{
  ◌≡◌, ◌≢◌, refl, sym, ap, ◌∙◌, Bool, true, false, not, some, List, [], ◌∷◌, ℕ_eq, arith, ℤ, pos,
  ◌+ℤ◌, ℤ-Eq,
}
use mathlib.Core.Path.{subst}
use pilam.Prelude.Int.{eq_ℤ_iff, int32, int32-next}
use pilam.Prelude.Text.{Text, codes}
use pilam.Errors.{Result, ok, err, not_resolved, incorrect}
use pilam.Ids.{Uuid}
use pilam.Schema.{User, Change, Tables, Entry}
use pilam.Validate.{fail}
use pilam.World.{Env, World, Action, ◌>>=◌, ◌>>◌, pure, raise_if, raise_some}
use pilam.World.Success.{bind-Answers, in_tx-Committed, raise_if-ok}
use pilam.World.Invariants.{Leaves}
use pilam.Trail.{record_changes}
use pilam.Trail.Laws.{record_changes-Invariant, with_entry}
use pilam.Accounts.{
  Passwords, Principal, principal_of, as_stored, by_id, update_row, user_change, write, actor,
  resolve, resolve_row, throttle_reset,
}
use pilam.Accounts.Rows.{user_of, by_id-ok, user_of-update_row}
use pilam.Accounts.Logins.{change_password, reset_password, check_password, hash_new, generate_new}
pub mod Handed

-- A property of the row that was written, which a new entry of the trail keeps.
write-leaves :
    (P : Tables → Type 0)
    → ((t : Tables) (e : Entry) → P t → P (with_entry t e))
    → (env : Env) (row : User) (changes : List Change) (w w' : World)
    → ((v v' : World) → update_row row v ≡ (ok tt, v') → P v'.tables)
    → write env row changes w ≡ (ok tt, w')
    → P w'.tables
unfolding write
write-leaves P grows env row changes w w' wrote h =
    let tx =
      in_tx-Committed (update_row row >> record_changes env (actor env row.id) changes) w w' tt h in
    let put =
      bind-Answers (update_row row) (λ _. record_changes env (actor env row.id) changes) tx.before
        tx.after tt tx.ran in
    let kept : Leaves P (record_changes env (actor env row.id) changes put.0.after) =
      record_changes-Invariant P grows env (actor env row.id) changes put.0.after
        (wrote tx.before put.0.after put.0.same) in
    subst P (ap (λ (r : Result (Unit {0}) × World). r.1.tables) put.1 ∙ sym tx.ended) kept.kept

-- A write of a row that succeeds leaves what is stored of it as the one that its identifier finds.
pub user_of-write :
    (env : Env) (row : User) (changes : List Change) (w w' : World)
    → write env row changes w ≡ (ok tt, w')
    → user_of row.id w'.tables ≡ some (as_stored row)
user_of-write env row changes w w' h =
    write-leaves (λ t. user_of row.id t ≡ some (as_stored row)) (λ t e k. k) env row changes w w'
      (user_of-update_row row) h

-- Nobody is resolved from a principal of another epoch than that of the row.
resolve-ended :
    (p : Principal) (u : User) (w : World)
    → user_of p.user_id w.tables ≡ some u
    → u.session_epoch ≢ p.epoch
    → resolve (some p) w ≡ (err not_resolved, w)
unfolding resolve resolve_row
resolve-ended p u w h ne =
    rw (resolve, h, resolve_row) (ground (arith, eq_ℤ_iff u.session_epoch p.epoch))

later : (e e' : ℤ) → e' ≡ e +ℤ pos 1 → int32 e' ≢ e
later e e' h k = int32-next e (ap int32 (sym h) ∙ k)

-- The ends of the two operations, from the row that they write.
abbrev pub change_to : User → Text → User
change_to u hash = record u {
  passwd_hash = hash;
  passwd_expired = false;
  session_epoch = u.session_epoch +ℤ pos 1;
}

abbrev pub reset_to : User → Text → User
reset_to u hash = record u {
  passwd_hash = hash;
  passwd_expired = true;
  session_epoch = u.session_epoch +ℤ pos 1;
}

-- A write of a row of the next epoch, and what follows it without touching the tables, ends the
-- sessions of the epoch before.
module _ {A : Type 0} where
  finish : Env → User → List Change → Text → A → Action A
  finish env row changes key a = do write env row changes; throttle_reset key; pure a

  finish-writes :
      (env : Env) (row : User) (changes : List Change) (key : Text) (a a' : A) (w w' : World)
      → finish env row changes key a w ≡ (ok a', w')
      → (a' ≡ a) × (user_of row.id w'.tables ≡ some (as_stored row))
  unfolding finish
  finish-writes env row changes key a a' w w' h =
      let written =
        bind-Answers (write env row changes) (λ _. throttle_reset key >> pure a) w w' a' h in
      (
        sym (ap (λ r. elim r.0 [ ok x ↦ x | err e ↦ a ]) written.1),
        sym (ap (λ r. user_of row.id r.1.tables) written.1)
            ∙ user_of-write env row changes w written.0.after written.0.same,
      )

-- Of a row that was written with the next epoch, the principal of the epoch before is ended.
written-ends :
    (u row : User) (w' : World)
    → row.id ≡ u.id
    → row.session_epoch ≡ u.session_epoch +ℤ pos 1
    → user_of row.id w'.tables ≡ some (as_stored row)
    → resolve (some (principal_of u)) w' ≡ (err not_resolved, w')
written-ends u row w' same next h =
    resolve-ended (principal_of u) (as_stored row) w' (ap (λ i. user_of i w'.tables) (sym same) ∙ h)
      (later u.session_epoch row.session_epoch next)

-- The steps of `change_password` after the read of the row.
abbrev change_hashed : Env → User → Text → Action Principal
change_hashed env u hash =
    finish env (change_to u hash) (user_change u.id "passwd_changed" "passwd" [] (codes "set") ∷ [])
      u.email (principal_of (change_to u hash))

abbrev change_checked : Passwords → Env → Text → User → Bool × Bool → Action Principal
change_checked p env next u (holds, stale) =
    raise_if (not holds) (fail "current_passwd" incorrect)
    >> (raise_some (check_password "new_passwd" next) >> (hash_new p next >>= change_hashed env u))

abbrev change_row : Passwords → Env → Text → Text → User → Action Principal
change_row p env current next u =
    (λ w. (p.verify u.passwd_hash current, w)) >>= change_checked p env next u

-- The steps of `reset_password` after the read of the row.
abbrev reset_hashed : Env → User → Text → Text → Action Text
reset_hashed env u plain hash =
    finish env (reset_to u hash) (user_change u.id "passwd_reset" "passwd" [] (codes "set") ∷ [])
      u.email plain

abbrev reset_made : Passwords → Env → User → Text → Action Text
reset_made p env u plain = hash_new p plain >>= reset_hashed env u plain

abbrev reset_row : Passwords → Env → User → Action Text
reset_row p env u = generate_new p >>= reset_made p env u

-- What a change from a row leaves when it succeeds: the row of a new hash and of the next epoch,
-- whose principal it answers with.
abbrev pub Renews : User → World → Principal → Type 0
Renews u w' q =
    (hash : Text) × (user_of u.id w'.tables ≡ some (as_stored (change_to u hash)))
    × (q ≡ principal_of (change_to u hash))

-- The password that a change was asked for with.
abbrev pub IsPasswd : Passwords → Text → User → Type 0
IsPasswd p current u = (stale : Bool) × (p.verify u.passwd_hash current ≡ ok (true, stale))

change_checked-Renews :
    (p : Passwords) (env : Env) (next : Text) (u : User) (holds stale : Bool) (w w' : World)
    (q : Principal)
    → change_checked p env next u (holds, stale) w ≡ (ok q, w')
    → (holds ≡ true) × Renews u w' q
unfolding hash_new
change_checked-Renews p env next u holds stale w w' q h =
    let asked =
      bind-Answers (raise_if (not holds) (fail "current_passwd" incorrect))
        (λ _.
          raise_some (check_password "new_passwd" next)
          >> (hash_new p next >>= change_hashed env u))
        w w' q h in
    let passed = raise_if-ok _ _ w asked.0.after asked.0.same in
    let long =
      bind-Answers (raise_some (check_password "new_passwd" next))
        (λ _. hash_new p next >>= change_hashed env u) asked.0.after w' q asked.1 in
    let hashed = bind-Answers (hash_new p next) (change_hashed env u) long.0.after w' q long.1 in
    let row = change_to u hashed.0.value in
    let wrote = finish-writes env row _ u.email _ q hashed.0.after w' hashed.1 in
    (ground (arith, passed.0), (hashed.0.value, wrote.1, wrote.0))

change_row-Renews :
    (p : Passwords) (env : Env) (current next : Text) (u : User) (w w' : World) (q : Principal)
    → change_row p env current next u w ≡ (ok q, w')
    → IsPasswd p current u × Renews u w' q
change_row-Renews p env current next u w w' q h = by_answer (p.verify u.passwd_hash current) refl
  where
    by_answer :
        (r : Result (Bool × Bool))
        → p.verify u.passwd_hash current ≡ r
        → IsPasswd p current u × Renews u w' q
    by_answer (ok (holds, stale)) e =
        let (held, renews) =
          change_checked-Renews p env next u holds stale w w' q (ground (arith, e, h)) in
        ((stale, ground (arith, e, held)), renews)
    by_answer (err d) e = absurd (ground (arith, e, h))

pub change_password-Renews :
    (p : Passwords) (env : Env) (id : Uuid) (current next : Text) (w w' : World) (q : Principal)
    → change_password p env id current next w ≡ (ok q, w')
    → (u : User) × (user_of id w.tables ≡ some u) × IsPasswd p current u × Renews u w' q
unfolding change_password finish
change_password-Renews p env id current next w w' q h =
    let read = bind-Answers (by_id id) (change_row p env current next) w w' q h in
    let found = by_id-ok id w read.0.after read.0.value read.0.same in
    let renews = change_row-Renews p env current next read.0.value read.0.after w' q read.1 in
    (read.0.value, found.0, renews.0, renews.1)

-- A row of a new password ends the principal of the row as it was.
pub Renews-ended :
    (u : User) (w' : World) (q : Principal)
    → Renews u w' q
    → resolve (some (principal_of u)) w' ≡ (err not_resolved, w')
Renews-ended u w' q (hash, wrote, same) = written-ends u (change_to u hash) w' refl refl wrote

-- A change of password that succeeds was asked for with a password that the hash of the row
-- verifies, and after it the principal of the row as it was resolves to nobody.
pub change_password-ends :
    (p : Passwords) (env : Env) (id : Uuid) (current next : Text) (w w' : World) (q : Principal)
    → change_password p env id current next w ≡ (ok q, w')
    → (u : User) × (user_of id w.tables ≡ some u)
      × ((stale : Bool) × (p.verify u.passwd_hash current ≡ ok (true, stale)))
      × (resolve (some (principal_of u)) w' ≡ (err not_resolved, w'))
change_password-ends p env id current next w w' q h =
    let (u, found, held, renews) = change_password-Renews p env id current next w w' q h in
    (u, found, held, Renews-ended u w' q renews)

-- After a reset of a password that succeeds the principal of the row as it was resolves to
-- nobody.
pub reset_password-ends :
    (p : Passwords) (env : Env) (id : Uuid) (w w' : World) (plain : Text)
    → reset_password p env id w ≡ (ok plain, w')
    → (u : User) × (user_of id w.tables ≡ some u)
      × (resolve (some (principal_of u)) w' ≡ (err not_resolved, w'))
unfolding reset_password finish
reset_password-ends p env id w w' plain h =
    let read = bind-Answers (by_id id) (reset_row p env) w w' plain h in
    let found = by_id-ok id w read.0.after read.0.value read.0.same in
    let made =
      bind-Answers (generate_new p) (reset_made p env read.0.value) read.0.after w' plain read.1 in
    let hashed =
      bind-Answers (hash_new p made.0.value) (reset_hashed env read.0.value made.0.value)
        made.0.after w' plain made.1 in
    let row = reset_to read.0.value hashed.0.value in
    let wrote = finish-writes env row _ read.0.value.email _ plain hashed.0.after w' hashed.1 in
    (read.0.value, found.0, written-ends read.0.value row w' refl refl wrote.1)
