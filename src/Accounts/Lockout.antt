-- ===== src/Accounts/Lockout.antt =====
-- The edit of an account by its own user.
use pilam.Prelude.{◌≡◌, ◌↔◌, refl, ap, sym, ◌∙◌, true, false, some, List, [], ◌∷◌, Bool_eq, arith}
use pilam.Errors.{Result, self_lockout, ok}
use pilam.Ids.{Uuid}
use pilam.Schema.{Identity, User, Change, Role, root, member, other}
use pilam.World.{Env, World, Action, ◌>>=◌, ◌>>◌, raise_some, raise_if}
use pilam.World.Success.{bind-Answers, raise_some-ok, raise_if-ok}
use pilam.Accounts.Rows.{user_of, user_of-id, by_id-ok}
use pilam.Accounts.Sessions.{user_of-write}
use pilam.Trail.{from_context}
use pilam.Accounts.{by_id, role_eq, as_stored}
use pilam.Accounts.Edits.{
  UpdateParams, update, check_update, locks_out, write_update, updated, update_changes,
}

-- An update of the users table is the one that an identity may make of its own row: it leaves the row
-- active, and leaves a root a root.
abbrev pub StaysIn : User → UpdateParams → Type 0
StaysIn u p = (p.active ≡ true) × (u.role ≡ root → p.role ≡ root)

role_eq-root : (r : Role) → (role_eq r root ≡ true) ↔ (r ≡ root)
role_eq-root member = (λ h. absurd (ground arith), λ h. absurd (ground arith))
role_eq-root root = (λ h. refl, λ h. refl)
role_eq-root other = (λ h. absurd (ground arith), λ h. absurd (ground arith))

locks_out-StaysIn :
    (env : Env) (identity : Identity) (u : User) (p : UpdateParams)
    → from_context env ≡ some identity
    → identity.user_id ≡ u.id
    → locks_out env u p ≡ false
    → StaysIn u p
unfolding locks_out
locks_out-StaysIn env identity u p e same h =
    ground (arith, role_eq-root u.role, role_eq-root p.role)

-- The end of `update`, from the row that it read.
abbrev write_row : Env → UpdateParams → User → Action (Unit {0})
write_row env p u = write_update env (updated u p) (update_changes u p)

abbrev guard_row : Env → UpdateParams → User → Action (Unit {0})
guard_row env p u = raise_if (locks_out env u p) self_lockout >> write_row env p u

-- An update without entries leaves the active flag as it is.
update_changes-none : (u : User) (p : UpdateParams) → update_changes u p ≡ [] → p.active ≡ u.active
unfolding update_changes
update_changes-none u p h = ground (arith, h, (Bool_eq.equal_iff p.active u.active).0)

-- What an update that keeps a user in leaves as the row of that user.
abbrev pub LeavesIn : User → World → Type 0
LeavesIn u w =
    (row : User) × (user_of u.id w.tables ≡ some row)
    × (row.active ≡ true)
    × (u.role ≡ root → row.role ≡ root)

write_row-LeavesIn :
    (env : Env) (p : UpdateParams) (u : User) (w w' : World)
    → user_of u.id w.tables ≡ some u
    → StaysIn u p
    → write_update env (updated u p) (update_changes u p) w ≡ (ok tt, w')
    → LeavesIn u w'
unfolding write_update updated
write_row-LeavesIn env p u w w' found stays h = by_changes (update_changes u p) refl
  where
    by_changes : (changes : List Change) → update_changes u p ≡ changes → LeavesIn u w'
    by_changes [] e =
        let ended : w ≡ w' =
          ap (λ (r : Result (Unit {0}) × World). r.1)
            (sym (ap (λ l. write_update env (updated u p) l w) e) ∙ h) in
        (
          u,
          ap (λ v. user_of u.id v.tables) (sym ended) ∙ found,
          sym (update_changes-none u p e) ∙ stays.0,
          λ k. k,
        )
    by_changes (c ∷ changes) e = (
      as_stored (updated u p),
      user_of-write env (updated u p) (c ∷ changes) w w'
          (sym (ap (λ l. write_update env (updated u p) l w) e) ∙ h),
      stays.0,
      stays.1,
    )

-- An update that succeeds found its row, and if that row is the one of the identity in the context,
-- the row that the tables then hold for it is active, and is that of a root if it was one.
pub update-LeavesIn :
    (env : Env) (identity : Identity) (id : Uuid) (p : UpdateParams) (w w' : World)
    → from_context env ≡ some identity
    → update env id p w ≡ (ok tt, w')
    → (u : User) × (user_of id w.tables ≡ some u) × (identity.user_id ≡ u.id → LeavesIn u w')
unfolding update
update-LeavesIn env identity id p w w' e h =
    let checked =
      bind-Answers (raise_some (check_update p)) (λ _. by_id id >>= guard_row env p) w w' tt h in
    let passed = raise_some-ok (check_update p) w checked.0.after checked.0.same in
    let read = bind-Answers (by_id id) (guard_row env p) checked.0.after w' tt checked.1 in
    let u = read.0.value in
    let found = by_id-ok id checked.0.after read.0.after u read.0.same in
    let guarded =
      bind-Answers (raise_if (locks_out env u p) self_lockout) (λ _. write_row env p u) read.0.after
        w' tt read.1 in
    let free = raise_if-ok _ _ read.0.after guarded.0.after guarded.0.same in
    let held : user_of id w.tables ≡ some u =
      ap (λ v. user_of id v.tables) (sym passed.1) ∙ found.0 in
    let here : user_of u.id guarded.0.after.tables ≡ some u =
      ap (λ v. user_of u.id v.tables) (free.1 ∙ (found.1 ∙ passed.1))
      ∙ (ap (λ i. user_of i w.tables) (user_of-id id w.tables u held) ∙ held) in
    (
      u,
      held,
      λ same.
          write_row-LeavesIn env p u guarded.0.after w' here
            (locks_out-StaysIn env identity u p e same free.0) guarded.1,
    )
