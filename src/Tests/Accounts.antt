-- ===== src/Tests/Accounts.antt =====
-- A root user logs in, changes a password and edits their own row.
use pilam.Prelude.{
  ◌≡◌, refl, true, some, ◌==◌, ℕ_eq, List_eq, find_first, pos, ◌+ℤ◌, none, [], ◌∷◌, any,
  if◌then◌else◌, arith, false,
}
use pilam.Prelude.Text.{Text, codes, to_lower, trim_space, trim_left, lower_rune, is_space}
use pilam.Errors.{Result, ok, err, not_resolved}
use pilam.Schema.{root, Identity, User}
use pilam.World.{World, in_tx, settle, new_id, can_commit, items_apart, photos_apart}
use pilam.Trail.{
  from_context, record_changes, stamp_all, insert_entry, insert_entries, store_entries, check,
}
use pilam.Validate.{require, min_len, max_len, err_of, has, get, add}
use pilam.Validate as V
use pilam.Auth.Throttle
use pilam.Accounts.{
  Principal, principal_of, identity_of, normalize_email, by_id, by_email, update_row, write, actor,
  resolve, is_valid_role,
}
use pilam.Accounts.Logins.{
  authenticate, admit, user_or_nobody, change_password, reset_password, check_password, hash_new,
  generate_new,
}
use pilam.Accounts.Edits.{
  UpdateParams, update, check_update, locks_out, update_changes, updated, write_update,
}
use pilam.Accounts.Rows.{user_of}
use pilam.Ids.{Uuid}
use pilam.Accounts.Directory.{Held, find_held, actors}
use pilam.Accounts.Directory.Laws.{named, actors-find_held}
use pilam.Accounts.Liveness.{IsRested, authenticate-Rested}
use pilam.Auth.Throttle.Laws.{IsSound}
use pilam.Tests.Rules.{on}
use pilam.Accounts.Laws.{Holds, authenticate-Holds}
use pilam.Accounts.Sessions.{reset_password-ends}
use pilam.Accounts.Lockout.{LeavesIn, update-LeavesIn}
use pilam.Tests.Base.{plain_passwords, passwd, user, me, env, world}

abbrev email : Text
email = codes " A@b.ru"

abbrev login : Result (Identity × Principal) × World
login = authenticate plain_passwords env email passwd world

logged_in :
    authenticate plain_passwords env email passwd world ≡ (ok (me, principal_of user), login.1)
unfolding authenticate admit user_or_nobody by_email normalize_email to_lower trim_space trim_left
    lower_rune is_space identity_of Throttle.allow Throttle.lookup
logged_in = refl

authenticate-Holds_example : Holds plain_passwords env email passwd world (me, principal_of user)
authenticate-Holds_example =
    authenticate-Holds plain_passwords env email passwd world login.1 me (principal_of user)
      logged_in

abbrev pub next : Text
next = codes "battery staple"

abbrev change : Result Principal × World
change = change_password plain_passwords env 1 passwd next world

abbrev next_principal : Principal
next_principal = record { user_id = 1; epoch = pos 4 }

changed : change_password plain_passwords env 1 passwd next world ≡ (ok next_principal, change.1)
unfolding change_password by_id check_password hash_new write update_row actor from_context
    record_changes stamp_all insert_entry insert_entries store_entries check new_id in_tx settle
    can_commit items_apart photos_apart min_len max_len err_of has get add is_valid_role to_lower
    lower_rune ◌+ℤ◌
changed = refl

abbrev fresh_passwd : Text
fresh_passwd = codes "ABCDEFGHIJKLMNOP"

abbrev renewed : Result Text × World
renewed = reset_password plain_passwords env 1 world

was_reset : reset_password plain_passwords env 1 world ≡ (ok fresh_passwd, renewed.1)
unfolding reset_password by_id hash_new generate_new write update_row actor from_context
    record_changes stamp_all insert_entry insert_entries store_entries check new_id in_tx settle
    can_commit items_apart photos_apart is_valid_role to_lower lower_rune ◌+ℤ◌
was_reset = refl

reset_password-ends_example :
    (u : User) × (user_of 1 world.tables ≡ some u)
    × (resolve (some (principal_of u)) renewed.1 ≡ (err not_resolved, renewed.1))
reset_password-ends_example =
    reset_password-ends plain_passwords env 1 world renewed.1 fresh_passwd was_reset

abbrev edit : UpdateParams
edit = record { first_name = codes "C"; last_name = codes "B"; role = root; active = true }

abbrev edited : Result (Unit {0}) × World
edited = update env 1 edit world

was_edited : update env 1 edit world ≡ (ok tt, edited.1)
unfolding update by_id check_update locks_out update_changes updated write_update write update_row
    actor from_context record_changes stamp_all insert_entry insert_entries store_entries check
    new_id in_tx settle can_commit items_apart photos_apart is_valid_role require V.check err_of has
    get add to_lower lower_rune trim_space trim_left is_space ◌+ℤ◌
was_edited = refl

asked_by_me : from_context env ≡ some me
unfolding from_context
asked_by_me = refl

update-LeavesIn_example :
    (u : User) × (find_first (λ (r : User). r.id == 1) world.tables.users ≡ some u)
    × (me.user_id ≡ u.id → LeavesIn u edited.1)
update-LeavesIn_example = update-LeavesIn env me 1 edit world edited.1 asked_by_me was_edited

actors-find_held_example :
    (found : Held) × (actors (1 ∷ 0 ∷ 5 ∷ 1 ∷ []) world ≡ (ok found, world))
    × ((k : Uuid)
        → find_held k found
          ≡ (if any (λ id. k == id) (1 ∷ 0 ∷ 5 ∷ 1 ∷ []) then named world.tables k else none))
actors-find_held_example = actors-find_held (1 ∷ 0 ∷ 5 ∷ 1 ∷ []) world

-- The same world five days after nine failures.
abbrev failure : Throttle.Record
failure = record { attempts = 9; until = on 739690; seen = on 739690 }

abbrev failing : World
failing = record world { failed = (user.email, failure) ∷ [] }

failing-IsSound : IsSound failing.failed
unfolding Throttle.lookup ◌+ℤ◌
failing-IsSound = (refl, omega arith, tt)

address : normalize_email email ≡ user.email
unfolding normalize_email to_lower trim_space trim_left lower_rune is_space
address = refl

failing-IsRested : IsRested env.now (normalize_email email) failing.failed
unfolding Throttle.lookup ◌+ℤ◌
failing-IsRested r = rw address (λ h. ground arith)

finds :
    find_first
      (λ (r : User). to_lower r.email == to_lower (normalize_email email))
      failing.tables.users
    ≡ some user
unfolding normalize_email to_lower trim_space trim_left lower_rune is_space
finds = refl

authenticate-Rested_example :
    (authenticate plain_passwords env email passwd failing).0
    ≡ ok (identity_of user, principal_of user)
authenticate-Rested_example =
    authenticate-Rested plain_passwords env email passwd failing user false failing-IsSound
      failing-IsRested finds refl refl
