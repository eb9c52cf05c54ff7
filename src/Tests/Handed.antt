-- ===== src/Tests/Handed.antt =====
-- The page of a reset hands over a password.
use pilam.Prelude.{ℕ, ◌≡◌, refl, ap, Bool, true, false, some, List_eq, ℕ_eq}
use pilam.Prelude.Text.{Text, codes, to_lower, lower_rune, trim_space, is_space}
use pilam.Errors.{ok}
use pilam.World.{World, in_tx, settle, can_commit, items_apart, photos_apart, new_id}
use pilam.Trail.{
  record_changes, from_context, stamp_all, check, insert_entry, insert_entries, store_entries,
}
use pilam.Prelude.Int.{◌+ℤ◌}
use pilam.Accounts.{actor, by_id, is_valid_role, normalize_email, update_row, write}
use pilam.Accounts.Principals.{parse_id}
use pilam.Accounts.Logins.{generate_new, hash_new, reset_password}
use pilam.Accounts.Directory.{account}
use pilam.Screens.Users.{reset_passwd}
use pilam.Screens.Users.Laws.{Admits, reset_passwd-Admits}
use pilam.Tests.Base.{env, plain_passwords, user, world}
use pilam.Tests.Sessions.{form}

abbrev one : Text
one = form.text 1

one-read : parse_id form one ≡ some 1
unfolding parse_id
one-read = refl

abbrev left : World
left = (reset_passwd form env plain_passwords one world).1

address : normalize_email (codes "A@b.ru ") ≡ user.email
unfolding normalize_email to_lower lower_rune trim_space is_space
address = refl

shows : (reset_passwd form env plain_passwords one world).0.passwd ≡ some (codes "ABCDEFGHIJKLMNOP")
unfolding reset_passwd account parse_id reset_password by_id hash_new generate_new write update_row
    actor from_context record_changes stamp_all insert_entry insert_entries store_entries check
    new_id in_tx settle can_commit items_apart photos_apart is_valid_role to_lower lower_rune ◌+ℤ◌
shows = refl

plain-verifies :
    (n : ℕ) (t : Text)
    → (stale : Bool) × (plain_passwords.verify (plain_passwords.hash n t) t ≡ ok (true, stale))
plain-verifies n t = (false, ap (λ b. ok (b, false)) ((List_eq.equal_iff t t).1 refl))

reset_passwd-Admits_example :
    Admits plain_passwords form env env one
      (codes "A@b.ru ")
      (codes "ABCDEFGHIJKLMNOP")
      world
      user
      left
reset_passwd-Admits_example =
    reset_passwd-Admits plain_passwords form env env one (codes "A@b.ru ")
      (codes "ABCDEFGHIJKLMNOP") world user plain-verifies one-read refl refl address shows
