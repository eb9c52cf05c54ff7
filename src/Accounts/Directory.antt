-- ===== src/Accounts/Directory.antt =====
-- internal/auth/auth.go: the reads of the users section, and the names of the actors of a trail.
use pilam.Prelude.{
  Bool, true, false, ◌||◌, Option, none, some, List, [], ◌∷◌, ◌==◌, ℕ_eq, if◌then◌else◌, keep_if,
  map,
}
use pilam.Prelude.Text.{Text, to_lower, fields}
use pilam.Prelude.Sort.{sort_by}
use pilam.Errors.{no_user, Result, ok, err}
use pilam.Ids.{Uuid, nil_id}
use pilam.Schema.{Role, User}
use pilam.World.{Env, World, Action, ◌>>=◌, pure, reads}
use pilam.Milestones.Store.Names.{by_name}
use pilam.Accounts.{by_id}
use pilam.Accounts.Edits.{matches}
pub mod Laws

-- `Account`, less the time of the last write, which no operation reads.
pub record Account : Type 0 where
  pub id : Uuid
  pub email : Text
  pub first_name : Text
  pub last_name : Text
  pub role : Role
  pub active : Bool

-- `User.Account`
abbrev pub account_of : User → Account
account_of u = record {
  id = u.id;
  email = u.email;
  first_name = u.first_name;
  last_name = u.last_name;
  role = u.role;
  active = u.active;
}

-- `Service.Account`
unfoldable pub account : Uuid → Action Account
unfolding by_id
account id = do u ← by_id id; pure (account_of u)

-- `Users.List` and `Service.List`. A query of no terms is answered by every user.
abbrev list_rows : Env → Action (List User)
list_rows env = reads (λ t. sort_by (λ (a b : User). by_name env a.first_name b.first_name) t.users)

unfoldable pub list_accounts : Env → Text → Action (List Account)
unfolding matches
list_accounts env query = do
  users ← list_rows env
  pure (map account_of (keep_if (λ u. matches u (fields (to_lower query))) users))

-- The map of `Actors`, by the identifiers that it holds.
abbrev pub Held : Type 0
Held = List (Uuid × Account)

abbrev pub find_held : Uuid → Held → Option Account
find_held id [] = none
find_held id ((key, a) ∷ held) = if id == key then some a else find_held id held

abbrev pub is_held : Option Account → Bool
is_held none = false
is_held (some a) = true

-- What the loop makes of the row that it asked for.
unfoldable pub hold : Uuid → Held → Result User × World → Result Held × World
hold id held (ok u, w) = (ok ((id, account_of u) ∷ held), w)
hold id held (err no_user, w) = (ok held, w)
hold id held (err e, w) = (err e, w)

-- A round of the loop of `Actors`.
unfoldable pub hold_one : Uuid → Held → Action Held
unfolding hold by_id
hold_one id held w =
    if is_held (find_held id held) || id == nil_id then (ok held, w) else hold id held (by_id id w)

unfoldable pub hold_all : List Uuid → Held → Action Held
unfolding hold_one
hold_all [] held = pure held
hold_all (id ∷ ids) held = do next ← hold_one id held; hold_all ids next

-- `Service.Actors`
unfoldable pub actors : List Uuid → Action Held
unfolding hold_all
actors ids = hold_all ids []
