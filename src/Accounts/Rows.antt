-- ===== src/Accounts/Rows.antt =====
-- The rows of the users table, read by their identifiers and after an update.
use pilam.Prelude.{
  ◌≡◌, refl, sym, ap, ◌∙◌, true, Option, none, some, List, [], ◌∷◌, ◌==◌, ℕ_eq, any, map,
  find_first, if◌then◌else◌, arith,
}
use pilam.Errors.{no_user, ok, err}
use pilam.Ids.{Uuid}
use pilam.Schema.{User, Tables}
use pilam.World.{World, or_raise}
use pilam.Accounts.{by_id, update_row, as_stored}

abbrev pub user_of : Uuid → Tables → Option User
user_of id t = find_first (λ (r : User). r.id == id) t.users

pub by_id-ok :
    (id : Uuid) (w w' : World) (u : User)
    → by_id id w ≡ (ok u, w')
    → (user_of id w.tables ≡ some u) × (w' ≡ w)
unfolding by_id
by_id-ok id w w' u h = by_found (user_of id w.tables) refl h
  where
    by_found :
        (o : Option User)
        → user_of id w.tables ≡ o
        → or_raise no_user (user_of id w.tables) w ≡ (ok u, w')
        → (user_of id w.tables ≡ some u) × (w' ≡ w)
    by_found none e k = absurd (ground (arith, sym (ap (λ o. or_raise no_user o w) e) ∙ k))
    by_found (some v) e k =
        let answer : (ok v, w) ≡ (ok u, w') = sym (ap (λ o. or_raise no_user o w) e) ∙ k in
        (e ∙ ap (λ r. elim r.0 [ ok x ↦ some x | err d ↦ none ]) answer, sym (ap (λ r. r.1) answer))

found_id :
    (id : Uuid) (rows : List User) (u : User)
    → find_first (λ (r : User). r.id == id) rows ≡ some u
    → u.id ≡ id
found_id id [] u h = absurd (ground arith)
found_id id (r ∷ rows) u h = ground (arith, found_id id rows u)

pub user_of-id : (id : Uuid) (t : Tables) (u : User) → user_of id t ≡ some u → u.id ≡ id
user_of-id id t u h = found_id id t.users u h

find-put :
    (row : User) (rows : List User)
    → any (λ (u : User). u.id == row.id) rows ≡ true
    → find_first
        (λ (r : User). r.id == row.id)
        (map (λ u. if u.id == row.id then as_stored row else u) rows)
      ≡ some (as_stored row)
find-put row [] h = absurd (ground arith)
find-put row (r ∷ rows) h = ground (arith, find-put row rows)

-- A row that was updated is found as it was stored.
pub user_of-update_row :
    (row : User) (w w' : World)
    → update_row row w ≡ (ok tt, w')
    → user_of row.id w'.tables ≡ some (as_stored row)
unfolding update_row
user_of-update_row row w w' h = ground (arith, find-put row w.tables.users)
