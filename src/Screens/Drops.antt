-- ===== src/Screens/Drops.antt =====
-- internal/http/drops: the screens of the drops.
use pilam.Prelude.{Bool, true, false, Option, none, some, List, [], ◌∷◌, ◌++◌, String, keep_if}
use pilam.Prelude.Text.{Text, codes}
use pilam.Errors.{
  Error, FieldErrors, Result, ok, err, no_drop, no_season, drop_name_taken, taken, not_allowed,
}
use pilam.Ids.{Uuid}
use pilam.Schema.{Season, Drop}
use pilam.Validate.{fail}
use pilam.World.{Env, World, Action, ◌>>=◌, pure}
use pilam.Accounts.Principals.{UuidForm}
use pilam.Catalog.Seasons.{season, list_seasons}
use pilam.Catalog.Drops.{
  drop, list_drops, create_drop, update_drop, DropCreateParams, DropUpdateParams,
}
use pilam.Screens.{Answer, Form, posted_id, posted_day, posted_flag, shown, redirect_saved}
use pilam.Screens.Pages.{Screen, load_one, reading, with_trail, form_page, answered}
pub mod Laws

-- `views.DropGroup`
pub record DropGroup : Type 0 where
  pub season : Season
  pub drops : List Drop

-- `BySeason`
unfoldable pub groups_of : Env → List Season → Action (List DropGroup)
groups_of env [] = pure []
groups_of env (s ∷ seasons) = do
  drops ← list_drops env s.id
  groups ← groups_of env seasons
  pure (record { season = s; drops = drops } ∷ groups)

unfoldable pub by_season : Env → Action (List DropGroup)
unfolding groups_of
by_season env = list_seasons env >>= groups_of env

-- `Active` of the season screens: the seasons that a drop can go into.
unfoldable pub active_seasons : Env → Action (List Season)
active_seasons env = do
  seasons ← list_seasons env
  pure (keep_if (λ (s : Season). s.active) seasons)

-- `ShowList`, and `ShowNew`.
unfoldable show_list : Env → Screen
unfolding by_season
show_list env = reading (by_season env) (λ groups. form_page 200 [])

unfoldable show_new : Env → Screen
unfolding active_seasons
show_new env = reading (active_seasons env) (λ seasons. form_page 200 [])

abbrev pub is_no_drop : Error → Bool
is_no_drop no_drop = true
is_no_drop _ = false

-- What the service refuses a creation with is told at its box.
abbrev pub told_created : Error → Error
told_created drop_name_taken = fail "name" taken
told_created no_season = fail "season_id" not_allowed
told_created e = e

abbrev pub told_saved : Error → Error
told_saved drop_name_taken = fail "name" taken
told_saved e = e

abbrev pub drop_path : UuidForm → Drop → Text
drop_path ids d = codes "/drops/" ++ ids.text d.id

-- A form that is refused offers the active seasons again.
abbrev pub offer_page : Env → FieldErrors → Screen
offer_page env errs = reading (active_seasons env) (λ seasons. form_page 422 errs)

-- `Create`
unfoldable pub create : UuidForm → Env → Form → Screen
unfolding answered redirect_saved
create ids env form w =
    let (season_id, bad_id) = posted_id ids form "season_id" in
    let (target, bad_day) = posted_day form "target_date" in
    let params : DropCreateParams = record {
      season_id = season_id;
      name = form.value "name";
      target_date = target;
    } in
    answered (λ d. redirect_saved (drop_path ids d)) told_created (bad_id ∷ bad_day ∷ [])
      (offer_page env) (create_drop env params w)

-- `loadOne`: a drop whose season cannot be read is a failure.
unfoldable pub load_drop : UuidForm → Text → (Drop → Season → Screen) → Screen
load_drop ids raw page =
    load_one ids is_no_drop drop raw (λ d. reading (season d.season_id) (page d))

module _ (ids : UuidForm) (env : Env) where
  -- `Show`
  unfoldable show : Text → Screen
  unfolding load_drop
  show raw = load_drop ids raw (λ d s. with_trail env "drop" d.id 200 [])

  unfoldable pub save_drop : Form → Drop → Screen
  unfolding answered redirect_saved
  save_drop form d w =
      let (target, bad_day) = posted_day form "target_date" in
      let params : DropUpdateParams = record {
        name = form.value "name";
        target_date = target;
        active = posted_flag form "active";
      } in
      answered (λ u. redirect_saved (drop_path ids d)) told_saved (bad_day ∷ [])
        (with_trail env "drop" d.id 422) (update_drop env d.id params w)

  -- `Save`
  unfoldable pub save : Text → Form → Screen
  unfolding save_drop load_drop
  save raw form = load_drop ids raw (λ d s. save_drop form d)
