-- ===== src/Screens/Seasons.antt =====
-- internal/http/seasons: the screens of the seasons.
use pilam.Prelude.{Bool, true, false, Option, none, some, [], ◌∷◌, ◌++◌, String}
use pilam.Prelude.Text.{Text, codes}
use pilam.Errors.{Error, Result, ok, err, no_season, season_name_taken, taken}
use pilam.Date.Gregorian.{Time}
use pilam.Schema.{Season}
use pilam.Validate.{fail}
use pilam.World.{Env, World}
use pilam.Accounts.Principals.{UuidForm}
use pilam.Catalog.Seasons.{season, create_season, update_season, list_seasons, SeasonUpdateParams}
use pilam.Screens.{Answer, Form, posted_day, posted_flag, shown, redirect_saved, rejections}
use pilam.Screens.Pages.{Screen, load_one, with_trail, form_page, answered}
pub mod Laws

abbrev pub is_no_season : Error → Bool
is_no_season no_season = true
is_no_season _ = false

-- A taken name is told at its box.
abbrev pub name_at_box : Error → Error
name_at_box season_name_taken = fail "name" taken
name_at_box e = e

abbrev pub season_path : UuidForm → Season → Text
season_path ids s = codes "/seasons/" ++ ids.text s.id

-- `ShowNew`
abbrev show_new : Answer
show_new = shown 200 []

-- `Create`
unfoldable pub create : UuidForm → Env → Form → Screen
unfolding answered redirect_saved
create ids env form w =
    let (start, day) = posted_day form "start_date" in
    answered (λ s. redirect_saved (season_path ids s)) name_at_box (day ∷ []) (form_page 422)
      (create_season env (form.value "name") start w)

module _ (ids : UuidForm) (env : Env) where
  -- `Show`
  unfoldable show : Text → Screen
  show raw = load_one ids is_no_season season raw (λ s. with_trail env "season" s.id 200 [])

  unfoldable pub save_season : Form → Season → Screen
  unfolding answered redirect_saved
  save_season form s w =
      let (start, day) = posted_day form "start_date" in
      let params : SeasonUpdateParams = record {
        name = form.value "name";
        start_date = start;
        active = posted_flag form "active";
      } in
      answered (λ u. redirect_saved (season_path ids s)) name_at_box (day ∷ [])
        (with_trail env "season" s.id 422) (update_season env s.id params w)

  -- `Save`
  unfoldable pub save : Text → Form → Screen
  unfolding save_season
  save raw form = load_one ids is_no_season season raw (save_season form)
