-- ===== src/Catalog/Current.antt =====
-- `CurrentSeason` of internal/catalog/season.go: the season that a screen opens on.
use pilam.Prelude.{
  Bool, true, false, not, ◌||◌, List, [], ◌∷◌, ltb_ℤ, if◌then◌else◌, ◌==◌, ◌!=◌, ℕ_eq,
}
use pilam.Prelude.Text.{Order, compare_text}
use pilam.Prelude.Orders.{is_more, is_less}
use pilam.Date.{compare_time, equal, after}
use pilam.Date.Gregorian.{Time, zero_time}
use pilam.Ids.{nil_id}
use pilam.Schema.{Season}
pub mod Best
pub mod Orders
pub mod Laws

-- `startOrder`
unfoldable pub start_order : Season → Season → Order
start_order a b =
    if not (equal a.start_date b.start_date)
    then compare_time a.start_date b.start_date
    else compare_text a.name b.name

abbrev pub later : Season → Season → Bool
later a b = is_more (start_order a b)

abbrev pub earlier : Season → Season → Bool
earlier a b = is_less (start_order a b)

-- The zero season, which holds no season.
abbrev pub no_season_yet : Season
no_season_yet = record { id = nil_id; name = []; start_date = zero_time; active = false }

-- The three seasons that the loop keeps.
pub record Picks : Type 0 where
  pub started : Season
  pub coming : Season
  pub newest : Season

-- A pick after one more season.
abbrev pub pick : (Season → Season → Bool) → Season → Season → Season
pick better held season = if (held.id == nil_id) || better season held then season else held

-- The body of the loop.
unfoldable pub take_season : Time → Picks → Season → Picks
take_season today picks season =
    let seen = record picks { newest = pick later picks.newest season } in
    if not season.active
    then seen
    else if after season.start_date today
    then record seen { coming = pick earlier picks.coming season }
    else record seen { started = pick later picks.started season }

unfoldable pub pick_all : Time → Picks → List Season → Picks
unfolding take_season
pick_all today picks [] = picks
pick_all today picks (season ∷ seasons) = pick_all today (take_season today picks season) seasons

abbrev pub no_picks : Picks
no_picks = record { started = no_season_yet; coming = no_season_yet; newest = no_season_yet }

unfoldable pub choose : Picks → Season
choose picks =
    if picks.started.id != nil_id
    then picks.started
    else if picks.coming.id != nil_id
    then picks.coming
    else picks.newest

-- `CurrentSeason`
unfoldable pub current_season : List Season → Time → Season
unfolding pick_all choose
current_season seasons today = choose (pick_all today no_picks seasons)
