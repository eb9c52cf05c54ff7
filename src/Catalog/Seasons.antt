-- ===== src/Catalog/Seasons.antt =====
-- internal/catalog/season.go: the seasons.
use pilam.Prelude.{
  not, Option, List, [], ◌∷◌, ◌++◌, Bool, true, Bool_eq, List_eq, ℕ_eq, if◌then◌else◌,
}
use pilam.Prelude.Text.{Text, trim_space}
use pilam.Errors.{Error, required}
use pilam.Date.{is_zero, day, equal}
use pilam.Date.Gregorian.{Time}
use pilam.Ids.{Uuid}
use pilam.Schema.{Change, Season}
use pilam.Validate.{ready, require, check, err_of}
use pilam.World.{Env, Action, ◌>>=◌, ◌>>◌, pure, raise_some, new_id, in_tx}
use pilam.Trail.{record_trail}
use pilam.Catalog.Facts.{change, moved_text, moved_day, moved_active}
use pilam.Catalog.Store.Seasons as Rows

pub record SeasonUpdateParams : Type 0 where
  pub name : Text
  pub start_date : Time
  pub active : Bool

-- `Season` and `ListSeasons`
unfoldable pub season : Uuid → Action Season
season id = Rows.by_id id

unfoldable pub list_seasons : Env → Action (List Season)
list_seasons env = Rows.list env

-- The rejections of a creation and of an update.
unfoldable pub check_season : Text → Time → Option Error
check_season name start =
    err_of (check (require ready "name" name).0 (not (is_zero start)) "start_date" required).0.errs

-- The write of `CreateSeason`.
abbrev pub write_new : Env → Season → Action Season
write_new env row = in_tx (do
  Rows.create row
  record_trail env (change "season" row.id "created" "" [] row.name ∷ [])
  pure row)

abbrev pub new_season : Text → Time → Uuid → Season
new_season name start id = record {
  id = id;
  name = trim_space name;
  start_date = day start;
  active = true;
}

-- `CreateSeason`
unfoldable pub create_season : Env → Text → Time → Action Season
create_season env name start = do
  raise_some (check_season (trim_space name) start)
  id ← new_id env
  write_new env (new_season name start id)

-- The entries of an update, in the order of its fields.
unfoldable pub season_changes : Season → SeasonUpdateParams → List Change
season_changes row p =
    moved_text (change "season" row.id) "name" row.name (trim_space p.name)
    ++ (moved_day (change "season" row.id) "start_date" row.start_date (day p.start_date)
        ++ moved_active (change "season" row.id) row.active p.active)

-- The row after the update: a start date of the same day stays as it is.
unfoldable pub edited_season : Season → SeasonUpdateParams → Season
edited_season row p = record row {
  name = trim_space p.name;
  start_date =
      if not (equal (day p.start_date) row.start_date) then day p.start_date else row.start_date;
  active = p.active;
}

unfoldable pub write_season : Env → Season → List Change → Action (Unit {0})
write_season env row [] = pure tt
write_season env row (c ∷ changes) = in_tx (Rows.update row >> record_trail env (c ∷ changes))

-- `UpdateSeason`
unfoldable pub update_season : Env → Uuid → SeasonUpdateParams → Action (Unit {0})
unfolding season_changes edited_season write_season
update_season env id p = do
  raise_some (check_season (trim_space p.name) p.start_date)
  row ← Rows.by_id id
  write_season env (edited_season row p) (season_changes row p)
