-- ===== src/Catalog/Drops.antt =====
-- internal/catalog/drop.go: the drops of a season.
use pilam.Prelude.{
  not, Option, List, [], ◌∷◌, ◌++◌, Bool, true, ◌!=◌, Bool_eq, List_eq, ℕ_eq, if◌then◌else◌,
}
use pilam.Prelude.Text.{Text, trim_space}
use pilam.Errors.{Error, required}
use pilam.Date.{is_zero, day, equal}
use pilam.Date.Gregorian.{Time}
use pilam.Ids.{Uuid, nil_id}
use pilam.Schema.{Change, Drop}
use pilam.Validate.{ready, require, check, err_of}
use pilam.World.{Env, Action, ◌>>=◌, ◌>>◌, pure, raise_some, new_id, in_tx}
use pilam.Trail.{record_trail}
use pilam.Catalog.Facts.{change, moved_text, moved_day, moved_active}
use pilam.Catalog.Store.Seasons as SeasonRows
use pilam.Catalog.Store.Drops as Rows

pub record DropCreateParams : Type 0 where
  pub season_id : Uuid
  pub name : Text
  pub target_date : Time

pub record DropUpdateParams : Type 0 where
  pub name : Text
  pub target_date : Time
  pub active : Bool

-- `Drop` and `ListDrops`
unfoldable pub drop : Uuid → Action Drop
drop id = Rows.by_id id

unfoldable pub list_drops : Env → Uuid → Action (List Drop)
list_drops env season_id = Rows.list_by_season env season_id

-- The rejections of a creation.
unfoldable pub check_drop : DropCreateParams → Option Error
check_drop p =
    let v = (require ready "name" (trim_space p.name)).0 in
    let v' = (check v (p.season_id != nil_id) "season_id" required).0 in
    err_of (check v' (not (is_zero p.target_date)) "target_date" required).0.errs

abbrev pub drop_row : Uuid → DropCreateParams → Drop
drop_row id p = record {
  id = id;
  season_id = p.season_id;
  name = trim_space p.name;
  target_date = day p.target_date;
  active = true;
}

-- The write of `CreateDrop`.
abbrev pub write_new : Env → Drop → Action Drop
write_new env row = in_tx (do
  Rows.create row
  record_trail env (change "drop" row.id "created" "" [] row.name ∷ [])
  pure row)

-- `CreateDrop`
unfoldable pub create_drop : Env → DropCreateParams → Action Drop
unfolding check_drop
create_drop env p = do
  raise_some (check_drop p)
  SeasonRows.by_id p.season_id
  id ← new_id env
  write_new env (drop_row id p)

-- The rejections of an update.
unfoldable pub check_drop_update : DropUpdateParams → Option Error
check_drop_update p =
    err_of
      (check (require ready "name" (trim_space p.name)).0 (not (is_zero p.target_date))
        "target_date" required).0.errs

-- The entries of an update, in the order of its fields.
unfoldable pub drop_changes : Drop → DropUpdateParams → List Change
drop_changes row p =
    moved_text (change "drop" row.id) "name" row.name (trim_space p.name)
    ++ (moved_day (change "drop" row.id) "target_date" row.target_date (day p.target_date)
        ++ moved_active (change "drop" row.id) row.active p.active)

-- The row after the update: a target date of the same day stays as it is.
unfoldable pub edited_drop : Drop → DropUpdateParams → Drop
edited_drop row p = record row {
  name = trim_space p.name;
  target_date =
      if not (equal (day p.target_date) row.target_date)
      then day p.target_date
      else row.target_date;
  active = p.active;
}

unfoldable pub write_drop : Env → Drop → List Change → Action (Unit {0})
write_drop env row [] = pure tt
write_drop env row (c ∷ changes) = in_tx (Rows.update row >> record_trail env (c ∷ changes))

-- `UpdateDrop`
unfoldable pub update_drop : Env → Uuid → DropUpdateParams → Action (Unit {0})
unfolding check_drop_update drop_changes edited_drop write_drop
update_drop env id p = do
  raise_some (check_drop_update p)
  row ← Rows.by_id id
  write_drop env (edited_drop row p) (drop_changes row p)
