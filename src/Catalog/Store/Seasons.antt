-- ===== src/Catalog/Store/Seasons.antt =====
-- internal/postgres/catalog_season.go: the table season.
use pilam.Prelude.{
  Bool, not, ◌&&◌, List, [], ◌∷◌, ◌++◌, any, find_first, map, ltb_ℤ, eq_ℤ, if◌then◌else◌, ◌==◌,
  ◌!=◌, ℕ_eq, List_eq,
}
use pilam.Prelude.Text.{to_lower}
use pilam.Prelude.Sort.{sort_by}
use pilam.Errors.{no_season, season_name_taken, catalog_id_taken, ok, err}
use pilam.Ids.{Uuid}
use pilam.Schema.{Season}
use pilam.World.{Env, Action, ◌>>=◌, reads, or_raise}
use pilam.Milestones.Store.Names.{by_name}

-- The unique index season_name_key on lower(name), seen from the row that is written.
abbrev season_named : Season → Season → Bool
season_named row other = (other.id != row.id) && (to_lower other.name == to_lower row.name)

unfoldable pub by_id : Uuid → Action Season
by_id id = do
  row ← reads (λ t. find_first (λ (r : Season). r.id == id) t.seasons)
  or_raise no_season row

-- ORDER BY start_date, name
abbrev season_order : Env → Season → Season → Bool
season_order env a b =
    if eq_ℤ a.start_date.instant b.start_date.instant
    then by_name env a.name b.name
    else ltb_ℤ a.start_date.instant b.start_date.instant

unfoldable pub list : Env → Action (List Season)
list env = reads (λ t. sort_by (season_order env) t.seasons)

unfoldable pub create : Season → Action (Unit {0})
create row w =
    if any (λ (r : Season). r.id == row.id) w.tables.seasons
    then (err catalog_id_taken, w)
    else if any (season_named row) w.tables.seasons
    then (err season_name_taken, w)
    else (ok tt, record w { tables = record w.tables { seasons = w.tables.seasons ++ row ∷ [] } })

unfoldable pub update : Season → Action (Unit {0})
update row w =
    if not (any (λ (r : Season). r.id == row.id) w.tables.seasons)
    then (err no_season, w)
    else if any (season_named row) w.tables.seasons
    then (err season_name_taken, w)
    else (
      ok tt,
      record w {
        tables = record w.tables {
          seasons = map (λ r. if r.id == row.id then row else r) w.tables.seasons;
        };
      },
    )
