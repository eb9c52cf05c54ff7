-- ===== src/Tests/Lists.antt =====
-- Two rows of a milestone list.
use pilam.Prelude.{◌≡◌, ◌↔◌, refl, Bool, ◌&&◌, true, none, [], ◌∷◌, List, All, ◌+ℤ◌, ◌-ℤ◌}
use pilam.Prelude.Int.{floor_div, floor_mod}
use pilam.Prelude.Sort.{tally}
use pilam.Prelude.Text.{codes}
use pilam.Date.{day, of, civil, midnight, day_index}
use pilam.Date.Gregorian.{
  zero_time, civil_of, times, month_start, era_day, era_year, year_day, march_month,
}
use pilam.Milestones.Rules.{late}
use pilam.Milestones.Store.Lists.{ListRow, ListParams}
use pilam.Milestones.Listed.{listed, with_state}
use pilam.Milestones.Listed.Filter.{Keeps}
use pilam.Milestones.Listed.Laws.{IsPlanned, IsWorstFirst, listed_lem}
use pilam.Schema.{Milestone}
use pilam.Tests.Rules.{on, row}

abbrev listing : Milestone → ListRow
listing m = record {
  milestone = m;
  state = none;
  type_name = codes "T";
  article = codes "ART-1";
  drop_id = 4;
  drop_name = codes "D";
}

abbrev rows : List ListRow
rows = listing (row 1 739690 zero_time true) ∷ listing (row 2 739705 zero_time true) ∷ []

abbrev filter : ListParams
filter = record {
  season_id = 3;
  drop_id = 0;
  type_id = 0;
  states = late ∷ [];
  search = codes "art 1";
}

rows-IsPlanned : All IsPlanned rows
unfolding day of civil civil_of midnight times month_start era_day era_year year_day march_month
    floor_div floor_mod day_index ◌+ℤ◌ ◌-ℤ◌
rows-IsPlanned = (refl, (refl, tt))

listed_lem_example :
    IsWorstFirst (listed rows filter (on 739710))
    × ((keep : ListRow → Bool) × ((r : ListRow) → (keep r ≡ true) ↔ Keeps filter (on 739710) r)
        × ((p : ListRow → Bool)
            → tally p (listed rows filter (on 739710))
              ≡ tally (λ r. keep r && p (with_state (on 739710) r)) rows))
listed_lem_example = listed_lem rows filter (on 739710) rows-IsPlanned
