-- ===== src/Tests/Calendar.antt =====
-- A plan date of the calendar moves.
use pilam.Prelude.{◌≡◌, refl, true, List, [], ◌∷◌, take, map, if◌then◌else◌}
use pilam.Prelude.Text.{itoa, digits_of}
use pilam.Prelude.Int.{floor_div, floor_mod, quot, ◌+ℤ◌, ◌-ℤ◌}
use pilam.Prelude.Sort.{sort_by, insert_by}
use pilam.Errors.{Result, ok}
use pilam.Date.{
  days, sub_time, add_days, after, day, of, civil, midnight, day_index, iso, padded, pad, year_text,
}
use pilam.Date.Gregorian.{
  zero_time, civil_of, times, month_start, era_day, era_year, year_day, march_month,
}
use pilam.World.{World, in_tx, settle, can_commit, items_apart, photos_apart, new_id}
use pilam.Milestones.Rules.{Move, move, cascade, carried, carries}
use pilam.Milestones.Store.Calendar as Rows
use pilam.Trail.{
  record_trail, record_changes, from_context, stamp_all, check, insert_entry, insert_entries,
  store_entries,
}
use pilam.Milestones.Calendar.{moves, write_moves, move_plan}
use pilam.Milestones.Calendar.Written.{HasKeys, planned}
use pilam.Milestones.Calendar.Preview.{move_plan-moves}
use pilam.Milestones.Calendar.History.{TellsMoves, move_plan-TellsMoves}
use pilam.Tests.Rules.{on, row, moved}
use pilam.Tests.Base.{env, world}

abbrev pub kept : List Move
kept = move moved (on 739705) ∷ move (row 3 739710 zero_time true) (on 739715) ∷ []

abbrev pub run : Result (List Move) × World
run = move_plan env 2 (on 739705) true world

pub moved_on : move_plan env 2 (on 739705) true world ≡ (ok kept, run.1)
unfolding move_plan moves write_moves Rows.by_id Rows.by_model Rows.plan_order Rows.update sort_by
    insert_by cascade carried carries days sub_time add_days after day of civil civil_of midnight
    times month_start era_day era_year year_day march_month floor_div floor_mod quot day_index ◌+ℤ◌
    ◌-ℤ◌ iso padded pad year_text itoa digits_of in_tx settle can_commit items_apart photos_apart
    new_id record_trail record_changes from_context stamp_all check insert_entry insert_entries
    store_entries
moved_on = refl

pub keyed : HasKeys world.tables.milestones
keyed = (refl, (refl, (refl, (refl, (refl, tt)))))

move_plan-moves_example :
    (found : List Move) × (moves 2 (on 739705) world ≡ (ok found, world))
    × (kept ≡ (if true then found else take 1 found))
    × (run.1.tables.milestones ≡ map (planned kept) world.tables.milestones)
move_plan-moves_example = move_plan-moves env 2 (on 739705) true world run.1 kept keyed moved_on

move_plan-TellsMoves_example : TellsMoves kept world.tables.trail run.1.tables.trail
move_plan-TellsMoves_example = move_plan-TellsMoves env 2 (on 739705) true world run.1 kept moved_on
