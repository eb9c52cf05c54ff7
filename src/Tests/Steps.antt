-- ===== src/Tests/Steps.antt =====
-- A step of a calendar is saved on the card of its model.
use pilam.Prelude.{
  ◌≡◌, refl, true, false, some, none, [], if◌then◌else◌, ◌==◌, String_eq, ℕ_eq, List_eq, ap, ◌∙◌,
  List, take, map,
}
use pilam.Prelude.Text.{Text, codes, trim_space, is_space}
use pilam.Errors.{ok}
use pilam.Milestones.Calendar.{moves, move_plan, check_milestone}
use pilam.Milestones.Calendar.Written.{planned}
use pilam.Milestones.Calendar.History.{TellsMoves}
use pilam.Milestones.Rules.{Move}
use pilam.Schema.{Model}
use pilam.Date.{parse}
use pilam.Screens.{Form, posted_day, posted_flag, read_day, joined}
use pilam.Validate.{fail, err_of, max_len, check, add, has, get}
use pilam.Errors.{not_allowed}
use pilam.Date.{is_zero, of, midnight, civil, after, day, day_index}
use pilam.Date.Gregorian.{times, month_start, era_day, civil_of, era_year, march_month, year_day}
use pilam.Prelude.Int.{floor_div, floor_mod, ◌+ℤ◌, ◌-ℤ◌}
use pilam.Screens.Calendar.{save, save_row, refuse_save, edit, pressed}
use pilam.Screens.Calendar.Saves.{SaveEnds, save-SaveEnds, save_row-moves}
use pilam.Accounts.Principals.{parse_id}
use pilam.Tests.Base.{env, world}
use pilam.Tests.Rules.{on}
use pilam.Tests.Calendar.{kept, run, keyed, moved_on}
use pilam.Tests.Sessions.{form}

-- The plan date moves with the rows after it, and the fact date lies ahead of today.
abbrev early : Form
early = record {
  value = λ field.
      if field == "plan_date"
      then codes "2026-03-31"
      else if field == "fact_date"
      then codes "2026-07-04"
      else if field == "row_action"
      then []
      else codes "yes";
  values = λ field. [];
}

abbrev card : Model
card = record { id = 1; drop_id = 4; article = codes "A-1"; active = true }

abbrev two : Text
two = form.text 2

named : parse_id form two ≡ some 2
unfolding parse_id
named = refl

save-SaveEnds_example :
    SaveEnds form env (form.text 1) early 2 world (save form env (form.text 1) two early world)
save-SaveEnds_example = save-SaveEnds form env (form.text 1) early two 2 world named refl

reads_plan : (posted_day early "plan_date").0 ≡ on 739705
unfolding read_day trim_space is_space parse of midnight times ◌+ℤ◌ month_start ◌-ℤ◌ floor_div
    floor_mod era_day
reads_plan = refl

readable : joined (posted_day early "plan_date").1 (posted_day early "fact_date").1 ≡ none
unfolding read_day trim_space is_space parse
readable = refl

dated : is_zero (posted_day early "plan_date").0 ≡ false
dated = ap is_zero reads_plan

runs : move_plan env 2 (posted_day early "plan_date").0 true world ≡ (ok kept, run.1)
runs = ap (λ plan. move_plan env 2 plan true world) reads_plan ∙ moved_on

too_early :
    check_milestone env (edit form env (form.text 1) early card 2)
    ≡ some (fail "fact_date" not_allowed)
unfolding check_milestone pressed err_of max_len check add has get trim_space is_space read_day
    parse of midnight times ◌+ℤ◌ month_start ◌-ℤ◌ floor_div floor_mod era_day civil civil_of
    era_year march_month year_day after day day_index
too_early = refl

save_row-moves_example :
    (found : List Move) × (moves 2 (posted_day early "plan_date").0 world ≡ (ok found, world))
    × (kept ≡ (if posted_flag early "shift" then found else take 1 found))
    × (save_row form env (form.text 1) early card 2 world
        ≡ refuse_save form env (form.text 1) early card 2 (fail "fact_date" not_allowed) run.1)
    × ((save_row form env (form.text 1) early card 2 world).1.tables.milestones
        ≡ map (planned kept) world.tables.milestones)
    × TellsMoves kept world.tables.trail
        (save_row form env (form.text 1) early card 2 world).1.tables.trail
save_row-moves_example =
    save_row-moves form env (form.text 1) early card 2 world run.1 kept
      (fail "fact_date" not_allowed) keyed readable dated too_early runs
