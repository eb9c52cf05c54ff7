-- ===== src/Tests/Rules.antt =====
-- A calendar of four rows, whose second moves.
use pilam.Prelude.{
  ◌≡◌, ◌≢◌, ◌↔◌, refl, true, false, Bool, List, [], ◌∷◌, pos, ◌+ℤ◌, ◌-ℤ◌, ◌<ℤ◌, ◌*◌, map, keep_if,
  arith, ℕ,
}
use pilam.Prelude.Int.{floor_div, floor_mod}
use pilam.Date.{day_index, day, add_days, after, before, of, civil, midnight}
use pilam.Date.Gregorian.{
  Time, zero_time, civil_of, times, month_start, era_day, era_year, year_day, march_month,
}
use pilam.Date.Laws.{InRange, max_days}
use pilam.Ids.{Uuid}
use pilam.Schema.{Milestone}
use pilam.Milestones.Rules.{cascade, carries, state, move, due}
use pilam.Milestones.Rules.Cascades.{cascade_by, cascade_lem, cascade_far, carries_iff}
use pilam.Milestones.Rules.States.{state-Reads, Reads}
use pilam.Rearranges.{rearranges}
use pilam.Rearranges.Laws.{rearranges_iff, IsDistinct, SameItems}

abbrev pub on : ℕ → Time
on n = record { instant = pos (n * 86400000000000); offset = pos 0 }

abbrev pub row : Uuid → ℕ → Time → Bool → Milestone
row id plan fact active = record {
  id = id;
  model_id = 1;
  type_id = id;
  baseline = on 739700;
  plan = on plan;
  fact = fact;
  note = [];
  active = active;
}

abbrev pub moved : Milestone
moved = row 2 739700 zero_time true

abbrev pub held : List Milestone
held =
    row 1 739690 zero_time true
    ∷ moved
    ∷ row 3 739710 zero_time true
    ∷ row 4 739720 (on 739600) true
    ∷ row 5 739730 zero_time false
    ∷ []

-- The third row is carried, and neither the earlier, the done nor the retired one.
kept_rows : keep_if (carries moved) held ≡ row 3 739710 zero_time true ∷ []
unfolding carries after before day of civil civil_of midnight times month_start era_day era_year
    year_day march_month floor_div floor_mod day_index ◌+ℤ◌ ◌-ℤ◌
kept_rows = refl

within : InRange moved.plan (on 739705)
unfolding day_index floor_div ◌+ℤ◌
within = ground arith

cascade_lem_example :
    cascade held moved (on 739705)
    ≡ cascade_by held moved (on 739705) (day_index (on 739705) -ℤ day_index moved.plan)
cascade_lem_example = cascade_lem held moved (on 739705) within

carries_iff_example : (carries moved (row 3 739710 zero_time true) ≡ true) ↔ (
    ((row 3 739710 zero_time true).id ≢ moved.id)
    × (true ≡ true)
    × (true ≡ true)
    × (day_index moved.plan <ℤ day_index (on 739710)))
carries_iff_example = carries_iff moved (row 3 739710 zero_time true)

far : day_index moved.plan +ℤ pos max_days <ℤ day_index (on 900000)
unfolding day_index floor_div ◌+ℤ◌
far = ground arith

cascade_far_example :
    cascade held moved (on 900000)
    ≡ move moved (day (on 900000))
      ∷ map (λ one. move one (add_days one.plan (pos max_days))) (keep_if (carries moved) held)
cascade_far_example = cascade_far held moved (on 900000) far

state-Reads_example : (state moved (on 739695) ≡ due) ↔ Reads moved (on 739695) due
state-Reads_example = state-Reads moved (on 739695) due

rearranges_iff_example :
    (rearranges (1 ∷ 2 ∷ 3 ∷ []) (3 ∷ 1 ∷ 2 ∷ []) ≡ true)
    ↔ (IsDistinct (3 ∷ 1 ∷ 2 ∷ []) × SameItems (3 ∷ 1 ∷ 2 ∷ []) (1 ∷ 2 ∷ 3 ∷ []))
rearranges_iff_example = rearranges_iff (1 ∷ 2 ∷ 3 ∷ []) (3 ∷ 1 ∷ 2 ∷ [])
