-- ===== src/Milestones/Rules/States.antt =====
-- The state of a milestone, by the day numbers of its dates.
use pilam.Prelude.{
  Bool, not, refl, ltb_ℤ, if◌then◌else◌, ℤ, ◌≡◌, ◌↔◌, true, false, pos, ◌+ℤ◌, ◌≤ℤ◌, ◌<ℤ◌, arith,
}
use pilam.Date.{is_zero, day_index, add_days}
use pilam.Prelude.Int.{+ℤ_parts}
use pilam.Date.Laws.{before-index, after-index, day_index-add_days}
use pilam.Date.Gregorian.{Time}
use pilam.Schema.{Milestone}
use pilam.Milestones.Rules.{State, done, late, due, planned, state, due_window}

-- What each state says of the dates, by day numbers.
abbrev ReadsBy : Bool → ℤ → ℤ → State → Type 0
ReadsBy no_fact p t done = no_fact ≡ false
ReadsBy no_fact p t late = (no_fact ≡ true) × (p <ℤ t)
ReadsBy no_fact p t due = (no_fact ≡ true) × (t ≤ℤ p) × (p ≤ℤ t +ℤ pos 7)
ReadsBy no_fact p t planned = (no_fact ≡ true) × (t +ℤ pos 7 <ℤ p)

abbrev pub Reads : Milestone → Time → State → Type 0
Reads m today s = ReadsBy (is_zero m.fact) (day_index m.plan) (day_index today) s

-- `state` over the day numbers of the plan date and of today.
abbrev state_by : Bool → ℤ → ℤ → State
state_by no_fact p t =
    if not no_fact
    then done
    else if ltb_ℤ p t
    then late
    else if not (ltb_ℤ (t +ℤ pos 7) p)
    then due
    else planned

state-eq-state_by :
    (m : Milestone) (today : Time)
    → state m today ≡ state_by (is_zero m.fact) (day_index m.plan) (day_index today)
unfolding state
state-eq-state_by m today =
    rw
      (
        before-index m.plan today,
        after-index m.plan (add_days today due_window),
        day_index-add_days today due_window,
      )
      refl

-- A milestone reads as a state exactly when its dates say so: done with a fact date; without one
-- late when the plan day is before today, due from today to seven days on, and planned after
-- them.
pub state-Reads : (m : Milestone) (today : Time) (s : State) → (state m today ≡ s) ↔ Reads m today s
state-Reads m today s =
    rw (state-eq-state_by m today) (by_case (is_zero m.fact) (day_index m.plan) (day_index today) s)
  where
    by_case : (z : Bool) (p t : ℤ) (s : State) → (state_by z p t ≡ s) ↔ ReadsBy z p t s
    by_case z p t done =
        (λ h. ground (arith, +ℤ_parts t (pos 7)), λ h. ground (arith, +ℤ_parts t (pos 7)))
    by_case z p t late =
        (λ h. ground (arith, +ℤ_parts t (pos 7)), λ h. ground (arith, +ℤ_parts t (pos 7)))
    by_case z p t due =
        (λ h. ground (arith, +ℤ_parts t (pos 7)), λ h. ground (arith, +ℤ_parts t (pos 7)))
    by_case z p t planned =
        (λ h. ground (arith, +ℤ_parts t (pos 7)), λ h. ground (arith, +ℤ_parts t (pos 7)))
