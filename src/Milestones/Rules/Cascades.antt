-- ===== src/Milestones/Rules/Cascades.antt =====
-- The rows that a cascade moves, and by how much.
use pilam.Prelude.{
  ◌==◌, ◌≡◌, ◌≢◌, ◌↔◌, refl, true, List, [], ◌∷◌, ℤ, pos, ◌+ℤ◌, ◌-ℤ◌, ◌<ℤ◌, ltb_ℤ, arith, All,
  keep_if, map, Bool-cases, inl, inr, if◌then◌else◌, ap, ◌∙◌,
}
use pilam.Prelude.Int.{int_laws, ℤ-Eq, +ℤ_parts, -ℤ_parts, eq_of_parts}
use pilam.Date.{is_zero, day_index, day, days, add_days}
use pilam.Date.Laws.{
  after-index, day_index-add_days, day_index-day, days-index, max_days, clamp_days, InRange,
  days-InRange,
}
use pilam.Date.Gregorian.{Time}
use pilam.Schema.{Milestone}
use pilam.Milestones.Rules.{Move, move, carries, carried, cascade}

-- The rows that are carried are those that `carries` names, in the order of the calendar, and each
-- moves by the shift.
carried-keep_if :
    (moved : Milestone) (shift : ℤ) (held : List Milestone)
    → carried moved shift held
      ≡ map (λ one. move one (add_days one.plan shift)) (keep_if (carries moved) held)
unfolding carried
carried-keep_if moved shift [] = refl
carried-keep_if moved shift (one ∷ held) = elim (Bool-cases (carries moved one)) [
  | inl moves ↦
      rw moves (ap (λ l. move one (add_days one.plan shift) ∷ l) (carried-keep_if moved shift held))
  | inr stays ↦ rw stays (carried-keep_if moved shift held)
]

-- A row is carried exactly when it is another row, active and not done, of a later plan day than
-- the day that the moved row leaves.
pub carries_iff :
    (moved one : Milestone)
    → (carries moved one ≡ true) ↔ (
        (one.id ≢ moved.id)
        × (one.active ≡ true)
        × (is_zero one.fact ≡ true)
        × (day_index moved.plan <ℤ day_index one.plan))
unfolding carries
carries_iff moved one =
    rw (after-index one.plan moved.plan)
      (λ h. (ground arith, ground arith, ground arith, ground arith), λ h. ground arith)

-- `m` moves as many days as lie between two dates.
abbrev pub Shifts : Time → Time → Move → Type 0
Shifts from to m = day_index m.plan ≡ day_index m.milestone.plan +ℤ (day_index to -ℤ day_index from)

first_shift : (moved : Milestone) (typed : Time) → Shifts moved.plan typed (move moved (day typed))
first_shift moved typed = rw (day_index-day typed) (eq_of_parts _ _ (omega int_laws))

days-day : (a b : Time) → days a (day b) ≡ days a b
days-day a b = rw (days-index a (day b), days-index a b, day_index-day b) refl

-- The cascade by the number of days that the plan date moves: nothing for none, the moved row alone
-- for an earlier date, and for a later one also every row that `carries` names.
abbrev pub cascade_by : List Milestone → Milestone → Time → ℤ → List Move
cascade_by held moved typed shift =
    if shift == pos 0
    then []
    else if ltb_ℤ shift (pos 0)
    then move moved (day typed) ∷ []
    else move moved (day typed)
      ∷ map (λ one. move one (add_days one.plan shift)) (keep_if (carries moved) held)

cascade-eq-cascade_by :
    (held : List Milestone) (moved : Milestone) (typed : Time)
    → cascade held moved typed ≡ cascade_by held moved typed (days moved.plan typed)
unfolding cascade
cascade-eq-cascade_by held moved typed =
    rw (days-day moved.plan typed, carried-keep_if moved (days moved.plan typed) held) refl

-- For a plan date within 106751 days of the plan date of the moved row, a cascade holds nothing
-- for the same day, the moved row alone for an earlier day, and for a later day the moved row
-- and then every row that `carries` names, in the order of the calendar, each moved by the
-- number of days that the plan date moves.
pub cascade_lem :
    (held : List Milestone) (moved : Milestone) (typed : Time)
    → InRange moved.plan typed
    → cascade held moved typed
      ≡ cascade_by held moved typed (day_index typed -ℤ day_index moved.plan)
cascade_lem held moved typed r =
    cascade-eq-cascade_by held moved typed
    ∙ ap (cascade_by held moved typed) (days-InRange moved.plan typed r)

map-Shifts :
    (f : Milestone → Time) (from to : Time) (held : List Milestone)
    → ((one : Milestone) → Shifts from to (move one (f one)))
    → All (Shifts from to) (map (λ one. move one (f one)) held)
map-Shifts f from to [] h = tt
map-Shifts f from to (one ∷ held) h = (h one, map-Shifts f from to held h)

cascade_by-Shifts :
    (held : List Milestone) (moved : Milestone) (typed : Time) (shift : ℤ)
    → shift ≡ day_index typed -ℤ day_index moved.plan
    → All (Shifts moved.plan typed) (cascade_by held moved typed shift)
cascade_by-Shifts held moved typed shift e = elim (Bool-cases (shift == pos 0)) [
  | inl none_moves ↦ rw none_moves tt
  | inr moves ↦ elim (Bool-cases (ltb_ℤ shift (pos 0))) [
    | inl sooner ↦ rw (moves, sooner) (first_shift moved typed, tt)
    | inr later ↦
        rw (moves, later)
          (
            first_shift moved typed,
            map-Shifts (λ one. add_days one.plan shift) moved.plan typed _
                (λ one. day_index-add_days one.plan shift ∙ ap (λ d. day_index one.plan +ℤ d) e),
          )
  ]
]

-- For a plan date within 106751 days of the plan date of the moved row, every move of a cascade
-- is by the same number of days: those between the two dates.
pub cascade-Shifts :
    (held : List Milestone) (moved : Milestone) (typed : Time)
    → InRange moved.plan typed
    → All (Shifts moved.plan typed) (cascade held moved typed)
cascade-Shifts held moved typed r =
    rw (cascade_lem held moved typed r) (cascade_by-Shifts held moved typed _ refl)

-- A plan date more than 106751 days later is taken by the moved row, while the rows that it
-- carries move by 106751 days.
pub cascade_far :
    (held : List Milestone) (moved : Milestone) (typed : Time)
    → day_index moved.plan +ℤ pos max_days <ℤ day_index typed
    → cascade held moved typed
      ≡ move moved (day typed)
        ∷ map (λ one. move one (add_days one.plan (pos max_days))) (keep_if (carries moved) held)
cascade_far held moved typed far =
    cascade-eq-cascade_by held moved typed
    ∙ ap (cascade_by held moved typed)
        (days-index moved.plan typed ∙ clamped (day_index moved.plan) (day_index typed) far)
  where
    clamped : (f t : ℤ) → f +ℤ pos max_days <ℤ t → clamp_days (t -ℤ f) ≡ pos max_days
    clamped f t h = ground (arith, -ℤ_parts t f, +ℤ_parts f (pos max_days))
