-- ===== src/Milestones/Store/Calendar.antt =====
-- internal/postgres/milestone_calendar.go: the table milestone.
use pilam.Prelude.{
  ℕ, Bool, not, ◌&&◌, ◌||◌, Option, none, some, List, [], ◌∷◌, ◌++◌, any, length, find_first,
  keep_if, map, ltb, leb, ltb_ℤ, eq_ℤ, if◌then◌else◌, ◌==◌, ℕ_eq, List_eq,
}
use pilam.Prelude.Sort.{sort_by}
use pilam.Errors.{
  no_milestone, no_calendar_model, milestone_id_taken, type_on_model, constraint_failed, ok, err,
}
use pilam.Date.Gregorian.{Time}
use pilam.Ids.{Uuid}
use pilam.Schema.{MilestoneType, Milestone, Model, Drop, Tables}
use pilam.World.{Action, ◌>>=◌, ◌>>◌, pure, reads, or_raise}

unfoldable pub by_id : Uuid → Action Milestone
by_id id = do
  row ← reads (λ t. find_first (λ (r : Milestone). r.id == id) t.milestones)
  or_raise no_milestone row

-- ORDER BY plan_date, id
unfoldable pub plan_order : Milestone → Milestone → Bool
plan_order a b =
    if eq_ℤ a.plan.instant b.plan.instant
    then leb a.id b.id
    else ltb_ℤ a.plan.instant b.plan.instant

unfoldable pub by_model : Uuid → Action (List Milestone)
unfolding plan_order
by_model model_id =
    reads
      (λ t. sort_by plan_order (keep_if (λ (r : Milestone). r.model_id == model_id) t.milestones))

abbrev max_note : ℕ
max_note = 500

unfoldable insert : Milestone → Action (Unit {0})
insert row w =
    if ltb max_note (length row.note)
    then (err constraint_failed, w)
    else if any (λ (r : Milestone). r.id == row.id) w.tables.milestones
    then (err milestone_id_taken, w)
    else if any (λ (r : Milestone). (r.model_id == row.model_id) && (r.type_id == row.type_id))
        w.tables.milestones
    then (err type_on_model, w)
    else if not (any (λ (r : Model). r.id == row.model_id) w.tables.models)
        || not (any (λ (r : MilestoneType). r.id == row.type_id) w.tables.types)
    then (err constraint_failed, w)
    else (
      ok tt,
      record w { tables = record w.tables { milestones = w.tables.milestones ++ row ∷ [] } },
    )

unfoldable pub create : List Milestone → Action (Unit {0})
unfolding insert
create [] = pure tt
create (row ∷ rows) = do insert row; create rows

abbrev pub edited : Milestone → Milestone → Milestone
edited row r =
    if r.id == row.id
    then record r {
      baseline = row.baseline;
      plan = row.plan;
      fact = row.fact;
      note = row.note;
      active = row.active;
    }
    else r

-- UpdateMilestone leaves the model and the type of the row alone.
unfoldable pub update : Milestone → Action (Unit {0})
update row w =
    if not (any (λ (r : Milestone). r.id == row.id) w.tables.milestones)
    then (err no_milestone, w)
    else if ltb max_note (length row.note)
    then (err constraint_failed, w)
    else (
      ok tt,
      record w { tables = record w.tables { milestones = map (edited row) w.tables.milestones } },
    )

-- GetModelTargetDate: the target date of the drop that holds the model.
abbrev target_in : Tables → Uuid → Option Time
target_in t model_id = elim (find_first (λ (m : Model). m.id == model_id) t.models) [
  | none ↦ none
  | some m ↦ elim (find_first (λ (d : Drop). d.id == m.drop_id) t.drops) [
    | none ↦ none
    | some d ↦ some d.target_date
  ]
]

unfoldable pub target : Uuid → Action Time
target model_id = do found ← reads (λ t. target_in t model_id); or_raise no_calendar_model found
