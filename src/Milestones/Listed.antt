-- ===== src/Milestones/Listed.antt =====
-- internal/milestones/list.go: the milestone list of a season, worst slip first.
use pilam.Prelude.{
  Bool, true, false, not, ◌&&◌, ◌||◌, Option, none, some, List, [], ◌∷◌, any, all, eq_ℤ, ltb_ℤ,
  ◌-ℤ◌, pos, if◌then◌else◌,
}
use pilam.Prelude.Text.{Text, Order, less, same, more, fields, to_lower, contains, compare_text}
use pilam.Prelude.Sort.{sort_by}
use pilam.Prelude.Orders.{is_more, then_by, compare_nat, compare_int}
use pilam.Date.{compare_time, equal}
use pilam.Date.Gregorian.{Time}
use pilam.Ids.{Uuid}
use pilam.World.{Env, Action, today, ◌>>=◌, pure}
use pilam.Milestones.Rules.{State, done, late, due, planned, state, slip}
use pilam.Milestones.Store.Lists as Rows
use pilam.Milestones.Store.Lists.{ListRow, ListParams, NoCalendar}
pub mod Filter
pub mod Laws

-- `LateAndDue`
abbrev late_and_due : List State
late_and_due = late ∷ due ∷ []

abbrev pub same_state : State → State → Bool
same_state done done = true
same_state late late = true
same_state due due = true
same_state planned planned = true
same_state _ _ = false

-- `holdsState`: a filter that names no state keeps every row.
unfoldable pub holds_state : List State → State → Bool
holds_state [] s = true
holds_state (t ∷ states) s = any (λ u. same_state u s) (t ∷ states)

-- `matches`
unfoldable pub matches : Text → List Text → Bool
unfolding contains
matches article terms = all (contains (to_lower article)) terms

-- `worstSlipFirst`. The canonical text of an identifier is in the order of its number.
unfoldable pub worst_slip_first : ListRow → ListRow → Order
unfolding slip
worst_slip_first a b =
    let apart = slip b.milestone -ℤ slip a.milestone in
    if not (eq_ℤ apart (pos 0))
    then (if ltb_ℤ apart (pos 0) then less else more)
    else if not (equal a.milestone.plan b.milestone.plan)
    then compare_time a.milestone.plan b.milestone.plan
    else then_by (compare_text a.article b.article) (compare_nat a.milestone.id b.milestone.id)

abbrev pub stands_before : ListRow → ListRow → Bool
stands_before a b = not (is_more (worst_slip_first a b))

-- The body of the loop of `Listed`.
abbrev pub with_state : Time → ListRow → ListRow
with_state today row = record row { state = some (state row.milestone today) }

unfoldable pub is_kept : ListParams → Time → ListRow → Bool
unfolding holds_state matches
is_kept filter today row =
    holds_state filter.states (state row.milestone today)
    && matches row.article (fields (to_lower filter.search))

unfoldable pub kept_rows : ListParams → Time → List ListRow → List ListRow
unfolding is_kept
kept_rows filter today [] = []
kept_rows filter today (row ∷ held) =
    let rest = kept_rows filter today held in
    if is_kept filter today row then with_state today row ∷ rest else rest

-- `Listed`
unfoldable pub listed : List ListRow → ListParams → Time → List ListRow
unfolding kept_rows worst_slip_first
listed held filter today = sort_by stands_before (kept_rows filter today held)

-- `ListMilestones`
unfoldable pub list_milestones : Env → ListParams → Action (List ListRow)
unfolding listed
list_milestones env filter = do held ← Rows.list filter; pure (listed held filter (today env))

-- `ModelsWithoutCalendar`
unfoldable models_without_calendar : Env → Uuid → Uuid → Action (List NoCalendar)
models_without_calendar env season_id drop_id = Rows.without_calendar env season_id drop_id
