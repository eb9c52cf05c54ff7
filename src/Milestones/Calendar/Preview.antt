-- ===== src/Milestones/Calendar/Preview.antt =====
-- The preview of a move of a plan date, and the move.
use pilam.Prelude.{
  ◌≡◌, refl, sym, ap, ◌∙◌, Bool, true, false, not, ◌&&◌, Option, none, some, List, [], ◌∷◌, ◌==◌,
  ℕ_eq, ltb, length, take, keep_if, find_first, if◌then◌else◌, map, All, arith,
}
use pilam.Prelude.Sort.{sort_by}
use pilam.Errors.{required, no_milestone, Result, ok, err}
use pilam.Date.{is_zero}
use pilam.Date.Gregorian.{Time}
use pilam.Ids.{Uuid}
use pilam.Schema.{Milestone, Tables}
use pilam.Validate.{fail}
use pilam.World.{Env, World, Action, ◌>>=◌, ◌>>◌, pure}
use pilam.World.Success.{bind-Answers, in_tx-Committed}
use pilam.Trail.{record_trail}
use pilam.Trail.Told.{Tells, record_trail-Tells}
use pilam.Milestones.Calendar.Written.{
  HasKeys, OfRow, planned, written, write_moves-ok, written-rows, cascade-OfRow, take-OfRow,
  sorted-FindsItself,
}
use mathlib.Core.Path.{subst}
use pilam.Milestones.Rules.{Move, cascade}
use pilam.Milestones.Calendar.{moves, move_plan, write_moves, move_change}
use pilam.Milestones.Store.Calendar as Rows

-- The rows of a model in the order of the calendar.
abbrev rows_of : Uuid → Tables → List Milestone
rows_of model_id t =
    sort_by Rows.plan_order (keep_if (λ (r : Milestone). r.model_id == model_id) t.milestones)

-- `moves` as a function of the tables.
abbrev moves_in : Uuid → Time → Tables → Result (List Move)
moves_in id plan t =
    if is_zero plan
    then err (fail "plan_date" required)
    else elim (find_first (λ (r : Milestone). r.id == id) t.milestones) [
      | none ↦ err no_milestone
      | some moved ↦ ok (cascade (rows_of moved.model_id t) moved plan)
    ]

-- The preview of the moves answers by the tables, and leaves the world as it was.
pub moves-moves_in :
    (id : Uuid) (plan : Time) (w : World) → moves id plan w ≡ (moves_in id plan w.tables, w)
unfolding moves Rows.by_id Rows.by_model
moves-moves_in id plan w =
    by_case (is_zero plan) (find_first (λ (r : Milestone). r.id == id) w.tables.milestones) refl
      refl
  where
    by_case :
        (z : Bool) (o : Option Milestone)
        → is_zero plan ≡ z
        → find_first (λ (r : Milestone). r.id == id) w.tables.milestones ≡ o
        → moves id plan w ≡ (moves_in id plan w.tables, w)
    by_case true o e f = ground (arith, e)
    by_case false none e f = ground (arith, e, f)
    by_case false (some m) e f = ground (arith, e, f)

abbrev keep_moves : Bool → List Move → List Move
keep_moves shift found = if not shift && ltb 1 (length found) then take 1 found else found

abbrev finish_moves : Env → List Move → Action (List Move)
finish_moves env kept = do write_moves kept; record_trail env (map move_change kept); pure kept

-- The tables with the moves of a list written.
abbrev pub with_moves : List Move → Tables → Tables
with_moves kept t = record t { milestones = map (written kept) t.milestones }

finish_moves-Tells :
    (env : Env) (l kept : List Move) (u v : World)
    → finish_moves env l u ≡ (ok kept, v)
    → (kept ≡ l) × Tells (map move_change l) (with_moves l u.tables) v.tables
finish_moves-Tells env l kept u v e =
    let wrote =
      bind-Answers (write_moves l) (λ _. record_trail env (map move_change l) >> pure l) u v kept
        e in
    let noted =
      bind-Answers (record_trail env (map move_change l)) (λ _. pure l) wrote.0.after v kept
        wrote.1 in
    let told =
      record_trail-Tells env (map move_change l) wrote.0.after noted.0.after noted.0.same in
    let ended : noted.0.after.tables ≡ v.tables =
      ap (λ (r : Result (List Move) × World). r.1.tables) noted.1 in
    (
      sym (ap (λ r. elim r.0 [ ok x ↦ x | err d ↦ l ]) noted.1),
      subst (Tells (map move_change l) (with_moves l u.tables)) ended (
          subst (λ t. Tells (map move_change l) t noted.0.after.tables)
            (write_moves-ok l u wrote.0.after wrote.0.same) told),
    )

-- What a move of a plan date that succeeds does: the moves that the preview shows, their writes and
-- their entries.
pub record Moved (env : Env) (id : Uuid) (plan : Time) (shift : Bool) (w w' : World)
    (kept : List Move) : Type 0 where
  pub found : List Move
  pub shows : moves_in id plan w.tables ≡ ok found
  pub kept_same : kept ≡ keep_moves shift found
  pub tells : Tells (map move_change kept) (with_moves kept w.tables) w'.tables

pub move_plan-Moved :
    (env : Env) (id : Uuid) (plan : Time) (shift : Bool) (w w' : World) (kept : List Move)
    → move_plan env id plan shift w ≡ (ok kept, w')
    → Moved env id plan shift w w' kept
unfolding move_plan
move_plan-Moved env id plan shift w w' kept h =
    let tx =
      in_tx-Committed (moves id plan >>= λ found. finish_moves env (keep_moves shift found)) w w'
        kept h in
    let read =
      bind-Answers (moves id plan) (λ found. finish_moves env (keep_moves shift found)) tx.before
        tx.after kept tx.ran in
    let found = read.0.value in
    let answer = sym (moves-moves_in id plan tx.before) ∙ read.0.same in
    let (same, told) =
      finish_moves-Tells env (keep_moves shift found) kept read.0.after tx.after read.1 in
    let began : read.0.after.tables ≡ w.tables =
      sym (ap (λ (r : Result (List Move) × World). r.1.tables) answer) ∙ tx.began in
    record {
      found = found;
      shows =
          ap (moves_in id plan) (sym tx.began)
          ∙ ap (λ (r : Result (List Move) × World). r.0) answer;
      kept_same = same;
      tells = subst (Tells (map move_change kept) (with_moves kept w.tables)) (sym tx.ended) (
          subst (λ t. Tells (map move_change kept) (with_moves kept t) tx.after.tables) began
            (subst
              (λ l. Tells (map move_change l) (with_moves l read.0.after.tables) tx.after.tables)
              (sym same) told));
    }

-- Moves that the preview shows are of rows of the table.
moves_in-OfRow :
    (id : Uuid) (plan : Time) (t : Tables) (found : List Move)
    → HasKeys t.milestones
    → moves_in id plan t ≡ ok found
    → All (OfRow t.milestones) found
moves_in-OfRow id plan t found keys h =
    by_case (is_zero plan) (find_first (λ (r : Milestone). r.id == id) t.milestones) refl h
  where
    found_id :
        (i : Uuid) (rows : List Milestone) (r : Milestone)
        → find_first (λ (s : Milestone). s.id == i) rows ≡ some r
        → r.id ≡ i
    found_id i [] r k = absurd (ground arith)
    found_id i (s ∷ rows) r k = ground (arith, found_id i rows r)

    by_case :
        (z : Bool) (o : Option Milestone)
        → find_first (λ (r : Milestone). r.id == id) t.milestones ≡ o
        → (if z then err (fail "plan_date" required) else elim o [
          | none ↦ err no_milestone
          | some moved ↦ ok (cascade (rows_of moved.model_id t) moved plan)
        ])
          ≡ ok found
        → All (OfRow t.milestones) found
    by_case true o e k = absurd (ground arith)
    by_case false none e k = absurd (ground arith)
    by_case false (some moved) e k =
        subst (All (OfRow t.milestones))
          (ap (λ (r : Result (List Move)). elim r [ ok l ↦ l | err d ↦ found ]) k)
          (cascade-OfRow t.milestones (rows_of moved.model_id t) moved plan
            (ap (λ i. find_first (λ (r : Milestone). r.id == i) t.milestones)
                (found_id id t.milestones moved e)
              ∙ e)
            (sorted-FindsItself t.milestones moved.model_id keys))

kept_of :
    (b : Bool) (kept l : List Move) → kept ≡ keep_moves b l → kept ≡ (if b then l else take 1 l)
kept_of true kept l e = e
kept_of false kept [] e = e
kept_of false kept (m ∷ []) e = e
kept_of false kept (m ∷ n ∷ l) e = ground (arith, e)

kept-OfRow :
    (b : Bool) (rows : List Milestone) (l : List Move)
    → All (OfRow rows) l
    → All (OfRow rows) (if b then l else take 1 l)
kept-OfRow true rows l h = h
kept-OfRow false rows l h = take-OfRow rows l h

-- A move of a plan date that succeeds makes the moves that the preview shows from the same world:
-- all of them when it shifts the calendar, and the first one otherwise. The rows of the calendar
-- are then what they were, each with the plan date of the last of these moves that names it, and
-- unchanged where none does. Every row is the one that its identifier finds.
pub move_plan-moves :
    (env : Env) (id : Uuid) (plan : Time) (shift : Bool) (w w' : World) (kept : List Move)
    → HasKeys w.tables.milestones
    → move_plan env id plan shift w ≡ (ok kept, w')
    → (found : List Move) × (moves id plan w ≡ (ok found, w))
      × (kept ≡ (if shift then found else take 1 found))
      × (w'.tables.milestones ≡ map (planned kept) w.tables.milestones)
move_plan-moves env id plan shift w w' kept keys h =
    let ran = move_plan-Moved env id plan shift w w' kept h in
    let same = kept_of shift kept ran.found ran.kept_same in
    let of_rows = moves_in-OfRow id plan w.tables ran.found keys ran.shows in
    (
      ran.found,
      moves-moves_in id plan w ∙ ap (λ r. (r, w)) ran.shows,
      same,
      ap (λ (t : Tables). t.milestones) ran.tells.2
          ∙ written-rows w.tables.milestones kept keys (
              subst (All (OfRow w.tables.milestones)) (sym same)
                (kept-OfRow shift w.tables.milestones ran.found of_rows)),
    )
