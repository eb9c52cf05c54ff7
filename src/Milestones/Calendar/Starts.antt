-- ===== src/Milestones/Calendar/Starts.antt =====
-- The two operations that start rows of a calendar, when they fail.
use pilam.Prelude.{◌≡◌, refl, ◌∙◌, Bool, true, false, not, List, [], ◌∷◌, if◌then◌else◌}
use pilam.Errors.{Result, ok, err, no_template, no_type, not_allowed, required, type_on_model}
use pilam.Date.{is_zero, day, iso}
use pilam.Date.Gregorian.{Time}
use pilam.Ids.{Uuid}
use pilam.Schema.{Template, TemplateItem, MilestoneType, Milestone}
use pilam.Validate.{fail}
use pilam.World.{Env, World, Action, ◌>>=◌, ◌>>◌, pure, in_tx, raise_if, new_id}
use pilam.World.Laws.{
  Keeps, Reads, in_tx-Keeps, bind-Keeps, raise_if-Reads, or_raise-Reads, new_id-Reads,
}
use pilam.Milestones.Calendar as Calendar
use pilam.Milestones.Calendar.{
  apply_template, add_milestone, active_template, missing, write_missing, first_row, on_model,
}
use pilam.Milestones.Naming.{changed}
use pilam.Milestones.Rules.{apply}
use pilam.Trail.{record_trail}
use pilam.Milestones.Items as Items
use pilam.Milestones.Items.{active_type}
use pilam.Milestones.Store.Calendar as Rows
use pilam.Milestones.Store.Items as ItemRows
use pilam.Milestones.Store.Templates as TemplateRows
use pilam.Milestones.Store.Types as TypeRows

target-Reads : (id : Uuid) (w : World) → Reads w (Rows.target id w)
unfolding Rows.target
target-Reads id w = or_raise-Reads _ _ w

items-Reads : (id : Uuid) (w : World) → Reads w (ItemRows.list id w)
unfolding ItemRows.list
items-Reads id w = record { tables_same = refl; joined_same = refl }

offered_template-Reads :
    (w : World) (r : Result Template × World) → Reads w r → Reads w (Calendar.offered r)
unfolding Calendar.offered
offered_template-Reads w (ok row, w') h = by_active row.active
  where
    by_active :
        (b : Bool)
        → Reads {A = Template} w
            (if not b then (err (fail "template" not_allowed), w') else (ok row, w'))
    by_active true = record { tables_same = h.tables_same; joined_same = h.joined_same }
    by_active false = record { tables_same = h.tables_same; joined_same = h.joined_same }
offered_template-Reads w (err no_template, w') h = record {
  tables_same = h.tables_same;
  joined_same = h.joined_same;
}
offered_template-Reads w (err _, w') h = record {
  tables_same = h.tables_same;
  joined_same = h.joined_same;
}

active_template-Reads : (id : Uuid) (w : World) → Reads w (active_template id w)
unfolding active_template TemplateRows.by_id
active_template-Reads id w =
    offered_template-Reads w (TemplateRows.by_id id w) (or_raise-Reads _ _ w)

offered_type-Reads :
    (w : World) (r : Result MilestoneType × World) → Reads w r → Reads w (Items.offered r)
unfolding Items.offered
offered_type-Reads w (ok row, w') h = by_active row.active
  where
    by_active :
        (b : Bool)
        → Reads {A = MilestoneType} w
            (if not b then (err (fail "type" not_allowed), w') else (ok row, w'))
    by_active true = record { tables_same = h.tables_same; joined_same = h.joined_same }
    by_active false = record { tables_same = h.tables_same; joined_same = h.joined_same }
offered_type-Reads w (err no_type, w') h = record {
  tables_same = h.tables_same;
  joined_same = h.joined_same;
}
offered_type-Reads w (err _, w') h = record {
  tables_same = h.tables_same;
  joined_same = h.joined_same;
}

active_type-Reads : (id : Uuid) (w : World) → Reads w (active_type id w)
unfolding active_type TypeRows.by_id
active_type-Reads id w = offered_type-Reads w (TypeRows.by_id id w) (or_raise-Reads _ _ w)

-- The steps of `apply_template`, from its last.
module _ (env : Env) (model_id template_id : Uuid) where
  abbrev apply_tx : Template → Time → List TemplateItem → Action (List Milestone)
  apply_tx template target items = in_tx (do
    held ← Rows.by_model model_id
    written ← missing env held model_id (apply items target)
    write_missing env model_id template.name written)

  abbrev apply_items : Template → Time → Action (List Milestone)
  apply_items template target = ItemRows.list template_id >>= apply_tx template target

  abbrev apply_target : Template → Action (List Milestone)
  apply_target template = Rows.target model_id >>= apply_items template

-- A template that fails to apply to a model, outside a transaction, leaves every table as it
-- was.
pub apply_template-Keeps :
    (env : Env) (model_id template_id : Uuid) (w : World)
    → w.joined ≡ false
    → Keeps w (apply_template env model_id template_id w)
unfolding apply_template
apply_template-Keeps env model_id template_id w j =
    bind-Keeps (active_template template_id) (apply_target env model_id template_id) w
      (active_template-Reads template_id w)
      (λ template w1 j1.
        bind-Keeps (Rows.target model_id) (apply_items env model_id template_id template) w1
          (target-Reads model_id w1)
          (λ target w2 j2.
            bind-Keeps (ItemRows.list template_id)
              (apply_tx env model_id template_id template target) w2 (items-Reads template_id w2)
              (λ items w3 j3. in_tx-Keeps _ w3 (j3 ∙ (j2 ∙ (j1 ∙ j))))))

-- The steps of `add_milestone`, from its last.
module _ (env : Env) (model_id type_id : Uuid) (plan : Time) where
  abbrev add_tx : Uuid → Action Milestone
  add_tx id =
      let row : Milestone =
        first_row id model_id
          (record { type_id = type_id; baseline = day plan; plan = day plan }) in
      in_tx (do
        held ← Rows.by_model model_id
        raise_if (on_model held type_id) type_on_model
        Rows.create (row ∷ [])
        record_trail env (changed "milestone" id "created" "plan_date" [] (iso row.plan) ∷ [])
        pure row)

  abbrev add_id : Action Milestone
  add_id = new_id env >>= add_tx

  abbrev add_target : Action Milestone
  add_target = Rows.target model_id >> add_id

-- An added milestone that fails, outside a transaction, leaves every table as it was.
pub add_milestone-Keeps :
    (env : Env) (model_id type_id : Uuid) (plan : Time) (w : World)
    → w.joined ≡ false
    → Keeps w (add_milestone env model_id type_id plan w)
unfolding add_milestone
add_milestone-Keeps env model_id type_id plan w j =
    bind-Keeps (raise_if (is_zero plan) (fail "plan_date" required))
      (λ _. active_type type_id >> add_target env model_id type_id plan) w (raise_if-Reads _ _ w)
      (λ _ w1 j1.
        bind-Keeps (active_type type_id) (λ _. add_target env model_id type_id plan) w1
          (active_type-Reads type_id w1)
          (λ _ w2 j2.
            bind-Keeps (Rows.target model_id) (λ _. add_id env model_id type_id plan) w2
              (target-Reads model_id w2)
              (λ _ w3 j3.
                bind-Keeps (new_id env) (add_tx env model_id type_id plan) w3 (new_id-Reads env w3)
                  (λ id w4 j4. in_tx-Keeps _ w4 (j4 ∙ (j3 ∙ (j2 ∙ (j1 ∙ j))))))))
