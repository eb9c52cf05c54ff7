-- ===== src/Screens/Calendar/Saves.antt =====
-- What a save of a step on the card of its model leaves behind.
use pilam.Prelude.{
  ◌≡◌, refl, sym, ap, ◌∙◌, Bool, true, false, Option, none, some, List, [], ◌∷◌, ◌++◌, inl, inr,
  ◌⊎◌, if◌then◌else◌, arith, ℕ_eq, List_eq, take, map,
}
use mathlib.Core.Path.{subst}
use pilam.Prelude.Text.{Text}
use pilam.Errors.{Error, Result, ok, err, no_milestone}
use pilam.Date.{is_zero}
use pilam.Date.Gregorian.{Time}
use pilam.Ids.{Uuid}
use pilam.Schema.{Model, Tables}
use pilam.World.{Env, World}
use pilam.World.Laws.{Keeps, in_tx-joined}
use pilam.Accounts.Principals.{UuidForm, parse_id}
use pilam.Milestones.Rules.{Move}
use pilam.Milestones.Calendar.{moves, move_plan, check_milestone, update_milestone}
use pilam.Milestones.Calendar.Written.{HasKeys, planned}
use pilam.Milestones.Calendar.Preview.{move_plan-moves}
use pilam.Milestones.Calendar.History.{TellsMoves, move_plan-TellsMoves}
use pilam.Milestones.Calendar.Laws.{move_plan-Keeps, update_milestone-Keeps}
use pilam.Screens.{Answer, Form, posted_day, posted_flag, redirect_saved, joined, not_found}
use pilam.Screens.Calendar.{
  refuse_calendar, redirect_done, edit, boxes_of, refuse_save, after_update, after_move,
  move_posted, save_row, save,
}
use pilam.Screens.Calendar.Laws.{load_model-by, refuse_calendar-same}

move_plan-joined :
    (env : Env) (id : Uuid) (plan : Time) (shift : Bool) (w : World)
    → w.joined ≡ false
    → (move_plan env id plan shift w).1.joined ≡ false
unfolding move_plan
move_plan-joined env id plan shift w j = in_tx-joined _ w j

module _ (ids : UuidForm) (env : Env) (raw : Text) (form : Form) where
  abbrev plan_of : Time
  plan_of = (posted_day form "plan_date").0

  -- The tables are as they were, or the browser goes on, or they are as the move of the posted plan
  -- date left them.
  abbrev pub SaveEnds : Uuid → World → Answer × World → Type 0
  SaveEnds id w r =
      (r.0.status ≡ 303)
      ⊎ (r.1.tables ≡ w.tables)
      ⊎ ((v v' : World) × (found : List Move) × (v.tables ≡ w.tables)
          × (is_zero plan_of ≡ false)
          × (move_plan env id plan_of (posted_flag form "shift") v ≡ (ok found, v'))
          × (r.1.tables ≡ v'.tables))

  module _ (m : Model) (id : Uuid) where
    refuse_save-same :
        (e : Error) (w : World) → (refuse_save ids env raw form m id e w).1.tables ≡ w.tables
    unfolding refuse_save
    refuse_save-same no_milestone w = refl
    refuse_save-same e w =
        refuse_calendar-same ids env raw (boxes_of ids env raw form m id ++ some e ∷ []) w

    redirect_done-status : (action : Text) → (redirect_done ids env raw action id m).status ≡ 303
    unfolding redirect_done redirect_saved
    redirect_done-status action = ground arith

    -- The end of a save goes on, or leaves the tables as they were before the update.
    after_update-ends :
        (w : World) (r : Result (Unit {0}) × World)
        → Keeps w r
        → ((after_update ids env raw form m id r).0.status ≡ 303)
          ⊎ ((after_update ids env raw form m id r).1.tables ≡ w.tables)
    unfolding after_update
    after_update-ends w (ok u, v) h = inl (redirect_done-status (form.value "row_action"))
    after_update-ends w (err e, v) h = inr (refuse_save-same e v ∙ h)

    updated : World → Answer × World
    updated v =
        after_update ids env raw form m id (update_milestone env id (edit ids env raw form m id) v)

    updated-ends :
        (v : World)
        → v.joined ≡ false
        → ((updated v).0.status ≡ 303) ⊎ ((updated v).1.tables ≡ v.tables)
    unfolding updated
    updated-ends v j =
        after_update-ends v _ (update_milestone-Keeps env id (edit ids env raw form m id) v j)

    after_move-SaveEnds :
        (w : World) (r : Result (List Move) × World)
        → is_zero plan_of ≡ false
        → move_plan env id plan_of (posted_flag form "shift") w ≡ r
        → Keeps w r
        → r.1.joined ≡ false
        → SaveEnds id w (after_move ids env raw form m id r)
    unfolding after_move updated
    after_move-SaveEnds w (ok found, v) dated run kept j = elim (updated-ends v j) [
      | inl on ↦ inl on
      | inr same ↦ inr (inr (w, v, found, refl, dated, run, same))
    ]
    after_move-SaveEnds w (err e, v) dated run kept j = inr (inl (refuse_save-same e v ∙ kept))

    unmoved-SaveEnds :
        (w : World) → w.joined ≡ false → SaveEnds id w (after_move ids env raw form m id (ok [], w))
    unfolding after_move updated
    unmoved-SaveEnds w j = elim (updated-ends w j) [ inl on ↦ inl on | inr same ↦ inr (inl same) ]

    save_row-SaveEnds :
        (w : World) → w.joined ≡ false → SaveEnds id w (save_row ids env raw form m id w)
    unfolding save_row
    save_row-SaveEnds w j =
        by_boxes (joined (posted_day form "plan_date").1 (posted_day form "fact_date").1)
      where
        by_plan :
            (b : Bool)
            → is_zero plan_of ≡ b
            → SaveEnds id w (
                after_move ids env raw form m id
                  (if b then (ok [], w) else move_plan env id plan_of (posted_flag form "shift") w))
        by_plan true none_posted = unmoved-SaveEnds w j
        by_plan false dated =
            after_move-SaveEnds w (move_plan env id plan_of (posted_flag form "shift") w) dated refl
              (move_plan-Keeps env id plan_of (posted_flag form "shift") w j)
              (move_plan-joined env id plan_of (posted_flag form "shift") w j)

        by_boxes :
            (o : Option Error)
            → SaveEnds id w (elim o [
              | some e ↦
                  refuse_calendar ids env raw (boxes_of ids env raw form m id ++ some e ∷ []) w
              | none ↦ after_move ids env raw form m id (move_posted ids env raw form m id w)
            ])
        by_boxes (some e) = inr (
            inl
              (refuse_calendar-same ids env raw (boxes_of ids env raw form m id ++ some e ∷ []) w))
        by_boxes none = by_plan (is_zero plan_of) refl

    check-refuses :
        (e : Error) (v : World)
        → check_milestone env (edit ids env raw form m id) ≡ some e
        → update_milestone env id (edit ids env raw form m id) v ≡ (err e, v)
    unfolding update_milestone
    check-refuses e v h = ground (arith, h)

    -- Where both date boxes of the form of a step can be read, a plan date was posted, the move of
    -- the plan dates succeeds and what the form says of the step does not pass the checks of its
    -- update, the answer is the refusal, and yet the calendar has moved: the moves are those of the
    -- preview, all or the first one by the posted flag, the rows have their plan dates, and the
    -- trail has an entry for each. Every row is the one that its identifier finds.
    pub save_row-moves :
        (w v : World) (kept : List Move) (e : Error)
        → HasKeys w.tables.milestones
        → joined (posted_day form "plan_date").1 (posted_day form "fact_date").1 ≡ none
        → is_zero plan_of ≡ false
        → check_milestone env (edit ids env raw form m id) ≡ some e
        → move_plan env id plan_of (posted_flag form "shift") w ≡ (ok kept, v)
        → (found : List Move) × (moves id plan_of w ≡ (ok found, w))
          × (kept ≡ (if posted_flag form "shift" then found else take 1 found))
          × (save_row ids env raw form m id w ≡ refuse_save ids env raw form m id e v)
          × ((save_row ids env raw form m id w).1.tables.milestones
              ≡ map (planned kept) w.tables.milestones)
          × TellsMoves kept w.tables.trail (save_row ids env raw form m id w).1.tables.trail
    unfolding save_row after_move after_update
    save_row-moves w v kept e keys readable dated refused ran =
        let shift = posted_flag form "shift" in
        let (found, shown, same, rows) = move_plan-moves env id plan_of shift w v kept keys ran in
        let told = move_plan-TellsMoves env id plan_of shift w v kept ran in
        let moved : move_posted ids env raw form m id w ≡ (ok kept, v) =
          ap (λ b. if b then (ok [], w) else move_plan env id plan_of shift w) dated ∙ ran in
        let saved : save_row ids env raw form m id w ≡ refuse_save ids env raw form m id e v =
          ap
            (λ o. elim o [
              | some d ↦
                  refuse_calendar ids env raw (boxes_of ids env raw form m id ++ some d ∷ []) w
              | none ↦ after_move ids env raw form m id (move_posted ids env raw form m id w)
            ])
            readable
          ∙ (ap (after_move ids env raw form m id) moved
              ∙ ap (after_update ids env raw form m id) (check-refuses e v refused)) in
        let left = ap (λ r. r.1.tables) saved ∙ refuse_save-same e v in
        (
          found,
          shown,
          same,
          saved,
          ap (λ (t : Tables). t.milestones) left ∙ rows,
          subst (TellsMoves kept w.tables.trail) (sym (ap (λ (t : Tables). t.trail) left)) told,
        )

  moved-SaveEnds :
      (id : Uuid) (w v : World) (r : Answer × World)
      → v.tables ≡ w.tables
      → SaveEnds id v r
      → SaveEnds id w r
  moved-SaveEnds id w v r same (inl on) = inl on
  moved-SaveEnds id w v r same (inr (inl kept)) = inr (inl (kept ∙ same))
  moved-SaveEnds id w v r same (inr (inr (u, u', found, read, dated, ran, left))) =
      inr (inr (u, u', found, read ∙ same, dated, ran, left))

  -- Outside a transaction, the form of a step whose identifier can be read sends the browser on, or
  -- leaves every table as it was, or, where it posted a plan date, leaves the tables exactly as a
  -- move of the plan dates that succeeded from those same tables left them.
  pub save-SaveEnds :
      (raw_id : Text) (id : Uuid) (w : World)
      → parse_id ids raw_id ≡ some id
      → w.joined ≡ false
      → SaveEnds id w (save ids env raw raw_id form w)
  unfolding save
  save-SaveEnds raw_id id w named j =
      load_model-by (SaveEnds id w) w (λ a v e. inr (inl e)) ids raw _
        (λ m d s v k t.
          subst
            (λ o.
              SaveEnds id w
                (elim o [ none ↦ (not_found, v) | some k ↦ save_row ids env raw form m k v ]))
            (sym named)
            (moved-SaveEnds id w v (save_row ids env raw form m id v) t
              (save_row-SaveEnds m id v (k ∙ j))))
