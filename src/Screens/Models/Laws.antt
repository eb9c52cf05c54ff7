-- ===== src/Screens/Models/Laws.antt =====
-- What a form of a new model leaves behind.
use pilam.Prelude.{
  ◌≡◌, refl, sym, ap, ◌∙◌, true, false, ◌||◌, Option, none, some, List, [], ◌∷◌, ◌++◌, inl, inr,
  ◌⊎◌, Bool-cases, ◌==◌, ℕ_eq, List_eq, arith,
}
use pilam.Prelude.Text.{Text, trim_space}
use pilam.Prelude.Sort.{sort_by}
use pilam.Errors.{Error, Result, ok, err}
use pilam.Ids.{Uuid, nil_id}
use pilam.Schema.{Drop, Model, Milestone}
use pilam.World.{Env, World, Action, ◌>>=◌, raise_some, new_id}
use pilam.World.Laws.{
  Keeps, Reads, in_tx-Keeps, bind-Keeps, bind-Reads, bind-joined, in_tx-joined, pure-Reads,
  raise_some-Reads, or_raise-Reads, new_id-Reads,
}
use pilam.Accounts.Principals.{UuidForm}
use pilam.Catalog.Models.{create_model, check_model, write_new, new_model}
use pilam.Catalog.Store.Drops as DropRows
use pilam.Milestones.Calendar.{apply_template}
use pilam.Milestones.Calendar.Starts.{apply_template-Keeps}
use pilam.Milestones.Store.Templates as TemplateRows
use pilam.Screens.{
  Answer, Form, posted_id, parsed_id, server_error, redirect_saved, rejections, joined,
}
use pilam.Screens.Pages.Laws.{refused_by-same, with_row-same}
use pilam.Screens.Drops.{by_season}
use pilam.Screens.Drops.Laws.{by_season-Reads}
use pilam.Screens.Models.Choices.{is_offered, any-add_choices, any-sort_by, IsOffered}
use pilam.Screens.Models.{
  SelectOption, template_choices, offers_template, offered, offer_drops, start_calendar, started,
  has_rejections, model_path, refuse_model, go_on, after_model, template_box, create_with, create,
  told_model,
}

drop-Reads : (id : Uuid) (w : World) → Reads w (DropRows.by_id id w)
unfolding DropRows.by_id
drop-Reads id w = or_raise-Reads _ _ w

-- The creation of a model: outside a transaction it ends outside one, and leaves the tables alone
-- where it fails.
module _ (env : Env) (drop_id : Uuid) (article : Text) (w : World) (alone : w.joined ≡ false) where
  abbrev write : Uuid → Action Model
  write id = write_new env (new_model drop_id article id)

  abbrev draw : Drop → Action Model
  draw d = new_id env >>= write

  abbrev find : Unit {0} → Action Model
  find u = DropRows.by_id drop_id >>= draw

  create_model-Keeps : Keeps w (create_model env drop_id article w)
  unfolding create_model
  create_model-Keeps =
      bind-Keeps (raise_some (check_model drop_id (trim_space article))) find w
        (raise_some-Reads _ w)
        (λ _ w1 j1. bind-Keeps (DropRows.by_id drop_id) draw w1 (drop-Reads drop_id w1) (λ d w2 j2.
          bind-Keeps (new_id env) write w2 (new_id-Reads env w2)
            (λ id w3 j3. in_tx-Keeps _ w3 (j3 ∙ (j2 ∙ (j1 ∙ alone))))))

  create_model-joined : (create_model env drop_id article w).1.joined ≡ false
  unfolding create_model
  create_model-joined =
      bind-joined (raise_some (check_model drop_id (trim_space article))) find w alone
        (raise_some-Reads _ w)
        (λ _ w1 j1.
          bind-joined (DropRows.by_id drop_id) draw w1 j1 (drop-Reads drop_id w1) (λ d w2 j2.
            bind-joined (new_id env) write w2 j2 (new_id-Reads env w2)
              (λ id w3 j3. in_tx-joined _ w3 j3)))

joined-none : (a b : Option Error) → joined a b ≡ none → (a ≡ none) × (b ≡ none)
joined-none none b h = (refl, h)
joined-none (some d) b h = cc

module _ (ids : UuidForm) (env : Env) (form : Form) where
  refuse_model-same :
      (errs : List (Option Error)) (w : World)
      → (refuse_model ids env form errs w).1.tables ≡ w.tables
  refuse_model-same errs w = refused_by-same (rejections errs) _ w (λ found.
      with_row-same (λ e. false) _ w (offer_drops ids form env w) (offer_drops-Reads w)
        (λ offer v. refl))
    where
      offer_drops-Reads : (v : World) → Reads v (offer_drops ids form env v)
      offer_drops-Reads v =
          unfold offer_drops in
          bind-Reads (by_season env) _ v (by_season-Reads env v)
            (λ groups u. pure-Reads (offered (parsed_id ids (form.value "season_id")) groups) u)

  -- What comes after a new model: the browser goes on with what the start of the calendar left, or
  -- the calendar failed and the tables hold the model alone.
  abbrev pub GoesOn : Model → World → Option Answer × World → Answer × World → Type 0
  GoesOn m v r (a, w') =
      ((a ≡ redirect_saved (model_path ids m)) × (w' ≡ r.1))
      ⊎ ((a ≡ server_error) × (w'.tables ≡ v.tables))

  started-GoesOn :
      (m : Model) (v : World) (r : Result (List Milestone) × World)
      → Keeps v r
      → GoesOn m v (started r) (go_on ids env form m (started r))
  unfolding started
  started-GoesOn m v (ok written, u) h = inl (refl, refl)
  started-GoesOn m v (err e, u) h = elim (Bool-cases (has_rejections (rejections (some e ∷ [])))) [
    | inl gone ↦ rw gone (inl (refl, refl))
    | inr broken ↦ rw broken (inr (refl, h))
  ]

  start_calendar-GoesOn :
      (m : Model) (template_id : Uuid) (v : World)
      → v.joined ≡ false
      → GoesOn m v
          (start_calendar env m.id template_id v)
          (go_on ids env form m (start_calendar env m.id template_id v))
  unfolding start_calendar
  start_calendar-GoesOn m template_id v j = elim (Bool-cases (template_id == nil_id)) [
    | inl bare ↦ rw bare (inl (refl, refl))
    | inr held ↦ rw held (
        started-GoesOn m v (apply_template env m.id template_id v)
          (apply_template-Keeps env m.id template_id v j))
  ]

  abbrev drop_id : Uuid
  drop_id = (posted_id ids form "drop_id").0

  abbrev template_id : Uuid
  template_id = (posted_id ids form "template").0

  -- The tables are as they were, or the model of the form was written, for a template that was
  -- offered.
  abbrev pub Ends : World → Answer × World → Type 0
  Ends w r =
      (r.1.tables ≡ w.tables)
      ⊎ ((m : Model) × (v : World) × (create_model env drop_id (form.value "article") w ≡ (ok m, v))
          × IsOffered ids template_id w.tables
          × GoesOn m v (start_calendar env m.id template_id v) r)

  template_box-none :
      (choices : List SelectOption) (t : Uuid × Option Error)
      → template_box ids env form choices t ≡ none
      → offers_template ids choices t.0 ≡ true
  unfolding template_box
  template_box-none choices (id, some e) h = cc
  template_box-none choices (id, none) h = ground arith

  after_model-Ends :
      (boxes : List (Option Error)) (w : World) (r : Result Model × World)
      → IsOffered ids template_id w.tables
      → create_model env drop_id (form.value "article") w ≡ r
      → Keeps w r
      → r.1.joined ≡ false
      → Ends w (after_model ids env form template_id boxes r)
  unfolding after_model
  after_model-Ends boxes w (ok m, v) offered run kept j =
      inr (m, v, run, offered, start_calendar-GoesOn m template_id v j)
  after_model-Ends boxes w (err e, v) offered run kept j =
      inl (refuse_model-same (boxes ++ some (told_model e) ∷ []) v ∙ kept)

  create_with-Ends :
      (choices : List SelectOption) (w : World)
      → (offers_template ids choices template_id ≡ true → IsOffered ids template_id w.tables)
      → w.joined ≡ false
      → Ends w (create_with ids env form choices w)
  unfolding create_with
  create_with-Ends choices w offers j = by_boxes (joined bad_drop bad_template) refl
    where
      bad_drop : Option Error
      bad_drop = (posted_id ids form "drop_id").1

      bad_template : Option Error
      bad_template = template_box ids env form choices (posted_id ids form "template")

      by_boxes :
          (o : Option Error)
          → joined bad_drop bad_template ≡ o
          → Ends w (elim o [
            | some e ↦ refuse_model ids env form (bad_drop ∷ bad_template ∷ some e ∷ []) w
            | none ↦
                after_model ids env form template_id
                  (bad_drop ∷ bad_template ∷ [])
                  (create_model env drop_id (form.value "article") w)
          ])
      by_boxes (some e) h = inl (refuse_model-same (bad_drop ∷ bad_template ∷ some e ∷ []) w)
      by_boxes none h =
          after_model-Ends (bad_drop ∷ bad_template ∷ []) w
            (create_model env drop_id (form.value "article") w)
            (offers (
              template_box-none choices (posted_id ids form "template")
                (joined-none bad_drop bad_template h).1))
            refl (create_model-Keeps env drop_id (form.value "article") w j)
            (create_model-joined env drop_id (form.value "article") w j)

  -- Outside a transaction, the form of a new model leaves every table as it was, or it wrote the
  -- model that it names, for no template or for one that the tables held active, and then either
  -- sends the browser to that model with what the start of its calendar left, or answers 500 with
  -- the tables as the creation of the model left them.
  pub create-Ends : (w : World) → w.joined ≡ false → Ends w (create ids env form w)
  unfolding create TemplateRows.list offers_template
  create-Ends w j =
      create_with-Ends (template_choices ids (sort_by _ w.tables.templates)) w
        (λ h.
          ap (λ b. template_id == nil_id || b)
            (sym (
              any-add_choices ids template_id [] (sort_by _ w.tables.templates)
              ∙ any-sort_by _ (is_offered ids template_id) w.tables.templates))
          ∙ h)
        j
