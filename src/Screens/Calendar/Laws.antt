-- ===== src/Screens/Calendar/Laws.antt =====
-- The card of a model reads.
use pilam.Prelude.{ℕ, ◌≡◌, refl, ◌∙◌, Option, List}
use pilam.Prelude.Text.{Text}
use pilam.Errors.{Error, FieldErrors}
use pilam.Ids.{Uuid}
use pilam.Schema.{Season, Drop, Model}
use pilam.World.{Env, World}
use pilam.World.Laws.{Reads, or_raise-Reads}
use pilam.Accounts.Principals.{UuidForm}
use pilam.Catalog.Seasons.{season}
use pilam.Catalog.Drops.{drop}
use pilam.Catalog.Models.{model}
use pilam.Catalog.Photos.{list_photos}
use pilam.Catalog.Store.Seasons as SeasonRows
use pilam.Catalog.Store.Drops as DropRows
use pilam.Catalog.Store.Models as ModelRows
use pilam.Catalog.Store.Photos as PhotoRows
use pilam.Milestones.Store.Calendar as Rows
use pilam.Milestones.Store.Templates as TemplateRows
use pilam.Milestones.Store.Types as TypeRows
use pilam.Milestones.Calendar.{calendar}
use pilam.Screens.{Answer, rejections}
use pilam.Screens.Trails.{load_trail_of}
use pilam.Screens.Pages.{Screen}
use pilam.Screens.Pages.Laws.{reading-by, load_one-by, refused_by-same, load_trail_of-Reads}
use pilam.Screens.Calendar.{
  load_calendar, scopes_of, is_no_model, load_model, model_card, refuse_calendar,
}

pub model-Reads : (id : Uuid) (w : World) → Reads w (model id w)
unfolding model ModelRows.by_id
model-Reads id w = or_raise-Reads _ _ w

pub drop-Reads : (id : Uuid) (w : World) → Reads w (drop id w)
unfolding drop DropRows.by_id
drop-Reads id w = or_raise-Reads _ _ w

pub season-Reads : (id : Uuid) (w : World) → Reads w (season id w)
unfolding season SeasonRows.by_id
season-Reads id w = or_raise-Reads _ _ w

photos-Reads : (id : Uuid) (w : World) → Reads w (list_photos id w)
unfolding list_photos PhotoRows.by_model
photos-Reads id w = record { tables_same = refl; joined_same = refl }

load_calendar-Reads :
    (ids : UuidForm) (env : Env) (id : Uuid) (w : World) → Reads w (load_calendar ids env id w)
unfolding load_calendar calendar Rows.by_model TypeRows.list TemplateRows.list
load_calendar-Reads ids env id w = record { tables_same = refl; joined_same = refl }

-- What holds of every answer that leaves the tables alone, and of the page of the model.
module _ (P : Answer × World → Type 0) (w : World)
    (keeps : (a : Answer) (v : World) → v.tables ≡ w.tables → P (a, v)) where
  pub load_model-by :
      (ids : UuidForm) (raw : Text) (page : Model → Drop → Season → Screen)
      → ((m : Model) (d : Drop) (s : Season) (v : World)
          → v.joined ≡ w.joined
          → v.tables ≡ w.tables
          → P (page m d s v))
      → P (load_model ids raw page w)
  unfolding load_model
  load_model-by ids raw page holds =
      load_one-by P w keeps ids is_no_model model raw _ (λ id. model-Reads id w)
        (λ m v j t.
          reading-by P v (λ a u e. keeps a u (e ∙ t)) (drop m.drop_id) _ (drop-Reads m.drop_id v)
            (λ d v2 j2 t2.
              reading-by P v2 (λ a u e. keeps a u (e ∙ (t2 ∙ t))) (season d.season_id) (page m d)
                (season-Reads d.season_id v2)
                (λ s v3 j3 t3. holds m d s v3 (j3 ∙ (j2 ∙ j)) (t3 ∙ (t2 ∙ t)))))

module _ (ids : UuidForm) (env : Env) (raw : Text) where
  -- The card reads.
  pub model_card-same :
      (status : ℕ) (errs : FieldErrors) (w : World)
      → (model_card ids env raw status errs w).1.tables ≡ w.tables
  unfolding model_card
  model_card-same status errs w =
      let P : Answer × World → Type 0 = λ r. r.1.tables ≡ w.tables in
      load_model-by P w (λ a v e. e) ids raw _
        (λ m d s v j t.
          reading-by P v (λ a u e. e ∙ t) (list_photos m.id) _ (photos-Reads m.id v)
            (λ photos v2 j2 t2.
              reading-by P v2 (λ a u e. e ∙ (t2 ∙ t)) (load_calendar ids env m.id) _
                (load_calendar-Reads ids env m.id v2)
                (λ held v3 j3 t3.
                  reading-by P v3 (λ a u e. e ∙ (t3 ∙ (t2 ∙ t)))
                    (load_trail_of env held.steps (scopes_of held m.id)) _
                    (load_trail_of-Reads env held.steps (scopes_of held m.id) v3)
                    (λ events v4 j4 t4. t4 ∙ (t3 ∙ (t2 ∙ t))))))

  pub refuse_calendar-same :
      (errs : List (Option Error)) (w : World)
      → (refuse_calendar ids env raw errs w).1.tables ≡ w.tables
  refuse_calendar-same errs w =
      refused_by-same (rejections errs) (model_card ids env raw 422) w
        (λ found. model_card-same 422 found w)
