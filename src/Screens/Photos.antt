-- ===== src/Screens/Photos.antt =====
-- internal/http/models/models.go: the edit of a model and of its strip of photos, on its card.
use pilam.Prelude.{ℕ, Bool, not, Option, none, some, List, [], ◌∷◌, if◌then◌else◌}
use pilam.Prelude.Text.{Text}
use pilam.Errors.{Error, Result, ok, err, no_photo, photo_order}
use pilam.Ids.{Uuid}
use pilam.Schema.{Season, Drop, Model, Photo}
use pilam.World.{Env, World, Action, ◌>>=◌, ◌>>◌, pure}
use pilam.Accounts.Principals.{UuidForm, parse_id}
use pilam.Catalog.Seasons.{season}
use pilam.Catalog.Drops.{drop}
use pilam.Catalog.Models.{model, ModelUpdateParams, update_model}
use pilam.Catalog.Photos.{list_photos, add_photo, remove_photo, reorder_photos}
use pilam.Media.{image}
use pilam.Media.Store.{too_large, type_rejected, Outcome, done, refused, Stored, Disk, Faults, put}
use pilam.Screens.{Answer, Form, posted_flag, posted_order, redirect_saved, not_found, server_error}
use pilam.Screens.Pages.{Screen, reading, answered}
use pilam.Screens.Models.{model_path}
use pilam.Screens.Calendar.{is_no_model, load_model, model_card, shows}
pub mod Laws

-- One file of the form: its name, what its reader gives, whether it opens, and what fails while it is
-- stored.
pub record Upload : Type 0 where
  pub name : Text
  pub content : List ℕ
  pub opens : Bool
  pub faults : Faults

-- What `addOnePhoto` answers: nothing, a sentence that the screen reports, or an error alone.
pub data Added : Type 0 where
  added alerted broken : Added

module _ (ids : UuidForm) (env : Env) (raw : Text) where
  -- `ShowEdit`, and `ShowPhotosEdit`.
  unfoldable show_edit : Screen
  unfolding load_model
  show_edit = load_model ids raw (λ m d s. shows ids env raw)

  unfoldable show_photos_edit : Screen
  unfolding load_model
  show_photos_edit =
      load_model ids raw (λ m d s. reading (list_photos m.id) (λ photos. shows ids env raw))

  -- `Save`
  unfoldable pub save_model : Form → Model → Screen
  unfolding answered model_card
  save_model form m w =
      answered (λ u. redirect_saved (model_path ids m)) (λ e. e) [] (model_card ids env raw 422)
        (update_model env m.id
          (record { article = form.value "article"; active = posted_flag form "active" }) w)

  unfoldable pub save : Form → Screen
  unfolding save_model
  save form = load_model ids raw (λ m d s. save_model form m)

  -- `refusePhotos`: the card again, with an alert and no rejection of a field.
  abbrev pub refuse_photos : Screen
  refuse_photos = model_card ids env raw 422 []

  -- `RemovePhoto`
  abbrev after_remove : Model → Result (Unit {0}) × World → Answer × World
  after_remove m (ok u, w) = (redirect_saved (model_path ids m), w)
  after_remove m (err no_photo, w) = (not_found, w)
  after_remove m (err e, w) = (server_error, w)

  abbrev remove_from : Text → Model → Screen
  remove_from raw_id m w = elim (parse_id ids raw_id) [
    | none ↦ (not_found, w)
    | some id ↦ after_remove m (remove_photo env m.id id w)
  ]

  unfoldable remove : Text → Screen
  unfolding load_model
  remove raw_id = load_model ids raw (λ m d s. remove_from raw_id m)

  -- `ReorderPhotos`: an order that cannot be read, or that names another strip, brings the card back.
  abbrev after_order : Model → Result (Unit {0}) × World → Answer × World
  after_order m (ok u, w) = (redirect_saved (model_path ids m), w)
  after_order m (err photo_order, w) = refuse_photos w
  after_order m (err e, w) = (server_error, w)

  abbrev order_as : Model → Option (List Uuid) → Screen
  order_as m none w = refuse_photos w
  order_as m (some ordered) w = after_order m (reorder_photos ids.text env m.id ordered w)

  unfoldable reorder : Form → Screen
  unfolding load_model model_card
  reorder form = load_model ids raw (λ m d s. order_as m (posted_order ids form "photo_order"))

module _ (detect : List ℕ → Text) (digest : List ℕ → List ℕ) (ids : UuidForm) (env : Env)
    (raw : Text) where
  -- The end of `addOnePhoto`.
  abbrev told_photo : Result Photo × World → Disk → Added × World × Disk
  told_photo (ok p, w) d = (added, w, d)
  told_photo (err e, w) d = (broken, w, d)

  abbrev after_put : Uuid → Outcome Stored × Disk → World → Added × World × Disk
  after_put id (refused too_large, d) w = (alerted, w, d)
  after_put id (refused type_rejected, d) w = (alerted, w, d)
  after_put id (refused e, d) w = (broken, w, d)
  after_put id (done stored, d) w = told_photo (add_photo env id stored.key w) d

  -- `addOnePhoto`
  unfoldable add_one_photo : Uuid → Upload → World → Disk → Added × World × Disk
  unfolding put
  add_one_photo id u w d =
      if not u.opens
      then (broken, w, d)
      else after_put id
          (put detect digest u.faults
            (record { kind = some image; name = u.name; content = some u.content }) d)
          w

  -- The card with the alert of a refusal. The directory stays.
  abbrev alert : World → Disk → Answer × World × Disk
  alert w d = let (a, v) = refuse_photos ids env raw w in (a, v, d)

  -- The loop of `AddPhotos`: the first file that is refused stops it.
  abbrev go_on :
      (World → Disk → Answer × World × Disk) → Added × World × Disk → Answer × World × Disk
  go_on rest (added, w, d) = rest w d
  go_on rest (alerted, w, d) = alert w d
  go_on rest (broken, w, d) = (server_error, w, d)

  unfoldable add_each : Model → List Upload → World → Disk → Answer × World × Disk
  unfolding add_one_photo model_card
  add_each m [] w d = (redirect_saved (model_path ids m), w, d)
  add_each m (u ∷ uploads) w d = go_on (add_each m uploads) (add_one_photo m.id u w d)

  -- A form that cannot be read, or that names no file.
  abbrev add_uploads : Option (List Upload) → Model → World → Disk → Answer × World × Disk
  add_uploads none m w d = alert w d
  add_uploads (some []) m w d = alert w d
  add_uploads (some (u ∷ uploads)) m w d = add_each m (u ∷ uploads) w d

  -- The reads of `loadOne`. Only the first finds no model.
  abbrev load_rows : Uuid → Action Model
  load_rows id = do m ← model id; d ← drop m.drop_id; season d.season_id; pure m

  abbrev after_load : Option (List Upload) → Result Model × World → Disk → Answer × World × Disk
  after_load uploads (ok m, w) d = add_uploads uploads m w d
  after_load uploads (err e, w) d = (if is_no_model e then not_found else server_error, w, d)

  -- `AddPhotos`, over the files of the form where it can be read.
  unfoldable pub add_photos : Option (List Upload) → World → Disk → Answer × World × Disk
  unfolding add_each
  add_photos uploads w d = elim (parse_id ids raw) [
    | none ↦ (not_found, w, d)
    | some id ↦ after_load uploads (load_rows id w) d
  ]
