-- ===== src/Catalog/Photos.antt =====
-- internal/catalog/photo.go: the strip of photos of a model.
use pilam.Prelude.{
  ℕ, suc, Bool, not, Option, none, some, List, [], ◌∷◌, map, length, ◌==◌, List_eq, ℕ_eq,
  if◌then◌else◌,
}
use pilam.Prelude.Text.{Text, codes, join}
use pilam.Errors.{Error, not_allowed, no_photo, photo_order}
use pilam.Ids.{Uuid}
use pilam.Schema.{Photo, Change}
use pilam.Validate.{ready, check, err_of}
use pilam.World.{Env, Action, ◌>>=◌, ◌>>◌, pure, raise_if, raise_some, or_raise, new_id, in_tx}
use pilam.Trail.{record_trail}
use pilam.Rearranges.{rearranges, remove_at}
use pilam.Media.{is_valid_key}
use pilam.Catalog.Facts.{change}
use pilam.Catalog.Store.Models as ModelRows
use pilam.Catalog.Store.Photos as Rows
pub mod Numbers
pub mod Strips
pub mod Changes

-- `ListPhotos`
unfoldable pub list_photos : Uuid → Action (List Photo)
list_photos model_id = Rows.by_model model_id

-- `Thumbnails`
unfoldable thumbnails : List Uuid → Action (List Photo)
thumbnails [] = pure []
thumbnails (id ∷ model_ids) = Rows.thumbnails (id ∷ model_ids)

unfoldable pub check_key : Text → Option Error
check_key key = err_of (check ready (is_valid_key key) "photo" not_allowed).0.errs

abbrev pub new_photo : Uuid → Uuid → Text → List Photo → Photo
new_photo id model_id key held = record {
  id = id;
  model_id = model_id;
  media_key = key;
  position = length held;
}

-- `AddPhoto`
unfoldable pub add_photo : Env → Uuid → Text → Action Photo
unfolding check_key
add_photo env model_id key = do
  raise_some (check_key key)
  ModelRows.by_id model_id
  in_tx (do
    held ← Rows.by_model model_id
    id ← new_id env
    Rows.add (new_photo id model_id key held)
    record_trail env (change "model" model_id "photo_added" "photo" [] key ∷ [])
    pure (new_photo id model_id key held))

-- `slices.IndexFunc` with the photo at the index, from an index on.
unfoldable pub find_from : ℕ → Uuid → List Photo → Option (ℕ × Photo)
find_from at id [] = none
find_from at id (p ∷ photos) = if p.id == id then some (at, p) else find_from (suc at) id photos

-- `identifiers`
abbrev pub identifiers : List Photo → List Uuid
identifiers photos = map (λ (p : Photo). p.id) photos

-- `RemovePhoto`
unfoldable pub remove_photo : Env → Uuid → Uuid → Action (Unit {0})
unfolding find_from
remove_photo env model_id photo_id = in_tx (do
  held ← Rows.by_model model_id
  (at, removed) ← or_raise no_photo (find_from 0 photo_id held)
  Rows.remove photo_id
  Rows.reorder (identifiers (remove_at at held))
  record_trail env (change "model" model_id "photo_removed" "photo" removed.media_key [] ∷ []))

-- The identifier of each photo as text, which stands in the trail.
module _ (uuid_text : Uuid → Text) where
  -- `join`
  unfoldable join_order : List Uuid → Text
  join_order order = join (codes ",") (map uuid_text order)

  unfoldable pub reordered : Uuid → List Uuid → List Uuid → Change
  unfolding join_order
  reordered model_id was ordered =
      change "model" model_id "photo_reordered" "photo_order" (join_order was) (join_order ordered)

  unfoldable pub write_order : Env → Uuid → List Uuid → List Uuid → Action (Unit {0})
  unfolding reordered
  write_order env model_id was ordered = do
    Rows.reorder ordered
    record_trail env (reordered model_id was ordered ∷ [])

  -- `ReorderPhotos`
  unfoldable pub reorder_photos : Env → Uuid → List Uuid → Action (Unit {0})
  unfolding write_order
  reorder_photos env model_id ordered = in_tx (do
    held ← Rows.by_model model_id
    raise_if (not (rearranges (identifiers held) ordered)) photo_order
    if identifiers held == ordered
        then pure tt
        else write_order env model_id (identifiers held) ordered)
