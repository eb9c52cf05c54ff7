-- ===== src/Catalog/Store/Photos.antt =====
-- internal/postgres/catalog_photo.go: the table model_photo.
use pilam.Prelude.{
  ℕ, ◌+◌, not, ◌&&◌, List, [], ◌∷◌, ◌++◌, any, keep_if, map, leb, if◌then◌else◌, ◌==◌, ◌!=◌, ℕ_eq,
}
use pilam.Prelude.Sort.{sort_by}
use pilam.Errors.{no_photo, catalog_id_taken, constraint_failed, ok, err}
use pilam.Ids.{Uuid}
use pilam.Schema.{Model, Photo, Tables}
use pilam.World.{Action, ◌>>◌, pure, reads, in_tx}

-- ListPhotosByModel, in position order.
abbrev pub strip : Uuid → List Photo → List Photo
strip model_id photos =
    sort_by (λ (a b : Photo). leb a.position b.position)
      (keep_if (λ (r : Photo). r.model_id == model_id) photos)

unfoldable pub by_model : Uuid → Action (List Photo)
by_model model_id = reads (λ t. strip model_id t.photos)

-- ListThumbnails: the map that the adapter builds of them has one photo for a model.
unfoldable pub thumbnails : List Uuid → Action (List Photo)
thumbnails model_ids = reads (λ t.
    keep_if (λ (r : Photo). any (λ i. i == r.model_id) model_ids && (r.position == 0)) t.photos)

abbrev pub with_photo : Tables → Photo → Tables
with_photo t p = record t { photos = t.photos ++ p ∷ [] }

-- `int32` keeps a position as it is: it counts rows.
unfoldable pub add : Photo → Action (Unit {0})
add p w =
    if any (λ (r : Photo). r.id == p.id) w.tables.photos
    then (err catalog_id_taken, w)
    else if not (any (λ (r : Model). r.id == p.model_id) w.tables.models)
    then (err constraint_failed, w)
    else (ok tt, record w { tables = with_photo w.tables p })

abbrev pub without_photo : Tables → Uuid → Tables
without_photo t id = record t { photos = keep_if (λ (r : Photo). r.id != id) t.photos }

unfoldable pub remove : Uuid → Action (Unit {0})
remove id w =
    if not (any (λ (r : Photo). r.id == id) w.tables.photos)
    then (err no_photo, w)
    else (ok tt, record w { tables = without_photo w.tables id })

abbrev pub placed : Uuid → ℕ → Photo → Photo
placed id position r = if r.id == id then record r { position = position } else r

-- SetPhotoPosition
unfoldable pub set_position : Uuid → ℕ → Action (Unit {0})
set_position id position w =
    if not (any (λ (r : Photo). r.id == id) w.tables.photos) then (err no_photo, w) else (
      ok tt,
      record w { tables = record w.tables { photos = map (placed id position) w.tables.photos } },
    )

-- The loop of `Reorder` at a position.
unfoldable pub place_from : ℕ → List Uuid → Action (Unit {0})
unfolding set_position
place_from position [] = pure tt
place_from position (id ∷ ordered) = do set_position id position; place_from (position + 1) ordered

unfoldable pub reorder : List Uuid → Action (Unit {0})
unfolding place_from in_tx
reorder [] = pure tt
reorder (id ∷ ordered) = in_tx (place_from 0 (id ∷ ordered))
