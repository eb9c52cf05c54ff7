-- ===== src/Screens/Photos/Laws.antt =====
-- The files of the photos that the tables name.
use pilam.Prelude.{ℕ, sym, not, Option, none, some, List, [], ◌∷◌, ◌++◌, All, arith}
use mathlib.Core.Path.{subst}
use pilam.Prelude.Text.{Text}
use pilam.Errors.{Result, ok, err, catalog_id_taken, constraint_failed}
use pilam.Ids.{Uuid}
use pilam.Schema.{Model, Photo, Tables}
use pilam.World.{Env, World, raise_some, new_id}
use pilam.World.Laws.{Reads, bind-Reads, pure-Reads}
use pilam.World.Invariants.{
  Leaves, Invariant, leaves, bind-Invariant, pure-Invariant, in_tx-Invariant, raise_some-Invariant,
  or_raise-Invariant, new_id-Invariant,
}
use pilam.Trail.{record_trail}
use pilam.Trail.Laws.{record_trail-Invariant}
use pilam.Accounts.Principals.{UuidForm, parse_id}
use pilam.Catalog.Seasons.{season}
use pilam.Catalog.Drops.{drop}
use pilam.Catalog.Models.{model}
use pilam.Catalog.Facts.{change}
use pilam.Catalog.Photos.{add_photo, check_key, new_photo}
use pilam.Catalog.Store.Models as ModelRows
use pilam.Catalog.Store.Photos as Rows
use pilam.Media.{image}
use pilam.Media.Store.{
  Outcome, done, refused, Blob, Stored, Disk, MediaError, too_large, type_rejected, invalid_key,
  unknown_kind, failed, put,
}
use pilam.Media.Store.Laws.{if_by}
use pilam.Media.Store.Kept.{IsThere, Grown, Kept, put-Kept}
use pilam.Screens.{Answer, not_found}
use pilam.Screens.Calendar.Laws.{model-Reads, drop-Reads, season-Reads, model_card-same}
use pilam.Screens.Photos.{
  Upload, Added, added, alerted, broken, told_photo, after_put, add_one_photo, alert, go_on,
  add_each, add_uploads, load_rows, after_load, add_photos,
}

-- Every photo of the tables has its file in the directory.
abbrev pub HasFiles : Disk → Tables → Type 0
HasFiles d t = All (λ (p : Photo). IsThere p.media_key d) t.photos

Grown-HasFiles : (d d' : Disk) (t : Tables) → Grown d d' → HasFiles d t → HasFiles d' t
Grown-HasFiles d d' t grow h = each t.photos h
  where
    each :
        (photos : List Photo)
        → All (λ (p : Photo). IsThere p.media_key d) photos
        → All (λ (p : Photo). IsThere p.media_key d') photos
    each [] h = tt
    each (p ∷ photos) h = (grow p.media_key h.0, each photos h.1)

module _ (d : Disk) where
  add_row-HasFiles : (p : Photo) → IsThere p.media_key d → Invariant (HasFiles d) (Rows.add p)
  unfolding Rows.add
  add_row-HasFiles p there w h =
      let clash : Leaves (HasFiles d) {A = Unit {0}} (err catalog_id_taken, w) =
        leaves (HasFiles d) _ h in
      let broke : Leaves (HasFiles d) {A = Unit {0}} (err constraint_failed, w) =
        leaves (HasFiles d) _ h in
      let stored : Leaves (HasFiles d)
          (ok (tt {0}), record w { tables = Rows.with_photo w.tables p }) =
        leaves (HasFiles d) _ (snoc w.tables.photos h) in
      ground (arith, clash, broke, stored)
    where
      snoc :
          (photos : List Photo)
          → All (λ (p : Photo). IsThere p.media_key d) photos
          → All (λ (p : Photo). IsThere p.media_key d) (photos ++ p ∷ [])
      snoc [] h = (there, tt)
      snoc (q ∷ photos) h = (h.0, snoc photos h.1)

  add_photo-HasFiles :
      (env : Env) (id : Uuid) (key : Text)
      → IsThere key d
      → Invariant (HasFiles d) (add_photo env id key)
  unfolding add_photo ModelRows.by_id Rows.by_model
  add_photo-HasFiles env id key there =
      let P = HasFiles d in
      bind-Invariant P (raise_some (check_key key)) _ (raise_some-Invariant P (check_key key)) (λ _.
        bind-Invariant P (ModelRows.by_id id) _ (λ w h. or_raise-Invariant P _ _ w h)
          (λ _. in_tx-Invariant P _ (
            bind-Invariant P (Rows.by_model id) _ (λ w h. leaves P _ h)
              (λ held. bind-Invariant P (new_id env) _ (new_id-Invariant P env) (λ photo_id.
                bind-Invariant P (Rows.add (new_photo photo_id id key held)) _
                  (add_row-HasFiles (new_photo photo_id id key held) there)
                  (λ _.
                    bind-Invariant P
                      (record_trail env (change "model" id "photo_added" "photo" [] key ∷ [])) _
                      (record_trail-Invariant P (λ t e h. h) env _)
                      (λ _. pure-Invariant P (new_photo photo_id id key held))))))))

-- What a handler with the directory leaves.
abbrev pub HasBoth : {A : Type 0} → A × World × Disk → Type 0
HasBoth r = HasFiles r.2 r.1.tables

module _ (detect : List ℕ → Text) (digest : List ℕ → List ℕ) (ids : UuidForm) (env : Env)
    (raw : Text) where
  told-HasBoth :
      (r : Result Photo × World) (d : Disk)
      → Leaves (HasFiles d) r
      → HasBoth (told_photo detect digest ids env raw r d)
  told-HasBoth (ok p, w) d h = h.kept
  told-HasBoth (err e, w) d h = h.kept

  after_put-HasBoth :
      (id : Uuid) (r : Outcome Stored × Disk) (w : World) (d : Disk)
      → Kept d r
      → HasFiles d w.tables
      → HasBoth (after_put detect digest ids env raw id r w)
  after_put-HasBoth id (done s, d') w d (grow, there) h =
      told-HasBoth (add_photo env id s.key w) d'
        (add_photo-HasFiles d' env id s.key there w (Grown-HasFiles d d' w.tables grow h))
  after_put-HasBoth id (refused too_large, d') w d grow h = Grown-HasFiles d d' w.tables grow h
  after_put-HasBoth id (refused type_rejected, d') w d grow h = Grown-HasFiles d d' w.tables grow h
  after_put-HasBoth id (refused invalid_key, d') w d grow h = Grown-HasFiles d d' w.tables grow h
  after_put-HasBoth id (refused unknown_kind, d') w d grow h = Grown-HasFiles d d' w.tables grow h
  after_put-HasBoth id (refused failed, d') w d grow h = Grown-HasFiles d d' w.tables grow h
  after_put-HasBoth id (refused MediaError.not_found, d') w d grow h =
      Grown-HasFiles d d' w.tables grow h

  add_one-HasBoth :
      (id : Uuid) (u : Upload) (w : World) (d : Disk)
      → HasFiles d w.tables
      → HasBoth (add_one_photo detect digest ids env raw id u w d)
  unfolding add_one_photo
  add_one-HasBoth id u w d h =
      if_by HasBoth (not u.opens) (λ _. h)
        (λ _.
          let blob : Blob = record { kind = some image; name = u.name; content = some u.content } in
          after_put-HasBoth id (put detect digest u.faults blob d) w d
            (put-Kept detect digest u.faults d blob) h)

  alert-HasBoth :
      (w : World) (d : Disk) → HasFiles d w.tables → HasBoth (alert detect digest ids env raw w d)
  alert-HasBoth w d h = subst (HasFiles d) (sym (model_card-same ids env raw 422 [] w)) h

  go_on-HasBoth :
      (rest : World → Disk → Answer × World × Disk) (r : Added × World × Disk)
      → ((w : World) (d : Disk) → HasFiles d w.tables → HasBoth (rest w d))
      → HasBoth r
      → HasBoth (go_on detect digest ids env raw rest r)
  go_on-HasBoth rest (added, w, d) keeps h = keeps w d h
  go_on-HasBoth rest (alerted, w, d) keeps h = alert-HasBoth w d h
  go_on-HasBoth rest (broken, w, d) keeps h = h

  add_each-HasBoth :
      (m : Model) (uploads : List Upload) (w : World) (d : Disk)
      → HasFiles d w.tables
      → HasBoth (add_each detect digest ids env raw m uploads w d)
  unfolding add_each
  add_each-HasBoth m [] w d h = h
  add_each-HasBoth m (u ∷ uploads) w d h =
      go_on-HasBoth _ _ (add_each-HasBoth m uploads) (add_one-HasBoth m.id u w d h)

  add_uploads-HasBoth :
      (uploads : Option (List Upload)) (m : Model) (w : World) (d : Disk)
      → HasFiles d w.tables
      → HasBoth (add_uploads detect digest ids env raw uploads m w d)
  add_uploads-HasBoth none m w d h = alert-HasBoth w d h
  add_uploads-HasBoth (some []) m w d h = alert-HasBoth w d h
  add_uploads-HasBoth (some (u ∷ uploads)) m w d h = add_each-HasBoth m (u ∷ uploads) w d h

  load_rows-Reads : (id : Uuid) (w : World) → Reads w (load_rows detect digest ids env raw id w)
  load_rows-Reads id w = bind-Reads (model id) _ w (model-Reads id w) (λ m w1.
      bind-Reads (drop m.drop_id) _ w1 (drop-Reads m.drop_id w1) (λ row w2.
        bind-Reads (season row.season_id) _ w2 (season-Reads row.season_id w2)
          (λ s w3. pure-Reads m w3)))

  after_load-HasBoth :
      (uploads : Option (List Upload)) (r : Result Model × World) (w : World) (d : Disk)
      → Reads w r
      → HasFiles d w.tables
      → HasBoth (after_load detect digest ids env raw uploads r d)
  after_load-HasBoth uploads (ok m, v) w d same h =
      add_uploads-HasBoth uploads m v d (subst (HasFiles d) (sym same.tables_same) h)
  after_load-HasBoth uploads (err e, v) w d same h = subst (HasFiles d) (sym same.tables_same) h

  -- Where every photo of the tables has its file in the directory, every photo has its file after
  -- the handler that adds photos, whichever of its files is refused, does not open or fails in the
  -- store or in the tables.
  pub add_photos-HasFiles :
      (uploads : Option (List Upload)) (w : World) (d : Disk)
      → HasFiles d w.tables
      → HasBoth (add_photos detect digest ids env raw uploads w d)
  unfolding add_photos
  add_photos-HasFiles uploads w d h = by_id (parse_id ids raw)
    where
      by_id :
          (o : Option Uuid)
          → HasBoth (elim o as (λ _. Answer × World × Disk) [
            | none ↦ (not_found, w, d)
            | some id ↦
                after_load detect digest ids env raw uploads
                  (load_rows detect digest ids env raw id w)
                  d
          ])
      by_id none = h
      by_id (some id) =
          after_load-HasBoth uploads (load_rows detect digest ids env raw id w) w d
            (load_rows-Reads id w) h
