-- ===== src/Catalog/Photos/Changes.antt =====
-- The strips of the models when a photo is added and when one is removed.
use pilam.Prelude.{
  ℕ, ◌+◌, ◌≡◌, refl, ap, ◌∙◌, sym, false, some, List, [], ◌∷◌, ◌==◌, ℕ_eq, List_eq, length-map, any,
  arith,
}
use pilam.Prelude.Text.{Text}
use pilam.Errors.{ok, no_photo}
use pilam.Ids.{Uuid}
use pilam.Schema.{Photo, Tables}
use pilam.World.{Env, World, Action, ◌>>=◌, ◌>>◌, pure, or_raise, raise_some, new_id, in_tx}
use pilam.World.Success.{bind-Answers, or_raise-ok}
use pilam.World.Invariants.{Leaves, bind-Invariant, pure-Invariant, bind-Leaves}
use pilam.World.Laws.{Reads, raise_some-Reads, or_raise-Reads}
use pilam.Trail.{record_trail}
use pilam.Rearranges.{remove_at}
use pilam.Slots.{named, named_of, named_of-le, named_of-two}
use pilam.Slots.Dense.{
  snoc-IsDense, snoc-IsKeyed, dropped, dropped-named, dropped-named_of, dropped-rows_of,
  dropped-DenseAt,
}
use pilam.Catalog.Facts.{change}
use pilam.Catalog.Photos.{add_photo, remove_photo, identifiers, find_from, new_photo, check_key}
use pilam.Catalog.Photos.Numbers.{
  slots, slot_of, slots-snoc, slots-without, count-strip, length-strip, find_from-Found,
}
use pilam.Catalog.Photos.Strips.{
  HasStrips, in_tx-Leaves, Leaves-ok, trail-HasStrips, Placeable, place_told-HasStrips,
}
use pilam.Catalog.Store.Models as ModelRows
use pilam.Catalog.Store.Photos as Rows

remove-ok :
    (id : Uuid) (w w' : World)
    → Rows.remove id w ≡ (ok tt, w')
    → w'.tables ≡ Rows.without_photo w.tables id
unfolding Rows.remove
remove-ok id w w' h = ground arith

-- The photos without one that the strip of a model holds.
left-Placeable :
    (m id : Uuid) (at : ℕ) (p : Photo) (t : Tables)
    → HasStrips t
    → find_from 0 id (Rows.strip m t.photos) ≡ some (at, p)
    → Placeable m (identifiers (remove_at at (Rows.strip m t.photos))) (Rows.without_photo t id)
left-Placeable m id at p t (keyed, dense) e =
    let found = find_from-Found id (Rows.strip m t.photos) at p e in
    let rows = slots t.photos in
    let left = remove_at at (Rows.strip m t.photos) in
    let same : slots (Rows.without_photo t id).photos ≡ dropped id rows =
      slots-without id t.photos in
    let here : named_of m id rows ≡ 1 =
      ground
        (arith, found.left_names id, count-strip m id t.photos, keyed id, named_of-le m id rows) in
    record {
      keyed = rw same (λ a. omega (arith, keyed a, dropped-named id a rows));
      orders = rw same (
        (λ a. ground (
          arith,
          found.left_names a,
          count-strip m a t.photos,
          dropped-named_of id m a rows,
          here,
        )),
        omega (
          arith,
          found.left_long,
          length-strip m t.photos,
          dropped-rows_of id m rows,
          here,
          length-map (λ (p : Photo). p.id) left,
        ),
      );
      others = λ n other. rw same (
          dropped-DenseAt id n rows (omega (arith, keyed id, named_of-two m n id rows other, here))
            (dense n));
    }

module _ (env : Env) (model_id photo_id : Uuid) where
  -- `remove_photo` after its read of the strip.
  abbrev remove_found : List Photo → ℕ × Photo → Action (Unit {0})
  remove_found held (at, removed) = do
    Rows.remove photo_id
    Rows.reorder (identifiers (remove_at at held))
    record_trail env (change "model" model_id "photo_removed" "photo" removed.media_key [] ∷ [])

  remove_found-HasStrips :
      (at : ℕ) (p : Photo) (w w' : World)
      → HasStrips w.tables
      → find_from 0 photo_id (Rows.strip model_id w.tables.photos) ≡ some (at, p)
      → remove_found (Rows.strip model_id w.tables.photos) (at, p) w ≡ (ok tt, w')
      → HasStrips w'.tables
  remove_found-HasStrips at p w w' h found e =
      let ids = identifiers (remove_at at (Rows.strip model_id w.tables.photos)) in
      let changes = change "model" model_id "photo_removed" "photo" p.media_key [] ∷ [] in
      let (first, rest) =
        bind-Answers (Rows.remove photo_id) (λ _. Rows.reorder ids >> record_trail env changes) w w'
          tt e in
      place_told-HasStrips env model_id ids changes first.after w'
        (rw (remove-ok photo_id w first.after first.same)
          (left-Placeable model_id photo_id at p w.tables h found))
        rest

  -- Whatever it answers, a removal of a photo outside a transaction keeps the positions of every
  -- model at 0, 1, 2 and so on.
  pub remove_photo-HasStrips :
      (w : World)
      → w.joined ≡ false
      → HasStrips w.tables
      → Leaves HasStrips (remove_photo env model_id photo_id w)
  unfolding remove_photo Rows.by_model
  remove_photo-HasStrips w alone h = in_tx-Leaves HasStrips _ w alone h (λ u u' a began ran.
      let held = Rows.strip model_id u.tables.photos in
      let (first, rest) =
        bind-Answers (or_raise no_photo (find_from 0 photo_id held)) (remove_found held) u u' a
          ran in
      let (found, there) = or_raise-ok _ _ u first.after first.value first.same in
      remove_found-HasStrips first.value.0 first.value.1 u u' (rw began h) found
        (ap (remove_found held first.value) (sym there) ∙ rest))

-- A photo at the end of the strip of its model.
added-HasStrips :
    (id m : Uuid) (key : Text) (t : Tables)
    → HasStrips t
    → any (λ (r : Photo). r.id == id) t.photos ≡ false
    → HasStrips (Rows.with_photo t (new_photo id m key (Rows.strip m t.photos)))
added-HasStrips id m key t (keyed, dense) new =
    let p = new_photo id m key (Rows.strip m t.photos) in
    rw (slots-snoc p t.photos) (
      snoc-IsKeyed (slot_of p) (slots t.photos) (named-new id t.photos new) keyed,
      snoc-IsDense (slot_of p) (slots t.photos) (length-strip m t.photos) dense,
    )
  where
    named-new :
        (id : Uuid) (photos : List Photo)
        → any (λ (r : Photo). r.id == id) photos ≡ false
        → named id (slots photos) ≡ 0
    named-new id [] h = refl
    named-new id (q ∷ photos) h = ground (arith, named-new id photos)

add-ok :
    (p : Photo) (w w' : World)
    → Rows.add p w ≡ (ok tt, w')
    → (any (λ (r : Photo). r.id == p.id) w.tables.photos ≡ false)
      × (w'.tables ≡ Rows.with_photo w.tables p)
unfolding Rows.add
add-ok p w w' h = ground arith

model-Reads : (id : Uuid) (w : World) → Reads w (ModelRows.by_id id w)
unfolding ModelRows.by_id
model-Reads id w = or_raise-Reads _ _ w

module _ (env : Env) (model_id : Uuid) (key : Text) where
  -- `add_photo` after its read of the strip.
  abbrev add_held : List Photo → Uuid → Action Photo
  add_held held id = do
    Rows.add (new_photo id model_id key held)
    record_trail env (change "model" model_id "photo_added" "photo" [] key ∷ [])
    pure (new_photo id model_id key held)

  abbrev tell_photo : Photo → Action Photo
  tell_photo p =
      record_trail env (change "model" model_id "photo_added" "photo" [] key ∷ []) >> pure p

  add_held-HasStrips :
      (id : Uuid) (p : Photo) (w w' : World)
      → HasStrips w.tables
      → add_held (Rows.strip model_id w.tables.photos) id w ≡ (ok p, w')
      → HasStrips w'.tables
  add_held-HasStrips id p w w' h e =
      let new = new_photo id model_id key (Rows.strip model_id w.tables.photos) in
      let (first, rest) = bind-Answers (Rows.add new) (λ _. tell_photo new) w w' p e in
      let (free, there) = add-ok new w first.after first.same in
      let told =
        bind-Invariant HasStrips (record_trail env _) (λ _. pure new) (trail-HasStrips env _)
          (λ _. pure-Invariant HasStrips new) first.after
          (rw there (added-HasStrips id model_id key w.tables h free)) in
      Leaves-ok HasStrips _ p w' rest told

  abbrev add_tx : Action Photo
  add_tx = do held ← Rows.by_model model_id; id ← new_id env; add_held held id

  add_tx-HasStrips :
      (w : World) → w.joined ≡ false → HasStrips w.tables → Leaves HasStrips (in_tx add_tx w)
  unfolding Rows.by_model new_id
  add_tx-HasStrips w alone h = in_tx-Leaves HasStrips add_tx w alone h (λ u u' a began ran.
      add_held-HasStrips (env.fresh u.drawn) a (record u { drawn = u.drawn + 1 }) u' (rw began h)
        ran)

  -- Whatever it answers, an addition of a photo outside a transaction keeps the positions of
  -- every model at 0, 1, 2 and so on.
  pub add_photo-HasStrips :
      (w : World)
      → w.joined ≡ false
      → HasStrips w.tables
      → Leaves HasStrips (add_photo env model_id key w)
  unfolding add_photo
  add_photo-HasStrips w alone h =
      bind-Leaves HasStrips (raise_some (check_key key))
        (λ _. ModelRows.by_id model_id >> in_tx add_tx) w h (raise_some-Reads _ w)
        (λ _ w1 j1 h1.
          bind-Leaves HasStrips (ModelRows.by_id model_id) (λ _. in_tx add_tx) w1 h1
            (model-Reads model_id w1) (λ _ w2 j2 h2. add_tx-HasStrips w2 (j2 ∙ (j1 ∙ alone)) h2))
