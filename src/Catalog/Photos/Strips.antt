-- ===== src/Catalog/Photos/Strips.antt =====
-- The strip of every model stands at 0, 1, 2 and so on, whatever is done to its photos.
use pilam.Prelude.{
  ◌≡◌, refl, ap, ◌∙◌, sym, true, false, not, List, [], ◌∷◌, ◌==◌, ℕ_eq, List_eq, length-map,
  if◌then◌else◌, arith, Bool-cases, inl, inr,
}
use pilam.Prelude.Text.{Text}
use pilam.Errors.{Result, ok, err, photo_order}
use pilam.Ids.{Uuid}
use pilam.Schema.{Photo, Tables, Change}
use pilam.World.{Env, World, Action, ◌>>◌, pure, in_tx, raise_if}
use pilam.World.Laws.{Keeps, in_tx-Keeps}
use pilam.World.Success.{bind-Answers, in_tx-Committed, raise_if-ok}
use pilam.World.Invariants.{Invariant, Leaves, leaves}
use pilam.Trail.{record_trail}
use pilam.Trail.Laws.{record_trail-Invariant}
use pilam.Rearranges.{rearranges}
use pilam.Rearranges.Laws.{rearranges_iff, rearranges-length}
use pilam.Slots.{IsDense, IsKeyed}
use pilam.Slots.Dense.{Orders, place-IsDense, place-IsKeyed, DenseAt}
use pilam.Catalog.Photos.{reorder_photos, write_order, reordered, identifiers}
use pilam.Catalog.Photos.Numbers.{slots, reorder-ok, count-strip, length-strip}
use pilam.Catalog.Store.Photos as Rows

-- The identifiers of the photos are keys, and the positions of every model are 0, 1, 2 and so on.
abbrev pub HasStrips : Tables → Type 0
HasStrips t = IsKeyed (slots t.photos) × IsDense (slots t.photos)

-- A transaction of its own, by what its run to the end leaves.
pub in_tx-Leaves :
    {A : Type 0} (P : Tables → Type 0) (fn : Action A) (w : World)
    → w.joined ≡ false
    → P w.tables
    → ((u u' : World) (a : A) → u.tables ≡ w.tables → fn u ≡ (ok a, u') → P u'.tables)
    → Leaves P (in_tx fn w)
in_tx-Leaves {A} P fn w alone h run = by_result (in_tx fn w) refl (in_tx-Keeps fn w alone)
  where
    by_result : (r : Result A × World) → in_tx fn w ≡ r → Keeps w r → Leaves P r
    by_result (ok a, w') e k =
        let done = in_tx-Committed fn w w' a e in
        leaves P _ (rw done.ended (run done.before done.after a done.began done.ran))
    by_result (err d, w') e k = leaves P _ (rw k h)

pub Leaves-ok :
    {A : Type 0} (P : Tables → Type 0) (r : Result A × World) (a : A) (w' : World)
    → r ≡ (ok a, w')
    → Leaves P r
    → P w'.tables
Leaves-ok P r a w' e h = rw (sym (ap (λ (r : Result _ × World). r.1) e)) h.kept

pub trail-HasStrips :
    (env : Env) (changes : List Change) → Invariant HasStrips (record_trail env changes)
trail-HasStrips = record_trail-Invariant HasStrips (λ t e h. h)

-- Photos that have strips once those of one model are placed in an order that names each of them
-- once.
pub record Placeable (m : Uuid) (ordered : List Uuid) (t : Tables) : Type 0 where
  pub keyed : IsKeyed (slots t.photos)
  pub orders : Orders m ordered (slots t.photos)
  pub others : (n : Uuid) → (m == n) ≡ false → DenseAt n (slots t.photos)

-- The end of a removal and of a reorder.
pub place_told-HasStrips :
    (env : Env) (m : Uuid) (ordered : List Uuid) (changes : List Change) (w w' : World)
    → Placeable m ordered w.tables
    → (Rows.reorder ordered >> record_trail env changes) w ≡ (ok tt, w')
    → HasStrips w'.tables
place_told-HasStrips env m ordered changes w w' h e =
    let (first, rest) =
      bind-Answers (Rows.reorder ordered) (λ _. record_trail env changes) w w' tt e in
    let placed : HasStrips first.after.tables = rw (reorder-ok ordered w first.after first.same) (
      place-IsKeyed ordered (slots w.tables.photos) h.keyed,
      place-IsDense m ordered (slots w.tables.photos) h.keyed h.orders h.others,
    ) in
    Leaves-ok HasStrips _ tt w' rest (trail-HasStrips env changes first.after placed)

-- An order that rearranges a strip names each photo of the model once.
strip-Orders :
    (m : Uuid) (ordered : List Uuid) (t : Tables)
    → rearranges (identifiers (Rows.strip m t.photos)) ordered ≡ true
    → Orders m ordered (slots t.photos)
strip-Orders m ordered t h = (
  λ a. ((rearranges_iff _ ordered).0 h).1 a ∙ count-strip m a t.photos,
  sym (rearranges-length _ ordered h)
      ∙ (length-map (λ (p : Photo). p.id) (Rows.strip m t.photos) ∙ length-strip m t.photos),
)

module _ (uuid_text : Uuid → Text) (env : Env) (model_id : Uuid) where
  -- `reorder_photos` after its read of the strip.
  abbrev reorder_held : List Uuid → List Photo → Action (Unit {0})
  reorder_held ordered held =
      if identifiers held == ordered
      then pure tt
      else write_order uuid_text env model_id (identifiers held) ordered

  reorder_held-HasStrips :
      (ordered : List Uuid) (w w' : World)
      → HasStrips w.tables
      → rearranges (identifiers (Rows.strip model_id w.tables.photos)) ordered ≡ true
      → reorder_held ordered (Rows.strip model_id w.tables.photos) w ≡ (ok tt, w')
      → HasStrips w'.tables
  unfolding write_order
  reorder_held-HasStrips ordered w w' h accepted e =
      let was = identifiers (Rows.strip model_id w.tables.photos) in
      elim (Bool-cases (was == ordered)) [
        | inl same ↦
            rw
              (sym (
                ap (λ r. r.1)
                  (ap
                      (λ b.
                        (if b then pure tt else write_order uuid_text env model_id was ordered) w)
                      (sym same)
                    ∙ e)))
              h
        | inr moved ↦
            place_told-HasStrips env model_id ordered
              (reordered uuid_text model_id was ordered ∷ []) w w'
              (record {
                keyed = h.0;
                orders = strip-Orders model_id ordered w.tables accepted;
                others = λ n _. h.1 n;
              })
              (ap (λ b. (if b then pure tt else write_order uuid_text env model_id was ordered) w)
                  (sym moved)
                ∙ e)
      ]

  -- Whatever it answers, a reorder of the photos of a model outside a transaction keeps the
  -- positions of every model at 0, 1, 2 and so on.
  pub reorder_photos-HasStrips :
      (ordered : List Uuid) (w : World)
      → w.joined ≡ false
      → HasStrips w.tables
      → Leaves HasStrips (reorder_photos uuid_text env model_id ordered w)
  unfolding reorder_photos Rows.by_model
  reorder_photos-HasStrips ordered w alone h =
      in_tx-Leaves HasStrips _ w alone h (λ u u' a began ran.
        let (first, rest) =
          bind-Answers
            (raise_if (not (rearranges (identifiers (Rows.strip model_id u.tables.photos)) ordered))
              photo_order)
            (λ _. reorder_held ordered (Rows.strip model_id u.tables.photos)) u u' a ran in
        let (passed, there) = raise_if-ok _ _ u first.after first.same in
        reorder_held-HasStrips ordered u u' (rw began h) (ground arith)
          (ap (reorder_held ordered (Rows.strip model_id u.tables.photos)) (sym there) ∙ rest))
