-- ===== src/Catalog/Photos/Numbers.antt =====
-- The rows of model_photo as numbered rows, and what each statement of the table does to them.
use pilam.Prelude.{
  ℕ, suc, ◌+◌, ◌≡◌, refl, ap, ◌∙◌, sym, some, List, [], ◌∷◌, ◌++◌, ◌==◌, ◌!=◌, ℕ_eq, length, map,
  keep_if, if◌then◌else◌, leb, arith, Bool-cases, inl, inr,
}
use pilam.Prelude.Sort.{tally, tally-sort_by, length-sort_by}
use pilam.Errors.{ok}
use pilam.Ids.{Uuid}
use pilam.Schema.{Photo, Tables}
use pilam.World.{World}
use pilam.World.Success.{bind-Answers, in_tx-Committed}
use pilam.Rearranges.{remove_at}
use pilam.Rearranges.Laws.{count}
use pilam.Slots.{Slot, rows_of, named_of, move_to, place}
use pilam.Slots.Dense.{dropped}
use pilam.Catalog.Photos.{identifiers, find_from}
use pilam.Catalog.Store.Photos as Rows

abbrev pub slot_of : Photo → Slot
slot_of p = record { id = p.id; owner = p.model_id; position = p.position }

abbrev pub slots : List Photo → List Slot
slots photos = map slot_of photos

-- The statements on the slots.
slots-placed :
    (id : Uuid) (k : ℕ) (photos : List Photo)
    → slots (map (Rows.placed id k) photos) ≡ map (move_to id k) (slots photos)
slots-placed id k [] = refl
slots-placed id k (p ∷ photos) = ground (arith, slots-placed id k photos)

pub slots-snoc :
    (p : Photo) (photos : List Photo) → slots (photos ++ p ∷ []) ≡ slots photos ++ slot_of p ∷ []
slots-snoc p [] = refl
slots-snoc p (q ∷ photos) = ap (λ rest. slot_of q ∷ rest) (slots-snoc p photos)

pub slots-without :
    (id : Uuid) (photos : List Photo)
    → slots (keep_if (λ (r : Photo). r.id != id) photos) ≡ dropped id (slots photos)
slots-without id [] = refl
slots-without id (p ∷ photos) = ground (arith, slots-without id photos)

map-place :
    (at : ℕ) (id : Uuid) (ordered : List Uuid) (rows : List Slot)
    → map (place (at + 1) ordered) (map (move_to id at) rows) ≡ map (place at (id ∷ ordered)) rows
map-place at id ordered [] = refl
map-place at id ordered (r ∷ rows) =
    ap (λ rest. place at (id ∷ ordered) r ∷ rest) (map-place at id ordered rows)

map-place-none : (at : ℕ) (rows : List Slot) → map (place at []) rows ≡ rows
map-place-none at [] = refl
map-place-none at (r ∷ rows) = ap (λ rest. r ∷ rest) (map-place-none at rows)

set_position-ok :
    (id : Uuid) (k : ℕ) (w w' : World)
    → Rows.set_position id k w ≡ (ok tt, w')
    → slots w'.tables.photos ≡ map (move_to id k) (slots w.tables.photos)
unfolding Rows.set_position
set_position-ok id k w w' h = ground (arith, slots-placed id k w.tables.photos)

place_from-ok :
    (at : ℕ) (ordered : List Uuid) (w w' : World)
    → Rows.place_from at ordered w ≡ (ok tt, w')
    → slots w'.tables.photos ≡ map (place at ordered) (slots w.tables.photos)
unfolding Rows.place_from
place_from-ok at [] w w' h =
    ap (λ (u : World). slots u.tables.photos) (sym (ap (λ r. r.1) h))
    ∙ sym (map-place-none at (slots w.tables.photos))
place_from-ok at (id ∷ ordered) w w' h =
    let (first, rest) =
      bind-Answers (Rows.set_position id at) (λ _. Rows.place_from (at + 1) ordered) w w' tt h in
    place_from-ok (at + 1) ordered first.after w' rest
    ∙ (ap (map (place (at + 1) ordered)) (set_position-ok id at w first.after first.same)
        ∙ map-place at id ordered (slots w.tables.photos))

pub reorder-ok :
    (ordered : List Uuid) (w w' : World)
    → Rows.reorder ordered w ≡ (ok tt, w')
    → slots w'.tables.photos ≡ map (place 0 ordered) (slots w.tables.photos)
unfolding Rows.reorder
reorder-ok [] w w' h =
    ap (λ (u : World). slots u.tables.photos) (sym (ap (λ r. r.1) h))
    ∙ sym (map-place-none 0 (slots w.tables.photos))
reorder-ok (id ∷ ordered) w w' h =
    let done = in_tx-Committed (Rows.place_from 0 (id ∷ ordered)) w w' tt h in
    ap (λ (t : Tables). slots t.photos) done.ended
    ∙ (place_from-ok 0 (id ∷ ordered) done.before done.after done.ran
        ∙ ap (λ (t : Tables). map (place 0 (id ∷ ordered)) (slots t.photos)) done.began)

-- What the strip of a model names.
count-tally :
    (a : Uuid) (photos : List Photo)
    → count a (identifiers photos) ≡ tally (λ (p : Photo). p.id == a) photos
count-tally a [] = refl
count-tally a (p ∷ photos) = ground (arith, count-tally a photos)

tally-kept :
    (m a : Uuid) (photos : List Photo)
    → tally (λ (p : Photo). p.id == a) (keep_if (λ (r : Photo). r.model_id == m) photos)
      ≡ named_of m a (slots photos)
tally-kept m a [] = refl
tally-kept m a (p ∷ photos) = ground (arith, tally-kept m a photos)

length-kept :
    (m : Uuid) (photos : List Photo)
    → length (keep_if (λ (r : Photo). r.model_id == m) photos) ≡ rows_of m (slots photos)
length-kept m [] = refl
length-kept m (p ∷ photos) = ground (arith, length-kept m photos)

pub count-strip :
    (m a : Uuid) (photos : List Photo)
    → count a (identifiers (Rows.strip m photos)) ≡ named_of m a (slots photos)
count-strip m a photos =
    count-tally a (Rows.strip m photos)
    ∙ (tally-sort_by (λ (a b : Photo). leb a.position b.position) (λ (p : Photo). p.id == a) _
        ∙ tally-kept m a photos)

pub length-strip :
    (m : Uuid) (photos : List Photo) → length (Rows.strip m photos) ≡ rows_of m (slots photos)
length-strip m photos =
    length-sort_by (λ (a b : Photo). leb a.position b.position) _ ∙ length-kept m photos

-- What is left of a strip without the photo that was found at an index.
pub record Found (id : Uuid) (photos : List Photo) (at : ℕ) : Type 0 where
  pub left_names :
      (a : Uuid)
      → count a (identifiers photos)
        ≡ (if id == a then 1 else 0) + count a (identifiers (remove_at at photos))
  pub left_long : length photos ≡ suc (length (remove_at at photos))

find_from-index :
    (from : ℕ) (id : Uuid) (photos : List Photo) (at : ℕ) (p : Photo)
    → find_from from id photos ≡ some (at, p)
    → (i : ℕ) × (at ≡ from + i) × Found id photos i
unfolding find_from remove_at
find_from-index from id [] at p h = absurd (ground arith)
find_from-index from id (q ∷ photos) at p h = elim (Bool-cases (q.id == id)) [
  | inl here ↦ (0, ground arith, record { left_names = λ a. ground arith; left_long = refl })
  | inr other ↦
      let (i, e, found) = find_from-index (suc from) id photos at p (ground arith) in
      (
        suc i,
        omega (arith, e),
        record {
          left_names = λ a. ground (arith, found.left_names a);
          left_long = ap suc found.left_long;
        },
      )
]

pub find_from-Found :
    (id : Uuid) (photos : List Photo) (at : ℕ) (p : Photo)
    → find_from 0 id photos ≡ some (at, p)
    → Found id photos at
find_from-Found id photos at p h =
    let (i, e, found) = find_from-index 0 id photos at p h in
    let same : i ≡ at = omega (arith, e) in rw (sym same) found
