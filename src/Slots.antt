-- ===== src/Slots.antt =====
-- The numbered rows of an owner, as the photos of a model and the items of a template are: what
-- writing the positions of an order does to them.
use pilam.Prelude.{
  ℕ, suc, zero, ◌+◌, ◌≤◌, ◌<◌, ◌≡◌, refl, ap, ◌∙◌, ◌⊎◌, inl, inr, Bool, true, false, not, ◌&&◌,
  Option, none, some, List, [], ◌∷◌, ◌++◌, ◌==◌, ℕ_eq, length, map, keep_if, get_elem?,
  if◌then◌else◌, ltb, arith, Bool-cases,
}
use pilam.Ids.{Uuid}
use pilam.Rearranges.Laws.{count, IsDistinct, SameItems}
pub mod Dense

pub record Slot : Type 0 where
  pub id : Uuid
  pub owner : Uuid
  pub position : ℕ

abbrev pub owned : Uuid → Slot → Bool
owned m r = r.owner == m

abbrev pub bit : Bool → ℕ
bit b = if b then 1 else 0

-- How many rows an owner has, and how many of them stand at a position.
abbrev pub rows_of : Uuid → List Slot → ℕ
rows_of m [] = 0
rows_of m (r ∷ rows) = bit (owned m r) + rows_of m rows

abbrev pub rows_at : Uuid → ℕ → List Slot → ℕ
rows_at m k [] = 0
rows_at m k (r ∷ rows) = bit (owned m r && (r.position == k)) + rows_at m k rows

-- How many rows have an identifier, and how many rows of an owner have it.
abbrev pub named : Uuid → List Slot → ℕ
named a [] = 0
named a (r ∷ rows) = bit (r.id == a) + named a rows

abbrev pub named_of : Uuid → Uuid → List Slot → ℕ
named_of m a [] = 0
named_of m a (r ∷ rows) = bit (owned m r && (r.id == a)) + named_of m a rows

-- The rows of every owner stand at 0, 1, 2 and so on, one at each position.
abbrev pub IsDense : List Slot → Type 0
IsDense rows = (m : Uuid) (k : ℕ) → rows_at m k rows ≡ (if ltb k (rows_of m rows) then 1 else 0)

-- Identifiers are keys.
abbrev pub IsKeyed : List Slot → Type 0
IsKeyed rows = (a : Uuid) → named a rows ≤ 1

abbrev pub move_to : Uuid → ℕ → Slot → Slot
move_to id position r = if r.id == id then record r { position = position } else r

-- The positions of an order, from a first one on.
abbrev pub place : ℕ → List Uuid → Slot → Slot
place at [] r = r
place at (id ∷ ordered) r = place (at + 1) ordered (move_to id at r)

pub place-id : (at : ℕ) (ordered : List Uuid) (r : Slot) → (place at ordered r).id ≡ r.id
place-id at [] r = refl
place-id at (x ∷ ordered) r = ground (arith, place-id (at + 1) ordered (move_to x at r))

pub place-owner : (at : ℕ) (ordered : List Uuid) (r : Slot) → (place at ordered r).owner ≡ r.owner
place-owner at [] r = refl
place-owner at (x ∷ ordered) r = ground (arith, place-owner (at + 1) ordered (move_to x at r))

-- The order names an identifier at an index.
abbrev names_at : ℕ → List Uuid → Uuid → Bool
names_at k [] a = false
names_at zero (x ∷ xs) a = x == a
names_at (suc k) (x ∷ xs) a = names_at k xs a

-- A row that the order does not name stays where it is.
place-stays :
    (at : ℕ) (ordered : List Uuid) (r : Slot) → count r.id ordered ≡ 0 → place at ordered r ≡ r
place-stays at [] r h = refl
place-stays at (x ∷ ordered) r h = ground (arith, place-stays (at + 1) ordered r)

names_at-none : (k : ℕ) (xs : List Uuid) (a : Uuid) → count a xs ≡ 0 → names_at k xs a ≡ false
names_at-none k [] a h = refl
names_at-none zero (x ∷ xs) a h = ground arith
names_at-none (suc k) (x ∷ xs) a h = names_at-none k xs a (ground arith)

place-here :
    (at : ℕ) (x : Uuid) (ordered : List Uuid) (r : Slot)
    → (r.id == x) ≡ true
    → count r.id (x ∷ ordered) ≡ 1
    → (place at (x ∷ ordered) r).position ≡ at
place-here at x ordered r e h =
    let here : move_to x at r ≡ record r { position = at } = rw e refl in
    ap (λ (s : Slot). (place (at + 1) ordered s).position) here
    ∙ ap (λ (s : Slot). s.position) (place-stays (at + 1) ordered _ (ground arith))

place-there :
    (at : ℕ) (x : Uuid) (ordered : List Uuid) (r : Slot)
    → (r.id == x) ≡ false
    → place at (x ∷ ordered) r ≡ place (at + 1) ordered r
place-there at x ordered r e = rw e refl

place-ge :
    (at : ℕ) (ordered : List Uuid) (r : Slot)
    → count r.id ordered ≡ 1
    → at ≤ (place at ordered r).position
place-ge at [] r h = absurd (omega arith)
place-ge at (x ∷ ordered) r h = elim (Bool-cases (r.id == x)) [
  | inl here ↦ omega (arith, place-here at x ordered r here h)
  | inr other ↦
      rw (place-there at x ordered r other)
        (omega (arith, place-ge (at + 1) ordered r (ground arith)))
]

-- A row that the order names once stands at the index where it is named.
place-at :
    (at k : ℕ) (ordered : List Uuid) (r : Slot)
    → count r.id ordered ≡ 1
    → ((place at ordered r).position == (at + k)) ≡ names_at k ordered r.id
place-at at k [] r h = absurd (omega arith)
place-at at zero (x ∷ ordered) r h = elim (Bool-cases (r.id == x)) [
  | inl here ↦ rw (place-here at x ordered r here h) (ground arith)
  | inr other ↦ rw (place-there at x ordered r other) (ground (arith, place-ge (at + 1) ordered r))
]
place-at at (suc k) (x ∷ ordered) r h = elim (Bool-cases (r.id == x)) [
  | inl here ↦ rw (place-here at x ordered r here h) (ground (arith, names_at-none k ordered r.id))
  | inr other ↦
      rw (place-there at x ordered r other) (ground (arith, place-at (at + 1) k ordered r))
]

-- The rows of an owner whose identifier is the one at an index of the order.
abbrev pub at_index : Uuid → ℕ → List Uuid → List Slot → ℕ
at_index m k ordered [] = 0
at_index m k ordered (r ∷ rows) =
    bit (owned m r && names_at k ordered r.id) + at_index m k ordered rows

at_index-zero :
    (m : Uuid) (x : Uuid) (ordered : List Uuid) (rows : List Slot)
    → at_index m zero (x ∷ ordered) rows ≡ named_of m x rows
at_index-zero m x ordered [] = refl
at_index-zero m x ordered (r ∷ rows) = ground (arith, at_index-zero m x ordered rows)

at_index-suc :
    (m : Uuid) (k : ℕ) (x : Uuid) (ordered : List Uuid) (rows : List Slot)
    → at_index m (suc k) (x ∷ ordered) rows ≡ at_index m k ordered rows
at_index-suc m k x ordered [] = refl
at_index-suc m k x ordered (r ∷ rows) = ground (arith, at_index-suc m k x ordered rows)

-- Where the owner has one row for each identifier of the order, it has one for each index.
pub at_index-once :
    (m : Uuid) (k : ℕ) (ordered : List Uuid) (rows : List Slot)
    → ((a : Uuid) → 1 ≤ count a ordered → named_of m a rows ≡ 1)
    → at_index m k ordered rows ≡ (if ltb k (length ordered) then 1 else 0)
at_index-once m k [] rows h = none_at rows ∙ ground arith
  where
    none_at : (rows : List Slot) → at_index m k [] rows ≡ 0
    none_at [] = refl
    none_at (r ∷ rows) = ground (arith, none_at rows)
at_index-once m zero (x ∷ ordered) rows h =
    at_index-zero m x ordered rows ∙ (h x (ground arith) ∙ ground arith)
at_index-once m (suc k) (x ∷ ordered) rows h =
    at_index-suc m k x ordered rows
    ∙ (at_index-once m k ordered rows (λ a e. h a (ground arith)) ∙ ground arith)

-- The rows of the owner stand where the order names them.
pub rows_at-place :
    (m : Uuid) (k : ℕ) (ordered : List Uuid) (rows : List Slot)
    → ((a : Uuid) → 1 ≤ named_of m a rows → count a ordered ≡ 1)
    → rows_at m k (map (place 0 ordered) rows) ≡ at_index m k ordered rows
rows_at-place m k ordered [] h = refl
rows_at-place m k ordered (r ∷ rows) h = ground (
  arith,
  rows_at-place m k ordered rows (λ a e. h a (ground arith)),
  place-owner 0 ordered r,
  place-at 0 k ordered r,
  h r.id,
)

-- Rows of other owners stay where they are.
pub rows_at-others :
    (m : Uuid) (k : ℕ) (ordered : List Uuid) (rows : List Slot)
    → ((a : Uuid) → 1 ≤ named_of m a rows → count a ordered ≡ 0)
    → rows_at m k (map (place 0 ordered) rows) ≡ rows_at m k rows
rows_at-others m k ordered [] h = refl
rows_at-others m k ordered (r ∷ rows) h = ground (
  arith,
  rows_at-others m k ordered rows (λ a e. h a (ground arith)),
  place-owner 0 ordered r,
  ap (λ (s : Slot). s.position) {x = place 0 ordered r} {y = r},
  place-stays 0 ordered r,
  h r.id,
)

pub rows_of-place :
    (m : Uuid) (ordered : List Uuid) (rows : List Slot)
    → rows_of m (map (place 0 ordered) rows) ≡ rows_of m rows
rows_of-place m ordered [] = refl
rows_of-place m ordered (r ∷ rows) =
    ground (arith, rows_of-place m ordered rows, place-owner 0 ordered r)

-- An identifier that two owners have is named by two rows.
pub named_of-two :
    (m n a : Uuid) (rows : List Slot)
    → (m == n) ≡ false
    → named_of m a rows + named_of n a rows ≤ named a rows
named_of-two m n a [] h = omega arith
named_of-two m n a (r ∷ rows) h = ground (arith, named_of-two m n a rows h)

pub named_of-le : (m a : Uuid) (rows : List Slot) → named_of m a rows ≤ named a rows
named_of-le m a [] = omega arith
named_of-le m a (r ∷ rows) = ground (arith, named_of-le m a rows)
