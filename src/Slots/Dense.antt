-- ===== src/Slots/Dense.antt =====
-- Numbered rows stay dense when a row is added at the end, and when the rows of an owner are placed
-- in an order that names each of them once.
use pilam.Prelude.{
  ℕ, ◌+◌, ◌≤◌, ◌≡◌, refl, ap, ◌∙◌, sym, inl, inr, false, ◌&&◌, List, [], ◌∷◌, ◌++◌, ◌==◌, ◌!=◌,
  ℕ_eq, length, map, keep_if, if◌then◌else◌, ltb, arith, Bool-cases,
}
use pilam.Ids.{Uuid}
use pilam.Rearranges.Laws.{count}
use pilam.Slots.{
  Slot, bit, owned, rows_of, rows_at, named, named_of, IsDense, IsKeyed, place, place-id,
  at_index-once, rows_at-place, rows_at-others, rows_of-place, named_of-two, named_of-le,
}

-- The rows of an owner that its order names once each.
abbrev pub Orders : Uuid → List Uuid → List Slot → Type 0
Orders m ordered rows =
    ((a : Uuid) → count a ordered ≡ named_of m a rows) × (length ordered ≡ rows_of m rows)

abbrev pub DenseAt : Uuid → List Slot → Type 0
DenseAt m rows = (k : ℕ) → rows_at m k rows ≡ (if ltb k (rows_of m rows) then 1 else 0)

place-DenseAt :
    (m : Uuid) (ordered : List Uuid) (rows : List Slot)
    → IsKeyed rows
    → Orders m ordered rows
    → DenseAt m (map (place 0 ordered) rows)
place-DenseAt m ordered rows keyed (same, long) k =
    rows_at-place m k ordered rows (λ a e. omega (arith, same a, keyed a, named_of-le m a rows))
    ∙ (at_index-once m k ordered rows (λ a e. omega (arith, same a, keyed a, named_of-le m a rows))
        ∙ (rw long (rw (rows_of-place m ordered rows) refl)))

place-DenseAt-others :
    (m n : Uuid) (ordered : List Uuid) (rows : List Slot)
    → IsKeyed rows
    → Orders m ordered rows
    → (m == n) ≡ false
    → DenseAt n rows
    → DenseAt n (map (place 0 ordered) rows)
place-DenseAt-others m n ordered rows keyed (same, long) other dense k =
    rows_at-others n k ordered rows
      (λ a e. omega (arith, same a, keyed a, named_of-two m n a rows other))
    ∙ (dense k ∙ (rw (rows_of-place n ordered rows) refl))

-- Rows that are dense for every other owner are dense once the rows of an owner were placed in an
-- order that names each of them once.
pub place-IsDense :
    (m : Uuid) (ordered : List Uuid) (rows : List Slot)
    → IsKeyed rows
    → Orders m ordered rows
    → ((n : Uuid) → (m == n) ≡ false → DenseAt n rows)
    → IsDense (map (place 0 ordered) rows)
place-IsDense m ordered rows keyed orders others n k = elim (Bool-cases (m == n)) [
  | inl mine ↦
      let e : m ≡ n = (ℕ_eq.equal_iff m n).0 mine in
      rw (sym e) (place-DenseAt m ordered rows keyed orders k)
  | inr other ↦ place-DenseAt-others m n ordered rows keyed orders other (others n other) k
]

place-named :
    (a : Uuid) (ordered : List Uuid) (rows : List Slot)
    → named a (map (place 0 ordered) rows) ≡ named a rows
place-named a ordered [] = refl
place-named a ordered (r ∷ rows) = ground (arith, place-named a ordered rows, place-id 0 ordered r)

pub place-IsKeyed :
    (ordered : List Uuid) (rows : List Slot) → IsKeyed rows → IsKeyed (map (place 0 ordered) rows)
place-IsKeyed ordered rows h a = rw (place-named a ordered rows) (h a)

module _ (r : Slot) where
  rows_of-snoc :
      (m : Uuid) (rows : List Slot) → rows_of m (rows ++ r ∷ []) ≡ rows_of m rows + bit (owned m r)
  rows_of-snoc m [] = omega arith
  rows_of-snoc m (s ∷ rows) = omega (arith, rows_of-snoc m rows)

  rows_at-snoc :
      (m : Uuid) (k : ℕ) (rows : List Slot)
      → rows_at m k (rows ++ r ∷ []) ≡ rows_at m k rows + bit (owned m r && (r.position == k))
  rows_at-snoc m k [] = omega arith
  rows_at-snoc m k (s ∷ rows) = omega (arith, rows_at-snoc m k rows)

  named-snoc :
      (a : Uuid) (rows : List Slot) → named a (rows ++ r ∷ []) ≡ named a rows + bit (r.id == a)
  named-snoc a [] = omega arith
  named-snoc a (s ∷ rows) = omega (arith, named-snoc a rows)

  pub snoc-IsDense :
      (rows : List Slot)
      → r.position ≡ rows_of r.owner rows
      → IsDense rows
      → IsDense (rows ++ r ∷ [])
  snoc-IsDense rows at dense m k = ground (
    arith,
    at,
    dense m k,
    rows_at-snoc m k rows,
    rows_of-snoc m rows,
    ap (λ m. rows_of m rows) {x = r.owner} {y = m},
  )

  pub snoc-IsKeyed :
      (rows : List Slot) → named r.id rows ≡ 0 → IsKeyed rows → IsKeyed (rows ++ r ∷ [])
  snoc-IsKeyed rows new keyed a =
      ground (arith, new, keyed a, named-snoc a rows, ap (λ a. named a rows) {x = r.id} {y = a})

-- The rows without those of an identifier.
module _ (id : Uuid) where
  abbrev pub dropped : List Slot → List Slot
  dropped rows = keep_if (λ (r : Slot). r.id != id) rows

  pub dropped-named : (a : Uuid) (rows : List Slot) → named a (dropped rows) ≤ named a rows
  dropped-named a [] = omega arith
  dropped-named a (r ∷ rows) = ground (arith, dropped-named a rows)

  pub dropped-named_of :
      (m a : Uuid) (rows : List Slot)
      → named_of m a (dropped rows) ≡ (if id == a then 0 else named_of m a rows)
  dropped-named_of m a [] = ground arith
  dropped-named_of m a (r ∷ rows) = ground (arith, dropped-named_of m a rows)

  pub dropped-rows_of :
      (m : Uuid) (rows : List Slot) → rows_of m (dropped rows) + named_of m id rows ≡ rows_of m rows
  dropped-rows_of m [] = omega arith
  dropped-rows_of m (r ∷ rows) = ground (arith, dropped-rows_of m rows)

  pub dropped-rows_at :
      (m : Uuid) (k : ℕ) (rows : List Slot)
      → named_of m id rows ≡ 0
      → rows_at m k (dropped rows) ≡ rows_at m k rows
  dropped-rows_at m k [] h = refl
  dropped-rows_at m k (r ∷ rows) h = ground (arith, dropped-rows_at m k rows (ground arith))

  -- An owner without a row of the identifier keeps its rows.
  pub dropped-DenseAt :
      (m : Uuid) (rows : List Slot)
      → named_of m id rows ≡ 0
      → DenseAt m rows
      → DenseAt m (dropped rows)
  dropped-DenseAt m rows h dense k =
      let same : rows_of m (dropped rows) ≡ rows_of m rows =
        omega (arith, h, dropped-rows_of m rows) in
      dropped-rows_at m k rows h ∙ (dense k ∙ rw same refl)
