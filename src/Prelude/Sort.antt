-- ===== src/Prelude/Sort.antt =====
-- `slices.SortFunc` and ORDER BY, by insertion. `before a b` says that `a` may stand before `b`.
use Prim.Native.Nat.{ℕ, suc, ◌+◌}
use mathlib.Core.Path.{◌≡◌, refl}
use mathlib.Core.Logic.{inl, inr}
use mathlib.Core.Bool.{Bool, true, false}
use mathlib.Core.List.{List, [], ◌∷◌}
use native.Mathlib.Omega.{arith}
use pilam.Prelude.Tests.{if◌then◌else◌, Bool-cases}
use pilam.Prelude.Lists.{length, All}

-- How many elements a test accepts.
abbrev pub tally : {A : Type 0} → (A → Bool) → List A → ℕ
tally p [] = 0
tally p (x ∷ xs) = (if p x then 1 else 0) + tally p xs

module _ {A : Type 0} (before : A → A → Bool) where
  unfoldable pub insert_by : A → List A → List A
  insert_by x [] = x ∷ []
  insert_by x (y ∷ ys) = if before x y then x ∷ y ∷ ys else y ∷ insert_by x ys

  unfoldable pub sort_by : List A → List A
  unfolding insert_by
  sort_by [] = []
  sort_by (x ∷ xs) = insert_by x (sort_by xs)

  tally-insert_by :
      (p : A → Bool) (x : A) (xs : List A)
      → tally p (insert_by x xs) ≡ (if p x then 1 else 0) + tally p xs
  unfolding insert_by
  tally-insert_by p x [] = refl
  tally-insert_by p x (y ∷ ys) = ground (arith, tally-insert_by p x ys)

  -- A sorted list has what the list had, as often.
  pub tally-sort_by : (p : A → Bool) (xs : List A) → tally p (sort_by xs) ≡ tally p xs
  unfolding sort_by
  tally-sort_by p [] = refl
  tally-sort_by p (x ∷ xs) = ground (arith, tally-insert_by p x (sort_by xs), tally-sort_by p xs)

  length-insert_by : (x : A) (xs : List A) → length (insert_by x xs) ≡ suc (length xs)
  unfolding insert_by
  length-insert_by x [] = refl
  length-insert_by x (y ∷ ys) = ground (arith, length-insert_by x ys)

  pub length-sort_by : (xs : List A) → length (sort_by xs) ≡ length xs
  unfolding sort_by
  length-sort_by [] = refl
  length-sort_by (x ∷ xs) = ground (arith, length-insert_by x (sort_by xs), length-sort_by xs)

  -- Each element may stand before every later one.
  abbrev pub IsSorted : List A → Type 0
  IsSorted [] = Unit
  IsSorted (x ∷ xs) = All (λ y. before x y ≡ true) xs × IsSorted xs

  insert_by-All : (P : A → Type 0) (x : A) (ys : List A) → P x → All P ys → All P (insert_by x ys)
  unfolding insert_by
  insert_by-All P x [] h all = (h, tt)
  insert_by-All P x (y ∷ ys) h all = elim (Bool-cases (before x y)) [
    | inl first ↦ rw first (h, all)
    | inr later ↦ rw later (all.0, insert_by-All P x ys h all.1)
  ]

  -- A property of each element of a list is one of each element of the sorted list.
  pub sort_by-All : (P : A → Type 0) (xs : List A) → All P xs → All P (sort_by xs)
  unfolding sort_by
  sort_by-All P [] d = tt
  sort_by-All P (x ∷ xs) d = insert_by-All P x (sort_by xs) d.0 (sort_by-All P xs d.1)

  -- A total order, among the elements of one kind.
  module _ (D : A → Type 0) (total : (a b : A) → D a → D b → before a b ≡ false → before b a ≡ true)
      (transitive : (a b c : A)
        → D a
        → D b
        → D c
        → before a b ≡ true
        → before b c ≡ true
        → before a c ≡ true) where
    below-All :
        (x y : A) (ys : List A)
        → D x
        → D y
        → All D ys
        → before x y ≡ true
        → All (λ z. before y z ≡ true) ys
        → All (λ z. before x z ≡ true) ys
    below-All x y [] dx dy d h all = tt
    below-All x y (z ∷ ys) dx dy d h all =
        (transitive x y z dx dy d.0 h all.0, below-All x y ys dx dy d.1 h all.1)

    insert_by-IsSorted :
        (x : A) (ys : List A) → D x → All D ys → IsSorted ys → IsSorted (insert_by x ys)
    unfolding insert_by
    insert_by-IsSorted x [] dx d h = (tt, tt)
    insert_by-IsSorted x (y ∷ ys) dx d h = elim (Bool-cases (before x y)) [
      | inl first ↦ rw first ((first, below-All x y ys dx d.0 d.1 first h.0), h)
      | inr later ↦ rw later (
        insert_by-All (λ z. before y z ≡ true) x ys (total x y dx d.0 later) h.0,
        insert_by-IsSorted x ys dx d.1 h.1,
      )
    ]

    pub sort_by-IsSorted : (xs : List A) → All D xs → IsSorted (sort_by xs)
    unfolding sort_by
    sort_by-IsSorted [] d = tt
    sort_by-IsSorted (x ∷ xs) d =
        insert_by-IsSorted x (sort_by xs) d.0 (sort_by-All D xs d.1) (sort_by-IsSorted xs d.1)
