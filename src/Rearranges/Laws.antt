-- ===== src/Rearranges/Laws.antt =====
-- `rearranges`, by how often two lists name each identifier.
use pilam.Prelude.{
  ℕ, suc, ◌+◌, ◌≤◌, ◌≡◌, refl, ◌↔◌, ◌⊎◌, inl, true, List, [], ◌∷◌, length, ◌==◌, ℕ_eq,
  if◌then◌else◌, arith,
}
use pilam.Ids.{Uuid}
use pilam.Rearranges.{holds, fresh_all, rearranges}

-- How often a list names an identifier.
abbrev pub count : Uuid → List Uuid → ℕ
count a [] = 0
count a (x ∷ xs) = (if x == a then 1 else 0) + count a xs

-- No identifier is named twice.
abbrev pub IsDistinct : List Uuid → Type 0
IsDistinct xs = (a : Uuid) → count a xs ≤ 1

-- Two lists name the same identifiers, as often.
abbrev pub SameItems : List Uuid → List Uuid → Type 0
SameItems xs ys = (a : Uuid) → count a xs ≡ count a ys

holds_iff : (xs : List Uuid) (a : Uuid) → (holds xs a ≡ true) ↔ (1 ≤ count a xs)
holds_iff [] a = (λ h. cc, λ h. absurd (omega arith))
holds_iff (x ∷ xs) a = (λ h. ground (arith, holds_iff xs a), λ h. ground (arith, holds_iff xs a))

-- What the loop has found out of one identifier: the order does not name it, or names it once, for
-- the first time, and the list holds it.
abbrev Fresh : List Uuid → List Uuid → List Uuid → Uuid → Type 0
Fresh was seen ordered a =
    (count a ordered ≡ 0) ⊎ ((count a ordered ≡ 1) × (count a seen ≡ 0) × (1 ≤ count a was))

fresh_all-Fresh :
    (was seen ordered : List Uuid)
    → fresh_all was seen ordered ≡ true
    → (a : Uuid) → Fresh was seen ordered a
unfolding fresh_all
fresh_all-Fresh was seen [] h a = inl refl
fresh_all-Fresh was seen (x ∷ ordered) h a = ground (
  arith,
  fresh_all-Fresh was (x ∷ seen) ordered,
  fresh_all-Fresh was (x ∷ seen) ordered (ground arith) a,
  fresh_all-Fresh was (x ∷ seen) ordered (ground arith) x,
  holds_iff seen x,
  holds_iff was x,
)

Fresh-fresh_all :
    (was seen ordered : List Uuid)
    → ((a : Uuid) → Fresh was seen ordered a)
    → fresh_all was seen ordered ≡ true
unfolding fresh_all
Fresh-fresh_all was seen [] h = refl
Fresh-fresh_all was seen (x ∷ ordered) h = ground (
  arith,
  h x,
  holds_iff seen x,
  holds_iff was x,
  Fresh-fresh_all was (x ∷ seen) ordered (λ a. ground (arith, h a, h x)),
)

erase : Uuid → List Uuid → List Uuid
erase x [] = []
erase x (y ∷ ys) = if y == x then ys else y ∷ erase x ys

count-erase :
    (x a : Uuid) (ys : List Uuid)
    → 1 ≤ count x ys
    → count a ys ≡ (if x == a then 1 else 0) + count a (erase x ys)
unfolding erase
count-erase x a [] h = absurd (omega arith)
count-erase x a (y ∷ ys) h = ground (arith, count-erase x a ys)

length-erase : (x : Uuid) (ys : List Uuid) → 1 ≤ count x ys → length ys ≡ suc (length (erase x ys))
unfolding erase
length-erase x [] h = absurd (omega arith)
length-erase x (y ∷ ys) h = ground (arith, length-erase x ys)

-- A list that names everything as often as another is as long, at least; if it is no longer, the two
-- name the same.
count-le→length-le :
    (xs ys : List Uuid) → ((a : Uuid) → count a xs ≤ count a ys) → length xs ≤ length ys
count-le→length-le [] ys h = omega arith
count-le→length-le (x ∷ xs) ys h =
    let here : 1 ≤ count x ys = ground (arith, h x) in
    omega (
      arith,
      length-erase x ys here,
      count-le→length-le xs (erase x ys) (λ a. ground (arith, h a, count-erase x a ys here)),
    )

pigeonhole :
    (xs ys : List Uuid)
    → ((a : Uuid) → count a xs ≤ count a ys)
    → length ys ≤ length xs
    → SameItems xs ys
pigeonhole [] [] h le a = refl
pigeonhole [] (y ∷ ys) h le a = absurd (omega arith)
pigeonhole (x ∷ xs) ys h le a =
    let here : 1 ≤ count x ys = ground (arith, h x) in
    ground (
      arith,
      count-erase x a ys here,
      pigeonhole xs (erase x ys) (λ b. ground (arith, h b, count-erase x b ys here))
          (omega (arith, length-erase x ys here)) a,
    )

-- An order is accepted exactly when it names no identifier twice and names the same identifiers
-- as the list, as often.
pub rearranges_iff :
    (was ordered : List Uuid)
    → (rearranges was ordered ≡ true) ↔ (IsDistinct ordered × SameItems ordered was)
unfolding rearranges
rearranges_iff was ordered = (
  λ h.
      let fresh : (a : Uuid) → Fresh was [] ordered a =
        fresh_all-Fresh was [] ordered (ground arith) in
      (
        λ a. ground (arith, fresh a),
        pigeonhole ordered was (λ a. ground (arith, fresh a)) (ground arith),
      ),
  λ h. ground (
    arith,
    count-le→length-le ordered was (λ a. omega (arith, h.1 a)),
    count-le→length-le was ordered (λ a. omega (arith, h.1 a)),
    Fresh-fresh_all was [] ordered (λ a. ground (arith, h.0 a, h.1 a)),
  ),
)

pub rearranges-length :
    (was ordered : List Uuid) → rearranges was ordered ≡ true → length was ≡ length ordered
unfolding rearranges
rearranges-length was ordered h = ground arith
