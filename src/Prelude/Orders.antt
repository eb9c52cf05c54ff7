-- ===== src/Prelude/Orders.antt =====
-- Go's comparison functions, which answer less, same or more, and what makes one an order.
use Prim.Native.Nat.{ℕ}
use mathlib.Core.Path.{◌≡◌, refl}
use mathlib.Core.Bool.{Bool, true, false}
use mathlib.Core.List.{[], ◌∷◌}
use native.Mathlib.Omega.{arith}
use pilam.Prelude.Tests.{ltb, if◌then◌else◌}
use pilam.Prelude.Int.{ℤ, ltb_ℤ}
use pilam.Prelude.Text.{Text, Order, less, same, more, compare_text}

abbrev pub is_more : Order → Bool
is_more more = true
is_more _ = false

abbrev pub is_less : Order → Bool
is_less less = true
is_less _ = false

abbrev pub flip : Order → Order
flip less = more
flip same = same
flip more = less

-- A second comparison decides where the first one does not.
abbrev pub then_by : Order → Order → Order
then_by same o = o
then_by o _ = o

abbrev pub compare_nat : ℕ → ℕ → Order
compare_nat a b = if ltb a b then less else if ltb b a then more else same

abbrev pub compare_int : ℤ → ℤ → Order
compare_int a b = if ltb_ℤ a b then less else if ltb_ℤ b a then more else same

-- The other way round it answers the opposite, and what is not above is transitive.
pub record IsOrder {A : Type 0} (c : A → A → Order) : Type 0 where
  pub flips : (x y : A) → c y x ≡ flip (c x y)
  pub steps :
      (x y z : A) → is_more (c x y) ≡ false → is_more (c y z) ≡ false → is_more (c x z) ≡ false

text_flips : (s t : Text) → compare_text t s ≡ flip (compare_text s t)
unfolding compare_text
text_flips [] [] = refl
text_flips [] (d ∷ t) = refl
text_flips (c ∷ s) [] = refl
text_flips (c ∷ s) (d ∷ t) = ground (arith, text_flips s t)

text_steps :
    (s t u : Text)
    → is_more (compare_text s t) ≡ false
    → is_more (compare_text t u) ≡ false
    → is_more (compare_text s u) ≡ false
unfolding compare_text
text_steps [] t [] h k = refl
text_steps [] t (c ∷ u) h k = refl
text_steps (c ∷ s) [] u h k = absurd (ground arith)
text_steps (c ∷ s) (d ∷ t) [] h k = absurd (ground arith)
text_steps (c ∷ s) (d ∷ t) (e ∷ u) h k = ground (arith, text_steps s t u)

pub text-IsOrder : IsOrder compare_text
text-IsOrder = record { flips = text_flips; steps = text_steps }

pub nat-IsOrder : IsOrder compare_nat
nat-IsOrder = record { flips = λ x y. ground arith; steps = λ x y z h k. ground arith }

pub int-IsOrder : IsOrder compare_int
int-IsOrder = record { flips = λ x y. ground arith; steps = λ x y z h k. ground arith }

module _ {A : Type 0} where
  pub then_by-IsOrder :
      (c d : A → A → Order) → IsOrder c → IsOrder d → IsOrder (λ x y. then_by (c x y) (d x y))
  then_by-IsOrder c d first second = record {
    flips = λ x y. ground (arith, first.flips x y, second.flips x y);
    steps = λ x y z h k. ground (
      arith,
      first.flips x y,
      first.flips y z,
      first.flips x z,
      first.steps x y z,
      first.steps z x y,
      first.steps y z x,
      second.steps x y z,
    );
  }

  -- The order of a key, and the opposite of an order.
  pub key-IsOrder :
      {B : Type 0} (key : A → B) (c : B → B → Order)
      → IsOrder c
      → IsOrder (λ x y. c (key x) (key y))
  key-IsOrder key c h = record {
    flips = λ x y. h.flips (key x) (key y);
    steps = λ x y z. h.steps (key x) (key y) (key z);
  }

  pub opposite-IsOrder : (c : A → A → Order) → IsOrder c → IsOrder (λ x y. c y x)
  opposite-IsOrder c h = record {
    flips = λ x y. h.flips y x;
    steps = λ x y z p q. h.steps z y x q p;
  }
