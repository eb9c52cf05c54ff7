-- ===== src/Prelude/Cuts.antt =====
-- Texts that lack a character, and what `strings.Cut` makes of them.
use Prim.Native.Nat.{ℕ, zero, suc, ◌+◌, ◌/◌, ◌%◌}
use mathlib.Core.Path.{◌≡◌, refl, sym, ap, ◌∙◌}
use mathlib.Core.Logic.{inl, inr}
use mathlib.Core.Bool.{true, false}
use mathlib.Core.Option as Option
use mathlib.Core.Option.{Option, none, some}
use mathlib.Core.List.{[], ◌∷◌, ◌++◌}
use native.Mathlib.Omega.{arith}
use pilam.Prelude.Tests.{ltb, nat_eq, Bool-cases}
use pilam.Prelude.Int.{ℤ, pos, negsuc}
use pilam.Prelude.Lists.{All}
use pilam.Prelude.Text.{Text, cut, digits_of, itoa}
use pilam.Prelude.Numerals.{is_digit}

-- A text without a character.
abbrev pub Lacks : ℕ → Text → Type 0
Lacks d s = All (λ c. nat_eq c d ≡ false) s

pub cut-Lacks : (d : ℕ) (s t : Text) → Lacks d s → cut d (s ++ d ∷ t) ≡ some (s, t)
unfolding cut
cut-Lacks d [] t h = ground arith
cut-Lacks d (c ∷ s) t h = rw (h.0, cut-Lacks d s t h.1) refl

-- A text without the character is not cut.
pub cut-none : (d : ℕ) (s : Text) → Lacks d s → cut d s ≡ none
unfolding cut
cut-none d [] h = refl
cut-none d (c ∷ s) h = rw (h.0, cut-none d s h.1) refl

-- The text that the two parts of a cut make up.
abbrev rejoined : ℕ → Text → Option (Text × Text) → Text
rejoined d s none = s
rejoined d s (some p) = p.0 ++ d ∷ p.1

rejoined-map :
    (d c : ℕ) (s : Text) (o : Option (Text × Text))
    → rejoined d (c ∷ s) (Option.map (λ p. (c ∷ p.0, p.1)) o) ≡ c ∷ rejoined d s o
rejoined-map d c s none = refl
rejoined-map d c s (some p) = refl

rejoined-cut : (d : ℕ) (s : Text) → rejoined d s (cut d s) ≡ s
unfolding cut
rejoined-cut d [] = refl
rejoined-cut d (c ∷ s) = elim (Bool-cases (nat_eq c d)) [
  | inl here ↦ rw here (ap (λ x. x ∷ s) (ground arith))
  | inr later ↦ rw later (rejoined-map d c s (cut d s) ∙ ap (λ t. c ∷ t) (rejoined-cut d s))
]

pub cut-join : (d : ℕ) (s a b : Text) → cut d s ≡ some (a, b) → s ≡ a ++ d ∷ b
cut-join d s a b h = sym (rejoined-cut d s) ∙ ap (rejoined d s) h

pub All-append : (P : ℕ → Type 0) (s t : Text) → All P s → All P t → All P (s ++ t)
All-append P [] t h k = k
All-append P (c ∷ s) t h k = (h.0, All-append P s t h.1 k)

digits_of-All :
    (P : ℕ → Type 0)
    → ((c : ℕ) → is_digit c ≡ true → P c)
    → (f n : ℕ) (acc : Text) → All P acc
    → All P (digits_of f n acc)
unfolding digits_of
digits_of-All P digits zero n acc k = k
digits_of-All P digits (suc f) n acc k = elim (Bool-cases (ltb n 10)) [
  | inl last ↦ rw last (digits (48 + n) (ground arith), k)
  | inr long ↦
      rw long (digits_of-All P digits f (n / 10) _ (digits (48 + n % 10) (ground arith), k))
]

-- The text of an integer has digits and a sign alone.
pub itoa-All :
    (P : ℕ → Type 0) → ((c : ℕ) → is_digit c ≡ true → P c) → P b'-' → (n : ℤ) → All P (itoa n)
unfolding itoa
itoa-All P digits minus (pos n) = digits_of-All P digits (suc n) n [] tt
itoa-All P digits minus (negsuc n) = (minus, digits_of-All P digits (suc (suc n)) (suc n) [] tt)

pub itoa-Lacks : (d : ℕ) (n : ℤ) → is_digit d ≡ false → nat_eq b'-' d ≡ false → Lacks d (itoa n)
itoa-Lacks d n h k = itoa-All (λ c. nat_eq c d ≡ false) (λ c e. ground arith) k n
