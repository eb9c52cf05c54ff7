-- ===== src/Prelude/Tests.antt =====
-- Boolean tests, and equality as an instance.
use Prim.Native.Nat.{ℕ, compare, Ordering, ◌<◌}
use Prim.Native.String.{String}
use mathlib.Core.Path.{◌≡◌, refl}
use mathlib.Core.Logic.{◌↔◌, ◌⊎◌, inl, inr}
use mathlib.Core.Bool.{Bool, true, false, not, ◌&&◌}
use mathlib.Core.Option.{Option, none, some}
use mathlib.Core.List.{List, [], ◌∷◌}
use native.Mathlib.Omega.{arith}
use text.Mathlib.Text.{◌==◌ as str_eq}
use text.Mathlib.TextEquality.{eq_iff as str_eq_iff}

abbrev pub ltb : ℕ → ℕ → Bool
ltb a b = elim (compare a b) [ Ordering.lt ↦ true | _ ↦ false ]

abbrev pub leb : ℕ → ℕ → Bool
leb a b = elim (compare a b) [ Ordering.gt ↦ false | _ ↦ true ]

abbrev pub nat_eq : ℕ → ℕ → Bool
nat_eq a b = elim (compare a b) [ Ordering.eq ↦ true | _ ↦ false ]

infix 1 if◌then◌else◌
abbrev pub if◌then◌else◌ {ℓ} : {A : Type ℓ} → Bool → A → A → A
if true then x else y = x
if false then x else y = y

pub nat_eq_iff : (a b : ℕ) → (nat_eq a b ≡ true) ↔ (a ≡ b)
nat_eq_iff a b = (λ h. ground arith, λ h. ground arith)

pub ltb→lt : (a b : ℕ) → ltb a b ≡ true → a < b
ltb→lt a b h = ground arith

-- Go's `==` on a comparable type.
pub record Eq (A : Type 0) : Type 0 where
  pub is_equal : A → A → Bool
  pub equal_iff : (a b : A) → (is_equal a b ≡ true) ↔ (a ≡ b)

infix 50 ◌==◌
abbrev pub ◌==◌ : {A : Type 0} ⦃e : Eq A⦄ → A → A → Bool
◌==◌ ⦃e⦄ = e.is_equal

infix 50 ◌!=◌
abbrev pub ◌!=◌ : {A : Type 0} ⦃e : Eq A⦄ → A → A → Bool
a != b = not (a == b)

abbrev bool_eq : Bool → Bool → Bool
bool_eq true b = b
bool_eq false b = not b

pub bool_eq_iff : (a b : Bool) → (bool_eq a b ≡ true) ↔ (a ≡ b)
bool_eq_iff a b = (λ h. ground arith, λ h. ground arith)

abbrev list_eq : {A : Type 0} → (A → A → Bool) → List A → List A → Bool
list_eq eq [] [] = true
list_eq eq (x ∷ xs) (y ∷ ys) = eq x y && list_eq eq xs ys
list_eq eq _ _ = false

pub list_eq_iff :
    {A : Type 0} (e : Eq A) (xs ys : List A) → (list_eq e.is_equal xs ys ≡ true) ↔ (xs ≡ ys)
list_eq_iff e [] [] = (λ h. refl, λ h. refl)
list_eq_iff e [] (y ∷ ys) = (λ h. ground arith, λ h. ground arith)
list_eq_iff e (x ∷ xs) [] = (λ h. ground arith, λ h. ground arith)
list_eq_iff e (x ∷ xs) (y ∷ ys) = (
  λ h. ground (arith, e.equal_iff x y, list_eq_iff e xs ys),
  λ h. ground (arith, e.equal_iff x y, list_eq_iff e xs ys),
)

instance abbrev pub ℕ_eq : Eq ℕ
ℕ_eq = record { is_equal = nat_eq; equal_iff = nat_eq_iff }

instance abbrev pub String_eq : Eq String
String_eq = record { is_equal = str_eq; equal_iff = str_eq_iff }

instance abbrev pub Bool_eq : Eq Bool
Bool_eq = record { is_equal = bool_eq; equal_iff = bool_eq_iff }

instance abbrev pub List_eq : {A : Type 0} ⦃e : Eq A⦄ → Eq (List A)
List_eq ⦃e⦄ = record { is_equal = list_eq e.is_equal; equal_iff = list_eq_iff e }

-- To split on a computed value and keep the equation.
pub Bool-cases : (b : Bool) → (b ≡ true) ⊎ (b ≡ false)
Bool-cases true = inl refl
Bool-cases false = inr refl

pub Option-cases {ℓ} : {A : Type ℓ} (o : Option A) → (o ≡ none) ⊎ ((a : A) × (o ≡ some a))
Option-cases none = inl refl
Option-cases (some a) = inr (a, refl)
