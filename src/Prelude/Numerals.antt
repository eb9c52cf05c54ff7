-- ===== src/Prelude/Numerals.antt =====
-- `strconv.Atoi` and `strconv.ParseInt` in base 10 on 64 bits, which read what `strconv.Itoa` writes.
use Prim.Native.Nat.{ℕ, zero, suc, ◌+◌, ◌-◌, ◌*◌, ◌/◌, ◌%◌, ◌<◌}
use mathlib.Core.Path.{◌≡◌, refl, sym, ap, ◌∙◌}
use mathlib.Core.Logic.{inl, inr}
use mathlib.Core.Bool.{Bool, true, false, ◌&&◌}
use mathlib.Core.Option.{Option, none, some}
use mathlib.Core.List.{[], ◌∷◌}
use native.Mathlib.Omega.{arith}
use pilam.Prelude.Tests.{ltb, leb, nat_eq, if◌then◌else◌, Bool-cases}
use pilam.Prelude.Int.{ℤ, pos, negsuc, sub_ℕ}
use pilam.Prelude.Text.{Text, digits_of, itoa}

abbrev pub is_digit : ℕ → Bool
is_digit c = leb 48 c && leb c 57

-- The number of a run of digits, after the digits that were read.
unfoldable pub read_digits : ℕ → Text → Option ℕ
read_digits n [] = some n
read_digits n (c ∷ s) =
    let rest = read_digits (n * 10 + (c - 48)) s in if is_digit c then rest else none

unfoldable read_number : Text → Option ℕ
unfolding read_digits
read_number [] = none
read_number (c ∷ s) = read_digits 0 (c ∷ s)

-- The bounds of an int64.
abbrev pub int_limit : ℕ
int_limit = 9223372036854775808

unfoldable positive : Option ℕ → Option ℤ
positive none = none
positive (some n) = if ltb n int_limit then some (pos n) else none

unfoldable negative : Option ℕ → Option ℤ
negative none = none
negative (some n) = if leb n int_limit then some (sub_ℕ 0 n) else none

unfoldable pub parse_int : Text → Option ℤ
unfolding read_number positive negative
parse_int [] = none
parse_int (c ∷ s) =
    if nat_eq c b'-'
    then negative (read_number s)
    else if nat_eq c b'+'
    then positive (read_number s)
    else positive (read_number (c ∷ s))

-- An integer that 64 bits hold.
abbrev pub IsInt64 : ℤ → Type 0
IsInt64 (pos n) = n < int_limit
IsInt64 (negsuc n) = n < int_limit

-- What `digits_of` writes begins with a digit, and reads as its number.
record Digits (n : ℕ) (acc s : Text) : Type 0 where
  first : ℕ
  rest : Text
  written : s ≡ first ∷ rest
  digit : is_digit first ≡ true
  value : read_digits 0 s ≡ read_digits n acc

read_last :
    (n : ℕ) (acc : Text) → ltb n 10 ≡ true → read_digits 0 ((48 + n) ∷ acc) ≡ read_digits n acc
unfolding read_digits
read_last n acc h =
    let same : 0 * 10 + (48 + n - 48) ≡ n = ground arith in
    let digit : is_digit (48 + n) ≡ true = ground arith in
    rw digit (ap (λ m. read_digits m acc) same)

read_next : (n : ℕ) (acc : Text) → read_digits (n / 10) ((48 + n % 10) ∷ acc) ≡ read_digits n acc
unfolding read_digits
read_next n acc =
    let same : n / 10 * 10 + (48 + n % 10 - 48) ≡ n = omega arith in
    let digit : is_digit (48 + n % 10) ≡ true = ground arith in
    rw digit (ap (λ m. read_digits m acc) same)

digits_of-Digits : (f n : ℕ) (acc : Text) → n < f → Digits n acc (digits_of f n acc)
unfolding digits_of
digits_of-Digits zero n acc h = absurd (omega arith)
digits_of-Digits (suc f) n acc h = elim (Bool-cases (ltb n 10)) [
  | inl last ↦ rw last (record {
    first = 48 + n;
    rest = acc;
    written = refl;
    digit = ground arith;
    value = read_last n acc last;
  })
  | inr long ↦
      let d = digits_of-Digits f (n / 10) ((48 + n % 10) ∷ acc) (ground arith) in
      rw long (record {
        first = d.first;
        rest = d.rest;
        written = d.written;
        digit = d.digit;
        value = d.value ∙ read_next n acc;
      })
]

read_number-digits : (f n : ℕ) → n < f → read_number (digits_of f n []) ≡ some n
unfolding read_number
read_number-digits f n h =
    let d = digits_of-Digits f n [] h in
    ap read_number d.written ∙ (ap (read_digits 0) (sym d.written) ∙ d.value)

-- A text that begins with a digit has no sign.
parse_int-digit :
    (c : ℕ) (s : Text) → is_digit c ≡ true → parse_int (c ∷ s) ≡ positive (read_number (c ∷ s))
unfolding parse_int
parse_int-digit c s h =
    let minus : nat_eq c b'-' ≡ false = ground arith in
    let plus : nat_eq c b'+' ≡ false = ground arith in rw minus (rw plus refl)

parse_int-digits : (f n : ℕ) → n < f → parse_int (digits_of f n []) ≡ positive (some n)
parse_int-digits f n h =
    let d = digits_of-Digits f n [] h in
    ap parse_int d.written
    ∙ (parse_int-digit d.first d.rest d.digit
        ∙ (ap (λ s. positive (read_number s)) (sym d.written)
            ∙ ap positive (read_number-digits f n h)))

-- An int64 reads back from its text.
pub parse_int-itoa : (n : ℤ) → IsInt64 n → parse_int (itoa n) ≡ some n
unfolding parse_int itoa positive negative
parse_int-itoa (pos n) h = parse_int-digits (suc n) n (omega arith) ∙ ground arith
parse_int-itoa (negsuc n) h =
    rw (read_number-digits (suc (suc n)) (suc n) (omega arith)) (ground arith)
