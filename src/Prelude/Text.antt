-- ===== src/Prelude/Text.antt =====
-- Text as a list of code points, with the functions of Go's `strings` that the program uses.
use Prim.Native.Char.{code}
use Prim.Native.String.{String}
use Prim.Native.Nat.{ℕ, zero, suc, ◌+◌, ◌/◌, ◌%◌, ◌<◌}
use mathlib.Core.Path.{◌≡◌, refl}
use mathlib.Core.Logic.{inl, inr}
use native.Mathlib.Omega.{arith}
use mathlib.Core.Bool.{Bool, true, false, ◌&&◌, ◌||◌}
use mathlib.Core.Option as Option
use mathlib.Core.Option.{Option, none, some}
use mathlib.Core.List.{List, [], ◌∷◌, ◌++◌, map, reverse}
use pilam.Prelude.Tests.{Bool-cases, leb, ltb, nat_eq, if◌then◌else◌}
use pilam.Prelude.Int.{ℤ, pos, negsuc}

abbrev pub Text : Type 0
Text = List ℕ

-- A literal.
abbrev pub codes : String → Text
codes String.[] = []
codes (String.◌∷◌ c s) = code c ∷ codes s

-- `unicode.IsSpace`
unfoldable pub is_space : ℕ → Bool
is_space c =
    (leb 9 c && leb c 13)
    || nat_eq c 32
    || nat_eq c 0x85
    || nat_eq c 0xA0
    || nat_eq c 0x1680
    || (leb 0x2000 c && leb c 0x200A)
    || nat_eq c 0x2028
    || nat_eq c 0x2029
    || nat_eq c 0x202F
    || nat_eq c 0x205F
    || nat_eq c 0x3000

-- `unicode.ToLower` on the letters of ASCII, Latin-1 and Russian; other letters stay as they are.
unfoldable pub lower_rune : ℕ → ℕ
lower_rune c =
    if leb b'A' c && leb c b'Z'
    then c + 32
    else if leb 0xC0 c && leb c 0xDE && (ltb c 0xD7 || ltb 0xD7 c)
    then c + 32
    else if leb 0x410 c && leb c 0x42F
    then c + 32
    else if leb 0x400 c && leb c 0x40F
    then c + 80
    else c

-- `strings.ToLower`
unfoldable pub to_lower : Text → Text
to_lower = map lower_rune

-- `strings.TrimLeftFunc` by `unicode.IsSpace`
unfoldable pub trim_left : Text → Text
trim_left [] = []
trim_left (c ∷ s) = if is_space c then trim_left s else c ∷ s

-- `strings.TrimSpace`
unfoldable pub trim_space : Text → Text
unfolding trim_left
trim_space s = reverse (trim_left (reverse (trim_left s)))

-- `strings.HasPrefix` and `strings.Contains`
unfoldable pub has_prefix : Text → Text → Bool
has_prefix s [] = true
has_prefix [] (d ∷ p) = false
has_prefix (c ∷ s) (d ∷ p) = nat_eq c d && has_prefix s p

unfoldable pub contains : Text → Text → Bool
unfolding has_prefix
contains [] p = has_prefix [] p
contains (c ∷ s) p = has_prefix (c ∷ s) p || contains s p

-- `strings.CutPrefix`
unfoldable pub cut_prefix : Text → Text → Option Text
cut_prefix s [] = some s
cut_prefix [] (d ∷ p) = none
cut_prefix (c ∷ s) (d ∷ p) = if nat_eq c d then cut_prefix s p else none

-- `strings.Cut` at a separator of one character.
unfoldable pub cut : ℕ → Text → Option (Text × Text)
cut sep [] = none
cut sep (c ∷ s) =
    let rest = cut sep s in
    if nat_eq c sep then some ([], s) else Option.map (λ p. (c ∷ p.0, p.1)) rest

-- `strings.Fields`: the runs of text between white space. `word` is the run that is open, backwards.
unfoldable close_word : Text → List Text → List Text
close_word [] rest = rest
close_word (d ∷ word) rest = reverse (d ∷ word) ∷ rest

unfoldable fields_from : Text → Text → List Text
unfolding close_word
fields_from word [] = close_word word []
fields_from word (c ∷ s) =
    let rest = fields_from (if is_space c then [] else c ∷ word) s in
    if is_space c then close_word word rest else rest

unfoldable pub fields : Text → List Text
unfolding fields_from
fields s = fields_from [] s

-- `strings.Join`
unfoldable pub join : Text → List Text → Text
join sep [] = []
join sep (s ∷ []) = s
join sep (s ∷ t ∷ rest) = s ++ (sep ++ join sep (t ∷ rest))

-- `strings.Compare`
pub data Order : Type 0 where
  less same more : Order

unfoldable pub compare_text : Text → Text → Order
compare_text [] [] = same
compare_text [] (d ∷ t) = less
compare_text (c ∷ s) [] = more
compare_text (c ∷ s) (d ∷ t) = if ltb c d then less else if ltb d c then more else compare_text s t

-- `strconv.FormatBool`
unfoldable pub format_bool : Bool → Text
format_bool true = codes "true"
format_bool false = codes "false"

-- `strconv.Itoa`. The fuel is above the number of digits, since a division by 10 makes a number
-- smaller until it is a digit.
unfoldable pub digits_of : ℕ → ℕ → Text → Text
digits_of zero n acc = acc
digits_of (suc fuel) n acc =
    let more = digits_of fuel (n / 10) ((48 + n % 10) ∷ acc) in
    if ltb n 10 then (48 + n) ∷ acc else more

unfoldable pub itoa : ℤ → Text
unfolding digits_of
itoa (pos n) = digits_of (suc n) n []
itoa (negsuc n) = b'-' ∷ digits_of (suc (suc n)) (suc n) []

-- More fuel than the number leaves the digits as they are, so the fuel of `itoa` is enough.
digits_of-fuel : (f g n : ℕ) (acc : Text) → n < f → n < g → digits_of f n acc ≡ digits_of g n acc
unfolding digits_of
digits_of-fuel zero g n acc h k = absurd (omega arith)
digits_of-fuel (suc f) zero n acc h k = absurd (omega arith)
digits_of-fuel (suc f) (suc g) n acc h k = elim (Bool-cases (ltb n 10)) [
  | inl last ↦ rw last refl
  | inr long ↦ rw long (digits_of-fuel f g (n / 10) _ (smaller n f h long) (smaller n g k long))
]
  where
    smaller : (n f : ℕ) → n < suc f → ltb n 10 ≡ false → n / 10 < f
    smaller n f h long = ground arith
