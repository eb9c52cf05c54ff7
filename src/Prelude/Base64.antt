-- ===== src/Prelude/Base64.antt =====
-- `encoding/base64` without padding: three bytes are four characters. A text of bytes is a list of
-- numbers below 256, and the two last characters of the alphabet are the parameter.
use Prim.Native.Nat.{ℕ, ◌+◌, ◌-◌, ◌*◌, ◌/◌, ◌%◌, ◌<◌}
use mathlib.Core.Path.{◌≡◌, refl, sym, ap, ◌∙◌}
use mathlib.Core.Logic.{inl, inr}
use mathlib.Core.Bool.{Bool, true, false, ◌&&◌, ◌||◌}
use mathlib.Core.Option.{Option, none, some}
use mathlib.Core.List.{List, [], ◌∷◌, map}
use native.Mathlib.Omega.{arith}
use pilam.Prelude.Tests.{ltb, leb, nat_eq, if◌then◌else◌, Bool-cases, nat_eq_iff}
use pilam.Prelude.Lists.{All}
use pilam.Prelude.Text.{Text}

pub record Alphabet : Type 0 where
  pub code62 : ℕ
  pub code63 : ℕ

-- `base64.RawURLEncoding` and `base64.RawStdEncoding`
abbrev pub url_safe : Alphabet
url_safe = record { code62 = b'-'; code63 = b'_' }

abbrev pub standard : Alphabet
standard = record { code62 = b'+'; code63 = b'/' }

module _ (a : Alphabet) where
  unfoldable pub char_of : ℕ → ℕ
  char_of n =
      if ltb n 26
      then 65 + n
      else if ltb n 52
      then 71 + n
      else if ltb n 62
      then n - 4
      else if nat_eq n 62
      then a.code62
      else a.code63

  -- `EncodeToString`
  unfoldable pub encode : List ℕ → Text
  unfolding char_of
  encode [] = []
  encode (x ∷ []) = char_of (x / 4) ∷ char_of (x % 4 * 16) ∷ []
  encode (x ∷ y ∷ []) = char_of (x / 4) ∷ char_of (x % 4 * 16 + y / 16) ∷ char_of (y % 16 * 4) ∷ []
  encode (x ∷ y ∷ z ∷ bytes) =
      char_of (x / 4)
      ∷ char_of (x % 4 * 16 + y / 16)
      ∷ char_of (y % 16 * 4 + z / 64)
      ∷ char_of (z % 64)
      ∷ encode bytes

  unfoldable pub sextet_of : ℕ → Option ℕ
  sextet_of c =
      if leb 65 c && leb c 90
      then some (c - 65)
      else if leb 97 c && leb c 122
      then some (c - 71)
      else if leb 48 c && leb c 57
      then some (c + 4)
      else if nat_eq c a.code62
      then some 62
      else if nat_eq c a.code63
      then some 63
      else none

  -- The decoder passes over line breaks.
  abbrev pub is_break : ℕ → Bool
  is_break c = nat_eq c 10 || nat_eq c 13

  unfoldable push : Option ℕ → Option (List ℕ) → Option (List ℕ)
  push (some x) (some xs) = some (x ∷ xs)
  push _ _ = none

  unfoldable sextets : Text → Option (List ℕ)
  unfolding sextet_of push
  sextets [] = some []
  sextets (c ∷ s) = let rest = sextets s in if is_break c then rest else push (sextet_of c) rest

  -- Four sextets are three bytes, and the bits that are left over at the end are not read.
  unfoldable join_sextets : List ℕ → Option (List ℕ)
  unfolding push
  join_sextets [] = some []
  join_sextets (p ∷ []) = none
  join_sextets (p ∷ q ∷ []) = some ((p * 4 + q / 16) ∷ [])
  join_sextets (p ∷ q ∷ r ∷ []) = some ((p * 4 + q / 16) ∷ (q % 16 * 16 + r / 4) ∷ [])
  join_sextets (p ∷ q ∷ r ∷ s ∷ rest) =
      push (some (p * 4 + q / 16))
        (push (some (q % 16 * 16 + r / 4)) (push (some (r % 4 * 64 + s)) (join_sextets rest)))

  unfoldable join_some : Option (List ℕ) → Option (List ℕ)
  unfolding join_sextets
  join_some none = none
  join_some (some s) = join_sextets s

  -- `DecodeString`, with `none` for its error.
  unfoldable pub decode : Text → Option (List ℕ)
  unfolding sextets join_some
  decode s = join_some (sextets s)

abbrev pub IsByte : ℕ → Type 0
IsByte b = b < 256

-- What the two last characters are not: another character of the alphabet, one of them twice, or a
-- line break.
pub record IsSound (a : Alphabet) : Type 0 where
  pub sextet62 : sextet_of a a.code62 ≡ some 62
  pub sextet63 : sextet_of a a.code63 ≡ some 63
  pub line62 : is_break a a.code62 ≡ false
  pub line63 : is_break a a.code63 ≡ false

module _ (a : Alphabet) (h : IsSound a) where
  sextet_of-low : (n : ℕ) → ltb n 62 ≡ true → sextet_of a (char_of a n) ≡ some n
  unfolding char_of sextet_of
  sextet_of-low n low = ground arith

  char_of-high :
      (n : ℕ) → ltb n 62 ≡ false → char_of a n ≡ (if nat_eq n 62 then a.code62 else a.code63)
  unfolding char_of
  char_of-high n high = ground arith

  sextet_of-char_of : (n : ℕ) → n < 64 → sextet_of a (char_of a n) ≡ some n
  sextet_of-char_of n lt = elim (Bool-cases (ltb n 62)) [
    | inl low ↦ sextet_of-low n low
    | inr high ↦ ap (sextet_of a) (char_of-high n high) ∙ (elim (Bool-cases (nat_eq n 62)) [
      | inl at62 ↦ rw at62 (h.sextet62 ∙ ap some (ground arith))
      | inr at63 ↦ rw at63 (h.sextet63 ∙ ap some (ground arith))
    ])
  ]

  char_of-break : (n : ℕ) → n < 64 → is_break a (char_of a n) ≡ false
  unfolding char_of
  char_of-break n lt = ground (arith, h.line62, h.line63)

  sextets-char :
      (n : ℕ) (s : Text) → n < 64 → sextets a (char_of a n ∷ s) ≡ push a (some n) (sextets a s)
  unfolding sextets
  sextets-char n s lt = rw (char_of-break n lt) (rw (sextet_of-char_of n lt) refl)

  sextets-chars : (ns : List ℕ) → All (λ n. n < 64) ns → sextets a (map (char_of a) ns) ≡ some ns
  unfolding push sextets
  sextets-chars [] d = refl
  sextets-chars (n ∷ ns) d =
      sextets-char n (map (char_of a) ns) d.0 ∙ ap (push a (some n)) (sextets-chars ns d.1)

-- The sextets of bytes.
split_bytes : List ℕ → List ℕ
split_bytes [] = []
split_bytes (x ∷ []) = x / 4 ∷ x % 4 * 16 ∷ []
split_bytes (x ∷ y ∷ []) = x / 4 ∷ (x % 4 * 16 + y / 16) ∷ (y % 16 * 4) ∷ []
split_bytes (x ∷ y ∷ z ∷ bytes) =
    x / 4 ∷ (x % 4 * 16 + y / 16) ∷ (y % 16 * 4 + z / 64) ∷ z % 64 ∷ split_bytes bytes

split_bytes-All : (bytes : List ℕ) → All IsByte bytes → All (λ n. n < 64) (split_bytes bytes)
unfolding split_bytes
split_bytes-All [] d = tt
split_bytes-All (x ∷ []) d = (omega (arith, d.0), (omega arith, tt))
split_bytes-All (x ∷ y ∷ []) d = (omega (arith, d.0), (omega (arith, d.1.0), (omega arith, tt)))
split_bytes-All (x ∷ y ∷ z ∷ bytes) d = (
  omega (arith, d.0),
  (omega (arith, d.1.0), (omega (arith, d.1.1.0), (omega arith, split_bytes-All bytes d.1.1.1))),
)

first_byte : (x y : ℕ) → y < 256 → x / 4 * 4 + (x % 4 * 16 + y / 16) / 16 ≡ x
first_byte x y h = omega arith

middle_byte :
    (x y z : ℕ)
    → y < 256
    → z < 256
    → (x % 4 * 16 + y / 16) % 16 * 16 + (y % 16 * 4 + z / 64) / 4 ≡ y
middle_byte x y z h k = omega arith

last_byte : (y z : ℕ) → z < 256 → (y % 16 * 4 + z / 64) % 4 * 64 + z % 64 ≡ z
last_byte y z h = omega arith

module _ (a : Alphabet) where
  encode-split : (bytes : List ℕ) → encode a bytes ≡ map (char_of a) (split_bytes bytes)
  unfolding encode split_bytes
  encode-split [] = refl
  encode-split (x ∷ []) = refl
  encode-split (x ∷ y ∷ []) = refl
  encode-split (x ∷ y ∷ z ∷ bytes) =
      ap
        (λ s.
          char_of a (x / 4)
          ∷ char_of a (x % 4 * 16 + y / 16)
          ∷ char_of a (y % 16 * 4 + z / 64)
          ∷ char_of a (z % 64)
          ∷ s)
        (encode-split bytes)

  join-split : (bytes : List ℕ) → All IsByte bytes → join_sextets a (split_bytes bytes) ≡ some bytes
  unfolding join_sextets push split_bytes
  join-split [] d = refl
  join-split (x ∷ []) d = ap (λ b. some (b ∷ [])) (omega arith)
  join-split (x ∷ y ∷ []) d =
      rw (first_byte x y d.1.0) (ap (λ b. some (x ∷ b ∷ [])) (omega (arith, d.1.0)))
  join-split (x ∷ y ∷ z ∷ bytes) d =
      rw
        (
          join-split bytes d.1.1.1,
          first_byte x y d.1.0,
          middle_byte x y z d.1.0 d.1.1.0,
          last_byte y z d.1.1.0,
        )
        refl

  -- Bytes decode from their encoding.
  pub decode-encode :
      IsSound a → (bytes : List ℕ) → All IsByte bytes → decode a (encode a bytes) ≡ some bytes
  unfolding decode join_some
  decode-encode sound bytes d =
      ap (λ s. join_some a (sextets a s)) (encode-split bytes)
      ∙ (ap (join_some a) (sextets-chars a sound (split_bytes bytes) (split_bytes-All bytes d))
          ∙ join-split bytes d)

  -- An encoding has characters of the alphabet alone.
  pub encode-All :
      (d : ℕ)
      → IsSound a
      → sextet_of a d ≡ none
      → (bytes : List ℕ) → All IsByte bytes
      → All (λ c. nat_eq c d ≡ false) (encode a bytes)
  encode-All d sound strange bytes h =
      rw (encode-split bytes) (chars-All (split_bytes bytes) (split_bytes-All bytes h))
    where
      chars-All :
          (ns : List ℕ) → All (λ n. n < 64) ns → All (λ c. nat_eq c d ≡ false) (map (char_of a) ns)
      chars-All [] h = tt
      chars-All (n ∷ ns) h = (
        elim (Bool-cases (nat_eq (char_of a n) d)) [
          | inl same ↦
              let e : char_of a n ≡ d = (nat_eq_iff _ _).0 same in
              absurd (
                ground
                  (arith, sym (sextet_of-char_of a sound n h.0) ∙ (ap (sextet_of a) e ∙ strange)))
          | inr other ↦ other
        ],
        chars-All ns h.1,
      )
