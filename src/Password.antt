-- ===== src/Password.antt =====
-- internal/platform/password/password.go: the text in which a hash is stored. A string is the list of
-- its bytes.
use pilam.Prelude.{
  ℕ, Bool, true, false, not, ◌&&◌, ◌||◌, Option, none, some, List, [], ◌∷◌, ◌++◌, length, ltb,
  nat_eq, if◌then◌else◌, ◌==◌, List_eq, ℕ_eq, ℤ, pos, negsuc,
}
use pilam.Prelude.Text.{Text, codes, itoa, cut_prefix}
use pilam.Prelude.Numerals.{parse_int}
use pilam.Prelude.Base64.{standard}
use pilam.Prelude.Base64 as Base64
pub mod Laws

-- `params`
pub record Params : Type 0 where
  pub time : ℕ
  pub memory : ℕ
  pub threads : ℕ

-- `current`, with the defaults.
abbrev pub current : Params
current = record { time = 3; memory = 65536; threads = 4 }

abbrev pub salt_len : ℕ
salt_len = 16

abbrev pub key_len : ℕ
key_len = 32

-- The bounds of a hash that is read.
abbrev pub is_within : ℕ → ℕ → ℕ → Bool
is_within low high n = not (ltb n low) && not (ltb high n)

abbrev pub min_salt_len : ℕ
min_salt_len = 8

abbrev pub max_key_len : ℕ
max_key_len = 64

-- A number of the text. `strconv.FormatUint` writes what `Itoa` does.
abbrev pub number : ℕ → Text
number n = itoa (pos n)

abbrev pub cost_text : Params → Text
cost_text p =
    codes "m="
    ++ (number p.memory ++ (codes ",t=" ++ (number p.time ++ (codes ",p=" ++ number p.threads))))

-- `encode`, with `argon2.Version`.
unfoldable pub encode : ℕ → Params → List ℕ → List ℕ → Text
encode version p salt key =
    codes "$argon2id"
    ++ (codes "$v="
        ++ (number version
            ++ (b'$'
                ∷ (cost_text p
                    ++ (b'$'
                        ∷ (Base64.encode standard salt ++ (b'$' ∷ Base64.encode standard key)))))))

-- `strings.Split` at a separator of one character.
abbrev pub to_first : ℕ → List Text → List Text
to_first c [] = (c ∷ []) ∷ []
to_first c (s ∷ parts) = (c ∷ s) ∷ parts

unfoldable pub split : ℕ → Text → List Text
split sep [] = [] ∷ []
split sep (c ∷ s) = let rest = split sep s in if nat_eq c sep then [] ∷ rest else to_first c rest

-- `field`, with `none` for every error, which is ErrInvalidHash.
abbrev pub natural : Option ℤ → Option ℕ
natural none = none
natural (some (pos n)) = some n
natural (some (negsuc n)) = none

unfoldable pub field : Text → ℕ → Option ℕ
field s key = elim (cut_prefix s (key ∷ b'=' ∷ [])) [
  | none ↦ none
  | some digits ↦ natural (parse_int digits)
]

-- The costs that `parseParams` takes, in KiB, passes and threads.
unfoldable pub bounded : Option ℕ → Option ℕ → Option ℕ → Option Params
bounded (some memory) (some time) (some threads) =
    if not (is_within 32768 1048576 memory)
    then none
    else if not (is_within 2 16 time)
    then none
    else if not (is_within 1 16 threads)
    then none
    else some (record { time = time; memory = memory; threads = threads })
bounded _ _ _ = none

unfoldable pub params_of : List Text → Option Params
unfolding bounded field
params_of (m ∷ t ∷ p ∷ []) = bounded (field m b'm') (field t b't') (field p b'p')
params_of _ = none

-- `parseParams`
unfoldable pub parse_params : Text → Option Params
unfolding params_of split
parse_params s = params_of (split b',' s)

-- What a hash holds.
pub record Stored : Type 0 where
  pub params : Params
  pub salt : List ℕ
  pub key : List ℕ

-- The end of `decode`: the lengths of the salt and of the key.
unfoldable pub sized : Option Params → Option (List ℕ) → Option (List ℕ) → Option Stored
sized (some p) (some salt) (some key) =
    if ltb (length salt) min_salt_len
    then none
    else if not (is_within key_len max_key_len (length key))
    then none
    else some (record { params = p; salt = salt; key = key })
sized _ _ _ = none

abbrev pub is_version : ℕ → Option ℕ → Bool
is_version version none = false
is_version version (some n) = n == version

unfoldable pub decode_parts : ℕ → List Text → Option Stored
unfolding sized
decode_parts version (empty ∷ algorithm ∷ v ∷ costs ∷ salt ∷ key ∷ []) =
    if not (empty == []) || not (algorithm == codes "argon2id")
    then none
    else if not (is_version version (field v b'v'))
    then none
    else sized (parse_params costs) (Base64.decode standard salt) (Base64.decode standard key)
decode_parts version _ = none

-- `decode`
unfoldable pub decode : ℕ → Text → Option Stored
unfolding decode_parts split
decode version encoded = decode_parts version (split b'$' encoded)

abbrev pub same_params : Params → Params → Bool
same_params p q = (p.time == q.time) && ((p.memory == q.memory) && (p.threads == q.threads))

-- `version` is that of argon2, and `derive` is argon2id with the cost, the password, the salt and the
-- length of the key.
module _ (version : ℕ) (derive : Params → Text → List ℕ → ℕ → List ℕ) where
  -- `Hash`, with the salt that was drawn.
  unfoldable pub hash : List ℕ → Text → Text
  unfolding encode
  hash salt plain = encode version current salt (derive current plain salt key_len)

  -- `Verify` of what was decoded: whether the password holds, and whether it is to be hashed again.
  unfoldable pub compare : Text → Stored → Bool × Bool
  compare plain s =
      if not (derive s.params plain s.salt (length s.key) == s.key) then (false, false) else (
        true,
        not (same_params s.params current)
            || (not (length s.salt == salt_len) || not (length s.key == key_len)),
      )

  unfoldable pub verify : Text → Text → Option (Bool × Bool)
  unfolding compare decode
  verify encoded plain = elim (decode version encoded) [
    | none ↦ none
    | some s ↦ some (compare plain s)
  ]
