-- ===== src/Session.antt =====
-- internal/platform/session/session.go: a login that travels in a cookie as a signed value. A string
-- is the list of its bytes, and `none` is ErrInvalid, which is every failure.
use pilam.Prelude.{
  ℕ, ◌*◌, Bool, false, not, Option, none, some, List, [], ◌∷◌, ◌++◌, any, nat_eq, if◌then◌else◌,
  ◌==◌, List_eq, ℕ_eq, ℤ, pos, ◌+ℤ◌, ◌-ℤ◌, ltb_ℤ,
}
use pilam.Prelude.Int.{floor_div}
use pilam.Prelude.Text.{Text, itoa, cut}
use pilam.Prelude.Numerals.{parse_int}
use pilam.Prelude.Base64.{url_safe}
use pilam.Prelude.Base64 as Base64
use pilam.Date.Gregorian.{times}
pub mod Laws

-- `separator`
abbrev pub separator : ℕ
separator = b'.'

-- `encode` and `decode`
abbrev pub encode : List ℕ → Text
encode bytes = Base64.encode url_safe bytes

abbrev pub decode : Text → Option (List ℕ)
decode s = Base64.decode url_safe s

-- `Time.Unix` and `time.Unix`, over instants in nanoseconds from year 1. The sum of seconds that
-- `time.Unix` makes is an int64, which wraps around above its greatest value.
abbrev pub second : ℕ
second = 1000000000

abbrev pub epoch : ℤ
epoch = pos 62135596800

unfoldable pub unix_seconds : ℤ → ℤ
unix_seconds instant = floor_div instant second -ℤ epoch

unfoldable pub wrap_int64 : ℤ → ℤ
wrap_int64 n = if ltb_ℤ (pos 9223372036854775807) n then n -ℤ pos 18446744073709551616 else n

unfoldable pub unix_instant : ℤ → ℤ
unfolding wrap_int64
unix_instant seconds = times (wrap_int64 (seconds +ℤ epoch)) second

-- `payload`
unfoldable pub payload : List ℕ → ℤ → Text
unfolding unix_seconds
payload subject expires = encode subject ++ separator ∷ itoa (unix_seconds expires)

-- The three parts of a value.
pub record Parts : Type 0 where
  pub subject : Text
  pub expiry : Text
  pub signature : Text

-- `split`
unfoldable pub split_rest : Text → Option (Text × Text) → Option Parts
split_rest subject none = none
split_rest subject (some (expiry, signature)) =
    if any (λ c. nat_eq c separator) signature
    then none
    else some (record { subject = subject; expiry = expiry; signature = signature })

unfoldable pub split_first : Option (Text × Text) → Option Parts
unfolding split_rest
split_first none = none
split_first (some (subject, rest)) = split_rest subject (cut separator rest)

unfoldable pub split : Text → Option Parts
unfolding split_first
split value = split_first (cut separator value)

-- The payload that the signature of a value is of.
abbrev pub signed_part : Parts → Text
signed_part p = p.subject ++ separator ∷ p.expiry

-- `Manager`: `sign` is HMAC-SHA256 under its secret, `ttl` the lifetime in nanoseconds.
module _ (sign : Text → List ℕ) where
  -- `Issue`, at an instant of the clock.
  unfoldable pub issue : ℕ → ℤ → List ℕ → Text
  unfolding payload
  issue ttl now subject =
      let signed = payload subject (now +ℤ pos ttl) in signed ++ separator ∷ encode (sign signed)

  unfoldable pub is_signed : Parts → Option (List ℕ) → Bool
  is_signed p none = false
  is_signed p (some mac) = mac == sign (signed_part p)

  -- The end of `Verify`: what a signed value carries, while it lasts.
  unfoldable pub unexpired : ℤ → Option (List ℕ) → Option ℤ → Option (List ℕ)
  unfolding unix_instant
  unexpired now (some subject) (some seconds) =
      if not (ltb_ℤ now (unix_instant seconds)) then none else some subject
  unexpired now _ _ = none

  unfoldable pub verify_parts : ℤ → Option Parts → Option (List ℕ)
  unfolding is_signed unexpired
  verify_parts now none = none
  verify_parts now (some p) =
      if not (is_signed p (decode p.signature))
      then none
      else unexpired now (decode p.subject) (parse_int p.expiry)

  -- `Verify`
  unfoldable pub verify : ℤ → Text → Option (List ℕ)
  unfolding verify_parts split
  verify now value = verify_parts now (split value)
