-- ===== src/Auth/Throttle.antt =====
-- internal/auth/throttle.go: the throttle that holds back an account which keeps failing to log in.
-- Every method holds the lock from end to end, so a method is a function on the map.
use pilam.Prelude.{
  ℕ, zero, suc, ◌+◌, ◌-◌, ◌*◌, ◌%◌, ◌^◌, Bool, true, false, not, ◌||◌, Option, none, some, List, [],
  ◌∷◌, length, keep_if, ltb, leb, ◌==◌, ◌!=◌, ℕ_eq, List_eq, if◌then◌else◌, ℤ, pos, negsuc, ◌+ℤ◌,
  ltb_ℤ, leb_ℤ,
}
use pilam.Prelude.Text.{Text}
use pilam.Date.{sub_time}
use pilam.Date.Gregorian.{Time, zero_time}
pub mod Windows
pub mod Laws
pub mod Soundness

abbrev pub free_attempts : ℕ
free_attempts = 5

abbrev pub base_window : ℕ
base_window = 1000000000

abbrev pub max_window : ℕ
max_window = 900000000000

abbrev pub sweep_at : ℕ
sweep_at = 1024

abbrev pub max_shift : ℕ
max_shift = 62

pub record Record : Type 0 where
  pub attempts : ℕ
  pub until : Time
  pub seen : Time

-- `map[string]*record`, with one entry for a key.
abbrev pub Failed : Type 0
Failed = List (Text × Record)

unfoldable pub lookup : Text → Failed → Option Record
lookup key [] = none
lookup key ((k, r) ∷ failed) = if k == key then some r else lookup key failed

-- `delete(failed, key)`, and `failed[key] = rec`.
unfoldable pub reset : Text → Failed → Failed
reset key failed = keep_if (λ e. e.0 != key) failed

unfoldable pub store : Text → Record → Failed → Failed
unfolding reset
store key r failed = (key, r) ∷ reset key failed

-- The int64 of a bit pattern.
unfoldable pub int64 : ℕ → ℤ
int64 n = if ltb n (2 ^ 63) then pos n else negsuc (2 ^ 64 - 1 - n)

-- `window`, in nanoseconds, with the shift of an int64.
unfoldable pub window : ℕ → ℤ
unfolding int64
window attempts =
    if ltb attempts free_attempts
    then pos 0
    else let over = attempts - free_attempts in
      if ltb max_shift over
      then pos max_window
      else let held = int64 ((base_window * 2 ^ over) % 2 ^ 64) in
        if ltb_ℤ (pos max_window) held || leb_ℤ held (pos 0) then pos max_window else held

-- `Time.Add`, whose instant stays in range.
abbrev add_time : Time → ℤ → Time
add_time t d = record t { instant = t.instant +ℤ d }

-- `Allow` at an instant.
unfoldable pub allow : Time → Text → Failed → Bool
unfolding lookup
allow now key failed = elim (lookup key failed) [
  | none ↦ true
  | some r ↦ not (ltb_ℤ now.instant r.until.instant)
]

unfoldable pub idle : Time → Record → Bool
idle now r = ltb_ℤ (pos max_window) (sub_time now r.seen)

unfoldable pub sweep : Time → Failed → Failed
sweep now failed = keep_if (λ e. not (idle now e.1)) failed

-- A failure of a record.
unfoldable pub count_failure : Time → Record → Record
unfolding window
count_failure now r =
    let attempts = r.attempts + 1 in
    record {
      attempts = attempts;
      until = if leb free_attempts attempts then add_time now (window attempts) else r.until;
      seen = now;
    }

abbrev pub new_record : Record
new_record = record { attempts = 0; until = zero_time; seen = zero_time }

-- `Fail` at an instant: a new key is preceded by a sweep when the map is large.
unfoldable pub fail : Time → Text → Failed → Failed
unfolding lookup store sweep count_failure
fail now key failed = elim (lookup key failed) [
  | some r ↦ store key (count_failure now r) failed
  | none ↦
      store key (count_failure now new_record)
        (if leb sweep_at (length failed) then sweep now failed else failed)
]
