-- ===== src/Auth/Throttle/Windows.antt =====
-- The length of a window: the shift of the int64, and the doubling that it stands for.
use pilam.Prelude.{
  ℕ, zero, suc, ◌+◌, ◌-◌, ◌*◌, ◌≤◌, ◌<◌, ◌≡◌, refl, ap, sym, ◌∙◌, Bool, true, false, ◌&&◌, nat_eq,
  ltb, if◌then◌else◌, Bool-cases, inl, inr, ltb→lt, pos, eq_ℤ, ◌≤ℤ◌, arith,
}
use pilam.Prelude.Int.{eq_ℤ_iff}
use pilam.Auth.Throttle.{window, free_attempts, base_window, max_window, max_shift}

-- One second, doubled so many times, up to the cap.
pub doubled : ℕ → ℕ
doubled zero = base_window
doubled (suc n) = let longer = 2 * doubled n in if ltb max_window longer then max_window else longer

-- Whether the windows of the attempts from the fifth on, so many of them, are as `doubled` says.
windows_match : ℕ → Bool
windows_match zero = true
windows_match (suc over) = eq_ℤ (window (over + 5)) (pos (doubled over)) && windows_match over

window_at :
    (over bound : ℕ)
    → over < bound
    → windows_match bound ≡ true
    → eq_ℤ (window (over + 5)) (pos (doubled over)) ≡ true
unfolding windows_match
window_at over zero lt h = absurd (omega arith)
window_at over (suc bound) lt h = elim (Bool-cases (nat_eq over bound)) [
  | inl last ↦ ground (arith, last)
  | inr earlier ↦ window_at over bound (ground arith) (ground arith)
]

window_table : windows_match 63 ≡ true
unfolding windows_match window doubled
window_table = refl

doubled-late : (n : ℕ) → doubled (n + 10) ≡ max_window
unfolding doubled
doubled-late zero = refl
doubled-late (suc n) = rw (suc_add n, doubled-late n) refl
  where
    suc_add : (n : ℕ) → suc n + 10 ≡ suc (n + 10)
    suc_add n = omega arith

window_short : (attempts : ℕ) → attempts < 5 → window attempts ≡ pos 0
unfolding window
window_short attempts h = ground arith

window_long : (attempts : ℕ) → 68 ≤ attempts → window attempts ≡ pos max_window
unfolding window
window_long attempts h = elim (Bool-cases (ltb attempts 5)) [
  | inl early ↦ absurd (ground arith)
  | inr late ↦ rw (late, past attempts h) refl
]
  where
    past : (attempts : ℕ) → 68 ≤ attempts → ltb max_shift (attempts - free_attempts) ≡ true
    past attempts h = ground arith

window_between : (over : ℕ) → over < 63 → window (over + 5) ≡ pos (doubled over)
window_between over h = (eq_ℤ_iff _ _).0 (window_at over 63 h window_table)

from_five : (n : ℕ) → ltb n 5 ≡ false → n ≡ (n - 5) + 5
from_five n h = ground arith

from_fifteen : (n : ℕ) → ltb (n - 5) 63 ≡ false → n - 5 ≡ (n - 15) + 10
from_fifteen n h = ground arith

-- The window after so many attempts is nothing before the fifth, and from the fifth on one
-- second, doubled for each attempt past the fifth and cut to fifteen minutes, whatever the shift
-- of the int64 does.
pub window_lem :
    (attempts : ℕ)
    → window attempts ≡ (if ltb attempts 5 then pos 0 else pos (doubled (attempts - 5)))
window_lem attempts = elim (Bool-cases (ltb attempts 5)) [
  | inl early ↦ rw early (window_short attempts (ltb→lt attempts 5 early))
  | inr late ↦ elim (Bool-cases (ltb (attempts - 5) 63)) [
    | inl between ↦
        rw late
          (ap window (from_five attempts late) ∙ window_between (attempts - 5) (ltb→lt _ _ between))
    | inr long ↦ rw late (
        window_long attempts (ground arith)
        ∙ ap pos (sym (ap doubled (from_fifteen attempts long) ∙ doubled-late (attempts - 15))))
  ]
]

doubled-le : (n : ℕ) → doubled n ≤ max_window
unfolding doubled
doubled-le zero = ground arith
doubled-le (suc n) = ground arith

pub window-le : (attempts : ℕ) → window attempts ≤ℤ pos max_window
window-le attempts = rw (window_lem attempts) (ground (arith, doubled-le (attempts - 5)))
