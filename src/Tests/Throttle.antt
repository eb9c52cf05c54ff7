-- ===== src/Tests/Throttle.antt =====
-- A throttle that holds one account back.
use pilam.Prelude.{
  ◌≡◌, refl, true, false, not, [], ◌∷◌, ℕ, ◌+◌, ◌-◌, ◌*◌, ◌≤◌, pos, ◌+ℤ◌, ◌≤ℤ◌, ltb_ℤ, ltb,
  if◌then◌else◌, arith,
}
use pilam.Prelude.Text.{Text, codes}
use pilam.Date.Gregorian.{Time, zero_time}
use pilam.Auth.Throttle.{
  Failed, lookup, reset, store, allow, sweep, fail, window, count_failure, int64,
}
use pilam.Auth.Throttle.Windows.{window_lem, doubled}
use pilam.Auth.Throttle.Laws.{held, allow-fail, IsSound, allow-sweep}
use pilam.Auth.Throttle.Soundness.{SeenBy, fail-IsSound}

-- So many seconds.
abbrev at : ℕ → Time
at s = record { instant = pos (s * 1000000000); offset = pos 0 }

abbrev key : Text
key = codes "a@b.ru"

abbrev failed : Failed
failed = (key, record { attempts = 6; until = at 1002; seen = at 1000 }) ∷ []

held_attempts : 4 ≤ (held (lookup key failed)).attempts
unfolding lookup
held_attempts = ground arith

failed-IsSound : IsSound failed
unfolding lookup ◌+ℤ◌
failed-IsSound = (refl, ground arith, tt)

seen : SeenBy (at 2000) failed
seen = (ground arith, tt)

-- The seventh failure waits four seconds.
held_back :
    (allow (at 2003) key (fail (at 2000) key failed) ≡ false)
    × (allow (at 2004) key (fail (at 2000) key failed) ≡ true)
unfolding allow fail lookup store reset count_failure window int64 ◌+ℤ◌
held_back = (refl, refl)

window_lem_example : window 8 ≡ (if ltb 8 5 then pos 0 else pos (doubled (8 - 5)))
window_lem_example = window_lem 8

allow-fail_example :
    allow (at 2003) key (fail (at 2000) key failed)
    ≡ not (
        ltb_ℤ
          (at 2003).instant
          ((at 2000).instant +ℤ pos (doubled ((held (lookup key failed)).attempts + 1 - 5))))
allow-fail_example = allow-fail (at 2000) (at 2003) key failed held_attempts

later : (at 2000).instant ≤ℤ (at 2001).instant
later = ground arith

allow-sweep_example : allow (at 2001) key (sweep (at 2000) failed) ≡ allow (at 2001) key failed
allow-sweep_example = allow-sweep (at 2000) (at 2001) key failed failed-IsSound later

zero_before : zero_time.instant ≤ℤ (at 2000).instant
zero_before = ground arith

fail-IsSound_example : IsSound (fail (at 2000) key failed)
fail-IsSound_example = fail-IsSound (at 2000) key failed failed-IsSound seen zero_before
