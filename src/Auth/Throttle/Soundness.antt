-- ===== src/Auth/Throttle/Soundness.antt =====
-- The well-formedness of the map of the throttle: one record for a key, whose window ends within
-- the cap of its last failure.
use pilam.Prelude.{
  ◌+◌, ◌≡◌, refl, Bool, true, false, none, some, [], ◌∷◌, length, leb, ℕ_eq, List_eq, if◌then◌else◌,
  pos, ◌+ℤ◌, ◌≤ℤ◌, arith, Option-cases, inl, inr, All,
}
use pilam.Prelude.Int.{+ℤ_parts}
use pilam.Prelude.Text.{Text}
use pilam.Date.Gregorian.{Time, zero_time}
use pilam.Auth.Throttle.{
  Record, Failed, lookup, reset, store, sweep, count_failure, fail, window, max_window, new_record,
  sweep_at,
}
use pilam.Auth.Throttle.Windows.{window-le}
use pilam.Auth.Throttle.Laws.{IsSound, lookup-reset_self, lookup-sweep-none}

lookup-reset-none :
    (key other : Text) (failed : Failed)
    → lookup other failed ≡ none
    → lookup other (reset key failed) ≡ none
unfolding lookup reset
lookup-reset-none key other [] h = refl
lookup-reset-none key other ((k, r) ∷ failed) h = ground (arith, lookup-reset-none key other failed)

reset-IsSound : (key : Text) (failed : Failed) → IsSound failed → IsSound (reset key failed)
unfolding reset
reset-IsSound key [] s = tt
reset-IsSound key ((k, r) ∷ failed) s =
    ground (arith, reset-IsSound key failed s.2, lookup-reset-none key k failed)

sweep-IsSound : (now : Time) (failed : Failed) → IsSound failed → IsSound (sweep now failed)
unfolding sweep
sweep-IsSound now [] s = tt
sweep-IsSound now ((k, r) ∷ failed) s =
    ground (arith, sweep-IsSound now failed s.2, lookup-sweep-none now k failed)

-- Every failure of the map was before an instant.
abbrev pub SeenBy : Time → Failed → Type 0
SeenBy now = All (λ e. e.1.seen.instant ≤ℤ now.instant)

count_failure-until :
    (now : Time) (r : Record)
    → r.until.instant ≤ℤ now.instant +ℤ pos max_window
    → (count_failure now r).until.instant ≤ℤ (count_failure now r).seen.instant +ℤ pos max_window
unfolding count_failure
count_failure-until now r h = ground (
  arith,
  window-le (r.attempts + 1),
  +ℤ_parts now.instant (pos max_window),
  +ℤ_parts now.instant (window (r.attempts + 1)),
)

store-IsSound :
    (key : Text) (r : Record) (failed : Failed)
    → r.until.instant ≤ℤ r.seen.instant +ℤ pos max_window
    → IsSound failed
    → IsSound (store key r failed)
unfolding store
store-IsSound key r failed h s = (lookup-reset_self key failed, h, reset-IsSound key failed s)

lookup-until :
    (now : Time) (key : Text) (failed : Failed)
    → IsSound failed
    → SeenBy now failed
    → (r : Record) → lookup key failed ≡ some r
    → r.until.instant ≤ℤ now.instant +ℤ pos max_window
unfolding lookup
lookup-until now key [] s b r h = absurd (ground arith)
lookup-until now key ((k, q) ∷ failed) s b r h = ground (
  arith,
  lookup-until now key failed s.2 b.1 r,
  +ℤ_parts q.seen.instant (pos max_window),
  +ℤ_parts now.instant (pos max_window),
)

-- A failure keeps the map sound, when no failure of the map is later than the clock and the
-- clock is not before the zero time.
pub fail-IsSound :
    (now : Time) (key : Text) (failed : Failed)
    → IsSound failed
    → SeenBy now failed
    → zero_time.instant ≤ℤ now.instant
    → IsSound (fail now key failed)
unfolding fail
fail-IsSound now key failed s b z = elim (Option-cases (lookup key failed)) [
  | inl new ↦
      rw (new, fail)
        (store-IsSound key (count_failure now new_record) _
          (count_failure-until now new_record
            (ground (arith, +ℤ_parts now.instant (pos max_window))))
          (swept (leb sweep_at (length failed))))
  | inr (r, old) ↦
      rw (old, fail)
        (store-IsSound key (count_failure now r) _
          (count_failure-until now r (lookup-until now key failed s b r old)) s)
]
  where
    swept : (big : Bool) → IsSound (if big then sweep now failed else failed)
    swept true = sweep-IsSound now failed s
    swept false = s
