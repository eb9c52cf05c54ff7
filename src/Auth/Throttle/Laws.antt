-- ===== src/Auth/Throttle/Laws.antt =====
-- When a key is allowed to try, after a failure, a reset and a sweep.
use pilam.Prelude.{
  ◌+◌, ◌-◌, ◌≤◌, ◌≡◌, ◌≢◌, refl, true, false, not, Option, none, some, [], ◌∷◌, ltb, leb, ℕ_eq,
  List_eq, pos, ◌+ℤ◌, ◌≤ℤ◌, ◌<ℤ◌, ltb_ℤ, arith, Bool-cases, inl, inr, Option-cases, list_eq_iff,
}
use pilam.Prelude.Int.{+ℤ_parts, -ℤ_parts}
use pilam.Prelude.Text.{Text}
use pilam.Date.{sub_time}
use pilam.Date.Gregorian.{Time}
use pilam.Auth.Throttle.{
  Record, Failed, lookup, reset, store, allow, idle, sweep, count_failure, fail, max_window,
  free_attempts, new_record,
}
use pilam.Auth.Throttle.Windows.{window_lem, doubled}

lookup-reset_ne :
    (key other : Text) (failed : Failed)
    → (key ≢ other)
    → lookup other (reset key failed) ≡ lookup other failed
unfolding lookup reset
lookup-reset_ne key other [] ne = refl
lookup-reset_ne key other ((k, r) ∷ failed) ne =
    ground
      (arith, list_eq_iff ℕ_eq k key, list_eq_iff ℕ_eq k other, lookup-reset_ne key other failed ne)

pub lookup-reset_self : (key : Text) (failed : Failed) → lookup key (reset key failed) ≡ none
unfolding lookup reset
lookup-reset_self key [] = refl
lookup-reset_self key ((k, r) ∷ failed) = ground (arith, lookup-reset_self key failed)

-- After a reset the key may try at any time.
pub allow-reset :
    (now : Time) (key : Text) (failed : Failed) → allow now key (reset key failed) ≡ true
unfolding allow
allow-reset now key failed = rw (lookup-reset_self key failed, allow)

-- The record of a key, or the new one.
abbrev pub held : Option Record → Record
held none = new_record
held (some r) = r

-- A failure counts on the record of its key.
lookup-fail :
    (now : Time) (key : Text) (failed : Failed)
    → lookup key (fail now key failed) ≡ some (count_failure now (held (lookup key failed)))
unfolding fail store
lookup-fail now key failed = elim (Option-cases (lookup key failed)) [
  | inl new ↦ rw (new, fail) (first_entry _ _)
  | inr (r, old) ↦ rw (old, fail) (first_entry _ _)
]
  where
    first_entry : (r : Record) (rest : Failed) → lookup key ((key, r) ∷ rest) ≡ some r
    first_entry r rest = unfold lookup in ground (arith, list_eq_iff ℕ_eq key key)

-- A failure of a key that failed at least four times before lets the key try again exactly from
-- the end of its window on: one second, doubled for each failure past the fifth, and never more
-- than fifteen minutes.
pub allow-fail :
    (now t : Time) (key : Text) (failed : Failed)
    → 4 ≤ (held (lookup key failed)).attempts
    → allow t key (fail now key failed)
      ≡ not (
          ltb_ℤ t.instant
            (now.instant +ℤ pos (doubled ((held (lookup key failed)).attempts + 1 - 5))))
unfolding allow count_failure
allow-fail now t key failed h =
    rw (lookup-fail now key failed, allow) (counted (held (lookup key failed)) h)
  where
    counted :
        (r : Record)
        → 4 ≤ r.attempts
        → not (ltb_ℤ t.instant (count_failure now r).until.instant)
          ≡ not (ltb_ℤ t.instant (now.instant +ℤ pos (doubled (r.attempts + 1 - 5))))
    counted r h = elim (Bool-cases (leb free_attempts (r.attempts + 1))) [
      | inl late ↦ rw (late, window_lem (r.attempts + 1), not_early r h) refl
      | inr early ↦ absurd (ground arith)
    ]
      where
        not_early : (r : Record) → 4 ≤ r.attempts → ltb (r.attempts + 1) 5 ≡ false
        not_early r h = ground arith

-- One entry for a key, and a window that ends within the cap of the last failure.
abbrev pub IsSound : Failed → Type 0
IsSound [] = Unit
IsSound ((k, r) ∷ failed) =
    (lookup k failed ≡ none)
    × (r.until.instant ≤ℤ r.seen.instant +ℤ pos max_window)
    × IsSound failed

idle-lt :
    (now : Time) (r : Record) → idle now r ≡ true → r.seen.instant +ℤ pos max_window <ℤ now.instant
unfolding idle sub_time
idle-lt now r h =
    ground (arith, +ℤ_parts r.seen.instant (pos max_window), -ℤ_parts now.instant r.seen.instant)

pub lookup-sweep-none :
    (now : Time) (key : Text) (failed : Failed)
    → lookup key failed ≡ none
    → lookup key (sweep now failed) ≡ none
unfolding lookup sweep
lookup-sweep-none now key [] h = refl
lookup-sweep-none now key ((k, r) ∷ failed) h = ground (arith, lookup-sweep-none now key failed)

-- A sweep of a sound map answers for every key, then and later, as the map did.
pub allow-sweep :
    (now t : Time) (key : Text) (failed : Failed)
    → IsSound failed
    → now.instant ≤ℤ t.instant
    → allow t key (sweep now failed) ≡ allow t key failed
unfolding allow sweep lookup
allow-sweep now t key [] sound le = refl
allow-sweep now t key ((k, r) ∷ failed) sound le = ground (
  arith,
  allow-sweep now t key failed sound.2 le,
  lookup-sweep-none now key failed,
  idle-lt now r,
  list_eq_iff ℕ_eq k key,
  +ℤ_parts r.seen.instant (pos max_window),
)
