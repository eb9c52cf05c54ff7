-- ===== src/Accounts/Liveness.antt =====
-- What lets a login succeed.
use pilam.Prelude.{
  ◌≡◌, refl, Bool, true, false, some, [], ◌∷◌, ◌==◌, ℕ_eq, List_eq, find_first, arith, pos, ◌+ℤ◌,
  ◌≤ℤ◌, Option-cases, inl, inr,
}
use pilam.Prelude.Text.{Text, to_lower}
use pilam.Errors.{ok}
use pilam.Date.Gregorian.{Time}
use pilam.Schema.{User}
use pilam.World.{Env, World}
use pilam.Auth.Throttle.{Record, Failed, lookup, allow, max_window}
use pilam.Auth.Throttle.Laws.{IsSound}
use pilam.Accounts.{Passwords, principal_of, identity_of, normalize_email, by_email}
use pilam.Accounts.Logins.{authenticate, admit, rehash, forget}

-- A record of a sound map ends within the longest window of the last failure.
lookup-until :
    (key : Text) (failed : Failed) (r : Record)
    → IsSound failed
    → lookup key failed ≡ some r
    → r.until.instant ≤ℤ r.seen.instant +ℤ pos max_window
unfolding lookup
lookup-until key [] r sound h = absurd (ground arith)
lookup-until key ((k, held) ∷ failed) r sound h = ground (arith, lookup-until key failed r sound.2)

-- The last failure of the key, if it has one, is at least the longest window ago.
abbrev pub IsRested : Time → Text → Failed → Type 0
IsRested now key failed =
    (r : Record) → lookup key failed ≡ some r → r.seen.instant +ℤ pos max_window ≤ℤ now.instant

pub allow-IsRested :
    (now : Time) (key : Text) (failed : Failed)
    → IsSound failed
    → IsRested now key failed
    → allow now key failed ≡ true
unfolding allow
allow-IsRested now key failed sound rested = elim (Option-cases (lookup key failed)) [
  | inl new ↦ rw (new, allow) refl
  | inr (r, old) ↦
      let late : r.until.instant ≤ℤ r.seen.instant +ℤ pos max_window =
        lookup-until key failed r sound old in
      let ago : r.seen.instant +ℤ pos max_window ≤ℤ now.instant = rested r old in
      rw (old, allow) (ground arith)
]

pub admit-ok :
    (p : Passwords) (env : Env) (email plain : Text) (u : User) (stale : Bool) (w : World)
    → u.active ≡ true
    → (admit p env email plain u (true, stale) w).0 ≡ ok (identity_of u, principal_of u)
unfolding admit rehash forget
admit-ok p env email plain u true w h = ground arith
admit-ok p env email plain u false w h = ground arith

-- However often an address failed to log in, fifteen minutes after its last failure a login with a
-- password that the hash of the active user of the address verifies succeeds, and answers with the
-- identity and the principal of that user, when the map of the throttle is sound.
pub authenticate-Rested :
    (p : Passwords) (env : Env) (submitted plain : Text) (w : World) (u : User) (stale : Bool)
    → IsSound w.failed
    → IsRested env.now (normalize_email submitted) w.failed
    → find_first
        (λ (r : User). to_lower r.email == to_lower (normalize_email submitted))
        w.tables.users
      ≡ some u
    → u.active ≡ true
    → p.verify u.passwd_hash plain ≡ ok (true, stale)
    → (authenticate p env submitted plain w).0 ≡ ok (identity_of u, principal_of u)
unfolding authenticate by_email
authenticate-Rested p env submitted plain w u stale sound rested found active holds = ground (
  arith,
  allow-IsRested env.now (normalize_email submitted) w.failed sound rested,
  admit-ok p env (normalize_email submitted) plain u stale w active,
)
