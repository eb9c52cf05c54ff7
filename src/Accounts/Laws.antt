-- ===== src/Accounts/Laws.antt =====
-- What a login that succeeds rests on.
use pilam.Prelude.{
  ◌≡◌, refl, Bool, true, false, Option, none, some, ◌==◌, ℕ_eq, List_eq, find_first, arith,
}
use pilam.Prelude.Text.{Text, to_lower}
use pilam.Errors.{Result, ok, err}
use pilam.Schema.{Identity, User}
use pilam.World.{Env, World}
use pilam.Auth.Throttle
use pilam.Accounts.{Passwords, Principal, principal_of, identity_of, normalize_email, by_email}
use pilam.Accounts.Logins.{authenticate, admit, nobody, rehash, forget}

-- What a successful login of an address and a password rests on.
abbrev pub Holds : Passwords → Env → Text → Text → World → Identity × Principal → Type 0
Holds p env submitted plain w (identity, principal) =
    (u : User) × (find_first
        (λ (r : User). to_lower r.email == to_lower (normalize_email submitted)) w.tables.users
      ≡ some u)
    × (u.active ≡ true)
    × ((stale : Bool) × (p.verify u.passwd_hash plain ≡ ok (true, stale)))
    × (Throttle.allow env.now (normalize_email submitted) w.failed ≡ true)
    × (identity ≡ identity_of u)
    × (principal ≡ principal_of u)

admit-active :
    (p : Passwords) (env : Env) (email plain : Text) (u : User) (holds stale : Bool) (w w' : World)
    (identity : Identity) (principal : Principal)
    → admit p env email plain u (holds, stale) w ≡ (ok (identity, principal), w')
    → (holds ≡ true) × (u.active ≡ true) × (identity ≡ identity_of u) × (principal ≡ principal_of u)
unfolding admit rehash forget
admit-active p env email plain u true true w w' i q h = ground arith
admit-active p env email plain u true false w w' i q h = ground arith
admit-active p env email plain u false stale w w' i q h = ground arith

module _ (p : Passwords) (env : Env) (submitted plain : Text) (w w' : World) (identity : Identity)
    (principal : Principal)
    (h : authenticate p env submitted plain w ≡ (ok (identity, principal), w')) where
  abbrev found : Option User
  found =
      find_first (λ (r : User). to_lower r.email == to_lower (normalize_email submitted))
        w.tables.users

  by_case :
      (o : Option User) (a : Result (Bool × Bool))
      → found ≡ o
      → p.verify (elim o [ none ↦ p.dummy | some u ↦ u.passwd_hash ]) plain ≡ a
      → Holds p env submitted plain w (identity, principal)
  unfolding authenticate by_email
  by_case none (ok (holds, stale)) e v = absurd (
      ground (
        arith,
        h,
        admit-active p env (normalize_email submitted) plain (nobody p) holds stale w w' identity
            principal,
      ))
  by_case none (err d) e v = absurd (ground (arith, h))
  by_case (some u) (ok (holds, stale)) e v =
      let q =
        admit-active p env (normalize_email submitted) plain u holds stale w w' identity principal
          (ground (arith, h)) in
      (u, e, q.1, (stale, ground (arith, q.0)), ground (arith, h), q.2, q.3)
  by_case (some u) (err d) e v = absurd (ground (arith, h))

-- A login that succeeds names the active user that its normalized address finds, whose hash the
-- password verifies against, at a time when the throttle lets the address try, and answers with
-- the identity and the principal of that user.
pub authenticate-Holds :
    (p : Passwords) (env : Env) (submitted plain : Text) (w w' : World) (identity : Identity)
    (principal : Principal)
    → authenticate p env submitted plain w ≡ (ok (identity, principal), w')
    → Holds p env submitted plain w (identity, principal)
authenticate-Holds p env submitted plain w w' identity principal h =
    by_case p env submitted plain w w' identity principal h _ _ refl refl
