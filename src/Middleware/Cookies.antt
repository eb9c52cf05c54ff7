-- ===== src/Middleware/Cookies.antt =====
-- A cookie from the login that issued it to the request that it comes back with.
use pilam.Prelude.{
  ℕ, ◌≡◌, ◌<◌, refl, ap, ◌∙◌, true, false, some, List, [], ◌∷◌, ◌++◌, if◌then◌else◌, ◌==◌, List_eq,
  ℕ_eq, ℤ, pos, ◌+ℤ◌, ltb_ℤ, All, arith, find_first, Bool-cases, inl, inr,
}
use pilam.Prelude.Int.{floor_div, eq_ℤ_iff}
use pilam.Prelude.Text.{Text, itoa}
use pilam.Prelude.Numerals.{IsInt64}
use pilam.Prelude.Base64.{IsByte}
use pilam.Prelude.Cuts.{All-append, itoa-All}
use pilam.Date.Gregorian.{times}
use pilam.Errors.{Result, ok}
use pilam.Ids.{IsUuid, nil_id}
use pilam.Schema.{Identity, User}
use pilam.World.{World}
use pilam.Session.{issue, verify, second}
use pilam.Session.Laws.{verify-issue}
use pilam.Accounts.{Principal, principal_of, identity_of, resolve, resolve_row}
use pilam.Accounts.Principals.{
  UuidForm, IsCanonical, principal_text, resolve_subject, parse_principal-text,
}
use pilam.Middleware.{
  Visit, Handler, chain, session, after_verify, subject_of, identify, after_resolve, site,
}
use pilam.Middleware.Laws.{arriving}

-- A row whose user may act: active, with an identifier, and an epoch of 64 bits.
abbrev pub IsLive : User → World → Type 0
IsLive u w =
    (find_first (λ (r : User). r.id == u.id) w.tables.users ≡ some u)
    × IsUuid u.id
    × (u.active ≡ true)
    × ((u.id == nil_id) ≡ false)
    × IsInt64 u.session_epoch

resolve-live :
    (u : User) (w : World) → IsLive u w → (resolve (some (principal_of u)) w).0 ≡ ok (identity_of u)
unfolding resolve resolve_row
resolve-live u w (found, whole, active, named, fits) =
    rw (resolve, found, resolve_row, active)
      (ground (arith, eq_ℤ_iff u.session_epoch u.session_epoch))

resolve_subject-live :
    (form : UuidForm) (u : User) (w : World)
    → IsCanonical form
    → IsLive u w
    → (resolve_subject form (principal_text form (principal_of u)) w).0 ≡ ok (identity_of u)
unfolding resolve_subject
resolve_subject-live form u w canonical live =
    ap (λ o. (resolve o w).0)
      (parse_principal-text form (principal_of u) canonical live.1 live.3 live.4)
    ∙ resolve-live u w live

pub principal_text-bytes :
    (form : UuidForm) (p : Principal)
    → IsCanonical form
    → IsUuid p.user_id
    → All IsByte (principal_text form p)
unfolding principal_text
principal_text-bytes form p canonical whole =
    All-append IsByte (form.text p.user_id) _ (canonical.bytes p.user_id whole)
      (omega arith, itoa-All IsByte (λ c h. ground arith) (omega arith) p.epoch)

-- The text of a principal is not empty.
pub principal_text-full : (form : UuidForm) (p : Principal) → (principal_text form p == []) ≡ false
unfolding principal_text
principal_text-full form p = by_text (form.text p.user_id)
  where
    by_text : (s : Text) → (s ++ b':' ∷ itoa p.epoch == []) ≡ false
    by_text [] = refl
    by_text (c ∷ s) = refl

pub identify-full :
    (resolver : Text → Result Identity) (next : Handler) (v : Visit) (subject : Text)
    → (subject == []) ≡ false
    → identify resolver next (record v { subject = some subject })
      ≡ after_resolve next (record v { subject = some subject }) (resolver subject)
unfolding identify subject_of
identify-full resolver next v [] h = absurd (ground arith)
identify-full resolver next v (c ∷ subject) h = refl

module _ (sign : Text → List ℕ) (form : UuidForm) (w : World) (now : ℤ) where
  abbrev pub resolver : Text → Result Identity
  resolver subject = (resolve_subject form subject w).0

  abbrev pub with_identity : Text → Text → Text → Identity → Visit
  with_identity value path subject i = record (arriving (some value) path) {
    subject = some subject;
    identity = some i;
  }

  -- A request with a cookie that was issued for the principal of a live user reaches the
  -- handlers with the identity of that user until the second in which the lifetime of the cookie
  -- ends, and from then on with nobody's, while its answer clears the cookie.
  pub site-issued :
      (bytes : (s : Text) → All IsByte (sign s))
      → IsCanonical form
      → (ttl : ℕ) (issued : ℤ) (u : User) (n : ℕ) (login change path : Text) (next : Handler)
      → IsLive u w
      → floor_div (issued +ℤ pos ttl) second ≡ pos n
      → n < 9223372036854775808
      → let subject = principal_text form (principal_of u) in
        let value = issue sign ttl issued subject in
        site (verify sign now) resolver login change next (arriving (some value) path) ≡ (
          if ltb_ℤ now (times (pos n) second)
          then next (with_identity value path subject (identity_of u))
          else next (record (arriving (some value) path) { cleared = true }))
  unfolding site chain session after_verify identify subject_of after_resolve
  site-issued bytes canonical ttl issued u n login change path next live e h =
      let subject = principal_text form (principal_of u) in
      let v = arriving (some (issue sign ttl issued subject)) path in
      ap (after_verify (identify resolver next) v) (
        verify-issue sign bytes ttl issued now subject n
          (principal_text-bytes form (principal_of u) canonical live.1) e h)
      ∙ (elim (Bool-cases (ltb_ℤ now (times (pos n) second))) [
        | inl lasts ↦ rw lasts (
            identify-full resolver next v subject (principal_text-full form (principal_of u))
            ∙ ap (after_resolve next _) (resolve_subject-live form u w canonical live))
        | inr over ↦ rw over refl
      ])
