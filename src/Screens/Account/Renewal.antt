-- ===== src/Screens/Account/Renewal.antt =====
-- The cookies of a user after they changed their password on the screen.
use pilam.Prelude.{
  ℕ, ◌≡◌, ◌<◌, refl, sym, ap, ◌∙◌, Bool, true, false, Option, none, some, List, if◌then◌else◌, ◌==◌,
  List_eq, ℕ_eq, ℤ, pos, negsuc, arith, ◌+ℤ◌, ltb_ℤ, All,
}
use pilam.Prelude.Int.{floor_div, IsInt32, int32-IsInt32}
use pilam.Prelude.Text.{Text}
use pilam.Prelude.Numerals.{IsInt64}
use pilam.Prelude.Base64.{IsByte}
use pilam.Date.Gregorian.{times}
use pilam.Errors.{Error, rejected, Result, ok, err, not_resolved}
use pilam.Ids.{IsUuid, nil_id}
use pilam.Schema.{Identity, User}
use pilam.World.{Env, World}
use pilam.Session.{issue, verify, second}
use pilam.Accounts.{Passwords, Principal, principal_of, as_stored, identity_of, resolve}
use pilam.Accounts.Rows.{user_of}
use pilam.Accounts.Sessions.{change_password-Renews, Renews-ended, IsPasswd, Renews, change_to}
use pilam.Accounts.Logins.{change_password}
use pilam.Accounts.Principals.{
  UuidForm, IsCanonical, principal_text, resolve_subject, parse_principal-text,
}
use mathlib.Core.Path.{subst}
use pilam.Middleware
use pilam.Middleware.{Handler, Reply, site, chain, session, after_verify, after_resolve}
use pilam.Middleware.Laws.{arriving}
use pilam.Middleware.Cookies.{
  site-issued, with_identity, resolver, identify-full, principal_text-full,
}
use pilam.Screens.{Answer, Form, Cookie, set, kept}
use pilam.Screens.Account.{submit_change, change_as, after_change, check_change, refuse}

-- A row whose user holds a session, and whose next epoch the column of the epoch can hold.
abbrev pub IsHolder : User → Type 0
IsHolder u =
    IsUuid u.id
    × (u.active ≡ true)
    × ((u.id == nil_id) ≡ false)
    × IsInt64 u.session_epoch
    × IsInt32 (u.session_epoch +ℤ pos 1)

stored-same : (u : User) → IsInt32 u.session_epoch → as_stored u ≡ u
stored-same u h = ap (λ e. record u { session_epoch = e }) (int32-IsInt32 u.session_epoch h)

int32-IsInt64 : (n : ℤ) → IsInt32 n → IsInt64 n
int32-IsInt64 (pos n) h = omega (arith, h)
int32-IsInt64 (negsuc n) h = omega (arith, h)

refuse-kept : (status : ℕ) (e : Error) → (refuse status e).cookie ≡ kept
unfolding refuse
refuse-kept status (rejected errs) = refl
refuse-kept status e = refl

kept-set : (c : Cookie) (value : Text) → c ≡ kept → c ≡ set value → ⊥
kept-set c value h e = cc

-- The row that two reads of one identifier find.
same_row : (o : Option User) (u v : User) → o ≡ some u → o ≡ some v → u ≡ v
same_row o u v h k = cc

module _ (sign : Text → List ℕ) (ttl : ℕ) (ids : UuidForm) (p : Passwords) (env : Env) where
  abbrev IsSent : Result Principal × World → World → Text → Type 0
  IsSent r w' value =
      (q : Principal) × (r ≡ (ok q, w'))
      × (value ≡ issue sign ttl env.now.instant (principal_text ids q))

  -- An answer that sets a cookie comes from a change that succeeded.
  after_change-set :
      (r : Result Principal × World) (a : Answer) (w' : World) (value : Text)
      → after_change sign ttl ids p env r ≡ (a, w')
      → a.cookie ≡ set value
      → IsSent r w' value
  unfolding after_change
  after_change-set (ok q, w) a w' value h e =
      let ended : w ≡ w' = ap (λ r. r.1) h in
      let sent : set (issue sign ttl env.now.instant (principal_text ids q)) ≡ set value =
        ap (λ r. r.0.cookie) h ∙ e in
      (q, ap (λ v. (ok q, v)) ended, cc)
  after_change-set (err d, w) a w' value h e =
      absurd (kept-set a.cookie value (sym (ap (λ r. r.0.cookie) h) ∙ refuse-kept 422 d) e)

  submit_change-set :
      (htmx : Bool) (i : Identity) (form : Form) (w w' : World) (a : Answer) (value : Text)
      → submit_change sign ttl ids p env htmx (some i) form w ≡ (a, w')
      → a.cookie ≡ set value
      → IsSent
          (change_password p env i.user_id
            (form.value "current_passwd")
            (form.value "new_passwd")
            w)
          w'
          value
  unfolding submit_change change_as
  submit_change-set htmx i form w w' a value h e =
      by_check
        (check_change (form.value "current_passwd") (form.value "new_passwd")
          (form.value "repeat_passwd"))
        h
    where
      changed : Result Principal × World
      changed =
          change_password p env i.user_id (form.value "current_passwd") (form.value "new_passwd") w

      by_check :
          (o : Option Error)
          → elim o [ some d ↦ (refuse 422 d, w) | none ↦ after_change sign ttl ids p env changed ]
            ≡ (a, w')
          → IsSent changed w' value
      by_check none k = after_change-set changed a w' value k e
      by_check (some d) k =
          absurd (kept-set a.cookie value (sym (ap (λ r. r.0.cookie) k) ∙ refuse-kept 422 d) e)

-- A request with a cookie of a user whose epoch has moved on.
site-ended :
    (sign : Text → List ℕ) (ids : UuidForm) (w : World) (now : ℤ) (old login change path : Text)
    (next : Handler) (u : User)
    → IsCanonical ids
    → IsHolder u
    → resolve (some (principal_of u)) w ≡ (err not_resolved, w)
    → verify sign now old ≡ some (principal_text ids (principal_of u))
    → site (verify sign now) (resolver sign ids w now) login change next (arriving (some old) path)
      ≡ next (record (arriving (some old) path) {
        subject = some (principal_text ids (principal_of u));
        cleared = true;
      })
unfolding site chain session after_verify after_resolve resolve_subject
site-ended sign ids w now old login change path next u canonical holder ended read =
    let subject = principal_text ids (principal_of u) in
    let act = resolver sign ids w now in
    ap (after_verify (Middleware.identify act next) (arriving (some old) path)) read
    ∙ identify-full act next (arriving (some old) path) subject
        (principal_text-full ids (principal_of u))
    ∙ ap (after_resolve next (record (arriving (some old) path) { subject = some subject })) (
        ap (λ o. (resolve o w).0)
          (parse_principal-text ids (principal_of u) canonical holder.0 holder.2 holder.3)
        ∙ ap (λ r. r.0) ended)

-- What is left of the sessions of a user: a cookie of the row as it was, and the new one.
module _ (sign : Text → List ℕ) (ttl : ℕ) (ids : UuidForm) (p : Passwords) (env : Env) (htmx : Bool)
    (i : Identity) (form : Form) (w w' : World) (a : Answer) (value : Text) (now : ℤ)
    (old login change path : Text) (next : Handler) (u : User) (n : ℕ) where
  abbrev pub arrive : Text → Reply
  arrive cookie =
      site (verify sign now) (resolver sign ids w' now) login change next
        (arriving (some cookie) path)

  abbrev pub IsRenewed : Type 0
  IsRenewed =
      IsPasswd p (form.value "current_passwd") u
      × (arrive old
          ≡ next (record (arriving (some old) path) {
            subject = some (principal_text ids (principal_of u));
            cleared = true;
          }))
      × ((hash : Text) × (arrive value ≡ (
            if ltb_ℤ now (times (pos n) second)
            then next (
                with_identity sign ids w' now value path
                  (principal_text ids (principal_of (change_to u hash)))
                  (identity_of (change_to u hash)))
            else next (record (arriving (some value) path) { cleared = true }))))

  -- Where the form that changes a password answers with a new cookie, the hash of the row verified
  -- the posted current password; from then on a cookie of the row as it was reaches a handler with
  -- nobody's identity while the answer clears it, and the new cookie reaches it with the identity
  -- of the row under its new hash until the second in which the lifetime of the cookie ends. The
  -- row is that of a live user, its next epoch fits the 32 bits of the column, the old cookie is
  -- one that still verifies, and the text of an identifier is canonical.
  pub submit_change-IsRenewed :
      submit_change sign ttl ids p env htmx (some i) form w ≡ (a, w')
      → a.cookie ≡ set value
      → user_of i.user_id w.tables ≡ some u
      → IsHolder u
      → ((s : Text) → All IsByte (sign s))
      → IsCanonical ids
      → verify sign now old ≡ some (principal_text ids (principal_of u))
      → floor_div (env.now.instant +ℤ pos ttl) second ≡ pos n
      → n < 9223372036854775808
      → IsRenewed
  submit_change-IsRenewed h e found holder bytes canonical read ends_at small =
      let (q, ran, sent) = submit_change-set sign ttl ids p env htmx i form w w' a value h e in
      let (v, held, passed, renews) =
        change_password-Renews p env i.user_id (form.value "current_passwd")
          (form.value "new_passwd") w w' q ran in
      let same : v ≡ u = same_row _ v u held found in
      let mine : Renews u w' q = subst (λ r. Renews r w' q) same renews in
      let (hash, wrote, of_row) = mine in
      (
        subst (IsPasswd p (form.value "current_passwd")) same passed,
        site-ended sign ids w' now old login change path next u canonical holder
            (Renews-ended u w' q mine) read,
        (
          hash,
          subst
              (λ x. arrive x ≡ (
                if ltb_ℤ now (times (pos n) second)
                then next (
                    with_identity sign ids w' now x path
                      (principal_text ids (principal_of (change_to u hash)))
                      (identity_of (change_to u hash)))
                else next (record (arriving (some x) path) { cleared = true })))
              (sym (sent ∙ ap (λ r. issue sign ttl env.now.instant (principal_text ids r)) of_row))
              (site-issued sign ids w' now bytes canonical ttl env.now.instant (change_to u hash) n
                login change path next
                (
                  wrote ∙ ap some (stored-same (change_to u hash) holder.4),
                  holder.0,
                  holder.1,
                  holder.2,
                  int32-IsInt64 (u.session_epoch +ℤ pos 1) holder.4,
                )
                ends_at small),
        ),
      )
