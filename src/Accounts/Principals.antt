-- ===== src/Accounts/Principals.antt =====
-- internal/auth/principal.go with `Parse` of internal/platform/ids/ids.go: the subject of a session.
use pilam.Prelude.{
  ℕ, ◌<◌, ◌≡◌, refl, ap, ◌∙◌, false, not, Option, none, some, ◌∷◌, ◌++◌, length, if◌then◌else◌,
  ◌==◌, ℕ_eq, ℤ, All,
}
use pilam.Prelude.Text.{Text, itoa, cut}
use pilam.Prelude.Numerals.{parse_int, IsInt64, parse_int-itoa}
use pilam.Prelude.Cuts.{Lacks, cut-Lacks}
use pilam.Ids.{Uuid, IsUuid, nil_id}
use pilam.Schema.{Identity}
use pilam.World.{Action}
use pilam.Accounts.{Principal, resolve}

-- `uuid.UUID.String` and `uuid.Parse` of github.com/google/uuid.
pub record UuidForm : Type 0 where
  pub text : Uuid → Text
  pub read : Text → Option Uuid

-- The canonical text of 128 bits is 36 bytes without a colon, and reads back.
pub record IsCanonical (form : UuidForm) : Type 0 where
  pub long : (id : Uuid) → IsUuid id → length (form.text id) ≡ 36
  pub plain : (id : Uuid) → IsUuid id → Lacks b':' (form.text id)
  pub bytes : (id : Uuid) → IsUuid id → All (λ c. c < 256) (form.text id)
  pub reads : (id : Uuid) → IsUuid id → form.read (form.text id) ≡ some id

module _ (form : UuidForm) where
  abbrev not_nil : Option Uuid → Option Uuid
  not_nil none = none
  not_nil (some id) = if id == nil_id then none else some id

  -- `ids.Parse`, with `none` for ErrInvalid.
  abbrev canonical_length : ℕ
  canonical_length = 36

  unfoldable pub parse_id : Text → Option Uuid
  parse_id s = if not (length s == canonical_length) then none else not_nil (form.read s)

  -- `Principal.String`
  unfoldable pub principal_text : Principal → Text
  principal_text p = form.text p.user_id ++ b':' ∷ itoa p.epoch

  abbrev pub both : Option Uuid → Option ℤ → Option Principal
  both (some id) (some epoch) = some (record { user_id = id; epoch = epoch })
  both _ _ = none

  abbrev pub of_parts : Option (Text × Text) → Option Principal
  of_parts none = none
  of_parts (some (raw_id, raw_epoch)) = both (parse_id raw_id) (parse_int raw_epoch)

  -- `ParsePrincipal`, with `none` for ErrUnknownSubject.
  unfoldable pub parse_principal : Text → Option Principal
  unfolding parse_id
  parse_principal subject = of_parts (cut b':' subject)

  -- `Resolve` of a subject.
  unfoldable pub resolve_subject : Text → Action Identity
  unfolding parse_principal
  resolve_subject subject = resolve (parse_principal subject)

-- A principal of an int64 epoch, whose identifier is not nil, reads back from its text.
pub parse_principal-text :
    (form : UuidForm) (p : Principal)
    → IsCanonical form
    → IsUuid p.user_id
    → (p.user_id == nil_id) ≡ false
    → IsInt64 p.epoch
    → parse_principal form (principal_text form p) ≡ some p
unfolding parse_principal parse_id principal_text
parse_principal-text form p canonical whole named fits =
    ap (of_parts form)
      (cut-Lacks b':' (form.text p.user_id) (itoa p.epoch) (canonical.plain p.user_id whole))
    ∙ rw
        (
          canonical.long p.user_id whole,
          canonical.reads p.user_id whole,
          named,
          parse_int-itoa p.epoch fits,
        )
        refl
