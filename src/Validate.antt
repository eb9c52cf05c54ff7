-- ===== src/Validate.antt =====
-- internal/platform/validate/validate.go: a validator accumulates rejections, one for each field.
-- A check returns the new validator and its answer.
use pilam.Prelude.{
  ℕ, ℤ, ◌≡◌, String, Bool, true, false, not, Option, none, some, List, [], ◌∷◌, ◌++◌, length, ltb,
  ltb_ℤ, pos, if◌then◌else◌, ◌==◌, ◌!=◌, String_eq, List_eq, ℕ_eq, any,
}
use pilam.Prelude.Text.{Text, trim_space, itoa}
use pilam.Errors.{
  Code, FieldError, FieldErrors, Error, rejected, required, too_long, too_short, too_small, too_big,
  not_allowed,
}
pub mod Laws

-- `FieldErrors.Get`
unfoldable pub get : FieldErrors → String → Option FieldError
get [] name = none
get (e ∷ errs) name = if e.field == name then some e else get errs name

-- `Fail`
abbrev pub fail : String → Code → Error
fail name code = rejected (record { field = name; code = code; arg = [] } ∷ [])

-- `Validator` holds its errors and nothing else.
pub record Validator : Type 0 where
  pub errs : FieldErrors

-- The zero value.
abbrev pub ready : Validator
ready = record { errs = [] }

abbrev is_some : Option FieldError → Bool
is_some none = false
is_some (some e) = true

unfoldable pub has : Validator → String → Bool
unfolding get
has v name = is_some (get v.errs name)

unfoldable pub add : Validator → String → Code → Text → Validator
unfolding has
add v name code arg =
    if has v name
    then v
    else record { errs = v.errs ++ record { field = name; code = code; arg = arg } ∷ [] }

-- What a check answers: the validator after it, and whether the field is free of rejections.
abbrev pub answer : Validator → String → Validator × Bool
answer v name = (v, not (has v name))

unfoldable pub check : Validator → Bool → String → Code → Validator × Bool
unfolding add
check v passed name code = answer (if passed then v else add v name code []) name

unfoldable pub require : Validator → String → Text → Validator × Bool
unfolding check
require v name value = check v (trim_space value != []) name required

-- `utf8.RuneCountInString` is the length of the text.
unfoldable pub max_len : Validator → String → Text → ℕ → Validator × Bool
unfolding add
max_len v name value limit =
    answer (if ltb limit (length value) then add v name too_long (itoa (pos limit)) else v) name

unfoldable pub min_len : Validator → String → Text → ℕ → Validator × Bool
unfolding add
min_len v name value limit =
    answer (if ltb (length value) limit then add v name too_short (itoa (pos limit)) else v) name

unfoldable pub at_least : Validator → String → ℤ → ℤ → Validator × Bool
unfolding add
at_least v name n limit =
    answer (if ltb_ℤ n limit then add v name too_small (itoa limit) else v) name

unfoldable pub at_most : Validator → String → ℤ → ℤ → Validator × Bool
unfolding add
at_most v name n limit = answer (if ltb_ℤ limit n then add v name too_big (itoa limit) else v) name

unfoldable one_of : Validator → String → Text → List Text → Validator × Bool
unfolding check
one_of v name value allowed = check v (any (λ t. t == value) allowed) name not_allowed

-- `Validator.Err`
unfoldable pub err_of : FieldErrors → Option Error
err_of [] = none
err_of (e ∷ errs) = some (rejected (e ∷ errs))

-- `From`, which finds no field errors in any other error.
unfoldable pub from : Error → FieldErrors
from (rejected errs) = errs
from _ = []

unfoldable pub add_all : Validator → FieldErrors → Validator
unfolding add
add_all v [] = v
add_all v (e ∷ errs) = add_all (add v e.field e.code e.arg) errs

-- `Merge`, where the error may be nil.
unfoldable pub merge : Validator → Option Error → Validator
unfolding add_all from
merge v none = v
merge v (some e) = add_all v (from e)
