-- ===== src/Tests/Validation.antt =====
-- A validator with two rejections, and a merge into it.
use pilam.Prelude.{◌≡◌, refl, some, [], ◌∷◌}
use pilam.Prelude.Text.{codes}
use pilam.Errors.{FieldErrors, required, too_long, rejected}
use pilam.Validate.{Validator, merge}
use pilam.Validate.Laws.{error_at}

abbrev errs : FieldErrors
errs = error_at "name" too_long (codes "30") ∷ error_at "email" required [] ∷ []

abbrev one : Validator
one = record { errs = error_at "name" required [] ∷ [] }

-- The first rejection of a field stands.
merged :
    (merge one (some (rejected errs))).errs
    ≡ error_at "name" required [] ∷ error_at "email" required [] ∷ []
unfolding merge
merged = refl
