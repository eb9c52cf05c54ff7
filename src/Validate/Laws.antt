-- ===== src/Validate/Laws.antt =====
-- What the operations of the validator do to the rejections of each field.
use pilam.Prelude.{
  ◌≡◌, refl, ◌↔◌, String, Bool, true, false, Option, none, some, [], ◌∷◌, ◌++◌, ◌∙◌, inl, inr,
  arith, Option-cases, if◌then◌else◌, ◌==◌, String_eq,
}
use text.Mathlib.TextEquality.{eq_iff}
use pilam.Prelude.Text.{Text}
use pilam.Errors.{Code, FieldError, FieldErrors, rejected}
use pilam.Validate.{Validator, get, add, check, add_all, merge, err_of}

-- What a lookup falls back on.
abbrev pub or_else : Option FieldError → Option FieldError → Option FieldError
or_else none o = o
or_else (some e) o = some e

abbrev pub error_at : String → Code → Text → FieldError
error_at name code arg = record { field = name; code = code; arg = arg }

get-append :
    (errs more : FieldErrors) (name : String)
    → get (errs ++ more) name ≡ or_else (get errs name) (get more name)
unfolding get
get-append [] more name = refl
get-append (e ∷ errs) more name = ground (arith, get-append errs more name)

-- A rejection that was added is found under its own field unless the field had one, and other
-- fields are as before.
pub get-add :
    (v : Validator) (name : String) (code : Code) (arg : Text) (other : String)
    → get (add v name code arg).errs other
      ≡ or_else (get v.errs other) (if name == other then some (error_at name code arg) else none)
unfolding add get
get-add v name code arg other =
    ground (arith, get-append v.errs (error_at name code arg ∷ []) other, eq_iff name other)

or_else_assoc : (a b c : Option FieldError) → or_else (or_else a b) c ≡ or_else a (or_else b c)
or_else_assoc none b c = refl
or_else_assoc (some e) b c = refl

get-add_all :
    (v : Validator) (errs : FieldErrors) (name : String)
    → get (add_all v errs).errs name ≡ or_else (get v.errs name) (get errs name)
unfolding add_all
get-add_all v [] name = ground (arith, get-none name)
  where
    get-none : (other : String) → get [] other ≡ none
    get-none other = unfold get in refl
get-add_all v (e ∷ errs) name =
    get-add_all (add v e.field e.code e.arg) errs name
    ∙ rw (get-add v e.field e.code e.arg name, or_else_assoc (get v.errs name))
        (unfold get in ground arith)

-- After a merge a field has the rejection that it had, or else the first one that the merged
-- errors hold for it.
pub get-merge :
    (v : Validator) (errs : FieldErrors) (name : String)
    → get (merge v (some (rejected errs))).errs name ≡ or_else (get v.errs name) (get errs name)
unfolding merge
get-merge v errs name = get-add_all v errs name

-- No field is rejected twice.
abbrev pub IsUnique : FieldErrors → Type 0
IsUnique [] = Unit
IsUnique (e ∷ errs) = (get errs e.field ≡ none) × IsUnique errs

append-IsUnique :
    (errs : FieldErrors) (e : FieldError)
    → get errs e.field ≡ none
    → IsUnique errs
    → IsUnique (errs ++ e ∷ [])
unfolding get
append-IsUnique [] e h u = (refl, tt)
append-IsUnique (d ∷ errs) e h u = ground (
  arith,
  append-IsUnique errs e,
  get-append errs (e ∷ []) d.field,
  eq_iff d.field e.field,
  eq_iff e.field d.field,
)

-- Where no field is rejected twice, none is after another rejection was added.
pub add-IsUnique :
    (v : Validator) (name : String) (code : Code) (arg : Text)
    → IsUnique v.errs
    → IsUnique (add v name code arg).errs
unfolding add
add-IsUnique v name code arg u = elim (Option-cases (get v.errs name)) [
  | inl free ↦ rw free (append-IsUnique v.errs (error_at name code arg) free u)
  | inr (e, taken) ↦ rw taken u
]

-- A check passes exactly when it accepts the value and no earlier check rejected the field.
pub check-passes :
    (v : Validator) (accepted : Bool) (name : String) (code : Code)
    → ((check v accepted name code).1 ≡ true) ↔ ((accepted ≡ true) × (get v.errs name ≡ none))
unfolding check
check-passes v accepted name code = (
  λ h. ground (arith, get-add v name code [] name, eq_iff name name),
  λ h. ground (arith, get-add v name code [] name, eq_iff name name),
)

-- A field that a check left free is one whose value the check accepted.
pub check-free :
    (v : Validator) (accepted : Bool) (name : String) (code : Code)
    → get (check v accepted name code).0.errs name ≡ none
    → accepted ≡ true
unfolding check
check-free v true name code h = refl
check-free v false name code h =
    ground (arith, get-add v name code [] name, eq_iff name name, Option-cases (get v.errs name))

-- The validator reports no error exactly when no field has a rejection.
pub err_of-none :
    (errs : FieldErrors) → (err_of errs ≡ none) ↔ ((name : String) → get errs name ≡ none)
unfolding err_of get
err_of-none [] = (λ h name. refl, λ h. refl)
err_of-none (e ∷ errs) = (λ h. cc, λ h. absurd (ground (arith, h e.field, eq_iff e.field e.field)))
