-- ===== src/Screens/Models/Choices.antt =====
-- Which templates the form of a new model offers.
use pilam.Prelude.{
  ◌≡◌, refl, sym, ap, ◌∙◌, Bool, true, ◌||◌, ◌&&◌, not, List, [], ◌∷◌, ◌++◌, ◌==◌, ℕ_eq, List_eq,
  any, arith, if◌then◌else◌, ltb,
}
use pilam.Prelude.Sort.{tally, tally-sort_by, sort_by}
use pilam.Ids.{Uuid, nil_id}
use pilam.Schema.{Template, Tables}
use pilam.Accounts.Principals.{UuidForm}
use pilam.Screens.Models.{SelectOption, option_of, add_choices}

any-tally : {A : Type 0} (p : A → Bool) (xs : List A) → any p xs ≡ ltb 0 (tally p xs)
any-tally p [] = refl
any-tally p (x ∷ xs) = ground (arith, any-tally p xs)

pub any-sort_by :
    {A : Type 0} (before : A → A → Bool) (p : A → Bool) (xs : List A)
    → any p (sort_by before xs) ≡ any p xs
any-sort_by before p xs =
    any-tally p (sort_by before xs) ∙ ap (ltb 0) (tally-sort_by before p xs) ∙ sym (any-tally p xs)

module _ (ids : UuidForm) (id : Uuid) where
  abbrev pub is_offered : Template → Bool
  is_offered t = t.active && ids.text t.id == ids.text id

  abbrev is_choice : SelectOption → Bool
  is_choice c = c.value == ids.text id

  any-append :
      (xs ys : List SelectOption) → any is_choice (xs ++ ys) ≡ any is_choice xs || any is_choice ys
  any-append [] ys = refl
  any-append (x ∷ xs) ys = ground (arith, any-append xs ys)

  pub any-add_choices :
      (held : List SelectOption) (templates : List Template)
      → any is_choice (add_choices ids held templates)
        ≡ any is_choice held || any is_offered templates
  unfolding add_choices
  any-add_choices held [] = ground arith
  any-add_choices held (t ∷ templates) = ground (
    arith,
    any-append held (option_of ids t ∷ []),
    any-add_choices
        (if not t.active
          then held
          else if t.default
          then option_of ids t ∷ held
          else held ++ option_of ids t ∷ [])
        templates,
  )

-- The template of a form: none, or one that the tables hold active.
abbrev pub IsOffered : UuidForm → Uuid → Tables → Type 0
IsOffered ids id t =
    (id == nil_id || any (λ (r : Template). r.active && ids.text r.id == ids.text id) t.templates)
    ≡ true
