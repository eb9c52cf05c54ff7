-- ===== src/Screens/Pages.antt =====
-- What the sections of internal/http share: the row that a path names, and a form that comes back.
use pilam.Prelude.{
  ℕ, String, Bool, true, false, Option, none, some, List, [], ◌∷◌, ◌++◌, if◌then◌else◌,
}
use pilam.Prelude.Text.{Text}
use pilam.Errors.{Error, FieldErrors, Result, ok, err}
use pilam.Ids.{Uuid}
use pilam.World.{Env, World, Action}
use pilam.Accounts.Principals.{UuidForm, parse_id}
use pilam.Screens.{Answer, shown, server_error, not_found, rejections}
use pilam.Screens.Trails.{Event, load_trail}
pub mod Laws

-- A handler after the links of the chain.
abbrev pub Screen : Type 0
Screen = World → Answer × World

module _ {A : Type 0} where
  -- What is done with a read that may have failed.
  abbrev pub with_row : (Error → Bool) → (A → Screen) → Result A × World → Answer × World
  with_row is_missing page (ok row, w) = page row w
  with_row is_missing page (err e, w) = (if is_missing e then not_found else server_error, w)

  -- `loadOne` of a section: 404 for an identifier that cannot be read and for a row that is not
  -- there.
  unfoldable pub load_one :
      UuidForm → (Error → Bool) → (Uuid → Action A) → Text → (A → Screen) → Screen
  load_one ids is_missing load raw page w = elim (parse_id ids raw) [
    | none ↦ (not_found, w)
    | some id ↦ with_row is_missing page (load id w)
  ]

-- A page over a read that answers 500 where it fails.
abbrev pub reading : {A : Type 0} → Action A → (A → Screen) → Screen
reading read page w = with_row (λ e. false) page (read w)

-- A card with the history of its row.
abbrev pub with_trail : Env → String → Uuid → ℕ → FieldErrors → Screen
with_trail env entity id status errs =
    reading (load_trail env entity id)
      (λ events w. (record (shown status errs) { trail = events }, w))

-- A form that is refused with what `Rejections` finds comes back as `page`.
abbrev pub refused_by : Option FieldErrors → (FieldErrors → Screen) → Screen
refused_by none page w = (server_error, w)
refused_by (some errs) page w = page errs w

-- A form alone.
abbrev pub form_page : ℕ → FieldErrors → Screen
form_page status errs w = (shown status errs, w)

abbrev pub all_none : List (Option Error) → Bool
all_none [] = true
all_none (none ∷ boxes) = all_none boxes
all_none (some e ∷ boxes) = false

-- The end of a form: the browser goes on where neither a box nor the service refused it. `boxes` is
-- what the boxes were refused with.
unfoldable pub answered :
    {A : Type 0}
    → (A → Answer)
    → (Error → Error)
    → List (Option Error)
    → (FieldErrors → Screen)
    → Result A × World
    → Answer × World
answered on told boxes page (ok a, w) =
    if all_none boxes then (on a, w) else refused_by (rejections (boxes ++ none ∷ [])) page w
answered on told boxes page (err e, w) =
    refused_by (rejections (boxes ++ some (told e) ∷ [])) page w
