-- ===== src/Rearranges.antt =====
-- `rearranges` of internal/milestones/templates.go, and its copy in internal/catalog/photo.go: the test
-- that guards a reorder.
use pilam.Prelude.{
  ℕ, zero, suc, Bool, true, false, not, ◌&&◌, ◌||◌, List, [], ◌∷◌, any, length, nat_eq, ◌==◌, ℕ_eq,
  if◌then◌else◌,
}
use pilam.Ids.{Uuid}
pub mod Laws

abbrev pub holds : List Uuid → Uuid → Bool
holds ids id = any (λ i. i == id) ids

-- The loop, with the identifiers that it has seen.
unfoldable pub fresh_all : List Uuid → List Uuid → List Uuid → Bool
fresh_all was seen [] = true
fresh_all was seen (id ∷ ordered) =
    not (holds seen id || not (holds was id)) && fresh_all was (id ∷ seen) ordered

unfoldable pub rearranges : List Uuid → List Uuid → Bool
unfolding fresh_all
rearranges was ordered = nat_eq (length was) (length ordered) && fresh_all was [] ordered

-- `slices.Delete` of one element.
module _ {A : Type 0} where
  unfoldable pub remove_at : ℕ → List A → List A
  remove_at at [] = []
  remove_at zero (x ∷ xs) = xs
  remove_at (suc at) (x ∷ xs) = x ∷ remove_at at xs
