-- ===== src/Milestones/Listed/Filter.antt =====
-- The filter of the milestone list, by what it says of a row.
use pilam.Prelude.{
  ◌≡◌, refl, ap, ◌↔◌, ◌⊎◌, inl, inr, true, List, [], ◌∷◌, ◌++◌, any, all, All, arith, Bool-cases,
  nat_eq_iff,
}
use pilam.Prelude.Text.{Text, has_prefix, contains, fields, to_lower}
use pilam.Date.Gregorian.{Time}
use pilam.Milestones.Rules.{State, done, late, due, planned, state}
use pilam.Milestones.Store.Lists.{ListRow, ListParams}
use pilam.Milestones.Listed.{same_state, holds_state, matches, is_kept}

-- A text is part of another one.
abbrev pub PartOf : Text → Text → Type 0
PartOf p s = (before after : Text) × (s ≡ before ++ (p ++ after))

abbrev pub HasState : List State → State → Type 0
HasState [] s = ⊥
HasState (t ∷ states) s = (t ≡ s) ⊎ HasState states s

-- A row that the filter keeps: its state is one of those that the filter names, if it names any, and
-- every word of the search is part of its article, in either case of the letters.
abbrev pub Keeps : ListParams → Time → ListRow → Type 0
Keeps filter today row =
    ((filter.states ≡ []) ⊎ HasState filter.states (state row.milestone today))
    × All (λ term. PartOf term (to_lower row.article)) (fields (to_lower filter.search))

Starts : Text → Text → Type 0
Starts p s = (after : Text) × (s ≡ p ++ after)

prefix-Starts : (s p : Text) → has_prefix s p ≡ true → Starts p s
unfolding has_prefix Starts
prefix-Starts s [] h = (s, refl)
prefix-Starts [] (d ∷ p) h = absurd (ground (arith, h))
prefix-Starts (c ∷ s) (d ∷ p) h =
    let rest = prefix-Starts s p (ground (arith, h)) in
    let same : c ≡ d = (nat_eq_iff c d).0 (ground (arith, h)) in
    (rest.0, ground (arith, same, rest.1))

prefix_of : (s p after : Text) → s ≡ p ++ after → has_prefix s p ≡ true
unfolding has_prefix
prefix_of s [] after h = refl
prefix_of [] (d ∷ p) after h = absurd (ground (arith, h))
prefix_of (c ∷ s) (d ∷ p) after h =
    rw ((nat_eq_iff c d).1 (ground (arith, h))) (prefix_of s p after (ground (arith, h)))

contains-PartOf : (s p : Text) → contains s p ≡ true → PartOf p s
unfolding contains Starts
contains-PartOf [] p h = let start = prefix-Starts [] p h in ([], start.0, start.1)
contains-PartOf (c ∷ s) p h = elim (Bool-cases (has_prefix (c ∷ s) p)) [
  | inl here ↦ let start = prefix-Starts (c ∷ s) p here in ([], start.0, start.1)
  | inr there ↦
      let part = contains-PartOf s p (ground (arith, h, there)) in
      (c ∷ part.0, part.1, ap (◌∷◌ c) part.2)
]

contains_of : (s p before after : Text) → s ≡ before ++ (p ++ after) → contains s p ≡ true
unfolding contains
contains_of [] p [] after h = prefix_of [] p after h
contains_of (c ∷ s) p [] after h = rw (prefix_of (c ∷ s) p after h) refl
contains_of [] p (d ∷ before) after h = absurd (ground (arith, h))
contains_of (c ∷ s) p (d ∷ before) after h =
    ground (arith, contains_of s p before after (ground (arith, h)))

reflects : (s : State) → same_state s s ≡ true
reflects done = refl
reflects late = refl
reflects due = refl
reflects planned = refl

same_state-same : (s t : State) → same_state s t ≡ true → s ≡ t
same_state-same done done h = refl
same_state-same late late h = refl
same_state-same due due h = refl
same_state-same planned planned h = refl
same_state-same s t h = ground (arith, h)

any-HasState :
    (states : List State) (s : State) → any (λ u. same_state u s) states ≡ true → HasState states s
any-HasState [] s h = absurd (ground (arith, h))
any-HasState (t ∷ states) s h = elim (Bool-cases (same_state t s)) [
  | inl here ↦ inl (same_state-same t s here)
  | inr there ↦ inr (any-HasState states s (ground (arith, h, there)))
]

any_of :
    (states : List State) (s : State) → HasState states s → any (λ u. same_state u s) states ≡ true
any_of [] s h = absurd h
any_of (t ∷ states) s (inl here) = rw (here, reflects s) refl
any_of (t ∷ states) s (inr there) = ground (arith, any_of states s there)

all-All :
    (s : Text) (terms : List Text)
    → all (contains s) terms ≡ true
    → All (λ term. PartOf term s) terms
all-All s [] h = tt
all-All s (term ∷ terms) h =
    (contains-PartOf s term (ground (arith, h)), all-All s terms (ground (arith, h)))

all_of :
    (s : Text) (terms : List Text)
    → All (λ term. PartOf term s) terms
    → all (contains s) terms ≡ true
all_of s [] h = refl
all_of s (term ∷ terms) h = rw (contains_of s term h.0.0 h.0.1 h.0.2, all_of s terms h.1) refl

holds_state-HasState :
    (states : List State) (s : State)
    → (holds_state states s ≡ true) ↔ ((states ≡ []) ⊎ HasState states s)
unfolding holds_state
holds_state-HasState [] s = (λ h. inl refl, λ h. refl)
holds_state-HasState (t ∷ states) s = (
  λ h. inr (any-HasState (t ∷ states) s h),
  λ h. elim h [
    | inl none_named ↦ absurd (ground (arith, none_named))
    | inr named ↦ any_of (t ∷ states) s named
  ],
)

-- The test of the code keeps what the filter keeps.
pub is_kept-Keeps :
    (filter : ListParams) (today : Time) (row : ListRow)
    → (is_kept filter today row ≡ true) ↔ Keeps filter today row
unfolding is_kept matches
is_kept-Keeps filter today row = (
  λ h. (
    (holds_state-HasState filter.states (state row.milestone today)).0 (ground (arith, h)),
    all-All (to_lower row.article) (fields (to_lower filter.search)) (ground (arith, h)),
  ),
  λ h.
      rw
        (
          (holds_state-HasState filter.states (state row.milestone today)).1 h.0,
          all_of (to_lower row.article) (fields (to_lower filter.search)) h.1,
        )
        refl,
)
