-- ===== src/Catalog/Current/Best.antt =====
-- A loop that keeps the best season, for any order of the seasons.
use pilam.Prelude.{
  ◌≡◌, refl, ◌∙◌, ap, Bool, true, false, ◌⊎◌, inl, inr, List, [], ◌∷◌, ◌==◌, ℕ_eq, All, arith,
  Bool-cases,
}
use pilam.Ids.{nil_id}
use pilam.Schema.{Season}
use pilam.Catalog.Current.{pick}

-- The pick of a loop over seasons.
abbrev pub keep_best : (Season → Season → Bool) → Season → List Season → Season
keep_best better held [] = held
keep_best better held (s ∷ seasons) = keep_best better (pick better held s) seasons

-- A season of a list.
abbrev pub IsIn : Season → List Season → Type 0
IsIn p [] = ⊥
IsIn p (s ∷ seasons) = (p ≡ s) ⊎ IsIn p seasons

-- A season of the list that no season of it is better than.
pub record IsBest (better : Season → Season → Bool) (seasons : List Season) (p : Season)
    : Type 0 where
  pub held : IsIn p seasons
  pub best : All (λ s. better s p ≡ false) seasons

module _ (D : Season → Type 0) (better : Season → Season → Bool)
    (named : (s : Season) → D s → (s.id == nil_id) ≡ false)
    (asym : (a b : Season) → D a → D b → better a b ≡ true → better b a ≡ false)
    (reflexive : (a : Season) → D a → better a a ≡ false)
    (trans : (a b c : Season)
      → D a
      → D b
      → D c
      → better a b ≡ false
      → better b c ≡ false
      → better a c ≡ false) where
  All-weaken :
      (p q : Season) (seasons : List Season)
      → D p
      → D q
      → All D seasons
      → better p q ≡ false
      → All (λ s. better s p ≡ false) seasons
      → All (λ s. better s q ≡ false) seasons
  All-weaken p q [] dp dq d h all = tt
  All-weaken p q (s ∷ seasons) dp dq d h all =
      (trans s p q d.0 dp dq all.0 h, All-weaken p q seasons dp dq d.1 h all.1)

  -- The end of a loop that holds a season already.
  record Ends (h : Season) (seasons : List Season) (p : Season) : Type 0 where
    fine : D p
    from : (p ≡ h) ⊎ IsIn p seasons
    above : better h p ≡ false
    best_of : All (λ s. better s p ≡ false) seasons

  keep_best-Ends :
      (h : Season) (seasons : List Season)
      → D h
      → All D seasons
      → Ends h seasons (keep_best better h seasons)
  keep_best-Ends h [] d all = record {
    fine = d;
    from = inl refl;
    above = reflexive h d;
    best_of = tt;
  }
  keep_best-Ends h (s ∷ seasons) d all = elim (Bool-cases (better s h)) [
    | inl wins ↦
        let taken : pick better h s ≡ s = ground arith in
        let rest = keep_best-Ends s seasons all.0 all.1 in
        rw taken (record {
          fine = rest.fine;
          from = inr rest.from;
          above = trans h s _ d all.0 rest.fine (asym s h all.0 d wins) rest.above;
          best_of = (rest.above, rest.best_of);
        })
    | inr stays ↦
        let taken : pick better h s ≡ h = rw (named h d) (rw stays refl) in
        let rest = keep_best-Ends h seasons d all.1 in
        rw taken (record {
          fine = rest.fine;
          from = elim rest.from [ inl e ↦ inl e | inr i ↦ inr (inr i) ];
          above = rest.above;
          best_of = (trans s h _ all.0 d rest.fine stays rest.above, rest.best_of);
        })
  ]

  -- A loop over some seasons that starts with none keeps the best of them.
  pub keep_best-IsBest :
      (none : Season) (s : Season) (seasons : List Season)
      → (none.id == nil_id) ≡ true
      → D s
      → All D seasons
      → IsBest better (s ∷ seasons) (keep_best better none (s ∷ seasons))
        × ((keep_best better none (s ∷ seasons)).id == nil_id) ≡ false
  keep_best-IsBest none s seasons empty d all =
      let taken : pick better none s ≡ s = rw empty refl in
      let rest = keep_best-Ends s seasons d all in
      (
        rw taken (record { held = rest.from; best = (rest.above, rest.best_of) }),
        ap (λ p. (keep_best better p seasons).id == nil_id) taken ∙ named _ rest.fine,
      )
