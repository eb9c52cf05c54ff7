-- ===== src/Catalog/Current/Laws.antt =====
-- The season that `CurrentSeason` answers.
use pilam.Prelude.{
  ◌≡◌, refl, ◌∙◌, ap, Bool, false, not, ◌&&◌, ◌⊎◌, inl, inr, List, [], ◌∷◌, ◌==◌, ℕ_eq, All,
  keep_if, arith, Bool-cases,
}
use pilam.Date.{after}
use pilam.Date.Gregorian.{Time}
use pilam.Ids.{nil_id}
use pilam.Schema.{Season}
use pilam.Catalog.Current.{
  later, earlier, no_season_yet, Picks, take_season, pick_all, no_picks, choose, current_season,
}
use pilam.Catalog.Current.Orders.{
  IsStored, later_asym, later_refl, later_trans, earlier_asym, earlier-later, earlier_trans,
}
use pilam.Catalog.Current.Best.{keep_best, IsBest, keep_best-IsBest}

-- The two seasons of a loop, apart.
abbrev has_started : Time → Season → Bool
has_started today s = s.active && not (after s.start_date today)

abbrev is_coming : Time → Season → Bool
is_coming today s = s.active && after s.start_date today

pick_all-newest :
    (today : Time) (picks : Picks) (seasons : List Season)
    → (pick_all today picks seasons).newest ≡ keep_best later picks.newest seasons
unfolding pick_all take_season
pick_all-newest today picks [] = refl
pick_all-newest today picks (s ∷ seasons) =
    pick_all-newest today (take_season today picks s) seasons
    ∙ ap (λ p. keep_best later p seasons)
        elim (Bool-cases s.active) [
          | inr off ↦ rw off refl
          | inl on ↦ elim (Bool-cases (after s.start_date today)) [
            | inl ahead ↦ rw on (rw ahead refl)
            | inr begun ↦ rw on (rw begun refl)
          ]
        ]

pick_all-started :
    (today : Time) (picks : Picks) (seasons : List Season)
    → (pick_all today picks seasons).started
      ≡ keep_best later picks.started (keep_if (has_started today) seasons)
unfolding pick_all take_season
pick_all-started today picks [] = refl
pick_all-started today picks (s ∷ seasons) =
    pick_all-started today (take_season today picks s) seasons ∙ elim (Bool-cases s.active) [
      | inr off ↦ rw off refl
      | inl on ↦ elim (Bool-cases (after s.start_date today)) [
        | inl ahead ↦ rw on (rw ahead refl)
        | inr begun ↦ rw on (rw begun refl)
      ]
    ]

pick_all-coming :
    (today : Time) (picks : Picks) (seasons : List Season)
    → (pick_all today picks seasons).coming
      ≡ keep_best earlier picks.coming (keep_if (is_coming today) seasons)
unfolding pick_all take_season
pick_all-coming today picks [] = refl
pick_all-coming today picks (s ∷ seasons) =
    pick_all-coming today (take_season today picks s) seasons ∙ elim (Bool-cases s.active) [
      | inr off ↦ rw off refl
      | inl on ↦ elim (Bool-cases (after s.start_date today)) [
        | inl ahead ↦ rw on (rw ahead refl)
        | inr begun ↦ rw on (rw begun refl)
      ]
    ]

-- The season that is opened, by what the seasons of the list are on a day: the active season that
-- started last; or, where none has, the active season that comes first; or, where none is active,
-- the season of the list that starts last.
pub data Opens (seasons : List Season) (today : Time) : Season → Type 0 where
  by_started :
      (p : Season) → IsBest later (keep_if (has_started today) seasons) p → Opens seasons today p
  by_coming :
      (p : Season)
      → keep_if (has_started today) seasons ≡ []
      → IsBest earlier (keep_if (is_coming today) seasons) p
      → Opens seasons today p
  by_newest :
      (p : Season)
      → keep_if (has_started today) seasons ≡ []
      → keep_if (is_coming today) seasons ≡ []
      → IsBest later seasons p
      → Opens seasons today p
  by_none : seasons ≡ [] → Opens seasons today no_season_yet

-- The pick of a loop: the zero season of no season at all, or the best of some.
Picked : (better : Season → Season → Bool) (seasons : List Season) → Type 0
Picked better seasons =
    ((seasons ≡ []) × (keep_best better no_season_yet seasons ≡ no_season_yet))
    ⊎ (IsBest better seasons (keep_best better no_season_yet seasons)
        × ((keep_best better no_season_yet seasons).id == nil_id) ≡ false)

later-Picked : (seasons : List Season) → All IsStored seasons → Picked later seasons
unfolding Picked
later-Picked [] h = inl (refl, refl)
later-Picked (s ∷ seasons) h = inr (
    keep_best-IsBest IsStored later (λ s d. d.0) later_asym later_refl later_trans no_season_yet s
      seasons refl h.0 h.1)

earlier-Picked : (seasons : List Season) → All IsStored seasons → Picked earlier seasons
unfolding Picked
earlier-Picked [] h = inl (refl, refl)
earlier-Picked (s ∷ seasons) h = inr (
    keep_best-IsBest IsStored earlier (λ s d. d.0) earlier_asym
      (λ a d. earlier-later a a d d ∙ later_refl a d) earlier_trans no_season_yet s seasons refl h.0
      h.1)

kept-All :
    (p : Season → Bool) (seasons : List Season)
    → All IsStored seasons
    → All IsStored (keep_if p seasons)
kept-All p [] h = tt
kept-All p (s ∷ seasons) h = ground (arith, kept-All p seasons h.1, h.0)

-- The season that a screen opens on, of a list of stored seasons, is the active one that started
-- last, else the active one that comes first, else the one that starts last, and no season only
-- where there is none.
pub current_season-Opens :
    (seasons : List Season) (today : Time)
    → All IsStored seasons
    → Opens seasons today (current_season seasons today)
unfolding current_season choose Picked
current_season-Opens seasons today h =
    rw
      (
        pick_all-started today no_picks seasons,
        pick_all-coming today no_picks seasons,
        pick_all-newest today no_picks seasons,
      )
      (elim (later-Picked _ (kept-All (has_started today) seasons h)) [
        | inr (best, named) ↦ rw named (by_started _ best)
        | inl (none, zero) ↦
            rw zero (elim (earlier-Picked _ (kept-All (is_coming today) seasons h)) [
              | inr (best, named) ↦ rw named (by_coming _ none best)
              | inl (none_comes, zero) ↦ rw zero (elim (later-Picked seasons h) [
                | inr (best, named) ↦ by_newest _ none none_comes best
                | inl (empty, zero) ↦ rw zero (by_none empty)
              ])
            ])
      ])
