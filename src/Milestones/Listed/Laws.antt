-- ===== src/Milestones/Listed/Laws.antt =====
-- The order and the content of the milestone list.
use pilam.Prelude.{
  ◌≡◌, refl, ◌∙◌, sym, ap, Bool, true, false, not, ◌&&◌, List, [], ◌∷◌, if◌then◌else◌, eq_ℤ, ltb_ℤ,
  pos, ℤ, ◌-ℤ◌, All, arith, ◌<ℤ◌, ℤ-Eq, Bool-cases, ◌⊎◌, inl, inr, ◌↔◌,
}
use pilam.Prelude.Text.{Order, less, more, compare_text}
use pilam.Prelude.Int.{ -ℤ_parts}
use pilam.Prelude.Sort.{tally, tally-sort_by, sort_by-All, sort_by-IsSorted, IsSorted}
use pilam.Prelude.Orders.{
  is_more, then_by, compare_nat, compare_int, IsOrder, text-IsOrder, nat-IsOrder, int-IsOrder,
  then_by-IsOrder, key-IsOrder, opposite-IsOrder,
}
use pilam.Date.{day, equal}
use pilam.Date.Gregorian.{Time}
use pilam.Milestones.Rules.{slip}
use pilam.Milestones.Store.Lists.{ListRow, ListParams}
use pilam.Milestones.Listed.{
  worst_slip_first, stands_before, with_state, is_kept, kept_rows, listed,
}
use pilam.Milestones.Listed.Filter.{Keeps, is_kept-Keeps}

-- A row of the store: its plan date is the midnight of a day.
abbrev pub IsPlanned : ListRow → Type 0
IsPlanned r = (day r.milestone.plan).instant ≡ r.milestone.plan.instant

abbrev plan_of : ListRow → ℤ
plan_of r = r.milestone.plan.instant

abbrev slip_of : ListRow → ℤ
slip_of r = slip r.milestone

abbrev order : ListRow → ListRow → Order
order a b = then_by (compare_int (slip_of b) (slip_of a)) (
    then_by (compare_int (plan_of a) (plan_of b))
      (then_by (compare_text a.article b.article) (compare_nat a.milestone.id b.milestone.id)))

order-IsOrder : IsOrder order
order-IsOrder =
    then_by-IsOrder _ _ (opposite-IsOrder _ (key-IsOrder slip_of compare_int int-IsOrder)) (
      then_by-IsOrder _ _ (key-IsOrder plan_of compare_int int-IsOrder) (
        then_by-IsOrder _ _ (key-IsOrder (λ (r : ListRow). r.article) compare_text text-IsOrder)
          (key-IsOrder (λ (r : ListRow). r.milestone.id) compare_nat nat-IsOrder)))

-- The sign of a difference.
apart-order :
    (i j : ℤ) (o : Order)
    → (if not (eq_ℤ (j -ℤ i) (pos 0)) then (if ltb_ℤ (j -ℤ i) (pos 0) then less else more) else o)
      ≡ then_by (compare_int j i) o
apart-order i j o = ground (arith, -ℤ_parts j i)

plan-order :
    (i j : ℤ) (o : Order)
    → (if not (eq_ℤ i j) then compare_int i j else o) ≡ then_by (compare_int i j) o
plan-order i j o = ground arith

worst_slip_first-order :
    (a b : ListRow) → IsPlanned a → IsPlanned b → worst_slip_first a b ≡ order a b
unfolding worst_slip_first equal
worst_slip_first-order a b da db =
    rw (da, db)
      (apart-order (slip_of a) (slip_of b) _
        ∙ ap (then_by _) (plan-order (plan_of a) (plan_of b) _))

stands_before_total :
    (a b : ListRow)
    → IsPlanned a
    → IsPlanned b
    → stands_before a b ≡ false
    → stands_before b a ≡ true
stands_before_total a b da db h =
    ap (λ o. not (is_more o)) (worst_slip_first-order b a db da)
    ∙ ground (
      arith,
      sym (ap (λ o. not (is_more o)) (worst_slip_first-order a b da db)) ∙ h,
      order-IsOrder.flips a b,
    )

not-true : {b : Bool} → not b ≡ true → b ≡ false
not-true {b} h = ground arith

stands_before_trans :
    (a b c : ListRow)
    → IsPlanned a
    → IsPlanned b
    → IsPlanned c
    → stands_before a b ≡ true
    → stands_before b c ≡ true
    → stands_before a c ≡ true
stands_before_trans a b c da db dc h k =
    ap (λ o. not (is_more o)) (worst_slip_first-order a c da dc)
    ∙ ap not (
        order-IsOrder.steps a b c
          (not-true (sym (ap (λ o. not (is_more o)) (worst_slip_first-order a b da db)) ∙ h))
          (not-true (sym (ap (λ o. not (is_more o)) (worst_slip_first-order b c db dc)) ∙ k)))

kept_rows-All :
    (filter : ListParams) (today : Time) (held : List ListRow)
    → All IsPlanned held
    → All IsPlanned (kept_rows filter today held)
unfolding kept_rows
kept_rows-All filter today [] d = tt
kept_rows-All filter today (r ∷ held) d = ground (arith, kept_rows-All filter today held d.1, d.0)

kept_rows-tally :
    (filter : ListParams) (today : Time) (p : ListRow → Bool) (held : List ListRow)
    → tally p (kept_rows filter today held)
      ≡ tally (λ r. is_kept filter today r && p (with_state today r)) held
unfolding kept_rows
kept_rows-tally filter today p [] = refl
kept_rows-tally filter today p (r ∷ held) = ground (arith, kept_rows-tally filter today p held)

-- A row may stand before another one: its slip is greater, or the slips are equal and its plan date
-- is earlier, or both are equal and its article is not above the other, nor, where the articles are
-- equal, its identifier.
abbrev pub Before : ListRow → ListRow → Type 0
Before a b =
    (slip_of b <ℤ slip_of a)
    ⊎ ((slip_of a ≡ slip_of b)
        × ((plan_of a <ℤ plan_of b)
            ⊎ ((plan_of a ≡ plan_of b)
                × (is_more (
                      then_by (compare_text a.article b.article)
                        (compare_nat a.milestone.id b.milestone.id))
                    ≡ false))))

-- Every row may stand before each row that follows it.
abbrev pub IsWorstFirst : List ListRow → Type 0
IsWorstFirst [] = Unit
IsWorstFirst (r ∷ rows) = All (Before r) rows × IsWorstFirst rows

compare_int-cases :
    (i j : ℤ) (o : Order)
    → is_more (then_by (compare_int i j) o) ≡ false
    → (i <ℤ j) ⊎ ((i ≡ j) × (is_more o ≡ false))
compare_int-cases i j o h = elim (Bool-cases (ltb_ℤ i j)) [
  | inl earlier ↦ inl (ground (arith, earlier))
  | inr not_earlier ↦
      inr ((ℤ-Eq.equal_iff i j).0 (ground (arith, h, not_earlier)), ground (arith, h, not_earlier))
]

stands_before-Before :
    (a b : ListRow) → IsPlanned a → IsPlanned b → stands_before a b ≡ true → Before a b
stands_before-Before a b da db h =
    let above = not-true (sym (ap (λ o. not (is_more o)) (worst_slip_first-order a b da db)) ∙ h) in
    elim (compare_int-cases (slip_of b) (slip_of a) _ above) [
      | inl worse ↦ inl worse
      | inr (alike, below) ↦ inr (sym alike, compare_int-cases (plan_of a) (plan_of b) _ below)
    ]

All-Before :
    (r : ListRow) (rows : List ListRow)
    → IsPlanned r
    → All IsPlanned rows
    → All (λ b. stands_before r b ≡ true) rows
    → All (Before r) rows
All-Before r [] d ds h = tt
All-Before r (b ∷ rows) d ds h = (stands_before-Before r b d ds.0 h.0, All-Before r rows d ds.1 h.1)

IsSorted-IsWorstFirst :
    (rows : List ListRow) → All IsPlanned rows → IsSorted stands_before rows → IsWorstFirst rows
IsSorted-IsWorstFirst [] ds h = tt
IsSorted-IsWorstFirst (r ∷ rows) ds h =
    (All-Before r rows ds.0 ds.1 h.0, IsSorted-IsWorstFirst rows ds.1 h.1)

-- Of rows of the store, the list holds as often as they were there those whose state of today is
-- one that the filter names, or whatever it is where the filter names none, and whose article has
-- every word of the search as a part of it, whatever the case of the letters; each has its state of
-- today. A row stands before another one when its slip is greater, or at the same slip its plan
-- date is earlier, or at the same date its article and then its identifier are not above the other.
pub listed_lem :
    (held : List ListRow) (filter : ListParams) (today : Time)
    → All IsPlanned held
    → IsWorstFirst (listed held filter today)
      × ((keep : ListRow → Bool) × ((r : ListRow) → (keep r ≡ true) ↔ Keeps filter today r)
          × ((p : ListRow → Bool)
              → tally p (listed held filter today)
                ≡ tally (λ r. keep r && p (with_state today r)) held))
unfolding listed
listed_lem held filter today d =
    let kept = kept_rows-All filter today held d in
    (
      IsSorted-IsWorstFirst _ (sort_by-All stands_before IsPlanned _ kept)
          (sort_by-IsSorted stands_before IsPlanned stands_before_total stands_before_trans _ kept),
      (
        is_kept filter today,
        is_kept-Keeps filter today,
        λ p. tally-sort_by stands_before p _ ∙ kept_rows-tally filter today p held,
      ),
    )
