-- ===== src/Catalog/Current/Orders.antt =====
-- The order of the seasons of the store, by their start dates and then by their names.
use pilam.Prelude.{◌≡◌, ◌∙◌, sym, ap, true, false, ◌==◌, ℕ_eq, ℤ, arith}
use pilam.Prelude.Text.{Order, compare_text}
use pilam.Prelude.Orders.{
  is_more, is_less, then_by, compare_int, IsOrder, text-IsOrder, int-IsOrder, then_by-IsOrder,
  key-IsOrder,
}
use pilam.Date.{day, equal}
use pilam.Ids.{nil_id}
use pilam.Schema.{Season}
use pilam.Catalog.Current.{start_order, later, earlier}

-- A season of the store: it has an identifier, and starts at the midnight of a day.
abbrev pub IsStored : Season → Type 0
IsStored s = ((s.id == nil_id) ≡ false) × ((day s.start_date).instant ≡ s.start_date.instant)

abbrev starts : Season → ℤ
starts s = s.start_date.instant

-- The order of two seasons of the store, by their instants and then by their names.
abbrev lex : Season → Season → Order
lex a b = then_by (compare_int (starts a) (starts b)) (compare_text a.name b.name)

lex-IsOrder : IsOrder lex
lex-IsOrder =
    then_by-IsOrder _ _ (key-IsOrder starts compare_int int-IsOrder)
      (key-IsOrder (λ (s : Season). s.name) compare_text text-IsOrder)

start_order-lex : (a b : Season) → IsStored a → IsStored b → start_order a b ≡ lex a b
unfolding start_order equal
start_order-lex a b da db = rw (da.1, db.1) (ground arith)

later-lex : (a b : Season) → IsStored a → IsStored b → later a b ≡ is_more (lex a b)
later-lex a b da db = ap is_more (start_order-lex a b da db)

pub later_asym : (a b : Season) → IsStored a → IsStored b → later a b ≡ true → later b a ≡ false
later_asym a b da db h =
    later-lex b a db da ∙ ground (arith, sym (later-lex a b da db) ∙ h, lex-IsOrder.flips a b)

pub later_refl : (a : Season) → IsStored a → later a a ≡ false
later_refl a da = later-lex a a da da ∙ ground (arith, lex-IsOrder.flips a a)

pub later_trans :
    (a b c : Season)
    → IsStored a
    → IsStored b
    → IsStored c
    → later a b ≡ false
    → later b c ≡ false
    → later a c ≡ false
later_trans a b c da db dc h k =
    later-lex a c da dc
    ∙ lex-IsOrder.steps a b c (sym (later-lex a b da db) ∙ h) (sym (later-lex b c db dc) ∙ k)

-- Earlier is later the other way round.
pub earlier-later : (a b : Season) → IsStored a → IsStored b → earlier a b ≡ later b a
earlier-later a b da db =
    ap is_less (start_order-lex a b da db)
    ∙ (ground (arith, lex-IsOrder.flips a b) ∙ sym (later-lex b a db da))

pub earlier_asym :
    (a b : Season) → IsStored a → IsStored b → earlier a b ≡ true → earlier b a ≡ false
earlier_asym a b da db h =
    earlier-later b a db da ∙ later_asym b a db da (sym (earlier-later a b da db) ∙ h)

pub earlier_trans :
    (a b c : Season)
    → IsStored a
    → IsStored b
    → IsStored c
    → earlier a b ≡ false
    → earlier b c ≡ false
    → earlier a c ≡ false
earlier_trans a b c da db dc h k =
    earlier-later a c da dc
    ∙ later_trans c b a dc db da (sym (earlier-later b c db dc) ∙ k)
        (sym (earlier-later a b da db) ∙ h)
