-- ===== src/Screens/Templates/Laws.antt =====
-- A row of the template screen that is saved as it was rendered.
use pilam.Prelude.{
  zero, suc, ◌<◌, sym, ap, true, ltb, none, ℕ, ◌≡◌, refl, ◌∙◌, Bool, false, ◌&&◌, some, List, ◌!=◌,
  ℤ, ℤ-Eq, get_elem?, arith,
}
use pilam.Errors.{ok}
use pilam.Ids.{Uuid}
use pilam.Schema.{TemplateItem}
use pilam.World.{Env, World}
use pilam.World.Laws.{>>=-then_from}
use pilam.Milestones.Rules.{gaps}
use pilam.Milestones.Items.{find_from}
use pilam.Milestones.Store.Items as ItemRows
use pilam.Screens.Templates.{SubmittedMove, moves_gap, move_of, move_row}

differs_refl : (a : ℤ) → (a != a) ≡ false
differs_refl a = ground (arith, ℤ-Eq.equal_iff a a)

-- A box that holds a number holds the one that the screen showed. The first item shows no gap to edit.
abbrev pub ShowsOffset : SubmittedMove → TemplateItem → Type 0
ShowsOffset p item = p.has_offset ≡ true → p.offset ≡ item.offset

abbrev pub ShowsGap : SubmittedMove → List TemplateItem → ℕ → Type 0
ShowsGap p items at = p.has_gap ≡ true → 0 < at → get_elem? (gaps items) at ≡ some p.gap

offset-rendered :
    (p : SubmittedMove) (item : TemplateItem)
    → ShowsOffset p item
    → (p.has_offset && (p.offset != item.offset)) ≡ false
offset-rendered p item h = by_box p.has_offset h
  where
    by_box :
        (b : Bool) → (b ≡ true → p.offset ≡ item.offset) → (b && (p.offset != item.offset)) ≡ false
    by_box false k = refl
    by_box true k = ap (λ o. p.offset != o) (sym (k refl)) ∙ differs_refl p.offset

and_last : (b c : Bool) → c ≡ false → (true && b && c) ≡ false
and_last b c h = ground arith

moves_gap-rendered :
    (p : SubmittedMove) (items : List TemplateItem) (at : ℕ)
    → ShowsGap p items at
    → moves_gap p items at ≡ false
moves_gap-rendered p items zero h = ground arith
moves_gap-rendered p items (suc n) h = by_box p.has_gap h
  where
    differs : Bool
    differs = elim (get_elem? (gaps items) (suc n)) [ none ↦ true | some g ↦ p.gap != g ]

    by_box :
        (b : Bool)
        → (b ≡ true → 0 < suc n → get_elem? (gaps items) (suc n) ≡ some p.gap)
        → (b && ltb 0 (suc n) && differs) ≡ false
    by_box false k = refl
    by_box true k = and_last (ltb 0 (suc n)) differs (
        ap (λ o. elim o [ none ↦ true | some g ↦ p.gap != g ]) (k refl (omega arith))
        ∙ differs_refl p.gap)

move_of-rendered :
    (env : Env) (template_id item_id : Uuid) (p : SubmittedMove) (at : ℕ) (item : TemplateItem)
    (items : List TemplateItem) (w : World)
    → find_from 0 item_id items ≡ some (at, item)
    → ShowsOffset p item
    → ShowsGap p items at
    → move_of env template_id item_id p items w ≡ (ok tt, w)
unfolding move_of
move_of-rendered env template_id item_id p at item items w found shows_offset shows_gap =
    rw
      (move_of, found, offset-rendered p item shows_offset, moves_gap-rendered p items at shows_gap)
      refl

-- A row of the template screen changes nothing and succeeds when each of its two boxes is empty or
-- holds the number that the screen showed in it: the offset of the item, and the gap before it.
-- What the box of the gap holds is not asked of the first item.
pub move_row-rendered :
    (env : Env) (template_id item_id : Uuid) (p : SubmittedMove) (at : ℕ) (item : TemplateItem)
    (items : List TemplateItem) (w : World)
    → ItemRows.list template_id w ≡ (ok items, w)
    → find_from 0 item_id items ≡ some (at, item)
    → ShowsOffset p item
    → ShowsGap p items at
    → move_row env template_id item_id p w ≡ (ok tt, w)
unfolding move_row
move_row-rendered env template_id item_id p at item items w read found shows_offset shows_gap =
    >>=-then_from (ItemRows.list template_id) (move_of env template_id item_id p) w
    ∙ rw read
        (move_of-rendered env template_id item_id p at item items w found shows_offset shows_gap)
