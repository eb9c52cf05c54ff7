-- ===== src/Milestones/Calendar/Written.antt =====
-- What the rows of the calendar are after the moves of plan dates are written.
use pilam.Prelude.{
  ℤ, pos, ltb_ℤ, ℤ-Eq, ◌≡◌, refl, sym, ap, ◌∙◌, Bool, true, false, Option, none, some, List, [],
  ◌∷◌, ◌==◌, ℕ_eq, take, if◌then◌else◌, map, keep_if, find_first, All, arith, inl, inr, Bool-cases,
}
use pilam.Prelude.Sort.{sort_by, sort_by-All}
use pilam.Errors.{ok}
use pilam.Date.{day, days}
use pilam.Date.Gregorian.{Time}
use pilam.Ids.{Uuid}
use pilam.Schema.{Milestone, Tables}
use pilam.World.{World}
use pilam.World.Success.{bind-Answers}
use pilam.Milestones.Rules.{Move, move, cascade, carries, carried}
use pilam.Milestones.Calendar.{write_moves, moved_row}
use pilam.Milestones.Store.Calendar as Rows

-- The primary key of the calendar: every row is the one that its identifier finds.
abbrev pub FindsItself : List Milestone → Milestone → Type 0
FindsItself rows r = find_first (λ (s : Milestone). s.id == r.id) rows ≡ some r

abbrev pub HasKeys : List Milestone → Type 0
HasKeys rows = All (FindsItself rows) rows

-- The plan date of the last move that names a row, and the row with it.
abbrev pub last_plan : List Move → Uuid → Option Time
last_plan [] id = none
last_plan (m ∷ moves) id = elim (last_plan moves id) [
  | some plan ↦ some plan
  | none ↦ if m.milestone.id == id then some m.plan else none
]

abbrev pub planned : List Move → Milestone → Milestone
planned moves r = elim (last_plan moves r.id) [ none ↦ r | some plan ↦ record r { plan = plan } ]

-- The row after one move and then the others.
abbrev pub written : List Move → Milestone → Milestone
written [] r = r
written (m ∷ moves) r = written moves (Rows.edited (moved_row m) r)

self : (i : Uuid) → (i == i) ≡ true
self i = (ℕ_eq.equal_iff i i).1 refl

flipped : (i j : Uuid) → (i == j) ≡ false → (j == i) ≡ false
flipped i j h = ground (arith, h)

map-map :
    {A B C : Type 0} (f : B → C) (g : A → B) (xs : List A)
    → map f (map g xs) ≡ map (λ x. f (g x)) xs
map-map f g [] = refl
map-map f g (x ∷ xs) = ap (λ l. f (g x) ∷ l) (map-map f g xs)

map_same : {A : Type 0} (xs : List A) → xs ≡ map (λ x. x) xs
map_same [] = refl
map_same (x ∷ xs) = ap (λ l. x ∷ l) (map_same xs)

with_rows : Tables → List Milestone → Tables
with_rows t rows = record t { milestones = rows }

update-ok :
    (row : Milestone) (w w' : World)
    → Rows.update row w ≡ (ok tt, w')
    → w'.tables ≡ with_rows w.tables (map (Rows.edited row) w.tables.milestones)
unfolding Rows.update with_rows
update-ok row w w' h = ground arith

-- The writes edit each row in turn, and leave every other table as it was.
pub write_moves-ok :
    (moves : List Move) (w w' : World)
    → write_moves moves w ≡ (ok tt, w')
    → w'.tables ≡ record w.tables { milestones = map (written moves) w.tables.milestones }
unfolding write_moves with_rows
write_moves-ok [] w w' h =
    ap (λ r. r.1.tables) (sym h)
    ∙ ap (λ l. record w.tables { milestones = l }) (map_same w.tables.milestones)
write_moves-ok (m ∷ moves) w w' h =
    let first = bind-Answers (Rows.update (moved_row m)) (λ _. write_moves moves) w w' tt h in
    write_moves-ok moves first.0.after w' first.1
    ∙ (ap (λ (t : Tables). record t { milestones = map (written moves) t.milestones })
          (update-ok (moved_row m) w first.0.after first.0.same)
        ∙ ap (λ l. record w.tables { milestones = l })
            (map-map (written moves) (Rows.edited (moved_row m)) w.tables.milestones))

-- A move of a row of the table with the identifier of `r` is a move of `r`.
abbrev IsSameRow : Milestone → Move → Type 0
IsSameRow r m = m.milestone.id ≡ r.id → m.milestone ≡ r

-- The last plan date stands, whatever plan date the row had before.
abbrev with_last : Option Time → Milestone → Milestone
with_last none r = r
with_last (some plan) r = record r { plan = plan }

or_last : Option Time → Option Time → Option Time
or_last (some plan) o = some plan
or_last none o = o

or_last-if :
    (l o : Option Time) (b : Bool) (plan : Time)
    → or_last l (if b then some plan else o)
      ≡ or_last (elim l [ some p ↦ some p | none ↦ if b then some plan else none ]) o
unfolding or_last
or_last-if (some p) o b plan = refl
or_last-if none o true plan = refl
or_last-if none o false plan = refl

edited-itself :
    (r : Milestone) (o : Option Time) (plan : Time)
    → Rows.edited (record r { plan = plan }) (with_last o r) ≡ record r { plan = plan }
edited-itself r none plan = rw (self r.id) refl
edited-itself r (some p) plan = rw (self r.id) refl

edited-other :
    (r row : Milestone) (o : Option Time)
    → (r.id == row.id) ≡ false
    → Rows.edited row (with_last o r) ≡ with_last o r
edited-other r row none apart = rw apart refl
edited-other r row (some p) apart = rw apart refl

edited-with_last :
    (m : Move) (r : Milestone) (o : Option Time)
    → IsSameRow r m
    → Rows.edited (moved_row m) (with_last o r)
      ≡ with_last (if m.milestone.id == r.id then some m.plan else o) r
edited-with_last m r o names = elim (Bool-cases (m.milestone.id == r.id)) [
  | inl same ↦
      let e : m.milestone ≡ r = names ((ℕ_eq.equal_iff m.milestone.id r.id).0 same) in
      ap (λ (x : Milestone). Rows.edited (record x { plan = m.plan }) (with_last o r)) e
      ∙ (edited-itself r o m.plan ∙ ap (λ b. with_last (if b then some m.plan else o) r) (sym same))
  | inr apart ↦
      edited-other r (moved_row m) o (flipped m.milestone.id r.id apart)
      ∙ ap (λ b. with_last (if b then some m.plan else o) r) (sym apart)
]

written-with_last :
    (moves : List Move) (r : Milestone) (o : Option Time)
    → All (IsSameRow r) moves
    → written moves (with_last o r) ≡ with_last (or_last (last_plan moves r.id) o) r
unfolding or_last
written-with_last [] r o names = refl
written-with_last (m ∷ moves) r o names =
    ap (written moves) (edited-with_last m r o names.0)
    ∙ (written-with_last moves r (if m.milestone.id == r.id then some m.plan else o) names.1
        ∙ ap (λ l. with_last l r)
            (or_last-if (last_plan moves r.id) o (m.milestone.id == r.id) m.plan))

written-planned :
    (moves : List Move) (r : Milestone)
    → All (IsSameRow r) moves
    → written moves r ≡ planned moves r
unfolding or_last
written-planned moves r names =
    written-with_last moves r none names ∙ by_last (last_plan moves r.id)
  where
    by_last :
        (l : Option Time)
        → with_last (or_last l none) r
          ≡ (elim l [ none ↦ r | some plan ↦ record r { plan = plan } ])
    by_last none = refl
    by_last (some plan) = refl

-- Two rows that find themselves and have one identifier are one row.
found_same :
    (rows : List Milestone) (r s : Milestone)
    → FindsItself rows r
    → FindsItself rows s
    → s.id ≡ r.id
    → s ≡ r
found_same rows r s h k same =
    inj s r (sym k ∙ (ap (λ i. find_first (λ (x : Milestone). x.id == i) rows) same ∙ h))
  where
    inj : (x y : Milestone) → some x ≡ some y → x ≡ y
    inj x y e = ap (λ o. elim o [ some z ↦ z | none ↦ x ]) e

-- A move of a row that finds itself.
abbrev pub OfRow : List Milestone → Move → Type 0
OfRow rows m = FindsItself rows m.milestone

OfRow-IsSameRow :
    (rows : List Milestone) (r : Milestone) (moves : List Move)
    → FindsItself rows r
    → All (OfRow rows) moves
    → All (IsSameRow r) moves
OfRow-IsSameRow rows r [] h all = tt
OfRow-IsSameRow rows r (m ∷ moves) h all =
    (found_same rows r m.milestone h all.0, OfRow-IsSameRow rows r moves h all.1)

-- In a table with keys each row is left with the plan date of the last move that names it.
pub written-rows :
    (rows : List Milestone) (moves : List Move)
    → HasKeys rows
    → All (OfRow rows) moves
    → map (written moves) rows ≡ map (planned moves) rows
written-rows rows moves keys of_rows = each rows keys
  where
    each :
        (xs : List Milestone)
        → All (FindsItself rows) xs
        → map (written moves) xs ≡ map (planned moves) xs
    each [] h = refl
    each (x ∷ xs) h =
        ap (λ y. y ∷ map (written moves) xs)
          (written-planned moves x (OfRow-IsSameRow rows x moves h.0 of_rows))
        ∙ ap (λ l. planned moves x ∷ l) (each xs h.1)

-- The moves of a cascade are of the moved row and of the rows that it is given.
keep_if-All :
    {A : Type 0} (P : A → Type 0) (p : A → Bool) (xs : List A) → All P xs → All P (keep_if p xs)
keep_if-All P p [] h = tt
keep_if-All P p (x ∷ xs) h = elim (Bool-cases (p x)) [
  | inl keeps ↦ rw keeps (h.0, keep_if-All P p xs h.1)
  | inr drops ↦ rw drops (keep_if-All P p xs h.1)
]

carried-OfRow :
    (rows : List Milestone) (moved : Milestone) (shift : ℤ) (held : List Milestone)
    → All (FindsItself rows) held
    → All (OfRow rows) (carried moved shift held)
unfolding carried
carried-OfRow rows moved shift [] h = tt
carried-OfRow rows moved shift (one ∷ held) h = elim (Bool-cases (carries moved one)) [
  | inl moves ↦ rw moves (h.0, carried-OfRow rows moved shift held h.1)
  | inr stays ↦ rw stays (carried-OfRow rows moved shift held h.1)
]

pub cascade-OfRow :
    (rows held : List Milestone) (moved : Milestone) (plan : Time)
    → FindsItself rows moved
    → All (FindsItself rows) held
    → All (OfRow rows) (cascade held moved plan)
unfolding cascade
cascade-OfRow rows held moved plan found h = by_shift (days moved.plan (day plan))
  where
    if_All :
        (a b : Bool) (m : Move) (ms : List Move)
        → OfRow rows m
        → All (OfRow rows) ms
        → All (OfRow rows) (if a then [] else if b then m ∷ [] else m ∷ ms)
    if_All true b m ms k l = tt
    if_All false true m ms k l = (k, tt)
    if_All false false m ms k l = (k, l)

    by_shift :
        (shift : ℤ)
        → All (OfRow rows) (
            if shift == pos 0
            then []
            else if ltb_ℤ shift (pos 0)
            then move moved (day plan) ∷ []
            else move moved (day plan) ∷ carried moved shift held)
    by_shift shift =
        if_All (shift == pos 0) (ltb_ℤ shift (pos 0)) (move moved (day plan)) _ found
          (carried-OfRow rows moved shift held h)

pub take-OfRow :
    (rows : List Milestone) (moves : List Move)
    → All (OfRow rows) moves
    → All (OfRow rows) (take 1 moves)
take-OfRow rows [] h = tt
take-OfRow rows (m ∷ moves) h = (h.0, tt)

pub sorted-FindsItself :
    (rows : List Milestone) (model_id : Uuid)
    → HasKeys rows
    → All
        (FindsItself rows)
        (sort_by Rows.plan_order (keep_if (λ (r : Milestone). r.model_id == model_id) rows))
sorted-FindsItself rows model_id keys =
    sort_by-All Rows.plan_order (FindsItself rows) _
      (keep_if-All (FindsItself rows) (λ (r : Milestone). r.model_id == model_id) rows keys)
