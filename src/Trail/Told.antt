-- ===== src/Trail/Told.antt =====
-- The entries that a record of the trail adds when it succeeds.
use pilam.Prelude.{◌≡◌, refl, sym, ap, ◌∙◌, List, [], ◌∷◌, ◌++◌, map, arith, ℕ_eq}
use pilam.Errors.{ok, err}
use pilam.Ids.{Uuid}
use pilam.Schema.{Tables, Change, Entry}
use pilam.World.{Env, World, Action, ◌>>=◌, pure, raise_if, new_id}
use pilam.World.Success.{bind-Answers, in_tx-Committed, raise_if-ok}
use pilam.Trail.{
  check, stamp, stamp_all, insert_entry, insert_entries, store_entries, record_changes,
  record_trail, from_context, actor_of,
}

-- What an entry says, without its stamp.
abbrev pub change_of : Entry → Change
change_of e = record {
  entity = e.entity;
  entity_id = e.entity_id;
  action = e.action;
  field_key = e.field_key;
  old = e.old;
  new = e.new;
}

abbrev with_entries : Tables → List Entry → Tables
with_entries t entries = record t { trail = t.trail ++ entries }

-- The tables after a record: the trail with one entry for each change, in their order.
abbrev pub Tells : List Change → Tables → Tables → Type 0
Tells changes t t' =
    (new : List Entry) × (map change_of new ≡ changes) × (t' ≡ record t { trail = t.trail ++ new })

append_assoc : (xs ys zs : List Entry) → (xs ++ ys) ++ zs ≡ xs ++ (ys ++ zs)
append_assoc [] ys zs = refl
append_assoc (x ∷ xs) ys zs = ap (λ l. x ∷ l) (append_assoc xs ys zs)

append_nil : (xs : List Entry) → xs ≡ xs ++ []
append_nil [] = refl
append_nil (x ∷ xs) = ap (λ l. x ∷ l) (append_nil xs)

same_tables : (t : Tables) → t ≡ with_entries t []
same_tables t = ap (λ l. record t { trail = l }) (append_nil t.trail)

check-ok : (c : Change) (w w' : World) → check c w ≡ (ok tt, w') → w' ≡ w
unfolding check
check-ok c w w' h = ground arith

stamp_all-ok :
    (env : Env) (actor : Uuid) (changes : List Change) (w w' : World) (entries : List Entry)
    → stamp_all env actor changes w ≡ (ok entries, w')
    → (map change_of entries ≡ changes) × (w'.tables ≡ w.tables)
unfolding stamp_all new_id
stamp_all-ok env actor [] w w' entries h = (
  ap (λ r. elim r.0 [ ok l ↦ map change_of l | err e ↦ [] ]) (sym h),
  ap (λ r. r.1.tables) (sym h),
)
stamp_all-ok env actor (c ∷ changes) w w' entries h =
    let rest_of : Uuid → Action (List Entry) =
      λ id. (do rest ← stamp_all env actor changes; pure (stamp env actor id c ∷ rest)) in
    let checked = bind-Answers (check c) (λ _. new_id env >>= rest_of) w w' entries h in
    let drawn = bind-Answers (new_id env) rest_of checked.0.after w' entries checked.1 in
    let id = drawn.0.value in
    let told =
      bind-Answers (stamp_all env actor changes) (λ rest. pure (stamp env actor id c ∷ rest))
        drawn.0.after w' entries drawn.1 in
    let (says, same) =
      stamp_all-ok env actor changes drawn.0.after told.0.after told.0.value told.0.same in
    (
      ap (λ r. elim r.0 [ ok l ↦ map change_of l | err e ↦ [] ]) (sym told.1)
          ∙ ap (λ l. c ∷ l) says,
      ap (λ r. r.1.tables) (sym told.1)
          ∙ (same
              ∙ (ap (λ r. r.1.tables) (sym drawn.0.same)
                  ∙ ap (λ v. v.tables) (check-ok c w checked.0.after checked.0.same))),
    )

insert_entry-ok :
    (e : Entry) (w w' : World)
    → insert_entry e w ≡ (ok tt, w')
    → w'.tables ≡ with_entries w.tables (e ∷ [])
unfolding insert_entry
insert_entry-ok e w w' h = ground arith

insert_entries-ok :
    (entries : List Entry) (w w' : World)
    → insert_entries entries w ≡ (ok tt, w')
    → w'.tables ≡ with_entries w.tables entries
unfolding insert_entries
insert_entries-ok [] w w' h = ap (λ r. r.1.tables) (sym h) ∙ same_tables w.tables
insert_entries-ok (e ∷ entries) w w' h =
    let first = bind-Answers (insert_entry e) (λ _. insert_entries entries) w w' tt h in
    insert_entries-ok entries first.0.after w' first.1
    ∙ (ap (λ t. with_entries t entries) (insert_entry-ok e w first.0.after first.0.same)
        ∙ ap (λ l. record w.tables { trail = l }) (append_assoc w.tables.trail (e ∷ []) entries))

store_entries-ok :
    (entries : List Entry) (w w' : World)
    → store_entries entries w ≡ (ok tt, w')
    → w'.tables ≡ with_entries w.tables entries
unfolding store_entries
store_entries-ok [] w w' h = ap (λ r. r.1.tables) (sym h) ∙ same_tables w.tables
store_entries-ok (e ∷ entries) w w' h =
    let tx = in_tx-Committed (insert_entries (e ∷ entries)) w w' tt h in
    tx.ended
    ∙ (insert_entries-ok (e ∷ entries) tx.before tx.after tx.ran
        ∙ ap (λ t. with_entries t (e ∷ entries)) tx.began)

record_changes-Tells :
    (env : Env) (actor : Uuid) (changes : List Change) (w w' : World)
    → record_changes env actor changes w ≡ (ok tt, w')
    → Tells changes w.tables w'.tables
unfolding record_changes
record_changes-Tells env actor [] w w' h =
    ([], refl, ap (λ r. r.1.tables) (sym h) ∙ same_tables w.tables)
record_changes-Tells env actor (c ∷ changes) w w' h =
    let named =
      bind-Answers (raise_if _ _) (λ _. stamp_all env actor (c ∷ changes) >>= store_entries) w w' tt
        h in
    let free = raise_if-ok _ _ w named.0.after named.0.same in
    let stamped =
      bind-Answers (stamp_all env actor (c ∷ changes)) store_entries named.0.after w' tt named.1 in
    let (says, same) =
      stamp_all-ok env actor (c ∷ changes) named.0.after stamped.0.after stamped.0.value
        stamped.0.same in
    (
      stamped.0.value,
      says,
      store_entries-ok stamped.0.value stamped.0.after w' stamped.1
          ∙ ap (λ t. with_entries t stamped.0.value) (same ∙ ap (λ v. v.tables) free.1),
    )

-- A record that succeeds adds one entry for each change, in their order, after the entries that the
-- trail held, and leaves every other table as it was.
pub record_trail-Tells :
    (env : Env) (changes : List Change) (w w' : World)
    → record_trail env changes w ≡ (ok tt, w')
    → Tells changes w.tables w'.tables
unfolding record_trail
record_trail-Tells env changes w w' h =
    record_changes-Tells env (actor_of (from_context env)) changes w w' h
