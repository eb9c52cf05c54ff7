-- ===== src/Trail/Laws.antt =====
-- What a record of the trail does to the tables.
use pilam.Prelude.{List, [], ◌∷◌, ◌++◌, arith, ℕ_eq}
use pilam.Errors.{constraint_failed, ok, err}
use pilam.Ids.{Uuid}
use pilam.Schema.{Tables, Change, Entry}
use pilam.World.{Env, raise_if, new_id}
use pilam.World.Invariants.{
  Invariant, bind-Invariant, in_tx-Invariant, raise_if-Invariant, new_id-Invariant, pure-Invariant,
  leaves, Leaves,
}
use pilam.Trail.{
  check, stamp, stamp_all, insert_entry, insert_entries, store_entries, record_changes,
  record_trail, from_context, actor_of,
}

abbrev pub with_entry : Tables → Entry → Tables
with_entry t e = record t { trail = t.trail ++ e ∷ [] }

-- A property of the tables that a new entry of the trail keeps.
module _ (P : Tables → Type 0) (grows : (t : Tables) (e : Entry) → P t → P (with_entry t e)) where
  check-Invariant : (c : Change) → Invariant P (check c)
  unfolding check
  check-Invariant c w h = ground (arith, leaves P)

  stamp_all-Invariant :
      (env : Env) (actor : Uuid) (changes : List Change) → Invariant P (stamp_all env actor changes)
  unfolding stamp_all
  stamp_all-Invariant env actor [] w h = leaves P _ h
  stamp_all-Invariant env actor (c ∷ changes) w h =
      bind-Invariant P (check c) _ (check-Invariant c)
        (λ _. bind-Invariant P (new_id env) _ (new_id-Invariant P env) (λ id.
          bind-Invariant P (stamp_all env actor changes) _ (stamp_all-Invariant env actor changes)
            (λ rest. pure-Invariant P (stamp env actor id c ∷ rest))))
        w h

  insert_entry-Invariant : (e : Entry) → Invariant P (insert_entry e)
  unfolding insert_entry
  insert_entry-Invariant e w h =
      let told : Leaves P (ok (tt {0}), record w { tables = with_entry w.tables e }) =
        leaves P _ (grows w.tables e h) in
      let refused : Leaves P {A = Unit {0}} (err constraint_failed, w) = leaves P _ h in
      ground (arith, told, refused)

  insert_entries-Invariant : (entries : List Entry) → Invariant P (insert_entries entries)
  unfolding insert_entries
  insert_entries-Invariant [] w h = leaves P _ h
  insert_entries-Invariant (e ∷ entries) w h =
      bind-Invariant P (insert_entry e) _ (insert_entry-Invariant e)
        (λ _. insert_entries-Invariant entries) w h

  store_entries-Invariant : (entries : List Entry) → Invariant P (store_entries entries)
  unfolding store_entries
  store_entries-Invariant [] w h = leaves P _ h
  store_entries-Invariant (e ∷ entries) w h =
      in_tx-Invariant P _ (insert_entries-Invariant (e ∷ entries)) w h

  pub record_changes-Invariant :
      (env : Env) (actor : Uuid) (changes : List Change)
      → Invariant P (record_changes env actor changes)
  unfolding record_changes
  record_changes-Invariant env actor [] w h = leaves P _ h
  record_changes-Invariant env actor (c ∷ changes) w h =
      bind-Invariant P (raise_if _ _) _ (raise_if-Invariant P _ _)
        (λ _.
          bind-Invariant P (stamp_all env actor (c ∷ changes)) _
            (stamp_all-Invariant env actor (c ∷ changes)) store_entries-Invariant)
        w h

  pub record_trail-Invariant :
      (env : Env) (changes : List Change) → Invariant P (record_trail env changes)
  unfolding record_trail
  record_trail-Invariant env changes =
      record_changes-Invariant env (actor_of (from_context env)) changes
