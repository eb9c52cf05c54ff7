-- ===== src/Milestones/Templates/Laws.antt =====
-- The default template.
use pilam.Prelude.{
  ◌≡◌, refl, Bool, true, false, not, ◌||◌, Option, none, some, List, [], ◌∷◌, ◌++◌, ◌==◌, ℕ_eq,
  List_eq, any, All, map, if◌then◌else◌, arith, Bool-cases, inl, inr,
}
use pilam.Prelude.Text.{Text, trim_space}
use pilam.Errors.{Error, not_allowed, ok, err}
use pilam.Ids.{Uuid}
use pilam.Schema.{Tables, Template, Change}
use pilam.World.{Env, World, pure, raise_some, new_id}
use pilam.World.Invariants.{
  Invariant, bind-Invariant, in_tx-Invariant, raise_some-Invariant, new_id-Invariant,
  or_raise-Invariant, leaves, Leaves, pure-Invariant,
}
use pilam.Trail.{record_trail}
use pilam.Trail.Laws.{record_trail-Invariant}
use pilam.Validate.{ready, merge}
use pilam.Validate.Laws.{err_of-none, check-free}
use pilam.Milestones.Naming.{check_naming}
use pilam.Milestones.Store.Templates as Rows
use pilam.Milestones.Templates.{
  TemplateUpdateParams, make_room, create_template, edited_template, write_template, check_template,
  update_template,
}

-- A template that is the default has the identifier `keep`, and is active.
abbrev NamesDefault : Uuid → Template → Type 0
NamesDefault keep r = r.default ≡ true → (r.id ≡ keep) × (r.active ≡ true)

-- Only one identifier is that of the default, and what is the default is active.
abbrev pub HasDefault : Tables → Type 0
HasDefault t = (keep : Uuid) × All (NamesDefault keep) t.templates

cleared-All :
    (keep other : Uuid) (rows : List Template)
    → All (NamesDefault keep) rows
    → All (NamesDefault keep) (map (Rows.cleared other) rows)
unfolding Rows.cleared
cleared-All keep other [] h = tt
cleared-All keep other (r ∷ rows) h = (ground (arith, h.0), cleared-All keep other rows h.1)

make_room-Invariant : (row : Template) → Invariant HasDefault (make_room row)
unfolding make_room Rows.clear_default
make_room-Invariant row w (keep, h) =
    let room : Leaves HasDefault (Rows.clear_default row.id w) =
      leaves HasDefault _ (keep, cleared-All keep row.id w.tables.templates h) in
    let same : Leaves HasDefault (pure (tt {0}) w) = leaves HasDefault _ (keep, h) in
    ground (arith, room, same)

abbrev put : Template → List Template → List Template
put row rows = map (λ (r : Template). if r.id == row.id then row else r) rows

-- Where no other row is the default, a default row takes its place.
put_default-All :
    (keep : Uuid) (row : Template) (rows : List Template)
    → row.default ≡ true
    → row.active ≡ true
    → any (Rows.other_default row) rows ≡ false
    → All (NamesDefault keep) rows
    → All (NamesDefault row.id) (put row rows) × All (NamesDefault row.id) (rows ++ row ∷ [])
put_default-All keep row [] d a h old = (tt, (λ _. (refl, a), tt))
put_default-All keep row (r ∷ rows) d a h old =
    ground (arith, put_default-All keep row rows d a (ground arith) old.1, old.0)

put_plain-All :
    (keep : Uuid) (row : Template) (rows : List Template)
    → row.default ≡ false
    → All (NamesDefault keep) rows
    → All (NamesDefault keep) (put row rows) × All (NamesDefault keep) (rows ++ row ∷ [])
put_plain-All keep row [] d h = (tt, (λ t. absurd (ground arith), tt))
put_plain-All keep row (r ∷ rows) d h = ground (arith, put_plain-All keep row rows d h.1, h.0)

-- The rows after a write of one that is the default only if it is active, where no other row is.
put-HasDefault :
    (row : Template) (t : Tables)
    → (row.default ≡ true → row.active ≡ true)
    → any (Rows.other_default row) t.templates ≡ false
    → HasDefault t
    → HasDefault (record t { templates = put row t.templates })
      × HasDefault (record t { templates = t.templates ++ row ∷ [] })
put-HasDefault row t a h (keep, old) = elim (Bool-cases row.default) [
  | inl default ↦
      let both = put_default-All keep row t.templates default (a default) h old in
      ((row.id, both.0), (row.id, both.1))
  | inr plain ↦
      let both = put_plain-All keep row t.templates plain old in ((keep, both.0), (keep, both.1))
]

-- What a write of a row keeps, when its rows keep it.
module _ (P : Tables → Type 0) (row : Template) where
  create_row-keeps :
      (w : World)
      → P w.tables
      → (any (Rows.other_default row) w.tables.templates ≡ false
          → P (record w.tables { templates = w.tables.templates ++ row ∷ [] }))
      → Leaves P (Rows.create row w)
  unfolding Rows.create
  create_row-keeps w h new =
      let refused : (e : Error) → Leaves P {A = Unit {0}} (err e, w) = λ e. leaves P _ h in
      let written : any (Rows.other_default row) w.tables.templates ≡ false
          → Leaves P (
            ok (tt {0}),
            record w { tables = record w.tables { templates = w.tables.templates ++ row ∷ [] } },
          ) =
        λ free. leaves P _ (new free) in
      ground (arith, refused, written)

  update_row-keeps :
      (w : World)
      → P w.tables
      → (any (Rows.other_default row) w.tables.templates ≡ false
          → P (record w.tables { templates = put row w.tables.templates }))
      → Leaves P (Rows.update row w)
  unfolding Rows.update
  update_row-keeps w h new =
      let refused : (e : Error) → Leaves P {A = Unit {0}} (err e, w) = λ e. leaves P _ h in
      let written : any (Rows.other_default row) w.tables.templates ≡ false
          → Leaves P (
            ok (tt {0}),
            record w { tables = record w.tables { templates = put row w.tables.templates } },
          ) =
        λ free. leaves P _ (new free) in
      ground (arith, refused, written)

create-Invariant :
    (row : Template)
    → (row.default ≡ true → row.active ≡ true)
    → Invariant HasDefault (Rows.create row)
create-Invariant row a w h =
    create_row-keeps HasDefault row w h (λ free. (put-HasDefault row w.tables a free h).1)

update-Invariant :
    (row : Template)
    → (row.default ≡ true → row.active ≡ true)
    → Invariant HasDefault (Rows.update row)
update-Invariant row a w h =
    update_row-keeps HasDefault row w h (λ free. (put-HasDefault row w.tables a free h).0)

trail-Invariant :
    (env : Env) (changes : List Change) → Invariant HasDefault (record_trail env changes)
trail-Invariant = record_trail-Invariant HasDefault (λ t e h. h)

write_template-Invariant :
    (env : Env) (row : Template) (changes : List Change)
    → (row.default ≡ true → row.active ≡ true)
    → Invariant HasDefault (write_template env row changes)
unfolding write_template
write_template-Invariant env row [] a w h = leaves HasDefault _ h
write_template-Invariant env row (c ∷ changes) a w h =
    in_tx-Invariant HasDefault _
      (bind-Invariant HasDefault (make_room row) _ (make_room-Invariant row) (λ _.
        bind-Invariant HasDefault (Rows.update row) _ (update-Invariant row a)
          (λ _. trail-Invariant env (c ∷ changes))))
      w h

-- What `check_template` lets through is the default only if it is active.
check_template-none :
    (p : TemplateUpdateParams) → check_template p ≡ none → p.default ≡ true → p.active ≡ true
unfolding check_template
check_template-none p h d =
    let accepted : (not p.default || p.active) ≡ true =
      check-free (merge ready (check_naming (trim_space p.name) (trim_space p.description)))
        (not p.default || p.active) "default" not_allowed ((err_of-none _).0 h "default") in
    ground (arith, accepted)

by_id-Invariant : (id : Uuid) → Invariant HasDefault (Rows.by_id id)
unfolding Rows.by_id
by_id-Invariant id w h = or_raise-Invariant HasDefault _ _ w h

-- An update of a template, whatever it answers, keeps it so that all default templates have one
-- identifier and are active.
pub update_template-Invariant :
    (env : Env) (id : Uuid) (p : TemplateUpdateParams)
    → Invariant HasDefault (update_template env id p)
unfolding update_template
update_template-Invariant env id p w h = by_check (check_template p) refl
  where
    by_check :
        (o : Option Error) → check_template p ≡ o → Leaves HasDefault (update_template env id p w)
    by_check none e = rw e (
        bind-Invariant HasDefault (Rows.by_id id) _ (by_id-Invariant id)
          (λ row. write_template-Invariant env (edited_template row p) _ (check_template-none p e))
          w h)
    by_check (some d) e = rw e (leaves HasDefault _ h)

-- The creation of a template, whatever it answers, keeps it so that all default templates have
-- one identifier and are active.
pub create_template-Invariant :
    (env : Env) (name description : Text) (default : Bool)
    → Invariant HasDefault (create_template env name description default)
unfolding create_template
create_template-Invariant env name description default w h =
    bind-Invariant HasDefault (raise_some (check_naming (trim_space name) (trim_space description)))
      _ (raise_some-Invariant HasDefault _)
      (λ _. bind-Invariant HasDefault (new_id env) _ (new_id-Invariant HasDefault env) (λ id.
        let row : Template = record {
          id = id;
          name = trim_space name;
          description = trim_space description;
          default = default;
          active = true;
        } in
        in_tx-Invariant HasDefault _ (
          bind-Invariant HasDefault (make_room row) _ (make_room-Invariant row) (λ _.
            bind-Invariant HasDefault (Rows.create row) _ (create-Invariant row (λ _. refl)) (λ _.
              bind-Invariant HasDefault (record_trail env _) _ (trail-Invariant env _)
                (λ _. pure-Invariant HasDefault row))))))
      w h
