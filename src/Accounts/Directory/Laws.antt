-- ===== src/Accounts/Directory/Laws.antt =====
-- What the actors of a trail are called.
use pilam.Prelude.{
  ◌≡◌, refl, sym, ap, ◌∙◌, Bool, true, false, ◌||◌, Option, none, some, List, [], ◌∷◌, ◌==◌, ℕ_eq,
  if◌then◌else◌, any, nat_eq, nat_eq_iff, Bool-cases, inl, inr, arith,
}
use mathlib.Core.Option as Option
use pilam.Errors.{no_user, Result, ok, err}
use pilam.Ids.{Uuid, nil_id}
use pilam.Schema.{User, Tables}
use pilam.World.{World, or_raise}
use pilam.Accounts.{by_id}
use pilam.Accounts.Rows.{user_of}
use pilam.Accounts.Directory.{
  Account, account_of, Held, find_held, is_held, hold, hold_one, hold_all, actors,
}

-- The account that an identifier names, but for the one that names nobody.
abbrev pub named : Tables → Uuid → Option Account
named t id = if id == nil_id then none else Option.map account_of (user_of id t)

abbrev put : Uuid → Option Account → Held → Held
put id none held = held
put id (some a) held = (id, a) ∷ held

abbrev kept : Tables → Uuid → Held → Held
kept t id held = if is_held (find_held id held) then held else put id (named t id) held

hold_one-cases :
    (id : Uuid) (held : Held) (w : World) (is_kept is_nil : Bool) (o : Option User)
    → ◌≡◌ {A = Result Held × World}
        (if is_kept || is_nil then (ok held, w) else hold id held (or_raise no_user o w))
        (
          ok (
              if is_kept
              then held
              else put id (if is_nil then none else Option.map account_of o) held),
          w,
        )
unfolding hold
hold_one-cases id held w true n o = refl
hold_one-cases id held w false true o = refl
hold_one-cases id held w false false none = refl
hold_one-cases id held w false false (some u) = refl

hold_one-kept :
    (id : Uuid) (held : Held) (w : World) → hold_one id held w ≡ (ok (kept w.tables id held), w)
unfolding hold_one by_id
hold_one-kept id held w =
    hold_one-cases id held w (is_held (find_held id held)) (id == nil_id) (user_of id w.tables)

-- The first of two answers.
abbrev or_answer : Option Account → Option Account → Option Account
or_answer none b = b
or_answer (some a) b = some a

or_answer-none : (o : Option Account) → or_answer o none ≡ o
or_answer-none none = refl
or_answer-none (some a) = refl

or_answer-twice :
    (o a : Option Account) (b c : Bool)
    → or_answer (or_answer o (if b then a else none)) (if c then a else none)
      ≡ or_answer o (if b || c then a else none)
or_answer-twice (some x) a b c = refl
or_answer-twice none a false c = refl
or_answer-twice none a true false = or_answer-none a
or_answer-twice none (some x) true true = refl
or_answer-twice none none true true = refl

find_held-put :
    (id k : Uuid) (a : Option Account) (held : Held)
    → find_held k (put id a held)
      ≡ (if k == id then or_answer a (find_held k held) else find_held k held)
find_held-put id k none held = ground arith
find_held-put id k (some a) held = refl

find_held-same :
    (t : Tables) (id : Uuid) (held : Held) (o : Option Account)
    → find_held id held ≡ o
    → find_held id (if is_held o then held else put id (named t id) held) ≡ or_answer o (named t id)
find_held-same t id held (some a) e = e
find_held-same t id held none e =
    find_held-put id id (named t id) held
    ∙ rw ((nat_eq_iff id id).1 refl, e) (or_answer-none (named t id))

find_held-other :
    (id k : Uuid) (a : Option Account) (held : Held) (b : Bool)
    → nat_eq k id ≡ false
    → find_held k (if b then held else put id a held) ≡ find_held k held
find_held-other id k a held true h = refl
find_held-other id k a held false h = find_held-put id k a held ∙ rw h refl

find_held-kept :
    (t : Tables) (id k : Uuid) (held : Held)
    → find_held k (kept t id held)
      ≡ or_answer (find_held k held) (if k == id then named t k else none)
find_held-kept t id k held = elim (Bool-cases (nat_eq k id)) [
  | inl e ↦
      let same : k ≡ id = (nat_eq_iff k id).0 e in
      rw (e, same) (find_held-same t id held (find_held id held) refl)
  | inr e ↦
      find_held-other id k (named t id) held (is_held (find_held id held)) e
      ∙ rw e (sym (or_answer-none (find_held k held)))
]

hold_all-find_held :
    (ids : List Uuid) (held : Held) (w : World)
    → (found : Held) × (hold_all ids held w ≡ (ok found, w))
      × ((k : Uuid)
          → find_held k found
            ≡ or_answer
                (find_held k held)
                (if any (λ id. k == id) ids then named w.tables k else none))
unfolding hold_all
hold_all-find_held [] held w = (held, refl, λ k. sym (or_answer-none _))
hold_all-find_held (id ∷ ids) held w =
    let (found, runs, finds) = hold_all-find_held ids (kept w.tables id held) w in
    (
      found,
      ap
            (λ (r : Result Held × World).
              let (answer, w') = r in
              elim answer [ ok a ↦ hold_all ids a w' | err e ↦ (err e, w') ])
            (hold_one-kept id held w)
          ∙ runs,
      λ k.
          finds k
          ∙ ap (λ o. or_answer o (if any (λ id. k == id) ids then named w.tables k else none))
              (find_held-kept w.tables id k held)
          ∙ or_answer-twice (find_held k held) (named w.tables k) (k == id) _,
    )

-- The actors of any list of identifiers are read without a failure and without a change, and
-- hold for each identifier of the list the account of its row, and nothing for any other
-- identifier, for the nil identifier or where there is no row.
pub actors-find_held :
    (ids : List Uuid) (w : World)
    → (found : Held) × (actors ids w ≡ (ok found, w))
      × ((k : Uuid)
          → find_held k found ≡ (if any (λ id. k == id) ids then named w.tables k else none))
unfolding actors
actors-find_held ids w = hold_all-find_held ids [] w
