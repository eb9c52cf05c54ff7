-- ===== src/Screens/Pages/Laws.antt =====
-- What a handler does to the tables when it does not send the browser on.
use pilam.Prelude.{
  ℕ, ◌≡◌, refl, ◌∙◌, Bool, false, Option, none, some, List, [], ◌==◌, ◌++◌, ◌∷◌, true, List_eq,
  ℕ_eq, String, ◌⊎◌, inl, inr, Bool-cases, Option-cases, ℤ, pos, map,
}
use pilam.Prelude.Text.{Text, trim_space}
use pilam.Errors.{Error, FieldErrors, Result, ok, err}
use pilam.Date.{parse}
use pilam.Date.Gregorian.{zero_time}
use pilam.Ids.{Uuid}
use pilam.Schema.{Entry}
use pilam.World.{Env, World, Action}
use pilam.World.Laws.{Keeps, Reads, bind-Reads, pure-Reads}
use pilam.Trail.{Scope, log_scopes}
use pilam.Accounts.Directory.{actors}
use pilam.Accounts.Directory.Laws.{actors-find_held}
use pilam.Accounts.Principals.{UuidForm, parse_id}
use pilam.Screens.{Answer, read_day, not_found, rejections}
use pilam.Screens.Trails.{event, load_trail, load_trail_of}
use pilam.Screens.Pages.{
  Screen, answered, all_none, reading, load_one, with_row, with_trail, refused_by,
}

-- The answer is a redirect, or the tables are as they were.
abbrev pub SendsOnOrKeeps : World → Answer × World → Type 0
SendsOnOrKeeps w (a, w') = (a.status ≡ 303) ⊎ (w'.tables ≡ w.tables)

log_scopes-Reads :
    (env : Env) (limit : ℤ) (scopes : List Scope) (w : World)
    → Reads w (log_scopes env limit scopes w)
unfolding log_scopes
log_scopes-Reads env limit scopes w = record { tables_same = refl; joined_same = refl }

actors-Reads : (ids : List Uuid) (w : World) → Reads w (actors ids w)
actors-Reads ids w =
    let (held, run, finds) = actors-find_held ids w in
    rw run (record { tables_same = refl; joined_same = refl })

pub load_trail_of-Reads :
    (env : Env) (names : Uuid → Option Text) (scopes : List Scope) (w : World)
    → Reads w (load_trail_of env names scopes w)
unfolding load_trail_of
load_trail_of-Reads env names scopes w =
    bind-Reads (log_scopes env (pos 50) scopes) _ w (log_scopes-Reads env (pos 50) scopes w)
      (λ entries v.
        let ids : List Uuid = map (λ (e : Entry). e.actor_id) entries in
        bind-Reads (actors ids) _ v (actors-Reads ids v)
          (λ held u. pure-Reads (map (event names held) entries) u))

load_trail-Reads :
    (env : Env) (entity : String) (id : Uuid) (w : World) → Reads w (load_trail env entity id w)
unfolding load_trail
load_trail-Reads env entity id w = load_trail_of-Reads env _ _ w

-- A page reads when it leaves the tables alone.
module _ {A : Type 0} where
  pub with_row-same :
      (is_missing : Error → Bool) (page : A → Screen) (w : World) (r : Result A × World)
      → Reads w r
      → ((a : A) (v : World) → (page a v).1.tables ≡ v.tables)
      → (with_row is_missing page r).1.tables ≡ w.tables
  with_row-same is_missing page w (ok a, v) h same = same a v ∙ h.tables_same
  with_row-same is_missing page w (err e, v) h same = h.tables_same

  -- What holds of every answer that leaves the tables alone, and of the page after the read.
  module _ (P : Answer × World → Type 0) (w : World)
      (keeps : (a : Answer) (v : World) → v.tables ≡ w.tables → P (a, v)) where
    with_row-by :
        (is_missing : Error → Bool) (page : A → Screen) (r : Result A × World)
        → Reads w r
        → ((a : A) (v : World) → v.joined ≡ w.joined → v.tables ≡ w.tables → P (page a v))
        → P (with_row is_missing page r)
    with_row-by is_missing page (ok a, v) h holds = holds a v h.joined_same h.tables_same
    with_row-by is_missing page (err e, v) h holds = keeps _ v h.tables_same

    pub reading-by :
        (read : Action A) (page : A → Screen)
        → Reads w (read w)
        → ((a : A) (v : World) → v.joined ≡ w.joined → v.tables ≡ w.tables → P (page a v))
        → P (reading read page w)
    reading-by read page h holds = with_row-by (λ e. false) page (read w) h holds

    pub load_one-by :
        (ids : UuidForm) (is_missing : Error → Bool) (load : Uuid → Action A) (raw : Text)
        (page : A → Screen)
        → ((id : Uuid) → Reads w (load id w))
        → ((a : A) (v : World) → v.joined ≡ w.joined → v.tables ≡ w.tables → P (page a v))
        → P (load_one ids is_missing load raw page w)
    unfolding load_one
    load_one-by ids is_missing load raw page reads holds = by_id (parse_id ids raw)
      where
        by_id :
            (o : Option Uuid)
            → P (elim o [ none ↦ (not_found, w) | some id ↦ with_row is_missing page (load id w) ])
        by_id none = keeps not_found w refl
        by_id (some id) = with_row-by is_missing page (load id w) (reads id) holds

pub with_trail-same :
    (env : Env) (entity : String) (id : Uuid) (status : ℕ) (errs : FieldErrors) (w : World)
    → (with_trail env entity id status errs w).1.tables ≡ w.tables
with_trail-same env entity id status errs w =
    with_row-same (λ e. false) _ w (load_trail env entity id w) (load_trail-Reads env entity id w)
      (λ events v. refl)

pub refused_by-same :
    (o : Option FieldErrors) (page : FieldErrors → Screen) (w : World)
    → ((errs : FieldErrors) → (page errs w).1.tables ≡ w.tables)
    → (refused_by o page w).1.tables ≡ w.tables
refused_by-same none page w h = refl
refused_by-same (some errs) page w h = h errs

-- A date box that was refused reads as the zero date.
pub read_day-cases :
    (field : String) (posted : Text)
    → ((read_day field posted).1 ≡ none) ⊎ ((read_day field posted).0 ≡ zero_time)
unfolding read_day
read_day-cases field posted = elim (Bool-cases (trim_space posted == [])) [
  | inl empty ↦ rw empty (inl refl)
  | inr full ↦ elim (Option-cases (parse (trim_space posted))) [
    | inl bad ↦ rw (full, bad) (inr refl)
    | inr (day, good) ↦ rw (full, good) (inl refl)
  ]
]

abbrev pub Fails : {A : Type 0} → Result A × World → Type 0
Fails (ok a, w) = ⊥
Fails (err e, w) = Unit

-- A box that was refused goes with a call that failed.
abbrev pub Fits : {A : Type 0} → List (Option Error) → Result A × World → Type 0
Fits boxes r = (all_none boxes ≡ true) ⊎ Fails r

-- The end of a form sends the browser on, or leaves the tables as the call that failed did.
pub answered-SendsOnOrKeeps :
    {A : Type 0} (on : A → Answer) (told : Error → Error) (boxes : List (Option Error))
    (page : FieldErrors → Screen) (w : World) (r : Result A × World)
    → ((a : A) → (on a).status ≡ 303)
    → ((errs : FieldErrors) (v : World) → (page errs v).1.tables ≡ v.tables)
    → Keeps w r
    → Fits boxes r
    → SendsOnOrKeeps w (answered on told boxes page r)
unfolding answered
answered-SendsOnOrKeeps on told boxes page w (ok a, v) sent same h (inl f) = rw f (inl (sent a))
answered-SendsOnOrKeeps on told boxes page w (ok a, v) sent same h (inr f) = absurd f
answered-SendsOnOrKeeps on told boxes page w (err e, v) sent same h f =
    inr
      (refused_by-same (rejections (boxes ++ some (told e) ∷ [])) page v (λ errs. same errs v) ∙ h)

-- A read before the end of a form.
pub moved-SendsOnOrKeeps :
    (w v : World) (r : Answer × World)
    → v.tables ≡ w.tables
    → SendsOnOrKeeps v r
    → SendsOnOrKeeps w r
moved-SendsOnOrKeeps w v r same (inl on) = inl on
moved-SendsOnOrKeeps w v r same (inr kept) = inr (kept ∙ same)
