-- ===== src/Screens/Drops/Laws.antt =====
-- What a form of a drop leaves behind.
use pilam.Prelude.{
  ◌≡◌, refl, ◌∙◌, false, Option, none, some, List, [], ◌∷◌, inl, inr, Bool-cases, Option-cases,
  ◌!=◌, ◌⊎◌, String, List_eq, ℕ_eq, ◌==◌, keep_if, not,
}
use pilam.Prelude.Text.{Text, trim_space}
use pilam.Errors.{Error, FieldErrors}
use pilam.Date.Gregorian.{Time, zero_time}
use pilam.Ids.{Uuid, nil_id}
use pilam.Schema.{Season}
use pilam.Validate.{require, check, add, has, get, err_of}
use pilam.World.{Env, World, ◌>>=◌, raise_some, new_id}
use pilam.World.Laws.{
  Keeps, Reads, in_tx-Keeps, bind-Keeps, bind-Reads, pure-Reads, raise_some-Reads, or_raise-Reads,
  new_id-Reads,
}
use pilam.Accounts.Principals.{UuidForm, parse_id}
use pilam.Catalog.Seasons.{list_seasons}
use pilam.Catalog.Store.Seasons as SeasonRows
use pilam.Catalog.Store.Drops as Rows
use pilam.Date.{is_zero}
use pilam.Catalog.Drops.{DropCreateParams, create_drop, check_drop, list_drops, drop_row, write_new}
use pilam.Screens.{Form, redirect_saved, posted_id, read_day}
use pilam.Screens.Pages.Laws.{
  SendsOnOrKeeps, Fits, answered-SendsOnOrKeeps, read_day-cases, with_row-same,
}
use pilam.Screens.Drops.{
  groups_of, by_season, active_seasons, told_created, offer_page, create, DropGroup,
}

list_seasons-Reads : (env : Env) (w : World) → Reads w (list_seasons env w)
unfolding list_seasons SeasonRows.list
list_seasons-Reads env w = record { tables_same = refl; joined_same = refl }

list_drops-Reads : (env : Env) (id : Uuid) (w : World) → Reads w (list_drops env id w)
unfolding list_drops Rows.list_by_season
list_drops-Reads env id w = record { tables_same = refl; joined_same = refl }

groups_of-Reads :
    (env : Env) (seasons : List Season) (w : World) → Reads w (groups_of env seasons w)
unfolding groups_of
groups_of-Reads env [] w = pure-Reads [] w
groups_of-Reads env (s ∷ seasons) w =
    bind-Reads (list_drops env s.id) _ w (list_drops-Reads env s.id w) (λ drops v.
      bind-Reads (groups_of env seasons) _ v (groups_of-Reads env seasons v) (λ groups u.
        let held : DropGroup = record { season = s; drops = drops } in
        pure-Reads (held ∷ groups) u))

pub by_season-Reads : (env : Env) (w : World) → Reads w (by_season env w)
unfolding by_season
by_season-Reads env w =
    bind-Reads (list_seasons env) (groups_of env) w (list_seasons-Reads env w)
      (λ seasons v. groups_of-Reads env seasons v)

active_seasons-Reads : (env : Env) (w : World) → Reads w (active_seasons env w)
unfolding active_seasons
active_seasons-Reads env w =
    bind-Reads (list_seasons env) _ w (list_seasons-Reads env w)
      (λ seasons v. pure-Reads (keep_if (λ (s : Season). s.active) seasons) v)

offer_page-same :
    (env : Env) (errs : FieldErrors) (w : World) → (offer_page env errs w).1.tables ≡ w.tables
offer_page-same env errs w =
    with_row-same (λ e. false) _ w (active_seasons env w) (active_seasons-Reads env w)
      (λ seasons v. refl)

-- A box of an identifier that was refused reads as the nil identifier.
pub posted_id-cases :
    (ids : UuidForm) (form : Form) (field : String)
    → ((posted_id ids form field).1 ≡ none) ⊎ ((posted_id ids form field).0 ≡ nil_id)
unfolding posted_id
posted_id-cases ids form field = elim (Bool-cases (trim_space (form.value field) == [])) [
  | inl empty ↦ rw empty (inl refl)
  | inr full ↦ elim (Option-cases (parse_id ids (trim_space (form.value field)))) [
    | inl bad ↦ rw (full, bad) (inr refl)
    | inr (id, good) ↦ rw (full, good) (inl refl)
  ]
]

-- A drop without a season or without a target date is rejected.
check_drop-nil :
    (name : Text) (target : Time)
    → (e : Error) × (check_drop (record { season_id = nil_id; name = name; target_date = target })
        ≡ some e)
unfolding check_drop require check add has get err_of
check_drop-nil name target = elim (Bool-cases (trim_space (trim_space name) != [])) [
  | inl named ↦ elim (Bool-cases (not (is_zero target))) [
    | inl dated ↦ rw (named, dated) (_, refl)
    | inr bare ↦ rw (named, bare) (_, refl)
  ]
  | inr unnamed ↦ elim (Bool-cases (not (is_zero target))) [
    | inl dated ↦ rw (unnamed, dated) (_, refl)
    | inr bare ↦ rw (unnamed, bare) (_, refl)
  ]
]

check_drop-zero :
    (id : Uuid) (name : Text)
    → (e : Error) × (check_drop (record { season_id = id; name = name; target_date = zero_time })
        ≡ some e)
unfolding check_drop require check add has get err_of
check_drop-zero id name = elim (Bool-cases (trim_space (trim_space name) != [])) [
  | inl named ↦ elim (Bool-cases (id != nil_id)) [
    | inl held ↦ rw (named, held) (_, refl)
    | inr lost ↦ rw (named, lost) (_, refl)
  ]
  | inr unnamed ↦ elim (Bool-cases (id != nil_id)) [
    | inl held ↦ rw (unnamed, held) (_, refl)
    | inr lost ↦ rw (unnamed, lost) (_, refl)
  ]
]

create_drop-refused :
    (env : Env) (p : DropCreateParams) (boxes : List (Option Error)) (w : World)
    → (e : Error) × (check_drop p ≡ some e)
    → Fits boxes (create_drop env p w)
unfolding create_drop
create_drop-refused env p boxes w (e, refused) = rw refused (inr tt)

-- The boxes of a form that were refused go with a drop that the service refuses.
create_drop-Fits :
    (env : Env) (id : Uuid × Option Error) (name : Text) (day : Time × Option Error) (w : World)
    → (id.1 ≡ none) ⊎ (id.0 ≡ nil_id)
    → (day.1 ≡ none) ⊎ (day.0 ≡ zero_time)
    → Fits
        (id.1 ∷ day.1 ∷ [])
        (create_drop env (record { season_id = id.0; name = name; target_date = day.0 }) w)
create_drop-Fits env id name day w (inl read) (inl dated) = rw (read, dated) (inl refl)
create_drop-Fits env id name day w (inr lost) dated =
    rw lost (create_drop-refused env _ (id.1 ∷ day.1 ∷ []) w (check_drop-nil name day.0))
create_drop-Fits env id name day w (inl read) (inr zero) =
    rw zero (create_drop-refused env _ (id.1 ∷ day.1 ∷ []) w (check_drop-zero id.0 name))

season-Reads : (id : Uuid) (w : World) → Reads w (SeasonRows.by_id id w)
unfolding SeasonRows.by_id
season-Reads id w = or_raise-Reads _ _ w

create_drop-Keeps :
    (env : Env) (p : DropCreateParams) (w : World)
    → w.joined ≡ false
    → Keeps w (create_drop env p w)
unfolding create_drop
create_drop-Keeps env p w j =
    let write = λ (id : Uuid). write_new env (drop_row id p) in
    let draw = λ (s : Season). new_id env >>= write in
    bind-Keeps (raise_some (check_drop p)) (λ _. SeasonRows.by_id p.season_id >>= draw) w
      (raise_some-Reads _ w)
      (λ _ w1 j1.
        bind-Keeps (SeasonRows.by_id p.season_id) draw w1 (season-Reads p.season_id w1) (λ s w2 j2.
          bind-Keeps (new_id env) write w2 (new_id-Reads env w2)
            (λ id w3 j3. in_tx-Keeps _ w3 (j3 ∙ (j2 ∙ (j1 ∙ j))))))

-- Outside a transaction, the form of a new drop sends the browser on, or leaves every table as it
-- was: also where only the box of its season or that of its date was refused.
pub create_drop-SendsOnOrKeeps :
    (ids : UuidForm) (env : Env) (form : Form) (w : World)
    → w.joined ≡ false
    → SendsOnOrKeeps w (create ids env form w)
unfolding create redirect_saved
create_drop-SendsOnOrKeeps ids env form w j =
    let id = posted_id ids form "season_id" in
    let day = read_day "target_date" (form.value "target_date") in
    let p : DropCreateParams = record {
      season_id = id.0;
      name = form.value "name";
      target_date = day.0;
    } in
    answered-SendsOnOrKeeps _ told_created (id.1 ∷ day.1 ∷ []) (offer_page env) w
      (create_drop env p w) (λ d. refl) (offer_page-same env) (create_drop-Keeps env p w j)
      (create_drop-Fits env id (form.value "name") day w (posted_id-cases ids form "season_id")
        (read_day-cases "target_date" (form.value "target_date")))
