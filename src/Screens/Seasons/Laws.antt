-- ===== src/Screens/Seasons/Laws.antt =====
-- A form of a season that is not accepted writes nothing.
use pilam.Prelude.{
  ◌≡◌, refl, ◌∙◌, Bool, false, Option, none, some, List, [], ◌∷◌, ◌⊎◌, inl, inr, ◌!=◌, List_eq,
  ℕ_eq, Bool-cases,
}
use pilam.Prelude.Text.{Text, trim_space}
use pilam.Errors.{Error}
use pilam.Date.Gregorian.{Time, zero_time}
use pilam.Ids.{Uuid}
use pilam.Schema.{Season, Change}
use pilam.Validate.{require, check, add, has, get, err_of}
use pilam.World.{Env, World, ◌>>=◌, raise_some, new_id}
use pilam.World.Laws.{
  Keeps, Reads, in_tx-Keeps, bind-Keeps, raise_some-Reads, or_raise-Reads, new_id-Reads,
}
use pilam.Accounts.Principals.{UuidForm}
use pilam.Catalog.Seasons.{
  season, check_season, create_season, write_new, new_season, update_season, write_season,
  edited_season, season_changes, SeasonUpdateParams,
}
use pilam.Catalog.Store.Seasons as Rows
use pilam.Screens.{redirect_saved, Form, read_day, posted_flag}
use pilam.Screens.Pages.{form_page, with_trail}
use pilam.Screens.Pages.Laws.{
  SendsOnOrKeeps, load_one-by, with_trail-same, read_day-cases, Fits, answered-SendsOnOrKeeps,
  moved-SendsOnOrKeeps,
}
use pilam.Screens.Seasons.{is_no_season, name_at_box, create, save, save_season}

-- A season without a start date is rejected.
check_season-zero : (name : Text) → (e : Error) × (check_season name zero_time ≡ some e)
unfolding check_season require check add has get err_of
check_season-zero name = elim (Bool-cases (trim_space name != [])) [
  | inl named ↦ rw named (_, refl)
  | inr bare ↦ rw bare (_, refl)
]

by_id-Reads : (id : Uuid) (w : World) → Reads w (Rows.by_id id w)
unfolding Rows.by_id
by_id-Reads id w = or_raise-Reads _ _ w

create_season-Keeps :
    (env : Env) (name : Text) (start : Time) (w : World)
    → w.joined ≡ false
    → Keeps w (create_season env name start w)
unfolding create_season
create_season-Keeps env name start w j =
    let write = λ (id : Uuid). write_new env (new_season name start id) in
    bind-Keeps (raise_some (check_season (trim_space name) start)) (λ _. new_id env >>= write) w
      (raise_some-Reads _ w)
      (λ _ w1 j1.
        bind-Keeps (new_id env) write w1 (new_id-Reads env w1)
          (λ id w2 j2. in_tx-Keeps _ w2 (j2 ∙ (j1 ∙ j))))

write_season-Keeps :
    (env : Env) (row : Season) (changes : List Change) (w : World)
    → w.joined ≡ false
    → Keeps w (write_season env row changes w)
unfolding write_season
write_season-Keeps env row [] w j = tt
write_season-Keeps env row (c ∷ changes) w j = in_tx-Keeps _ w j

update_season-Keeps :
    (env : Env) (id : Uuid) (p : SeasonUpdateParams) (w : World)
    → w.joined ≡ false
    → Keeps w (update_season env id p w)
unfolding update_season
update_season-Keeps env id p w j =
    bind-Keeps (raise_some (check_season (trim_space p.name) p.start_date)) _ w
      (raise_some-Reads _ w)
      (λ _ w1 j1. bind-Keeps (Rows.by_id id) _ w1 (by_id-Reads id w1) (λ row w2 j2.
        write_season-Keeps env (edited_season row p) (season_changes row p) w2 (j2 ∙ (j1 ∙ j))))

-- A date box that was refused goes with a season that the service refuses.
create_season-Fits :
    (env : Env) (name : Text) (day : Time × Option Error) (w : World)
    → (day.1 ≡ none) ⊎ (day.0 ≡ zero_time)
    → Fits (day.1 ∷ []) (create_season env name day.0 w)
unfolding create_season
create_season-Fits env name day w (inl read) = rw read (inl refl)
create_season-Fits env name day w (inr zero) =
    let (e, refused) = check_season-zero (trim_space name) in rw (zero, refused) (inr tt)

update_season-Fits :
    (env : Env) (id : Uuid) (name : Text) (active : Bool) (day : Time × Option Error) (w : World)
    → (day.1 ≡ none) ⊎ (day.0 ≡ zero_time)
    → Fits
        (day.1 ∷ [])
        (update_season env id (record { name = name; start_date = day.0; active = active }) w)
unfolding update_season
update_season-Fits env id name active day w (inl read) = rw read (inl refl)
update_season-Fits env id name active day w (inr zero) =
    let (e, refused) = check_season-zero (trim_space name) in rw (zero, refused) (inr tt)

-- The creation of a season on the screen.
pub create-SendsOnOrKeeps :
    (ids : UuidForm) (env : Env) (form : Form) (w : World)
    → w.joined ≡ false
    → SendsOnOrKeeps w (create ids env form w)
unfolding create redirect_saved
create-SendsOnOrKeeps ids env form w j =
    let day = read_day "start_date" (form.value "start_date") in
    answered-SendsOnOrKeeps _ name_at_box (day.1 ∷ []) (form_page 422) w
      (create_season env (form.value "name") day.0 w) (λ s. refl) (λ errs v. refl)
      (create_season-Keeps env (form.value "name") day.0 w j)
      (create_season-Fits env (form.value "name") day w
        (read_day-cases "start_date" (form.value "start_date")))

module _ (ids : UuidForm) (env : Env) where
  save_season-SendsOnOrKeeps :
      (form : Form) (s : Season) (w : World)
      → w.joined ≡ false
      → SendsOnOrKeeps w (save_season ids env form s w)
  unfolding save_season redirect_saved
  save_season-SendsOnOrKeeps form s w j =
      let day = read_day "start_date" (form.value "start_date") in
      answered-SendsOnOrKeeps _ name_at_box (day.1 ∷ []) (with_trail env "season" s.id 422) w
        (update_season env s.id _ w) (λ u. refl)
        (λ errs v. with_trail-same env "season" s.id 422 errs v)
        (update_season-Keeps env s.id _ w j)
        (update_season-Fits env s.id (form.value "name") (posted_flag form "active") day w
          (read_day-cases "start_date" (form.value "start_date")))

  season-Reads : (id : Uuid) (w : World) → Reads w (season id w)
  unfolding season
  season-Reads id w = by_id-Reads id w

  -- Outside a transaction, the form of a season sends the browser on, or leaves every table as it
  -- was: also where only its date box was refused, and where the page with the history is read
  -- again.
  pub save-SendsOnOrKeeps :
      (raw : Text) (form : Form) (w : World)
      → w.joined ≡ false
      → SendsOnOrKeeps w (save ids env raw form w)
  unfolding save
  save-SendsOnOrKeeps raw form w j =
      load_one-by (SendsOnOrKeeps w) w (λ a v same. inr same) ids is_no_season season raw
        (save_season ids env form) (λ id. season-Reads id w)
        (λ s v joined same.
          moved-SendsOnOrKeeps w v (save_season ids env form s v) same
            (save_season-SendsOnOrKeeps form s v (joined ∙ j)))
