-- ===== src/Catalog/Models.antt =====
-- internal/catalog/model.go: the models of a drop.
use pilam.Prelude.{Option, List, [], ◌∷◌, ◌++◌, Bool, true, ◌!=◌, Bool_eq, List_eq, ℕ_eq}
use pilam.Prelude.Text.{Text, trim_space}
use pilam.Errors.{Error, required}
use pilam.Ids.{Uuid, nil_id}
use pilam.Schema.{Change, Model}
use pilam.Validate.{ready, require, check, err_of}
use pilam.World.{Env, Action, ◌>>=◌, ◌>>◌, pure, raise_some, new_id, in_tx}
use pilam.Trail.{record_trail}
use pilam.Catalog.Facts.{change, moved_text, moved_active}
use pilam.Catalog.Store.Drops as DropRows
use pilam.Catalog.Store.Models as Rows
use pilam.Catalog.Store.Models.{ModelListParams}

pub record ModelUpdateParams : Type 0 where
  pub article : Text
  pub active : Bool

-- `Model` and `ListModels`
unfoldable pub model : Uuid → Action Model
model id = Rows.by_id id

unfoldable list_models : Env → ModelListParams → Action (List Model)
list_models env filter = Rows.list env filter

-- The rejections of a creation.
unfoldable pub check_model : Uuid → Text → Option Error
check_model drop_id article =
    err_of (check (require ready "article" article).0 (drop_id != nil_id) "drop_id" required).0.errs

abbrev pub new_model : Uuid → Text → Uuid → Model
new_model drop_id article id = record {
  id = id;
  drop_id = drop_id;
  article = trim_space article;
  active = true;
}

-- The write of `CreateModel`.
abbrev pub write_new : Env → Model → Action Model
write_new env row = in_tx (do
  Rows.create row
  record_trail env (change "model" row.id "created" "" [] row.article ∷ [])
  pure row)

-- `CreateModel`
unfoldable pub create_model : Env → Uuid → Text → Action Model
unfolding check_model
create_model env drop_id article = do
  raise_some (check_model drop_id (trim_space article))
  DropRows.by_id drop_id
  id ← new_id env
  write_new env (new_model drop_id article id)

-- The entries of an update, in the order of its fields.
unfoldable pub model_changes : Model → ModelUpdateParams → List Change
model_changes row p =
    moved_text (change "model" row.id) "article" row.article (trim_space p.article)
    ++ moved_active (change "model" row.id) row.active p.active

abbrev pub edited_model : Model → ModelUpdateParams → Model
edited_model row p = record row { article = trim_space p.article; active = p.active }

unfoldable pub write_model : Env → Model → List Change → Action (Unit {0})
write_model env row [] = pure tt
write_model env row (c ∷ changes) = in_tx (Rows.update row >> record_trail env (c ∷ changes))

-- `UpdateModel`
unfoldable pub update_model : Env → Uuid → ModelUpdateParams → Action (Unit {0})
unfolding model_changes write_model
update_model env id p = do
  raise_some (err_of (require ready "article" (trim_space p.article)).0.errs)
  row ← Rows.by_id id
  write_model env (edited_model row p) (model_changes row p)
