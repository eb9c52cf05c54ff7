-- ===== src/Catalog/Store/Models.antt =====
-- internal/postgres/catalog_model.go: the table model.
use pilam.Prelude.{
  Bool, true, false, not, ◌&&◌, Option, none, some, List, [], ◌∷◌, ◌++◌, any, find_first, keep_if,
  map, leb, if◌then◌else◌, ◌==◌, ℕ_eq, Bool_eq, List_eq,
}
use pilam.Prelude.Text.{less, more, same}
use pilam.Prelude.Sort.{sort_by}
use pilam.Errors.{no_model, catalog_id_taken, constraint_failed, ok, err}
use pilam.Ids.{Uuid, nil_id}
use pilam.Schema.{Drop, Model, Tables}
use pilam.World.{Env, Action, ◌>>=◌, reads, or_raise}

-- `ModelListParams`: `active` keeps the rows of its flag, and both without one.
pub record ModelListParams : Type 0 where
  pub season_id : Uuid
  pub drop_id : Uuid
  pub active : Option Bool

unfoldable pub by_id : Uuid → Action Model
by_id id = do
  row ← reads (λ t. find_first (λ (r : Model). r.id == id) t.models)
  or_raise no_model row

-- `identifier`: the zero identifier is a filter that is off.
unfoldable pub identifier : Uuid → Option Uuid
identifier id = if id == nil_id then none else some id

-- A filter that is NULL keeps every row.
abbrev pub passes : Option Uuid → Uuid → Bool
passes none id = true
passes (some wanted) id = id == wanted

abbrev passes_flag : Option Bool → Bool → Bool
passes_flag none flag = true
passes_flag (some wanted) flag = flag == wanted

-- The WHERE clause of ListModels, for a model of a drop that joins it.
unfoldable pub listed : Tables → ModelListParams → Model → Bool
unfolding identifier
listed t filter m =
    any (λ (d : Drop). (d.id == m.drop_id) && passes (identifier filter.season_id) d.season_id)
      t.drops
    && (passes (identifier filter.drop_id) m.drop_id && passes_flag filter.active m.active)

-- ORDER BY article, id
abbrev model_order : Env → Model → Model → Bool
model_order env a b = elim (env.collation a.article b.article) [
  | less ↦ true
  | same ↦ leb a.id b.id
  | more ↦ false
]

unfoldable pub list : Env → ModelListParams → Action (List Model)
unfolding listed
list env filter = reads (λ t. sort_by (model_order env) (keep_if (listed t filter) t.models))

unfoldable pub create : Model → Action (Unit {0})
create row w =
    if any (λ (r : Model). r.id == row.id) w.tables.models
    then (err catalog_id_taken, w)
    else if not (any (λ (r : Drop). r.id == row.drop_id) w.tables.drops)
    then (err constraint_failed, w)
    else (ok tt, record w { tables = record w.tables { models = w.tables.models ++ row ∷ [] } })

-- UpdateModel leaves the drop of the row alone.
abbrev edited : Model → Model → Model
edited row r = if r.id == row.id then record r { article = row.article; active = row.active } else r

unfoldable pub update : Model → Action (Unit {0})
update row w =
    if not (any (λ (r : Model). r.id == row.id) w.tables.models) then (err no_model, w) else (
      ok tt,
      record w { tables = record w.tables { models = map (edited row) w.tables.models } },
    )
