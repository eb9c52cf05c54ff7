-- ===== src/Milestones/Store/Lists.antt =====
-- internal/postgres/milestone_calendar.go: the two reads across the models of a season.
use pilam.Prelude.{
  ℕ, Bool, not, ◌&&◌, Option, none, some, List, [], ◌∷◌, any, find_first, keep_if, length,
  if◌then◌else◌, ◌==◌, ℕ_eq,
}
use pilam.Prelude.Text.{Text}
use pilam.Prelude.Sort.{sort_by}
use pilam.Ids.{Uuid}
use pilam.Schema.{Tables, Milestone, MilestoneType, Model, Drop}
use pilam.World.{Env, Action, reads}
use pilam.Catalog.Store.Models.{identifier, passes}
use pilam.Milestones.Rules.{State}
use pilam.Milestones.Store.Names.{by_name}
use pilam.Milestones.Store.Calendar.{plan_order}

-- `ListRow`. A row that the store hands out has no state yet.
pub record ListRow : Type 0 where
  pub milestone : Milestone
  pub state : Option State
  pub type_name : Text
  pub article : Text
  pub drop_id : Uuid
  pub drop_name : Text

-- `ListParams`
pub record ListParams : Type 0 where
  pub season_id : Uuid
  pub drop_id : Uuid
  pub type_id : Uuid
  pub states : List State
  pub search : Text

-- `NoCalendar`
pub record NoCalendar : Type 0 where
  pub drop_id : Uuid
  pub drop_name : Text
  pub models : ℕ

abbrev model_of : Tables → Uuid → Option Model
model_of t id = find_first (λ (m : Model). m.id == id) t.models

abbrev drop_of : Tables → Uuid → Option Drop
drop_of t id = find_first (λ (d : Drop). d.id == id) t.drops

abbrev type_of : Tables → Uuid → Option MilestoneType
type_of t id = find_first (λ (k : MilestoneType). k.id == id) t.types

-- The WHERE clause of ListMilestonesBySeason.
unfoldable pub is_listed : ListParams → Milestone → Model → Drop → Bool
unfolding identifier
is_listed filter m model drop =
    (m.active && model.active)
    && ((drop.season_id == filter.season_id)
        && (passes (identifier filter.drop_id) model.drop_id
            && passes (identifier filter.type_id) m.type_id))

-- The row of a milestone that joins its model, its drop and its type.
unfoldable pub joined_row : Tables → ListParams → Milestone → Option ListRow
unfolding is_listed
joined_row t filter m = elim (model_of t m.model_id) [
  | none ↦ none
  | some model ↦ elim (drop_of t model.drop_id) [
    | none ↦ none
    | some drop ↦ elim (type_of t m.type_id) [
      | none ↦ none
      | some milestone_type ↦
          if is_listed filter m model drop
          then some (record {
            milestone = m;
            state = none;
            type_name = milestone_type.name;
            article = model.article;
            drop_id = model.drop_id;
            drop_name = drop.name;
          })
          else none
    ]
  ]
]

unfoldable pub joined_rows : Tables → ListParams → List Milestone → List ListRow
unfolding joined_row
joined_rows t filter [] = []
joined_rows t filter (m ∷ rows) =
    let rest = joined_rows t filter rows in
    elim (joined_row t filter m) [ none ↦ rest | some row ↦ row ∷ rest ]

-- ListMilestonesBySeason, in plan date order.
unfoldable pub list : ListParams → Action (List ListRow)
unfolding joined_rows plan_order
list filter = reads (λ t. joined_rows t filter (sort_by plan_order t.milestones))

-- A model that CountModelsWithoutCalendar counts for a drop.
unfoldable pub is_bare : Tables → Drop → Model → Bool
is_bare t drop model =
    (model.active && (model.drop_id == drop.id))
    && not (any (λ (m : Milestone). (m.model_id == model.id) && m.active) t.milestones)

-- The drops with such a model, each with their number.
unfoldable pub bare_drops : Tables → Uuid → Option Uuid → List Drop → List NoCalendar
unfolding is_bare
bare_drops t season_id wanted [] = []
bare_drops t season_id wanted (d ∷ drops) =
    let rest = bare_drops t season_id wanted drops in
    let models = keep_if (is_bare t d) t.models in
    if (d.season_id == season_id) && (passes wanted d.id && not (length models == 0))
    then record { drop_id = d.id; drop_name = d.name; models = length models } ∷ rest
    else rest

-- CountModelsWithoutCalendar, in the order of the names of the drops.
unfoldable pub without_calendar : Env → Uuid → Uuid → Action (List NoCalendar)
unfolding bare_drops identifier
without_calendar env season_id drop_id = reads (λ t.
    bare_drops t season_id (identifier drop_id)
      (sort_by (λ (a b : Drop). by_name env a.name b.name) t.drops))
