-- ===== src/Screens/Trails.antt =====
-- internal/http/shared/audit.go: the histories that a card shows.
use pilam.Prelude.{pos, String, Option, none, List, [], ◌∷◌, map}
use pilam.Prelude.Text.{Text}
use pilam.Ids.{Uuid}
use pilam.Schema.{Entry}
use pilam.World.{Env, Action, ◌>>=◌, pure}
use pilam.Trail.{Scope, log_scopes}
use pilam.Accounts.Directory.{Account, Held, find_held, actors}

-- `views.AuditEvent`. An actor that is nobody's is the zero account of the map, here `none`, and so
-- is a subject that no name stands for.
pub record Event : Type 0 where
  pub entry : Entry
  pub actor : Option Account
  pub subject : Option Text

unfoldable pub event : (Uuid → Option Text) → Held → Entry → Event
event names held e = record {
  entry = e;
  actor = find_held e.actor_id held;
  subject = names e.entity_id;
}

-- `LoadTrailOf`, with `audit.DefaultLimit`, and `LoadTrail`.
unfoldable pub load_trail_of : Env → (Uuid → Option Text) → List Scope → Action (List Event)
unfolding event
load_trail_of env names scopes = do
  entries ← log_scopes env (pos 50) scopes
  held ← actors (map (λ (e : Entry). e.actor_id) entries)
  pure (map (event names held) entries)

unfoldable pub load_trail : Env → String → Uuid → Action (List Event)
unfolding load_trail_of
load_trail env entity id =
    load_trail_of env (λ k. none) (record { entity = entity; ids = id ∷ [] } ∷ [])
