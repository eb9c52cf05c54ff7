-- ===== src/Tests/Trails.antt =====
-- A page of a trail of three entries, of two users.
use pilam.Prelude.{List, [], ◌∷◌}
use pilam.Prelude.Text.{codes}
use pilam.Ids.{Uuid}
use pilam.Schema.{Entry}
use pilam.Date.Gregorian.{Time}
use pilam.World.{World}
use pilam.Trail.{Scope}
use pilam.Tests.Base.{world}
use pilam.Tests.Rules.{on}

abbrev entry : Uuid → Uuid → Time → Entry
entry id subject at = record {
  id = id;
  at = at;
  actor_id = 1;
  entity = "user";
  entity_id = subject;
  action = "updated";
  field_key = "email";
  old = [];
  new = codes "a";
  request_id = [];
}

abbrev told : World
told = record world {
  tables = record world.tables {
    trail = entry 11 1 (on 739690) ∷ entry 12 2 (on 739692) ∷ entry 13 1 (on 739691) ∷ [];
  };
}

abbrev scopes : List Scope
scopes = record { entity = "user"; ids = 1 ∷ [] } ∷ record { entity = "user"; ids = 2 ∷ [] } ∷ []
