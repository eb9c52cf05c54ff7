-- ===== src/Trail.antt =====
-- internal/audit and internal/postgres/audit.go: the trail of who changed what. A change becomes an
-- entry stamped with the time, the actor and the request, and the entries are rows of the database.
use pilam.Prelude.{
  ℕ, ◌+◌, ◌≡◌, String, Bool, true, false, not, ◌&&◌, Option, none, some, List, [], ◌∷◌, ◌++◌, any,
  length, map, take, ltb, if◌then◌else◌, ◌==◌, ℕ_eq, String_eq, keep_if, ℤ, pos, ltb_ℤ, leb_ℤ,
  pos_part,
}
use pilam.Prelude.Int.{eq_ℤ}
use pilam.Prelude.Text.{Text}
use pilam.Prelude.Sort.{sort_by}
use pilam.Errors.{
  Error, no_actor, no_entity, no_entity_id, no_action, constraint_failed, Result, ok, err,
}
use pilam.Date.Gregorian.{Time}
use pilam.Ids.{Uuid, nil_id}
use pilam.Schema.{Change, Entry, Identity, Tables, User}
use pilam.World.{
  Env, World, Action, ◌>>=◌, ◌>>◌, pure, raise, raise_if, reads, writes, new_id, in_tx,
}
pub mod Laws
pub mod Newest
pub mod Told

-- `Change.check`, in the order of its cases.
unfoldable pub check : Change → Action (Unit {0})
check c =
    if c.entity == ""
    then raise no_entity
    else if c.entity_id == nil_id
    then raise no_entity_id
    else if c.action == ""
    then raise no_action
    else pure tt

abbrev pub stamp : Env → Uuid → Uuid → Change → Entry
stamp env actor id c = record {
  id = id;
  at = env.now;
  actor_id = actor;
  entity = c.entity;
  entity_id = c.entity_id;
  action = c.action;
  field_key = c.field_key;
  old = c.old;
  new = c.new;
  request_id = env.request_id;
}

-- The loop of `Trail.Record`.
unfoldable pub stamp_all : Env → Uuid → List Change → Action (List Entry)
unfolding check new_id
stamp_all env actor [] = pure []
stamp_all env actor (c ∷ changes) = do
  check c
  id ← new_id env
  rest ← stamp_all env actor changes
  pure (stamp env actor id c ∷ rest)

-- The primary key and the actor of the table audit_entry.
unfoldable pub insert_entry : Entry → Action (Unit {0})
insert_entry e w =
    if any (λ d. d.id == e.id) w.tables.trail
    then (err constraint_failed, w)
    else if not (any (λ (u : User). u.id == e.actor_id) w.tables.users)
    then (err constraint_failed, w)
    else (ok tt, record w { tables = record w.tables { trail = w.tables.trail ++ e ∷ [] } })

-- `Audit.Record` of internal/postgres.
unfoldable pub insert_entries : List Entry → Action (Unit {0})
unfolding insert_entry
insert_entries [] = pure tt
insert_entries (e ∷ entries) = do insert_entry e; insert_entries entries

unfoldable pub store_entries : List Entry → Action (Unit {0})
unfolding insert_entries in_tx
store_entries [] = pure tt
store_entries (e ∷ entries) = in_tx (insert_entries (e ∷ entries))

-- `Trail.Record`
unfoldable pub record_changes : Env → Uuid → List Change → Action (Unit {0})
unfolding stamp_all store_entries
record_changes env actor [] = pure tt
record_changes env actor (c ∷ changes) = do
  raise_if (actor == nil_id) no_actor
  entries ← stamp_all env actor (c ∷ changes)
  store_entries entries

-- `auth.FromContext`: an anonymous request has the zero identity.
unfoldable pub from_context : Env → Option Identity
from_context env = elim env.identity [
  | none ↦ none
  | some identity ↦ if identity.user_id == nil_id then none else some identity
]

abbrev pub actor_of : Option Identity → Uuid
actor_of none = nil_id
actor_of (some identity) = identity.user_id

-- `BaseService.RecordTrail`
unfoldable pub record_trail : Env → List Change → Action (Unit {0})
unfolding record_changes from_context
record_trail env changes = record_changes env (actor_of (from_context env)) changes

-- `Activation`
unfoldable pub activation : Bool → String
activation true = "reactivated"
activation false = "deactivated"

-- `Scope` and the read side of the trail.
pub record Scope : Type 0 where
  pub entity : String
  pub ids : List Uuid

-- `newestFirst`: the later entry stands first, and of two of one time the greater identifier.
unfoldable pub newest_first : Entry → Entry → Bool
newest_first a b =
    if eq_ℤ a.at.instant b.at.instant then not (ltb a.id b.id) else ltb_ℤ b.at.instant a.at.instant

-- `ListAuditEntries` of db/queries/audit.sql.
unfoldable pub by_entities : String → List Uuid → ℕ → Tables → List Entry
unfolding newest_first
by_entities entity ids limit t = take limit (
    sort_by newest_first
      (keep_if (λ e. (e.entity == entity) && any (λ i. i == e.entity_id) ids) t.trail))

unfoldable pub clamp_limit : ℤ → ℕ
clamp_limit limit =
    if leb_ℤ limit (pos 0) then 50 else if ltb_ℤ (pos 200) limit then 200 else pos_part limit

unfoldable pub read_scopes : List Scope → ℕ → Tables → List Entry
unfolding by_entities
read_scopes [] limit t = []
read_scopes (s ∷ scopes) limit t =
    let rest = read_scopes scopes limit t in
    elim s.ids [ [] ↦ rest | i ∷ ids ↦ by_entities s.entity (i ∷ ids) limit t ++ rest ]

-- `Time.In` of the business timezone.
abbrev in_zone : Env → Entry → Entry
in_zone env e = record e { at = record { instant = e.at.instant; offset = env.zone e.at.instant } }

-- `Log.Scopes`, and `Log.Entity`.
unfoldable pub log_scopes : Env → ℤ → List Scope → Action (List Entry)
unfolding read_scopes clamp_limit
log_scopes env limit scopes w =
    let n = clamp_limit limit in
    let entries = read_scopes scopes n w.tables in
    let merged = if ltb 1 (length scopes) then sort_by newest_first entries else entries in
    (ok (map (in_zone env) (take n merged)), w)

unfoldable log_entity : Env → String → Uuid → ℤ → Action (List Entry)
unfolding log_scopes
log_entity env entity id limit =
    log_scopes env limit (record { entity = entity; ids = id ∷ [] } ∷ [])
