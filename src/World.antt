-- ===== src/World.antt =====
-- The state that a service reads and writes, and internal/postgres/tx.go. A service is a function of
-- the world that returns its result with the new world.
use pilam.Prelude.{
  ℕ, ℤ, ◌+◌, Bool, true, false, not, ◌&&◌, Option, none, some, List, [], ◌∷◌, any, if◌then◌else◌,
  ◌==◌, ℕ_eq,
}
use pilam.Prelude.Text.{Text, Order}
use pilam.Errors.{Error, commit_failed, Result, ok, err}
use pilam.Date.{day}
use pilam.Date.Gregorian.{Time}
use pilam.Ids.{Uuid, nil_id}
use pilam.Auth.Throttle.{Failed}
use pilam.Schema.{Identity, Tables, Photo, TemplateItem}
pub mod Laws
pub mod Invariants
pub mod Success

-- What a request carries in its context, and what the services are built with: the identity that the
-- middleware resolved, the clock with the offset of the business timezone at an instant, the generator
-- as the sequence that it yields, and the collation of the database.
pub record Env : Type 0 where
  pub identity : Option Identity
  pub request_id : Text
  pub now : Time
  pub zone : ℤ → ℤ
  pub fresh : ℕ → Uuid
  pub collation : Text → Text → Order

-- `Clock.Today`
abbrev pub today : Env → Time
today env = day env.now

-- `joined` is set while the context carries a transaction, and `drawn` counts the identifiers that
-- the generator has yielded. `failed` is the throttle of the logins, which lives in memory, and
-- `entropy` counts the reads of the random source.
pub record World : Type 0 where
  pub tables : Tables
  pub drawn : ℕ
  pub joined : Bool
  pub failed : Failed
  pub entropy : ℕ

abbrev pub Action : Type 0 → Type 0
Action A = World → Result A × World

abbrev pub ◌>>=◌ : {A : Type 0} → {B : Type 0} → Action A → (A → Action B) → Action B
◌>>=◌ first next w =
    let (answer, w') = first w in elim answer [ ok a ↦ next a w' | err e ↦ (err e, w') ]

abbrev pub ◌>>◌ : {A B : Type 0} → Action A → Action B → Action B
m >> k = m >>= λ _. k

infixl 5 ◌>>=◌ ◌>>◌
module _ {A : Type 0} where
  abbrev pub pure : A → Action A
  pure a w = (ok a, w)

  abbrev pub raise : Error → Action A
  raise e w = (err e, w)

  -- A read of the tables.
  abbrev pub reads : (Tables → A) → Action A
  reads f w = (ok (f w.tables), w)

  abbrev pub or_raise : Error → Option A → Action A
  or_raise e none = raise e
  or_raise e (some a) = pure a

abbrev pub lift : {A : Type 0} → Result A → Action A
lift r w = (r, w)

abbrev pub raise_if : Bool → Error → Action (Unit {0})
raise_if c e = if c then raise e else pure tt

-- An error that may be nil.
abbrev pub raise_some : Option Error → Action (Unit {0})
raise_some none = pure tt
raise_some (some e) = raise e

-- A statement that writes the tables.
abbrev pub writes : (Tables → Tables) → Action (Unit {0})
writes f w = (ok tt, record w { tables = f w.tables })

-- `Generator.New`
unfoldable pub new_id : Env → Action Uuid
new_id env w = (ok (env.fresh w.drawn), record w { drawn = w.drawn + 1 })

-- The deferred constraints of the schema: no two items of a template and no two photos of a model
-- stand at one position.
unfoldable pub items_apart : List TemplateItem → Bool
items_apart [] = true
items_apart (i ∷ rest) =
    not (any (λ j. (j.template_id == i.template_id) && (j.position == i.position)) rest)
    && items_apart rest

unfoldable pub photos_apart : List Photo → Bool
photos_apart [] = true
photos_apart (p ∷ rest) =
    not (any (λ q. (q.model_id == p.model_id) && (q.position == p.position)) rest)
    && photos_apart rest

unfoldable pub can_commit : Tables → Bool
unfolding items_apart photos_apart
can_commit t = items_apart t.items && photos_apart t.photos

-- The end of a transaction that began at `w`: a commit, or a rollback of the tables.
unfoldable pub settle : {A : Type 0} → World → Result A × World → Result A × World
settle w (err e, w') = (err e, record w' { tables = w.tables; joined = false })
settle w (ok a, w') =
    if can_commit w'.tables
    then (ok a, record w' { joined = false })
    else (err commit_failed, record w' { tables = w.tables; joined = false })

-- `DB.InTx`: a call inside a transaction joins it.
unfoldable pub in_tx : {A : Type 0} → Action A → Action A
unfolding settle
in_tx fn w = if w.joined then fn w else settle w (fn (record w { joined = true }))
