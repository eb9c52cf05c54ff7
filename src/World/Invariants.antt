-- ===== src/World/Invariants.antt =====
-- Properties of the tables that an action keeps, whatever it answers.
use pilam.Prelude.{◌≡◌, Bool, true, false, Option, none, some, if◌then◌else◌, Bool-cases, inl, inr}
use pilam.Errors.{Error, Result, ok, err}
use pilam.Schema.{Tables}
use pilam.World.{
  Env, World, Action, ◌>>=◌, settle, in_tx, can_commit, pure, or_raise, raise_if, raise_some,
  new_id,
}
use pilam.World.Laws.{Reads, then_from, >>=-then_from}

-- The property holds of the tables that a call has left.
pub record Leaves (P : Tables → Type 0) {A : Type 0} (r : Result A × World) : Type 0 where
  pub kept : P r.1.tables

-- Whatever it answers, an action leaves tables for which the property still holds.
abbrev pub Invariant : (Tables → Type 0) → {A : Type 0} → Action A → Type 0
Invariant P m = (w : World) → P w.tables → Leaves P (m w)

module _ (P : Tables → Type 0) where
  module _ {A : Type 0} where
    abbrev pub leaves : (r : Result A × World) → P r.1.tables → Leaves P r
    leaves r h = record { kept = h }

    pub if-Leaves :
        (b : Bool) (r s : Result A × World)
        → Leaves P r
        → Leaves P s
        → Leaves P (if b then r else s)
    if-Leaves true r s h h' = h
    if-Leaves false r s h h' = h'

    settle-keeps :
        (w : World) (r : Result A × World) → P w.tables → Leaves P r → Leaves P (settle w r)
    unfolding settle
    settle-keeps w (err e, w') h h' = leaves _ h
    settle-keeps w (ok a, w') h h' = elim (Bool-cases (can_commit w'.tables)) [
      | inl fits ↦ rw fits (leaves _ h'.kept)
      | inr clash ↦ rw clash (leaves _ h)
    ]

    pub in_tx-Invariant : (fn : Action A) → Invariant P fn → Invariant P (in_tx fn)
    unfolding in_tx
    in_tx-Invariant fn keeps w h =
        if-Leaves w.joined (fn w) _ (keeps w h) (
          settle-keeps w (fn (record w { joined = true })) h (keeps (record w { joined = true }) h))

    pub or_raise-Invariant : (e : Error) (o : Option A) → Invariant P (or_raise e o)
    or_raise-Invariant e none w h = leaves _ h
    or_raise-Invariant e (some a) w h = leaves _ h

    pub pure-Invariant : (a : A) → Invariant P (pure a)
    pure-Invariant a w h = leaves _ h

  module _ {A B : Type 0} where
    pub bind-Invariant :
        (m : Action A) (f : A → Action B)
        → Invariant P m
        → ((a : A) → Invariant P (f a))
        → Invariant P (m >>= f)
    bind-Invariant m f keeps then_keeps w h = rw (>>=-then_from m f w) (by_result (m w) (keeps w h))
      where
        by_result : (r : Result A × World) → Leaves P r → Leaves P (then_from f r)
        by_result (ok a, w') h' = then_keeps a w' h'.kept
        by_result (err e, w') h' = leaves _ h'.kept

    -- A read before a call that depends on no transaction being open.
    pub bind-Leaves :
        (m : Action A) (f : A → Action B) (w : World)
        → P w.tables
        → Reads w (m w)
        → ((a : A) (w' : World) → w'.joined ≡ w.joined → P w'.tables → Leaves P (f a w'))
        → Leaves P ((m >>= f) w)
    bind-Leaves m f w h r k = rw (>>=-then_from m f w) (by_result (m w) r)
      where
        by_result : (r : Result A × World) → Reads w r → Leaves P (then_from f r)
        by_result (ok a, w') h' = k a w' h'.joined_same (rw h'.tables_same h)
        by_result (err e, w') h' = leaves _ (rw h'.tables_same h)

  pub raise_some-Invariant : (o : Option Error) → Invariant P (raise_some o)
  raise_some-Invariant none w h = leaves _ h
  raise_some-Invariant (some e) w h = leaves _ h

  pub raise_if-Invariant : (c : Bool) (e : Error) → Invariant P (raise_if c e)
  raise_if-Invariant true e w h = leaves _ h
  raise_if-Invariant false e w h = leaves _ h

  pub new_id-Invariant : (env : Env) → Invariant P (new_id env)
  unfolding new_id
  new_id-Invariant env w h = leaves _ h
