-- ===== src/World/Laws.antt =====
-- What a failed call does to the tables, and calls that only read them.
use pilam.Prelude.{◌≡◌, refl, ◌∙◌, Bool, true, false, Option, none, some, arith}
use pilam.Errors.{Error, Result, ok, err}
use pilam.World.{
  Env, World, Action, ◌>>=◌, settle, in_tx, pure, raise, or_raise, raise_if, raise_some, new_id,
}

-- A call that began at `w` has left the tables alone if it failed.
abbrev pub Keeps : {A : Type 0} → World → Result A × World → Type 0
Keeps w (ok a, w') = Unit
Keeps w (err e, w') = w'.tables ≡ w.tables

-- A call that began at `w` has left the tables alone, and is in no transaction where `w` is in none.
pub record Reads {A : Type 0} (w : World) (r : Result A × World) : Type 0 where
  pub tables_same : r.1.tables ≡ w.tables
  pub joined_same : r.1.joined ≡ w.joined

module _ {A : Type 0} where
  settle-Keeps : (w : World) (r : Result A × World) → Keeps w (settle w r)
  unfolding settle
  settle-Keeps w (err e, w') = refl
  settle-Keeps w (ok a, w') = ground arith

  -- A transaction that fails leaves the tables as they were.
  pub in_tx-Keeps : (fn : Action A) (w : World) → w.joined ≡ false → Keeps w (in_tx fn w)
  unfolding in_tx
  in_tx-Keeps fn w j = rw j (settle-Keeps w (fn (record w { joined = true })))

  -- A transaction that was begun is over.
  pub in_tx-joined : (fn : Action A) (w : World) → w.joined ≡ false → (in_tx fn w).1.joined ≡ false
  unfolding in_tx
  in_tx-joined fn w j = rw j (settled (fn (record w { joined = true })))
    where
      settled : (r : Result A × World) → (settle w r).1.joined ≡ false
      settled (err e, w') = unfold settle in refl
      settled (ok a, w') = unfold settle in ground arith

  pub pure-Reads : (a : A) (w : World) → Reads w (pure a w)
  pure-Reads a w = record { tables_same = refl; joined_same = refl }

  pub raise-Reads : (e : Error) (w : World) → Reads {A = A} w (raise e w)
  raise-Reads e w = record { tables_same = refl; joined_same = refl }

  pub or_raise-Reads : (e : Error) (o : Option A) (w : World) → Reads w (or_raise e o w)
  or_raise-Reads e none w = raise-Reads e w
  or_raise-Reads e (some a) w = pure-Reads a w

  pub Reads-Keeps : (w : World) (r : Result A × World) → Reads w r → Keeps w r
  Reads-Keeps w (ok a, w') h = tt
  Reads-Keeps w (err e, w') h = h.tables_same

pub new_id-Reads : (env : Env) (w : World) → Reads w (new_id env w)
unfolding new_id
new_id-Reads env w = record { tables_same = refl; joined_same = refl }

pub raise_some-Reads : (o : Option Error) (w : World) → Reads w (raise_some o w)
raise_some-Reads none w = record { tables_same = refl; joined_same = refl }
raise_some-Reads (some e) w = record { tables_same = refl; joined_same = refl }

pub raise_if-Reads : (c : Bool) (e : Error) (w : World) → Reads w (raise_if c e w)
raise_if-Reads true e w = record { tables_same = refl; joined_same = refl }
raise_if-Reads false e w = record { tables_same = refl; joined_same = refl }

Keeps-trans :
    {A : Type 0} (w w' : World) (r : Result A × World)
    → w'.tables ≡ w.tables
    → Keeps w' r
    → Keeps w r
Keeps-trans w w' (ok a, u) e h = tt
Keeps-trans w w' (err d, u) e h = h ∙ e

module _ {A B : Type 0} where
  -- What a bind goes on to, from the result of its first call.
  abbrev pub then_from : (A → Action B) → Result A × World → Result B × World
  then_from f (ok a, w) = f a w
  then_from f (err e, w) = (err e, w)

  pub >>=-then_from :
      (m : Action A) (f : A → Action B) (w : World) → (m >>= f) w ≡ then_from f (m w)
  >>=-then_from m f w = by_result (m w)
    where
      by_result : (r : Result A × World) → (◌>>=◌ (λ _. r) f w) ≡ then_from f r
      by_result (ok a, u) = refl
      by_result (err e, u) = refl

  -- A read before a call that keeps the tables on failure.
  pub bind-Keeps :
      (m : Action A) (f : A → Action B) (w : World)
      → Reads w (m w)
      → ((a : A) (w' : World) → w'.joined ≡ w.joined → Keeps w' (f a w'))
      → Keeps w ((m >>= f) w)
  bind-Keeps m f w h k = rw (>>=-then_from m f w) (by_result (m w) h)
    where
      by_result : (r : Result A × World) → Reads w r → Keeps w (then_from f r)
      by_result (ok a, w') h = Keeps-trans w w' (f a w') h.tables_same (k a w' h.joined_same)
      by_result (err e, w') h = h.tables_same

  -- Two reads in turn are a read.
  pub bind-Reads :
      (m : Action A) (f : A → Action B) (w : World)
      → Reads w (m w)
      → ((a : A) (w' : World) → Reads w' (f a w'))
      → Reads w ((m >>= f) w)
  bind-Reads m f w h k = rw (>>=-then_from m f w) (by_result (m w) h)
    where
      by_result : (r : Result A × World) → Reads w r → Reads w (then_from f r)
      by_result (ok a, w') h = record {
        tables_same = (k a w').tables_same ∙ h.tables_same;
        joined_same = (k a w').joined_same ∙ h.joined_same;
      }
      by_result (err e, w') h = record { tables_same = h.tables_same; joined_same = h.joined_same }

  -- A read before a call that ends outside a transaction.
  pub bind-joined :
      (m : Action A) (f : A → Action B) (w : World)
      → w.joined ≡ false
      → Reads w (m w)
      → ((a : A) (w' : World) → w'.joined ≡ false → (f a w').1.joined ≡ false)
      → ((m >>= f) w).1.joined ≡ false
  bind-joined m f w j h k = rw (>>=-then_from m f w) (by_result (m w) h)
    where
      by_result : (r : Result A × World) → Reads w r → (then_from f r).1.joined ≡ false
      by_result (ok a, w') h = k a w' (h.joined_same ∙ j)
      by_result (err e, w') h = h.joined_same ∙ j
