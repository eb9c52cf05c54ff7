-- ===== src/World/Success.antt =====
-- The calls that an action went through when it succeeded, from the answer of the last one
-- backwards.
use pilam.Prelude.{
  ◌≡◌, refl, sym, ap, ◌∙◌, Bool, true, false, Option, none, some, arith, Bool-cases, inl, inr,
}
use pilam.Errors.{Error, Result, ok, err}
use pilam.World.{World, Action, ◌>>=◌, settle, in_tx, raise_if, raise_some, or_raise}
use pilam.World.Laws.{then_from, >>=-then_from}

-- A call that answered, and where it ended.
pub record Answers {A : Type 0} (r : Result A × World) : Type 0 where
  pub value : A
  pub after : World
  pub same : r ≡ (ok value, after)

module _ {A B : Type 0} where
  pub bind-Answers :
      (m : Action A) (f : A → Action B) (w w' : World) (b : B)
      → (m >>= f) w ≡ (ok b, w')
      → (first : Answers (m w)) × (f first.value first.after ≡ (ok b, w'))
  bind-Answers m f w w' b h = by_result (m w) refl (sym (>>=-then_from m f w) ∙ h)
    where
      by_result :
          (r : Result A × World)
          → m w ≡ r
          → then_from f (m w) ≡ (ok b, w')
          → (first : Answers (m w)) × (f first.value first.after ≡ (ok b, w'))
      by_result (ok a, u) e h =
          (record { value = a; after = u; same = e }, sym (ap (then_from f) e) ∙ h)
      by_result (err d, u) e h = absurd (ground (arith, sym (ap (then_from f) e) ∙ h))

-- The run inside a transaction that committed, or that it joined.
pub record Committed {A : Type 0} (fn : Action A) (w w' : World) (a : A) : Type 0 where
  pub before : World
  pub after : World
  pub began : before.tables ≡ w.tables
  pub ended : w'.tables ≡ after.tables
  pub ran : fn before ≡ (ok a, after)

module _ {A : Type 0} (fn : Action A) (w w' : World) (a : A) where
  settle-ok :
      (r : Result A × World)
      → settle w r ≡ (ok a, w')
      → (u : World) × (r ≡ (ok a, u)) × (w'.tables ≡ u.tables)
  unfolding settle
  settle-ok (err e, u) h = absurd (ground arith)
  settle-ok (ok b, u) h = (u, ground arith, ground arith)

  pub in_tx-Committed : in_tx fn w ≡ (ok a, w') → Committed fn w w' a
  unfolding in_tx
  in_tx-Committed h = elim (Bool-cases w.joined) [
    | inl inside ↦ record { before = w; after = w'; began = refl; ended = refl; ran = ground arith }
    | inr alone ↦
        let found = settle-ok (fn (record w { joined = true })) (ground arith) in
        record {
          before = record w { joined = true };
          after = found.0;
          began = refl;
          ended = found.2;
          ran = found.1;
        }
  ]

pub raise_some-ok :
    (o : Option Error) (w w' : World) → raise_some o w ≡ (ok tt, w') → (o ≡ none) × (w' ≡ w)
raise_some-ok none w w' h = (refl, sym (ap (λ r. r.1) h))
raise_some-ok (some e) w w' h = absurd (ground arith)

pub raise_if-ok :
    (c : Bool) (e : Error) (w w' : World) → raise_if c e w ≡ (ok tt, w') → (c ≡ false) × (w' ≡ w)
raise_if-ok false e w w' h = (refl, sym (ap (λ r. r.1) h))
raise_if-ok true e w w' h = absurd (ground arith)

pub or_raise-ok :
    {A : Type 0} (e : Error) (o : Option A) (w w' : World) (a : A)
    → or_raise e o w ≡ (ok a, w')
    → (o ≡ some a) × (w' ≡ w)
or_raise-ok e (some b) w w' a h = (ground (arith, ap (λ r. r.0) h), sym (ap (λ r. r.1) h))
or_raise-ok e none w w' a h = absurd (ground arith)
