-- ===== src/Middleware/Laws.antt =====
-- Which requests reach a handler behind the guards.
use pilam.Prelude.{
  ℕ, ◌≡◌, refl, sym, ap, ◌∙◌, true, false, not, ◌||◌, Option, none, some, [], ◌∷◌, ◌==◌, List_eq,
  ℕ_eq, arith,
}
use pilam.Prelude.Text.{Text}
use pilam.Errors.{Result, ok, err}
use pilam.Ids.{nil_id}
use pilam.Schema.{Identity, root}
use pilam.Accounts.{allows}
use pilam.Middleware.{
  Visit, served, Handler, chain, session, after_verify, subject_of, identify, after_resolve, known,
  require_identity, require_password_change, require_role, site, guard, root_guard,
}

-- A request whose context the links have not filled yet.
abbrev pub arriving : Option Text → Text → Visit
arriving cookie path = record {
  cookie = cookie;
  path = path;
  subject = none;
  identity = none;
  cleared = false;
}

module _ (verified : Text → Option Text) (resolver : Text → Result Identity)
    (login change : Text) where
  -- Who stands behind a request: the user that the subject of its cookie resolves to.
  pub record ComesFrom (cookie : Option Text) (i : Identity) : Type 0 where
    pub value : Text
    pub subject : Text
    pub sent : cookie ≡ some value
    pub signed : verified value ≡ some subject
    pub resolved : resolver subject ≡ ok i
    pub named : (i.user_id == nil_id) ≡ false

  -- What a request that reaches a handler for root users shows.
  pub record ForRoot (cookie : Option Text) (path : Text) : Type 0 where
    pub who : Identity
    pub comes : ComesFrom cookie who
    pub is_root : allows who.role root ≡ true
    pub current : (not who.passwd_expired || (path == change)) ≡ true

  guarded-known :
      (v v' : Visit)
      → root_guard verified resolver login change served v ≡ served v'
      → (i : Identity) × (known v ≡ some i)
        × (allows i.role root ≡ true)
        × ((not i.passwd_expired || (v.path == change)) ≡ true)
  unfolding root_guard guard chain require_identity require_password_change require_role
  guarded-known v v' h = by_known (known v) refl
    where
      by_known :
          (o : Option Identity)
          → known v ≡ o
          → (i : Identity) × (known v ≡ some i)
            × (allows i.role root ≡ true)
            × ((not i.passwd_expired || (v.path == change)) ≡ true)
      by_known none e = absurd (ground (arith, e))
      by_known (some i) e = (i, e, ground (arith, e), ground (arith, e))

  -- What the links before a handler make of a request.
  record Filled (cookie : Option Text) (path : Text) (next : Handler) : Type 0 where
    visit : Visit
    reached : site verified resolver login change next (arriving cookie path) ≡ next visit
    same_path : visit.path ≡ path
    from : (i : Identity) → known visit ≡ some i → ComesFrom cookie i

  site-Filled : (cookie : Option Text) (path : Text) (next : Handler) → Filled cookie path next
  unfolding site chain session after_verify identify subject_of after_resolve known
  site-Filled none path next = record {
    visit = arriving none path;
    reached = refl;
    same_path = refl;
    from = λ i h. absurd (ground arith);
  }
  site-Filled (some value) path next = by_verify (verified value) refl
    where
      by_resolve :
          (c : ℕ) (subject : Text) (r : Result Identity)
          → verified value ≡ some (c ∷ subject)
          → resolver (c ∷ subject) ≡ r
          → Filled (some value) path next
      by_resolve c subject (ok i) e er = record {
        visit = record (arriving (some value) path) {
          subject = some (c ∷ subject);
          identity = some i;
        };
        reached = rw (e, er) refl;
        same_path = refl;
        from = λ j h. record {
          value = value;
          subject = c ∷ subject;
          sent = refl;
          signed = e;
          resolved = er ∙ ap ok (ground arith);
          named = ground arith;
        };
      }
      by_resolve c subject (err d) e er = record {
        visit = record (arriving (some value) path) {
          subject = some (c ∷ subject);
          cleared = true;
        };
        reached = rw (e, er) refl;
        same_path = refl;
        from = λ i h. absurd (ground arith);
      }

      by_verify : (o : Option Text) → verified value ≡ o → Filled (some value) path next
      by_verify none e = record {
        visit = record (arriving (some value) path) { cleared = true };
        reached = rw e refl;
        same_path = refl;
        from = λ i h. absurd (ground arith);
      }
      by_verify (some []) e = record {
        visit = record (arriving (some value) path) { subject = some [] };
        reached = rw e refl;
        same_path = refl;
        from = λ i h. absurd (ground arith);
      }
      by_verify (some (c ∷ subject)) e = by_resolve c subject (resolver (c ∷ subject)) e refl

  -- A request that reaches a handler behind the guard of the root screens has a cookie that
  -- verifies, whose subject resolves to a user of the root role, and that user has no expired
  -- password unless the path is that of the screen that changes it.
  pub root_guard-ForRoot :
      (cookie : Option Text) (path : Text) (v : Visit)
      → site verified resolver login change
          (root_guard verified resolver login change served)
          (arriving cookie path)
        ≡ served v
      → ForRoot cookie path
  root_guard-ForRoot cookie path v h =
      let f = site-Filled cookie path (root_guard verified resolver login change served) in
      let (i, e, allowed, current) = guarded-known f.visit v (sym f.reached ∙ h) in
      record {
        who = i;
        comes = f.from i e;
        is_root = allowed;
        current = ap (λ q. not i.passwd_expired || (q == change)) (sym f.same_path) ∙ current;
      }
