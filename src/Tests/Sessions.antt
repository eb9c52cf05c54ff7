-- ===== src/Tests/Sessions.antt =====
-- A cookie is issued, read and refused, with a signature that is the length of what it signs.
use pilam.Prelude.{
  ◌≡◌, refl, true, false, some, none, [], ◌∷◌, List, All, ℕ, ℤ, pos, ◌+ℤ◌, ltb_ℤ, if◌then◌else◌,
  arith, length, ◌%◌, ◌/◌, ◌-◌, ◌+◌, ◌*◌, ◌<◌, zero, suc, ap, nat_eq, Option,
}
use pilam.Prelude.Int.{floor_div}
use pilam.Prelude.Text.{Text, codes}
use pilam.Prelude.Base64.{IsByte}
use pilam.Date.Gregorian.{times}
use pilam.Errors.{Result, ok}
use pilam.Session.{issue, verify, second}
use pilam.Session.Laws.{verify-issue, verify-IsIssued, IsIssued}
use pilam.Accounts.{principal_of, identity_of}
use pilam.Accounts.Principals.{UuidForm, principal_text, IsCanonical}
use pilam.Middleware.{
  Visit, served, site, root_guard, guard, chain, session, after_verify, identify, subject_of,
  after_resolve, known, require_identity, require_password_change, require_role,
}
use pilam.Accounts.{allows}
use pilam.Schema.{Identity}
use pilam.Middleware.Laws.{arriving, ForRoot, root_guard-ForRoot}
use pilam.Middleware.Cookies.{IsLive, site-issued, resolver, with_identity}
use pilam.Tests.Base.{world, user, me}

abbrev pub sum_of : Text → List ℕ
sum_of s = length s % 256 ∷ []

pub sum_of-bytes : (s : Text) → All IsByte (sum_of s)
sum_of-bytes s = (omega arith, tt)

abbrev issued : ℤ
issued = pos 63900000000500000000

abbrev pub ttl : ℕ
ttl = 3600000000000

ends_at : floor_div (issued +ℤ pos ttl) second ≡ pos 63900003600
unfolding floor_div ◌+ℤ◌
ends_at = refl

verify-issue_example :
    verify sum_of (pos 63900003599000000000) (issue sum_of ttl issued (65 ∷ 66 ∷ [])) ≡ (
      if ltb_ℤ (pos 63900003599000000000) (times (pos 63900003600) second)
      then some (65 ∷ 66 ∷ [])
      else none)
verify-issue_example =
    verify-issue sum_of sum_of-bytes ttl issued (pos 63900003599000000000) (65 ∷ 66 ∷ [])
      63900003600 (omega arith, (omega arith, tt)) ends_at (omega arith)

abbrev cookie_ab : Text
cookie_ab = issue sum_of ttl issued (65 ∷ 66 ∷ [])

accepted : verify sum_of (pos 63900003599000000000) cookie_ab ≡ some (65 ∷ 66 ∷ [])
unfolding times
accepted = verify-issue_example

verify-IsIssued_example : IsIssued sum_of (pos 63900003599000000000) cookie_ab (65 ∷ 66 ∷ [])
verify-IsIssued_example =
    verify-IsIssued sum_of (pos 63900003599000000000) cookie_ab (65 ∷ 66 ∷ []) accepted

-- A text of 36 letters, the last hexadecimal digit first.
abbrev letters : ℕ → ℕ → Text
letters zero n = []
letters (suc w) n = (65 + n % 16) ∷ letters w (n / 16)

abbrev number : Text → ℕ
number [] = 0
number (c ∷ s) = c - 65 + 16 * number s

-- The numbers that so many letters hold.
abbrev reach : ℕ → ℕ
reach zero = 1
reach (suc w) = 16 * reach w

length-letters : (w n : ℕ) → length (letters w n) ≡ w
length-letters zero n = refl
length-letters (suc w) n = ap suc (length-letters w (n / 16))

letters-All : (P : ℕ → Type 0) → ((k : ℕ) → k < 16 → P (65 + k)) → (w n : ℕ) → All P (letters w n)
letters-All P h zero n = tt
letters-All P h (suc w) n = (h (n % 16) (omega arith), letters-All P h w (n / 16))

number-letters : (w n : ℕ) → n < reach w → number (letters w n) ≡ n
number-letters zero n h = omega (arith, h)
number-letters (suc w) n h = omega (arith, number-letters w (n / 16) (omega (arith, h)))

abbrev pub form : UuidForm
form = record { text = letters 36; read = λ s. some (number s) }

pub form-IsCanonical : IsCanonical form
form-IsCanonical = record {
  long = λ id h. length-letters 36 id;
  plain = λ id h. letters-All (λ c. nat_eq c b':' ≡ false) (λ k lt. ground arith) 36 id;
  bytes = λ id h. letters-All (λ c. c < 256) (λ k lt. omega (arith, lt)) 36 id;
  reads = λ id h. ap some (number-letters 36 id (omega (arith, h)));
}

user-IsLive : IsLive user world
user-IsLive = (refl, omega arith, refl, refl, omega arith)

abbrev cookie : Text
cookie = issue sum_of ttl issued (principal_text form (principal_of user))

abbrev later : ℤ
later = pos 63900003000000000000

site-issued_example :
    site
      (verify sum_of later)
      (resolver sum_of form world later)
      []
      (codes "/p")
      served
      (arriving (some cookie) (codes "/users"))
    ≡ (if ltb_ℤ later (times (pos 63900003600) second)
        then served (
            with_identity sum_of form world later cookie
              (codes "/users")
              (principal_text form (principal_of user))
              (identity_of user))
        else served (record (arriving (some cookie) (codes "/users")) { cleared = true }))
site-issued_example =
    site-issued sum_of form world later sum_of-bytes form-IsCanonical ttl issued user 63900003600 []
      (codes "/p") (codes "/users") served user-IsLive ends_at (omega arith)

abbrev read_me : Text → Option Text
read_me value = some value

abbrev find_me : Text → Result Identity
find_me subject = ok me

abbrev seen : Visit
seen = record (arriving (some (codes "me")) (codes "/users")) {
  subject = some (codes "me");
  identity = some me;
}

reaches :
    site read_me find_me [] []
      (root_guard read_me find_me [] [] served)
      (arriving (some (codes "me")) (codes "/users"))
    ≡ served seen
unfolding site root_guard guard chain session after_verify identify subject_of after_resolve known
    require_identity require_password_change require_role allows
reaches = refl

root_guard-ForRoot_example : ForRoot read_me find_me [] [] (some (codes "me")) (codes "/users")
root_guard-ForRoot_example =
    root_guard-ForRoot read_me find_me [] [] (some (codes "me")) (codes "/users") seen reaches
