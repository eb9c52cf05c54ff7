-- ===== src/Password/Laws.antt =====
-- A hash that is written is read back.
use pilam.Prelude.{
  ℕ, ◌≡◌, ◌<◌, ◌≤◌, refl, ap, ◌∙◌, Bool, true, false, not, ◌&&◌, none, some, List, [], ◌∷◌, ◌++◌,
  length, leb, nat_eq, nat_eq_iff, if◌then◌else◌, ◌==◌, List_eq, ℕ_eq, pos, All, arith,
}
use pilam.Prelude.Text.{Text, codes, cut_prefix}
use pilam.Prelude.Numerals.{parse_int, parse_int-itoa, int_limit}
use pilam.Prelude.Base64.{standard, IsByte, IsSound, encode-All, sextet_of}
use pilam.Prelude.Base64 as Base64
use pilam.Prelude.Cuts.{Lacks, All-append, itoa-Lacks}
use pilam.Password.{
  Params, current, salt_len, key_len, is_within, number, cost_text, encode, split, field, natural,
  bounded, params_of, parse_params, sized, decode_parts, decode, hash, compare, verify,
}

standard-IsSound : IsSound standard
unfolding sextet_of
standard-IsSound = record { sextet62 = refl; sextet63 = refl; line62 = refl; line63 = refl }

-- A text without the separator is one part, and is the first part where a separator follows.
split-last : (sep : ℕ) (s : Text) → Lacks sep s → split sep s ≡ s ∷ []
unfolding split
split-last sep [] h = refl
split-last sep (c ∷ s) h = rw (h.0, split-last sep s h.1) refl

split-first : (sep : ℕ) (s t : Text) → Lacks sep s → split sep (s ++ sep ∷ t) ≡ s ∷ split sep t
unfolding split
split-first sep [] t h = ground arith
split-first sep (c ∷ s) t h = rw (h.0, split-first sep s t h.1) refl

field-number : (key n : ℕ) → n < int_limit → field (key ∷ b'=' ∷ number n) key ≡ some n
unfolding field cut_prefix
field-number key n h =
    ap
      (λ b. elim (if b then some (number n) else none) [
        | none ↦ none
        | some d ↦ natural (parse_int d)
      ])
      ((nat_eq_iff key key).1 refl)
    ∙ ap natural (parse_int-itoa (pos n) h)

-- The cost that `decode` takes.
abbrev pub IsBounded : Params → Type 0
IsBounded p =
    (is_within 32768 1048576 p.memory ≡ true)
    × (is_within 2 16 p.time ≡ true)
    × (is_within 1 16 p.threads ≡ true)

-- A number after its key, which has no separator.
pair-Lacks :
    (sep key n : ℕ)
    → nat_eq key sep ≡ false
    → nat_eq b'=' sep ≡ false
    → nat_eq b'-' sep ≡ false
    → leb 48 sep && leb sep 57 ≡ false
    → Lacks sep (key ∷ b'=' ∷ number n)
pair-Lacks sep key n k e m d = (k, (e, itoa-Lacks sep (pos n) d m))

parse_params-text : (p : Params) → IsBounded p → parse_params (cost_text p) ≡ some p
unfolding parse_params params_of bounded
parse_params-text p (m, t, n) =
    let last : Text = b'p' ∷ b'=' ∷ number p.threads in
    let middle : Text = b't' ∷ b'=' ∷ number p.time in
    let first : Text = b'm' ∷ b'=' ∷ number p.memory in
    ap params_of (
      split-first b',' first (middle ++ b',' ∷ last)
        (pair-Lacks b',' b'm' p.memory refl refl refl refl)
      ∙ ap (λ parts. first ∷ parts)
          (split-first b',' middle last (pair-Lacks b',' b't' p.time refl refl refl refl)
            ∙ ap (λ parts. middle ∷ parts)
                (split-last b',' last (pair-Lacks b',' b'p' p.threads refl refl refl refl))))
    ∙ rw
        (
          field-number b'm' p.memory (ground arith),
          field-number b't' p.time (ground arith),
          field-number b'p' p.threads (ground arith),
          m,
          t,
          n,
        )
        refl

cost_text-Lacks : (p : Params) → Lacks b'$' (cost_text p)
cost_text-Lacks p =
    All-append (λ c. nat_eq c b'$' ≡ false) (b'm' ∷ b'=' ∷ number p.memory) _
      (pair-Lacks b'$' b'm' p.memory refl refl refl refl)
      (
        refl,
        All-append (λ c. nat_eq c b'$' ≡ false) (b't' ∷ b'=' ∷ number p.time) _
            (pair-Lacks b'$' b't' p.time refl refl refl refl)
            (refl, pair-Lacks b'$' b'p' p.threads refl refl refl refl),
      )

base64-Lacks : (bytes : List ℕ) → All IsByte bytes → Lacks b'$' (Base64.encode standard bytes)
unfolding sextet_of
base64-Lacks bytes h = encode-All standard b'$' standard-IsSound refl bytes h

-- The six parts of a hash.
split-encode :
    (version : ℕ) (p : Params) (salt key : List ℕ)
    → All IsByte salt
    → All IsByte key
    → split b'$' (encode version p salt key)
      ≡ []
        ∷ codes "argon2id"
        ∷ (b'v' ∷ b'=' ∷ number version)
        ∷ cost_text p
        ∷ Base64.encode standard salt
        ∷ Base64.encode standard key
        ∷ []
unfolding encode
split-encode version p salt key hs hk =
    let key_text = Base64.encode standard key in
    let salt_text = Base64.encode standard salt in
    let v : Text = b'v' ∷ b'=' ∷ number version in
    let from_salt : Text = salt_text ++ b'$' ∷ key_text in
    let from_cost : Text = cost_text p ++ b'$' ∷ from_salt in
    let from_version : Text = v ++ b'$' ∷ from_cost in
    split-first b'$' [] (codes "argon2id" ++ b'$' ∷ from_version) tt
    ∙ ap (λ l. [] ∷ l)
        (split-first b'$' (codes "argon2id") from_version
            (refl, (refl, (refl, (refl, (refl, (refl, (refl, (refl, tt))))))))
          ∙ ap (λ l. codes "argon2id" ∷ l)
              (split-first b'$' v from_cost (pair-Lacks b'$' b'v' version refl refl refl refl)
                ∙ ap (λ l. v ∷ l)
                    (split-first b'$' (cost_text p) from_salt (cost_text-Lacks p)
                      ∙ ap (λ l. cost_text p ∷ l)
                          (split-first b'$' salt_text key_text (base64-Lacks salt hs)
                            ∙ ap (λ l. salt_text ∷ l)
                                (split-last b'$' key_text (base64-Lacks key hk))))))

-- A hash of a cost within the bounds, with a version of argon2 that an int64 holds, a salt of at
-- least 8 bytes and a key of 32 to 64, is read back as the cost, the salt and the key that were
-- written.
pub decode-encode :
    (version : ℕ) (p : Params) (salt key : List ℕ)
    → version < int_limit
    → IsBounded p
    → All IsByte salt
    → All IsByte key
    → 8 ≤ length salt
    → 32 ≤ length key
    → length key ≤ 64
    → decode version (encode version p salt key)
      ≡ some (record { params = p; salt = salt; key = key })
unfolding decode decode_parts sized
decode-encode version p salt key small bounds hs hk long_salt long_key short_key =
    ap (decode_parts version) (split-encode version p salt key hs hk)
    ∙ rw
        (
          field-number b'v' version small,
          (nat_eq_iff version version).1 refl,
          parse_params-text p bounds,
          Base64.decode-encode standard standard-IsSound salt hs,
          Base64.decode-encode standard standard-IsSound key hk,
        )
        (ground arith)

if_not-pair :
    (b : Bool) → ◌≡◌ {A = Bool × Bool} (if not b then (false, false) else (true, false)) (b, false)
if_not-pair true = refl
if_not-pair false = refl

-- For a salt of 16 bytes and a derivation that gives as many bytes as it is asked for, a
-- password is accepted against the hash of another exactly when the two derive the same 32
-- bytes, without an error and without a need to hash again.
pub verify-hash :
    (version : ℕ) (derive : Params → Text → List ℕ → ℕ → List ℕ) (salt : List ℕ)
    (plain tried : Text)
    → version < int_limit
    → ((p : Params) (s : Text) (salt : List ℕ) (n : ℕ) → All IsByte (derive p s salt n))
    → ((p : Params) (s : Text) (salt : List ℕ) (n : ℕ) → length (derive p s salt n) ≡ n)
    → All IsByte salt
    → length salt ≡ salt_len
    → verify version derive (hash version derive salt plain) tried
      ≡ some (derive current tried salt key_len == derive current plain salt key_len, false)
unfolding verify hash compare
verify-hash version derive salt plain tried small bytes long hs ls =
    let key = derive current plain salt key_len in
    let of_key : length key ≡ 32 = long current plain salt key_len in
    ap (λ o. elim o [ none ↦ none | some s ↦ some (compare version derive tried s) ])
      (decode-encode version current salt key small (refl, refl, refl) hs (bytes _ _ _ _)
        (omega (arith, ls)) (omega (arith, of_key)) (omega (arith, of_key)))
    ∙ rw (of_key, ls) (ap some (if_not-pair _))
