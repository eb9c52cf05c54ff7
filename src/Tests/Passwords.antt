-- ===== src/Tests/Passwords.antt =====
-- A password is hashed and tried, with a derivation that repeats one byte of the password and salt.
use pilam.Prelude.{
  ℕ, zero, suc, ◌≡◌, ◌+◌, ◌*◌, ◌%◌, ◌<◌, refl, ap, false, some, List, [], ◌∷◌, length, All, ◌==◌,
  List_eq, ℕ_eq, arith,
}
use pilam.Prelude.Text.{Text, codes}
use pilam.Prelude.Base64.{IsByte}
use pilam.Password.{Params, current, key_len, encode, decode, hash, verify}
use pilam.Password.Laws.{decode-encode, verify-hash}

abbrev fill : ℕ → ℕ → List ℕ
fill zero b = []
fill (suc n) b = b ∷ fill n b

fill-bytes : (n b : ℕ) → b < 256 → All IsByte (fill n b)
fill-bytes zero b h = tt
fill-bytes (suc n) b h = (h, fill-bytes n b h)

length-fill : (n b : ℕ) → length (fill n b) ≡ n
length-fill zero b = refl
length-fill (suc n) b = ap suc (length-fill n b)

abbrev total : List ℕ → ℕ
total [] = 0
total (x ∷ xs) = x + total xs

abbrev derive : Params → Text → List ℕ → ℕ → List ℕ
derive p plain salt n = fill n ((p.time * total plain + total salt) % 256)

abbrev salt : List ℕ
salt = fill 16 200

abbrev key : List ℕ
key = fill 32 7

decode-encode_example :
    decode 19 (encode 19 current salt key)
    ≡ some (record { params = current; salt = salt; key = key })
decode-encode_example =
    decode-encode 19 current salt key (omega arith) (refl, refl, refl)
      (fill-bytes 16 200 (omega arith)) (fill-bytes 32 7 (omega arith)) (omega arith) (omega arith)
      (omega arith)

verify-hash_example :
    verify 19 derive (hash 19 derive salt (codes "right")) (codes "wrong")
    ≡ some (
      derive current (codes "wrong") salt key_len == derive current (codes "right") salt key_len,
      false,
    )
verify-hash_example =
    verify-hash 19 derive salt (codes "right") (codes "wrong") (omega arith)
      (λ p s salt n. fill-bytes n _ (omega arith)) (λ p s salt n. length-fill n _)
      (fill-bytes 16 200 (omega arith)) refl
