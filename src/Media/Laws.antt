-- ===== src/Media/Laws.antt =====
-- The keys that the store issues are valid, and name the type of their content.
use pilam.Prelude.{
  ℕ, zero, suc, ◌+◌, ◌<◌, ◌≤◌, ◌/◌, ◌%◌, ◌≡◌, refl, sym, ap, ◌∙◌, Bool, true, false, ◌||◌, none,
  some, List, [], ◌∷◌, ◌++◌, length, take, skip, all, All, if◌then◌else◌, nat_eq, ◌==◌, List_eq,
  ℕ_eq, arith, Bool-cases, inl, inr,
}
use pilam.Prelude.Text.{Text, cut_prefix}
use pilam.Prelude.Base64.{IsByte}
use pilam.Media.{
  Kind, image, document, kind_text, is_hex, after_hex, after_code, ends, is_under, is_valid_key,
  hex_digit, hex_text, key_of, types, extension_in, accepts, scan_ext, type_in, content_type_of,
}

abbrev AllHex : Text → Type 0
AllHex s = All (λ c. is_hex c ≡ true) s

hex_digit-hex : (n : ℕ) → n < 16 → is_hex (hex_digit n) ≡ true
unfolding hex_digit
hex_digit-hex n h = ground arith

hex_text-AllHex : (bytes : List ℕ) → All IsByte bytes → AllHex (hex_text bytes)
unfolding hex_text
hex_text-AllHex [] h = tt
hex_text-AllHex (b ∷ bytes) h = (
  hex_digit-hex (b / 16) (omega (arith, h.0)),
  (hex_digit-hex (b % 16) (omega arith), hex_text-AllHex bytes h.1),
)

-- A run of digits is passed over.
after_hex-run : (s t : Text) → AllHex s → after_hex (length s) (some (s ++ t)) ≡ some t
unfolding after_hex
after_hex-run [] t h = refl
after_hex-run (c ∷ s) t h =
    ap (λ b. after_hex (length s) (if b then some (s ++ t) else none)) h.0 ∙ after_hex-run s t h.1

hex_text-length : (bytes : List ℕ) → length (hex_text bytes) ≡ length bytes + length bytes
unfolding hex_text
hex_text-length [] = refl
hex_text-length (b ∷ bytes) = omega (arith, hex_text-length bytes)

after_hex-part :
    (n : ℕ) (s t : Text) → AllHex s → length s ≡ n → after_hex n (some (s ++ t)) ≡ some t
after_hex-part n s t h e = ap (λ n. after_hex n (some (s ++ t))) (sym e) ∙ after_hex-run s t h

take-AllHex : (n : ℕ) (s : Text) → AllHex s → AllHex (take n s)
take-AllHex zero s h = tt
take-AllHex (suc n) [] h = tt
take-AllHex (suc n) (c ∷ s) h = (h.0, take-AllHex n s h.1)

skip-AllHex : (n : ℕ) (s : Text) → AllHex s → AllHex (skip n s)
skip-AllHex zero s h = h
skip-AllHex (suc n) [] h = tt
skip-AllHex (suc n) (c ∷ s) h = skip-AllHex n s h.1

length-take : (n : ℕ) (s : Text) → n ≤ length s → length (take n s) ≡ n
length-take zero s h = refl
length-take (suc n) [] h = absurd (omega arith)
length-take (suc n) (c ∷ s) h = ap suc (length-take n s (omega arith))

length-skip : (n : ℕ) (s : Text) → n ≤ length s → n + length (skip n s) ≡ length s
length-skip zero s h = omega arith
length-skip (suc n) [] h = absurd (omega arith)
length-skip (suc n) (c ∷ s) h = omega (arith, length-skip n s (omega arith))

scan_ext-run : (found s t : Text) → AllHex s → scan_ext found (s ++ t) ≡ scan_ext found t
unfolding scan_ext
scan_ext-run found [] t h = refl
scan_ext-run found (c ∷ s) t h =
    let slash : nat_eq c b'/' ≡ false = ground (arith, h.0) in
    let dot : nat_eq c b'.' ≡ false = ground (arith, h.0) in
    ap (λ b. scan_ext (if b then [] else if nat_eq c b'.' then c ∷ (s ++ t) else found) (s ++ t))
      slash
    ∙ (ap (λ b. scan_ext (if b then c ∷ (s ++ t) else found) (s ++ t)) dot
        ∙ scan_ext-run found s t h.1)

-- The end of a key, under the directory of its kind: the two shards, the digits and the extension.
abbrev tail_of : List ℕ → Text → Text
tail_of digest ext =
    let hex_digest = hex_text digest in
    take 2 hex_digest ++ (b'/' ∷ (take 2 (skip 2 hex_digest) ++ (b'/' ∷ (hex_digest ++ ext))))

-- What the pattern makes of the end of a key.
abbrev is_tail : Text → Bool
is_tail s = ends (
    after_code b'.'
      (after_hex 64 (after_code b'/' (after_hex 2 (after_code b'/' (after_hex 2 (some s)))))))

module _ (digest : List ℕ) (bytes : All IsByte digest) (long : length digest ≡ 32) where
  abbrev hex : Text
  hex = hex_text digest

  hex-long : length hex ≡ 64
  hex-long = omega (arith, hex_text-length digest, long)

  is_tail-key : (ext : Text) → is_tail (tail_of digest ext) ≡ ends (after_code b'.' (some ext))
  unfolding after_code
  is_tail-key ext =
      let all_hex = hex_text-AllHex digest bytes in
      let rest = take 2 (skip 2 hex) ++ (b'/' ∷ (hex ++ ext)) in
      ap
        (λ o.
          ends (after_code b'.' (after_hex 64 (after_code b'/' (after_hex 2 (after_code b'/' o))))))
        (after_hex-part 2 (take 2 hex) (b'/' ∷ rest) (take-AllHex 2 hex all_hex)
          (length-take 2 hex (omega (arith, hex-long))))
      ∙ (ap (λ o. ends (after_code b'.' (after_hex 64 (after_code b'/' o))))
            (after_hex-part 2 (take 2 (skip 2 hex)) (b'/' ∷ (hex ++ ext))
              (take-AllHex 2 (skip 2 hex) (skip-AllHex 2 hex all_hex))
              (length-take 2 (skip 2 hex)
                (omega (arith, hex-long, length-skip 2 hex (omega (arith, hex-long))))))
          ∙ ap (λ o. ends (after_code b'.' o)) (after_hex-part 64 hex ext all_hex hex-long))

  scan_ext-key : (ext : Text) → scan_ext [] (tail_of digest ext) ≡ scan_ext [] ext
  unfolding scan_ext
  scan_ext-key ext =
      let all_hex = hex_text-AllHex digest bytes in
      scan_ext-run [] (take 2 hex) _ (take-AllHex 2 hex all_hex)
      ∙ (scan_ext-run [] (take 2 (skip 2 hex)) _
            (take-AllHex 2 (skip 2 hex) (skip-AllHex 2 hex all_hex))
          ∙ scan_ext-run [] hex ext all_hex)

  -- A key with an extension is valid, and has its type, where the pattern and the table say so.
  key_of-ends :
      (kind : Kind) (ext : Text)
      → ends (after_code b'.' (some ext)) ≡ true
      → (is_valid_key (key_of kind digest ext) ≡ true)
        × (content_type_of (key_of kind digest ext)
            ≡ type_in (types image ++ types document) (scan_ext [] ext))
  unfolding is_valid_key is_under cut_prefix key_of kind_text content_type_of scan_ext
  key_of-ends image ext h = (
    ap (λ b. b || false) (is_tail-key ext ∙ h),
    ap (type_in (types image ++ types document)) (scan_ext-key ext),
  )
  key_of-ends document ext h =
      (is_tail-key ext ∙ h, ap (type_in (types image ++ types document)) (scan_ext-key ext))

  -- A pair of the policies.
  abbrev Fits : Kind → Text × Text → Type 0
  Fits kind p =
      (is_valid_key (key_of kind digest p.1) ≡ true)
      × (content_type_of (key_of kind digest p.1) ≡ p.0)

  fits :
      (kind : Kind) (p : Text × Text)
      → ends (after_code b'.' (some p.1)) ≡ true
      → type_in (types image ++ types document) (scan_ext [] p.1) ≡ p.0
      → Fits kind p
  fits kind p h e = let both = key_of-ends kind p.1 h in (both.0, both.1 ∙ e)

  types-All : (kind : Kind) → All (Fits kind) (types kind)
  unfolding types type_in scan_ext ends after_code
  types-All image = (
    fits image _ refl refl,
    (fits image _ refl refl, (fits image _ refl refl, (fits image _ refl refl, tt))),
  )
  types-All document = (fits document _ refl refl, (fits document _ refl refl, tt))

  extension_in-All :
      (P : Text × Text → Type 0) (pairs : List (Text × Text)) (content_type ext : Text)
      → All P pairs
      → extension_in pairs content_type ≡ some ext
      → P (content_type, ext)
  unfolding extension_in
  extension_in-All P [] content_type ext all h = absurd (ground arith)
  extension_in-All P ((t, e) ∷ pairs) content_type ext all h =
      let by : (b : Bool)
          → (t == content_type) ≡ b
          → (if b then some e else extension_in pairs content_type) ≡ some ext =
        λ b same. ap (λ b. if b then some e else extension_in pairs content_type) (sym same) ∙ h in
      elim (Bool-cases (t == content_type)) [
        | inl same ↦
            let first : t ≡ content_type = (List_eq.equal_iff t content_type).0 same in
            let second : e ≡ ext = ground (arith, by true same) in rw (sym first, sym second) all.0
        | inr apart ↦ extension_in-All P pairs content_type ext all.1 (by false apart)
      ]

  -- The key of content of an accepted type, by a digest of 32 bytes, is valid, and names that
  -- type.
  pub key_of-Fits :
      (kind : Kind) (content_type ext : Text)
      → accepts kind content_type ≡ some ext
      → (is_valid_key (key_of kind digest ext) ≡ true)
        × (content_type_of (key_of kind digest ext) ≡ content_type)
  unfolding accepts
  key_of-Fits kind content_type ext h =
      extension_in-All (Fits kind) (types kind) content_type ext (types-All kind) h
