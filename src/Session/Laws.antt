-- ===== src/Session/Laws.antt =====
-- What `Verify` makes of a value that `Issue` made, and what any value that it accepts is.
use pilam.Prelude.{
  ℕ, ◌≡◌, ◌<◌, refl, sym, ap, ◌∙◌, true, false, not, Option, none, some, List, [], ◌∷◌, ◌++◌, any,
  nat_eq, if◌then◌else◌, List_eq, ℕ_eq, ℤ, pos, ◌+ℤ◌, ◌-ℤ◌, ltb_ℤ, All, arith,
}
use mathlib.Core.List.{append_assoc}
use pilam.Prelude.Int.{int_laws, floor_div}
use pilam.Date.Gregorian.{times}
use pilam.Prelude.Text.{Text, itoa, cut}
use pilam.Prelude.Numerals.{parse_int, IsInt64, parse_int-itoa}
use pilam.Prelude.Base64.{url_safe, IsByte, IsSound, decode-encode, encode-All, sextet_of}
use pilam.Prelude.Cuts.{Lacks, cut-Lacks, cut-join, itoa-Lacks}
use pilam.Session.{
  second, epoch, wrap_int64, separator, encode, decode, unix_seconds, unix_instant, payload, Parts,
  split, split_first, split_rest, issue, signed_part, is_signed, unexpired, verify_parts, verify,
}

pub url_safe-IsSound : IsSound url_safe
unfolding sextet_of
url_safe-IsSound = record { sextet62 = refl; sextet63 = refl; line62 = refl; line63 = refl }

encode-Lacks : (bytes : List ℕ) → All IsByte bytes → Lacks separator (encode bytes)
unfolding sextet_of
encode-Lacks bytes h = encode-All url_safe separator url_safe-IsSound refl bytes h

any-Lacks : (d : ℕ) (s : Text) → Lacks d s → any (λ c. nat_eq c d) s ≡ false
any-Lacks d [] h = refl
any-Lacks d (c ∷ s) h = rw (h.0, any-Lacks d s h.1) refl

split-parts :
    (a b c : Text)
    → Lacks separator a
    → Lacks separator b
    → Lacks separator c
    → split ((a ++ separator ∷ b) ++ separator ∷ c)
      ≡ some (record { subject = a; expiry = b; signature = c })
unfolding split split_first split_rest
split-parts a b c ha hb hc =
    ap split (append_assoc a (separator ∷ b) (separator ∷ c))
    ∙ (ap split_first (cut-Lacks separator a (b ++ separator ∷ c) ha)
        ∙ (ap (split_rest a) (cut-Lacks separator b c hb) ∙ rw (any-Lacks separator c hc) refl))

seconds-IsInt64 : (n : ℕ) → n < 9223372036854775808 → IsInt64 (pos n -ℤ epoch)
unfolding ◌-ℤ◌
seconds-IsInt64 n h = ground arith

seconds-back : (n : ℕ) → (pos n -ℤ epoch) +ℤ epoch ≡ pos n
seconds-back n = omega int_laws

-- The second of an instant is read back as the start of that second.
unix-second :
    (i : ℤ) (n : ℕ)
    → floor_div i second ≡ pos n
    → n < 9223372036854775808
    → IsInt64 (unix_seconds i) × (unix_instant (unix_seconds i) ≡ times (pos n) second)
unfolding unix_seconds unix_instant wrap_int64
unix-second i n e h = rw e (seconds-IsInt64 n h, rw (seconds-back n) (ground arith))

module _ (sign : Text → List ℕ) (bytes : (s : Text) → All IsByte (sign s)) where
  -- What `Verify` comes to for a value of sound parts with its own signature.
  verify-signed :
      (now : ℤ) (subject : List ℕ) (seconds : ℤ)
      → All IsByte subject
      → IsInt64 seconds
      → verify sign now (
          (encode subject ++ separator ∷ itoa seconds)
          ++ separator ∷ encode (sign (encode subject ++ separator ∷ itoa seconds)))
        ≡ unexpired sign now (some subject) (some seconds)
  unfolding verify verify_parts is_signed
  verify-signed now subject seconds hs h =
      let mac = sign (encode subject ++ separator ∷ itoa seconds) in
      ap (verify_parts sign now) (
        split-parts (encode subject) (itoa seconds) (encode mac) (encode-Lacks subject hs)
          (itoa-Lacks separator seconds refl refl) (encode-Lacks mac (bytes _)))
      ∙ rw
          (
            decode-encode url_safe url_safe-IsSound mac (bytes _),
            decode-encode url_safe url_safe-IsSound subject hs,
            parse_int-itoa seconds h,
            (List_eq.equal_iff mac mac).1 refl,
          )
          refl

  -- A value that was issued at one time is read at any time as its subject until the second in
  -- which its lifetime ends, and as nothing from the start of that second on, when that second
  -- is no more than an int64 away from year 1.
  pub verify-issue :
      (ttl : ℕ) (issued now : ℤ) (subject : List ℕ) (n : ℕ)
      → All IsByte subject
      → floor_div (issued +ℤ pos ttl) second ≡ pos n
      → n < 9223372036854775808
      → verify sign now (issue sign ttl issued subject)
        ≡ (if ltb_ℤ now (times (pos n) second) then some subject else none)
  unfolding issue payload unexpired
  verify-issue ttl issued now subject n hs e h =
      let (fits, start) = unix-second (issued +ℤ pos ttl) n e h in
      verify-signed now subject (unix_seconds (issued +ℤ pos ttl)) hs fits ∙ rw start (ground arith)

module _ (sign : Text → List ℕ) where
  -- The parts of a value that is accepted.
  pub record IsIssued (now : ℤ) (value : Text) (subject : List ℕ) : Type 0 where
    pub parts : Parts
    pub seconds : ℤ
    pub whole : value ≡ signed_part parts ++ separator ∷ parts.signature
    pub signed : decode parts.signature ≡ some (sign (signed_part parts))
    pub carried : decode parts.subject ≡ some subject
    pub expiry : parse_int parts.expiry ≡ some seconds
    pub lasts : ltb_ℤ now (unix_instant seconds) ≡ true

  verify_parts-IsIssued :
      (now : ℤ) (value : Text) (subject : List ℕ) (p : Parts)
      → value ≡ signed_part p ++ separator ∷ p.signature
      → verify_parts sign now (some p) ≡ some subject
      → IsIssued now value subject
  unfolding verify_parts is_signed unexpired
  verify_parts-IsIssued now value subject p whole h =
      by_parts (decode p.signature) (decode p.subject) (parse_int p.expiry) refl refl refl h
    where
      by_parts :
          (mac carried : Option (List ℕ)) (seconds : Option ℤ)
          → decode p.signature ≡ mac
          → decode p.subject ≡ carried
          → parse_int p.expiry ≡ seconds
          → (if not (is_signed sign p mac) then none else unexpired sign now carried seconds)
            ≡ some subject
          → IsIssued now value subject
      by_parts none c s em ec es h = absurd (ground arith)
      by_parts (some mac) none s em ec es h = absurd (ground arith)
      by_parts (some mac) (some c) none em ec es h = absurd (ground arith)
      by_parts (some mac) (some c) (some s) em ec es h = record {
        parts = p;
        seconds = s;
        whole = whole;
        signed = em ∙ ap some ((List_eq.equal_iff mac _).0 (ground arith));
        carried = ec ∙ ground arith;
        expiry = es;
        lasts = ground arith;
      }

  split-whole :
      (value : Text) (p : Parts)
      → split value ≡ some p
      → value ≡ signed_part p ++ separator ∷ p.signature
  unfolding split split_first split_rest
  split-whole value p h = by_first (cut separator value) refl h
    where
      by_rest :
          (a rest : Text) (o : Option (Text × Text))
          → value ≡ a ++ separator ∷ rest
          → cut separator rest ≡ o
          → split_rest a o ≡ some p
          → value ≡ signed_part p ++ separator ∷ p.signature
      by_rest a rest none whole e h = absurd (ground arith)
      by_rest a rest (some (b, c)) whole e h =
          let parts : record { subject = a; expiry = b; signature = c } ≡ p = ground arith in
          whole
          ∙ (ap (λ r. a ++ separator ∷ r) (cut-join separator rest b c e)
              ∙ (sym (append_assoc a (separator ∷ b) (separator ∷ c))
                  ∙ ap (λ (q : Parts). signed_part q ++ separator ∷ q.signature) parts))

      by_first :
          (o : Option (Text × Text))
          → cut separator value ≡ o
          → split_first o ≡ some p
          → value ≡ signed_part p ++ separator ∷ p.signature
      by_first none e h = absurd (ground arith)
      by_first (some (a, rest)) e h =
          by_rest a rest (cut separator rest) (cut-join separator value a rest e) refl h

  -- A value that is accepted carries the signature of its first two parts, and its subject and
  -- its expiry, which is later than the clock, are what those parts hold.
  pub verify-IsIssued :
      (now : ℤ) (value : Text) (subject : List ℕ)
      → verify sign now value ≡ some subject
      → IsIssued now value subject
  unfolding verify verify_parts
  verify-IsIssued now value subject h = by_split (split value) refl h
    where
      by_split :
          (o : Option Parts)
          → split value ≡ o
          → verify_parts sign now o ≡ some subject
          → IsIssued now value subject
      by_split none e h = absurd (ground arith)
      by_split (some p) e h = verify_parts-IsIssued now value subject p (split-whole value p e) h
