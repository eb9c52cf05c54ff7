-- ===== src/Media/Store/Laws.antt =====
-- What a run of `Put` leaves in the directory, whatever fails in it.
use pilam.Prelude.{
  ℕ, ◌+◌, ◌-◌, ◌≡◌, ◌≤◌, refl, sym, ap, ◌∙◌, Bool, true, false, not, ◌&&◌, ◌||◌, ◌⊎◌, Option, none,
  some, List, [], ◌∷◌, length, take, if◌then◌else◌, ◌==◌, List_eq, ℕ_eq, ltb, arith, All,
  Bool-cases, inl, inr, suc, zero,
}
use mathlib.Core.Path.{subst}
use pilam.Prelude.Text.{Text}
use pilam.Prelude.Base64.{IsByte}
use pilam.Media.{Kind, accepts, key_of, is_valid_key, content_type_of}
use pilam.Media.Laws.{key_of-Fits}
use pilam.Media.Store.{
  invalid_key, not_found, failed, OpenFaults, Outcome, done, refused, Blob, Stored, Disk, Faults,
  file_of, is_there, publish, max_size, sniff_len, publish_all, kept_bytes, stored_as, write_temp,
  write_typed, put_content, put, discard, opened, open_blob,
}

if_twice :
    {A : Type 0} (b : Bool) (x y z : A)
    → (if b then x else z) ≡ (if b then x else (if b then y else z))
if_twice true x y z = refl
if_twice false x y z = refl

-- A property of both branches, each with what its test says.
pub if_by :
    {A : Type 0} (P : A → Type 0) (b : Bool) {x y : A}
    → (b ≡ true → P x)
    → (b ≡ false → P y)
    → P (if b then x else y)
if_by P true h k = h refl
if_by P false h k = k refl

-- Two tests of which not both hold.
if_swap :
    {A : Type 0} (b c : Bool) (x y z : A)
    → (b ≡ true → c ≡ true → ⊥)
    → (if b then x else (if c then y else z)) ≡ (if c then y else (if b then x else z))
if_swap true true x y z h = absurd (h refl refl)
if_swap true false x y z h = refl
if_swap false c x y z h = refl

pub file_of-publish :
    (key k : Text) (bytes : List ℕ) (files : List (Text × List ℕ))
    → file_of k (publish key bytes files) ≡ (if key == k then some bytes else file_of k files)
unfolding publish
file_of-publish key k bytes [] = refl
file_of-publish key k bytes ((j, b) ∷ files) = elim (Bool-cases (j == key)) [
  | inl same ↦
      let e : j ≡ key = (List_eq.equal_iff j key).0 same in
      ap (λ c. file_of k (if c then (j, bytes) ∷ files else (j, b) ∷ publish key bytes files)) same
      ∙ (ap (λ i. if i == k then some bytes else file_of k files) e
          ∙ (if_twice (key == k) (some bytes) (some b) (file_of k files)
              ∙ ap
                  (λ i.
                    if key == k then some bytes else (if i == k then some b else file_of k files))
                  (sym e)))
  | inr apart ↦
      ap (λ c. file_of k (if c then (j, bytes) ∷ files else (j, b) ∷ publish key bytes files)) apart
      ∙ (ap (λ o. if j == k then some b else o) (file_of-publish key k bytes files)
          ∙ if_swap (j == k) (key == k) (some b) (some bytes) (file_of k files) (λ h i.
            let first : j ≡ k = (List_eq.equal_iff j k).0 h in
            let second : key ≡ k = (List_eq.equal_iff key k).0 i in
            let met : (j == key) ≡ true = (List_eq.equal_iff j key).1 (first ∙ sym second) in cc))
]

-- The content of a blob is stored under the key: a file is there with these bytes, and every other key
-- finds what it found.
abbrev pub IsStored : Text → List ℕ → Disk → Disk → Type 0
IsStored key bytes d d' =
    (k : Text) → file_of k d'.files ≡ (if key == k then some bytes else file_of k d.files)

there-IsStored :
    (key : Text) (bytes : List ℕ) (d : Disk)
    → file_of key d.files ≡ some bytes
    → IsStored key bytes d d
there-IsStored key bytes d h k = elim (Bool-cases (key == k)) [
  | inl same ↦ rw same (ap (λ i. file_of i d.files) (sym ((List_eq.equal_iff key k).0 same)) ∙ h)
  | inr apart ↦ rw apart refl
]

there-some :
    (o : Option (List ℕ)) (b : Bool)
    → (b && is_there o) ≡ true
    → (bytes : List ℕ) × (o ≡ some bytes)
there-some (some bytes) b h = (bytes, refl)
there-some none b h = absurd (ground arith)

take-suc : (n : ℕ) (bytes : List ℕ) → length (take (suc n) bytes) ≤ n → take (suc n) bytes ≡ bytes
take-suc n [] h = refl
take-suc zero (b ∷ bytes) h = absurd (omega (arith, h))
take-suc (suc n) (b ∷ bytes) h = ap (λ l. b ∷ l) (take-suc n bytes (omega (arith, h)))

take_all : (n : ℕ) (bytes : List ℕ) → length (take (n + 1) bytes) ≤ n → take (n + 1) bytes ≡ bytes
take_all n bytes h =
    let e : n + 1 ≡ suc n = omega arith in
    ap (λ m. take m bytes) e
    ∙ take-suc n bytes (omega (arith, h, ap (λ m. length (take m bytes)) e))

module _ (detect : List ℕ → Text) (digest : List ℕ → List ℕ) (f : Faults) (kind : Kind)
    (name : Text) (content : List ℕ) (d : Disk) where
  abbrev pub content_type : Text
  content_type = detect (take sniff_len content)

  -- The count of temporary files is as it was, or one could not be removed.
  abbrev pub IsCleared : ℕ → Type 0
  IsCleared temps = (temps ≡ d.temps) ⊎ ((f.no_remove ≡ true) × (temps ≡ d.temps + 1))

  -- A refusal leaves the files as they were. A success is of an accepted type within the limit, and
  -- stores the content under the key of its digest.
  abbrev pub Leaves : Outcome Stored × Disk → Type 0
  Leaves (refused e, d') = (d'.files ≡ d.files) × IsCleared d'.temps
  Leaves (done s, d') =
      (ext : Text) × (accepts kind content_type ≡ some ext)
      × (length content ≤ max_size kind)
      × (s ≡ stored_as detect digest f kind ext content_type name content)
      × IsStored s.key content d d'
      × IsCleared d'.temps

  -- No other content is stored under a key of the digest of this one.
  abbrev pub IsAlone : Type 0
  IsAlone =
      (ext : Text) (bytes : List ℕ)
      → file_of (key_of kind (digest content) ext) d.files ≡ some bytes
      → bytes ≡ content

  abbrev with_temp : Disk
  with_temp = record d { temps = d.temps + 1 }

  discard-IsCleared : IsCleared (discard detect digest f with_temp).temps
  discard-IsCleared = elim (Bool-cases f.no_remove) [
    | inl stuck ↦ inr (stuck, rw stuck refl)
    | inr free ↦ inl (rw free (omega arith))
  ]

  cleared : Leaves (refused failed, discard detect digest f with_temp)
  cleared = (refl, discard-IsCleared)

  module _ (ext : Text) (accepted : accepts kind content_type ≡ some ext) (alone : IsAlone) where
    abbrev stored : Stored
    stored =
        stored_as detect digest f kind ext content_type name
          (kept_bytes detect digest f kind content)

    abbrev bytes : List ℕ
    bytes = kept_bytes detect digest f kind content

    whole : length bytes ≤ max_size kind → bytes ≡ content
    whole short = take_all (max_size kind) content short

    -- The content stands under its key, as the files that are found show.
    stored-IsStored :
        (files : List (Text × List ℕ)) (temps : ℕ)
        → IsCleared temps
        → length bytes ≤ max_size kind
        → ((k : Text)
            → file_of k files ≡ (if stored.key == k then some bytes else file_of k d.files))
        → Leaves (done stored, record { files = files; temps = temps })
    stored-IsStored files temps clear short finds = (
      ext,
      accepted,
      omega (arith, short, ap length (whole short)),
      ap (stored_as detect digest f kind ext content_type name) (whole short),
      λ k. finds k ∙ ap (λ b. if stored.key == k then some b else file_of k d.files) (whole short),
      clear,
    )

    publish_all-Leaves :
        length (kept_bytes detect digest f kind content) ≤ max_size kind
        → Leaves
            (publish_all detect digest f stored (kept_bytes detect digest f kind content) with_temp)
    unfolding publish_all
    publish_all-Leaves short =
        if_by Leaves f.no_mode (λ _. cleared)
          (λ _.
            if_by Leaves f.no_sync (λ _. cleared)
              (λ _.
                if_by Leaves f.no_close (λ _. cleared)
                  (λ _.
                    if_by Leaves f.no_dir (λ _. cleared)
                      (λ _.
                        if_by Leaves f.no_rename (λ _. cleared)
                          (λ _.
                            stored-IsStored (publish stored.key bytes d.files) (d.temps + 1 - 1)
                              (inl (omega arith)) short
                              (λ k. file_of-publish stored.key k bytes d.files))))))

    write_temp-Leaves :
        Leaves (write_temp detect digest f kind ext content_type name content with_temp)
    unfolding write_temp
    write_temp-Leaves =
        if_by Leaves f.unwritten (λ _. cleared)
          (λ _.
            if_by Leaves (ltb (max_size kind) (length (kept_bytes detect digest f kind content)))
              (λ _. cleared)
              (λ fits.
                let short : length (kept_bytes detect digest f kind content) ≤ max_size kind =
                  ground (arith, fits) in
                if_by Leaves f.cancelled_late (λ _. cleared)
                  (λ _.
                    if_by Leaves (not f.unseen && is_there (file_of stored.key d.files))
                      (λ there.
                        let (found, e) = there-some _ (not f.unseen) there in
                        let same : found ≡ content = alone ext found (
                          ap (λ c. file_of (key_of kind (digest c) ext) d.files) (sym (whole short))
                          ∙ e) in
                        let kept =
                          there-IsStored stored.key bytes d
                            (e ∙ ap some (same ∙ sym (whole short))) in
                        stored-IsStored d.files (discard detect digest f with_temp).temps
                          discard-IsCleared short kept)
                      (λ _. publish_all-Leaves short))))

  put_content-Leaves : IsAlone → Leaves (put_content detect digest f kind name content d)
  unfolding put_content write_typed
  put_content-Leaves alone =
      if_by Leaves f.cancelled (λ _. (refl, inl refl))
        (λ _.
          if_by Leaves f.unread (λ _. (refl, inl refl))
            (λ _. by_type (accepts kind content_type) refl))
    where
      by_type :
          (o : Option Text)
          → accepts kind content_type ≡ o
          → Leaves (write_typed detect digest f kind o content_type name content d)
      by_type none e = (refl, inl refl)
      by_type (some ext) e =
          if_by Leaves f.no_temp (λ _. (refl, inl refl)) (λ _. write_temp-Leaves ext e alone)

module _ (detect : List ℕ → Text) (digest : List ℕ → List ℕ) (f : Faults) (kind : Kind)
    (name : Text) (content : List ℕ) (d : Disk) where
  abbrev blob : Blob
  blob = record { kind = some kind; name = name; content = some content }

  -- Whatever call of the file system fails in it, a store of a blob that is refused leaves the
  -- files as they were, and one that succeeds is of an accepted type and within the limit of its
  -- kind, returns the receipt of the whole content, and leaves that content under its key and every
  -- other key as it was, when no other content lies under a key of the same digest. The count of
  -- temporary files is then as it was, or one more where the removal of the temporary file fails.
  pub put-Leaves :
      IsAlone detect digest f kind name content d
      → Leaves detect digest f kind name content d (put detect digest f blob d)
  unfolding put
  put-Leaves alone = put_content-Leaves detect digest f kind name content d alone

  -- The file that was stored is there to be opened.
  opened-there :
      (g : OpenFaults) (key : Text) (files : List (Text × List ℕ)) (temps : ℕ)
      → is_valid_key key ≡ true
      → file_of key files ≡ some content
      → open_blob g key (record { files = files; temps = temps }) ≡ (
          if g.unopened || g.unsized
          then refused failed
          else done (content, content_type_of key, length content))
  unfolding open_blob
  opened-there g key files temps valid there = by_fault g.unopened g.unsized
    where
      by_fault :
          (b c : Bool)
          → (if not (is_valid_key key)
              then refused invalid_key
              else if b
              then refused failed
              else if not (is_there (file_of key files))
              then refused not_found
              else if c
              then refused failed
              else opened key (file_of key files))
            ≡ (if b || c
                then refused failed
                else done (content, content_type_of key, length content))
      by_fault true c = rw valid refl
      by_fault false true = rw (valid, there) refl
      by_fault false false = rw (valid, there) refl

  -- What was stored is opened under the key of its receipt with its bytes, the content type that
  -- was detected and its size, or answers the failure where a call of the file system fails in the
  -- opening, when a digest is 32 bytes and no other content lies under a key of the same digest.
  pub open_blob-put :
      (g : OpenFaults) (s : Stored) (d' : Disk)
      → ((bytes : List ℕ) → All IsByte (digest bytes))
      → ((bytes : List ℕ) → length (digest bytes) ≡ 32)
      → IsAlone detect digest f kind name content d
      → put detect digest f blob d ≡ (done s, d')
      → open_blob g s.key d' ≡ (
          if g.unopened || g.unsized
          then refused failed
          else done (content, detect (take sniff_len content), length content))
  open_blob-put g s d' are_bytes long alone h =
      let left : Leaves detect digest f kind name content d (done s, d') =
        subst (Leaves detect digest f kind name content d) h (put-Leaves alone) in
      let (ext, accepted, fits, same, finds, temps) = left in
      let key = key_of kind (digest content) ext in
      let key_same : s.key ≡ key = ap (λ (r : Stored). r.key) same in
      let (valid, typed) =
        key_of-Fits (digest content) (are_bytes content) (long content) kind
          (detect (take sniff_len content)) ext accepted in
      let there : file_of key d'.files ≡ some content =
        finds key
        ∙ ap (λ k. if k == key then some content else file_of key d.files) key_same
        ∙ ap (λ b. if b then some content else file_of key d.files)
            ((List_eq.equal_iff key key).1 refl) in
      ap (λ k. open_blob g k d') key_same
      ∙ opened-there g key d'.files d'.temps valid there
      ∙ ap
          (λ t.
            if g.unopened || g.unsized then refused failed else done (content, t, length content))
          typed
