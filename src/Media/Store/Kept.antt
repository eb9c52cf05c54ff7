-- ===== src/Media/Store/Kept.antt =====
-- The files that are there before a run of `Put` are there after it.
use pilam.Prelude.{
  ℕ, ◌+◌, ◌≡◌, refl, ap, ◌∙◌, Bool, true, false, not, ◌&&◌, Option, none, some, List, length,
  if◌then◌else◌, ◌==◌, List_eq, ℕ_eq, ltb, arith, ◌⊎◌, inl, inr,
}
use pilam.Prelude.Text.{Text}
use pilam.Media.{Kind, accepts}
use pilam.Media.Store.{
  failed, Outcome, done, refused, Blob, Stored, Disk, Faults, file_of, is_there, publish, max_size,
  publish_all, kept_bytes, stored_as, write_temp, write_typed, put_content, put,
}
use pilam.Media.Store.Laws.{if_by, file_of-publish}

abbrev pub IsThere : Text → Disk → Type 0
IsThere key d = is_there (file_of key d.files) ≡ true

abbrev pub Grown : Disk → Disk → Type 0
Grown d d' = (key : Text) → IsThere key d → IsThere key d'

-- What is there stays, and the key of a receipt is there.
abbrev pub Kept : Disk → Outcome Stored × Disk → Type 0
Kept d (refused e, d') = Grown d d'
Kept d (done s, d') = Grown d d' × IsThere s.key d'

published-there :
    (key k : Text) (bytes : List ℕ) (files : List (Text × List ℕ))
    → ((key == k) ≡ true) ⊎ (is_there (file_of k files) ≡ true)
    → is_there (file_of k (publish key bytes files)) ≡ true
published-there key k bytes files h =
    ap is_there (file_of-publish key k bytes files) ∙ by_test (key == k) h
  where
    by_test :
        (b : Bool)
        → (b ≡ true) ⊎ (is_there (file_of k files) ≡ true)
        → is_there (if b then some bytes else file_of k files) ≡ true
    by_test true h = refl
    by_test false (inl e) = absurd (ground arith)
    by_test false (inr e) = e

module _ (detect : List ℕ → Text) (digest : List ℕ → List ℕ) (f : Faults) (d : Disk) where
  publish_all-Kept :
      (s : Stored) (bytes : List ℕ) (d' : Disk)
      → d'.files ≡ d.files
      → Kept d (publish_all detect digest f s bytes d')
  unfolding publish_all
  publish_all-Kept s bytes d' same =
      let stay : Grown d d' = λ k h. ap (λ fs. is_there (file_of k fs)) same ∙ h in
      if_by (Kept d) f.no_mode (λ _. stay)
        (λ _.
          if_by (Kept d) f.no_sync (λ _. stay)
            (λ _.
              if_by (Kept d) f.no_close (λ _. stay)
                (λ _.
                  if_by (Kept d) f.no_dir (λ _. stay)
                    (λ _.
                      if_by (Kept d) f.no_rename (λ _. stay)
                        (λ _. (
                          λ k h. published-there s.key k bytes d'.files (inr (stay k h)),
                          published-there s.key s.key bytes d'.files
                              (inl ((List_eq.equal_iff s.key s.key).1 refl)),
                        ))))))

  write_temp-Kept :
      (kind : Kind) (ext content_type name : Text) (content : List ℕ) (d' : Disk)
      → d'.files ≡ d.files
      → Kept d (write_temp detect digest f kind ext content_type name content d')
  unfolding write_temp
  write_temp-Kept kind ext content_type name content d' same =
      let bytes = kept_bytes detect digest f kind content in
      let s = stored_as detect digest f kind ext content_type name bytes in
      let stay : Grown d d' = λ k h. ap (λ fs. is_there (file_of k fs)) same ∙ h in
      if_by (Kept d) f.unwritten (λ _. stay)
        (λ _.
          if_by (Kept d) (ltb (max_size kind) (length bytes)) (λ _. stay)
            (λ _.
              if_by (Kept d) f.cancelled_late (λ _. stay)
                (λ _.
                  if_by (Kept d) (not f.unseen && is_there (file_of s.key d'.files))
                    (λ there. (stay, seen (not f.unseen) (is_there (file_of s.key d'.files)) there))
                    (λ _. publish_all-Kept s bytes d' same))))
    where
      seen : (b c : Bool) → (b && c) ≡ true → c ≡ true
      seen b c h = ground arith

  -- Whatever a run of `Put` answers, each file that was there is there, and so is the one of its
  -- receipt.
  pub put-Kept : (blob : Blob) → Kept d (put detect digest f blob d)
  unfolding put put_content write_typed
  put-Kept blob = by_kind blob.kind
    where
      by_type :
          (kind : Kind) (content_type : Text) (content : List ℕ) (o : Option Text)
          → Kept d (write_typed detect digest f kind o content_type blob.name content d)
      by_type kind content_type content none = λ k h. h
      by_type kind content_type content (some ext) =
          if_by (Kept d) f.no_temp (λ _ k h. h)
            (λ _.
              write_temp-Kept kind ext content_type blob.name content
                (record d { temps = d.temps + 1 }) refl)

      by_content :
          (kind : Kind) (o : Option (List ℕ))
          → Kept d (elim o [
            | none ↦ (refused failed, d)
            | some content ↦ put_content detect digest f kind blob.name content d
          ])
      by_content kind none = λ k h. h
      by_content kind (some content) =
          if_by (Kept d) f.cancelled (λ _ k h. h)
            (λ _.
              if_by (Kept d) f.unread (λ _ k h. h) (λ _. by_type kind _ content (accepts kind _)))

      by_kind : (o : Option Kind) → Kept d (put detect digest f (record blob { kind = o }) d)
      by_kind none = λ k h. h
      by_kind (some kind) = by_content kind blob.content
