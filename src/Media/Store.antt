-- ===== src/Media/Store.antt =====
-- internal/platform/media/local.go: the store over a directory. A file is its bytes, and each call
-- of the file system may fail.
use pilam.Prelude.{
  ℕ, ◌+◌, ◌-◌, Bool, true, false, Option, none, some, List, [], ◌∷◌, ◌++◌, length, take,
  if◌then◌else◌, ◌==◌, List_eq, ℕ_eq, ltb, not, ◌&&◌,
}
use pilam.Prelude.Text.{Text, codes}
use pilam.Media.{Kind, image, document, accepts, key_of, is_valid_key, content_type_of}
pub mod Laws
pub mod Kept

-- The errors of media.go. `failed` is an error of the file system, of the reader or of the context.
pub data MediaError : Type 0 where
  not_found too_large type_rejected invalid_key unknown_kind failed : MediaError

pub data Outcome (A : Type 0) : Type 0 where
  done : A → Outcome A
  refused : MediaError → Outcome A

-- `Blob`, whose kind may be none that has a policy and whose content may be nil, and `Stored`.
pub record Blob : Type 0 where
  pub kind : Option Kind
  pub name : Text
  pub content : Option (List ℕ)

pub record Stored : Type 0 where
  pub key : Text
  pub name : Text
  pub content_type : Text
  pub size : ℕ

-- What a directory holds: the files under their keys, and how many temporary files.
pub record Disk : Type 0 where
  pub files : List (Text × List ℕ)
  pub temps : ℕ

-- The calls that fail in a run of `Put`, in their order.
pub record Faults : Type 0 where
  pub cancelled : Bool
  pub unread : Bool
  pub no_temp : Bool
  pub unwritten : Bool
  pub cancelled_late : Bool
  pub unseen : Bool
  pub no_mode : Bool
  pub no_sync : Bool
  pub no_close : Bool
  pub no_dir : Bool
  pub no_rename : Bool
  pub no_remove : Bool

-- The calls that fail in a run of `Open`: a file that cannot be opened though it may be there, and one
-- that has no size to read.
pub record OpenFaults : Type 0 where
  pub unopened : Bool
  pub unsized : Bool

abbrev pub file_of : Text → List (Text × List ℕ) → Option (List ℕ)
file_of key [] = none
file_of key ((k, bytes) ∷ files) = if k == key then some bytes else file_of key files

abbrev pub is_there : Option (List ℕ) → Bool
is_there none = false
is_there (some bytes) = true

-- `os.Rename` onto a key, which replaces what is there.
unfoldable pub publish : Text → List ℕ → List (Text × List ℕ) → List (Text × List ℕ)
publish key bytes [] = (key, bytes) ∷ []
publish key bytes ((k, b) ∷ files) =
    let rest = publish key bytes files in if k == key then (k, bytes) ∷ files else (k, b) ∷ rest

-- `MaxSize` of the policies, and `sniffLen`.
abbrev pub max_size : Kind → ℕ
max_size image = 10485760
max_size document = 26214400

abbrev pub sniff_len : ℕ
sniff_len = 512

-- `detect` reads the first bytes of the content, and `digest` is SHA-256.
module _ (detect : List ℕ → Text) (digest : List ℕ → List ℕ) (f : Faults) where
  -- The temporary file is removed on every way out that does not rename it. A failure to remove it is
  -- ignored.
  abbrev pub discard : Disk → Disk
  discard d = record d { temps = if f.no_remove then d.temps else d.temps - 1 }

  -- The end of `Put`, from the five calls that publish the file.
  unfoldable pub publish_all : Stored → List ℕ → Disk → Outcome Stored × Disk
  unfolding publish
  publish_all stored bytes d =
      if f.no_mode
      then (refused failed, discard d)
      else if f.no_sync
      then (refused failed, discard d)
      else if f.no_close
      then (refused failed, discard d)
      else if f.no_dir
      then (refused failed, discard d)
      else if f.no_rename
      then (refused failed, discard d)
      else (done stored, record { files = publish stored.key bytes d.files; temps = d.temps - 1 })

  -- What is kept of the content: one byte more than the limit shows that it is over it.
  abbrev pub kept_bytes : Kind → List ℕ → List ℕ
  kept_bytes kind bytes = take (max_size kind + 1) bytes

  abbrev pub stored_as : Kind → Text → Text → Text → List ℕ → Stored
  stored_as kind ext content_type name bytes = record {
    key = key_of kind (digest bytes) ext;
    name = name;
    content_type = content_type;
    size = length bytes;
  }

  -- `Put` once the temporary file is open.
  unfoldable pub write_temp : Kind → Text → Text → Text → List ℕ → Disk → Outcome Stored × Disk
  unfolding publish_all
  write_temp kind ext content_type name content d =
      let bytes = kept_bytes kind content in
      let stored = stored_as kind ext content_type name bytes in
      if f.unwritten
      then (refused failed, discard d)
      else if ltb (max_size kind) (length bytes)
      then (refused too_large, discard d)
      else if f.cancelled_late
      then (refused failed, discard d)
      else if not f.unseen && is_there (file_of stored.key d.files)
      then (done stored, discard d)
      else publish_all stored bytes d

  unfoldable pub write_typed :
      Kind → Option Text → Text → Text → List ℕ → Disk → Outcome Stored × Disk
  unfolding write_temp
  write_typed kind none content_type name content d = (refused type_rejected, d)
  write_typed kind (some ext) content_type name content d =
      if f.no_temp
      then (refused failed, d)
      else write_temp kind ext content_type name content (record d { temps = d.temps + 1 })

  unfoldable pub put_content : Kind → Text → List ℕ → Disk → Outcome Stored × Disk
  unfolding write_typed
  put_content kind name content d =
      let content_type = detect (take sniff_len content) in
      if f.cancelled
      then (refused failed, d)
      else if f.unread
      then (refused failed, d)
      else write_typed kind (accepts kind content_type) content_type name content d

  -- `Put`
  unfoldable pub put : Blob → Disk → Outcome Stored × Disk
  unfolding put_content
  put blob d = elim blob.kind [
    | none ↦ (refused unknown_kind, d)
    | some kind ↦ elim blob.content [
      | none ↦ (refused failed, d)
      | some content ↦ put_content kind blob.name content d
    ]
  ]

-- `Open` of a file that can be opened: its bytes, its content type and its size.
abbrev pub opened : Text → Option (List ℕ) → Outcome (List ℕ × Text × ℕ)
opened key none = refused not_found
opened key (some bytes) = done (bytes, content_type_of key, length bytes)

-- `Open`: only a file that is not there is `ErrNotFound`.
unfoldable pub open_blob : OpenFaults → Text → Disk → Outcome (List ℕ × Text × ℕ)
open_blob f key d =
    if not (is_valid_key key)
    then refused invalid_key
    else if f.unopened
    then refused failed
    else if not (is_there (file_of key d.files))
    then refused not_found
    else if f.unsized
    then refused failed
    else opened key (file_of key d.files)

-- `URL`
unfoldable url : Text → Text
url key = codes "/media/" ++ key
