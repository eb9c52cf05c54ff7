-- ===== src/Media.antt =====
-- internal/platform/media: the keys that name a stored blob, and the policy of its kind.
use pilam.Prelude.{
  ℕ, zero, suc, ◌/◌, ◌%◌, ◌+◌, Bool, true, false, ◌&&◌, ◌||◌, Option, none, some, List, [], ◌∷◌,
  ◌++◌, length, take, skip, all, find_first, leb, ltb, if◌then◌else◌, nat_eq, ◌==◌, List_eq, ℕ_eq,
}
use pilam.Prelude.Text.{Text, codes, cut_prefix}
pub mod Laws
pub mod Store

-- `Kind`
pub data Kind : Type 0 where
  image document : Kind

unfoldable pub kind_text : Kind → Text
kind_text image = codes "images"
kind_text document = codes "documents"

-- The character classes of `keyPattern`.
abbrev pub is_hex : ℕ → Bool
is_hex c = (leb 48 c && leb c 57) || (leb 97 c && leb c 102)

abbrev pub is_ext : ℕ → Bool
is_ext c = (leb 48 c && leb c 57) || (leb 97 c && leb c 122)

-- What follows so many hexadecimal digits, and what follows one character.
unfoldable pub after_hex : ℕ → Option Text → Option Text
after_hex n none = none
after_hex zero (some s) = some s
after_hex (suc n) (some []) = none
after_hex (suc n) (some (c ∷ s)) = after_hex n (if is_hex c then some s else none)

unfoldable pub after_code : ℕ → Option Text → Option Text
after_code d none = none
after_code d (some []) = none
after_code d (some (c ∷ s)) = if nat_eq c d then some s else none

-- The end of the pattern: an extension of two to four characters.
unfoldable pub ends : Option Text → Bool
ends none = false
ends (some s) = all is_ext s && (leb 2 (length s) && leb (length s) 4)

unfoldable pub is_under : Text → Text → Bool
unfolding after_hex after_code ends
is_under prefix key = ends (
    after_code b'.' (
      after_hex 64
        (after_code b'/' (after_hex 2 (after_code b'/' (after_hex 2 (cut_prefix key prefix)))))))

-- `Key.Valid`
unfoldable pub is_valid_key : Text → Bool
unfolding is_under
is_valid_key key = is_under (codes "images/") key || is_under (codes "documents/") key

-- `hex.EncodeToString`, of bytes.
unfoldable pub hex_digit : ℕ → ℕ
hex_digit n = if ltb n 10 then 48 + n else 87 + n

unfoldable pub hex_text : List ℕ → Text
unfolding hex_digit
hex_text [] = []
hex_text (b ∷ bytes) = hex_digit (b / 16) ∷ hex_digit (b % 16) ∷ hex_text bytes

-- `keyOf`, with `shardLen`: no segment has what `path.Join` would clean.
abbrev shard_len : ℕ
shard_len = 2

unfoldable pub key_of : Kind → List ℕ → Text → Text
unfolding kind_text hex_text
key_of kind digest ext =
    let hex_digest = hex_text digest in
    kind_text kind
    ++ (b'/'
        ∷ (take shard_len hex_digest
            ++ (b'/'
                ∷ (take shard_len (skip shard_len hex_digest) ++ (b'/' ∷ (hex_digest ++ ext))))))

-- `policies`: the accepted media types with the extensions that they are stored under.
unfoldable pub types : Kind → List (Text × Text)
types image =
    (codes "image/jpeg", codes ".jpg")
    ∷ (codes "image/png", codes ".png")
    ∷ (codes "image/webp", codes ".webp")
    ∷ (codes "image/gif", codes ".gif")
    ∷ []
types document = (codes "application/pdf", codes ".pdf") ∷ (codes "text/plain", codes ".txt") ∷ []

-- `Policy.Accepts`
unfoldable pub extension_in : List (Text × Text) → Text → Option Text
extension_in [] content_type = none
extension_in ((t, ext) ∷ rest) content_type =
    if t == content_type then some ext else extension_in rest content_type

unfoldable pub accepts : Kind → Text → Option Text
unfolding types extension_in
accepts kind content_type = extension_in (types kind) content_type

-- `path.Ext`: what follows the last dot of the last element, with the dot.
unfoldable pub scan_ext : Text → Text → Text
scan_ext found [] = found
scan_ext found (c ∷ s) =
    scan_ext (if nat_eq c b'/' then [] else if nat_eq c b'.' then c ∷ s else found) s

-- `contentTypeOf`, over the pairs that `buildTypeByExt` inverts.
unfoldable pub type_in : List (Text × Text) → Text → Text
type_in [] ext = codes "application/octet-stream"
type_in ((t, e) ∷ rest) ext = if e == ext then t else type_in rest ext

unfoldable pub content_type_of : Text → Text
unfolding types scan_ext type_in
content_type_of key = type_in (types image ++ types document) (scan_ext [] key)
