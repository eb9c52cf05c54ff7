-- ===== src/Tests/Blobs.antt =====
-- A photo that is stored and read back, and an upload of two files whose second does not open.
use pilam.Prelude.{ℕ, ◌≡◌, refl, true, false, some, List, [], ◌∷◌}
use pilam.Prelude.Text.{Text, codes}
use pilam.Media.{image, accepts, extension_in, types}
use pilam.Media.Store.{Disk, Faults, Blob, Stored, Outcome, done, put, open_blob, stored_as}
use pilam.Media.Store.Laws.{IsAlone, Leaves, put-Leaves, open_blob-put}
use pilam.World.{World}
use pilam.Screens.Photos.{Upload, add_photos}
use pilam.Screens.Photos.Laws.{HasFiles, HasBoth, add_photos-HasFiles}
use pilam.Tests.Rules.{on}
use pilam.Tests.Base.{env, world}
use pilam.Tests.Catalog.{digest, digest-bytes}
use pilam.Tests.Sessions.{form}

-- A directory with nothing in it, and a file system in which no call fails.
abbrev empty : Disk
empty = record { files = []; temps = 0 }

abbrev calm : Faults
calm = record {
  cancelled = false;
  unread = false;
  no_temp = false;
  unwritten = false;
  cancelled_late = false;
  unseen = false;
  no_mode = false;
  no_sync = false;
  no_close = false;
  no_dir = false;
  no_rename = false;
  no_remove = true;
}

abbrev detect : List ℕ → Text
detect head = codes "image/jpeg"

abbrev hashed : List ℕ → List ℕ
hashed bytes = digest

abbrev photo : List ℕ
photo = 255 ∷ 216 ∷ 255 ∷ []

abbrev photo_blob : Blob
photo_blob = record { kind = some image; name = codes "a.jpg"; content = some photo }

empty-IsAlone : IsAlone detect hashed calm image (codes "a.jpg") photo empty
empty-IsAlone ext bytes h = cc

abbrev run : Outcome Stored × Disk
run = put detect hashed calm photo_blob empty

abbrev receipt : Stored
receipt =
    stored_as detect hashed calm image (codes ".jpg") (codes "image/jpeg") (codes "a.jpg") photo

put-Leaves_example :
    Leaves detect hashed calm image
      (codes "a.jpg")
      photo
      empty
      (put detect hashed calm photo_blob empty)
put-Leaves_example = put-Leaves detect hashed calm image (codes "a.jpg") photo empty empty-IsAlone

stores : put detect hashed calm photo_blob empty ≡ (done receipt, run.1)
unfolding put accepts types extension_in
stores = refl

open_blob-put_example :
    open_blob (record { unopened = false; unsized = false }) receipt.key run.1
    ≡ done (photo, codes "image/jpeg", 3)
open_blob-put_example =
    open_blob-put detect hashed calm image (codes "a.jpg") photo empty
      (record { unopened = false; unsized = false }) receipt run.1 (λ bytes. digest-bytes)
      (λ bytes. refl) empty-IsAlone stores

-- A model with one photo, whose file is in the directory.
abbrev kept : Disk
kept = record { files = (codes "old", photo) ∷ []; temps = 0 }

abbrev shop : World
shop = record world {
  tables = record world.tables {
    seasons = record { id = 3; name = codes "S"; start_date = on 739600; active = true } ∷ [];
    drops =
        record { id = 4; season_id = 3; name = codes "D"; target_date = on 739900; active = true }
        ∷ [];
    models = record { id = 5; drop_id = 4; article = codes "A"; active = true } ∷ [];
    photos = record { id = 10; model_id = 5; media_key = codes "old"; position = 0 } ∷ [];
  };
}

shop-HasFiles : HasFiles kept shop.tables
shop-HasFiles = (refl, tt)

abbrev uploads : List Upload
uploads =
    record { name = codes "a.jpg"; content = photo; opens = true; faults = calm }
    ∷ record { name = codes "b.jpg"; content = photo; opens = false; faults = calm }
    ∷ []

add_photos-HasFiles_example :
    HasBoth (add_photos detect hashed form env (form.text 5) (some uploads) shop kept)
add_photos-HasFiles_example =
    add_photos-HasFiles detect hashed form env (form.text 5) (some uploads) shop kept shop-HasFiles
