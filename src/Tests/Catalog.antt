-- ===== src/Tests/Catalog.antt =====
-- A model with two photos, and two seasons.
use pilam.Prelude.{refl, true, [], ◌∷◌, List, All, arith, pos, ℕ, zero, suc, ◌<◌, ◌+ℤ◌, ◌-ℤ◌}
use pilam.Prelude.Int.{floor_div, floor_mod}
use pilam.Prelude.Text.{Text, codes, itoa}
use pilam.Prelude.Base64.{IsByte}
use pilam.Date.{day, of, civil, midnight, day_index}
use pilam.Date.Gregorian.{
  Time, civil_of, times, month_start, era_day, era_year, year_day, march_month,
}
use pilam.Ids.{Uuid}
use pilam.Schema.{Photo, Season}
use pilam.World.{World}
use pilam.World.Invariants.{Leaves}
use pilam.Catalog.Photos.{add_photo, remove_photo, reorder_photos}
use pilam.Catalog.Photos.Strips.{HasStrips, reorder_photos-HasStrips}
use pilam.Catalog.Photos.Changes.{add_photo-HasStrips, remove_photo-HasStrips}
use pilam.Catalog.Current.{current_season}
use pilam.Catalog.Current.Orders.{IsStored}
use pilam.Catalog.Current.Laws.{Opens, current_season-Opens}
use pilam.Media.{key_of, image}
use pilam.Tests.Rules.{on}
use pilam.Tests.Base.{env, world}

abbrev photo : Uuid → ℕ → Photo
photo id position = record { id = id; model_id = 5; media_key = []; position = position }

abbrev strips : World
strips = record world {
  tables = record world.tables {
    models = record { id = 5; drop_id = 4; article = codes "A"; active = true } ∷ [];
    photos = photo 10 0 ∷ photo 11 1 ∷ [];
  };
}

strips-HasStrips : HasStrips strips.tables
strips-HasStrips = (λ a. ground arith, λ m k. ground arith)

abbrev plain_text : Uuid → Text
plain_text id = itoa (pos id)

reorder_photos-HasStrips_example :
    Leaves HasStrips (reorder_photos plain_text env 5 (11 ∷ 10 ∷ []) strips)
reorder_photos-HasStrips_example =
    reorder_photos-HasStrips plain_text env 5 (11 ∷ 10 ∷ []) strips refl strips-HasStrips

remove_photo-HasStrips_example : Leaves HasStrips (remove_photo env 5 10 strips)
remove_photo-HasStrips_example = remove_photo-HasStrips env 5 10 strips refl strips-HasStrips

abbrev fill : ℕ → ℕ → List ℕ
fill zero b = []
fill (suc n) b = b ∷ fill n b

fill-bytes : (n b : ℕ) → b < 256 → All IsByte (fill n b)
fill-bytes zero b h = tt
fill-bytes (suc n) b h = (h, fill-bytes n b h)

abbrev pub digest : List ℕ
digest = fill 32 171

pub digest-bytes : All IsByte digest
digest-bytes = fill-bytes 32 171 (omega arith)

abbrev key : Text
key = key_of image digest (codes ".jpg")

add_photo-HasStrips_example : Leaves HasStrips (add_photo env 5 key strips)
add_photo-HasStrips_example = add_photo-HasStrips env 5 key strips refl strips-HasStrips

abbrev season : Uuid → Time → Season
season id start = record { id = id; name = codes "S"; start_date = start; active = true }

abbrev seasons : List Season
seasons = season 1 (on 739600) ∷ season 2 (on 739690) ∷ season 3 (on 739800) ∷ []

seasons-IsStored : All IsStored seasons
unfolding day of civil civil_of midnight times month_start era_day era_year year_day march_month
    floor_div floor_mod day_index ◌+ℤ◌ ◌-ℤ◌
seasons-IsStored = ((refl, refl), ((refl, refl), ((refl, refl), tt)))

current_season-Opens_example : Opens seasons (on 739700) (current_season seasons (on 739700))
current_season-Opens_example = current_season-Opens seasons (on 739700) seasons-IsStored
