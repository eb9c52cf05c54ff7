-- ===== src/Date/Gregorian.antt =====
-- What internal/platform/date uses of Go's `time` package: an instant with the offset of its
-- location, and the proleptic Gregorian calendar. Instants count nanoseconds from
-- 0001-01-01T00:00:00Z, and days count from that day. A year is taken to begin in March, so a leap
-- day ends it, and 400 years are 146097 days.
use pilam.Prelude.{
  ℕ, ◌+◌, ◌-◌, ◌*◌, ◌/◌, ◌<◌, ◌≤◌, ◌≡◌, refl, ap, pos_part, neg_part, true, false, ltb, leb,
  if◌then◌else◌, Bool-cases, inl, inr, ℤ, pos, negsuc, ◌+ℤ◌, ◌-ℤ◌, sub_ℕ, arith, suc,
}
use pilam.Prelude.Int.{floor_div, floor_mod, int_laws}

-- `time.Time`. The offset is in nanoseconds east of UTC.
pub record Time : Type 0 where
  pub instant : ℤ
  pub offset : ℤ

-- The zero `Time`, and `Time.IsZero`.
abbrev pub zero_time : Time
zero_time = record { instant = pos 0; offset = pos 0 }

abbrev pub day_nanos : ℕ
day_nanos = 86400000000000

unfoldable pub times : ℤ → ℕ → ℤ
times (pos n) k = pos (n * k)
times (negsuc n) k = sub_ℕ 0 (suc n * k)

-- The year, month and day that `Time.Date` returns.
pub record Civil : Type 0 where
  pub year : ℤ
  pub month : ℕ
  pub day : ℕ

-- The days of an era of 400 years, from 1 March, up to the first of a month. `y` is the year of the
-- era, and `mp` the month, from 0 for March to 11 for February.
unfoldable pub era_day : ℕ → ℕ → ℕ
era_day y mp = y * 365 + y / 4 - y / 100 + (153 * mp + 2) / 5

-- The year of the era that a day of it falls in, and the day of that year.
unfoldable pub era_year : ℕ → ℕ
era_year n = (n - n / 1460 + n / 36524 - n / 146096) / 365

unfoldable pub year_day : ℕ → ℕ
unfolding era_year
year_day n = n - (era_year n * 365 + era_year n / 4 - era_year n / 100)

unfoldable pub march_month : ℕ → ℕ
march_month doy = (5 * doy + 2) / 153

-- The day number of the first of a month.
unfoldable pub month_start : ℤ → ℕ → ℤ
month_start y m =
    let early = leb m 2 in
    let y' = if early then y -ℤ pos 1 else y in
    let mp = if early then m + 9 else m - 3 in
    (times (floor_div y' 400) 146097 +ℤ pos (era_day (floor_mod y' 400) mp)) -ℤ pos 306

-- The calendar date of a day number.
unfoldable pub civil_of : ℤ → Civil
civil_of n =
    let z = n +ℤ pos 306 in
    let doe = floor_mod z 146097 in
    let mp = march_month (year_day doe) in
    let early = ltb 9 mp in
    let y = times (floor_div z 146097) 400 +ℤ pos (era_year doe) in
    record {
      year = if early then y +ℤ pos 1 else y;
      month = if early then mp - 9 else mp + 3;
      day = year_day doe - (153 * mp + 2) / 5 + 1;
    }

-- The day of an era lies within the year that `era_year` gives it, and that year in the era.
era_year_bounds :
    (n : ℕ)
    → n < 146097
    → (era_year n ≤ 399)
      × (era_year n * 365 + era_year n / 4 - era_year n / 100 ≤ n)
      × (n ≤ era_year n * 365 + era_year n / 4 - era_year n / 100 + 365)
unfolding era_year
era_year_bounds n h = (omega arith, omega arith, omega arith)

-- Division with remainder, and back, at the two lengths of an era.
floor_parts : (n : ℤ) → times (floor_div n 146097) 146097 +ℤ pos (floor_mod n 146097) ≡ n
unfolding times floor_div floor_mod ◌+ℤ◌
floor_parts n = ground arith

floor_div-times : (e : ℤ) (r : ℕ) → r < 400 → floor_div (times e 400 +ℤ pos r) 400 ≡ e
unfolding times floor_div ◌+ℤ◌
floor_div-times e r h = ground arith

floor_mod-times : (e : ℤ) (r : ℕ) → r < 400 → floor_mod (times e 400 +ℤ pos r) 400 ≡ r
unfolding times floor_mod ◌+ℤ◌
floor_mod-times e r h = ground arith

pub floor_mod-lt : (n : ℤ) → floor_mod n 146097 < 146097
unfolding floor_mod
floor_mod-lt n = ground arith

-- The month and the day put together give the day of the era again.
era_day-parts :
    (n : ℕ)
    → n < 146097
    → era_day (era_year n) (march_month (year_day n))
        + (year_day n - (153 * march_month (year_day n) + 2) / 5 + 1)
      ≡ n + 1
unfolding era_day year_day march_month
era_day-parts n h = omega (arith, era_year_bounds n h)

pub march_month-le : (n : ℕ) → n < 146097 → march_month (year_day n) ≤ 11
unfolding march_month year_day
march_month-le n h = omega (arith, era_year_bounds n h)

leb_early : (mp : ℕ) → mp ≤ 11 → ltb 9 mp ≡ true → leb (mp - 9) 2 ≡ true
leb_early mp h e = ground arith

leb_late : (mp : ℕ) → leb (mp + 3) 2 ≡ false
leb_late mp = ground arith

sub_add : (mp : ℕ) → ltb 9 mp ≡ true → mp - 9 + 9 ≡ mp
sub_add mp e = ground arith

add_sub : (mp : ℕ) → mp + 3 - 3 ≡ mp
add_sub mp = omega arith

plus_minus : (y : ℤ) → (y +ℤ pos 1) -ℤ pos 1 ≡ y
plus_minus y = omega int_laws

-- The first of a month, from its year and month counted from March.
month_start-march :
    (e : ℤ) (y mp : ℕ)
    → y < 400
    → mp ≤ 11
    → month_start
        (if ltb 9 mp then (times e 400 +ℤ pos y) +ℤ pos 1 else times e 400 +ℤ pos y)
        (if ltb 9 mp then mp - 9 else mp + 3)
      ≡ (times e 146097 +ℤ pos (era_day y mp)) -ℤ pos 306
unfolding month_start
month_start-march e y mp hy hm = elim (Bool-cases (ltb 9 mp)) [
  | inl early ↦
      rw
        (
          early,
          leb_early mp hm early,
          plus_minus,
          floor_div-times e y hy,
          floor_mod-times e y hy,
          sub_add mp early,
        )
        refl
  | inr late ↦
      rw (late, leb_late mp, floor_div-times e y hy, floor_mod-times e y hy, add_sub mp) refl
]

regroup :
    (t n : ℤ) (a d doe : ℕ)
    → t +ℤ pos doe ≡ n +ℤ pos 306
    → a + d ≡ doe + 1
    → ((t +ℤ pos a) -ℤ pos 306) +ℤ (pos d -ℤ pos 1) ≡ n
regroup t n a d doe h e = omega (int_laws, ap pos_part h, ap neg_part h)

-- The calendar date of a day number names that day.
pub civil_of_lem :
    (n : ℤ)
    → month_start (civil_of n).year (civil_of n).month +ℤ (pos (civil_of n).day -ℤ pos 1) ≡ n
unfolding civil_of
civil_of_lem n =
    let z = n +ℤ pos 306 in
    let doe = floor_mod z 146097 in
    let mp = march_month (year_day doe) in
    let below = floor_mod-lt z in
    rw
      (month_start-march (floor_div z 146097) (era_year doe) mp
        (omega (arith, era_year_bounds doe below)) (march_month-le doe below))
      (regroup _ n _ _ doe (floor_parts z) (era_day-parts doe below))
