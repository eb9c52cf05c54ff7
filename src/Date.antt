-- ===== src/Date.antt =====
-- internal/platform/date/date.go: calendar days, as a `time.Time` at UTC midnight. Every function
-- goes through `day`, so it answers about the day that an instant falls on in its own zone.
pub mod Gregorian
pub mod Laws
use pilam.Prelude.{
  ℕ, zero, ◌+◌, ◌-◌, ◌*◌, ◌%◌, Bool, not, ◌&&◌, ◌||◌, Option, none, some, List, [], ◌∷◌, ◌++◌,
  length, ℤ, pos, negsuc, suc, ◌+ℤ◌, ◌-ℤ◌, ltb_ℤ, eq_ℤ, nat_eq, leb, ltb, if◌then◌else◌,
}
use pilam.Prelude.Int.{floor_div, floor_mod, quot}
use pilam.Prelude.Text.{Text, itoa, Order}
use pilam.Prelude.Orders.{compare_int}
use pilam.Date.Gregorian.{Time, Civil, day_nanos, times, month_start, civil_of}

-- `Time.IsZero`
abbrev pub is_zero : Time → Bool
is_zero t = eq_ℤ t.instant (pos 0)

-- The day that an instant falls on in its own zone, and UTC midnight of a day.
unfoldable pub day_index : Time → ℤ
day_index t = floor_div (t.instant +ℤ t.offset) day_nanos

unfoldable pub midnight : ℤ → Time
midnight n = record { instant = times n day_nanos; offset = pos 0 }

-- `Time.Date`
unfoldable pub civil : Time → Civil
civil t = civil_of (day_index t)

-- `Of`: `time.Date` at UTC midnight, with a month and a day that may lie out of range.
unfoldable pub of : ℤ → ℤ → ℤ → Time
of y m d =
    midnight
      (month_start (y +ℤ floor_div (m -ℤ pos 1) 12) (floor_mod (m -ℤ pos 1) 12 + 1) +ℤ (d -ℤ pos 1))

-- The private `day`
unfoldable pub day : Time → Time
day t = let c = civil t in of c.year (pos c.month) (pos c.day)

-- `Duration` is an int64, and `Time.Sub` stops at its ends.
abbrev pub max_duration : ℕ
max_duration = 9223372036854775807

unfoldable pub sub_time : Time → Time → ℤ
sub_time a b =
    let d = a.instant -ℤ b.instant in
    if ltb_ℤ (pos max_duration) d
    then pos max_duration
    else if ltb_ℤ d (negsuc max_duration)
    then negsuc max_duration
    else d

unfoldable pub days : Time → Time → ℤ
days from to = quot (sub_time (day to) (day from)) day_nanos

unfoldable pub add_days : Time → ℤ → Time
add_days t n = let c = civil t in of c.year (pos c.month) (pos c.day +ℤ n)

unfoldable pub equal : Time → Time → Bool
equal a b = eq_ℤ (day a).instant (day b).instant

unfoldable pub before : Time → Time → Bool
before a b = ltb_ℤ (day a).instant (day b).instant

-- `Time.Compare`
abbrev pub compare_time : Time → Time → Order
compare_time a b = compare_int a.instant b.instant

unfoldable pub after : Time → Time → Bool
after a b = ltb_ℤ (day b).instant (day a).instant

-- A number in at least `width` digits, as `Time.Format` writes it.
unfoldable pub pad : ℕ → Text → Text
pad zero s = s
pad (suc missing) s = b'0' ∷ pad missing s

unfoldable pub padded : ℕ → ℕ → Text
unfolding pad
padded width n = let s = itoa (pos n) in pad (width - length s) s

unfoldable pub year_text : ℤ → Text
unfolding padded
year_text (pos n) = padded 4 n
year_text (negsuc n) = b'-' ∷ padded 4 (suc n)

-- `Format`, as DD.MM.YYYY
unfoldable format : Time → Text
unfolding padded year_text
format t =
    let c = civil (day t) in
    padded 2 c.day ++ (b'.' ∷ (padded 2 c.month ++ (b'.' ∷ year_text c.year)))

-- `ISO`, as YYYY-MM-DD
unfoldable pub iso : Time → Text
unfolding padded year_text
iso t =
    let c = civil (day t) in
    year_text c.year ++ (b'-' ∷ (padded 2 c.month ++ (b'-' ∷ padded 2 c.day)))

unfoldable pub is_leap : ℕ → Bool
is_leap y = nat_eq (y % 4) 0 && (not (nat_eq (y % 100) 0) || nat_eq (y % 400) 0)

unfoldable pub days_in : ℕ → ℕ → ℕ
unfolding is_leap
days_in m y =
    if nat_eq m 2
    then (if is_leap y then 29 else 28)
    else if nat_eq m 4 || nat_eq m 6 || nat_eq m 9 || nat_eq m 11
    then 30
    else 31

unfoldable pub is_digit : ℕ → Bool
is_digit c = leb b'0' c && leb c b'9'

abbrev digit : ℕ → ℕ
digit c = c - b'0'

-- `Parse`: `time.Parse` of the form 2006-01-02, which wants every digit and a day of the month.
unfoldable pub parse : Text → Option Time
unfolding is_digit days_in
parse (y₁ ∷ y₂ ∷ y₃ ∷ y₄ ∷ s ∷ m₁ ∷ m₂ ∷ t ∷ d₁ ∷ d₂ ∷ []) =
    let y = digit y₁ * 1000 + digit y₂ * 100 + digit y₃ * 10 + digit y₄ in
    let m = digit m₁ * 10 + digit m₂ in
    let d = digit d₁ * 10 + digit d₂ in
    if is_digit y₁
      && is_digit y₂
      && is_digit y₃
      && is_digit y₄
      && nat_eq s b'-'
      && is_digit m₁
      && is_digit m₂
      && nat_eq t b'-'
      && is_digit d₁
      && is_digit d₂
      && leb 1 m
      && leb m 12
      && leb 1 d
      && leb d (days_in m y)
    then some (of (pos y) (pos m) (pos d))
    else none
parse _ = none
