-- ===== src/Date/Laws.antt =====
-- The functions of the date package as arithmetic on day numbers.
use pilam.Prelude.{
  ℕ, ◌+◌, ◌-◌, ◌≡◌, ◌≤◌, ap, ◌∙◌, ℤ, pos, negsuc, pos_part, neg_part, ◌+ℤ◌, ◌-ℤ◌, ◌≤ℤ◌, ltb_ℤ, eq_ℤ,
  if◌then◌else◌, arith,
}
use pilam.Prelude.Int.{floor_div, floor_mod, quot, int_laws, +ℤ_parts, -ℤ_parts}
use pilam.Date.Gregorian.{
  Time, day_nanos, times, month_start, civil_of, civil_of_lem, march_month-le, floor_mod-lt,
}
use pilam.Date.{
  day_index, midnight, civil, of, day, max_duration, sub_time, days, add_days, equal, before, after,
}

-- UTC midnight of a day falls on that day.
day_index-midnight : (n : ℤ) → day_index (midnight n) ≡ n
unfolding day_index midnight times floor_div ◌+ℤ◌
day_index-midnight n = ground arith

month_range : (n : ℤ) → (1 ≤ (civil_of n).month) × ((civil_of n).month ≤ 12)
unfolding civil_of
month_range n =
    ground (arith, march_month-le (floor_mod (n +ℤ pos 306) 146097) (floor_mod-lt (n +ℤ pos 306)))

-- A month in range stands as it is.
of_month :
    (y d : ℤ) (m : ℕ) → 1 ≤ m → m ≤ 12 → of y (pos m) d ≡ midnight (month_start y m +ℤ (d -ℤ pos 1))
unfolding of
of_month y d m lo hi = rw (year_same y m lo hi, month_same m lo hi)
  where
    year_same : (y : ℤ) (m : ℕ) → 1 ≤ m → m ≤ 12 → y +ℤ floor_div (pos m -ℤ pos 1) 12 ≡ y
    year_same y m lo hi = unfold floor_div ◌+ℤ◌ ◌-ℤ◌ in ground arith

    month_same : (m : ℕ) → 1 ≤ m → m ≤ 12 → floor_mod (pos m -ℤ pos 1) 12 + 1 ≡ m
    month_same m lo hi = unfold floor_mod ◌-ℤ◌ in ground arith

regroup_day : (n k s d : ℤ) → s +ℤ (d -ℤ pos 1) ≡ n → s +ℤ ((d +ℤ k) -ℤ pos 1) ≡ n +ℤ k
regroup_day n k s d h = omega (int_laws, ap pos_part h, ap neg_part h)

-- Adding days to an instant gives UTC midnight of the day that many days away from the day it
-- falls on.
pub add_days-midnight : (t : Time) (n : ℤ) → add_days t n ≡ midnight (day_index t +ℤ n)
unfolding add_days civil
add_days-midnight t n =
    let k = day_index t in
    of_month (civil_of k).year (pos (civil_of k).day +ℤ n) (civil_of k).month (month_range k).0
      (month_range k).1
    ∙ ap midnight (regroup_day k n _ (pos (civil_of k).day) (civil_of_lem k))

day-midnight : (t : Time) → day t ≡ midnight (day_index t)
unfolding day civil
day-midnight t =
    let k = day_index t in
    of_month (civil_of k).year (pos (civil_of k).day) (civil_of k).month (month_range k).0
      (month_range k).1
    ∙ ap midnight (civil_of_lem k)

pub day_index-day : (t : Time) → day_index (day t) ≡ day_index t
day_index-day t = rw (day-midnight t) (day_index-midnight (day_index t))

pub day_index-add_days : (t : Time) (n : ℤ) → day_index (add_days t n) ≡ day_index t +ℤ n
day_index-add_days t n = rw (add_days-midnight t n) (day_index-midnight (day_index t +ℤ n))

-- The comparisons compare day numbers.
ltb-times : (a b : ℤ) → ltb_ℤ (times a day_nanos) (times b day_nanos) ≡ ltb_ℤ a b
unfolding times
ltb-times a b = ground arith

eq-times : (a b : ℤ) → eq_ℤ (times a day_nanos) (times b day_nanos) ≡ eq_ℤ a b
unfolding times
eq-times a b = ground arith

-- One instant is before another by the calendar exactly when its day number is smaller.
pub before-index : (a b : Time) → before a b ≡ ltb_ℤ (day_index a) (day_index b)
unfolding before midnight
before-index a b = rw (day-midnight a, day-midnight b) (ltb-times (day_index a) (day_index b))

pub after-index : (a b : Time) → after a b ≡ ltb_ℤ (day_index b) (day_index a)
unfolding after midnight
after-index a b = rw (day-midnight a, day-midnight b) (ltb-times (day_index b) (day_index a))

equal-index : (a b : Time) → equal a b ≡ eq_ℤ (day_index a) (day_index b)
unfolding equal midnight
equal-index a b = rw (day-midnight a, day-midnight b) (eq-times (day_index a) (day_index b))

-- A duration holds 106751 whole days either way.
abbrev pub max_days : ℕ
max_days = 106751

-- A number of days cut to what a duration can hold.
abbrev pub clamp_days : ℤ → ℤ
clamp_days d =
    if ltb_ℤ (pos max_days) d
    then pos max_days
    else if ltb_ℤ d (negsuc (max_days - 1))
    then negsuc (max_days - 1)
    else d

times-sub : (a b : ℤ) → times a day_nanos -ℤ times b day_nanos ≡ times (a -ℤ b) day_nanos
unfolding times ◌-ℤ◌
times-sub a b = ground arith

quot-clamp :
    (d : ℤ)
    → quot
        (if ltb_ℤ (pos max_duration) (times d day_nanos)
          then pos max_duration
          else if ltb_ℤ (times d day_nanos) (negsuc max_duration)
          then negsuc max_duration
          else times d day_nanos)
        day_nanos
      ≡ clamp_days d
unfolding quot times
quot-clamp (pos n) = ground arith
quot-clamp (negsuc n) = ground arith

-- The count of days between two instants is the difference of their day numbers, cut to 106751
-- either way.
pub days-index : (from to : Time) → days from to ≡ clamp_days (day_index to -ℤ day_index from)
unfolding days sub_time midnight
days-index from to =
    rw (day-midnight from, day-midnight to)
      (rw (times-sub (day_index to) (day_index from)) (quot-clamp (day_index to -ℤ day_index from)))

-- Two days that a duration can lie between.
abbrev pub InRange : Time → Time → Type 0
InRange from to =
    (day_index to ≤ℤ day_index from +ℤ pos max_days)
    × (day_index from ≤ℤ day_index to +ℤ pos max_days)

clamp_days-same :
    (f t : ℤ) → t ≤ℤ f +ℤ pos max_days → f ≤ℤ t +ℤ pos max_days → clamp_days (t -ℤ f) ≡ t -ℤ f
clamp_days-same f t h k =
    ground (arith, -ℤ_parts t f, +ℤ_parts f (pos max_days), +ℤ_parts t (pos max_days))

-- Within some 292 years the count of days is the difference of the day numbers.
pub days-InRange :
    (from to : Time) → InRange from to → days from to ≡ day_index to -ℤ day_index from
days-InRange from to h =
    rw (days-index from to) (clamp_days-same (day_index from) (day_index to) h.0 h.1)

-- For two days at most 106751 apart, adding the count of days between them to the first gives
-- UTC midnight of the second.
pub add_days-days : (from to : Time) → InRange from to → add_days from (days from to) ≡ day to
add_days-days from to h =
    add_days-midnight from (days from to)
    ∙ rw (days-InRange from to h, day-midnight to) (ap midnight (omega int_laws))

-- For n from -106751 to 106751, the count of days to a date that was moved by n days is n.
pub days-add_days :
    (t : Time) (n : ℤ) → n ≤ℤ pos max_days → pos 0 ≤ℤ n +ℤ pos max_days → days t (add_days t n) ≡ n
days-add_days t n hi lo =
    rw (days-index t (add_days t n), day_index-add_days t n) (clamp_back (day_index t) n hi lo)
  where
    clamp_back :
        (k n : ℤ) → n ≤ℤ pos max_days → pos 0 ≤ℤ n +ℤ pos max_days → clamp_days ((k +ℤ n) -ℤ k) ≡ n
    clamp_back k n hi lo = rw (back k n) (ground (arith, +ℤ_parts n (pos max_days)))
      where
        back : (k n : ℤ) → (k +ℤ n) -ℤ k ≡ n
        back k n = omega int_laws
