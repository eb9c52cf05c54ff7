-- ===== src/Tests/Dates.antt =====
-- Days at concrete dates (internal/platform/date/date_test.go).
use pilam.Prelude.{◌≡◌, refl, pos, ◌+ℤ◌, ◌-ℤ◌, ◌≤ℤ◌, ◌*◌, ◌+◌, arith, some}
use pilam.Prelude.Int.{floor_div, floor_mod}
use pilam.Prelude.Text.{codes, itoa, digits_of}
use pilam.Date.{
  day_index, midnight, civil, day, of, parse, iso, pad, padded, year_text, is_digit, is_leap,
  days_in,
}
use pilam.Date.Gregorian.{
  Time, times, civil_of, civil_of_lem, month_start, era_day, era_year, year_day, march_month,
}
use pilam.Date.Laws.{max_days}

-- 10 March 2026 at noon, three hours east of Greenwich, and 1 March 2024.
abbrev noon : Time
noon = record {
  instant = pos (739684 * 86400000000000 + 32400000000000);
  offset = pos 10800000000000;
}

abbrev leap : Time
leap = record { instant = pos (738945 * 86400000000000); offset = pos 0 }

iso-noon : (iso noon ≡ codes "2026-03-10") × (iso leap ≡ codes "2024-03-01")
unfolding iso padded pad year_text itoa digits_of of civil times midnight day day_index floor_div
    floor_mod ◌+ℤ◌ ◌-ℤ◌ civil_of month_start era_day era_year year_day march_month
iso-noon = (refl, refl)

parse-leap : parse (codes "2024-03-01") ≡ some leap
unfolding parse is_digit is_leap days_in midnight times month_start floor_div floor_mod ◌+ℤ◌ ◌-ℤ◌ of
    era_day
parse-leap = refl

within : (pos 739 ≤ℤ pos max_days) × (pos 0 ≤ℤ pos 739 +ℤ pos max_days)
unfolding ◌+ℤ◌
within = ground arith

civil_of_lem_example :
    month_start (civil_of (pos 738944)).year (civil_of (pos 738944)).month
      +ℤ (pos (civil_of (pos 738944)).day -ℤ pos 1)
    ≡ pos 738944
civil_of_lem_example = civil_of_lem (pos 738944)
