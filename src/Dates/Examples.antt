-- ===== src/Dates/Examples.antt =====
-- Dates of 2024 and 2026, evaluated; the theorems on dates at them.
use opencoi.Base.{◌≡◌, refl, none, some, arith, codes, is_digit, true, false}
use opencoi.Base.Int.{pos, negsuc, ◌+ℤ◌}
use opencoi.Dates.{
  IsoDate, date, days_before_year, days_before_month, utc_day, year_of, month_of, date_of_day,
  iso_string_prefix, iso_date_pattern, is_calendar_date, iso_date, is_iso_date,
  iso_date_to_epoch_day, add_iso_date_days,
}
use opencoi.Dates.Calendar.{IsCalendarDate}
use opencoi.Dates.Add.{add_iso_date_days_sound, add_iso_date_days_returns}

abbrev leap_day_2024 : IsoDate
leap_day_2024 = date 2024 2 29

-- No such day in 2026, and a year below 100, which `Date.UTC` reads as another.
test_refused :
    (is_iso_date (codes "2026-02-29") ≡ false)
    × (is_iso_date (codes "0050-01-01") ≡ false)
    × (is_iso_date (codes "2024-02-29") ≡ true)
    × (is_iso_date (codes "2024-2-29") ≡ false)
unfolding is_iso_date iso_date iso_date_pattern is_calendar_date date_of_day utc_day year_of
    month_of days_before_year days_before_month is_digit
test_refused = (refl, refl, refl, refl)

test_add :
    (add_iso_date_days leap_day_2024 (pos 365) ≡ some (date 2025 2 28))
    × (add_iso_date_days leap_day_2024 (negsuc 59) ≡ some (date 2023 12 31))
    × (add_iso_date_days (date 9999 12 31) (pos 1) ≡ none)
    × (iso_date_to_epoch_day (date 1969 12 31) ≡ negsuc 0)
unfolding add_iso_date_days iso_date iso_date_pattern is_calendar_date date_of_day utc_day year_of
    month_of days_before_year days_before_month iso_string_prefix iso_date_to_epoch_day ◌+ℤ◌
    is_digit
test_add = (refl, refl, refl, refl)

leap_day-IsCalendarDate : IsCalendarDate leap_day_2024
leap_day-IsCalendarDate = omega arith

add_iso_date_days_sound_example :
    IsCalendarDate (date 2025 2 28)
    × (iso_date_to_epoch_day (date 2025 2 28) ≡ iso_date_to_epoch_day leap_day_2024 +ℤ pos 365)
add_iso_date_days_sound_example =
    add_iso_date_days_sound leap_day_2024 leap_day-IsCalendarDate (pos 365) (date 2025 2 28)
      test_add.0

add_iso_date_days_returns_example :
    (e : IsoDate) × (add_iso_date_days leap_day_2024 (pos 365) ≡ some e)
unfolding iso_date_to_epoch_day utc_day days_before_year days_before_month ◌+ℤ◌
add_iso_date_days_returns_example =
    add_iso_date_days_returns leap_day_2024 leap_day-IsCalendarDate (pos 365) 739675 refl
      (omega arith) (omega arith)
