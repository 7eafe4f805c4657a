-- ===== src/Dates/Calendar.antt =====
-- shared/domain.ts: the day numbers of the Gregorian calendar and their inverse.
use opencoi.Base.{ℕ, ◌+◌, ◌-◌, ◌/◌, ◌%◌, ◌≤◌, ◌<◌, ◌≡◌, ◌∙◌, arith, ltb, ◌==◌, if◌then◌else◌}
use mathlib.Core.Path.{ap₂}
use opencoi.Dates.{
  IsoDate, days_before_year, leap_day, days_before_month, utc_day, year_of, month_of, date_of_day,
}

pub leap_day-le : (y : ℕ) → leap_day y ≤ 1
leap_day-le y = ground arith

pub days_before_year-suc :
    (y : ℕ) → days_before_year (y + 1) ≡ days_before_year y + 365 + leap_day y
unfolding days_before_year
days_before_year-suc y = ground arith

pub days_before_year_mono : (y z : ℕ) → y ≤ z → days_before_year y ≤ days_before_year z
unfolding days_before_year
days_before_year_mono y z h = omega arith

pub year_of_bounds :
    (n : ℕ) → (days_before_year (year_of n) ≤ n) × (n < days_before_year (year_of n + 1))
unfolding year_of
year_of_bounds n = ground arith

year_of_unique : (n y : ℕ) → days_before_year y ≤ n → n < days_before_year (y + 1) → year_of n ≡ y
year_of_unique n y h k = grind (
  arith,
  year_of_bounds n,
  days_before_year_mono (year_of n + 1) y,
  days_before_year_mono (y + 1) (year_of n),
)

-- Days in a month counted from 0.
abbrev pub days_in_month : ℕ → ℕ → ℕ
days_in_month leap m =
    if m == 1
    then 28 + leap
    else if m == 3
    then 30
    else if m == 5
    then 30
    else if m == 8
    then 30
    else if m == 10
    then 30
    else 31

pub days_in_month-le : (leap m : ℕ) → leap ≤ 1 → days_in_month leap m ≤ 31
days_in_month-le leap m h = ground arith

month_of_lem :
    (leap m e : ℕ)
    → leap ≤ 1
    → m ≤ 11
    → e < days_in_month leap m
    → month_of leap (days_before_month leap m + e) ≡ m
unfolding month_of days_before_month
month_of_lem leap m e l h k = ground arith

-- The month of a day within the year, and the days into it.
month_of_bounds :
    (leap k : ℕ)
    → leap ≤ 1
    → k < 365 + leap
    → let m = month_of leap k in
      (m ≤ 11)
      × (days_before_month leap m ≤ k)
      × (k < days_before_month leap m + days_in_month leap m)
unfolding month_of days_before_month
month_of_bounds leap k l h = ground arith

-- A date of the Gregorian calendar with a year of four digits from 100 on.
pub record IsCalendarDate (d : IsoDate) : Type 0 where
  pub year_from : 100 ≤ d.year
  pub year_to : d.year ≤ 9999
  pub month_from : 1 ≤ d.month
  pub month_to : d.month ≤ 12
  pub day_from : 1 ≤ d.day
  pub day_to : d.day ≤ days_in_month (leap_day d.year) (d.month - 1)

-- The day number of a date whose fields are in range.
abbrev pub day_number : IsoDate → ℕ
day_number d =
    days_before_year d.year + (days_before_month (leap_day d.year) (d.month - 1) + (d.day - 1))

-- A month number in range does not run over into another year.
in_range_month :
    (y m : ℕ)
    → 100 ≤ y
    → 1 ≤ m
    → m ≤ 12
    → ((if ltb y 100 then 1900 + y else y) + (m + 11) / 12 - 1 ≡ y) × ((m + 11) % 12 ≡ m - 1)
in_range_month y m a b c = ground arith

pub utc_day_lem : (d : IsoDate) → IsCalendarDate d → utc_day d.year d.month d.day ≡ day_number d
unfolding utc_day
utc_day_lem d h =
    let (p, q) = in_range_month d.year d.month h.year_from h.month_from h.month_to in
    ap₂ (λ (y m : ℕ). days_before_year y + days_before_month (leap_day y) m + d.day - 1) p q
    ∙ omega (arith, h.day_from)

pub in_year :
    (leap m e : ℕ)
    → leap ≤ 1
    → m ≤ 11
    → e < days_in_month leap m
    → days_before_month leap m + e < 365 + leap
unfolding days_before_month
in_year leap m e l h k = ground arith

-- The calendar date of a day's number is the date.
pub date_of_day-day_number : (d : IsoDate) → IsCalendarDate d → date_of_day (day_number d) ≡ d
unfolding date_of_day
date_of_day-day_number d h =
    let k = days_before_month (leap_day d.year) (d.month - 1) + (d.day - 1) in
    let l = leap_day-le d.year in
    let inside =
      in_year (leap_day d.year) (d.month - 1) (d.day - 1) l (omega (arith, h)) (omega (arith, h)) in
    let y : year_of (day_number d) ≡ d.year =
      year_of_unique (day_number d) d.year (omega arith)
        (omega (arith, days_before_year-suc d.year, inside)) in
    let m : month_of (leap_day d.year) k ≡ d.month - 1 =
      month_of_lem (leap_day d.year) (d.month - 1) (d.day - 1) l (omega (arith, h))
        (omega (arith, h)) in
    let offset : days_before_year d.year + k - days_before_year d.year ≡ k = omega arith in
    rw y (rw offset (rw m (ground arith)))

-- The calendar date of any day has its fields in range, and the day's number.
pub date_of_day_fields :
    (n : ℕ)
    → let d = date_of_day n in
      (day_number d ≡ n)
      × (1 ≤ d.month)
      × (d.month ≤ 12)
      × (1 ≤ d.day)
      × (d.day ≤ days_in_month (leap_day d.year) (d.month - 1))
unfolding date_of_day
date_of_day_fields n =
    let (lo, hi) = year_of_bounds n in
    let y = year_of n in
    let k = n - days_before_year y in
    let l = leap_day-le y in
    let inside : k < 365 + leap_day y = omega (arith, days_before_year-suc y, lo, hi) in
    let (m, before, after) = month_of_bounds (leap_day y) k l inside in
    ground (arith, m, before, after, lo)
