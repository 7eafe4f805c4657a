-- ===== src/Dates.antt =====
-- shared/domain.ts: calendar dates. A JavaScript day number may be negative; here days are counted
-- from 0000-01-01 of the proleptic Gregorian calendar, and the epoch day is the difference to
-- 1970-01-01. `Date.UTC`, the getters of `Date` and `toISOString` follow ECMAScript's definitions
-- (MakeDay, YearFromTime, MonthFromTime, DateFromTime).
pub mod Calendar
pub mod Parse
pub mod Add
pub mod Order
mod Examples
use opencoi.Base.{
  ℕ, ◌+◌, ◌-◌, ◌*◌, ◌/◌, ◌%◌, Bool, true, false, ◌&&◌, Option, none, some, [], ◌∷◌, ltb, leb, ◌==◌,
  if◌then◌else◌, Text, is_digit, is_some, ◌>>=◌,
}
use opencoi.Base.Int.{ℤ, pos, negsuc, sub_ℕ, ◌+ℤ◌}

-- An `IsoDate` is a string that `isIsoDate` accepted. Its three numbers are kept, which are what
-- every operation reads off the string; `iso_text` is the string.
pub record IsoDate : Type 0 where
  pub year : ℕ
  pub month : ℕ
  pub day : ℕ

abbrev pub date : ℕ → ℕ → ℕ → IsoDate
date y m d = record { year = y; month = m; day = d }

-- Days from 0000-01-01 to January 1 of year `y`.
unfoldable pub days_before_year : ℕ → ℕ
days_before_year y = 365 * y + (y + 3) / 4 - (y + 99) / 100 + (y + 399) / 400

abbrev pub is_leap : ℕ → Bool
is_leap y = if y % 400 == 0 then true else if y % 100 == 0 then false else y % 4 == 0

abbrev pub leap_day : ℕ → ℕ
leap_day y = if is_leap y then 1 else 0

-- Days from January 1 to the first of the month, months counted from 0, `leap` 0 or 1.
unfoldable pub days_before_month : ℕ → ℕ → ℕ
days_before_month leap m =
    if m == 0
    then 0
    else if m == 1
    then 31
    else if m == 2
    then 59 + leap
    else if m == 3
    then 90 + leap
    else if m == 4
    then 120 + leap
    else if m == 5
    then 151 + leap
    else if m == 6
    then 181 + leap
    else if m == 7
    then 212 + leap
    else if m == 8
    then 243 + leap
    else if m == 9
    then 273 + leap
    else if m == 10
    then 304 + leap
    else 334 + leap

-- The day of `Date.UTC(year, month - 1, day)`, days counted from 0000-01-01: years below 100 mean
-- 1900 + year, and a month or a day out of its range runs over into the neighbours.
unfoldable pub utc_day : ℕ → ℕ → ℕ → ℕ
utc_day year month day =
    let full = (if ltb year 100 then 1900 + year else year) in
    let y = full + (month + 11) / 12 - 1 in
    days_before_year y + days_before_month (leap_day y) ((month + 11) % 12) + day - 1

-- YearFromTime: the last year that has begun.
unfoldable pub year_of : ℕ → ℕ
unfolding days_before_year
year_of n = let y = (400 * n + 396) / 146097 in if leb (days_before_year y) n then y else y - 1

-- MonthFromTime, by the day within the year; counted from 0.
unfoldable pub month_of : ℕ → ℕ → ℕ
month_of leap k =
    if ltb k 31
    then 0
    else if ltb k (59 + leap)
    then 1
    else if ltb k (90 + leap)
    then 2
    else if ltb k (120 + leap)
    then 3
    else if ltb k (151 + leap)
    then 4
    else if ltb k (181 + leap)
    then 5
    else if ltb k (212 + leap)
    then 6
    else if ltb k (243 + leap)
    then 7
    else if ltb k (273 + leap)
    then 8
    else if ltb k (304 + leap)
    then 9
    else if ltb k (334 + leap)
    then 10
    else 11

-- The calendar date of a day: the getters `getUTCFullYear`, `getUTCMonth` + 1, `getUTCDate`.
unfoldable pub date_of_day : ℕ → IsoDate
date_of_day n =
    let y = year_of n in
    let k = n - days_before_year y in
    let m = month_of (leap_day y) k in date y (m + 1) (k - days_before_month (leap_day y) m + 1)

abbrev pub digit : ℕ → ℕ
digit n = 48 + n % 10

abbrev pub value : ℕ → ℕ
value c = c - 48

-- The text of a date, `YYYY-MM-DD`.
unfoldable pub iso_text : IsoDate → Text
iso_text d =
    digit (d.year / 1000)
    ∷ digit (d.year / 100)
    ∷ digit (d.year / 10)
    ∷ digit d.year
    ∷ 45
    ∷ digit (d.month / 10)
    ∷ digit d.month
    ∷ 45
    ∷ digit (d.day / 10)
    ∷ digit d.day
    ∷ []

-- `toISOString().slice(0, 10)`: from year 10000 on there is a sign and six digits of the year.
unfoldable pub iso_string_prefix : IsoDate → Text
unfolding iso_text
iso_string_prefix d =
    if leb d.year 9999
    then iso_text d
    else 43
      ∷ digit (d.year / 100000)
      ∷ digit (d.year / 10000)
      ∷ digit (d.year / 1000)
      ∷ digit (d.year / 100)
      ∷ digit (d.year / 10)
      ∷ digit d.year
      ∷ 45
      ∷ digit (d.month / 10)
      ∷ digit d.month
      ∷ []

-- ISO_DATE_PATTERN, with the three captured numbers.
unfoldable pub iso_date_pattern : Text → Option IsoDate
iso_date_pattern (a ∷ b ∷ c ∷ d ∷ h ∷ e ∷ f ∷ i ∷ g ∷ j ∷ []) =
    if is_digit a
      && is_digit b
      && is_digit c
      && is_digit d
      && (h == 45)
      && is_digit e
      && is_digit f
      && (i == 45)
      && is_digit g
      && is_digit j
    then some (
        date (1000 * value a + 100 * value b + 10 * value c + value d) (10 * value e + value f)
          (10 * value g + value j))
    else none
iso_date_pattern t = none

-- The comparison at the end of `isIsoDate`: the day exists in the calendar.
unfoldable pub is_calendar_date : IsoDate → Bool
is_calendar_date d =
    let r = date_of_day (utc_day d.year d.month d.day) in
    (r.year == d.year) && (r.month == d.month) && (r.day == d.day)

-- `isoDate`, with its thrown TypeError as `none`.
unfoldable pub iso_date : Text → Option IsoDate
iso_date t = do d ← iso_date_pattern t; if is_calendar_date d then some d else none

unfoldable pub is_iso_date : Text → Bool
is_iso_date t = is_some (iso_date t)

abbrev pub epoch : ℕ
epoch = 719528

unfoldable pub iso_date_to_epoch_day : IsoDate → ℤ
iso_date_to_epoch_day d = sub_ℕ (utc_day d.year d.month d.day) epoch

-- Before year 0 the text begins with a minus sign, which `isoDate` refuses; so it does a year past
-- 9999, and the RangeError of a time value out of range is a throw as well.
unfoldable pub add_iso_date_days : IsoDate → ℤ → Option IsoDate
add_iso_date_days d days = elim (iso_date_to_epoch_day d +ℤ days +ℤ pos epoch) [
  | pos n ↦ iso_date (iso_string_prefix (date_of_day n))
  | negsuc n ↦ none
]
