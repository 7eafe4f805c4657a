-- ===== src/Dates/Parse.antt =====
-- shared/domain.ts: `isoDate` against the calendar, and the text of a date.
use opencoi.Base.{
  ℕ, zero, suc, ◌+◌, ◌-◌, ◌*◌, ◌/◌, ◌≤◌, ◌<◌, ◌≡◌, ap, true, arith, ltb, if◌then◌else◌, some, [],
  ◌∷◌, Text, >>=-eq-some, subst, is_digit,
}
use native.Mathlib.Decide.{dec_lt}
use opencoi.Dates.{
  IsoDate, date, days_before_year, leap_day, days_before_month, utc_day, year_of, date_of_day,
  digit, value, iso_text, iso_date_pattern, is_calendar_date, iso_date,
}
use opencoi.Dates.Calendar.{
  IsCalendarDate, day_number, utc_day_lem, date_of_day-day_number, date_of_day_fields,
  year_of_bounds, days_before_year_mono, days_in_month,
}

pub is_calendar_date_complete : (d : IsoDate) → IsCalendarDate d → is_calendar_date d ≡ true
unfolding is_calendar_date
is_calendar_date_complete d h =
    rw (utc_day_lem d h) (rw (date_of_day-day_number d h) (ground arith))

pub late_year : (n y : ℕ) → days_before_year y ≤ n → y ≤ year_of n
late_year n y h = grind (arith, year_of_bounds n, days_before_year_mono (year_of n + 1) y)

century : days_before_year 1899 + 1 ≤ days_before_year 1900
unfolding days_before_year
century = omega arith

-- A year below 100 means one of the twentieth century; a month 00 is the December before.
utc_day_late : (y m d : ℕ) → y < 100 → days_before_year 1899 ≤ utc_day y m d
unfolding utc_day
utc_day_late y zero d h =
    let full : (if ltb y 100 then 1900 + y else y) ≡ 1900 + y = ground arith in
    let december : 1 ≤ days_before_month (leap_day (1900 + y + (zero + 11) / 12 - 1)) 11 =
      unfold days_before_month in (omega arith) in
    rw full (
      omega (
        arith,
        december,
        days_before_year_mono 1899 (1900 + y + (zero + 11) / 12 - 1) (omega arith),
      ))
utc_day_late y (suc m) d h =
    let full : (if ltb y 100 then 1900 + y else y) ≡ 1900 + y = ground arith in
    rw full (
      omega (
        arith,
        days_before_year_mono 1900 (1900 + y + (suc m + 11) / 12 - 1) (omega arith),
        century,
      ))

year_from_100 : (d : IsoDate) → date_of_day (utc_day d.year d.month d.day) ≡ d → 100 ≤ d.year
unfolding date_of_day
year_from_100 d same =
    let y : year_of (utc_day d.year d.month d.day) ≡ d.year = ap (λ (e : IsoDate). e.year) same in
    elim (dec_lt d.year 100) [
      | yes h ↦ omega (
        arith,
        y,
        late_year (utc_day d.year d.month d.day) 1899 (utc_day_late d.year d.month d.day h),
      )
      | no h ↦ omega arith
    ]

pub is_calendar_date_sound :
    (d : IsoDate) → d.year ≤ 9999 → is_calendar_date d ≡ true → IsCalendarDate d
unfolding is_calendar_date
is_calendar_date_sound d top h =
    let n = utc_day d.year d.month d.day in
    let same : date_of_day n ≡ d = ground arith in
    let (_, m1, m12, d1, dn) =
      subst
        (λ (e : IsoDate).
          (day_number e ≡ n)
          × (1 ≤ e.month)
          × (e.month ≤ 12)
          × (1 ≤ e.day)
          × (e.day ≤ days_in_month (leap_day e.year) (e.month - 1)))
        same (date_of_day_fields n) in
    record {
      year_from = year_from_100 d same;
      year_to = top;
      month_from = m1;
      month_to = m12;
      day_from = d1;
      day_to = dn;
    }

-- The digits of a text, and the text of digits.
is_digit_bounds : (c : ℕ) → is_digit c ≡ true → (48 ≤ c) × (c ≤ 57)
unfolding is_digit
is_digit_bounds c h = ground arith

is_digit-digit : (n : ℕ) → is_digit (digit n) ≡ true
unfolding is_digit
is_digit-digit n = ground arith

two_digits :
    (a b : ℕ)
    → is_digit a ≡ true
    → is_digit b ≡ true
    → (digit ((10 * value a + value b) / 10) ≡ a) × (digit (10 * value a + value b) ≡ b)
two_digits a b h k =
    let (p, q) = is_digit_bounds a h in
    let (r, s) = is_digit_bounds b k in (omega arith, omega arith)

four_digits :
    (a b c d : ℕ)
    → is_digit a ≡ true
    → is_digit b ≡ true
    → is_digit c ≡ true
    → is_digit d ≡ true
    → let n = 1000 * value a + 100 * value b + 10 * value c + value d in
      (digit (n / 1000) ≡ a)
      × (digit (n / 100) ≡ b)
      × (digit (n / 10) ≡ c)
      × (digit n ≡ d)
      × (n ≤ 9999)
four_digits a b c d h i j k =
    let (a0, a9) = is_digit_bounds a h in
    let (b0, b9) = is_digit_bounds b i in
    let (c0, c9) = is_digit_bounds c j in
    let (d0, d9) = is_digit_bounds d k in
    (omega arith, omega arith, omega arith, omega arith, omega arith)

-- What the pattern demands of the ten characters.
pattern_tests :
    (a b c d h e f i g j : ℕ) (r : IsoDate)
    → iso_date_pattern (a ∷ b ∷ c ∷ d ∷ h ∷ e ∷ f ∷ i ∷ g ∷ j ∷ []) ≡ some r
    → (is_digit a ≡ true)
      × (is_digit b ≡ true)
      × (is_digit c ≡ true)
      × (is_digit d ≡ true)
      × (h ≡ 45)
      × (is_digit e ≡ true)
      × (is_digit f ≡ true)
      × (i ≡ 45)
      × (is_digit g ≡ true)
      × (is_digit j ≡ true)
      × (date
            (1000 * value a + 100 * value b + 10 * value c + value d)
            (10 * value e + value f)
            (10 * value g + value j)
          ≡ r)
unfolding iso_date_pattern
pattern_tests a b c d h e f i g j r q = ground arith

pattern_text :
    (t : Text) (d : IsoDate) → iso_date_pattern t ≡ some d → (iso_text d ≡ t) × (d.year ≤ 9999)
unfolding iso_date_pattern iso_text
pattern_text (a ∷ b ∷ c ∷ d ∷ h ∷ e ∷ f ∷ i ∷ g ∷ j ∷ []) r q =
    let (da, db, dc, dd, hh, de, df, ii, dg, dj, same) = pattern_tests a b c d h e f i g j r q in
    let (ya, yb, yc, yd, top) = four_digits a b c d da db dc dd in
    let (me, mf) = two_digits e f de df in
    let (tg, tj) = two_digits g j dg dj in
    subst
      (λ (x : IsoDate). (iso_text x ≡ a ∷ b ∷ c ∷ d ∷ h ∷ e ∷ f ∷ i ∷ g ∷ j ∷ []) × (x.year ≤ 9999))
      same (cc (ya, yb, yc, yd, hh, me, mf, ii, tg, tj), top)
pattern_text t r q = ground arith

-- The digits of the numbers of a date name the numbers.
digits_of_four :
    (n : ℕ)
    → n ≤ 9999
    → 1000 * value (digit (n / 1000))
        + 100 * value (digit (n / 100))
        + 10 * value (digit (n / 10))
        + value (digit n)
      ≡ n
digits_of_four n h = omega arith

digits_of_two : (n : ℕ) → n ≤ 99 → 10 * value (digit (n / 10)) + value (digit n) ≡ n
digits_of_two n h = omega arith

pub pattern-iso_text :
    (d : IsoDate)
    → d.year ≤ 9999
    → d.month ≤ 99
    → d.day ≤ 99
    → iso_date_pattern (iso_text d) ≡ some d
unfolding iso_date_pattern iso_text
pattern-iso_text d y m n =
    simp is_digit-digit
      (ground (arith, digits_of_four d.year y, digits_of_two d.month m, digits_of_two d.day n))

pub day-le : (d : IsoDate) → IsCalendarDate d → d.day ≤ 99
day-le d h = ground arith

-- `isoDate` accepts the text of a date of the calendar, with a year from 100 to 9999, and gives the
-- date back.
pub iso_date-iso_text : (d : IsoDate) → IsCalendarDate d → iso_date (iso_text d) ≡ some d
unfolding iso_date
iso_date-iso_text d h =
    rw (pattern-iso_text d h.year_to (omega (arith, h)) (day-le d h))
      (rw (is_calendar_date_complete d h))

-- A text that `isoDate` accepts is the text of the date that it gives, and the date stands in the
-- calendar.
pub iso_date_sound :
    (t : Text) (d : IsoDate) → iso_date t ≡ some d → IsCalendarDate d × (iso_text d ≡ t)
unfolding iso_date
iso_date_sound t d h =
    let (e, pe, h') = >>=-eq-some (iso_date_pattern t) _ h in
    let (same, top) = pattern_text t e pe in
    let ok : is_calendar_date e ≡ true = ground arith in
    let q : e ≡ d = ground arith in
    subst (λ (x : IsoDate). IsCalendarDate x × (iso_text x ≡ t)) q
      (is_calendar_date_sound e top ok, same)
