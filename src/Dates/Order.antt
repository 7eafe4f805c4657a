-- ===== src/Dates/Order.antt =====
-- shared/domain.ts: epoch days compare as the calendar does.
use native.Mathlib.Decide.{dec_lt}
use opencoi.Base.{ℕ, ◌+◌, ◌-◌, ◌≤◌, ◌<◌, ◌≡◌, ◌⊎◌, ◌↔◌, inl, inr, sym, arith}
use opencoi.Base.Int.{sub_ℕ, ◌≤ℤ◌}
use opencoi.Dates.{IsoDate, leap_day, days_before_month, epoch, iso_date_to_epoch_day}
use opencoi.Dates.Calendar.{
  IsCalendarDate, day_number, utc_day_lem, days_in_month, in_year, leap_day-le,
  days_before_year-suc, days_before_year_mono,
}

days_before_month-suc :
    (leap m : ℕ)
    → leap ≤ 1
    → m < 11
    → days_before_month leap (m + 1) ≡ days_before_month leap m + days_in_month leap m
unfolding days_before_month
days_before_month-suc leap m l h = ground arith

days_before_month_mono :
    (leap m n : ℕ) → leap ≤ 1 → m ≤ n → n ≤ 11 → days_before_month leap m ≤ days_before_month leap n
unfolding days_before_month
days_before_month_mono leap m n l h k = ground arith

sub_epoch_iff : (m n : ℕ) → (sub_ℕ m epoch ≤ℤ sub_ℕ n epoch) ↔ (m ≤ n)
sub_epoch_iff m n = (λ h. ground arith, λ h. ground arith)

-- The earlier year, then the earlier month, then the day.
abbrev pub NotAfter : IsoDate → IsoDate → Type 0
NotAfter a b =
    (a.year < b.year)
    ⊎ ((a.year ≡ b.year) × ((a.month < b.month) ⊎ ((a.month ≡ b.month) × (a.day ≤ b.day))))

module _ (a b : IsoDate) (ha : IsCalendarDate a) (hb : IsCalendarDate b) where
  earlier_year : a.year < b.year → day_number a < day_number b
  earlier_year h = omega (
    arith,
    in_year (leap_day a.year) (a.month - 1) (a.day - 1) (leap_day-le a.year) (omega (arith, ha))
        (omega (arith, ha)),
    days_before_year-suc a.year,
    days_before_year_mono (a.year + 1) b.year (omega arith),
  )

  earlier_month : a.year ≡ b.year → a.month < b.month → day_number a < day_number b
  earlier_month y h = rw (← y) (
      omega (
        arith,
        ha.day_to,
        ha.day_from,
        days_before_month-suc (leap_day a.year) (a.month - 1) (leap_day-le a.year)
            (omega (arith, hb, ha)),
        days_before_month_mono (leap_day a.year) (a.month - 1 + 1) (b.month - 1)
            (leap_day-le a.year) (omega (arith, ha)) (omega (arith, hb)),
      ))

  same_month : a.year ≡ b.year → a.month ≡ b.month → day_number a + b.day ≡ day_number b + a.day
  same_month y m = rw (← y, ← m) (omega (arith, ha.day_from, hb.day_from))

module _ (a b : IsoDate) (ha : IsCalendarDate a) (hb : IsCalendarDate b) where
  day_number-le : NotAfter a b → day_number a ≤ day_number b
  day_number-le (inl y) = omega (arith, earlier_year a b ha hb y)
  day_number-le (inr (y, inl m)) = omega (arith, earlier_month a b ha hb y m)
  day_number-le (inr (y, inr (m, d))) = omega (arith, same_month a b ha hb y m, d)

  same_year : a.year ≡ b.year → day_number a ≤ day_number b → NotAfter a b
  same_year y h = elim (dec_lt a.month b.month) [
    | yes m ↦ inr (y, inl m)
    | no m ↦ elim (dec_lt b.month a.month) [
      | yes k ↦ absurd (omega (arith, earlier_month b a hb ha (sym y) k, h))
      | no k ↦
          let e : a.month ≡ b.month = omega arith in
          inr (y, inr (e, omega (arith, same_month a b ha hb y e, h)))
    ]
  ]

  NotAfter_of_number : day_number a ≤ day_number b → NotAfter a b
  NotAfter_of_number h = elim (dec_lt a.year b.year) [
    | yes y ↦ inl y
    | no y ↦ elim (dec_lt b.year a.year) [
      | yes k ↦ absurd (omega (arith, earlier_year b a hb ha k, h))
      | no k ↦ same_year (omega arith) h
    ]
  ]

  -- For dates of the calendar the order of epoch days, which may be negative, is that of the
  -- calendar: the earlier year, then the earlier month, then the day.
  pub epoch_day-le_iff : (iso_date_to_epoch_day a ≤ℤ iso_date_to_epoch_day b) ↔ NotAfter a b
  unfolding iso_date_to_epoch_day
  epoch_day-le_iff =
      rw (utc_day_lem a ha, utc_day_lem b hb)
        (
          (λ h. NotAfter_of_number ((sub_epoch_iff (day_number a) (day_number b)).0 h)),
          λ h. (sub_epoch_iff (day_number a) (day_number b)).1 (day_number-le h),
        )
