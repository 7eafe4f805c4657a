-- ===== src/Dates/Add.antt =====
-- shared/domain.ts: `addIsoDateDays` moves the epoch day by the offset, and the epoch day orders
-- dates as the calendar does.
use native.Mathlib.Decide.{dec_lt}
use opencoi.Base.{
  ℕ, ◌+◌, ◌-◌, ◌≤◌, ◌<◌, ◌≡◌, refl, ap, ◌∙◌, arith, some, none, some-inj, sym, leb, get_or, true,
  false,
}
use opencoi.Base.Int.{ℤ, pos, negsuc, sub_ℕ, ◌+ℤ◌}
use opencoi.Dates.{
  IsoDate, days_before_year, leap_day, year_of, date_of_day, iso_text, iso_string_prefix, iso_date,
  epoch, iso_date_to_epoch_day, add_iso_date_days, iso_date_pattern,
}
use opencoi.Dates.Calendar.{
  IsCalendarDate, day_number, utc_day_lem, date_of_day_fields, year_of_bounds,
  days_before_year_mono, days_in_month-le, leap_day-le, days_before_year-suc, in_year,
}
use opencoi.Dates.Parse.{iso_date-iso_text, iso_date_sound, late_year, pattern-iso_text, day-le}

+ℤ-epoch : (a : ℕ) (n : ℤ) → sub_ℕ a epoch +ℤ n +ℤ pos epoch ≡ pos a +ℤ n
unfolding ◌+ℤ◌
+ℤ-epoch a n = ground arith

sub_ℕ-epoch : (m : ℕ) → sub_ℕ m epoch +ℤ pos epoch ≡ pos m
unfolding ◌+ℤ◌
sub_ℕ-epoch m = ground arith

iso_string_prefix_short : (d : IsoDate) → d.year ≤ 9999 → iso_string_prefix d ≡ iso_text d
unfolding iso_string_prefix
iso_string_prefix_short d h = ground arith

epoch_day-add : (a k : ℕ) → sub_ℕ a epoch +ℤ pos k ≡ sub_ℕ (a + k) epoch
unfolding ◌+ℤ◌
epoch_day-add a k = ground arith

last_century : days_before_year 9900 + 36500 < days_before_year 10000
unfolding days_before_year
last_century = omega arith

epoch_day_of_shift : (a b : ℕ) (n : ℤ) → pos a +ℤ n ≡ pos b → sub_ℕ b epoch ≡ sub_ℕ a epoch +ℤ n
unfolding ◌+ℤ◌
epoch_day_of_shift a b n h = ground arith

early_year : (n y : ℕ) → n < days_before_year (y + 1) → year_of n ≤ y
early_year n y h = grind (arith, year_of_bounds n, days_before_year_mono (y + 1) (year_of n))

date_of_day-IsCalendarDate :
    (n : ℕ) → days_before_year 100 ≤ n → n < days_before_year 10000 → IsCalendarDate (date_of_day n)
date_of_day-IsCalendarDate n lo hi =
    let (_, m1, m12, d1, dn) = date_of_day_fields n in
    record {
      year_from = unfold date_of_day in (late_year n 100 lo);
      year_to = unfold date_of_day in (early_year n 9999 hi);
      month_from = m1;
      month_to = m12;
      day_from = d1;
      day_to = dn;
    }

text_injective :
    (e f : IsoDate)
    → IsCalendarDate e
    → f.year ≤ 9999
    → f.month ≤ 99
    → f.day ≤ 99
    → iso_text e ≡ iso_text f
    → e ≡ f
text_injective e f h y m d q = some-inj (
    sym (pattern-iso_text e h.year_to (omega (arith, h)) (day-le e h))
    ∙ ap iso_date_pattern q
    ∙ pattern-iso_text f y m d)

text_not_signed : (e f : IsoDate) → 10000 ≤ f.year → iso_text e ≡ iso_string_prefix f → ⊥
unfolding iso_text iso_string_prefix
text_not_signed e f h q =
    let long : leb f.year 9999 ≡ false = ground arith in
    sign_is_no_digit _ (ap (λ t. get_or t 0 0) (rw long at q))
  where
    sign_is_no_digit : (n : ℕ) → 48 + n ≡ 43 → ⊥
    sign_is_no_digit n h = omega arith

-- A date that the prefix of a day's text stands for is the date of the day.
prefix_names_day :
    (n : ℕ) (e : IsoDate)
    → iso_date (iso_string_prefix (date_of_day n)) ≡ some e
    → IsCalendarDate e × (date_of_day n ≡ e)
unfolding iso_string_prefix
prefix_names_day n e h =
    let (cal, same) = iso_date_sound (iso_string_prefix (date_of_day n)) e h in
    let (_, _, m12, _, dn) = date_of_day_fields n in
    elim (dec_lt 9999 (date_of_day n).year) [
      | yes long ↦ absurd (text_not_signed e (date_of_day n) long same)
      | no short ↦
          let test : leb (date_of_day n).year 9999 ≡ true = ground arith in
          (
            cal,
            sym (
                text_injective e (date_of_day n) cal (omega arith) (omega (arith, m12))
                  (omega (
                    arith,
                    dn,
                    days_in_month-le (leap_day (date_of_day n).year) ((date_of_day n).month - 1)
                        (leap_day-le (date_of_day n).year),
                  ))
                  (rw (test, iso_string_prefix) at same)),
          )
    ]

module _ (d : IsoDate) (h : IsCalendarDate d) (n : ℤ) where
  shifted : iso_date_to_epoch_day d +ℤ n +ℤ pos epoch ≡ pos (day_number d) +ℤ n
  unfolding iso_date_to_epoch_day
  shifted = rw (utc_day_lem d h) (+ℤ-epoch (day_number d) n)

  -- Where `addIsoDateDays` returns, the result is a date of the calendar whose epoch day is that of
  -- the argument, a date of the calendar, plus the offset, which may be negative.
  pub add_iso_date_days_sound :
      (e : IsoDate)
      → add_iso_date_days d n ≡ some e
      → IsCalendarDate e × (iso_date_to_epoch_day e ≡ iso_date_to_epoch_day d +ℤ n)
  unfolding add_iso_date_days
  add_iso_date_days_sound e q =
      go (pos (day_number d) +ℤ n) refl (rw (shifted, add_iso_date_days) at q)
    where
      go :
          (t : ℤ)
          → pos (day_number d) +ℤ n ≡ t
          → elim t [ pos m ↦ iso_date (iso_string_prefix (date_of_day m)) | negsuc m ↦ none ]
            ≡ some e
          → IsCalendarDate e × (iso_date_to_epoch_day e ≡ iso_date_to_epoch_day d +ℤ n)
      go (negsuc m) p k = ground arith
      go (pos m) p k =
          let (cal, same) = prefix_names_day m e k in
          (
            cal,
            unfold iso_date_to_epoch_day in
                (rw (utc_day_lem d h) (
                  rw (utc_day_lem e cal) (
                    rw (← same)
                      (rw ((date_of_day_fields m).0) (epoch_day_of_shift (day_number d) m n p))))),
          )

  -- It returns whenever the day lies in the years 100 to 9999.
  pub add_iso_date_days_returns :
      (m : ℕ)
      → iso_date_to_epoch_day d +ℤ n ≡ sub_ℕ m epoch
      → days_before_year 100 ≤ m
      → m < days_before_year 10000
      → (e : IsoDate) × (add_iso_date_days d n ≡ some e)
  unfolding add_iso_date_days
  add_iso_date_days_returns m p lo hi =
      let cal = date_of_day-IsCalendarDate m lo hi in
      (
        date_of_day m,
        rw (p, add_iso_date_days)
            (rw (sub_ℕ-epoch m) (
              rw (iso_string_prefix_short (date_of_day m) cal.year_to)
                (iso_date-iso_text (date_of_day m) cal))),
      )

  -- The through-date of a requirement: up to 36,500 days from a date before year 9900.
  pub add_days_returns :
      (k : ℕ)
      → n ≡ pos k
      → k ≤ 36500
      → d.year < 9900
      → (e : IsoDate) × (add_iso_date_days d n ≡ some e)
  add_days_returns k e top early =
      add_iso_date_days_returns (day_number d + k)
        (rw e
          (unfold iso_date_to_epoch_day in (rw (utc_day_lem d h) (epoch_day-add (day_number d) k))))
        (omega (arith, days_before_year_mono 100 d.year h.year_from))
        (omega (
          arith,
          top,
          in_year (leap_day d.year) (d.month - 1) (d.day - 1) (leap_day-le d.year)
              (omega (arith, h)) (omega (arith, h)),
          days_before_year-suc d.year,
          days_before_year_mono (d.year + 1) 9900 (omega arith),
          last_century,
        ))
