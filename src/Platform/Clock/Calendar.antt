-- ===== src/Platform/Clock/Calendar.antt =====
-- Years, months and days of the Gregorian calendar, as `civil_datetime_utc` of src/platform_ops.rs
-- counts them: from March on, in eras of 400 years.
use konnector.Prelude.{
  ℕ, ◌≡◌, ◌≤◌, ◌<◌, ◌+◌, ◌-◌, ◌*◌, ◌/◌, ◌%◌, ◌^◌, Bool, true, false, not, ◌||◌, ◌&&◌, ◌==◌,
  Bool-cases, inl, inr, arith, if◌then◌else◌, ltb, leb,
}
use konnector.Platform.Clock.{DateTime, year_of_era, day_of_year, month_index}

pub year_of_era_max : (doe : ℕ) → doe < 146097 → year_of_era doe ≤ 399
unfolding year_of_era
year_of_era_max doe h = omega (arith, h)

pub days_before :
    (doe : ℕ) → doe < 146097 → (let y = year_of_era doe in 365 * y + y / 4 - y / 100 ≤ doe)
unfolding year_of_era
days_before doe h = omega (arith, h)

pub day_of_year_max : (doe : ℕ) → doe < 146097 → day_of_year doe ≤ 365
unfolding day_of_year year_of_era
day_of_year_max doe h = omega (arith, h)

unfoldable pub is_leap : ℕ → Bool
is_leap year = year % 4 == 0 && (not (year % 100 == 0) || year % 400 == 0)

-- The length of a month in the Gregorian calendar.
unfoldable pub days_in_month : ℕ → ℕ → ℕ
unfolding is_leap
days_in_month year month =
    if month == 2
    then if is_leap year then 29 else 28
    else if month == 4 || month == 6 || month == 9 || month == 11
    then 30
    else 31

-- A date of the Gregorian calendar and a time of the day.
pub record IsCivil (t : DateTime) : Type 0 where
  pub months : (1 ≤ t.month) × (t.month ≤ 12)
  pub days : (1 ≤ t.day) × (t.day ≤ days_in_month t.year t.month)
  pub hours : t.hour ≤ 23
  pub minutes : t.minute ≤ 59
  pub seconds : t.second ≤ 59

-- The 29th of February is the last day of a year that starts in March, before a leap year's March.
pub leap_february :
    (doe : ℕ)
    → doe < 146097
    → day_of_year doe ≡ 365
    → (let y = year_of_era doe + 1 in (y % 4 ≡ 0) × (y % 100 ≡ 0 → y % 400 ≡ 0))
unfolding day_of_year year_of_era
leap_february doe h last = (omega (arith, h, last), λ century. omega (arith, h, last, century))

pub short_month :
    (doy : ℕ)
    → doy ≤ 365
    → (let mp = month_index doy in
        let day = doy - (153 * mp + 2) / 5 + 1 in
        (mp ≡ 1 → day ≤ 30)
        × (mp ≡ 3 → day ≤ 30)
        × (mp ≡ 6 → day ≤ 30)
        × (mp ≡ 8 → day ≤ 30)
        × (mp ≡ 11 → day ≤ 29)
        × (mp ≡ 11 → doy ≤ 364 → day ≤ 28))
unfolding month_index
short_month doy h = (
  λ e. omega (arith, h, e),
  λ e. omega (arith, h, e),
  λ e. omega (arith, h, e),
  λ e. omega (arith, h, e),
  λ e. omega (arith, h, e),
  λ e before. omega (arith, h, e, before),
)

-- The day of the month, from the day of the year.
pub day_bounds :
    (doy : ℕ)
    → doy ≤ 365
    → (month_index doy ≤ 11)
      × ((153 * month_index doy + 2) / 5 ≤ doy)
      × (doy - (153 * month_index doy + 2) / 5 + 1 ≤ 31)
unfolding month_index
day_bounds doy h = (omega (arith, h), omega (arith, h), omega (arith, h))

-- The month and the year, in terms of the month from March on, for any of them.
pub put_months :
    (mp month : ℕ)
    → mp ≤ 11
    → month ≡ (if ltb mp 10 then mp + 3 else mp - 9)
    → (1 ≤ month)
      × (month ≤ 12)
      × (mp ≤ 9 → month ≡ mp + 3)
      × (10 ≤ mp → month ≡ mp - 9)
      × ((if leb month 2 then month + 9 else month - 3) ≡ mp)
put_months mp month h e = (ground arith, ground arith, ground arith, ground arith, ground arith)

pub put_year :
    (month whole bits : ℕ)
    → whole < 2 ^ 32 - 1
    → bits ≡ (if leb month 2 then whole + 1 else whole) % 2 ^ 32
    → ((if leb month 2 then bits - 1 else bits) ≡ whole) × (month ≡ 2 → bits ≡ whole + 1)
put_year month whole bits h e = elim (Bool-cases (leb month 2)) [
  | inl early ↦
      let same : bits ≡ (whole + 1) % 2 ^ 32 = ground (arith, early, e) in
      let kept : bits ≡ whole + 1 = omega (arith, h, same) in
      (ground (arith, early, kept), λ february. kept)
  | inr late ↦
      let same : bits ≡ whole % 2 ^ 32 = ground (arith, late, e) in
      let kept : bits ≡ whole = omega (arith, h, same) in
      (ground (arith, late, kept), λ february. absurd (ground (arith, late, february)))
]

-- A day fits its month.
pub fits_month :
    (year month mp day : ℕ)
    → mp ≤ 11
    → (mp ≤ 9 → month ≡ mp + 3)
    → (10 ≤ mp → month ≡ mp - 9)
    → day ≤ 31
    → (mp ≡ 1 → day ≤ 30)
    → (mp ≡ 3 → day ≤ 30)
    → (mp ≡ 6 → day ≤ 30)
    → (mp ≡ 8 → day ≤ 30)
    → (mp ≡ 11 → day ≤ 29)
    → (mp ≡ 11 → is_leap year ≡ false → day ≤ 28)
    → day ≤ days_in_month year month
unfolding days_in_month
fits_month year month mp day top low high long april june september november leap common =
    elim (Bool-cases (is_leap year)) [
      | inl is ↦ ground (arith, is)
      | inr isnt ↦ ground (arith, isnt)
    ]

pub leap_of :
    (y era : ℕ) → (y % 4 ≡ 0) × (y % 100 ≡ 0 → y % 400 ≡ 0) → is_leap (y + era * 400) ≡ true
unfolding is_leap
leap_of y era (fours, centuries) =
    let by_four : (y + era * 400) % 4 ≡ y % 4 = omega arith in
    let by_hundred : (y + era * 400) % 100 ≡ y % 100 = omega arith in
    let by_four_hundred : (y + era * 400) % 400 ≡ y % 400 = omega arith in
    ground (arith, by_four, by_hundred, by_four_hundred, fours, centuries)
