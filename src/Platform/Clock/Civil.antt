-- ===== src/Platform/Clock/Civil.antt =====
-- The dates and times of `civil_datetime_utc` of src/platform_ops.rs.
use konnector.Prelude.{
  ℕ, ◌≡◌, ◌≤◌, ◌<◌, ◌+◌, ◌-◌, ◌*◌, ◌/◌, ◌%◌, ◌^◌, false, ◌==◌, refl, sym, ap, ◌∙◌, Bool-cases, inl,
  inr, arith, if◌then◌else◌, ltb, leb,
}
use konnector.Platform.Clock.{DateTime, year_of_era, day_of_year, month_index, civil_datetime_utc}
use konnector.Platform.Clock.Calendar.{
  year_of_era_max, days_before, day_of_year_max, leap_february, short_month, day_bounds, put_months,
  put_year, fits_month, leap_of, is_leap, days_in_month, IsCivil,
}

-- The seconds since the epoch of a date, by counting years from March: the reverse computation.
abbrev march_year : DateTime → ℕ
march_year t = if leb t.month 2 then t.year - 1 else t.year

abbrev march_month : DateTime → ℕ
march_month t = if leb t.month 2 then t.month + 9 else t.month - 3

unfoldable pub days_from_civil : DateTime → ℕ
days_from_civil t =
    let y = march_year t in
    let doy = (153 * march_month t + 2) / 5 + t.day - 1 in
    let yoe = y % 400 in y / 400 * 146097 + (yoe * 365 + yoe / 4 - yoe / 100 + doy) - 719468

unfoldable pub secs_from_civil : DateTime → ℕ
unfolding days_from_civil
secs_from_civil t = days_from_civil t * 86400 + t.hour * 3600 + t.minute * 60 + t.second

abbrev day_of_era : ℕ → ℕ
day_of_era secs = secs / 86400 + 719468 - (secs / 86400 + 719468) / 146097 * 146097

-- The year that starts in March, before the cast.
abbrev whole_year : ℕ → ℕ
whole_year secs = year_of_era (day_of_era secs) + (secs / 86400 + 719468) / 146097 * 400

abbrev march_index : ℕ → ℕ
march_index secs = month_index (day_of_year (day_of_era secs))

day_of_era_max : (secs : ℕ) → day_of_era secs < 146097
day_of_era_max secs = omega arith

whole_year_max : (secs : ℕ) → secs < 2 ^ 55 → whole_year secs < 2 ^ 32 - 1
whole_year_max secs h =
    let small = year_of_era_max (day_of_era secs) (day_of_era_max secs) in omega (arith, h, small)

civil_month :
    (secs : ℕ)
    → (let t = civil_datetime_utc secs in
        let mp = march_index secs in t.month ≡ (if ltb mp 10 then mp + 3 else mp - 9))
unfolding civil_datetime_utc
civil_month secs = refl

civil_year :
    (secs : ℕ)
    → (let t = civil_datetime_utc secs in
        t.year ≡ (if leb t.month 2 then whole_year secs + 1 else whole_year secs) % 2 ^ 32)
unfolding civil_datetime_utc
civil_year secs = refl

civil_day :
    (secs : ℕ)
    → (let mp = march_index secs in
        (civil_datetime_utc secs).day ≡ day_of_year (day_of_era secs) - (153 * mp + 2) / 5 + 1)
unfolding civil_datetime_utc
civil_day secs = refl

-- Outside a leap year the year that starts in March ends with the 28th of February.
common_february :
    (secs : ℕ) → is_leap (whole_year secs + 1) ≡ false → day_of_year (day_of_era secs) ≤ 364
common_february secs h =
    let doe = day_of_era secs in
    let top = day_of_year_max doe (day_of_era_max secs) in
    elim (Bool-cases (day_of_year doe == 365)) [
      | inr other ↦ ground (arith, top, other)
      | inl last ↦
          let leap =
            leap_of (year_of_era doe + 1) ((secs / 86400 + 719468) / 146097)
              (leap_february doe (day_of_era_max secs) (ground (arith, last))) in
          let same : year_of_era doe + 1 + (secs / 86400 + 719468) / 146097 * 400
              ≡ whole_year secs + 1 =
            omega arith in
          absurd (ground (arith, h, sym (ap is_leap same) ∙ leap))
    ]

march-civil :
    (secs : ℕ)
    → secs < 2 ^ 55
    → (let t = civil_datetime_utc secs in
        (march_year t ≡ whole_year secs) × (march_month t ≡ march_index secs))
march-civil secs h =
    let bounds =
      day_bounds (day_of_year (day_of_era secs))
        (day_of_year_max (day_of_era secs) (day_of_era_max secs)) in
    (
      (put_year (civil_datetime_utc secs).month (whole_year secs) (civil_datetime_utc secs).year
          (whole_year_max secs h) (civil_year secs)).0,
      (put_months (march_index secs) (civil_datetime_utc secs).month bounds.0 (civil_month secs)).4,
    )

civil-days :
    (secs : ℕ)
    → secs < 2 ^ 55
    → (let t = civil_datetime_utc secs in (1 ≤ t.day) × (t.day ≤ days_in_month t.year t.month))
civil-days secs h =
    let t = civil_datetime_utc secs in
    let doy = day_of_year (day_of_era secs) in
    let top = day_of_year_max (day_of_era secs) (day_of_era_max secs) in
    let (last, _, long) = day_bounds doy top in
    let (april, june, september, november, leap, common) = short_month doy top in
    let (_, _, low, high, _) = put_months (march_index secs) t.month last (civil_month secs) in
    let (_, year) =
      put_year t.month (whole_year secs) t.year (whole_year_max secs h) (civil_year secs) in
    (
      omega (arith, civil_day secs),
      fits_month t.year t.month (march_index secs) t.day last low high
          (omega (arith, civil_day secs, long)) (λ e. omega (arith, civil_day secs, april e))
          (λ e. omega (arith, civil_day secs, june e))
          (λ e. omega (arith, civil_day secs, september e))
          (λ e. omega (arith, civil_day secs, november e))
          (λ e. omega (arith, civil_day secs, leap e))
          (λ e not_leap.
            let february : t.month ≡ 2 = omega (arith, e, high (omega (arith, e))) in
            let ends = common_february secs (sym (ap is_leap (year february)) ∙ not_leap) in
            omega (arith, civil_day secs, common e ends)),
    )

civil-time :
    (secs : ℕ)
    → (let t = civil_datetime_utc secs in (t.hour ≤ 23) × (t.minute ≤ 59) × (t.second ≤ 59))
unfolding civil_datetime_utc
civil-time secs = (omega arith, omega arith, omega arith)

civil_datetime_utc-IsCivil : (secs : ℕ) → secs < 2 ^ 55 → IsCivil (civil_datetime_utc secs)
civil_datetime_utc-IsCivil secs h =
    let bounds =
      day_bounds (day_of_year (day_of_era secs))
        (day_of_year_max (day_of_era secs) (day_of_era_max secs)) in
    let (low, high, _, _, _) =
      put_months (march_index secs) (civil_datetime_utc secs).month bounds.0 (civil_month secs) in
    let (hours, minutes, seconds) = civil-time secs in
    record {
      months = (low, high);
      days = civil-days secs h;
      hours = hours;
      minutes = minutes;
      seconds = seconds;
    }

-- A day of an era, put together again from its year and its day of the year.
era_day :
    (doe : ℕ)
    → doe < 146097
    → (let y = year_of_era doe in y * 365 + y / 4 - y / 100 + day_of_year doe ≡ doe)
unfolding day_of_year
era_day doe h = omega (arith, days_before doe h)

put_together :
    (era doe yoe doy m days : ℕ)
    → yoe ≤ 399
    → yoe * 365 + yoe / 4 - yoe / 100 + doy ≡ doe
    → m ≤ doy
    → era * 146097 + doe ≡ days + 719468
    → (let y = yoe + era * 400 in
        y / 400 * 146097
          + (y % 400 * 365 + y % 400 / 4 - y % 400 / 100 + (m + (doy - m + 1) - 1))
          - 719468
        ≡ days)
put_together era doe yoe doy m days small whole before sum =
    let whole_years : (yoe + era * 400) / 400 ≡ era = omega (arith, small) in
    let in_era : (yoe + era * 400) % 400 ≡ yoe = omega (arith, small) in
    rw (whole_years, in_era) (omega (arith, whole, before, sum))

days_from_civil-civil :
    (secs : ℕ) → secs < 2 ^ 55 → days_from_civil (civil_datetime_utc secs) ≡ secs / 86400
unfolding days_from_civil
days_from_civil-civil secs h =
    let doe = day_of_era secs in
    let small = day_of_era_max secs in
    let (year, month) = march-civil secs h in
    let bounds = day_bounds (day_of_year doe) (day_of_year_max doe small) in
    rw (year, month, civil_day secs)
      (put_together ((secs / 86400 + 719468) / 146097) doe (year_of_era doe) (day_of_year doe)
        ((153 * month_index (day_of_year doe) + 2) / 5) (secs / 86400) (year_of_era_max doe small)
        (era_day doe small) bounds.1 (omega arith))

time_of_day :
    (secs : ℕ)
    → (let t = civil_datetime_utc secs in
        secs / 86400 * 86400 + t.hour * 3600 + t.minute * 60 + t.second ≡ secs)
unfolding civil_datetime_utc
time_of_day secs = omega arith

-- For every number of seconds since the epoch below 2^55, some thousand million years, the date is one
-- of the Gregorian calendar, with the day within the length of its month and the 29th of February in
-- leap years only, and the time one of the day; and counting back from them gives the seconds again,
-- so no two of these seconds are shown alike.
pub civil_datetime_utc_lem :
    (secs : ℕ)
    → secs < 2 ^ 55
    → IsCivil (civil_datetime_utc secs) × (secs_from_civil (civil_datetime_utc secs) ≡ secs)
unfolding secs_from_civil
civil_datetime_utc_lem secs h =
    (civil_datetime_utc-IsCivil secs h, rw (days_from_civil-civil secs h) (time_of_day secs))
