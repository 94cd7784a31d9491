-- ===== src/Platform/Clock.antt =====
-- src/platform_ops.rs: `civil_datetime_utc` and the timestamps, for seconds since the epoch, which
-- the program never asks for before it. The seconds are an i64 that is not negative, so nothing before
-- the cast of the year overflows; the year is cast to an i32, of which the model has the bits.
pub mod Calendar
pub mod Civil
use konnector.Prelude.{
  ℕ, ◌≡◌, ◌≤◌, ◌<◌, ◌+◌, ◌-◌, ◌*◌, ◌/◌, ◌%◌, ◌^◌, Bool, true, false, not, ◌||◌, ◌&&◌, ◌==◌, refl,
  sym, ap, ◌∙◌, Bool-cases, inl, inr, arith, if◌then◌else◌, ltb, leb, Text, codes, print_uint, ◌++◌,
  ◌∷◌,
}

pub record DateTime : Type 0 where
  pub year : ℕ
  pub month : ℕ
  pub day : ℕ
  pub hour : ℕ
  pub minute : ℕ
  pub second : ℕ

-- `as i32`: the 32 bits that are left.
abbrev as_i32 : ℕ → ℕ
as_i32 n = n % 2 ^ 32

-- The year of an era of 400 years, from the day of the era.
unfoldable pub year_of_era : ℕ → ℕ
year_of_era doe = (doe - doe / 1460 + doe / 36524 - doe / 146096) / 365

-- The day of a year that starts in March.
unfoldable pub day_of_year : ℕ → ℕ
unfolding year_of_era
day_of_year doe = let yoe = year_of_era doe in doe - (365 * yoe + yoe / 4 - yoe / 100)

unfoldable pub month_index : ℕ → ℕ
month_index doy = (5 * doy + 2) / 153

unfoldable pub civil_datetime_utc : ℕ → DateTime
unfolding year_of_era day_of_year month_index
civil_datetime_utc secs =
    let days = secs / 86400 in
    let tod = secs % 86400 in
    let z = days + 719468 in
    let era = z / 146097 in
    let doe = z - era * 146097 in
    let y = year_of_era doe + era * 400 in
    let doy = day_of_year doe in
    let mp = month_index doy in
    let month = if ltb mp 10 then mp + 3 else mp - 9 in
    record {
      year = as_i32 (if leb month 2 then y + 1 else y);
      month = month;
      day = doy - (153 * mp + 2) / 5 + 1;
      hour = tod / 3600;
      minute = tod % 3600 / 60;
      second = tod % 60;
    }

-- `{:02}` and `{:04}`
unfoldable pub two_digits : ℕ → Text
unfolding print_uint
two_digits n = if ltb n 10 then b'0' ∷ print_uint n else print_uint n

unfoldable pub four_digits : ℕ → Text
unfolding print_uint
four_digits n =
    if ltb n 10
    then codes "000" ++ print_uint n
    else if ltb n 100
    then codes "00" ++ print_uint n
    else if ltb n 1000
    then codes "0" ++ print_uint n
    else print_uint n

-- A negative year, of which the sign is one of the four characters.
unfoldable pub year_digits : ℕ → Text
unfolding four_digits two_digits print_uint
year_digits bits =
    let below = 2 ^ 32 - bits in
    if ltb bits (2 ^ 31)
    then four_digits bits
    else if ltb below 100
    then codes "-0" ++ two_digits below
    else codes "-" ++ print_uint below

unfoldable pub utc_timestamp : ℕ → Text
unfolding civil_datetime_utc two_digits year_digits
utc_timestamp secs =
    let t = civil_datetime_utc secs in
    year_digits t.year
    ++ two_digits t.month
    ++ two_digits t.day
    ++ two_digits t.hour
    ++ two_digits t.minute
    ++ two_digits t.second

unfoldable pub log_timestamp : ℕ → Text
unfolding civil_datetime_utc two_digits year_digits
log_timestamp secs =
    let t = civil_datetime_utc secs in
    year_digits t.year
    ++ codes "-"
    ++ two_digits t.month
    ++ codes "-"
    ++ two_digits t.day
    ++ codes "T"
    ++ two_digits t.hour
    ++ codes ":"
    ++ two_digits t.minute
    ++ codes ":"
    ++ two_digits t.second
    ++ codes "Z"
