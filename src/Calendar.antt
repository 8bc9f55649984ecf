-- ===== src/Calendar.antt =====
-- src/core.cpp: Unix milliseconds as a civil date and time, and back.
-- A count of milliseconds is a uint64_t, so the day number of `split_unix_ms` is not negative and
-- none of its steps overflows; a year that the caller gives is an int32_t of either sign.
pub mod Days
pub mod RoundTrip
use sedsnet_cpp.Common.{
  ℕ, ◌+◌, ◌-◌, ◌*◌, ◌/◌, ◌%◌, ◌^◌, Bool, true, false, not, ◌&&◌, ◌||◌, Option, none, some, ltb, leb,
  ◌==◌, if◌then◌else◌,
}
use sedsnet_cpp.Common.Int.{ℤ, pos, negsuc, diff}

-- The tuple that `split_unix_ms` returns.
pub record CivilTime : Type 0 where
  pub year : ℤ
  pub month : ℕ
  pub day : ℕ
  pub hour : ℕ
  pub minute : ℕ
  pub second : ℕ
  pub nanosecond : ℕ

-- The year of the era, from the day of the era.
unfoldable pub year_of_era : ℕ → ℕ
year_of_era doe = (doe - doe / 1460 + doe / 36524 - doe / 146096) / 365

unfoldable pub day_of_year : ℕ → ℕ → ℕ
day_of_year doe yoe = doe - (365 * yoe + yoe / 4 - yoe / 100)

-- The civil date of day `doy` (from March 1st) of a year that began in `year`.
unfoldable pub date_in_year : ℕ → ℕ → ℕ → CivilTime
date_in_year year doy unix_ms =
    let sod = unix_ms / 1000 % 86400 in
    let mp = (5 * doy + 2) / 153 in
    let month = if ltb mp 10 then mp + 3 else mp - 9 in
    record {
      year = pos (year + (if leb month 2 then 1 else 0));
      month = month;
      day = doy - (153 * mp + 2) / 5 + 1;
      hour = sod / 3600;
      minute = sod % 3600 / 60;
      second = sod % 60;
      nanosecond = unix_ms % 1000 * 1000000;
    }

unfoldable pub split_unix_ms : ℕ → CivilTime
unfolding year_of_era day_of_year date_in_year
split_unix_ms unix_ms =
    let z = unix_ms / 1000 / 86400 + 719468 in
    let era = z / 146097 in
    let doe = z - era * 146097 in
    let yoe = year_of_era doe in date_in_year (yoe + era * 400) (day_of_year doe yoe) unix_ms

-- A remainder by `%` on an int32_t is 0 for the same divisors as that of the magnitude.
magnitude : ℤ → ℕ
magnitude (pos n) = n
magnitude (negsuc n) = n + 1

unfoldable pub is_leap : ℕ → Bool
is_leap year = year % 4 == 0 && not (year % 100 == 0) || year % 400 == 0

unfoldable pub is_leap_year : ℤ → Bool
unfolding magnitude is_leap
is_leap_year year = is_leap (magnitude year)

unfoldable pub month_length : Bool → ℕ → ℕ
month_length leap month =
    if month == 1
      || month == 3
      || month == 5
      || month == 7
      || month == 8
      || month == 10
      || month == 12
    then 31
    else (if month == 4 || month == 6 || month == 9 || month == 11
        then 30
        else (if month == 2 then (if leap then 29 else 28) else 0))

unfoldable pub days_in_month : ℤ → ℕ → ℕ
unfolding is_leap_year month_length
days_in_month year month = month_length (is_leap_year year) month

-- `year -= 1`
abbrev previous : ℤ → ℤ
previous (pos n) = diff n 1
previous (negsuc n) = negsuc (n + 1)

unfoldable pub day_of_era : ℕ → ℕ → ℕ → ℕ
day_of_era yoe month day =
    let month_index = if ltb 2 month then month - 3 else month + 9 in
    let doy = (153 * month_index + 2) / 5 + day - 1 in yoe * 365 + yoe / 4 - yoe / 100 + doy

-- The two signs of the year: `/` on an int32_t rounds towards zero, so `(year - 399) / 400` is the
-- floor of `year / 400` for a year below zero.
unfoldable pub days_from_march : ℤ → ℕ → ℕ → ℤ
unfolding day_of_era
days_from_march (pos year) month day =
    let era = year / 400 in diff (era * 146097 + day_of_era (year - era * 400) month day) 719468
days_from_march (negsuc n) month day =
    let below = n / 400 + 1 in
    diff (day_of_era (below * 400 - (n + 1)) month day) (below * 146097 + 719468)

unfoldable pub days_from_civil : ℤ → ℕ → ℕ → ℤ
unfolding days_from_march
days_from_civil year month day =
    days_from_march (if leb month 2 then previous year else year) month day

-- `static_cast<uint64_t>` of an int64_t.
abbrev pub to_u64 : ℤ → ℕ
to_u64 (pos n) = n % 2 ^ 64
to_u64 (negsuc n) = 2 ^ 64 - 1 - n % 2 ^ 64

unfoldable pub is_civil_time : CivilTime → Bool
unfolding days_in_month
is_civil_time t = not (
    ltb t.month 1
    || ltb 12 t.month
    || ltb t.day 1
    || ltb (days_in_month t.year t.month) t.day
    || ltb 23 t.hour
    || ltb 59 t.minute
    || ltb 59 t.second
    || leb 1000000000 t.nanosecond)

unfoldable pub network_time_to_unix_ms : CivilTime → Option ℕ
unfolding is_civil_time days_from_civil
network_time_to_unix_ms t =
    let days = to_u64 (days_from_civil t.year t.month t.day) in
    let seconds = (days * 86400 + t.hour * 3600 + t.minute * 60 + t.second) % 2 ^ 64 in
    if is_civil_time t then some ((seconds * 1000 + t.nanosecond / 1000000) % 2 ^ 64) else none
