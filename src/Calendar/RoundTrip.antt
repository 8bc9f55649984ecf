-- ===== src/Calendar/RoundTrip.antt =====
-- The civil time of a count of milliseconds names that count.
use sedsnet_cpp.Common.{
  ℕ, ◌+◌, ◌-◌, ◌*◌, ◌/◌, ◌^◌, ◌≤◌, ◌<◌, true, some, ◌≡◌, refl, sym, ◌∙◌, arith,
}
use sedsnet_cpp.Common.Int.{pos}
use sedsnet_cpp.Calendar.{
  CivilTime, year_of_era, day_of_year, split_unix_ms, days_in_month, is_civil_time,
  network_time_to_unix_ms,
}
use sedsnet_cpp.Calendar.Days.{
  year_of_era_lt, day_of_year_lem, day_of_year_bound, is_leap_era, date_in_year-day,
  days_from_civil-date_in_year, date_in_year-time, network_time_to_unix_ms-valid,
  date_in_year-day_from_march, days_from_civil-day_number, split_unix_ms-day_number, day_number,
  day_from_march, march_year, day_number_lt, date_in_year-time_of,
}

-- A count of milliseconds that fits a uint64_t is split into a date and a time that are valid, and
-- that convert to the same count.
pub network_time_to_unix_ms-split_unix_ms :
    (ms : ℕ) → ms < 2 ^ 64 → network_time_to_unix_ms (split_unix_ms ms) ≡ some ms
unfolding split_unix_ms
network_time_to_unix_ms-split_unix_ms ms h =
    let z = ms / 1000 / 86400 + 719468 in
    let era = z / 146097 in
    let doe = z - era * 146097 in
    let below : doe < 146097 = omega arith in
    let yoe = year_of_era doe in
    let lt = year_of_era_lt doe below in
    let whole = day_of_year_lem doe below in
    let bound = day_of_year_bound doe below in
    let leap = is_leap_era yoe era in
    let days = days_from_civil-date_in_year yoe era (day_of_year doe yoe) ms lt (ground arith) in
    let valid = date_in_year-day (yoe + era * 400) (day_of_year doe yoe) ms (rw leap bound) in
    network_time_to_unix_ms-valid _ (ms / 1000 / 86400) ms valid
      (date_in_year-time (yoe + era * 400) (day_of_year doe yoe) ms) (days ∙ ground arith) h

is_civil_time-fields :
    (t : CivilTime)
    → is_civil_time t ≡ true
    → ((1 ≤ t.day) × (t.day ≤ days_in_month t.year t.month) × (1 ≤ t.month) × (t.month ≤ 12))
      × (t.hour < 24)
      × (t.minute < 60)
      × (t.second < 60)
      × (t.nanosecond < 1000000000)
unfolding is_civil_time
is_civil_time-fields t h = ground arith

same_fields :
    (t u : CivilTime)
    → t.year ≡ u.year
    → (t.month ≡ u.month) × (t.day ≡ u.day)
    → (t.hour ≡ u.hour)
      × (t.minute ≡ u.minute)
      × (t.second ≡ u.second)
      × (t.nanosecond ≡ u.nanosecond)
    → t ≡ u
same_fields t u y d s = cc

-- A valid date and time from the year 1970 to the year 500000000 converts to a count that fits a
-- uint64_t, and that is split into the same date and time with whole milliseconds.
pub split_unix_ms-network_time_to_unix_ms :
    (t : CivilTime) (y : ℕ)
    → is_civil_time t ≡ true
    → t.year ≡ pos y
    → 1970 ≤ y
    → y ≤ 500000000
    → (ms : ℕ) × (ms < 2 ^ 64)
      × (network_time_to_unix_ms t ≡ some ms)
      × (split_unix_ms ms ≡ record t { nanosecond = t.nanosecond / 1000000 * 1000000 })
split_unix_ms-network_time_to_unix_ms t y civil ey low high =
    let (date, h, m, s, ns) = is_civil_time-fields t civil in
    let dated : (1 ≤ t.day)
        × (t.day ≤ days_in_month (pos y) t.month)
        × (1 ≤ t.month)
        × (t.month ≤ 12) =
      rw (sym ey) date in
    let n = day_number y t.month t.day in
    let (from, days) = days_from_civil-day_number y t.month t.day low dated in
    let below = day_number_lt y t.month t.day high dated in
    let ms =
      ((n - 719468) * 86400 + t.hour * 3600 + t.minute * 60 + t.second) * 1000
      + t.nanosecond / 1000000 in
    let lt : ms < 2 ^ 64 = omega (arith, from, below, h, m, s, ns) in
    let whole : ms / 1000 / 86400 + 719468 ≡ n = omega (arith, from, h, m, s, ns) in
    let my = march_year y t.month in
    let doy = day_from_march t.month t.day in
    let (year_is, month_is, day_is) =
      date_in_year-day_from_march y t.month t.day ms (omega (arith, low)) dated in
    let (hour_is, minute_is, second_is, ns_is) =
      date_in_year-time_of my doy (n - 719468) t.hour t.minute t.second ms t.nanosecond h m s ns
        refl in
    (
      ms,
      lt,
      network_time_to_unix_ms-valid t (n - 719468) ms date (h, m, s, ns, refl) (rw ey days) lt,
      split_unix_ms-day_number y t.month t.day ms (omega (arith, low)) dated whole
          ∙ same_fields _ _ (year_is ∙ sym ey) (month_is, day_is)
              (hour_is, minute_is, second_is, ns_is),
    )
