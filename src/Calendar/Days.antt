-- ===== src/Calendar/Days.antt =====
-- The steps between a day number and a civil date, in both directions.
use sedsnet_cpp.Common.{
  ℕ, ◌+◌, ◌-◌, ◌*◌, ◌/◌, ◌^◌, ◌≤◌, ◌<◌, true, some, ltb, leb, if◌then◌else◌, ◌≡◌, refl, sym, ap,
  ◌∙◌, arith,
}
use sedsnet_cpp.Common.Int.{pos, diff}
use sedsnet_cpp.Calendar.{
  CivilTime, year_of_era, day_of_year, date_in_year, split_unix_ms, is_leap, is_leap_year,
  month_length, days_in_month, day_of_era, days_from_march, days_from_civil, is_civil_time,
  network_time_to_unix_ms,
}

pub year_of_era_lt : (doe : ℕ) → doe < 146097 → year_of_era doe < 400
unfolding year_of_era
year_of_era_lt doe h = omega arith

-- The day of the year and the year of the era make up the day of the era.
pub day_of_year_lem :
    (doe : ℕ)
    → doe < 146097
    → let yoe = year_of_era doe in yoe * 365 + yoe / 4 - yoe / 100 + day_of_year doe yoe ≡ doe
unfolding year_of_era day_of_year
day_of_year_lem doe h = omega arith

-- Day 365 is the last of February in a leap year.
pub day_of_year_bound :
    (doe : ℕ)
    → doe < 146097
    → day_of_year doe (year_of_era doe) < (if is_leap (year_of_era doe + 1) then 366 else 365)
unfolding year_of_era day_of_year is_leap
day_of_year_bound doe h = ground arith

pub is_leap_era : (yoe era : ℕ) → is_leap (yoe + era * 400 + 1) ≡ is_leap (yoe + 1)
unfolding is_leap
is_leap_era yoe era = ground arith

pub date_in_year-day :
    (year doy ms : ℕ)
    → doy < (if is_leap (year + 1) then 366 else 365)
    → let t = date_in_year year doy ms in
      (1 ≤ t.day) × (t.day ≤ days_in_month t.year t.month) × (1 ≤ t.month) × (t.month ≤ 12)
unfolding date_in_year days_in_month is_leap_year month_length
date_in_year-day year doy ms h = ground arith

pub days_from_civil-date_in_year :
    (yoe era doy ms : ℕ)
    → yoe < 400
    → doy < 366
    → let t = date_in_year (yoe + era * 400) doy ms in
      days_from_civil t.year t.month t.day
      ≡ diff (era * 146097 + (yoe * 365 + yoe / 4 - yoe / 100 + doy)) 719468
unfolding date_in_year days_from_civil days_from_march day_of_era
days_from_civil-date_in_year yoe era doy ms hy hd = ground arith

-- The time of the day, with the day number, makes up the count.
pub date_in_year-time :
    (year doy ms : ℕ)
    → let t = date_in_year year doy ms in
      (t.hour < 24)
      × (t.minute < 60)
      × (t.second < 60)
      × (t.nanosecond < 1000000000)
      × ((ms / 1000 / 86400 * 86400 + t.hour * 3600 + t.minute * 60 + t.second) * 1000
            + t.nanosecond / 1000000
          ≡ ms)
unfolding date_in_year
date_in_year-time year doy ms = (omega arith, omega arith, omega arith, omega arith, omega arith)

pub is_civil_time-valid :
    (t : CivilTime)
    → (1 ≤ t.day) × (t.day ≤ days_in_month t.year t.month) × (1 ≤ t.month) × (t.month ≤ 12)
    → t.hour < 24
    → t.minute < 60
    → t.second < 60
    → t.nanosecond < 1000000000
    → is_civil_time t ≡ true
unfolding is_civil_time
is_civil_time-valid t date h m s ns = ground arith

pub network_time_to_unix_ms-valid :
    (t : CivilTime) (days ms : ℕ)
    → (1 ≤ t.day) × (t.day ≤ days_in_month t.year t.month) × (1 ≤ t.month) × (t.month ≤ 12)
    → (t.hour < 24)
      × (t.minute < 60)
      × (t.second < 60)
      × (t.nanosecond < 1000000000)
      × ((days * 86400 + t.hour * 3600 + t.minute * 60 + t.second) * 1000 + t.nanosecond / 1000000
          ≡ ms)
    → days_from_civil t.year t.month t.day ≡ pos days
    → ms < 2 ^ 64
    → network_time_to_unix_ms t ≡ some ms
unfolding network_time_to_unix_ms
network_time_to_unix_ms-valid t days ms date (h, m, s, ns, sum) e lt =
    let civil = is_civil_time-valid t date h m s ns in
    rw (network_time_to_unix_ms, civil, e) (ap some (omega arith))

pub year_of_era_lem :
    (yoe doy : ℕ)
    → yoe < 400
    → doy < (if is_leap (yoe + 1) then 366 else 365)
    → let doe = yoe * 365 + yoe / 4 - yoe / 100 + doy in
      (doe < 146097) × (year_of_era doe ≡ yoe) × (day_of_year doe yoe ≡ doy)
unfolding year_of_era day_of_year is_leap
year_of_era_lem yoe doy hy hd = ground arith

abbrev pub day_from_march : ℕ → ℕ → ℕ
day_from_march month day = (153 * (if ltb 2 month then month - 3 else month + 9) + 2) / 5 + day - 1

abbrev pub march_year : ℕ → ℕ → ℕ
march_year year month = if leb month 2 then year - 1 else year

pub day_from_march_bound :
    (year month day : ℕ)
    → 1 ≤ year
    → (1 ≤ day) × (day ≤ days_in_month (pos year) month) × (1 ≤ month) × (month ≤ 12)
    → day_from_march month day < (if is_leap (march_year year month + 1) then 366 else 365)
unfolding days_in_month is_leap_year month_length
day_from_march_bound year month day hy h = ground arith

pub date_in_year-day_from_march :
    (year month day ms : ℕ)
    → 1 ≤ year
    → (1 ≤ day) × (day ≤ days_in_month (pos year) month) × (1 ≤ month) × (month ≤ 12)
    → let t = date_in_year (march_year year month) (day_from_march month day) ms in
      (t.year ≡ pos year) × (t.month ≡ month) × (t.day ≡ day)
unfolding date_in_year days_in_month is_leap_year month_length
date_in_year-day_from_march year month day ms hy h = (ground arith, ground arith, ground arith)

abbrev pub day_number : ℕ → ℕ → ℕ → ℕ
day_number year month day =
    let my = march_year year month in
    let yoe = my - my / 400 * 400 in
    my / 400 * 146097 + (yoe * 365 + yoe / 4 - yoe / 100 + day_from_march month day)

pub days_from_civil-day_number :
    (year month day : ℕ)
    → 1970 ≤ year
    → (1 ≤ day) × (day ≤ days_in_month (pos year) month) × (1 ≤ month) × (month ≤ 12)
    → (719468 ≤ day_number year month day)
      × (days_from_civil (pos year) month day ≡ pos (day_number year month day - 719468))
unfolding days_from_civil days_from_march day_of_era
days_from_civil-day_number year month day hy h = (ground arith, ground arith)

pub split_unix_ms_era :
    (ms era doe : ℕ)
    → ms / 1000 / 86400 + 719468 ≡ era * 146097 + doe
    → doe < 146097
    → split_unix_ms ms
      ≡ date_in_year (year_of_era doe + era * 400) (day_of_year doe (year_of_era doe)) ms
unfolding split_unix_ms
split_unix_ms_era ms era doe e h =
    let z = ms / 1000 / 86400 + 719468 in
    let same : z / 146097 ≡ era = omega arith in
    let left : z - z / 146097 * 146097 ≡ doe = omega arith in
    ap (λ n. date_in_year (year_of_era n + z / 146097 * 400) (day_of_year n (year_of_era n)) ms)
      left
    ∙ ap (λ n. date_in_year (year_of_era doe + n * 400) (day_of_year doe (year_of_era doe)) ms) same

pub split_unix_ms-day_number :
    (year month day ms : ℕ)
    → 1 ≤ year
    → (1 ≤ day) × (day ≤ days_in_month (pos year) month) × (1 ≤ month) × (month ≤ 12)
    → ms / 1000 / 86400 + 719468 ≡ day_number year month day
    → split_unix_ms ms ≡ date_in_year (march_year year month) (day_from_march month day) ms
split_unix_ms-day_number year month day ms hy h e =
    let my = march_year year month in
    let yoe = my - my / 400 * 400 in
    let doy = day_from_march month day in
    let whole : yoe + my / 400 * 400 ≡ my = omega arith in
    let leap : is_leap (yoe + 1) ≡ is_leap (my + 1) =
      sym (is_leap_era yoe (my / 400)) ∙ ap (λ y. is_leap (y + 1)) whole in
    let bound : doy < (if is_leap (yoe + 1) then 366 else 365) =
      rw leap (day_from_march_bound year month day hy h) in
    let (below, of_era, of_year) = year_of_era_lem yoe doy (omega arith) bound in
    split_unix_ms_era ms (my / 400) (yoe * 365 + yoe / 4 - yoe / 100 + doy) e below
    ∙ rw (of_era, of_year, whole) refl

pub day_number_lt :
    (year month day : ℕ)
    → year ≤ 500000000
    → (1 ≤ day) × (day ≤ days_in_month (pos year) month) × (1 ≤ month) × (month ≤ 12)
    → day_number year month day < 182621260000
unfolding days_in_month is_leap_year month_length
day_number_lt year month day hy h = ground arith

-- The time of the day that a count was made of.
pub date_in_year-time_of :
    (year doy days hour minute second ms ns : ℕ)
    → hour < 24
    → minute < 60
    → second < 60
    → ns < 1000000000
    → ms ≡ (days * 86400 + hour * 3600 + minute * 60 + second) * 1000 + ns / 1000000
    → let t = date_in_year year doy ms in
      (t.hour ≡ hour)
      × (t.minute ≡ minute)
      × (t.second ≡ second)
      × (t.nanosecond ≡ ns / 1000000 * 1000000)
unfolding date_in_year
date_in_year-time_of year doy days hour minute second ms ns h m s n e =
    (omega arith, omega arith, omega arith, omega arith)
