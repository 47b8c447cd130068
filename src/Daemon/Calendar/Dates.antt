-- ===== src/Daemon/Calendar/Dates.antt =====
-- The date that `unix_to_ymdhms` of daemon/crates/athar-daemon/src/ingest.rs gives, in the calendar.
use athar.Prelude.{
  ℕ, zero, suc, ◌+◌, ◌-◌, ◌*◌, ◌/◌, ◌%◌, ◌^◌, ◌<◌, ◌≤◌, ◌≡◌, ◌⊎◌, inl, inr, refl, Bool, true, false,
  ◌||◌, ltb, leb, ◌==◌, u32_size, if◌then◌else◌, arith, Bool-cases,
}
use athar.Daemon.Calendar.{Ymdhms, year_of_era, day_of_year, unix_to_ymdhms}

-- The calendar: the leap rule, the lengths of the months, and the days before a year and a month.
abbrev pub is_leap : ℕ → Bool
is_leap y = if y % 400 == 0 then true else if y % 100 == 0 then false else y % 4 == 0

abbrev pub month_length : ℕ → ℕ → ℕ
month_length y m =
    if m == 2
    then (if is_leap y then 29 else 28)
    else if (m == 4) || (m == 6) || (m == 9) || (m == 11)
    then 30
    else 31

unfoldable pub months_before : ℕ → ℕ → ℕ
months_before y zero = 0
months_before y (suc zero) = 0
months_before y (suc (suc m)) = months_before y (suc m) + month_length y (suc m)

unfoldable pub years_before : ℕ → ℕ
unfolding months_before
years_before zero = 0
years_before (suc y) = years_before y + months_before y 13

-- The days since the first of January of the year 0.
unfoldable pub day_number : ℕ → ℕ → ℕ → ℕ
unfolding years_before
day_number y m d = years_before y + months_before y m + d

leap_days : (y : ℕ) → months_before y 13 ≡ (if is_leap y then 366 else 365)
unfolding months_before
leap_days y = ground arith

-- The closed form of the days before a year.
years_before_lem :
    (y : ℕ) → years_before y + (y + 99) / 100 ≡ 365 * y + (y + 3) / 4 + (y + 399) / 400
unfolding years_before
years_before_lem zero = omega arith
years_before_lem (suc y) = ground (arith, years_before_lem y, leap_days y)

-- The day of the year, counted from March: the year of the era starts no later, and the next year
-- starts after the day.
day_of_year_lem :
    (doe : ℕ)
    → doe < 146_097
    → let yoe = year_of_era doe in
      (doe ≡ day_of_year doe yoe + 365 * yoe + yoe / 4 - yoe / 100)
      × (yoe < 400)
      × (day_of_year doe yoe ≤ 365)
day_of_year_lem doe h = (omega arith, omega arith, omega arith)

last_day_lem :
    (doe : ℕ)
    → doe < 146_097
    → let yoe = year_of_era doe in
      day_of_year doe yoe
      ≤ 364 + (yoe + 1) / 4 - yoe / 4 + (yoe + 1) / 400 - ((yoe + 1) / 100 - yoe / 100)
last_day_lem doe h = omega arith

-- A month from March on, by its place in a year that starts in March.
march :
    (y mp : ℕ)
    → mp ≤ 9
    → (months_before y (mp + 3) ≡ (if is_leap y then 60 else 59) + (153 * mp + 2) / 5)
      × (month_length y (mp + 3) + (153 * mp + 2) / 5 ≡ (153 * (mp + 1) + 2) / 5)
unfolding months_before
march y zero h = ground arith
march y (suc zero) h = ground arith
march y (suc (suc zero)) h = ground arith
march y (suc (suc (suc zero))) h = ground arith
march y (suc (suc (suc (suc zero)))) h = ground arith
march y (suc (suc (suc (suc (suc zero))))) h = ground arith
march y (suc (suc (suc (suc (suc (suc zero)))))) h = ground arith
march y (suc (suc (suc (suc (suc (suc (suc zero))))))) h = ground arith
march y (suc (suc (suc (suc (suc (suc (suc (suc zero)))))))) h = ground arith
march y (suc (suc (suc (suc (suc (suc (suc (suc (suc zero))))))))) h = ground arith
march y (suc (suc (suc (suc (suc (suc (suc (suc (suc (suc mp)))))))))) h = absurd (omega (arith, h))

-- A date that exists, and its day, counted from the first of January after a year.
record IsDate (Y doy y m d : ℕ) : Type 0 where
  month_in : (1 ≤ m) × (m ≤ 12)
  day_in : (1 ≤ d) × (d ≤ month_length y m)
  placed : day_number y m d + 306 ≡ years_before (Y + 1) + doy + 1

-- From March to December.
spring_IsDate :
    (Y doy : ℕ)
    → let mp = (5 * doy + 2) / 153 in
      mp ≤ 9 → IsDate Y doy Y (mp + 3) (doy - (153 * mp + 2) / 5 + 1)
unfolding day_number years_before
spring_IsDate Y doy h =
    let mp = (5 * doy + 2) / 153 in
    let (before, len) = march Y mp h in
    record {
      month_in = (omega arith, omega (arith, h));
      day_in = (omega arith, omega (arith, len));
      placed = ground (arith, before, leap_days Y);
    }

-- January and February, of the next year.
winter_IsDate :
    (Y doy : ℕ)
    → doy ≤ 364 + (if is_leap (Y + 1) then 1 else 0)
    → let mp = (5 * doy + 2) / 153 in
      10 ≤ mp → IsDate Y doy (Y + 1) (mp - 9) (doy - (153 * mp + 2) / 5 + 1)
unfolding day_number months_before
winter_IsDate Y doy last h = elim month [
  | inl (e, day) ↦ rw e (record {
    month_in = (omega arith, omega arith);
    day_in = (omega arith, omega (arith, day));
    placed = omega (arith, day, h, e);
  })
  | inr (e, day) ↦ rw e (record {
    month_in = (omega arith, omega arith);
    day_in = (omega arith, ground (arith, day, last));
    placed = omega (arith, day, h, e);
  })
]
  where
    month : (((5 * doy + 2) / 153 ≡ 10) × (doy ≤ 336)) ⊎ (((5 * doy + 2) / 153 ≡ 11) × (337 ≤ doy))
    month = ground (arith, h, last)

-- The date of a day counted from the first of March of the year 0.
record IsCivil (z y m d : ℕ) : Type 0 where
  month_in : (1 ≤ m) × (m ≤ 12)
  day_in : (1 ≤ d) × (d ≤ month_length y m)
  placed : day_number y m d ≡ z + 61

-- The year of an era as a year of the calendar.
years_before-era :
    (era yoe : ℕ)
    → yoe < 400
    → years_before (yoe + era * 400 + 1) + yoe / 100 ≡ era * 146_097 + 365 * yoe + yoe / 4 + 366
years_before-era era yoe h = omega (arith, years_before_lem (yoe + era * 400 + 1), h)

is_leap-era :
    (era yoe doy : ℕ)
    → yoe < 400
    → doy ≤ 364 + (yoe + 1) / 4 - yoe / 4 + (yoe + 1) / 400 - ((yoe + 1) / 100 - yoe / 100)
    → doy ≤ 364 + (if is_leap (yoe + era * 400 + 1) then 1 else 0)
is_leap-era era yoe doy h k = ground (arith, h, k)

-- The month and the year of a day of a year that starts in March, as the code computes them.
abbrev month_of : ℕ → ℕ
month_of mp = if ltb mp 10 then mp + 3 else mp - 9

abbrev year_of : ℕ → ℕ → ℕ
year_of Y m = if leb m 2 then Y + 1 else Y

month_of-IsDate :
    (Y doy : ℕ)
    → doy ≤ 364 + (if is_leap (Y + 1) then 1 else 0)
    → let mp = (5 * doy + 2) / 153 in
      IsDate Y doy (year_of Y (month_of mp)) (month_of mp) (doy - (153 * mp + 2) / 5 + 1)
month_of-IsDate Y doy last = go ((5 * doy + 2) / 153) refl
  where
    go :
        (mp : ℕ)
        → mp ≡ (5 * doy + 2) / 153
        → IsDate Y doy (year_of Y (month_of mp)) (month_of mp) (doy - (153 * mp + 2) / 5 + 1)
    go mp e = elim (Bool-cases (ltb mp 10)) [
      | inl early ↦
          let late_month : leb (mp + 3) 2 ≡ false = ground arith in
          rw (early, late_month, e) (spring_IsDate Y doy (ground (arith, early, e)))
      | inr late ↦
          let early_month : leb (mp - 9) 2 ≡ true = ground (arith, late, e, last) in
          rw (late, early_month, e) (winter_IsDate Y doy last (ground (arith, late, e)))
    ]

-- The time of a number of seconds since the first of January of 1970.
pub record IsTime (secs : ℕ) (t : Ymdhms) : Type 0 where
  pub month_in : (1 ≤ t.month) × (t.month ≤ 12)
  pub day_in : (1 ≤ t.day) × (t.day ≤ month_length t.year t.month)
  pub clock_in : (t.hour < 24) × (t.min < 60) × (t.sec < 60)
  pub counted :
      ((day_number t.year t.month t.day * 24 + t.hour) * 60 + t.min) * 60 + t.sec
      ≡ day_number 1970 1 1 * 86_400 + secs

epoch_day : day_number 1970 1 1 ≡ 719_529
unfolding day_number months_before
epoch_day = omega (arith, years_before_lem 1970)

-- The numbers that the code computes on the way, and what they satisfy.
era_IsDate :
    (z : ℕ)
    → let era = z / 146_097 in
      let doe = z - era * 146_097 in
      let yoe = year_of_era doe in
      let doy = day_of_year doe yoe in
      let mp = (5 * doy + 2) / 153 in
      let Y = yoe + era * 400 in
      let d = doy - (153 * mp + 2) / 5 + 1 in
      IsDate Y doy (year_of Y (month_of mp)) (month_of mp) d
      × (day_number (year_of Y (month_of mp)) (month_of mp) d ≡ z + 61)
      × (year_of Y (month_of mp) ≤ z / 146_097 * 400 + 400)
era_IsDate z = go (z / 146_097) (z - z / 146_097 * 146_097) (omega arith) (omega arith)
  where
    go :
        (era doe : ℕ)
        → doe < 146_097
        → z ≡ era * 146_097 + doe
        → let yoe = year_of_era doe in
          let doy = day_of_year doe yoe in
          let mp = (5 * doy + 2) / 153 in
          let Y = yoe + era * 400 in
          let d = doy - (153 * mp + 2) / 5 + 1 in
          IsDate Y doy (year_of Y (month_of mp)) (month_of mp) d
          × (day_number (year_of Y (month_of mp)) (month_of mp) d ≡ z + 61)
          × (year_of Y (month_of mp) ≤ era * 400 + 400)
    go era doe small e =
        let (day, year_in, day_in) = day_of_year_lem doe small in
        let yoe = year_of_era doe in
        let doy = day_of_year doe yoe in
        let v =
          month_of-IsDate (yoe + era * 400) doy
            (is_leap-era era yoe doy year_in (last_day_lem doe small)) in
        (
          v,
          omega (arith, v.placed, years_before-era era yoe year_in, day, e),
          ground (arith, year_in),
        )

-- The year is not cut to 32 bits.
year_fits :
    (secs y : ℕ)
    → secs < 2 ^ 56
    → y ≤ (secs / 86_400 + 719_468) / 146_097 * 400 + 400
    → y % u32_size ≡ y
year_fits secs y small h = omega (arith, small, h)

-- For less than 2 ^ 56 seconds since the first of January of 1970, the date and the time of day exist in the Gregorian
-- calendar, and counting the days from the first of January of 1970 to the date, and the hours, minutes
-- and seconds, gives the seconds back.
pub unix_to_ymdhms-IsTime : (secs : ℕ) → secs < 2 ^ 56 → IsTime secs (unix_to_ymdhms secs)
unfolding unix_to_ymdhms
unix_to_ymdhms-IsTime secs small =
    let (v, day, year_le) = era_IsDate (secs / 86_400 + 719_468) in
    let fits = year_fits secs _ small year_le in
    rw fits (record {
      month_in = v.month_in;
      day_in = v.day_in;
      clock_in = (omega arith, omega arith, omega arith);
      counted = omega (arith, day, epoch_day);
    })
