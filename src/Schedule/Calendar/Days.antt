-- ===== src/Schedule/Calendar/Days.antt =====
-- The calendar's days: a date and a day's number determine each other, and an instant shows the
-- day, in a zone, from which it was made there.
use ginem_api.Common.{
  ℕ, ◌+◌, ◌-◌, ◌*◌, ◌≤◌, ◌<◌, ◌≡◌, Bool, true, false, arith, if◌then◌else◌, ◌==◌, Bool-cases, inl,
  inr,
}
use ginem_api.Schedule.Calendar.{
  YearMonthDay, is_leap, days_before_year, days_before_month, day_number, year_of, month_of,
  date_of, instant, local_day, ms_per_day,
}
use ginem_api.Schedule.Calendar.Years.{days_before_year-suc, days_before_year_mono, year_of_bounds}

unfoldable pub days_in_month : Bool → ℕ → ℕ
unfolding days_before_month
days_in_month leap m =
    if m == 12 then 31 else days_before_month leap (m + 1) - days_before_month leap m

-- The date is one of the calendar's.
pub record IsDate (p : YearMonthDay) : Type 0 where
  pub month_low : 1 ≤ p.month
  pub month_high : p.month ≤ 12
  pub day_low : 1 ≤ p.day
  pub day_high : p.day ≤ days_in_month (is_leap p.year) p.month

month_of_bounds :
    (leap : Bool) (n : ℕ)
    → n < (if leap then 366 else 365)
    → (days_before_month leap (month_of leap n) ≤ n)
      × (1 ≤ month_of leap n)
      × (month_of leap n ≤ 12)
      × (n - days_before_month leap (month_of leap n) + 1 ≤ days_in_month leap (month_of leap n))
unfolding days_before_month month_of days_in_month
month_of_bounds true n h = ground arith
month_of_bounds false n h = ground arith

month_of_unique :
    (leap : Bool) (m d : ℕ)
    → 1 ≤ m
    → m ≤ 12
    → 1 ≤ d
    → d ≤ days_in_month leap m
    → (month_of leap (days_before_month leap m + (d - 1)) ≡ m)
      × (days_before_month leap m + (d - 1) < (if leap then 366 else 365))
unfolding days_before_month month_of days_in_month
month_of_unique true m d = ground arith
month_of_unique false m d = ground arith

day_in_year :
    (d : ℕ) → d - days_before_year (year_of d) < (if is_leap (year_of d) then 366 else 365)
day_in_year d = ground (arith, year_of_bounds d, days_before_year-suc (year_of d))

-- The number of a day's date is the day's number.
pub day_number-date_of : (d : ℕ) → day_number (date_of d) ≡ d
unfolding day_number date_of
day_number-date_of d = omega (
  arith,
  year_of_bounds d,
  month_of_bounds (is_leap (year_of d)) (d - days_before_year (year_of d)) (day_in_year d),
)

pub days_in_month_le : (leap : Bool) (m : ℕ) → 1 ≤ m → m ≤ 12 → days_in_month leap m ≤ 31
unfolding days_in_month
days_in_month_le true m h k = ground arith
days_in_month_le false m h k = ground arith

pub date_of-IsDate : (d : ℕ) → IsDate (date_of d)
unfolding date_of
date_of-IsDate d =
    let (below, low, high, fits) =
      month_of_bounds (is_leap (year_of d)) (d - days_before_year (year_of d)) (day_in_year d) in
    record { month_low = low; month_high = high; day_low = omega arith; day_high = fits }

pub day-date_of_le : (d : ℕ) → (date_of d).day ≤ 31
day-date_of_le d =
    let v = date_of-IsDate d in
    omega (
      arith,
      v.day_high,
      days_in_month_le (is_leap (date_of d).year) (date_of d).month v.month_low v.month_high,
    )

year_of_unique : (y d : ℕ) → days_before_year y ≤ d → d < days_before_year (y + 1) → year_of d ≡ y
year_of_unique y d low high = grind (
  arith,
  year_of_bounds d,
  days_before_year_mono (year_of d + 1) y,
  days_before_year_mono (y + 1) (year_of d),
)

year_of-day_number : (p : YearMonthDay) → IsDate p → year_of (day_number p) ≡ p.year
unfolding day_number
year_of-day_number p v =
    let (_, short) =
      month_of_unique (is_leap p.year) p.month p.day v.month_low v.month_high v.day_low
        v.day_high in
    year_of_unique p.year _ (omega arith) (ground (arith, days_before_year-suc p.year, short))

-- The date of a date's number is the date.
pub date_of-day_number : (p : YearMonthDay) → IsDate p → date_of (day_number p) ≡ p
unfolding date_of
date_of-day_number p v = rw (year_of-day_number p v, offset, same_month) (ground arith)
  where
    offset :
        day_number p - days_before_year p.year
        ≡ days_before_month (is_leap p.year) p.month + (p.day - 1)
    offset = unfold day_number in omega arith

    same_month :
        month_of (is_leap p.year) (days_before_month (is_leap p.year) p.month + (p.day - 1))
        ≡ p.month
    same_month =
        (month_of_unique (is_leap p.year) p.month p.day v.month_low v.month_high v.day_low
          v.day_high).0

pub local_day-instant_self :
    (offset_hours : ℕ) (p : YearMonthDay) (hour minute : ℕ)
    → offset_hours ≤ 24
    → hour ≤ 23
    → minute ≤ 59
    → local_day offset_hours (instant offset_hours p hour minute) ≡ day_number p
unfolding local_day instant
local_day-instant_self offset_hours p hour minute o h m = omega arith

-- The clock of the zone in which an instant was made shows its day, and whole days later the day
-- as much later.
pub local_day-instant :
    (offset_hours : ℕ) (p : YearMonthDay) (hour minute days : ℕ)
    → offset_hours ≤ 24
    → hour ≤ 23
    → minute ≤ 59
    → local_day offset_hours (instant offset_hours p hour minute + days * ms_per_day)
      ≡ day_number p + days
unfolding local_day instant
local_day-instant offset_hours p hour minute days o h m = omega arith

-- The date on which a day past the end of its month falls.
abbrev pub run_over : YearMonthDay → YearMonthDay
run_over p = record {
  year = p.year;
  month = p.month + 1;
  day = p.day - days_in_month (is_leap p.year) p.month;
}

pub day_number-run_over :
    (p : YearMonthDay)
    → 1 ≤ p.month
    → p.month ≤ 12
    → days_in_month (is_leap p.year) p.month < p.day
    → p.day ≤ 31
    → IsDate (run_over p) × (day_number (run_over p) ≡ day_number p)
unfolding days_in_month day_number
day_number-run_over p l h o d = elim (Bool-cases (is_leap p.year)) [
  | inl leap ↦ ground arith
  | inr common ↦ ground arith
]
