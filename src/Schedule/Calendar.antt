-- ===== src/Schedule/Calendar.antt =====
-- What the schedule code uses of JavaScript's `Date` and `Intl`: instants in milliseconds, the
-- proleptic Gregorian calendar of ECMAScript, a date-time string with a UTC offset read as an
-- instant, and an instant shown as a date in a zone of fixed offset.
-- Instants count from one day before 0000-01-01T00:00Z, so that none is negative; the code only
-- compares instants, subtracts them and adds whole days.
pub mod Years
pub mod Days
use ginem_api.Common.{
  ℕ, suc, ◌+◌, ◌-◌, ◌*◌, ◌/◌, ◌%◌, Bool, ◌&&◌, ◌||◌, not, true, ltb, leb, ◌==◌, if◌then◌else◌,
}

pub record YearMonthDay : Type 0 where
  pub year : ℕ
  pub month : ℕ
  pub day : ℕ

unfoldable pub is_leap : ℕ → Bool
is_leap y = y % 4 == 0 && (not (y % 100 == 0) || y % 400 == 0)

-- Days from 0000-01-01 to the first day of a year.
unfoldable pub days_before_year : ℕ → ℕ
days_before_year y = 365 * y + (y + 3) / 4 + (y + 399) / 400 - (y + 99) / 100

-- Days from the first day of a year to the first day of a month.
unfoldable pub days_before_month : Bool → ℕ → ℕ
days_before_month leap m =
    let l : ℕ = if leap then 1 else 0 in
    if leb m 1
    then 0
    else if m == 2
    then 31
    else if m == 3
    then 59 + l
    else if m == 4
    then 90 + l
    else if m == 5
    then 120 + l
    else if m == 6
    then 151 + l
    else if m == 7
    then 181 + l
    else if m == 8
    then 212 + l
    else if m == 9
    then 243 + l
    else if m == 10
    then 273 + l
    else if m == 11
    then 304 + l
    else 334 + l

-- The day's number; a day past the end of its month runs on into the next one.
unfoldable pub day_number : YearMonthDay → ℕ
day_number p = days_before_year p.year + days_before_month (is_leap p.year) p.month + (p.day - 1)

-- The year that holds a day: an estimate by the mean length of a year, corrected by one.
unfoldable pub year_of : ℕ → ℕ
year_of d =
    let y = d * 400 / 146097 in
    if ltb d (days_before_year y)
    then y - 1
    else if leb (days_before_year (y + 1)) d
    then y + 1
    else y

unfoldable pub month_of : Bool → ℕ → ℕ
month_of leap n =
    if ltb n (days_before_month leap 2)
    then 1
    else if ltb n (days_before_month leap 3)
    then 2
    else if ltb n (days_before_month leap 4)
    then 3
    else if ltb n (days_before_month leap 5)
    then 4
    else if ltb n (days_before_month leap 6)
    then 5
    else if ltb n (days_before_month leap 7)
    then 6
    else if ltb n (days_before_month leap 8)
    then 7
    else if ltb n (days_before_month leap 9)
    then 8
    else if ltb n (days_before_month leap 10)
    then 9
    else if ltb n (days_before_month leap 11)
    then 10
    else if ltb n (days_before_month leap 12)
    then 11
    else 12

-- The date of a day's number.
unfoldable pub date_of : ℕ → YearMonthDay
date_of d =
    let y = year_of d in
    let n = d - days_before_year y in
    let m = month_of (is_leap y) n in
    record { year = y; month = m; day = n - days_before_month (is_leap y) m + 1 }

abbrev pub ms_per_minute : ℕ
ms_per_minute = 60000

abbrev pub ms_per_hour : ℕ
ms_per_hour = 3600000

abbrev pub ms_per_day : ℕ
ms_per_day = 86400000

-- The instant of a local date and time at `offset_hours` east of UTC.
unfoldable pub instant : ℕ → YearMonthDay → ℕ → ℕ → ℕ
instant offset_hours p hour minute =
    day_number p * ms_per_day
    + hour * ms_per_hour
    + minute * ms_per_minute
    + (ms_per_day - offset_hours * ms_per_hour)

-- The day's number that a clock `offset_hours` east of UTC shows at an instant.
unfoldable pub local_day : ℕ → ℕ → ℕ
local_day offset_hours t = (t + offset_hours * ms_per_hour - ms_per_day) / ms_per_day
