-- ===== src/Schedule/DateTime/Steps.antt =====
-- The steps of the date-time resolution, one lemma for each.
use ginem_api.Common.{ℕ, Bool, ◌+◌, ◌≤◌, ◌<◌, ◌≡◌, refl, Option, arith, le→leb, ap}
use ginem_api.Common.Int.{ℤ, pos, negsuc}
use ginem_api.Common.Exec.{Result, ok, err, and_then}
use ginem_api.Schedule.Calendar.{
  YearMonthDay, days_before_year, day_number, year_of, date_of, instant,
}
use ginem_api.Schedule.Calendar.Years.{days_before_year_mono, year_of_bounds}
use ginem_api.Schedule.Calendar.Days.{local_day-instant}
use ginem_api.Schedule.DateTime.{
  DateParts, ResolvedScheduleDateTime, schedule_timezone, validate_time_parts, validate_date_parts,
  iso_instant, valid_date, build_run_at, add_days_wib, run_on, in_future, shift_days,
}

-- Inversion of a chained step.
pub and_then-eq-ok {ℓ κ} :
    {A : Type ℓ} {B : Type κ} (m : Result A) (f : A → Result B) {b : B}
    → and_then m f ≡ ok b
    → (a : A) × (m ≡ ok a) × (f a ≡ ok b)
and_then-eq-ok (ok a) f h = (a, refl, h)
and_then-eq-ok (err e) f h = cc

-- The day's number lies in the years 1000 to 9999.
abbrev pub HasFourDigitYear : ℕ → Type 0
HasFourDigitYear d = (days_before_year 1000 ≤ d) × (d < days_before_year 10000)

pub year_of-HasFourDigitYear :
    (d : ℕ) → HasFourDigitYear d → (1000 ≤ (date_of d).year) × ((date_of d).year ≤ 9999)
unfolding date_of
year_of-HasFourDigitYear d (low, high) = grind (
  arith,
  year_of_bounds d,
  days_before_year_mono (year_of d + 1) 1000,
  days_before_year_mono 10000 (year_of d),
)

-- An hour and a minute of a day.
abbrev pub IsTimeOfDay : ℤ → ℤ → Type 0
IsTimeOfDay hour minute =
    (h : ℕ) × (m : ℕ) × (hour ≡ pos h) × (minute ≡ pos m) × (h ≤ 23) × (m ≤ 59)

pub validate_time_parts_lem :
    (h m : ℕ) → h ≤ 23 → m ≤ 59 → validate_time_parts (pos h) (pos m) ≡ ok tt
unfolding validate_time_parts
validate_time_parts_lem h m p q = ground arith

pub validate_time_parts-eq-ok :
    (hour minute : ℤ) {u : Unit {0}}
    → validate_time_parts hour minute ≡ ok u
    → IsTimeOfDay hour minute
unfolding validate_time_parts
validate_time_parts-eq-ok (pos h) (pos m) e = (h, m, refl, refl, ground arith, ground arith)
validate_time_parts-eq-ok (pos h) (negsuc m) e = ground arith
validate_time_parts-eq-ok (negsuc h) (pos m) e = ground arith
validate_time_parts-eq-ok (negsuc h) (negsuc m) e = ground arith

pub in_future-eq-ok :
    (now : ℕ) (r : ResolvedScheduleDateTime) {s : ResolvedScheduleDateTime}
    → in_future now r ≡ ok s
    → (r ≡ s) × (now < s.run_at)
unfolding in_future
in_future-eq-ok now r h = ground arith

pub in_future_lem :
    (now : ℕ) (r : ResolvedScheduleDateTime) → now < r.run_at → in_future now r ≡ ok r
unfolding in_future
in_future_lem now r h = ground arith

-- The resolved schedule of a date with a four-digit year, at a time of day.
abbrev pub scheduled : DateParts → YearMonthDay → ℕ → ℕ → ResolvedScheduleDateTime
scheduled p d h m = record {
  run_at = instant schedule_timezone d h m;
  year = p.year;
  month = p.month;
  day = p.day;
  hour = pos h;
  minute = pos m;
  time_only = p.time_only;
}

abbrev pub parts : Bool → YearMonthDay → DateParts
parts b d = record { year = pos d.year; month = pos d.month; day = pos d.day; time_only = b }

module _ (parse_other : ℤ → ℤ → ℤ → ℤ → ℤ → Option ℕ) where
  -- A month from 1 to 12 and a day from 1 to 31 of a four-digit year give an instant.
  pub run_on_lem :
      (b : Bool) (d : YearMonthDay) (h m : ℕ)
      → 1000 ≤ d.year
      → d.year ≤ 9999
      → 1 ≤ d.month
      → d.month ≤ 12
      → 1 ≤ d.day
      → d.day ≤ 31
      → run_on parse_other (parts b d) (pos h) (pos m) ≡ ok (scheduled (parts b d) d h m)
  unfolding run_on build_run_at validate_date_parts iso_instant valid_date
  run_on_lem b d h m y y' l l' k k' = ground arith

  pub add_days_wib_lem :
      (d : YearMonthDay) (days : ℕ)
      → 1000 ≤ d.year
      → d.year ≤ 9999
      → add_days_wib parse_other (pos d.year) (pos d.month) (pos d.day) days
        ≡ ok (date_of (day_number d + days))
  unfolding add_days_wib iso_instant shift_days
  add_days_wib_lem d days y y' =
      rw (le→leb _ _ y, le→leb _ _ y')
        (ap (λ n. ok (date_of n))
          (local_day-instant 7 d 12 0 days (omega arith) (omega arith) (omega arith)))
