-- ===== src/Schedule/Calendar/Years.antt =====
-- The calendar's years: which year holds a day.
use ginem_api.Common.{ℕ, ◌+◌, ◌≤◌, ◌<◌, ◌≡◌, arith, if◌then◌else◌}
use ginem_api.Schedule.Calendar.{is_leap, days_before_year, year_of}

pub days_before_year-suc :
    (y : ℕ) → days_before_year (y + 1) ≡ days_before_year y + (if is_leap y then 366 else 365)
unfolding days_before_year is_leap
days_before_year-suc y = ground arith

pub days_before_year_mono : (a b : ℕ) → a ≤ b → days_before_year a ≤ days_before_year b
unfolding days_before_year
days_before_year_mono a b h = omega arith

-- A day lies in its year.
pub year_of_bounds :
    (d : ℕ) → (days_before_year (year_of d) ≤ d) × (d < days_before_year (year_of d + 1))
unfolding days_before_year year_of
year_of_bounds d = ground arith
