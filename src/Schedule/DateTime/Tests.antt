-- ===== src/Schedule/DateTime/Tests.antt =====
-- services/scheduler/deviceSchedule.datetime.ts: runs on a few dates, and uses of the theorems.
use ginem_api.Common.{ℕ, ◌≡◌, ◌<◌, refl, true, false, Option, none, arith}
use ginem_api.Common.Int.{ℤ, pos}
use ginem_api.Common.Text.{codes}
use ginem_api.Common.Exec.{ok}
use ginem_api.Schedule.Calendar.{
  YearMonthDay, instant, local_day, day_number, days_before_year, days_before_month, is_leap,
}
use ginem_api.Schedule.Calendar.Days.{IsDate, days_in_month, run_over}
use ginem_api.Schedule.DateTime.{
  ResolvedScheduleDateTime, resolve_schedule_date_time, resolve_next_daily_run, get_wib_date_parts,
}
use ginem_api.Schedule.DateTime.Parse.{parse_date_string}
use ginem_api.Schedule.DateTime.Steps.{IsTimeOfDay, scheduled, parts}
use ginem_api.Schedule.DateTime.NextRun.{
  IsFourDigitNow, IsNextRun, time_only_input, resolve_time_only, resolve_next_daily_run_lem,
}
use ginem_api.Schedule.DateTime.Resolved.{
  IsBuilt, dated_input, resolve_schedule_date_time-IsBuilt, resolve_dated_shows,
  resolve_dated_overflows,
}

dmy_test : parse_date_string (codes " 09/6-2026 ") ≡ ok (record { year = 2026; month = 6; day = 9 })
unfolding parse_date_string
dmy_test = refl

iso_test : parse_date_string (codes "2026-06-15") ≡ ok (record { year = 2026; month = 6; day = 15 })
unfolding parse_date_string
iso_test = refl

-- An engine that reads no date with another year.
abbrev reject : ℤ → ℤ → ℤ → ℤ → ℤ → Option ℕ
reject _ _ _ _ _ = none

abbrev new_years_eve : YearMonthDay
new_years_eve = record { year = 2027; month = 12; day = 31 }

-- 2027-12-31, 23:30 in WIB
abbrev late : ℕ
late = instant 7 new_years_eve 23 30

late-IsFourDigitNow : IsFourDigitNow late
unfolding instant local_day day_number days_before_year days_before_month is_leap
late-IsFourDigitNow = (ground arith, ground arith)

resolve_time_only_example :
    (r : ResolvedScheduleDateTime) × (resolve_schedule_date_time reject late late late
        (time_only_input 6 0)
      ≡ ok r)
    × IsNextRun late 6 0 true r
resolve_time_only_example =
    resolve_time_only reject late 6 0 late-IsFourDigitNow (omega arith) (omega arith)

resolve_next_daily_run_example :
    (r : ResolvedScheduleDateTime) × (resolve_next_daily_run reject late late (pos 23) (pos 30)
      ≡ ok r)
    × IsNextRun late 23 30 false r
resolve_next_daily_run_example =
    resolve_next_daily_run_lem reject late 23 30 late-IsFourDigitNow (omega arith) (omega arith)

abbrev leap_day : YearMonthDay
leap_day = record { year = 2028; month = 2; day = 29 }

leap_day-IsDate : IsDate leap_day
unfolding is_leap days_in_month
leap_day-IsDate = record {
  month_low = omega arith;
  month_high = omega arith;
  day_low = omega arith;
  day_high = ground arith;
}

late-leap_day : late < instant 7 leap_day 8 15
unfolding instant day_number days_before_year days_before_month is_leap
late-leap_day = ground arith

resolve_dated_shows_example :
    (r : ResolvedScheduleDateTime) × (resolve_schedule_date_time reject late late late
        (dated_input leap_day 8 15)
      ≡ ok r)
    × (get_wib_date_parts r.run_at ≡ leap_day)
    × (r ≡ scheduled (parts false leap_day) leap_day 8 15)
resolve_dated_shows_example =
    resolve_dated_shows reject late late late leap_day 8 15 leap_day-IsDate (omega arith)
      (omega arith) (omega arith) (omega arith) late-leap_day

abbrev june_31 : YearMonthDay
june_31 = record { year = 2028; month = 6; day = 31 }

june_31-over : days_in_month (is_leap 2028) 6 < 31
unfolding days_in_month is_leap
june_31-over = ground arith

late-june_31 : late < instant 7 june_31 8 15
unfolding instant day_number days_before_year days_before_month is_leap
late-june_31 = ground arith

resolve_dated_overflows_example :
    (r : ResolvedScheduleDateTime) × (resolve_schedule_date_time reject late late late
        (dated_input june_31 8 15)
      ≡ ok r)
    × (get_wib_date_parts r.run_at ≡ run_over june_31)
    × (r.month ≡ pos 6)
    × (r.day ≡ pos 31)
resolve_dated_overflows_example =
    resolve_dated_overflows reject late late late june_31 8 15 (omega arith) (omega arith)
      (omega arith) (omega arith) june_31-over (omega arith) (omega arith) (omega arith)
      late-june_31

-- The leap day as it is resolved.
leap_day_resolved :
    resolve_schedule_date_time reject late late late (dated_input leap_day 8 15)
    ≡ ok (scheduled (parts false leap_day) leap_day 8 15)
leap_day_resolved = let (r, e, _, same) = resolve_dated_shows_example in cc

resolve_schedule_date_time-IsBuilt_example :
    (late < instant 7 leap_day 8 15)
    × IsBuilt reject (pos 8) (pos 15) (scheduled (parts false leap_day) leap_day 8 15)
    × IsTimeOfDay (pos 8) (pos 15)
resolve_schedule_date_time-IsBuilt_example =
    resolve_schedule_date_time-IsBuilt reject late late late (dated_input leap_day 8 15)
      leap_day_resolved
