-- ===== src/Schedule/DateTime.antt =====
-- services/scheduler/deviceSchedule.datetime.ts: the date and time of a schedule in WIB (UTC+7).
-- Every call of `new Date()` or `Date.now()` is a reading of the clock, given as an argument; a
-- `Date` is its `getTime()`, an instant of Calendar.antt. How `Date` reads a string whose year does
-- not have four digits is up to the JavaScript engine, and is the parameter `parse_other`.
pub mod Parse
pub mod Steps
pub mod NextRun
pub mod Resolved
pub mod Tests
use ginem_api.Common.{
  ℕ, ◌+◌, ◌-◌, ◌*◌, ◌/◌, max, Bool, true, false, ◌&&◌, ◌||◌, not, Option, none, some, List, [],
  ◌++◌, ltb, leb, if◌then◌else◌, is_some,
}
use ginem_api.Common.Int.{ℤ, pos, negsuc, pos_part, ltb_ℤ}
use ginem_api.Common.Text.{Text, codes, show_nat}
use ginem_api.Common.Exec.{Result, ok, err, and_then, bad_request, other}
use ginem_api.Schedule.Calendar.{YearMonthDay, date_of, instant, local_day, ms_per_day}
use ginem_api.Schedule.DateTime.Parse.{parse_date_string}

-- '+07:00', and the offset of 'Asia/Jakarta'
abbrev pub schedule_timezone : ℕ
schedule_timezone = 7

abbrev pub wib_timezone : ℕ
wib_timezone = 7

pub record ScheduleDateTimeInput : Type 0 where
  pub hour : ℤ
  pub minute : ℤ
  pub year : Option ℤ
  pub month : Option ℤ
  pub day : Option ℤ
  pub date : Option Text

pub record DateParts : Type 0 where
  pub year : ℤ
  pub month : ℤ
  pub day : ℤ
  pub time_only : Bool

pub record ResolvedScheduleDateTime : Type 0 where
  pub run_at : ℕ
  pub year : ℤ
  pub month : ℤ
  pub day : ℤ
  pub hour : ℤ
  pub minute : ℤ
  pub time_only : Bool

unfoldable pub pad2 : ℕ → Text
pad2 n = if ltb n 10 then codes "0" ++ show_nat n else show_nat n

unfoldable pub get_wib_date_parts : ℕ → YearMonthDay
get_wib_date_parts from = date_of (local_day wib_timezone from)

unfoldable pub validate_time_parts : ℤ → ℤ → Result (Unit {0})
validate_time_parts hour minute =
    if ltb_ℤ hour (pos 0) || ltb_ℤ (pos 23) hour
    then err (bad_request (codes "Hour must be between 0 and 23"))
    else if ltb_ℤ minute (pos 0) || ltb_ℤ (pos 59) minute
    then err (bad_request (codes "Minute must be between 0 and 59"))
    else ok tt

unfoldable pub validate_date_parts : ℤ → ℤ → Result (Unit {0})
validate_date_parts month day =
    if ltb_ℤ month (pos 1) || ltb_ℤ (pos 12) month
    then err (bad_request (codes "Month must be between 1 and 12"))
    else if ltb_ℤ day (pos 1) || ltb_ℤ (pos 31) day
    then err (bad_request (codes "Day must be between 1 and 31"))
    else ok tt

abbrev pub natural_parts : ℕ → ℤ → ℤ → YearMonthDay
natural_parts year month day = record { year = year; month = pos_part month; day = pos_part day }

-- How `Date` reads `${year}-${month}-${day}T${hour}:${minute}:00+07:00`: the engine takes any day
-- from 1 to 31, and a day that the month does not have runs on into the next month.
unfoldable pub iso_instant : (ℤ → ℤ → ℤ → ℤ → ℤ → Option ℕ) → ℤ → ℤ → ℤ → ℤ → ℤ → Option ℕ
iso_instant parse_other (pos y) month day hour minute =
    if leb 1000 y && leb y 9999
    then some
        (instant schedule_timezone (natural_parts y month day) (pos_part hour) (pos_part minute))
    else parse_other (pos y) month day hour minute
iso_instant parse_other (negsuc y) month day hour minute =
    parse_other (negsuc y) month day hour minute

-- `Number.isNaN(runAt.getTime())`
unfoldable pub valid_date : Option ℕ → Result ℕ
valid_date none = err (bad_request (codes "Invalid schedule date/time"))
valid_date (some t) = ok t

unfoldable pub full_date : Option ℤ → Option ℤ → Option ℤ → Result DateParts
full_date (some y) (some m) (some d) =
    ok (record { year = y; month = m; day = d; time_only = false })
full_date none m d =
    err (bad_request (codes "Provide a full date (year, month, day) or use date \"DD-MM-YYYY\""))
full_date (some y) none d =
    err (bad_request (codes "Provide a full date (year, month, day) or use date \"DD-MM-YYYY\""))
full_date (some y) (some m) none =
    err (bad_request (codes "Provide a full date (year, month, day) or use date \"DD-MM-YYYY\""))

abbrev pub explicit : YearMonthDay → DateParts
explicit p = record { year = pos p.year; month = pos p.month; day = pos p.day; time_only = false }

abbrev pub today_parts : YearMonthDay → DateParts
today_parts p = record { year = pos p.year; month = pos p.month; day = pos p.day; time_only = true }

-- `now` is the reading of `getWibDateParts()`.
unfoldable pub resolve_date_parts : ℕ → ScheduleDateTimeInput → Result DateParts
unfolding full_date get_wib_date_parts
resolve_date_parts now input = elim input.date [
  | some date ↦ and_then (parse_date_string date) (λ parsed. ok (explicit parsed))
  | none ↦
      if is_some input.year || is_some input.month || is_some input.day
      then full_date input.year input.month input.day
      else ok (today_parts (get_wib_date_parts now))
]

-- The formatter throws a `RangeError` on an invalid date.
unfoldable pub shift_days : ℕ → Option ℕ → Result YearMonthDay
unfolding get_wib_date_parts
shift_days days none = err other
shift_days days (some anchor) = ok (get_wib_date_parts (anchor + days * ms_per_day))

unfoldable pub in_future : ℕ → ResolvedScheduleDateTime → Result ResolvedScheduleDateTime
in_future now r =
    if leb r.run_at now
    then err (bad_request (codes "Schedule time must be in the future (WIB / UTC+7)"))
    else ok r

module _ (parse_other : ℤ → ℤ → ℤ → ℤ → ℤ → Option ℕ) where
  unfoldable pub build_run_at : ℤ → ℤ → ℤ → ℤ → ℤ → Result ℕ
  build_run_at year month day hour minute =
      and_then (validate_date_parts month day)
        λ _. valid_date (iso_instant parse_other year month day hour minute)

  unfoldable pub add_days_wib : ℤ → ℤ → ℤ → ℕ → Result YearMonthDay
  unfolding shift_days
  add_days_wib year month day days =
      shift_days days (iso_instant parse_other year month day (pos 12) (pos 0))

  -- The resolved schedule at given parts: the instant, and the parts that it was built from.
  unfoldable pub run_on : DateParts → ℤ → ℤ → Result ResolvedScheduleDateTime
  run_on p hour minute = and_then (build_run_at p.year p.month p.day hour minute) λ run_at.
      ok (record {
        run_at = run_at;
        year = p.year;
        month = p.month;
        day = p.day;
        hour = hour;
        minute = minute;
        time_only = p.time_only;
      })

  -- The second block of the body: tomorrow, if the time of today has passed.
  unfoldable pub or_tomorrow :
      ℕ → Bool → DateParts → ResolvedScheduleDateTime → Result ResolvedScheduleDateTime
  or_tomorrow now rolls p r =
      if rolls && leb r.run_at now
      then (and_then (add_days_wib p.year p.month p.day 1) (λ tomorrow.
          run_on
            (record {
              year = pos tomorrow.year;
              month = pos tomorrow.month;
              day = pos tomorrow.day;
              time_only = p.time_only;
            })
            r.hour r.minute))
      else ok r

  -- `now₀`, `now₁` and `now₂` are the clock's readings, in the order in which they are taken.
  unfoldable pub resolve_schedule_date_time :
      ℕ → ℕ → ℕ → ScheduleDateTimeInput → Result ResolvedScheduleDateTime
  resolve_schedule_date_time now₀ now₁ now₂ input =
      and_then (validate_time_parts input.hour input.minute) λ _.
        and_then (resolve_date_parts now₀ input) λ p.
          and_then (run_on p input.hour input.minute)
            λ r. and_then (or_tomorrow now₁ p.time_only p r) (in_future now₂)

  -- The next daily occurrence; the code always rolls to tomorrow, and reports `timeOnly: false`.
  unfoldable pub resolve_next_daily_run : ℕ → ℕ → ℤ → ℤ → Result ResolvedScheduleDateTime
  resolve_next_daily_run now₀ now₁ hour minute = and_then (validate_time_parts hour minute) λ _.
      let p = explicit (get_wib_date_parts now₀) in
      and_then (run_on p hour minute) (or_tomorrow now₁ true p)

  unfoldable pub parse_schedule_date_time : ℕ → ℕ → ℕ → ScheduleDateTimeInput → Result ℕ
  unfolding resolve_schedule_date_time
  parse_schedule_date_time now₀ now₁ now₂ input =
      and_then (resolve_schedule_date_time now₀ now₁ now₂ input) (λ r. ok r.run_at)

unfoldable pub format_schedule_wib : ℕ → ℕ → ℕ → ℕ → ℕ → Text
unfolding pad2
format_schedule_wib year month day hour minute =
    pad2 day
    ++ (codes "-"
        ++ (pad2 month
            ++ (codes "-"
                ++ (show_nat year
                    ++ (codes " "
                        ++ (pad2 hour ++ (codes ":" ++ (pad2 minute ++ codes " WIB"))))))))

-- `Math.round` rounds a half up; of a negative difference the maximum makes 1.
unfoldable pub minutes_until_run : ℕ → ℕ → ℕ
minutes_until_run scheduled_at run_at = max 1 ((run_at - scheduled_at + 30000) / 60000)

unfoldable pub build_daily_cron_pattern : ℤ → ℤ → Result Text
unfolding validate_time_parts
build_daily_cron_pattern hour minute = and_then (validate_time_parts hour minute) λ _.
    ok (show_nat (pos_part minute) ++ (codes " " ++ (show_nat (pos_part hour) ++ codes " * * *")))

unfoldable pub format_repeat_schedule_wib : ℕ → ℕ → Text
unfolding pad2
format_repeat_schedule_wib hour minute =
    codes "Every day at " ++ (pad2 hour ++ (codes ":" ++ (pad2 minute ++ codes " WIB")))
