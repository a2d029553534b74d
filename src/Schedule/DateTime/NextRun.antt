-- ===== src/Schedule/DateTime/NextRun.antt =====
-- Rolling to tomorrow: the instant at which a time of day comes next.
use ginem_api.Common.{
  ℕ, Bool, ◌+◌, ◌-◌, ◌/◌, ◌*◌, ◌≤◌, ◌<◌, ◌≡◌, refl, true, false, Option, none, arith, leb,
  Bool-cases, inl, inr, ap, if◌then◌else◌,
}
use ginem_api.Common.Int.{ℤ, pos}
use ginem_api.Common.Exec.{ok}
use ginem_api.Schedule.Calendar.{days_before_year, date_of, instant, local_day, ms_per_day}
use ginem_api.Schedule.Calendar.Days.{day-date_of_le, day_number-date_of, date_of-IsDate}
use ginem_api.Schedule.DateTime.{
  ScheduleDateTimeInput, ResolvedScheduleDateTime, get_wib_date_parts, resolve_date_parts,
  resolve_schedule_date_time, resolve_next_daily_run, run_on, or_tomorrow,
}
use ginem_api.Schedule.DateTime.Steps.{
  HasFourDigitYear, year_of-HasFourDigitYear, validate_time_parts_lem, in_future_lem, scheduled,
  parts, run_on_lem, add_days_wib_lem,
}

-- Today, or tomorrow if the time of today is not later than now.
next_day : ℕ → ℕ → ℕ → ℕ
next_day now h m =
    if leb (instant 7 (date_of (local_day 7 now)) h m) now
    then local_day 7 now + 1
    else local_day 7 now

next_instant : ℕ → ℕ → ℕ → ℕ
unfolding next_day
next_instant now h m = instant 7 (date_of (next_day now h m)) h m

-- The years of today and of tomorrow have four digits.
abbrev pub IsFourDigitNow : ℕ → Type 0
IsFourDigitNow now =
    (days_before_year 1000 ≤ local_day 7 now) × (local_day 7 now + 1 < days_before_year 10000)

instant-date_of :
    (d h m : ℕ) → instant 7 (date_of d) h m ≡ d * 86400000 + h * 3600000 + m * 60000 + 61200000
unfolding instant
instant-date_of d h m = omega (arith, day_number-date_of d)

-- It comes after now, within a day.
next_instant_bounds :
    (now h m : ℕ)
    → IsFourDigitNow now
    → h ≤ 23
    → m ≤ 59
    → (now < next_instant now h m) × (next_instant now h m ≤ now + ms_per_day)
unfolding next_instant days_before_year local_day
next_instant_bounds now h m (low, high) hh mm = ground (
  arith,
  instant-date_of ((now + 25200000 - 86400000) / 86400000) h m,
  instant-date_of ((now + 25200000 - 86400000) / 86400000 + 1) h m,
)

next_day-HasFourDigitYear : (now h m : ℕ) → IsFourDigitNow now → HasFourDigitYear (next_day now h m)
unfolding next_day
next_day-HasFourDigitYear now h m (low, high) = ground arith

-- A clock in WIB shows the date of `next_day` at the next instant.
get_wib_date_parts-next_instant :
    (now h m : ℕ)
    → h ≤ 23
    → m ≤ 59
    → get_wib_date_parts (next_instant now h m) ≡ date_of (next_day now h m)
unfolding get_wib_date_parts next_instant local_day
get_wib_date_parts-next_instant now h m hh mm =
    ap date_of (omega (arith, instant-date_of (next_day now h m) h m))

abbrev pub time_only_input : ℕ → ℕ → ScheduleDateTimeInput
time_only_input h m = record {
  hour = pos h;
  minute = pos m;
  year = none;
  month = none;
  day = none;
  date = none;
}

-- The first instant after `now` at which a clock in WIB shows `h:m`, with the date that it shows.
pub record IsNextRun (now h m : ℕ) (b : Bool) (r : ResolvedScheduleDateTime) : Type 0 where
  pub later : now < r.run_at
  pub within_a_day : r.run_at ≤ now + ms_per_day
  pub shown :
      r ≡ scheduled (parts b (get_wib_date_parts r.run_at)) (get_wib_date_parts r.run_at) h m

abbrev next_run : Bool → ℕ → ℕ → ℕ → ResolvedScheduleDateTime
next_run b now h m =
    scheduled (parts b (date_of (next_day now h m))) (date_of (next_day now h m)) h m

next_run-IsNextRun :
    (b : Bool) (now h m : ℕ)
    → IsFourDigitNow now
    → h ≤ 23
    → m ≤ 59
    → IsNextRun now h m b (next_run b now h m)
unfolding next_instant
next_run-IsNextRun b now h m fd hh mm = record {
  later = (next_instant_bounds now h m fd hh mm).0;
  within_a_day = (next_instant_bounds now h m fd hh mm).1;
  shown = rw (get_wib_date_parts-next_instant now h m hh mm) refl;
}

module _ (parse_other : ℤ → ℤ → ℤ → ℤ → ℤ → Option ℕ) where
  run_on_day :
      (b : Bool) (d h m : ℕ)
      → HasFourDigitYear d
      → run_on parse_other (parts b (date_of d)) (pos h) (pos m)
        ≡ ok (scheduled (parts b (date_of d)) (date_of d) h m)
  run_on_day b d h m y =
      let v = date_of-IsDate d in
      run_on_lem parse_other b (date_of d) h m (year_of-HasFourDigitYear d y).0
        (year_of-HasFourDigitYear d y).1 v.month_low v.month_high v.day_low (day-date_of_le d)

  or_tomorrow_lem :
      (b : Bool) (now h m : ℕ)
      → IsFourDigitNow now
      → or_tomorrow parse_other now true
          (parts b (date_of (local_day 7 now)))
          (scheduled (parts b (date_of (local_day 7 now))) (date_of (local_day 7 now)) h m)
        ≡ ok (next_run b now h m)
  unfolding or_tomorrow next_day
  or_tomorrow_lem b now h m (low, high) =
      let (y, y') = year_of-HasFourDigitYear (local_day 7 now) (low, omega arith) in
      elim (Bool-cases (leb (instant 7 (date_of (local_day 7 now)) h m) now)) [
        | inl passed ↦
            rw
              (
                passed,
                add_days_wib_lem parse_other (date_of (local_day 7 now)) 1 y y',
                day_number-date_of,
              )
              (run_on_day b (local_day 7 now + 1) h m (omega arith, high))
        | inr ahead ↦ rw ahead
      ]

  -- Where only a valid time of day is given, the clock reads the same throughout, and the years of
  -- today and tomorrow have four digits, the schedule is resolved: it runs at the time's next
  -- occurrence in WIB, after now and at most a day later, and the reported date is the one that a
  -- clock in WIB shows then.
  pub resolve_time_only :
      (now h m : ℕ)
      → IsFourDigitNow now
      → h ≤ 23
      → m ≤ 59
      → (r : ResolvedScheduleDateTime) × (resolve_schedule_date_time parse_other now now now
            (time_only_input h m)
          ≡ ok r)
        × IsNextRun now h m true r
  unfolding resolve_schedule_date_time resolve_date_parts
  resolve_time_only now h m fd hh mm = (
    next_run true now h m,
    rw
        (
          validate_time_parts_lem h m hh mm,
          run_on_day true (local_day 7 now) h m (fd.0, omega arith),
          or_tomorrow_lem true now h m fd,
        )
        (in_future_lem now (next_run true now h m)
          (unfold next_instant in (next_instant_bounds now h m fd hh mm).0)),
    next_run-IsNextRun true now h m fd hh mm,
  )

  -- The next run of a daily schedule at a valid time of day is the time's next occurrence in WIB,
  -- after now and at most a day later, with the date that a clock in WIB shows then, if the clock
  -- reads the same throughout and the years of today and tomorrow have four digits.
  pub resolve_next_daily_run_lem :
      (now h m : ℕ)
      → IsFourDigitNow now
      → h ≤ 23
      → m ≤ 59
      → (r : ResolvedScheduleDateTime) × (resolve_next_daily_run parse_other now now (pos h) (pos m)
          ≡ ok r)
        × IsNextRun now h m false r
  unfolding resolve_next_daily_run get_wib_date_parts
  resolve_next_daily_run_lem now h m fd hh mm = (
    next_run false now h m,
    rw
        (
          validate_time_parts_lem h m hh mm,
          run_on_day false (local_day 7 now) h m (fd.0, omega arith),
          or_tomorrow_lem false now h m fd,
        )
        refl,
    next_run-IsNextRun false now h m fd hh mm,
  )
