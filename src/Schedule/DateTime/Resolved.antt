-- ===== src/Schedule/DateTime/Resolved.antt =====
-- What a resolved schedule is, whatever the input.
use ginem_api.Common.{
  ℕ, Bool, ◌≤◌, ◌<◌, ◌≡◌, refl, false, Option, none, some, arith, leb, Bool-cases, inl, inr, subst,
  ◌&&◌,
}
use ginem_api.Common.Int.{ℤ, pos}
use ginem_api.Common.Exec.{ok}
use ginem_api.Schedule.Calendar.{YearMonthDay, is_leap, instant}
use ginem_api.Schedule.Calendar.Days.{
  IsDate, days_in_month, date_of-day_number, local_day-instant_self, days_in_month_le, run_over,
  day_number-run_over,
}
use ginem_api.Schedule.DateTime.{
  ScheduleDateTimeInput, DateParts, ResolvedScheduleDateTime, get_wib_date_parts,
  resolve_date_parts, resolve_schedule_date_time, run_on, or_tomorrow, validate_time_parts,
  build_run_at, validate_date_parts, valid_date, iso_instant, add_days_wib,
}
use ginem_api.Schedule.DateTime.Steps.{
  IsTimeOfDay, and_then-eq-ok, validate_time_parts_lem, validate_time_parts-eq-ok, in_future-eq-ok,
  in_future_lem, scheduled, parts, run_on_lem,
}

module _ (parse_other : ℤ → ℤ → ℤ → ℤ → ℤ → Option ℕ) where
  -- The resolved parts are those from which the instant was built, and are in range.
  pub record IsBuilt (hour minute : ℤ) (r : ResolvedScheduleDateTime) : Type 0 where
    pub same_hour : r.hour ≡ hour
    pub same_minute : r.minute ≡ minute
    pub built : iso_instant parse_other r.year r.month r.day r.hour r.minute ≡ some r.run_at
    pub date_in_range : validate_date_parts r.month r.day ≡ ok tt

  build_run_at-eq-ok :
      (year month day hour minute : ℤ) {t : ℕ}
      → build_run_at parse_other year month day hour minute ≡ ok t
      → (iso_instant parse_other year month day hour minute ≡ some t)
        × (validate_date_parts month day ≡ ok tt)
  unfolding build_run_at valid_date
  build_run_at-eq-ok year month day hour minute h = ground arith

  run_on-IsBuilt :
      (p : DateParts) (hour minute : ℤ) {r : ResolvedScheduleDateTime}
      → run_on parse_other p hour minute ≡ ok r
      → IsBuilt hour minute r
  unfolding run_on
  run_on-IsBuilt p hour minute h =
      let (t, e, f) =
        and_then-eq-ok (build_run_at parse_other p.year p.month p.day hour minute) _ h in
      ground (arith, build_run_at-eq-ok p.year p.month p.day hour minute e)

  or_tomorrow-IsBuilt :
      (now : ℕ) (rolls : Bool) (p : DateParts) (hour minute : ℤ) (r s : ResolvedScheduleDateTime)
      → IsBuilt hour minute r
      → or_tomorrow parse_other now rolls p r ≡ ok s
      → IsBuilt hour minute s
  unfolding or_tomorrow
  or_tomorrow-IsBuilt now rolls p hour minute r s b h =
      elim (Bool-cases (rolls && leb r.run_at now)) [
        | inl rolled ↦
            let (t, _, e) =
              and_then-eq-ok (add_days_wib parse_other p.year p.month p.day 1) _ (rw rolled at h) in
            rw (← b.same_hour, ← b.same_minute) (run_on-IsBuilt _ r.hour r.minute e)
        | inr kept ↦ let same : ok r ≡ ok s = rw kept at h in subst (IsBuilt hour minute) (cc) b
      ]

  -- A resolved schedule lies after the clock's last reading, is at the time of day that was asked
  -- for, which is one, and runs at the instant of the date and time that it reports.
  pub resolve_schedule_date_time-IsBuilt :
      (now₀ now₁ now₂ : ℕ) (input : ScheduleDateTimeInput) {r : ResolvedScheduleDateTime}
      → resolve_schedule_date_time parse_other now₀ now₁ now₂ input ≡ ok r
      → (now₂ < r.run_at) × IsBuilt input.hour input.minute r × IsTimeOfDay input.hour input.minute
  unfolding resolve_schedule_date_time
  resolve_schedule_date_time-IsBuilt now₀ now₁ now₂ input e =
      let (u, timely, e₁) = and_then-eq-ok (validate_time_parts input.hour input.minute) _ e in
      let (p, _, e₂) = and_then-eq-ok (resolve_date_parts now₀ input) _ e₁ in
      let (r, built, e₃) = and_then-eq-ok (run_on parse_other p input.hour input.minute) _ e₂ in
      let (s, rolled, e₄) = and_then-eq-ok (or_tomorrow parse_other now₁ p.time_only p r) _ e₃ in
      let (same, later) = in_future-eq-ok now₂ s e₄ in
      (
        later,
        subst (IsBuilt input.hour input.minute) same (
            or_tomorrow-IsBuilt now₁ p.time_only p input.hour input.minute r s
              (run_on-IsBuilt p input.hour input.minute built) rolled),
        validate_time_parts-eq-ok input.hour input.minute timely,
      )

abbrev pub dated_input : YearMonthDay → ℕ → ℕ → ScheduleDateTimeInput
dated_input p h m = record {
  hour = pos h;
  minute = pos m;
  year = some (pos p.year);
  month = some (pos p.month);
  day = some (pos p.day);
  date = none;
}

-- The clock in WIB shows a date of the calendar at the instant of the date.
get_wib_date_parts-instant :
    (p : YearMonthDay) (h m : ℕ)
    → IsDate p
    → h ≤ 23
    → m ≤ 59
    → get_wib_date_parts (instant 7 p h m) ≡ p
unfolding get_wib_date_parts
get_wib_date_parts-instant p h m v hh mm =
    rw (local_day-instant_self 7 p h m (omega arith) hh mm) (date_of-day_number p v)

-- A date past the end of its month is shown as one of the next month.
get_wib_date_parts-run_over :
    (p : YearMonthDay) (h m : ℕ)
    → 1 ≤ p.month
    → p.month ≤ 12
    → days_in_month (is_leap p.year) p.month < p.day
    → p.day ≤ 31
    → h ≤ 23
    → m ≤ 59
    → get_wib_date_parts (instant 7 p h m) ≡ run_over p
unfolding get_wib_date_parts
get_wib_date_parts-run_over p h m l k over d hh mm =
    let (v, same) = day_number-run_over p l k over d in
    rw (local_day-instant_self 7 p h m (omega arith) hh mm, ← same)
      (date_of-day_number (run_over p) v)

module _ (parse_other : ℤ → ℤ → ℤ → ℤ → ℤ → Option ℕ) where
  resolve_dated :
      (now₀ now₁ now₂ : ℕ) (p : YearMonthDay) (h m : ℕ)
      → 1000 ≤ p.year
      → p.year ≤ 9999
      → 1 ≤ p.month
      → p.month ≤ 12
      → 1 ≤ p.day
      → p.day ≤ 31
      → h ≤ 23
      → m ≤ 59
      → now₂ < instant 7 p h m
      → resolve_schedule_date_time parse_other now₀ now₁ now₂ (dated_input p h m)
        ≡ ok (scheduled (parts false p) p h m)
  unfolding resolve_schedule_date_time resolve_date_parts or_tomorrow
  resolve_dated now₀ now₁ now₂ p h m y y' l l' k k' hh mm later =
      rw (validate_time_parts_lem h m hh mm, run_on_lem parse_other false p h m y y' l l' k k')
        (in_future_lem now₂ (scheduled (parts false p) p h m) later)

  -- A date of the calendar with a four-digit year and a time of day that lie after the clock's last
  -- reading are accepted, and at the resolved instant a clock in WIB shows that date.
  pub resolve_dated_shows :
      (now₀ now₁ now₂ : ℕ) (p : YearMonthDay) (h m : ℕ)
      → IsDate p
      → 1000 ≤ p.year
      → p.year ≤ 9999
      → h ≤ 23
      → m ≤ 59
      → now₂ < instant 7 p h m
      → (r : ResolvedScheduleDateTime) × (resolve_schedule_date_time parse_other now₀ now₁ now₂
            (dated_input p h m)
          ≡ ok r)
        × (get_wib_date_parts r.run_at ≡ p)
        × (r ≡ scheduled (parts false p) p h m)
  resolve_dated_shows now₀ now₁ now₂ p h m v y y' hh mm later =
      let d : p.day ≤ 31 =
        omega
          (arith, v.day_high, days_in_month_le (is_leap p.year) p.month v.month_low v.month_high) in
      (
        scheduled (parts false p) p h m,
        resolve_dated now₀ now₁ now₂ p h m y y' v.month_low v.month_high v.day_low d hh mm later,
        get_wib_date_parts-instant p h m v hh mm,
        refl,
      )

  -- A day up to 31 that its month does not have is accepted too, for a year of four digits and a valid
  -- time of day, if the instant lies after the clock's last reading: the schedule runs as many days
  -- into the next month, while the day and month that were asked for are reported.
  pub resolve_dated_overflows :
      (now₀ now₁ now₂ : ℕ) (p : YearMonthDay) (h m : ℕ)
      → 1000 ≤ p.year
      → p.year ≤ 9999
      → 1 ≤ p.month
      → p.month ≤ 12
      → days_in_month (is_leap p.year) p.month < p.day
      → p.day ≤ 31
      → h ≤ 23
      → m ≤ 59
      → now₂ < instant 7 p h m
      → (r : ResolvedScheduleDateTime) × (resolve_schedule_date_time parse_other now₀ now₁ now₂
            (dated_input p h m)
          ≡ ok r)
        × (get_wib_date_parts r.run_at ≡ run_over p)
        × (r.month ≡ pos p.month)
        × (r.day ≡ pos p.day)
  resolve_dated_overflows now₀ now₁ now₂ p h m y y' l l' over d hh mm later = (
    scheduled (parts false p) p h m,
    resolve_dated now₀ now₁ now₂ p h m y y' l l' (omega arith) d hh mm later,
    get_wib_date_parts-run_over p h m l l' over d hh mm,
    refl,
    refl,
  )
