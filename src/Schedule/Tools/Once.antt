-- ===== src/Schedule/Tools/Once.antt =====
-- What the tools of deviceActuatorScheduler.tools.ts have done when they answer that a schedule for
-- one time was made.
use ginem_api.Common.{
  ℕ, Bool, true, false, ◌≡◌, refl, ◌∙◌, subst, Option, none, some, if◌then◌else◌,
}
use ginem_api.Common.Int.{ℤ}
use ginem_api.Common.Text.{Text}
use ginem_api.Common.Exec.{Exec, Result, app_error, other, ok, err, handle, pure, ◌>>=◌}
use ginem_api.Store.{Db, World, DeviceRow, DeviceType, State, once, ScheduledJobType}
use ginem_api.Store.Calls.{bind-eq-ok, ok-injective}
use ginem_api.Device.Found.{find_by_name-eq-ok, find_by_name-now, clock_after_call}
use ginem_api.Device.{find_by_name, device_named}
use ginem_api.Device.Laws.{find_by_name-KeepsDb}
use ginem_api.Schedule.DateTime.{
  ScheduleDateTimeInput, ResolvedScheduleDateTime, resolve_schedule_date_time,
}
use ginem_api.Schedule.Queue.{JobQueue, IsJobQueue, Scheduler, on_world}
use ginem_api.Schedule.Jobs.{is_actuator}
use ginem_api.Schedule.Service.{ScheduledJob, schedule_actuator_state}
use ginem_api.Schedule.Service.Persisted.{OnceScheduled, Made, schedule_job-OnceScheduled}
use ginem_api.Schedule.Tools.{
  ToolAnswer, scheduled_once, not_actuator, ScheduleRequest, resolve_request, schedule_one,
  schedule_actuator, schedule_if_actuator, schedule_actuator_state_at, answer_app_error,
}

abbrev pub once_request : Text → ScheduleDateTimeInput → ScheduleRequest
once_request name time = record { device_name = name; category = once; time = time }

abbrev pub tool :
    (q : JobQueue)
    → (ℤ → ℤ → ℤ → ℤ → ℤ → Option ℕ)
    → Text
    → ScheduleDateTimeInput
    → State
    → Exec (Scheduler q) ToolAnswer
tool q parse_other name time state =
    schedule_actuator_state_at q parse_other (once_request name time) state

module _ (q : JobQueue) (laws : IsJobQueue q) (parse_other : ℤ → ℤ → ℤ → ℤ → ℤ → Option ℕ) where
  handle-scheduled :
      (r : Result ToolAnswer) (s : Scheduler q) {job : ScheduledJob} {at : ResolvedScheduleDateTime}
      → (handle (answer_app_error {S = Scheduler q}) r s).0 ≡ ok (scheduled_once job at)
      → (r ≡ ok (scheduled_once job at)) × ((handle answer_app_error r s).1 ≡ s)
  unfolding answer_app_error
  handle-scheduled (ok a) s h = (h, refl)
  handle-scheduled (err (app_error status message)) s h = cc
  handle-scheduled (err other) s h = cc

  scheduled_once-injective :
      {a b : ScheduledJob} {r t : ResolvedScheduleDateTime}
      → scheduled_once a r ≡ scheduled_once b t
      → (a ≡ b) × (r ≡ t)
  scheduled_once-injective h = (cc, cc)

  resolve_request-eq-ok :
      (time : ScheduleDateTimeInput) (w : World) {r : ResolvedScheduleDateTime}
      → (resolve_request q parse_other time w).0 ≡ ok r
      → resolve_schedule_date_time parse_other w.now w.now w.now time ≡ ok r
  unfolding resolve_request
  resolve_request-eq-ok time w h = h

  -- The job is the one that was asked for, at the instant that the time resolves to by a clock that
  -- reads `now`; the row and the queue have it.
  pub record ActuatorScheduled (name : Text) (time : ScheduleDateTimeInput) (state : State)
      (now : ℕ) (before : Db) (after : Scheduler q) (job : ScheduledJob)
      (at : ResolvedScheduleDateTime) : Type 0 where
    pub resolved : resolve_schedule_date_time parse_other now now now time ≡ ok at
    pub made : Made ScheduledJobType.actuator name (some state) at.run_at job
    pub stored : OnceScheduled q before after job

  schedule_one-eq-ok :
      (name : Text) (time : ScheduleDateTimeInput) (state : State) (s : Scheduler q)
      {job : ScheduledJob} {at : ResolvedScheduleDateTime}
      → (schedule_one q parse_other time
          (λ run_at. schedule_actuator_state q name state once run_at none)
          s).0
        ≡ ok (scheduled_once job at)
      → ActuatorScheduled name time state s.0.now s.0.db
          (schedule_one q parse_other time
            (λ run_at. schedule_actuator_state q name state once run_at none)
            s).1
          job
          at
  unfolding schedule_one resolve_request schedule_actuator_state
  schedule_one-eq-ok name time state s {job} {at} h =
      let make : ℕ → Exec (Scheduler q) ScheduledJob =
        λ run_at. schedule_actuator_state q name state once run_at none in
      let answer : ResolvedScheduleDateTime → Exec (Scheduler q) ToolAnswer =
        λ r. make r.run_at >>= (λ j. pure (scheduled_once j r)) in
      let (r, resolved, made, final) =
        bind-eq-ok (on_world q (resolve_request q parse_other time)) answer s h in
      let (j, scheduled, last, final') =
        bind-eq-ok (make r.run_at) (λ j. pure (scheduled_once j r)) s made in
      let (stored, asked) =
        schedule_job-OnceScheduled q laws ScheduledJobType.actuator name (some state) r.run_at s j
          scheduled in
      let (same_job, same_time) = scheduled_once-injective (ok-injective last) in
      let done = (schedule_one q parse_other time make s).1 in
      let as_made : ActuatorScheduled name time state s.0.now s.0.db done j r = record {
        resolved = resolved;
        made = asked;
        stored = rw (final ∙ final') stored;
      } in
      subst (λ (b : ScheduledJob). ActuatorScheduled name time state s.0.now s.0.db done b at)
        same_job
        (subst
          (λ (t : ResolvedScheduleDateTime).
            ActuatorScheduled name time state s.0.now s.0.db done j t)
          same_time as_made)

  once_if :
      (is : Bool) (name : Text) (time : ScheduleDateTimeInput) (state : State) (type : DeviceType)
      (s : Scheduler q) {job : ScheduledJob} {at : ResolvedScheduleDateTime}
      → ((if is
            then schedule_actuator q parse_other once (once_request name time) state
            else pure (not_actuator name type))
          s).0
        ≡ ok (scheduled_once job at)
      → (is ≡ true)
        × ActuatorScheduled name time state s.0.now s.0.db
            ((if is
                then schedule_actuator q parse_other once (once_request name time) state
                else pure (not_actuator name type))
              s).1
            job
            at
  unfolding schedule_actuator
  once_if true name time state type s h = (refl, schedule_one-eq-ok name time state s h)
  once_if false name time state type s h = cc

  -- If the tool that schedules an actuator answers that a schedule for one time was made, then the
  -- name finds a device that is an actuator; the job is for that name, the state and the instant to
  -- which the time resolves by what the clock reads after the call of the database that finds the
  -- device; one row has been added to the log of schedules, which shows as that job
  -- and is among those that a restart puts into the queue again; and the queue has the job.
  pub schedule_actuator_state_at-scheduled :
      (name : Text) (time : ScheduleDateTimeInput) (state : State) (w : World) (jobs : q.Jobs)
      (job : ScheduledJob) (at : ResolvedScheduleDateTime)
      → (tool q parse_other name time state (w, jobs)).0 ≡ ok (scheduled_once job at)
      → (d : DeviceRow) × (device_named name w.db.devices ≡ some d)
        × (is_actuator d.device_type ≡ true)
        × ActuatorScheduled name time state
            (clock_after_call w.script w.now)
            w.db
            (tool q parse_other name time state (w, jobs)).1
            job
            at
  unfolding schedule_actuator_state_at schedule_if_actuator
  schedule_actuator_state_at-scheduled name time state w jobs job at h =
      let schedule : DeviceRow → Exec (Scheduler q) ToolAnswer =
        λ d. schedule_if_actuator q parse_other (once_request name time) state d in
      let body = on_world q (find_by_name name) >>= schedule in
      let (answered, same) = handle-scheduled (body (w, jobs)).0 (body (w, jobs)).1 h in
      let (d, first, later, final) =
        bind-eq-ok (on_world q (find_by_name name)) schedule (w, jobs) answered in
      let mid : Scheduler q = ((find_by_name name w).1, jobs) in
      let (is, stored) =
        once_if (is_actuator d.device_type) name time state d.device_type mid later in
      (
        d,
        (find_by_name-eq-ok name w first).0,
        is,
        rw (same, final)
            (subst (λ (t : ℕ). ActuatorScheduled name time state t w.db (schedule d mid).1 job at)
              (find_by_name-now name w)
              (subst
                (λ (db : Db).
                  ActuatorScheduled name time state mid.0.now db (schedule d mid).1 job at)
                ((find_by_name-KeepsDb name).at w) stored)),
      )
