-- ===== src/Schedule/Service.antt =====
-- services/mcp/DeviceSchedule.service.ts: schedules are recorded in the table and put into the queue,
-- and put there again when the process starts. Starting the worker is left to the queue.
pub mod Tables
pub mod Recovery
pub mod Restored
pub mod Persisted
mod Tests
use mathlib.Core.Option
use ginem_api.Common.{
  ℕ, suc, ◌+◌, ◌-◌, Bool, true, false, ◌&&◌, not, Option, none, some, List, [], ◌∷◌, ◌++◌, map,
  filter, find, take, leb, if◌then◌else◌,
}
use ginem_api.Common.Int.{ℤ}
use ginem_api.Common.Text.{Text, codes, text_eq, show_nat}
use ginem_api.Common.Exec.{Exec, Result, ok, err, pure, throw, lift, gets, bad_request, ◌>>=◌, ◌>>◌}
use ginem_api.Store.{
  ScheduledJobType, SchedulerCategory, once, repeat, ScheduledJobStatus, pending, active,
  SchedulerLogRow, JobResult, State, World, db_call,
}
use ginem_api.Schedule.Calendar.{instant, YearMonthDay}
use ginem_api.Schedule.DateTime.{
  minutes_until_run, resolve_next_daily_run, build_daily_cron_pattern,
}
use ginem_api.Schedule.Queue.{
  DeviceScheduleJobData, RepeatableJob, JobQueue, Scheduler, on_world, enqueue_device_schedule_job,
  enqueue_repeat_device_schedule_job, list_repeatable_device_schedule_jobs,
  is_repeat_job_registered,
}

abbrev pub wib_schedule_timezone : Text
wib_schedule_timezone = codes "Asia/Jakarta"

pub record ScheduledJob : Type 0 where
  pub id : Text
  pub type : ScheduledJobType
  pub category : SchedulerCategory
  pub device_name : Text
  pub state : Option State
  pub scheduled_at : ℕ
  pub run_at : ℕ
  pub cron_pattern : Option Text
  pub timezone : Text
  pub status : ScheduledJobStatus
  pub result : Option JobResult
  pub error : Option Text

-- `Date.now()` of an instant of Calendar.antt
unfoldable pub unix_ms : ℕ → ℕ
unfolding instant
unix_ms now = now - instant 0 (record { year = 1970; month = 1; day = 1 }) 0 0

unfoldable pub job_id_text : ℕ → ℕ → Text
job_id_text ms counter = codes "schedule-" ++ (show_nat ms ++ (codes "-" ++ show_nat counter))

unfoldable pub next_job_id : Exec World Text
unfolding job_id_text unix_ms
next_job_id w = (
  ok (job_id_text (unix_ms w.now) (w.job_id_counter + 1)),
  record w { job_id_counter = w.job_id_counter + 1 },
)

unfoldable pub to_scheduled_job : SchedulerLogRow → ScheduledJob
to_scheduled_job row = record {
  id = row.job_id;
  type = row.type;
  category = row.category;
  device_name = row.device_name;
  state = row.state;
  scheduled_at = row.scheduled_at;
  run_at = row.run_at;
  cron_pattern = row.cron_pattern;
  timezone = row.timezone;
  status = row.status;
  result = row.result;
  error = row.error;
}

-- The row that `SchedulerLogModel.create` inserts for a job.
unfoldable pub new_row : ScheduledJob → ℕ → Option Text → ℕ → SchedulerLogRow
new_row job delay_minutes cron_pattern id = record {
  scheduler_log_id = id;
  job_id = job.id;
  type = job.type;
  category = job.category;
  device_name = job.device_name;
  state = job.state;
  delay_minutes = delay_minutes;
  scheduled_at = job.scheduled_at;
  run_at = job.run_at;
  cron_pattern = cron_pattern;
  timezone = wib_schedule_timezone;
  status = job.status;
  result = none;
  error = none;
  executed_at = none;
  deleted = false;
  destroyed = false;
}

unfoldable pub insert_row : ScheduledJob → ℕ → Option Text → Exec World (Unit {0})
unfolding new_row
insert_row job delay_minutes cron_pattern w = (
  ok tt,
  record w {
    db = record w.db {
      scheduler_logs =
          w.db.scheduler_logs
          ++ new_row job delay_minutes cron_pattern w.next_scheduler_log_id ∷ [];
    };
    next_scheduler_log_id = w.next_scheduler_log_id + 1;
  },
)

unfoldable pub is_live_log : SchedulerLogRow → Bool
is_live_log row = not row.deleted && not row.destroyed

unfoldable pub is_pending_once : SchedulerLogRow → Bool
unfolding is_live_log
is_pending_once row =
    is_live_log row
    && (elim row.category [ once ↦ true | repeat ↦ false ]
        && elim row.status [ ScheduledJobStatus.pending ↦ true | _ ↦ false ])

unfoldable pub is_active_repeat : SchedulerLogRow → Bool
unfolding is_live_log
is_active_repeat row =
    is_live_log row
    && (elim row.category [ once ↦ false | repeat ↦ true ]
        && elim row.status [ ScheduledJobStatus.active ↦ true | _ ↦ false ])

unfoldable pub insert_by_scheduled_at :
    SchedulerLogRow → List SchedulerLogRow → List SchedulerLogRow
insert_by_scheduled_at r [] = r ∷ []
insert_by_scheduled_at r (s ∷ rows) =
    let later = s ∷ insert_by_scheduled_at r rows in
    if leb s.scheduled_at r.scheduled_at then r ∷ s ∷ rows else later

-- `order: [['scheduledAt', 'DESC']]`; of equal times the database may choose.
unfoldable pub by_scheduled_at_desc : List SchedulerLogRow → List SchedulerLogRow
unfolding insert_by_scheduled_at
by_scheduled_at_desc [] = []
by_scheduled_at_desc (r ∷ rows) = insert_by_scheduled_at r (by_scheduled_at_desc rows)

unfoldable pub get_scheduled_job : Text → Exec World (Option ScheduledJob)
unfolding is_live_log to_scheduled_job
get_scheduled_job job_id = do
  row ←
      db_call (gets (λ w. find (λ r. is_live_log r && text_eq r.job_id job_id) w.db.scheduler_logs))
  pure (Option.map to_scheduled_job row)

unfoldable pub list_scheduled_jobs : ℕ → Exec World (List ScheduledJob)
unfolding is_live_log by_scheduled_at_desc to_scheduled_job
list_scheduled_jobs limit = do
  rows ←
      db_call
        (gets (λ w. take limit (by_scheduled_at_desc (filter is_live_log w.db.scheduler_logs))))
  pure (map to_scheduled_job rows)

abbrev pub job_data : SchedulerLogRow → DeviceScheduleJobData
job_data row = record {
  job_id = row.job_id;
  type = row.type;
  category = row.category;
  device_name = row.device_name;
  state = row.state;
}

abbrev initial_status : SchedulerCategory → ScheduledJobStatus
initial_status once = ScheduledJobStatus.pending
initial_status repeat = ScheduledJobStatus.active

module _ (q : JobQueue) where
  unfoldable pub persist_once_job :
      ScheduledJob → DeviceScheduleJobData → Exec (Scheduler q) (Unit {0})
  unfolding insert_row
  persist_once_job job queue_data = do
    on_world q (db_call (insert_row job (minutes_until_run job.scheduled_at job.run_at) none))
    enqueue_device_schedule_job q queue_data job.run_at

  unfoldable pub persist_repeat_job :
      ScheduledJob → DeviceScheduleJobData → Text → Exec (Scheduler q) (Unit {0})
  unfolding insert_row
  persist_repeat_job job queue_data cron_pattern = do
    on_world q (db_call (insert_row job 0 (some cron_pattern)))
    enqueue_repeat_device_schedule_job q queue_data cron_pattern wib_schedule_timezone

  unfoldable pub persist_job :
      ScheduledJob
      → DeviceScheduleJobData
      → SchedulerCategory
      → Option Text
      → Exec (Scheduler q) (Unit {0})
  unfolding persist_once_job persist_repeat_job
  persist_job job queue_data once cron_pattern = persist_once_job job queue_data
  persist_job job queue_data repeat none =
      throw (bad_request (codes "cronPattern is required for repeat schedules"))
  persist_job job queue_data repeat (some cron_pattern) =
      persist_repeat_job job queue_data cron_pattern

  -- `scheduleActuatorState` and `scheduleSensorData`, which differ in the type and the state.
  unfoldable pub schedule_job :
      ScheduledJobType
      → Text
      → Option State
      → SchedulerCategory
      → ℕ
      → Option Text
      → Exec (Scheduler q) ScheduledJob
  unfolding persist_job
  schedule_job type device_name state category run_at cron_pattern = do
    id ← on_world q next_job_id
    scheduled_at ← on_world q (gets (λ w. w.now))
    let job : ScheduledJob = record {
      id = id;
      type = type;
      category = category;
      device_name = device_name;
      state = state;
      scheduled_at = scheduled_at;
      run_at = run_at;
      cron_pattern = cron_pattern;
      timezone = wib_schedule_timezone;
      status = initial_status category;
      result = none;
      error = none;
    }
    let queue_data : DeviceScheduleJobData = record {
      job_id = id;
      type = type;
      category = category;
      device_name = device_name;
      state = state;
    }
    persist_job job queue_data category cron_pattern
    pure job

  unfoldable pub schedule_actuator_state :
      Text → State → SchedulerCategory → ℕ → Option Text → Exec (Scheduler q) ScheduledJob
  unfolding schedule_job
  schedule_actuator_state device_name state category run_at cron_pattern =
      schedule_job ScheduledJobType.actuator device_name (some state) category run_at cron_pattern

  unfoldable pub schedule_sensor_data :
      Text → SchedulerCategory → ℕ → Option Text → Exec (Scheduler q) ScheduledJob
  unfolding schedule_job
  schedule_sensor_data device_name category run_at cron_pattern =
      schedule_job ScheduledJobType.sensor_data device_name none category run_at cron_pattern

  -- A job that waits is put into the queue again, at once if its time has passed.
  unfoldable pub recover_once : ℕ → SchedulerLogRow → Exec (Scheduler q) (Unit {0})
  recover_once now row = do
    current ← on_world q (gets (λ w. w.now))
    enqueue_device_schedule_job q (job_data row)
        (if leb row.run_at now then current else row.run_at)

  unfoldable pub recover_each_once : ℕ → List SchedulerLogRow → Exec (Scheduler q) (Unit {0})
  unfolding recover_once
  recover_each_once now [] = pure tt
  recover_each_once now (row ∷ rows) = do recover_once now row; recover_each_once now rows

  unfoldable pub recover_pending_once_jobs : Exec (Scheduler q) (Unit {0})
  recover_pending_once_jobs = do
    rows ← on_world q (db_call (gets (λ w. filter is_pending_once w.db.scheduler_logs)))
    now ← on_world q (gets (λ w. w.now))
    recover_each_once now rows

  -- `repeatables` is what the queue listed before the loop.
  unfoldable pub recover_repeat :
      List RepeatableJob → SchedulerLogRow → Option Text → Exec (Scheduler q) (Unit {0})
  recover_repeat repeatables row none = pure tt
  recover_repeat repeatables row (some cron_pattern) =
      if is_repeat_job_registered repeatables row.job_id
      then pure tt
      else enqueue_repeat_device_schedule_job q (job_data row) cron_pattern row.timezone

  unfoldable pub recover_each_repeat :
      List RepeatableJob → List SchedulerLogRow → Exec (Scheduler q) (Unit {0})
  unfolding recover_repeat
  recover_each_repeat repeatables [] = pure tt
  recover_each_repeat repeatables (row ∷ rows) = do
    recover_repeat repeatables row row.cron_pattern
    recover_each_repeat repeatables rows

  unfoldable pub recover_found_repeats : List SchedulerLogRow → Exec (Scheduler q) (Unit {0})
  recover_found_repeats [] = pure tt
  recover_found_repeats (row ∷ rows) = do
    repeatables ← list_repeatable_device_schedule_jobs q
    recover_each_repeat repeatables (row ∷ rows)

  unfoldable pub recover_active_repeat_jobs : Exec (Scheduler q) (Unit {0})
  recover_active_repeat_jobs = do
    rows ← on_world q (db_call (gets (λ w. filter is_active_repeat w.db.scheduler_logs)))
    recover_found_repeats rows

  unfoldable pub initialize_device_schedule : Exec (Scheduler q) (Unit {0})
  initialize_device_schedule = do recover_pending_once_jobs; recover_active_repeat_jobs

  module _ (parse_other : ℤ → ℤ → ℤ → ℤ → ℤ → Option ℕ) where
    -- The instant and the pattern of a daily schedule; the clock reads the same throughout, since
    -- nothing is awaited.
    unfoldable pub next_daily : ℤ → ℤ → Exec World (ℕ × Text)
    unfolding resolve_next_daily_run build_daily_cron_pattern
    next_daily hour minute = do
      now ← gets (λ (w : World). w.now)
      next ← lift (resolve_next_daily_run parse_other now now hour minute)
      pattern ← lift (build_daily_cron_pattern hour minute)
      pure (next.run_at, pattern)

    unfoldable pub schedule_actuator_state_repeat :
        Text → State → ℤ → ℤ → Exec (Scheduler q) ScheduledJob
    unfolding schedule_actuator_state
    schedule_actuator_state_repeat device_name state hour minute = do
      next ← on_world q (next_daily hour minute)
      schedule_actuator_state device_name state repeat next.0 (some next.1)

    unfoldable pub schedule_sensor_data_repeat : Text → ℤ → ℤ → Exec (Scheduler q) ScheduledJob
    unfolding schedule_sensor_data
    schedule_sensor_data_repeat device_name hour minute = do
      next ← on_world q (next_daily hour minute)
      schedule_sensor_data device_name repeat next.0 (some next.1)
