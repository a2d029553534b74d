-- ===== src/Schedule/Tools.antt =====
-- services/mcp/tools/device/deviceActuatorScheduler.tools.ts: the tools by which the language model
-- turns actuators on and off and makes schedules. An answer is the data of the JSON text that the
-- tool returns, without its labels and constants.
pub mod Guards
pub mod Once
pub mod Tests
use ginem_api.Common.{
  ℕ, Bool, true, false, ◌||◌, Option, none, some, List, is_some, or_else, if◌then◌else◌,
}
use ginem_api.Common.Int.{ℤ}
use ginem_api.Common.Text.{Text, codes}
use ginem_api.Common.Exec.{
  Exec, Thrown, app_error, other, pure, throw, lift, gets, catch, ◌>>=◌, ◌>>◌,
}
use ginem_api.Store.{DeviceRow, DeviceType, State, SchedulerCategory, once, repeat, World}
use ginem_api.Device.{find_by_name, create_device_log, state_value}
use ginem_api.Rule.Engine.{publish_actuator_state}
use ginem_api.Schedule.DateTime.{
  ScheduleDateTimeInput, ResolvedScheduleDateTime, resolve_schedule_date_time,
  resolve_next_daily_run, build_daily_cron_pattern,
}
use ginem_api.Schedule.Queue.{JobQueue, Scheduler, on_world}
use ginem_api.Schedule.Service.{
  ScheduledJob, schedule_actuator_state, schedule_actuator_state_repeat, schedule_sensor_data,
  schedule_sensor_data_repeat, get_scheduled_job, list_scheduled_jobs,
}
use ginem_api.Schedule.Jobs.{is_actuator}

-- `buildRepeatScheduleResponse`: the pattern and the next run.
pub record RepeatSchedule : Type 0 where
  pub cron_pattern : Text
  pub next : ResolvedScheduleDateTime

pub data ToolAnswer : Type 0 where
  -- `{ error }`
  refused : Text → ToolAnswer
  not_actuator : Text → DeviceType → ToolAnswer
  turned :
      Text
      → State
      → (device_id : ℕ) → (log_id : ℕ) → (log_data : Text) → (created_at : ℕ) → ToolAnswer
  scheduled_daily : ScheduledJob → RepeatSchedule → ToolAnswer
  scheduled_once : ScheduledJob → ResolvedScheduleDateTime → ToolAnswer
  job_missing : Text → ToolAnswer
  job_shown : ScheduledJob → ToolAnswer
  jobs_listed : List ScheduledJob → ToolAnswer

-- `if (err instanceof AppError) return …; throw err`
unfoldable pub answer_app_error : {S : Type 0} → Thrown → Exec S ToolAnswer
answer_app_error (app_error status message) = pure (refused message)
answer_app_error other = throw other

-- `device` is never missing, since `findByName` throws then.
unfoldable pub turn : Text → State → DeviceRow → Exec World ToolAnswer
unfolding publish_actuator_state is_actuator
turn device_name state device =
    if is_actuator device.device_type
    then (do
      log ← create_device_log device.device_id (state_value state)
      publish_actuator_state device.device_id state
      pure (
          turned device_name state device.device_id log.device_log_id log.device_log_data
            log.created_at))
    else pure (not_actuator device_name device.device_type)

unfoldable pub set_actuator_state_by_device_name : Text → State → Exec World ToolAnswer
unfolding turn
set_actuator_state_by_device_name device_name state = do
  device ← find_by_name device_name
  turn device_name state device

pub record ScheduleRequest : Type 0 where
  pub device_name : Text
  pub category : SchedulerCategory
  pub time : ScheduleDateTimeInput

-- `date != null || year != null || month != null || day != null`
unfoldable pub has_date : ScheduleDateTimeInput → Bool
has_date t = is_some t.date || is_some t.year || is_some t.month || is_some t.day

module _ (q : JobQueue) (parse_other : ℤ → ℤ → ℤ → ℤ → ℤ → Option ℕ) where
  unfoldable pub build_repeat_schedule_response : ℤ → ℤ → Exec World RepeatSchedule
  unfolding resolve_next_daily_run build_daily_cron_pattern
  build_repeat_schedule_response hour minute = do
    now ← gets (λ (w : World). w.now)
    next ← lift (resolve_next_daily_run parse_other now now hour minute)
    pattern ← lift (build_daily_cron_pattern hour minute)
    pure (record { cron_pattern = pattern; next = next })

  unfoldable pub resolve_request : ScheduleDateTimeInput → Exec World ResolvedScheduleDateTime
  unfolding resolve_schedule_date_time
  resolve_request input = do
    now ← gets (λ (w : World). w.now)
    lift (resolve_schedule_date_time parse_other now now now input)

  -- What both scheduling tools do once the device is accepted, given the calls that make the jobs.
  unfoldable pub schedule_daily :
      ScheduleDateTimeInput → Exec (Scheduler q) ScheduledJob → Exec (Scheduler q) ToolAnswer
  unfolding has_date build_repeat_schedule_response
  schedule_daily time make_job =
      if has_date time
      then pure (refused (codes "Repeat schedule uses daily time only. Omit date/year/month/day."))
      else (do
        job ← make_job
        schedule ← on_world q (build_repeat_schedule_response time.hour time.minute)
        pure (scheduled_daily job schedule))

  unfoldable pub schedule_one :
      ScheduleDateTimeInput → (ℕ → Exec (Scheduler q) ScheduledJob) → Exec (Scheduler q) ToolAnswer
  unfolding resolve_request
  schedule_one time make_job = do
    resolved ← on_world q (resolve_request time)
    job ← make_job resolved.run_at
    pure (scheduled_once job resolved)

  unfoldable pub schedule_actuator :
      SchedulerCategory → ScheduleRequest → State → Exec (Scheduler q) ToolAnswer
  unfolding schedule_daily schedule_one schedule_actuator_state schedule_actuator_state_repeat
  schedule_actuator repeat p state =
      schedule_daily p.time
        (schedule_actuator_state_repeat q parse_other p.device_name state p.time.hour p.time.minute)
  schedule_actuator once p state =
      schedule_one p.time (λ run_at. schedule_actuator_state q p.device_name state once run_at none)

  unfoldable pub schedule_if_actuator :
      ScheduleRequest → State → DeviceRow → Exec (Scheduler q) ToolAnswer
  unfolding schedule_actuator is_actuator
  schedule_if_actuator p state device =
      if is_actuator device.device_type
      then schedule_actuator p.category p state
      else pure (not_actuator p.device_name device.device_type)

  unfoldable pub schedule_actuator_state_at :
      ScheduleRequest → State → Exec (Scheduler q) ToolAnswer
  unfolding schedule_if_actuator answer_app_error
  schedule_actuator_state_at p state =
      catch
        (do device ← on_world q (find_by_name p.device_name); schedule_if_actuator p state device)
        answer_app_error

  unfoldable pub schedule_sensor :
      SchedulerCategory → ScheduleRequest → Exec (Scheduler q) ToolAnswer
  unfolding schedule_daily schedule_one schedule_sensor_data schedule_sensor_data_repeat
  schedule_sensor repeat p =
      schedule_daily p.time
        (schedule_sensor_data_repeat q parse_other p.device_name p.time.hour p.time.minute)
  schedule_sensor once p =
      schedule_one p.time (λ run_at. schedule_sensor_data q p.device_name once run_at none)

  unfoldable pub schedule_sensor_data_at : ScheduleRequest → Exec (Scheduler q) ToolAnswer
  unfolding schedule_sensor answer_app_error
  schedule_sensor_data_at p =
      catch (do on_world q (find_by_name p.device_name); schedule_sensor p.category p)
        answer_app_error

abbrev shown : Text → Option ScheduledJob → ToolAnswer
shown job_id none = job_missing job_id
shown job_id (some job) = job_shown job

unfoldable pub get_scheduled_job_result : Text → Exec World ToolAnswer
unfolding get_scheduled_job
get_scheduled_job_result job_id = do job ← get_scheduled_job job_id; pure (shown job_id job)

unfoldable pub list_scheduled_jobs_tool : Option ℕ → Exec World ToolAnswer
unfolding list_scheduled_jobs
list_scheduled_jobs_tool limit = do
  jobs ← list_scheduled_jobs (or_else limit 20)
  pure (jobs_listed jobs)
