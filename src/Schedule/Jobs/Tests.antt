-- ===== src/Schedule/Jobs/Tests.antt =====
-- services/scheduler/deviceSchedule.jobs.ts: a job whose device is gone, and a use of the theorem.
use ginem_api.Common.{◌≡◌, refl, true, false, none, some, [], ◌∷◌, map}
use ginem_api.Common.Text.{codes, text_eq}
use ginem_api.Store.{
  World, SchedulerLogRow, ScheduledJobType, once, ScheduledJobStatus, on, db_call,
}
use ginem_api.Common.Exec.{not_found}
use ginem_api.Device.{find_by_name, or_not_found, device_named}
use ginem_api.Schedule.Queue.{DeviceScheduleJobData}
use ginem_api.Schedule.Jobs.{process_device_schedule_job}
use ginem_api.Schedule.Jobs.Moves.{RowsMove, process_device_schedule_job-RowsMove}

abbrev lamp_job : DeviceScheduleJobData
lamp_job = record {
  job_id = codes "schedule-1-1";
  type = ScheduledJobType.actuator;
  category = once;
  device_name = codes "lamp";
  state = some on;
}

abbrev row_of : DeviceScheduleJobData → SchedulerLogRow
row_of d = record {
  scheduler_log_id = 1;
  job_id = d.job_id;
  type = d.type;
  category = d.category;
  device_name = d.device_name;
  state = d.state;
  delay_minutes = 5;
  scheduled_at = 10;
  run_at = 300010;
  cron_pattern = none;
  timezone = codes "Asia/Jakarta";
  status = ScheduledJobStatus.pending;
  result = none;
  error = none;
  executed_at = none;
  deleted = false;
  destroyed = false;
}

abbrev no_devices : World
no_devices = record {
  db = record {
    devices = [];
    device_logs = [];
    rules = [];
    triggers = [];
    conditions = [];
    actions = [];
    execution_logs = [];
    scheduler_logs = row_of lamp_job ∷ [];
    users = [];
    llm_models = [];
  };
  next_rule_id = 1;
  next_device_log_id = 1;
  next_device_id = 1;
  next_scheduler_log_id = 2;
  next_user_id = 1;
  job_id_counter = 1;
  cache = record { rules = []; loaded = false };
  commands = [];
  last_state = λ _. none;
  now = 300010;
  script = [];
}

-- The device is gone: the row fails.
fails_without_device :
    map
      (λ (r : SchedulerLogRow). r.status)
      (process_device_schedule_job true (codes "Error") lamp_job no_devices).1.db.scheduler_logs
    ≡ ScheduledJobStatus.failed ∷ []
unfolding process_device_schedule_job find_by_name or_not_found device_named db_call not_found
    text_eq
fails_without_device = refl

process_device_schedule_job-RowsMove_example :
    RowsMove lamp_job
      (row_of lamp_job ∷ [])
      (process_device_schedule_job true (codes "Error") lamp_job no_devices).1.db.scheduler_logs
process_device_schedule_job-RowsMove_example =
    process_device_schedule_job-RowsMove lamp_job true (codes "Error") no_devices
