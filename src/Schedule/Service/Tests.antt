-- ===== src/Schedule/Service/Tests.antt =====
-- services/mcp/DeviceSchedule.service.ts and services/scheduler/SchedulerLog.service.ts: a run over a queue that is two lists, and uses of the
-- theorems.
use ginem_api.Common.{◌≡◌, refl, false, none, some, [], ◌∷◌, All}
use ginem_api.Common.Text.{codes}
use ginem_api.Common.Exec.{ok}
use ginem_api.Store.{
  World, SchedulerLogRow, ScheduledJobType, sensor_data, once, repeat, ScheduledJobStatus, on,
  db_call,
}
use ginem_api.Schedule.Queue.{
  Scheduler, entry_is, is_repeat_job_registered, enqueue_device_schedule_job,
  enqueue_repeat_device_schedule_job, list_repeatable_device_schedule_jobs,
}
use ginem_api.Schedule.Queue.Samples.{lists_queue, lists_laws}
use ginem_api.Schedule.Service.{
  initialize_device_schedule, recover_pending_once_jobs, recover_each_once, is_pending_once,
  recover_active_repeat_jobs, recover_found_repeats, is_active_repeat, recover_each_repeat,
}
use ginem_api.Schedule.Service.Recovery.{Has, Listed}
use ginem_api.Schedule.Service.Restored.{
  IsPending, IsDaily, initialize_restores, pending_rows, repeat_rows,
}
use ginem_api.Schedule.Log.{remove_scheduler_log}
use ginem_api.Schedule.Log.Removed.{Without, remove_scheduler_log-Without}

abbrev lamp_on : SchedulerLogRow
lamp_on = record {
  scheduler_log_id = 1;
  job_id = codes "schedule-1-1";
  type = ScheduledJobType.actuator;
  category = once;
  device_name = codes "lamp";
  state = some on;
  delay_minutes = 5;
  scheduled_at = 10;
  run_at = 300010;
  cron_pattern = none;
  timezone = codes "Asia/Jakarta";
  status = ScheduledJobStatus.pending;
  result = none;
  error = none;
  executed_at = none;
  deleted = false;
  destroyed = false;
}

abbrev read_daily : SchedulerLogRow
read_daily = record lamp_on {
  scheduler_log_id = 2;
  job_id = codes "schedule-1-2";
  type = sensor_data;
  category = repeat;
  state = none;
  cron_pattern = some (codes "0 7 * * *");
  status = ScheduledJobStatus.active;
}

abbrev restarted : World
restarted = record {
  db = record {
    devices = [];
    device_logs = [];
    rules = [];
    triggers = [];
    conditions = [];
    actions = [];
    execution_logs = [];
    scheduler_logs = lamp_on ∷ read_daily ∷ [];
    users = [];
    llm_models = [];
  };
  next_rule_id = 1;
  next_device_log_id = 1;
  next_device_id = 1;
  next_scheduler_log_id = 3;
  next_user_id = 1;
  job_id_counter = 0;
  cache = record { rules = []; loaded = false };
  commands = [];
  last_state = λ _. none;
  now = 400000;
  script = [];
}

abbrev nothing_queued : Scheduler lists_queue
nothing_queued = (restarted, ([], []))

initialize_returns : (initialize_device_schedule lists_queue nothing_queued).0 ≡ ok tt
unfolding initialize_device_schedule db_call enqueue_device_schedule_job
    enqueue_repeat_device_schedule_job list_repeatable_device_schedule_jobs is_repeat_job_registered
    entry_is recover_pending_once_jobs recover_each_once is_pending_once recover_active_repeat_jobs
    recover_found_repeats is_active_repeat recover_each_repeat
initialize_returns = refl

initialize_restores_example :
    All
      (λ (r : SchedulerLogRow).
        IsPending r
        → Has lists_queue lists_laws r.job_id
            (initialize_device_schedule lists_queue nothing_queued).1.1)
      restarted.db.scheduler_logs
    × All
        (λ (r : SchedulerLogRow).
          IsDaily r
          → Listed lists_queue lists_laws r.job_id
              (initialize_device_schedule lists_queue nothing_queued).1.1)
        restarted.db.scheduler_logs
initialize_restores_example =
    initialize_restores lists_queue lists_laws nothing_queued initialize_returns

removes_row : (remove_scheduler_log 1 restarted).0 ≡ ok tt
unfolding remove_scheduler_log db_call
removes_row = refl

remove_scheduler_log-Without_example :
    Without 1 (pending_rows (remove_scheduler_log 1 restarted).1.db)
    × Without 1 (repeat_rows (remove_scheduler_log 1 restarted).1.db)
remove_scheduler_log-Without_example = remove_scheduler_log-Without 1 restarted removes_row
