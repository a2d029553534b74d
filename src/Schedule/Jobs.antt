-- ===== src/Schedule/Jobs.antt =====
-- services/scheduler/deviceSchedule.jobs.ts and deviceSchedule.worker.ts: what a scheduled job does
-- when it runs, and what it records. Whether the broker is connected, and the text of a thrown value
-- that is no `AppError`, are parameters.
pub mod Moves
mod Tests
use ginem_api.Common.{
  ℕ, Bool, true, false, ◌&&◌, not, Option, none, some, List, [], ◌∷◌, ◌++◌, map, length,
  if◌then◌else◌,
}
use ginem_api.Common.Text.{Text, codes, text_eq}
use ginem_api.Common.Exec.{
  Exec, Result, Thrown, app_error, other, ok, err, pure, throw, gets, catch, ◌>>=◌, ◌>>◌,
}
use ginem_api.Store.{
  DeviceType, sensor, hybrid, DeviceRow, DeviceLogRow, State, on, off, SchedulerCategory, once,
  repeat, ScheduledJobStatus, ScheduledJobType, sensor_data, JobResult, actuated, fetched,
  SchedulerLogRow, World, db_call, update_db,
}
use ginem_api.Device.{find_by_name, create_device_log, find_last_logs_by_device_id, state_value}
use ginem_api.Rule.Engine.{publish_actuator_state}
use ginem_api.Rule.Management.{type_name}
use ginem_api.Schedule.Queue.{DeviceScheduleJobData}

-- A daily job that succeeded stays active.
unfoldable pub final_status : SchedulerCategory → ScheduledJobStatus → ScheduledJobStatus
final_status repeat ScheduledJobStatus.completed = ScheduledJobStatus.active
final_status repeat ScheduledJobStatus.pending = ScheduledJobStatus.pending
final_status repeat ScheduledJobStatus.active = ScheduledJobStatus.active
final_status repeat ScheduledJobStatus.failed = ScheduledJobStatus.failed
final_status once status = status

-- The row that `SchedulerLogModel.update` leaves of a row.
unfoldable pub recorded :
    Text
    → ScheduledJobStatus
    → Option JobResult
    → Option Text
    → ℕ
    → SchedulerLogRow
    → SchedulerLogRow
recorded job_id status result error now row =
    if not row.deleted && (not row.destroyed && text_eq row.job_id job_id)
    then record row { status = status; result = result; error = error; executed_at = some now }
    else row

unfoldable pub update_logs :
    Text → ScheduledJobStatus → Option JobResult → Option Text → Exec World (Unit {0})
unfolding recorded
update_logs job_id status result error = do
  now ← gets (λ (w : World). w.now)
  db_call (
      update_db λ db. record db {
        scheduler_logs = map (recorded job_id status result error now) db.scheduler_logs;
      })

-- A failure to record is logged and dropped.
unfoldable pub record_scheduler_result :
    Text
    → ScheduledJobStatus
    → SchedulerCategory
    → Option JobResult
    → Option Text
    → Exec World (Unit {0})
unfolding update_logs final_status
record_scheduler_result job_id status category result error =
    catch (update_logs job_id (final_status category status) result error) (λ _. pure tt)

unfoldable pub is_actuator : DeviceType → Bool
is_actuator sensor = false
is_actuator DeviceType.actuator = true
is_actuator hybrid = false

abbrev pub fetched_value : DeviceLogRow → ℕ × Text × ℕ
fetched_value r = (r.device_log_id, r.device_log_data, r.created_at)

module _ (broker_connected : Bool) (text_of_other : Text) where
  -- `err instanceof Error ? err.message : String(err)`
  unfoldable pub error_text : Thrown → Text
  error_text (app_error status message) = message
  error_text other = text_of_other

  -- The `catch` block of both jobs.
  unfoldable pub fail_job : DeviceScheduleJobData → Thrown → Exec World (Unit {0})
  unfolding record_scheduler_result error_text
  fail_job d e = do
    record_scheduler_result d.job_id ScheduledJobStatus.failed d.category none (some (error_text e))
    throw e

  unfoldable pub actuate : DeviceScheduleJobData → DeviceRow → State → Exec World (Unit {0})
  unfolding record_scheduler_result publish_actuator_state
  actuate d device state = do
    device_value ← create_device_log device.device_id (state_value state)
    publish_actuator_state device.device_id state
    record_scheduler_result d.job_id ScheduledJobStatus.completed d.category
        (some (
          actuated device.device_id device_value.device_log_id device_value.device_log_data state
            broker_connected))
        none

  unfoldable pub actuate_state :
      DeviceScheduleJobData → DeviceRow → Option State → Exec World (Unit {0})
  unfolding actuate record_scheduler_result
  actuate_state d device none =
      record_scheduler_result d.job_id ScheduledJobStatus.failed d.category none
        (some (codes "Invalid actuator state for job " ++ d.job_id))
  actuate_state d device (some state) = actuate d device state

  unfoldable pub actuate_device : DeviceScheduleJobData → DeviceRow → Exec World (Unit {0})
  unfolding actuate_state record_scheduler_result is_actuator
  actuate_device d device =
      if is_actuator device.device_type
      then actuate_state d device d.state
      else record_scheduler_result d.job_id ScheduledJobStatus.failed d.category none (
          some (
            codes "Device \""
            ++ (d.device_name
                ++ (codes "\" is not an actuator (type: "
                    ++ (type_name device.device_type ++ codes ")")))))

  unfoldable pub execute_actuator_job : DeviceScheduleJobData → Exec World (Unit {0})
  unfolding actuate_device fail_job
  execute_actuator_job d =
      catch (do device ← find_by_name d.device_name; actuate_device d device) (fail_job d)

  unfoldable pub execute_sensor_data_job : DeviceScheduleJobData → Exec World (Unit {0})
  unfolding record_scheduler_result fail_job
  execute_sensor_data_job d =
      catch
        (do
          device ← find_by_name d.device_name
          items ← find_last_logs_by_device_id device.device_id 10
          record_scheduler_result d.job_id ScheduledJobStatus.completed d.category
              (some (fetched device.device_id (map fetched_value items))) none)
        (fail_job d)

  unfoldable pub process_job : ScheduledJobType → DeviceScheduleJobData → Exec World (Unit {0})
  unfolding execute_actuator_job execute_sensor_data_job
  process_job ScheduledJobType.actuator d = execute_actuator_job d
  process_job sensor_data d = execute_sensor_data_job d

  unfoldable pub process_device_schedule_job : DeviceScheduleJobData → Exec World (Unit {0})
  unfolding process_job
  process_device_schedule_job d = process_job d.type d
