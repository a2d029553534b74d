-- ===== src/Schedule/Tools/Tests.antt =====
-- Runs of deviceActuatorScheduler.tools.ts with a lamp and a sensor, over a queue of two lists.
use ginem_api.Common.{ℕ, true, false, ◌≡◌, refl, none, some, List, [], ◌∷◌}
use ginem_api.Common.Int.{pos}
use ginem_api.Common.Text.{codes, text_eq}
use ginem_api.Common.Exec.{ok}
use ginem_api.Store.{
  DeviceRow, World, Reply, db_call, sensor, DeviceType, online, on, once, ScheduledJobType,
  ScheduledJobStatus,
}
use ginem_api.Store.Calls.{advance}
use ginem_api.Store.Samples.{empty_world}
use ginem_api.Device.{
  find_by_name, create_device_log, device_named, device_with_id, or_not_found, is_live_device,
}
use ginem_api.Rule.Engine.{publish_actuator_state}
use ginem_api.Schedule.Queue.Samples.{lists_queue, lists_laws}
use ginem_api.Schedule.Queue.{enqueue_device_schedule_job}
use ginem_api.Schedule.Calendar.{
  instant, date_of, month_of, year_of, local_day, day_number, days_before_year, days_before_month,
  is_leap,
}
use ginem_api.Schedule.DateTime.{
  ScheduleDateTimeInput, ResolvedScheduleDateTime, validate_time_parts, resolve_date_parts, run_on,
  build_run_at, validate_date_parts, iso_instant, valid_date, get_wib_date_parts, or_tomorrow,
  in_future, add_days_wib, shift_days, resolve_schedule_date_time,
}
use ginem_api.Schedule.Service.{ScheduledJob, job_id_text, unix_ms, schedule_job, next_job_id}
use ginem_api.Schedule.Tools.Once.{ActuatorScheduled, tool, schedule_actuator_state_at-scheduled}
use ginem_api.Schedule.Jobs.{is_actuator}
use ginem_api.Schedule.Tools.{
  scheduled_once, not_actuator, ScheduleRequest, set_actuator_state_by_device_name,
  schedule_actuator_state_at,
}
use ginem_api.Schedule.Tools.Guards.{
  NotActuator, set_actuator_state-refused, schedule_actuator_state_at-refused,
}

abbrev lamp : DeviceRow
lamp = record {
  device_id = 1;
  device_token = codes "L";
  device_name = codes "lamp";
  device_description = none;
  device_type = DeviceType.actuator;
  device_status = online;
  device_firmware_version = none;
  device_metadata = none;
  deleted = false;
  destroyed = false;
}

abbrev thermometer : DeviceRow
thermometer = record lamp { device_id = 2; device_name = codes "thermometer"; device_type = sensor }

abbrev room : World
room = record empty_world { db = record empty_world.db { devices = lamp ∷ thermometer ∷ [] } }

-- The first call fails after two milliseconds.
abbrev broken_room : World
broken_room = record room { script = record { fails = true; elapsed = 2 } ∷ [] }

lamp_turned : (set_actuator_state_by_device_name (codes "lamp") on room).1.commands ≡ (1, on) ∷ []
unfolding set_actuator_state_by_device_name find_by_name create_device_log device_named
    device_with_id or_not_found publish_actuator_state db_call text_eq is_live_device
lamp_turned = refl

sensor_not_turned :
    (set_actuator_state_by_device_name (codes "thermometer") on room).0
    ≡ ok (not_actuator (codes "thermometer") sensor)
unfolding set_actuator_state_by_device_name find_by_name device_named or_not_found db_call text_eq
sensor_not_turned = refl

abbrev thermometer_at_six : ScheduleRequest
thermometer_at_six = record {
  device_name = codes "thermometer";
  category = once;
  time = record {
    hour = pos 6;
    minute = pos 0;
    year = none;
    month = none;
    day = none;
    date = none;
  };
}

thermometer-NotActuator : NotActuator (device_named (codes "thermometer") room.db.devices)
unfolding device_named text_eq is_live_device NotActuator is_actuator
thermometer-NotActuator = refl

set_actuator_state-refused_example :
    (t : ℕ) × (rest : List Reply) × ((set_actuator_state_by_device_name
        (codes "thermometer")
        on
        broken_room).1
      ≡ advance t rest broken_room)
set_actuator_state-refused_example =
    set_actuator_state-refused (codes "thermometer") on broken_room thermometer-NotActuator

schedule_actuator_state_at-refused_example :
    (t : ℕ) × (rest : List Reply) × ((schedule_actuator_state_at lists_queue
        (λ _ _ _ _ _. none)
        thermometer_at_six
        on
        (room, ([], []))).1
      ≡ (advance t rest room, ([], [])))
schedule_actuator_state_at-refused_example =
    schedule_actuator_state_at-refused lists_queue (λ _ _ _ _ _. none) thermometer_at_six on room
      ([], []) thermometer-NotActuator

-- 2027-12-31, 23:30 in WIB
abbrev new_years_eve : ℕ
new_years_eve = instant 7 (record { year = 2027; month = 12; day = 31 }) 23 30

abbrev late_room : World
late_room = record room { now = new_years_eve }

abbrev at_six : ScheduleDateTimeInput
at_six = record { hour = pos 6; minute = pos 0; year = none; month = none; day = none; date = none }

abbrev at_six_of_new_year : ResolvedScheduleDateTime
at_six_of_new_year = record {
  run_at = instant 7 (record { year = 2028; month = 1; day = 1 }) 6 0;
  year = pos 2028;
  month = pos 1;
  day = pos 1;
  hour = pos 6;
  minute = pos 0;
  time_only = true;
}

abbrev lamp_job : ScheduledJob
lamp_job = record {
  id = job_id_text (unix_ms new_years_eve) 1;
  type = ScheduledJobType.actuator;
  category = once;
  device_name = codes "lamp";
  state = some on;
  scheduled_at = new_years_eve;
  run_at = at_six_of_new_year.run_at;
  cron_pattern = none;
  timezone = codes "Asia/Jakarta";
  status = ScheduledJobStatus.pending;
  result = none;
  error = none;
}

lamp_scheduled :
    (tool lists_queue (λ _ _ _ _ _. none) (codes "lamp") at_six on (late_room, ([], []))).0
    ≡ ok (scheduled_once lamp_job at_six_of_new_year)
unfolding schedule_actuator_state_at find_by_name db_call device_named is_live_device or_not_found
    text_eq is_actuator validate_time_parts resolve_date_parts run_on build_run_at
    validate_date_parts iso_instant valid_date get_wib_date_parts date_of month_of year_of local_day
    day_number days_before_year days_before_month is_leap instant or_tomorrow in_future add_days_wib
    shift_days resolve_schedule_date_time enqueue_device_schedule_job next_job_id schedule_job
lamp_scheduled = refl

schedule_actuator_state_at-scheduled_example :
    (d : DeviceRow) × (device_named (codes "lamp") late_room.db.devices ≡ some d)
    × (is_actuator d.device_type ≡ true)
    × ActuatorScheduled lists_queue lists_laws
        (λ _ _ _ _ _. none)
        (codes "lamp")
        at_six
        on
        new_years_eve
        late_room.db
        (tool lists_queue (λ _ _ _ _ _. none) (codes "lamp") at_six on (late_room, ([], []))).1
        lamp_job
        at_six_of_new_year
schedule_actuator_state_at-scheduled_example =
    schedule_actuator_state_at-scheduled lists_queue lists_laws (λ _ _ _ _ _. none) (codes "lamp")
      at_six on late_room ([], []) lamp_job at_six_of_new_year lamp_scheduled
