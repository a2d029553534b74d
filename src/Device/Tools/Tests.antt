-- ===== src/Device/Tools/Tests.antt =====
-- Runs of deviceLogs.tools.ts and deviceQuery.tools.ts over one sensor with one value.
use ginem_api.Common.{◌≡◌, refl, arith, false, none, some, [], ◌∷◌}
use ginem_api.Common.Int.{pos}
use ginem_api.Common.Text.{codes, text_eq}
use ginem_api.Common.Exec.{ok}
use ginem_api.Store.{World, DeviceRow, DeviceLogRow, online, sensor, db_call}
use ginem_api.Store.Samples.{empty_world}
use ginem_api.Device.{
  device_named, device_with_id, find_by_name, create_device_log, logs_of, by_id_desc,
  find_last_logs_by_device_id, or_not_found, insert_by_id,
}
use ginem_api.Device.Tools.{
  log_created, last_value, create_device_log_by_device_name, get_last_log_by_device_name,
  list_devices,
}
use ginem_api.Device.Tools.Newest.{get_last_log-create_device_log}

abbrev thermometer : DeviceRow
thermometer = record {
  device_id = 2;
  device_token = codes "T";
  device_name = codes "thermometer";
  device_description = none;
  device_type = sensor;
  device_status = online;
  device_firmware_version = none;
  device_metadata = none;
  deleted = false;
  destroyed = false;
}

abbrev reading : DeviceLogRow
reading = record {
  device_log_id = 1;
  device_log_device_id = 2;
  device_log_data = codes "21";
  created_at = 0;
  deleted = false;
  destroyed = false;
}

abbrev one_reading : World
one_reading = record empty_world {
  db = record empty_world.db { devices = thermometer ∷ []; device_logs = reading ∷ [] };
  next_device_log_id = 2;
}

abbrev second_reading : DeviceLogRow
second_reading = record reading { device_log_id = 2; device_log_data = codes "22" }

records :
    (create_device_log_by_device_name (codes "thermometer") (codes "22") one_reading).0
    ≡ ok (log_created 2 second_reading)
unfolding create_device_log_by_device_name find_by_name create_device_log device_named
    device_with_id or_not_found db_call text_eq
records = refl

reads_back :
    (get_last_log_by_device_name
      (codes "thermometer")
      (create_device_log_by_device_name (codes "thermometer") (codes "22") one_reading).1).0
    ≡ ok (last_value 2 second_reading)
unfolding create_device_log_by_device_name get_last_log_by_device_name find_by_name
    find_last_logs_by_device_id create_device_log device_named device_with_id or_not_found db_call
    text_eq logs_of by_id_desc insert_by_id
reads_back = refl

get_last_log-create_device_log_example :
    (d : DeviceRow) × (device_named (codes "thermometer") one_reading.db.devices ≡ some d)
    × (log : DeviceLogRow) × (log_created 2 second_reading ≡ log_created d.device_id log)
    × (last_value 2 second_reading ≡ last_value d.device_id log)
    × (log.device_log_data ≡ codes "22")
get_last_log-create_device_log_example =
    get_last_log-create_device_log (codes "thermometer") (codes "22") one_reading
      (log_created 2 second_reading) (last_value 2 second_reading) (omega arith, tt) records
      reads_back

-- Of the pages that the tool calls zero-based, the first two are one.
first_pages_same :
    list_devices text_eq (some (pos 0)) none one_reading
    ≡ list_devices text_eq (some (pos 1)) none one_reading
unfolding list_devices
first_pages_same = refl
