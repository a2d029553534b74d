-- ===== src/Device/Tests.antt =====
-- services/device/Device.service.ts: runs over one lamp, and uses of the theorems.
use ginem_api.Common.{◌≡◌, refl, false, none, some, [], ◌∷◌, ◌==◌, if◌then◌else◌}
use ginem_api.Common.Text.{codes}
use ginem_api.Common.Exec.{ok}
use ginem_api.Store.{World, DeviceRow, offline, db_call, DeviceType}
use ginem_api.Store.Samples.{empty_world}
use ginem_api.Device.{device_with_id}
use ginem_api.Device.Service.{UpdateDevice, remove_device, update_device}
use ginem_api.Device.Service.Changes.{Changed, remove_device-removes, update_device-changes}

abbrev lamp : DeviceRow
lamp = record {
  device_id = 1;
  device_token = codes "fck_1";
  device_name = codes "lamp";
  device_description = none;
  device_type = DeviceType.actuator;
  device_status = offline;
  device_firmware_version = none;
  device_metadata = none;
  deleted = false;
  destroyed = false;
}

abbrev one_lamp : World
one_lamp = record empty_world { db = record empty_world.db { devices = lamp ∷ [] } }

abbrev rename : UpdateDevice
rename = record {
  device_id = 1;
  device_name = some (codes "desk lamp");
  device_description = none;
  device_status = none;
  device_firmware_version = none;
  device_metadata = none;
}

removes : (remove_device 1 one_lamp).0 ≡ ok tt
unfolding remove_device db_call
removes = refl

renames : (update_device rename one_lamp).0 ≡ ok tt
unfolding update_device db_call
renames = refl

remove_device-removes_example :
    device_with_id 1 (remove_device 1 one_lamp).1.db.devices
    ≡ (if 1 == 1 then none else device_with_id 1 (lamp ∷ []))
remove_device-removes_example = remove_device-removes 1 one_lamp removes 1

update_device-changes_example :
    Changed rename one_lamp.db.devices (update_device rename one_lamp).1.db.devices
update_device-changes_example = update_device-changes rename one_lamp renames
