-- ===== src/Device/Service.antt =====
-- services/device/Device.service.ts: listing, creating, changing and removing devices. The operator
-- LIKE of the database, its comparison of names, and the token of a new device are parameters.
pub mod Changes
use ginem_api.Common.{
  ℕ, ◌+◌, ◌-◌, Bool, true, false, ◌&&◌, ◌||◌, not, Option, none, some, List, [], ◌∷◌, ◌++◌, map,
  filter, find, take, length, leb, ◌==◌, or_else, is_some, if◌then◌else◌,
}
use ginem_api.Common.Int.{ℤ}
use ginem_api.Common.Text.{Text, codes, trim}
use ginem_api.Common.Exec.{
  Exec, Result, ok, err, pure, throw, gets, catch, rethrow, bad_request, not_found, conflict, ◌>>=◌,
  ◌>>◌,
}
use ginem_api.Store.{
  DeviceType, DeviceStatus, offline, DeviceRow, DeviceLogRow, Db, World, db_call, update_db,
}
use ginem_api.Paging.{PageData, pagination, format_data, find_page}
use ginem_api.Device.{is_live_device, device_with_id, or_not_found, logs_of}

-- `order: [['createdAt', 'DESC']]`; of rows created at the same time the database may choose.
unfoldable pub insert_by_created : DeviceLogRow → List DeviceLogRow → List DeviceLogRow
insert_by_created r [] = r ∷ []
insert_by_created r (s ∷ rows) =
    let later = s ∷ insert_by_created r rows in
    if leb s.created_at r.created_at then r ∷ s ∷ rows else later

unfoldable pub by_created_desc : List DeviceLogRow → List DeviceLogRow
unfolding insert_by_created
by_created_desc [] = []
by_created_desc (r ∷ rows) = insert_by_created r (by_created_desc rows)

-- A device with its last ten logs.
pub record DeviceWithLogs : Type 0 where
  pub device : DeviceRow
  pub device_logs : List DeviceLogRow

unfoldable pub with_logs : Db → DeviceRow → DeviceWithLogs
unfolding by_created_desc logs_of
with_logs db d = record {
  device = d;
  device_logs = take 10 (by_created_desc (logs_of d.device_id db.device_logs));
}

unfoldable pub insert_device_by_id : DeviceRow → List DeviceRow → List DeviceRow
insert_device_by_id r [] = r ∷ []
insert_device_by_id r (s ∷ rows) =
    let later = s ∷ insert_device_by_id r rows in
    if leb s.device_id r.device_id then r ∷ s ∷ rows else later

unfoldable pub devices_by_id_desc : List DeviceRow → List DeviceRow
unfolding insert_device_by_id
devices_by_id_desc [] = []
devices_by_id_desc (r ∷ rows) = insert_device_by_id r (devices_by_id_desc rows)

pub record FindAllDevices : Type 0 where
  pub page : Option ℤ
  pub size : Option ℤ
  pub pagination : Bool
  pub search : Option Text

-- A description that is null is not like any text.
unfoldable pub device_matches : (Text → Text → Bool) → Option Text → DeviceRow → Bool
device_matches like none d = true
device_matches like (some search) d =
    like (trim search) d.device_name || elim d.device_description [
      | none ↦ false
      | some description ↦ like (trim search) description
    ]

unfoldable pub devices_page : FindAllDevices → List DeviceRow → PageData DeviceRow
unfolding find_page pagination format_data
devices_page p rows =
    if p.pagination
    then find_page p.page p.size rows
    else format_data (pagination p.page p.size) (length rows) rows

-- The rows first, and then their logs by a query of its own.
unfoldable pub find_all_devices :
    (Text → Text → Bool) → FindAllDevices → Exec World (PageData DeviceRow × List DeviceWithLogs)
unfolding devices_page devices_by_id_desc device_matches is_live_device with_logs
find_all_devices like p =
    catch
      (do
        rows ← db_call (
            gets λ w. devices_page p (
              devices_by_id_desc
                (filter (λ d. is_live_device d && device_matches like p.search d) w.db.devices)))
        shown ← db_call (gets (λ w. map (with_logs w.db) rows.items))
        pure (rows, shown))
      (rethrow (codes "Failed to list devices"))

unfoldable pub find_device_by_id : ℕ → Exec World DeviceWithLogs
unfolding device_with_id or_not_found with_logs
find_device_by_id id =
    catch
      (do
        found ← db_call (gets (λ w. device_with_id id w.db.devices))
        device ← or_not_found (codes "Device not found") found
        db_call (gets (λ w. with_logs w.db device)))
      (rethrow (codes "Failed to get device by id"))

-- `exists`: any error counts as no.
unfoldable pub device_exists : ℕ → Exec World Bool
unfolding find_device_by_id
device_exists id = catch (do device ← find_device_by_id id; pure true) (λ _. pure false)

-- `toLocaleUpperCase`, of the ASCII letters.
unfoldable pub upper : ℕ → ℕ
upper c = if leb b'a' c && leb c b'z' then c - 32 else c

unfoldable pub to_upper_case : Text → Text
unfolding upper
to_upper_case s = map upper s

pub record CreateDevice : Type 0 where
  pub device_name : Text
  pub device_description : Option Text
  pub device_type : DeviceType
  pub device_status : Option DeviceStatus
  pub device_firmware_version : Option Text
  pub device_metadata : Option Text

abbrev pub new_device : CreateDevice → Text → ℕ → DeviceRow
new_device p token id = record {
  device_id = id;
  device_token = token;
  device_name = p.device_name;
  device_description = p.device_description;
  device_type = p.device_type;
  device_status = or_else p.device_status offline;
  device_firmware_version = p.device_firmware_version;
  device_metadata = p.device_metadata;
  deleted = false;
  destroyed = false;
}

unfoldable pub insert_device : CreateDevice → Text → Exec World (Unit {0})
insert_device p token w = (
  ok tt,
  record w {
    db = record w.db { devices = w.db.devices ++ new_device p token w.next_device_id ∷ [] };
    next_device_id = w.next_device_id + 1;
  },
)

-- The row looked for may be flagged as deleted, but not destroyed.
unfoldable pub create_device : (Text → Text → Bool) → Text → CreateDevice → Exec World (Unit {0})
unfolding to_upper_case insert_device
create_device same_name token p =
    catch
      (do
        existing ← db_call (
            gets λ w.
              find (λ d. not d.destroyed && same_name d.device_name (to_upper_case p.device_name))
                w.db.devices)
        if is_some existing
            then throw (conflict (codes "Device already exists"))
            else db_call (insert_device p token))
      (rethrow (codes "Failed to create new device"))

pub record UpdateDevice : Type 0 where
  pub device_id : ℕ
  pub device_name : Option Text
  pub device_description : Option Text
  pub device_status : Option DeviceStatus
  pub device_firmware_version : Option Text
  pub device_metadata : Option Text

-- `Object.keys(updateData).length > 0`
unfoldable pub has_changes : UpdateDevice → Bool
has_changes p =
    is_some p.device_name
    || (is_some p.device_description
        || (is_some p.device_status
            || (is_some p.device_firmware_version || is_some p.device_metadata)))

abbrev pub or_null : Option Text → Option Text → Option Text
or_null none old = old
or_null (some text) old = some text

unfoldable pub changed_device : UpdateDevice → DeviceRow → DeviceRow
changed_device p d = record d {
  device_name = or_else p.device_name d.device_name;
  device_description = or_null p.device_description d.device_description;
  device_status = or_else p.device_status d.device_status;
  device_firmware_version = or_null p.device_firmware_version d.device_firmware_version;
  device_metadata = or_null p.device_metadata d.device_metadata;
}

abbrev pub is_device : ℕ → DeviceRow → Bool
is_device id d = is_live_device d && d.device_id == id

-- `DeviceModel.update`, which returns the number of rows
unfoldable pub update_devices : UpdateDevice → Exec World ℕ
unfolding changed_device is_live_device
update_devices p w = (
  ok (length (filter (is_device p.device_id) w.db.devices)),
  record w {
    db = record w.db {
      devices = map (λ d. if is_device p.device_id d then changed_device p d else d) w.db.devices;
    };
  },
)

unfoldable pub none_affected : ℕ → Exec World (Unit {0})
none_affected affected =
    if affected == 0 then throw (not_found (codes "Device not found")) else pure tt

unfoldable pub update_device : UpdateDevice → Exec World (Unit {0})
unfolding has_changes update_devices none_affected
update_device p =
    catch
      (if has_changes p
        then (do affected ← db_call (update_devices p); none_affected affected)
        else throw (bad_request (codes "No fields to update")))
      (rethrow (codes "Failed to update device"))

-- `result.destroy()`
unfoldable pub destroy_device : ℕ → List DeviceRow → List DeviceRow
destroy_device id devices =
    map (λ d. if d.device_id == id then record d { destroyed = true } else d) devices

unfoldable pub destroy_found : DeviceRow → Exec World (Unit {0})
unfolding destroy_device
destroy_found device =
    db_call (update_db λ db. record db { devices = destroy_device device.device_id db.devices })

unfoldable pub remove_device : ℕ → Exec World (Unit {0})
unfolding device_with_id or_not_found destroy_found
remove_device id =
    catch
      (do
        found ← db_call (gets (λ w. device_with_id id w.db.devices))
        device ← or_not_found (codes "Device not found") found
        destroy_found device)
      (rethrow (codes "Failed to remove device"))
