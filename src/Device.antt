-- ===== src/Device.antt =====
-- services/device/Device.service.ts and DeviceLog.service.ts: what the rules and the schedules use
-- of devices and of the log of their values.
pub mod Laws
pub mod Found
pub mod Service
pub mod Tools
mod Tests
pub mod Logs
use ginem_api.Common.{
  ℕ, suc, ◌+◌, Bool, true, false, ◌&&◌, not, Option, none, some, List, [], ◌∷◌, ◌++◌, map, find,
  filter, take, leb, ◌==◌, if◌then◌else◌,
}
use ginem_api.Common.Text.{Text, codes, text_eq}
use ginem_api.Common.Exec.{
  Exec, Result, ok, err, pure, throw, gets, catch, rethrow, not_found, ◌>>=◌, ◌>>◌,
}
use ginem_api.Store.{DeviceRow, DeviceLogRow, Db, World, db_call, State, on, off}

unfoldable pub is_live_device : DeviceRow → Bool
is_live_device d = not d.deleted && not d.destroyed

unfoldable pub device_named : Text → List DeviceRow → Option DeviceRow
unfolding is_live_device
device_named name devices = find (λ d. is_live_device d && text_eq d.device_name name) devices

unfoldable pub device_with_id : ℕ → List DeviceRow → Option DeviceRow
unfolding is_live_device
device_with_id id devices = find (λ d. is_live_device d && d.device_id == id) devices

-- `if (result == null) throw AppError.notFound(message)`
unfoldable pub or_not_found : {A : Type 0} → Text → Option A → Exec World A
or_not_found message none = throw (not_found message)
or_not_found message (some a) = pure a

unfoldable pub find_by_name : Text → Exec World DeviceRow
unfolding device_named
find_by_name name =
    catch
      (do
        found ← db_call (gets (λ w. device_named name w.db.devices))
        or_not_found (codes "Device not found") found)
      (rethrow (codes "Failed to get device by name"))

-- The row that `DeviceLogModel.create` inserts, and its insertion.
unfoldable pub new_device_log : World → ℕ → Text → DeviceLogRow
new_device_log w id value = record {
  device_log_id = w.next_device_log_id;
  device_log_device_id = id;
  device_log_data = value;
  created_at = w.now;
  deleted = false;
  destroyed = false;
}

unfoldable pub insert_device_log : ℕ → Text → Exec World DeviceLogRow
unfolding new_device_log
insert_device_log id value w = (
  ok (new_device_log w id value),
  record w {
    db = record w.db { device_logs = w.db.device_logs ++ new_device_log w id value ∷ [] };
    next_device_log_id = w.next_device_log_id + 1;
  },
)

-- `DeviceLogService.create`
unfoldable pub create_device_log : ℕ → Text → Exec World DeviceLogRow
unfolding insert_device_log device_with_id
create_device_log id value =
    catch
      (do
        found ← db_call (gets (λ w. device_with_id id w.db.devices))
        device ← or_not_found (codes "Device not found") found
        db_call (insert_device_log id value))
      (rethrow (codes "Failed to create new device log"))

unfoldable pub logs_of : ℕ → List DeviceLogRow → List DeviceLogRow
logs_of id rows =
    filter (λ r. not r.deleted && (not r.destroyed && r.device_log_device_id == id)) rows

-- `order: [['createdAt', 'DESC']]` with `findOne`; of rows created at the same time the database
-- may choose, and the model takes the one inserted last.
unfoldable pub latest_from : DeviceLogRow → List DeviceLogRow → DeviceLogRow
latest_from best [] = best
latest_from best (r ∷ rows) =
    latest_from (if leb best.created_at r.created_at then r else best) rows

unfoldable pub latest : List DeviceLogRow → Option DeviceLogRow
unfolding latest_from
latest [] = none
latest (r ∷ rows) = some (latest_from r rows)

-- `order: [['deviceLogId', 'desc']]`: a row is put before those of smaller id.
unfoldable pub insert_by_id : DeviceLogRow → List DeviceLogRow → List DeviceLogRow
insert_by_id r [] = r ∷ []
insert_by_id r (s ∷ rows) =
    let later = s ∷ insert_by_id r rows in
    if leb s.device_log_id r.device_log_id then r ∷ s ∷ rows else later

unfoldable pub by_id_desc : List DeviceLogRow → List DeviceLogRow
unfolding insert_by_id
by_id_desc [] = []
by_id_desc (r ∷ rows) = insert_by_id r (by_id_desc rows)

unfoldable pub find_last_logs_by_device_id : ℕ → ℕ → Exec World (List DeviceLogRow)
unfolding logs_of by_id_desc
find_last_logs_by_device_id id limit =
    catch (db_call (gets (λ w. take limit (by_id_desc (logs_of id w.db.device_logs)))))
      (rethrow (codes "Failed to list last device logs"))

-- `'1'` or `'0'`, as the log and the MQTT command write a state
unfoldable pub state_value : State → Text
state_value on = codes "1"
state_value off = codes "0"
