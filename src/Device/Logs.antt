-- ===== src/Device/Logs.antt =====
-- services/device/DeviceLog.service.ts: listing, finding, changing and removing the logs of devices.
use ginem_api.Common.{
  ℕ, Bool, true, false, ◌&&◌, ◌||◌, not, Option, none, some, List, [], ◌∷◌, map, filter, find,
  length, ◌==◌, or_else, is_some, leb, if◌then◌else◌,
}
use ginem_api.Common.Int.{ℤ}
use ginem_api.Common.Text.{Text, codes}
use ginem_api.Common.Exec.{
  Exec, ok, pure, throw, gets, catch, rethrow, bad_request, not_found, ◌>>=◌,
}
use ginem_api.Store.{DeviceLogRow, World, db_call, update_db}
use ginem_api.Paging.{PageData, pagination, format_data, find_page}
use ginem_api.Device.{device_with_id, or_not_found, logs_of, by_id_desc}

unfoldable pub is_live_device_log : DeviceLogRow → Bool
is_live_device_log r = not r.deleted && not r.destroyed

pub record FindAllDeviceLogs : Type 0 where
  pub page : Option ℤ
  pub size : Option ℤ
  pub pagination : Bool
  pub device_log_device_id : Option ℕ

abbrev id_matches : Option ℕ → ℕ → Bool
id_matches none id = true
id_matches (some wanted) id = id == wanted

unfoldable pub device_logs_page : FindAllDeviceLogs → List DeviceLogRow → PageData DeviceLogRow
unfolding find_page pagination format_data
device_logs_page p rows =
    if p.pagination
    then find_page p.page p.size rows
    else format_data (pagination p.page p.size) (length rows) rows

-- The rows come back without the device that the source joins to them.
unfoldable pub find_all_device_logs : FindAllDeviceLogs → Exec World (PageData DeviceLogRow)
unfolding is_live_device_log device_logs_page by_id_desc
find_all_device_logs p =
    catch
      (db_call (
        gets λ w. device_logs_page p (
          by_id_desc (
            filter
              (λ r.
                is_live_device_log r && id_matches p.device_log_device_id r.device_log_device_id)
              w.db.device_logs))))
      (rethrow (codes "Failed to list device logs"))

unfoldable pub device_log_with_id : ℕ → List DeviceLogRow → Option DeviceLogRow
unfolding is_live_device_log
device_log_with_id id rows = find (λ r. is_live_device_log r && r.device_log_id == id) rows

unfoldable pub find_device_log_by_id : ℕ → Exec World DeviceLogRow
unfolding device_log_with_id or_not_found
find_device_log_by_id id =
    catch
      (do
        found ← db_call (gets (λ w. device_log_with_id id w.db.device_logs))
        or_not_found (codes "Device log not found") found)
      (rethrow (codes "Failed to get device log by id"))

unfoldable pub device_log_exists : ℕ → Exec World Bool
unfolding find_device_log_by_id
device_log_exists id = catch (do row ← find_device_log_by_id id; pure true) (λ _. pure false)

-- `deviceExists`, which does not catch an error
unfoldable pub log_device_exists : ℕ → Exec World Bool
unfolding device_with_id
log_device_exists id = do
  found ← db_call (gets (λ w. device_with_id id w.db.devices))
  pure (is_some found)

pub record UpdateDeviceLog : Type 0 where
  pub device_log_id : ℕ
  pub device_log_device_id : Option ℕ
  pub device_log_data : Option Text

abbrev is_device_log : ℕ → DeviceLogRow → Bool
is_device_log id r = is_live_device_log r && r.device_log_id == id

unfoldable pub changed_device_log : UpdateDeviceLog → DeviceLogRow → DeviceLogRow
changed_device_log p r = record r {
  device_log_device_id = or_else p.device_log_device_id r.device_log_device_id;
  device_log_data = or_else p.device_log_data r.device_log_data;
}

unfoldable pub update_device_logs : UpdateDeviceLog → Exec World ℕ
unfolding changed_device_log is_live_device_log
update_device_logs p w = (
  ok (length (filter (is_device_log p.device_log_id) w.db.device_logs)),
  record w {
    db = record w.db {
      device_logs =
          map (λ r. if is_device_log p.device_log_id r then changed_device_log p r else r)
            w.db.device_logs;
    };
  },
)

unfoldable pub update_device_log : UpdateDeviceLog → Exec World (Unit {0})
unfolding update_device_logs
update_device_log p =
    catch
      (if is_some p.device_log_device_id || is_some p.device_log_data
        then (do
          affected ← db_call (update_device_logs p)
          if affected == 0 then throw (not_found (codes "Device log not found")) else pure tt)
        else throw (bad_request (codes "No fields to update")))
      (rethrow (codes "Failed to update device log"))

unfoldable pub destroy_device_log : ℕ → List DeviceLogRow → List DeviceLogRow
destroy_device_log id rows =
    map (λ r. if r.device_log_id == id then record r { destroyed = true } else r) rows

unfoldable pub remove_device_log : ℕ → Exec World (Unit {0})
unfolding device_log_with_id or_not_found destroy_device_log
remove_device_log id =
    catch
      (do
        found ← db_call (gets (λ w. device_log_with_id id w.db.device_logs))
        row ← or_not_found (codes "Device log not found") found
        db_call (
            update_db λ db. record db {
              device_logs = destroy_device_log row.device_log_id db.device_logs;
            }))
      (rethrow (codes "Failed to delete device log"))

abbrev first : {A : Type 0} → List A → Option A
first [] = none
first (x ∷ xs) = some x

-- `getLastLogByDeviceId`: the row with the greatest id.
unfoldable pub get_last_log_by_device_id : ℕ → Exec World DeviceLogRow
unfolding by_id_desc logs_of or_not_found
get_last_log_by_device_id id =
    catch
      (do
        found ← db_call (gets (λ w. first (by_id_desc (logs_of id w.db.device_logs))))
        or_not_found (codes "Device log not found") found)
      (rethrow (codes "Failed to get last device log"))

-- `order: [['createdAt', 'desc'], ['deviceLogId', 'desc']]`
unfoldable pub stands_before : DeviceLogRow → DeviceLogRow → Bool
stands_before r s =
    if r.created_at == s.created_at
    then leb s.device_log_id r.device_log_id
    else leb s.created_at r.created_at

unfoldable pub newest_log : List DeviceLogRow → Option DeviceLogRow
unfolding stands_before
newest_log [] = none
newest_log (r ∷ rows) = elim (newest_log rows) [
  | none ↦ some r
  | some s ↦ some (if stands_before r s then r else s)
]

unfoldable pub find_latest_log_by_device_id : ℕ → Exec World DeviceLogRow
unfolding newest_log logs_of or_not_found
find_latest_log_by_device_id id =
    catch
      (do
        found ← db_call (gets (λ w. newest_log (logs_of id w.db.device_logs)))
        or_not_found (codes "Device log not found") found)
      (rethrow (codes "Failed to get latest device log"))
