-- ===== src/Device/Tools.antt =====
-- services/mcp/tools/device/deviceLogs.tools.ts and deviceQuery.tools.ts: the tools by which the
-- language model reads devices and logs. An answer is the data of the JSON text that the tool
-- returns, without its labels.
pub mod Newest
pub mod Tests
use ginem_api.Common.{ℕ, Bool, Option, none, some, true, List, [], ◌∷◌, length, or_else}
use ginem_api.Common.Int.{ℤ, pos}
use ginem_api.Common.Text.{Text}
use ginem_api.Common.Exec.{Exec, Thrown, app_error, other, pure, throw, catch, ◌>>=◌}
use ginem_api.Store.{DeviceLogRow, DeviceRow, World}
use ginem_api.Device.{find_by_name, create_device_log, find_last_logs_by_device_id}
use ginem_api.Device.Service.{DeviceWithLogs, find_all_devices, find_device_by_id}
use ginem_api.Paging.{PageData}

pub data LogAnswer : Type 0 where
  nothing_recorded : (device_id : ℕ) → LogAnswer
  last_value : (device_id : ℕ) → DeviceLogRow → LogAnswer
  last_values : (device_id : ℕ) → (count : ℕ) → List DeviceLogRow → LogAnswer
  log_created : (device_id : ℕ) → DeviceLogRow → LogAnswer

abbrev answer_last : ℕ → List DeviceLogRow → LogAnswer
answer_last id [] = nothing_recorded id
answer_last id (last ∷ items) = last_value id last

-- In the three tools `device` is never missing, since `findByName` throws then.
unfoldable pub get_last_log_by_device_name : Text → Exec World LogAnswer
get_last_log_by_device_name device_name = do
  device ← find_by_name device_name
  items ← find_last_logs_by_device_id device.device_id 1
  pure (answer_last device.device_id items)

unfoldable pub get_last_10_logs_by_device_name : Text → Exec World LogAnswer
get_last_10_logs_by_device_name device_name = do
  device ← find_by_name device_name
  items ← find_last_logs_by_device_id device.device_id 10
  pure (last_values device.device_id (length items) items)

unfoldable pub create_device_log_by_device_name : Text → Text → Exec World LogAnswer
create_device_log_by_device_name device_name device_log_data = do
  device ← find_by_name device_name
  log ← create_device_log device.device_id device_log_data
  pure (log_created device.device_id log)

unfoldable pub list_devices :
    (Text → Text → Bool)
    → Option ℤ
    → Option ℤ
    → Exec World (PageData DeviceRow × List DeviceWithLogs)
unfolding find_all_devices
list_devices like page size = find_all_devices like (record {
  page = some (or_else page (pos 0));
  size = some (or_else size (pos 10));
  pagination = true;
  search = none;
})

pub data DeviceAnswer : Type 0 where
  refused : Text → (device_id : ℕ) → DeviceAnswer
  shown : DeviceWithLogs → DeviceAnswer

abbrev answer_error : ℕ → Thrown → Exec World DeviceAnswer
answer_error device_id (app_error status message) = pure (refused message device_id)
answer_error device_id other = throw other

unfoldable pub get_device_by_id : ℕ → Exec World DeviceAnswer
unfolding find_device_by_id
get_device_by_id device_id =
    catch (do device ← find_device_by_id device_id; pure (shown device)) (answer_error device_id)
