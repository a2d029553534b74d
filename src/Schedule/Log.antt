-- ===== src/Schedule/Log.antt =====
-- services/scheduler/SchedulerLog.service.ts: listing, finding and removing rows of the scheduler's
-- log.
pub mod Removed
use ginem_api.Common.{
  ℕ, Bool, true, false, ◌&&◌, not, Option, none, some, List, [], ◌∷◌, map, filter, find, length,
  leb, ◌==◌, if◌then◌else◌,
}
use ginem_api.Common.Int.{ℤ}
use ginem_api.Common.Text.{Text, codes, text_eq}
use ginem_api.Common.Exec.{Exec, gets, catch, rethrow, ◌>>=◌}
use ginem_api.Store.{
  ScheduledJobType, sensor_data, SchedulerCategory, once, repeat, ScheduledJobStatus,
  SchedulerLogRow, Db, World, db_call, update_db,
}
use ginem_api.Paging.{PageData, pagination, format_data, find_page}
use ginem_api.Device.{or_not_found}
use ginem_api.Schedule.Service.{is_live_log}

pub record FindAllSchedulerLogs : Type 0 where
  pub page : Option ℤ
  pub size : Option ℤ
  pub pagination : Bool
  pub type : Option ScheduledJobType
  pub category : Option SchedulerCategory
  pub status : Option ScheduledJobStatus
  pub device_name : Option Text
  pub date_from : Option ℕ
  pub date_to : Option ℕ

abbrev pub type_number : ScheduledJobType → ℕ
type_number ScheduledJobType.actuator = 0
type_number sensor_data = 1

abbrev pub category_number : SchedulerCategory → ℕ
category_number once = 0
category_number repeat = 1

abbrev pub status_number : ScheduledJobStatus → ℕ
status_number ScheduledJobStatus.pending = 0
status_number ScheduledJobStatus.active = 1
status_number ScheduledJobStatus.completed = 2
status_number ScheduledJobStatus.failed = 3

-- A filter that is not given lets every row pass.
abbrev pub asked : {A : Type 0} → Option A → (A → Bool) → Bool
asked none test = true
asked (some a) test = test a

-- `buildFindAllWhere`, without the flag. An empty name is no filter.
unfoldable pub log_matches : FindAllSchedulerLogs → SchedulerLogRow → Bool
log_matches p r =
    asked p.type (λ t. type_number r.type == type_number t)
    && (asked p.category (λ c. category_number r.category == category_number c)
        && (asked p.status (λ s. status_number r.status == status_number s)
            && (asked p.device_name
                  (λ name. elim name [ [] ↦ true | c ∷ rest ↦ text_eq r.device_name (c ∷ rest) ])
                && (asked p.date_from (λ from. leb from r.scheduled_at)
                    && asked p.date_to (λ to. leb r.scheduled_at to)))))

-- `order: [['schedulerLogId', 'desc']]`
unfoldable pub insert_log_by_id : SchedulerLogRow → List SchedulerLogRow → List SchedulerLogRow
insert_log_by_id r [] = r ∷ []
insert_log_by_id r (s ∷ rows) =
    let later = s ∷ insert_log_by_id r rows in
    if leb s.scheduler_log_id r.scheduler_log_id then r ∷ s ∷ rows else later

unfoldable pub logs_by_id_desc : List SchedulerLogRow → List SchedulerLogRow
unfolding insert_log_by_id
logs_by_id_desc [] = []
logs_by_id_desc (r ∷ rows) = insert_log_by_id r (logs_by_id_desc rows)

unfoldable pub scheduler_logs_page :
    FindAllSchedulerLogs → List SchedulerLogRow → PageData SchedulerLogRow
unfolding find_page pagination format_data
scheduler_logs_page p rows =
    if p.pagination
    then find_page p.page p.size rows
    else format_data (pagination p.page p.size) (length rows) rows

unfoldable pub find_all_scheduler_logs :
    FindAllSchedulerLogs → Exec World (PageData SchedulerLogRow)
unfolding is_live_log log_matches logs_by_id_desc scheduler_logs_page
find_all_scheduler_logs p =
    catch
      (db_call (
        gets λ w.
          scheduler_logs_page p
            (logs_by_id_desc (filter (λ r. is_live_log r && log_matches p r) w.db.scheduler_logs))))
      (rethrow (codes "Failed to list scheduler logs"))

unfoldable pub scheduler_log_with_id : ℕ → List SchedulerLogRow → Option SchedulerLogRow
unfolding is_live_log
scheduler_log_with_id id rows = find (λ r. is_live_log r && r.scheduler_log_id == id) rows

unfoldable pub find_scheduler_log_by_id : ℕ → Exec World SchedulerLogRow
unfolding scheduler_log_with_id or_not_found
find_scheduler_log_by_id id =
    catch
      (do
        found ← db_call (gets (λ w. scheduler_log_with_id id w.db.scheduler_logs))
        or_not_found (codes "Scheduler log not found") found)
      (rethrow (codes "Failed to get scheduler log by id"))

-- `result.destroy()`
unfoldable pub destroy_scheduler_log : ℕ → List SchedulerLogRow → List SchedulerLogRow
destroy_scheduler_log id rows =
    map (λ r. if r.scheduler_log_id == id then record r { destroyed = true } else r) rows

unfoldable pub destroy_found_log : SchedulerLogRow → Exec World (Unit {0})
unfolding destroy_scheduler_log
destroy_found_log row = db_call (
    update_db λ db. record db {
      scheduler_logs = destroy_scheduler_log row.scheduler_log_id db.scheduler_logs;
    })

unfoldable pub remove_scheduler_log : ℕ → Exec World (Unit {0})
unfolding scheduler_log_with_id or_not_found destroy_found_log
remove_scheduler_log id =
    catch
      (do
        found ← db_call (gets (λ w. scheduler_log_with_id id w.db.scheduler_logs))
        row ← or_not_found (codes "Scheduler log not found") found
        destroy_found_log row)
      (rethrow (codes "Failed to delete scheduler log"))
