-- ===== src/Schedule/Log/Removed.antt =====
-- services/scheduler/SchedulerLog.service.ts with services/mcp/DeviceSchedule.service.ts: a removed row
-- is not put into the queue again.
use ginem_api.Common.{
  ℕ, ◌≡◌, ◌≢◌, refl, ◌∙◌, ap, Bool, true, false, ◌&&◌, Option, some, List, [], ◌∷◌, filter, All,
  ◌==◌, arith, if◌then◌else◌, Bool-cases, inl, inr,
}
use ginem_api.Common.Text.{codes}
use ginem_api.Common.Exec.{Exec, ok, gets, ◌>>=◌}
use ginem_api.Store.{SchedulerLogRow, World, Db, db_call}
use ginem_api.Store.Calls.{
  bind-eq-ok, catch-eq-ok, query-eq-ok, KeepsDb-db_call, KeepsDb-gets, Writes-update_db,
}
use ginem_api.Device.{or_not_found}
use ginem_api.Device.Laws.{or_not_found-eq-ok, or_not_found-KeepsDb}
use ginem_api.Schedule.Service.{is_live_log, is_pending_once, is_active_repeat}
use ginem_api.Schedule.Service.Restored.{pending_rows, repeat_rows}
use ginem_api.Schedule.Log.{
  scheduler_log_with_id, destroy_scheduler_log, destroy_found_log, remove_scheduler_log,
}

-- No row has the id.
abbrev pub Without : ℕ → List SchedulerLogRow → Type 0
Without id rows = All (λ (r : SchedulerLogRow). r.scheduler_log_id ≢ id) rows

destroyed_row : ℕ → SchedulerLogRow → SchedulerLogRow
destroyed_row id r = if r.scheduler_log_id == id then record r { destroyed = true } else r

module _ (test : SchedulerLogRow → Bool)
    (live : (r : SchedulerLogRow) → is_live_log r ≡ false → test r ≡ false) where
  head-Without :
      (id : ℕ) (r : SchedulerLogRow)
      → test (destroyed_row id r) ≡ true
      → (destroyed_row id r).scheduler_log_id ≢ id
  unfolding destroyed_row is_live_log
  head-Without id r h = elim (Bool-cases (r.scheduler_log_id == id)) [
    | inl mine ↦
        let gone = live (record r { destroyed = true }) (ground arith) in
        λ e. cc (rw mine at h, gone)
    | inr theirs ↦ rw theirs (λ e. absurd (ground arith))
  ]

  filter-Without :
      (id : ℕ) (rows : List SchedulerLogRow)
      → Without id (filter test (destroy_scheduler_log id rows))
  unfolding destroy_scheduler_log destroyed_row
  filter-Without id [] = tt
  filter-Without id (r ∷ rows) = elim (Bool-cases (test (destroyed_row id r))) [
    | inl kept ↦ rw kept (head-Without id r kept, filter-Without id rows)
    | inr dropped ↦ rw dropped (filter-Without id rows)
  ]

scheduler_log_with_id-id :
    (id : ℕ) (rows : List SchedulerLogRow) {r : SchedulerLogRow}
    → scheduler_log_with_id id rows ≡ some r
    → r.scheduler_log_id ≡ id
unfolding scheduler_log_with_id
scheduler_log_with_id-id id [] h = cc
scheduler_log_with_id-id id (e ∷ rows) {r} h =
    elim (Bool-cases (is_live_log e && e.scheduler_log_id == id)) [
      | inl found ↦
          let same : some e ≡ some r = rw found at h in
          let id_of : e.scheduler_log_id ≡ id = ground arith in
          let e' : e ≡ r = cc in rw (← e') id_of
      | inr other ↦ scheduler_log_with_id-id id rows (rw other at h)
    ]

is_pending_once-live : (r : SchedulerLogRow) → is_live_log r ≡ false → is_pending_once r ≡ false
unfolding is_pending_once
is_pending_once-live r h = rw h refl

is_active_repeat-live : (r : SchedulerLogRow) → is_live_log r ≡ false → is_active_repeat r ≡ false
unfolding is_active_repeat
is_active_repeat-live r h = rw h refl

destroy_found_log-writes :
    (row : SchedulerLogRow) (w : World)
    → (destroy_found_log row w).0 ≡ ok tt
    → (destroy_found_log row w).1.db.scheduler_logs
      ≡ destroy_scheduler_log row.scheduler_log_id w.db.scheduler_logs
unfolding destroy_found_log
destroy_found_log-writes row w h =
    ap (λ (db : Db). db.scheduler_logs) ((Writes-update_db _).at w tt h)

remove_scheduler_log-writes :
    (id : ℕ) (w : World)
    → (remove_scheduler_log id w).0 ≡ ok tt
    → (remove_scheduler_log id w).1.db.scheduler_logs ≡ destroy_scheduler_log id w.db.scheduler_logs
unfolding remove_scheduler_log
remove_scheduler_log-writes id w h =
    let query = λ (w : World). scheduler_log_with_id id w.db.scheduler_logs in
    let message = codes "Scheduler log not found" in
    let body : Option SchedulerLogRow → Exec World (Unit {0}) =
      λ found. or_not_found message found >>= destroy_found_log in
    let (inner, same) =
      catch-eq-ok (db_call (gets query) >>= body) (codes "Failed to delete scheduler log") w h in
    let (found, first, later, final) = bind-eq-ok (db_call (gets query)) body w inner in
    let (t, rest, shown) = query-eq-ok query w first in
    let read = (KeepsDb-db_call (gets query) (KeepsDb-gets query)).at w in
    let w₁ = (db_call (gets query) w).1 in
    let (row, got, last, final') =
      bind-eq-ok (or_not_found message found) destroy_found_log w₁ later in
    let its_id =
      scheduler_log_with_id-id id w.db.scheduler_logs
        (shown ∙ or_not_found-eq-ok message found w₁ got) in
    let kept = (or_not_found-KeepsDb message found).at w₁ ∙ read in
    let tables =
      ap (λ (v : World). v.db.scheduler_logs) (same ∙ final ∙ final')
      ∙ destroy_found_log-writes row (or_not_found message found w₁).1 last in
    rw (tables, kept, its_id) refl

-- If removing a row of the scheduler's log returns, then neither the one-time schedules nor the daily
-- schedules that a restart puts into the queue again have that row.
pub remove_scheduler_log-Without :
    (id : ℕ) (w : World)
    → (remove_scheduler_log id w).0 ≡ ok tt
    → Without id (pending_rows (remove_scheduler_log id w).1.db)
      × Without id (repeat_rows (remove_scheduler_log id w).1.db)
remove_scheduler_log-Without id w h = rw (remove_scheduler_log-writes id w h) (
  filter-Without is_pending_once is_pending_once-live id w.db.scheduler_logs,
  filter-Without is_active_repeat is_active_repeat-live id w.db.scheduler_logs,
)
