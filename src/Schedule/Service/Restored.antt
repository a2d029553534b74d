-- ===== src/Schedule/Service/Restored.antt =====
-- services/mcp/DeviceSchedule.service.ts: after `initializeDeviceSchedule` no schedule is missing
-- from the queue.
use ginem_api.Common.{
  ◌≡◌, refl, sym, subst, List, [], ◌∷◌, All, filter, is_some, Bool, true, false, inl, inr,
  Bool-cases,
}
use ginem_api.Common.Text.{Text}
use ginem_api.Common.Exec.{ok, gets}
use ginem_api.Store.{World, Db, db_call, SchedulerLogRow, once, repeat, ScheduledJobStatus}
use ginem_api.Store.Calls.{bind-eq-ok, query-eq-ok}
use ginem_api.Schedule.Queue.{JobQueue, IsJobQueue, Scheduler, on_world}
use ginem_api.Schedule.Queue.Laws.{Leaves, Leaves-bind, Leaves-on_world}
use ginem_api.Schedule.Service.{
  is_live_log, is_pending_once, is_active_repeat, recover_pending_once_jobs,
  recover_active_repeat_jobs, initialize_device_schedule,
}
use ginem_api.Schedule.Service.Tables.{recover_pending_once_jobs-KeepsTables}
use ginem_api.Schedule.Service.Recovery.{
  IsIdOf, IsRepeatIdOf, All-of_ids, All-of_repeat_ids, Has, Listed, recover_each_once-Leaves,
  recover_found_repeats-Leaves, recover_found_repeats-Has,
}

abbrev pub pending_rows : Db → List SchedulerLogRow
pending_rows db = filter is_pending_once db.scheduler_logs

abbrev pub repeat_rows : Db → List SchedulerLogRow
repeat_rows db = filter is_active_repeat db.scheduler_logs

-- The row is of a one-time schedule that is not removed and whose job has not run.
pub record IsPending (r : SchedulerLogRow) : Type 0 where
  pub kept : r.deleted ≡ false
  pub stored : r.destroyed ≡ false
  pub of_category : r.category ≡ once
  pub of_status : r.status ≡ ScheduledJobStatus.pending

-- The row is of a daily schedule that is not removed, is active and has a pattern.
pub record IsDaily (r : SchedulerLogRow) : Type 0 where
  pub kept : r.deleted ≡ false
  pub stored : r.destroyed ≡ false
  pub of_category : r.category ≡ repeat
  pub of_status : r.status ≡ ScheduledJobStatus.active
  pub has_pattern : is_some r.cron_pattern ≡ true

IsPending-is_pending_once : (r : SchedulerLogRow) → IsPending r → is_pending_once r ≡ true
unfolding is_pending_once is_live_log
IsPending-is_pending_once r h = rw (h.kept, h.stored, h.of_category, h.of_status) refl

IsDaily-is_active_repeat : (r : SchedulerLogRow) → IsDaily r → is_active_repeat r ≡ true
unfolding is_active_repeat is_live_log
IsDaily-is_active_repeat r h = rw (h.kept, h.stored, h.of_category, h.of_status) refl

-- What holds of all rows that pass a test holds of each row that passes it.
All-passing :
    (test : SchedulerLogRow → Bool) (P : SchedulerLogRow → Type 0) (rows : List SchedulerLogRow)
    → All P (filter test rows)
    → All (λ r. test r ≡ true → P r) rows
All-passing test P [] h = tt
All-passing test P (r ∷ rows) h = elim (Bool-cases (test r)) [
  | inl passes ↦
      let first : filter test (r ∷ rows) ≡ r ∷ filter test rows = rw passes refl in
      let (p, rest) = subst (All P) first h in (λ _. p, All-passing test P rows rest)
  | inr fails ↦
      let later : filter test (r ∷ rows) ≡ filter test rows = rw fails refl in
      (λ passes. cc, All-passing test P rows (subst (All P) later h))
]

All-of :
    (P Q : SchedulerLogRow → Type 0) (rows : List SchedulerLogRow)
    → ((r : SchedulerLogRow) → P r → Q r)
    → All P rows
    → All Q rows
All-of P Q [] f h = tt
All-of P Q (r ∷ rows) f (h, hs) = (f r h, All-of P Q rows f hs)

module _ (q : JobQueue) (laws : IsJobQueue q) where
  once_restored :
      (s : Scheduler q) (id : Text) {u : Unit {0}}
      → (recover_pending_once_jobs q s).0 ≡ ok u
      → IsIdOf id (pending_rows s.0.db)
      → Has q laws id (recover_pending_once_jobs q s).1.1
  unfolding recover_pending_once_jobs
  once_restored s id {u} h wanted =
      let (rows, read, e₁, final₁) =
        bind-eq-ok (on_world q (db_call (gets (λ (w : World). pending_rows w.db)))) _ s h in
      let (_, _, shown) = query-eq-ok (λ (w : World). pending_rows w.db) s.0 read in
      rw final₁ (
        (recover_each_once-Leaves q laws id _ rows).at _ u (inl (subst (IsIdOf id) shown wanted))
          e₁)

  repeat_restored :
      (s : Scheduler q) (id : Text) {u : Unit {0}}
      → (recover_active_repeat_jobs q s).0 ≡ ok u
      → IsRepeatIdOf id (repeat_rows s.0.db)
      → Listed q laws id (recover_active_repeat_jobs q s).1.1
  unfolding recover_active_repeat_jobs
  repeat_restored s id {u} h wanted =
      let (rows, read, e₁, final₁) =
        bind-eq-ok (on_world q (db_call (gets (λ (w : World). repeat_rows w.db)))) _ s h in
      let (_, _, shown) = query-eq-ok (λ (w : World). repeat_rows w.db) s.0 read in
      rw final₁ (
        (recover_found_repeats-Leaves q laws id rows (subst (IsRepeatIdOf id) shown wanted)).at _ u
          tt e₁)

  once_kept :
      (id : Text) → Leaves q (Has q laws id) (λ _. Has q laws id) (recover_active_repeat_jobs q)
  unfolding recover_active_repeat_jobs
  once_kept id =
      Leaves-bind q _ (λ _. Has q laws id) (λ _. Has q laws id) _ _
        (Leaves-on_world q (Has q laws id) (db_call (gets (λ (w : World). repeat_rows w.db))))
        (recover_found_repeats-Has q laws id)

  -- If initializing the schedules returns, the queue has a job for every one-time schedule that is
  -- still pending in the table, and for every active daily schedule that has a pattern it lists a
  -- repeatable job whose id is the schedule's, or whose key has that id in it, whatever the queue had
  -- lost before.
  pub initialize_restores :
      (s : Scheduler q)
      → (initialize_device_schedule q s).0 ≡ ok tt
      → All
          (λ (r : SchedulerLogRow).
            IsPending r → Has q laws r.job_id (initialize_device_schedule q s).1.1)
          s.0.db.scheduler_logs
        × All
            (λ (r : SchedulerLogRow).
              IsDaily r → Listed q laws r.job_id (initialize_device_schedule q s).1.1)
            s.0.db.scheduler_logs
  unfolding initialize_device_schedule
  initialize_restores s h =
      let (u, first, second, final) = bind-eq-ok (recover_pending_once_jobs q) _ s h in
      let kept = (recover_pending_once_jobs-KeepsTables q).at s in
      let after = (recover_pending_once_jobs q s).1 in
      rw final (
        All-of _ _ s.0.db.scheduler_logs (λ r f h. f (IsPending-is_pending_once r h))
            (All-passing is_pending_once _ s.0.db.scheduler_logs (
              All-of_ids (λ id. Has q laws id (recover_active_repeat_jobs q after).1.1)
                (pending_rows s.0.db)
                (λ id wanted.
                  (once_kept id).at after tt (once_restored s id first wanted) second))),
        All-of _ _ s.0.db.scheduler_logs (λ r f h. f (IsDaily-is_active_repeat r h) h.has_pattern)
            (All-passing is_active_repeat _ s.0.db.scheduler_logs (
              All-of_repeat_ids (λ id. Listed q laws id (recover_active_repeat_jobs q after).1.1)
                (repeat_rows s.0.db)
                (λ id wanted.
                  repeat_restored after id second
                    (subst (λ (db : Db). IsRepeatIdOf id (repeat_rows db)) (sym kept) wanted)))),
      )
