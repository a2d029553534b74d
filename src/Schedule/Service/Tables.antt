-- ===== src/Schedule/Service/Tables.antt =====
-- Actions on the queue leave the tables alone.
use ginem_api.Common.{ℕ, Bool, true, false, ◌≡◌, refl, ◌∙◌, ap, List, [], ◌∷◌, if◌then◌else◌}
use ginem_api.Common.Exec.{Exec, Result, ok, err, pure, gets, continue, ◌>>=◌}
use ginem_api.Store.{World, db_call, SchedulerLogRow}
use ginem_api.Store.Calls.{KeepsDb, KeepsDb-db_call, KeepsDb-pure, KeepsDb-gets}
use ginem_api.Schedule.Queue.{
  JobQueue, Scheduler, on_world, answer_queue, queue_call, DeviceScheduleJobData, QueuedState,
  add_job, replace_or_skip, enqueue_found, enqueue_device_schedule_job,
}
use ginem_api.Schedule.Service.{recover_once, recover_each_once, recover_pending_once_jobs}

module _ (q : JobQueue) where
  pub record KeepsTables {A : Type 0} (m : Exec (Scheduler q) A) : Type 0 where
    pub at : (s : Scheduler q) → (m s).1.0.db ≡ s.0.db

  KeepsTables-pure : {A : Type 0} (a : A) → KeepsTables (pure a)
  KeepsTables-pure a = record { at = λ s. refl }

  pub KeepsTables-on_world :
      {A : Type 0} (m : Exec World A) → KeepsDb m → KeepsTables (on_world q m)
  KeepsTables-on_world m k = record { at = λ s. k.at s.0 }

  answer_tables :
      {A : Type 0} (f : q.Jobs → A × q.Jobs) (r : Result (Unit {0})) (w : World) (jobs : q.Jobs)
      → (answer_queue q r f (w, jobs)).1.0 ≡ w
  answer_tables f (ok tt) w jobs = refl
  answer_tables f (err e) w jobs = refl

  KeepsTables-queue_call : {A : Type 0} (f : q.Jobs → A × q.Jobs) → KeepsTables (queue_call q f)
  KeepsTables-queue_call f = record {
    at = λ s.
        ap (λ (w : World). w.db)
          (answer_tables f (db_call (λ v. (ok tt, v)) s.0).0 (db_call (λ v. (ok tt, v)) s.0).1 s.1)
        ∙ (KeepsDb-db_call (λ v. (ok tt, v)) (KeepsDb-pure tt)).at s.0;
  }

  module _ {A B : Type 0} where
    continue_tables :
        (r : Result A) (f : A → Exec (Scheduler q) B) (s : Scheduler q)
        → ((a : A) → KeepsTables (f a))
        → (continue r f s).1.0.db ≡ s.0.db
    continue_tables (ok a) f s k = (k a).at s
    continue_tables (err e) f s k = refl

    pub KeepsTables-bind :
        (m : Exec (Scheduler q) A) (f : A → Exec (Scheduler q) B)
        → KeepsTables m
        → ((a : A) → KeepsTables (f a))
        → KeepsTables (m >>= f)
    KeepsTables-bind m f km kf = record { at = λ s. continue_tables (m s).0 f (m s).1 kf ∙ km.at s }

  KeepsTables-if :
      {A : Type 0} (b : Bool) (m n : Exec (Scheduler q) A)
      → KeepsTables m
      → KeepsTables n
      → KeepsTables (if b then m else n)
  KeepsTables-if true m n km kn = km
  KeepsTables-if false m n km kn = kn

  ruleset keeps_tables = (
    KeepsTables-pure, KeepsTables-on_world, KeepsTables-queue_call, KeepsTables-bind,
    KeepsTables-if, KeepsDb-db_call, KeepsDb-gets,
  )

  replace_or_skip-KeepsTables :
      (d : DeviceScheduleJobData) (delay : ℕ) (state : QueuedState)
      → KeepsTables (replace_or_skip q d delay state)
  unfolding replace_or_skip add_job
  replace_or_skip-KeepsTables d delay state = search keeps_tables

  enqueue_found-KeepsTables :
      (d : DeviceScheduleJobData) (delay : ℕ) (found : Bool)
      → KeepsTables (enqueue_found q d delay found)
  unfolding enqueue_found add_job
  enqueue_found-KeepsTables d delay false = KeepsTables-queue_call _
  enqueue_found-KeepsTables d delay true = search (keeps_tables, replace_or_skip-KeepsTables)

  pub enqueue-KeepsTables :
      (d : DeviceScheduleJobData) (run_at : ℕ)
      → KeepsTables (enqueue_device_schedule_job q d run_at)
  unfolding enqueue_device_schedule_job
  enqueue-KeepsTables d run_at =
      KeepsTables-bind _ _ (KeepsTables-on_world (gets (λ (w : World). w.now)) (KeepsDb-gets _))
        λ now.
          KeepsTables-bind _ _ (KeepsTables-queue_call _)
            λ found. enqueue_found-KeepsTables d _ found

  recover_once-KeepsTables :
      (now : ℕ) (row : SchedulerLogRow) → KeepsTables (recover_once q now row)
  unfolding recover_once
  recover_once-KeepsTables now row =
      KeepsTables-bind _ _ (KeepsTables-on_world (gets (λ (w : World). w.now)) (KeepsDb-gets _))
        (λ current. enqueue-KeepsTables _ _)

  recover_each_once-KeepsTables :
      (now : ℕ) (rows : List SchedulerLogRow) → KeepsTables (recover_each_once q now rows)
  unfolding recover_each_once
  recover_each_once-KeepsTables now [] = KeepsTables-pure tt
  recover_each_once-KeepsTables now (row ∷ rows) =
      KeepsTables-bind _ _ (recover_once-KeepsTables now row)
        (λ _. recover_each_once-KeepsTables now rows)

  pub recover_pending_once_jobs-KeepsTables : KeepsTables (recover_pending_once_jobs q)
  unfolding recover_pending_once_jobs
  recover_pending_once_jobs-KeepsTables =
      KeepsTables-bind _ _ (KeepsTables-on_world _ (KeepsDb-db_call _ (KeepsDb-gets _))) λ rows.
        KeepsTables-bind _ _ (KeepsTables-on_world (gets (λ (w : World). w.now)) (KeepsDb-gets _))
          (λ now. recover_each_once-KeepsTables now rows)
