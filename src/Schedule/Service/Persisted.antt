-- ===== src/Schedule/Service/Persisted.antt =====
-- What scheduling a job for one time leaves in the table and in the queue, when it returns.
use ginem_api.Common.{
  ℕ, true, ◌≡◌, refl, ◌∙◌, ap, sym, subst, inl, ◌+◌, none, Option, [], ◌∷◌, ◌++◌,
}
use ginem_api.Common.Text.{Text}
use ginem_api.Common.Exec.{Result, ok, pure, ◌>>◌}
use ginem_api.Store.{
  Db, ScheduledJobType, once, ScheduledJobStatus, SchedulerLogRow, State, World, db_call,
}
use ginem_api.Store.Calls.{bind-eq-ok, db_call-eq-ok, ok-injective}
use ginem_api.Schedule.DateTime.{minutes_until_run}
use ginem_api.Schedule.Queue.{
  JobQueue, IsJobQueue, Scheduler, DeviceScheduleJobData, on_world, enqueue_device_schedule_job,
}
use ginem_api.Schedule.Queue.Laws.{enqueue-Leaves}
use ginem_api.Schedule.Service.{
  ScheduledJob, to_scheduled_job, new_row, insert_row, is_live_log, is_pending_once, job_id_text,
  unix_ms, wib_schedule_timezone, persist_once_job, persist_job, schedule_job, next_job_id,
}
use ginem_api.Schedule.Service.Tables.{enqueue-KeepsTables}

insert_row-eq-ok :
    (job : ScheduledJob) (delay : ℕ) (cron_pattern : Option Text) (w : World) {u : Unit {0}}
    → (db_call (insert_row job delay cron_pattern) w).0 ≡ ok u
    → (id : ℕ) × ((db_call (insert_row job delay cron_pattern) w).1.db.scheduler_logs
        ≡ w.db.scheduler_logs ++ new_row job delay cron_pattern id ∷ [])
unfolding insert_row
insert_row-eq-ok job delay cron_pattern w h =
    let (_, _, made) = db_call-eq-ok (insert_row job delay cron_pattern) w h in
    (w.next_scheduler_log_id, ap (λ (x : Result (Unit {0}) × World). x.1.db.scheduler_logs) made)

abbrev once_job : Text → ℕ → ScheduledJobType → Text → Option State → ℕ → ScheduledJob
once_job id now type name state run_at = record {
  id = id;
  type = type;
  category = once;
  device_name = name;
  state = state;
  scheduled_at = now;
  run_at = run_at;
  cron_pattern = none;
  timezone = wib_schedule_timezone;
  status = ScheduledJobStatus.pending;
  result = none;
  error = none;
}

abbrev once_data : Text → ScheduledJobType → Text → Option State → DeviceScheduleJobData
once_data id type name state = record {
  job_id = id;
  type = type;
  category = once;
  device_name = name;
  state = state;
}

-- The job is what was asked for.
abbrev pub Made : ScheduledJobType → Text → Option State → ℕ → ScheduledJob → Type 0
Made type name state run_at job =
    (job.type ≡ type) × (job.device_name ≡ name) × (job.state ≡ state) × (job.run_at ≡ run_at)

module _ (q : JobQueue) where
  -- One row has been added, which shows as the job and waits; and the queue has the job.
  pub record OnceScheduled (before : Db) (after : Scheduler q) (job : ScheduledJob) : Type 0 where
    pub row : SchedulerLogRow
    pub logs : after.0.db.scheduler_logs ≡ before.scheduler_logs ++ row ∷ []
    pub shows : to_scheduled_job row ≡ job
    pub waits : is_pending_once row ≡ true
    pub queued : q.has_job job.id after.1 ≡ true

  module _ (laws : IsJobQueue q) where
    persist_once_job-eq-ok :
        (job : ScheduledJob) (d : DeviceScheduleJobData) (s : Scheduler q) {u : Unit {0}}
        → d.job_id ≡ job.id
        → (persist_once_job q job d s).0 ≡ ok u
        → (id : ℕ) × ((persist_once_job q job d s).1.0.db.scheduler_logs
            ≡ s.0.db.scheduler_logs
              ++ new_row job (minutes_until_run job.scheduled_at job.run_at) none id ∷ [])
          × (q.has_job job.id (persist_once_job q job d s).1.1 ≡ true)
    unfolding persist_once_job insert_row
    persist_once_job-eq-ok job d s {u} e h =
        let delay = minutes_until_run job.scheduled_at job.run_at in
        let insert = on_world q (db_call (insert_row job delay none)) in
        let (_, first, later, final) =
          bind-eq-ok insert (λ _. enqueue_device_schedule_job q d job.run_at) s h in
        let (id, inserted) = insert_row-eq-ok job delay none s.0 first in
        (
          id,
          ap (λ (x : Scheduler q). x.0.db.scheduler_logs) final
              ∙ ap (λ (db : Db). db.scheduler_logs)
                  ((enqueue-KeepsTables q d job.run_at).at (insert s).1)
              ∙ inserted,
          ap (λ (x : Scheduler q). q.has_job job.id x.1) final
              ∙ (enqueue-Leaves q laws d job.id job.run_at).at (insert s).1 u (inl (sym e)) later,
        )

    persisted-OnceScheduled :
        (id : Text) (now : ℕ) (type : ScheduledJobType) (name : Text) (state : Option State)
        (run_at : ℕ) (s : Scheduler q) (job : ScheduledJob)
        → ((persist_once_job q
                (once_job id now type name state run_at)
                (once_data id type name state)
              >> pure (once_job id now type name state run_at))
            s).0
          ≡ ok job
        → OnceScheduled s.0.db
            ((persist_once_job q
                  (once_job id now type name state run_at)
                  (once_data id type name state)
                >> pure (once_job id now type name state run_at))
              s).1
            job
          × Made type name state run_at job
    unfolding is_pending_once is_live_log to_scheduled_job new_row
    persisted-OnceScheduled id now type name state run_at s job h =
        let made = once_job id now type name state run_at in
        let queued_data = once_data id type name state in
        let (u, first, later, final) =
          bind-eq-ok (persist_once_job q made queued_data) (λ _. pure made) s h in
        let (row_id, logs, queued) = persist_once_job-eq-ok made queued_data s refl first in
        let same : made ≡ job = ok-injective later in
        (
          record {
            row = new_row made (minutes_until_run now run_at) none row_id;
            logs = ap (λ (x : Scheduler q). x.0.db.scheduler_logs) final ∙ logs;
            shows = same;
            waits = refl;
            queued = rw final (
                subst
                  (λ (j : ScheduledJob).
                    q.has_job j.id (persist_once_job q made queued_data s).1.1 ≡ true)
                  same queued);
          },
          subst (Made type name state run_at) same (refl, refl, refl, refl),
        )

    -- If a schedule for one time returns, it returns a job of the type, the device, the state and
    -- the instant that it was given; one row has been added to the log of schedules, which shows as
    -- that job and is among those that a restart puts into the queue again; and the queue has the
    -- job.
    pub schedule_job-OnceScheduled :
        (type : ScheduledJobType) (name : Text) (state : Option State) (run_at : ℕ)
        (s : Scheduler q) (job : ScheduledJob)
        → (schedule_job q type name state once run_at none s).0 ≡ ok job
        → OnceScheduled s.0.db (schedule_job q type name state once run_at none s).1 job
          × Made type name state run_at job
    unfolding schedule_job next_job_id persist_job
    schedule_job-OnceScheduled type name state run_at s job h =
        persisted-OnceScheduled (job_id_text (unix_ms s.0.now) (s.0.job_id_counter + 1)) s.0.now
          type name state run_at (record s.0 { job_id_counter = s.0.job_id_counter + 1 }, s.1) job h
