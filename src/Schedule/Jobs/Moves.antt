-- ===== src/Schedule/Jobs/Moves.antt =====
-- How the rows of the scheduler's log change while a job runs.
use ginem_api.Common.{
  ℕ, Bool, true, ◌≡◌, refl, ◌∙◌, ap, sym, List, [], ◌∷◌, map, Option, none, some, ◌⊎◌, inl, inr,
  Bool-cases, ◌&&◌, not, arith,
}
use ginem_api.Common.Text.{Text, text_eq, text_eq_iff}
use ginem_api.Common.Exec.{
  Exec, Result, Thrown, ok, err, throw, gets, continue, catch, handle, rethrow, app_error, other,
  ◌>>=◌,
}
use ginem_api.Store.{
  SchedulerCategory, once, repeat, ScheduledJobStatus, SchedulerLogRow, JobResult, World, db_call,
  State, DeviceRow, ScheduledJobType, sensor_data, Db, DeviceLogRow, actuated, fetched,
}
use ginem_api.Store.Calls.{advance, db_call-cases, KeepsDb, KeepsDb-db_call, KeepsDb-gets}
use ginem_api.Device.{create_device_log, insert_device_log, state_value}
use ginem_api.Device.Laws.{
  find_by_name-KeepsDb, find_last_logs_by_device_id-KeepsDb, or_not_found-KeepsDb,
}
use ginem_api.Rule.Engine.{publish_actuator_state}
use ginem_api.Schedule.Queue.{DeviceScheduleJobData}
use ginem_api.Schedule.Jobs.{
  final_status, recorded, update_logs, record_scheduler_result, is_actuator, fail_job, actuate,
  actuate_state, actuate_device, execute_actuator_job, execute_sensor_data_job, process_job,
  fetched_value, process_device_schedule_job,
}

-- What a run may leave as the status of its job.
pub data Ends : SchedulerCategory → ScheduledJobStatus → Type 0 where
  done : Ends once ScheduledJobStatus.completed
  stays : Ends repeat ScheduledJobStatus.active
  fails : (category : SchedulerCategory) → Ends category ScheduledJobStatus.failed

-- A row is left as it was, or it is one of the job's rows and gets a status that a run may leave.
pub record Moves (d : DeviceScheduleJobData) (before after : SchedulerLogRow) : Type 0 where
  pub same_job : after.job_id ≡ before.job_id
  pub outcome : (after ≡ before) ⊎ ((before.job_id ≡ d.job_id) × Ends d.category after.status)

-- Row by row.
abbrev pub RowsMove : DeviceScheduleJobData → List SchedulerLogRow → List SchedulerLogRow → Type 0
RowsMove d [] [] = Unit
RowsMove d [] (_ ∷ _) = ⊥
RowsMove d (_ ∷ _) [] = ⊥
RowsMove d (r ∷ rows) (s ∷ rows') = Moves d r s × RowsMove d rows rows'

module _ (d : DeviceScheduleJobData) where
  Moves-same : (r : SchedulerLogRow) → Moves d r r
  Moves-same r = record { same_job = refl; outcome = inl refl }

  Moves-trans : (r s t : SchedulerLogRow) → Moves d r s → Moves d s t → Moves d r t
  Moves-trans r s t m n = record {
    same_job = n.same_job ∙ m.same_job;
    outcome = elim n.outcome [
      | inl e ↦ elim m.outcome [ inl e' ↦ inl (e ∙ e') | inr (job, ends) ↦ inr (job, rw e ends) ]
      | inr (job, ends) ↦ inr (sym m.same_job ∙ job, ends)
    ];
  }

  RowsMove-same : (rows : List SchedulerLogRow) → RowsMove d rows rows
  RowsMove-same [] = tt
  RowsMove-same (r ∷ rows) = (Moves-same r, RowsMove-same rows)

  RowsMove-trans :
      (xs ys zs : List SchedulerLogRow) → RowsMove d xs ys → RowsMove d ys zs → RowsMove d xs zs
  RowsMove-trans [] [] [] h k = tt
  RowsMove-trans [] [] (z ∷ zs) h k = elim k [ ]
  RowsMove-trans [] (y ∷ ys) zs h k = elim h [ ]
  RowsMove-trans (x ∷ xs) [] zs h k = elim h [ ]
  RowsMove-trans (x ∷ xs) (y ∷ ys) [] h k = elim k [ ]
  RowsMove-trans (x ∷ xs) (y ∷ ys) (z ∷ zs) (m, h) (n, k) =
      (Moves-trans x y z m n, RowsMove-trans xs ys zs h k)

  recorded-Moves :
      (status : ScheduledJobStatus) (result : Option JobResult) (error : Option Text) (now : ℕ)
      (r : SchedulerLogRow)
      → Ends d.category status
      → Moves d r (recorded d.job_id status result error now r)
  unfolding recorded
  recorded-Moves status result error now r ends =
      elim (Bool-cases (not r.deleted && (not r.destroyed && text_eq r.job_id d.job_id))) [
        | inl mine ↦
            let same : text_eq r.job_id d.job_id ≡ true = ground arith in
            rw mine (record {
              same_job = refl;
              outcome = inr ((text_eq_iff r.job_id d.job_id).0 same, ends);
            })
        | inr theirs ↦ rw theirs (Moves-same r)
      ]

  map-RowsMove :
      (f : SchedulerLogRow → SchedulerLogRow) (rows : List SchedulerLogRow)
      → ((r : SchedulerLogRow) → Moves d r (f r))
      → RowsMove d rows (map f rows)
  map-RowsMove f [] h = tt
  map-RowsMove f (r ∷ rows) h = (h r, map-RowsMove f rows h)

  -- The action changes rows of the log only so.
  pub record LogsMove {A : Type 0} (m : Exec World A) : Type 0 where
    pub at : (w : World) → RowsMove d w.db.scheduler_logs (m w).1.db.scheduler_logs

  module _ {A : Type 0} where
    LogsMove-keeps :
        (m : Exec World A)
        → ((w : World) → (m w).1.db.scheduler_logs ≡ w.db.scheduler_logs)
        → LogsMove m
    LogsMove-keeps m e = record { at = λ w. rw (e w) (RowsMove-same w.db.scheduler_logs) }

    LogsMove-KeepsDb : (m : Exec World A) → KeepsDb m → LogsMove m
    LogsMove-KeepsDb m k = LogsMove-keeps m (λ w. ap (λ (db : Db). db.scheduler_logs) (k.at w))

    LogsMove-db_call : (m : Exec World A) → LogsMove m → LogsMove (db_call m)
    LogsMove-db_call m k = record {
      at = λ w.
          let (t, rest, cases) = db_call-cases m w in
          elim cases [
            | inl failed ↦ rw failed (RowsMove-same w.db.scheduler_logs)
            | inr made ↦ rw made (k.at (advance t rest w))
          ];
    }

    handle-RowsMove :
        (handler : Thrown → Exec World A) (r : Result A) (before : List SchedulerLogRow) (w : World)
        → ((e : Thrown) → LogsMove (handler e))
        → RowsMove d before w.db.scheduler_logs
        → RowsMove d before (handle handler r w).1.db.scheduler_logs
    handle-RowsMove handler (ok a) before w k h = h
    handle-RowsMove handler (err e) before w k h =
        RowsMove-trans before w.db.scheduler_logs _ h ((k e).at w)

    LogsMove-catch :
        (m : Exec World A) (handler : Thrown → Exec World A)
        → LogsMove m
        → ((e : Thrown) → LogsMove (handler e))
        → LogsMove (catch m handler)
    LogsMove-catch m handler km kh = record {
      at = λ w. handle-RowsMove handler (m w).0 w.db.scheduler_logs (m w).1 kh (km.at w);
    }

  module _ {A B : Type 0} where
    continue-RowsMove :
        (r : Result A) (f : A → Exec World B) (before : List SchedulerLogRow) (w : World)
        → ((a : A) → LogsMove (f a))
        → RowsMove d before w.db.scheduler_logs
        → RowsMove d before (continue r f w).1.db.scheduler_logs
    continue-RowsMove (ok a) f before w k h =
        RowsMove-trans before w.db.scheduler_logs _ h ((k a).at w)
    continue-RowsMove (err e) f before w k h = h

    LogsMove-bind :
        (m : Exec World A) (f : A → Exec World B)
        → LogsMove m
        → ((a : A) → LogsMove (f a))
        → LogsMove (m >>= f)
    LogsMove-bind m f km kf = record {
      at = λ w. continue-RowsMove (m w).0 f w.db.scheduler_logs (m w).1 kf (km.at w);
    }

  record_result-LogsMove :
      (status : ScheduledJobStatus) (result : Option JobResult) (error : Option Text)
      → Ends d.category (final_status d.category status)
      → LogsMove (record_scheduler_result d.job_id status d.category result error)
  unfolding record_scheduler_result update_logs
  record_result-LogsMove status result error ends =
      LogsMove-catch _ _
        (LogsMove-bind (gets (λ (w : World). w.now)) _ (LogsMove-keeps _ (λ w. refl)) λ now.
          LogsMove-db_call _ (record {
            at = λ w.
                map-RowsMove (recorded d.job_id (final_status d.category status) result error now)
                  w.db.scheduler_logs
                  (λ r. recorded-Moves (final_status d.category status) result error now r ends);
          }))
        (λ _. LogsMove-keeps _ (λ w. refl))

  final_status_failed :
      (category : SchedulerCategory)
      → Ends category (final_status category ScheduledJobStatus.failed)
  unfolding final_status
  final_status_failed once = fails once
  final_status_failed repeat = fails repeat

  final_status_completed :
      (category : SchedulerCategory)
      → Ends category (final_status category ScheduledJobStatus.completed)
  unfolding final_status
  final_status_completed once = done
  final_status_completed repeat = stays

  rethrow-LogsMove :
      {A : Type 0} (message : Text) (e : Thrown) → LogsMove (rethrow {A = A} message e)
  rethrow-LogsMove message (app_error status text) = LogsMove-keeps _ (λ w. refl)
  rethrow-LogsMove message other = LogsMove-keeps _ (λ w. refl)

  create_device_log-LogsMove : (id : ℕ) (value : Text) → LogsMove (create_device_log id value)
  unfolding create_device_log insert_device_log
  create_device_log-LogsMove id value =
      LogsMove-catch _ _
        (LogsMove-bind _ _ (LogsMove-KeepsDb _ (KeepsDb-db_call _ (KeepsDb-gets _))) λ found.
          LogsMove-bind _ _ (LogsMove-KeepsDb _ (or_not_found-KeepsDb _ found))
            λ device. LogsMove-db_call _ (LogsMove-keeps _ (λ w. refl)))
        (rethrow-LogsMove _)

  module _ (broker_connected : Bool) (text_of_other : Text) where
    fail_job-LogsMove : (e : Thrown) → LogsMove (fail_job broker_connected text_of_other d e)
    unfolding fail_job
    fail_job-LogsMove e =
        LogsMove-bind _ _ (record_result-LogsMove _ _ _ (final_status_failed d.category))
          λ _. LogsMove-keeps (throw e) (λ w. refl)

    actuate-LogsMove :
        (device : DeviceRow) (state : State)
        → LogsMove (actuate broker_connected text_of_other d device state)
    unfolding actuate publish_actuator_state
    actuate-LogsMove device state =
        LogsMove-bind _ _ (create_device_log-LogsMove device.device_id (state_value state)) λ value.
          LogsMove-bind _ _
            (LogsMove-keeps (publish_actuator_state device.device_id state) (λ w. refl))
            λ _.
              record_result-LogsMove ScheduledJobStatus.completed
                (some (
                  actuated device.device_id value.device_log_id value.device_log_data state
                    broker_connected))
                none (final_status_completed d.category)

    actuate_state-LogsMove :
        (device : DeviceRow) (state : Option State)
        → LogsMove (actuate_state broker_connected text_of_other d device state)
    unfolding actuate_state
    actuate_state-LogsMove device none =
        record_result-LogsMove _ _ _ (final_status_failed d.category)
    actuate_state-LogsMove device (some state) = actuate-LogsMove device state

    actuate_device-LogsMove :
        (device : DeviceRow) → LogsMove (actuate_device broker_connected text_of_other d device)
    unfolding actuate_device
    actuate_device-LogsMove device = elim (Bool-cases (is_actuator device.device_type)) [
      | inl right ↦ rw right (actuate_state-LogsMove device d.state)
      | inr wrong ↦ rw wrong (record_result-LogsMove _ _ _ (final_status_failed d.category))
    ]

    process_job-LogsMove :
        (type : ScheduledJobType) → LogsMove (process_job broker_connected text_of_other type d)
    unfolding process_job execute_actuator_job execute_sensor_data_job
    process_job-LogsMove ScheduledJobType.actuator =
        LogsMove-catch _ _
          (LogsMove-bind _ _ (LogsMove-KeepsDb _ (find_by_name-KeepsDb d.device_name))
            actuate_device-LogsMove)
          fail_job-LogsMove
    process_job-LogsMove sensor_data =
        LogsMove-catch _ _
          (LogsMove-bind _ _ (LogsMove-KeepsDb _ (find_by_name-KeepsDb d.device_name)) λ device.
            LogsMove-bind _ _
              (LogsMove-KeepsDb _ (find_last_logs_by_device_id-KeepsDb device.device_id 10))
              λ (items : List DeviceLogRow).
                record_result-LogsMove ScheduledJobStatus.completed
                  (some (fetched device.device_id (map fetched_value items))) none
                  (final_status_completed d.category))
          fail_job-LogsMove

    -- Whatever fails while a job runs, it changes the rows of the scheduler's log one by one: a row
    -- stays as it was, or it is a row of that job, which keeps its id and ends as completed if the
    -- job runs once, as still active if it runs daily, or as failed.
    pub process_device_schedule_job-RowsMove :
        (w : World)
        → RowsMove d w.db.scheduler_logs
            (process_device_schedule_job broker_connected text_of_other d w).1.db.scheduler_logs
    unfolding process_device_schedule_job
    process_device_schedule_job-RowsMove w = (process_job-LogsMove d.type).at w
