-- ===== src/Schedule/Queue.antt =====
-- services/scheduler/deviceSchedule.queue.ts: jobs are put into the queue, once or repeatedly.
-- The queue (BullMQ) is the parameter `JobQueue`; what the code relies on is `IsJobQueue`. A call of
-- the queue may fail, as the environment's script says.
pub mod Shown
pub mod Laws
pub mod Samples
use ginem_api.Common.{
  ℕ, ◌-◌, Bool, true, false, ◌&&◌, ◌||◌, Option, none, some, List, [], ◌∷◌, ◌++◌, ◌⊎◌, any, ◌==◌,
  ◌≡◌, if◌then◌else◌,
}
use ginem_api.Common.Text.{Text, codes, text_eq, includes}
use ginem_api.Common.Exec.{Exec, Result, ok, err, pure, ◌>>=◌, ◌>>◌}
use ginem_api.Store.{ScheduledJobType, SchedulerCategory, State, World, db_call}

pub record DeviceScheduleJobData : Type 0 where
  pub job_id : Text
  pub type : ScheduledJobType
  pub category : SchedulerCategory
  pub device_name : Text
  pub state : Option State

-- What `getState` says of a job, as far as the code tells its answers apart.
pub data QueuedState : Type 0 where
  delayed waiting elsewhere : QueuedState

pub record RepeatableJob : Type 0 where
  pub id : Option Text
  pub key : Text

pub record JobQueue : Type 1 where
  pub Jobs : Type 0
  pub has_job : Text → Jobs → Bool
  pub get_state : Text → Jobs → QueuedState
  pub remove : Text → Jobs → Jobs
  pub add : DeviceScheduleJobData → ℕ → Jobs → Jobs
  pub repeatables : Jobs → List RepeatableJob
  pub add_repeat : DeviceScheduleJobData → Text → Text → Jobs → Jobs

abbrev id_is : Text → Option Text → Bool
id_is id none = false
id_is id (some i) = text_eq i id

unfoldable pub entry_is : Text → RepeatableJob → Bool
entry_is job_id entry = id_is job_id entry.id || includes job_id entry.key

unfoldable pub is_repeat_job_registered : List RepeatableJob → Text → Bool
unfolding entry_is
is_repeat_job_registered repeatables job_id = any (entry_is job_id) repeatables

-- The entry of the list that stands for a job: its id is the job's, or its key has the job's id in it.
abbrev pub Shows : Text → RepeatableJob → Type 0
Shows job_id entry =
    (entry.id ≡ some job_id)
    ⊎ ((before : Text) × (after : Text) × (entry.key ≡ before ++ (job_id ++ after)))

-- Some entry of the list stands for the job.
abbrev pub IsShown : Text → List RepeatableJob → Type 0
IsShown job_id [] = ⊥
IsShown job_id (entry ∷ entries) = Shows job_id entry ⊎ IsShown job_id entries

-- A job that is added is there, and no other job is lost by adding one of either kind or removing
-- one; a repeatable job that is added is listed under its id, and those that were listed stay.
pub record IsJobQueue (q : JobQueue) : Type 0 where
  pub has-add :
      (d : DeviceScheduleJobData) (delay : ℕ) (jobs : q.Jobs)
      → q.has_job d.job_id (q.add d delay jobs) ≡ true
  pub has-add_other :
      (id : Text) (d : DeviceScheduleJobData) (delay : ℕ) (jobs : q.Jobs)
      → q.has_job id jobs ≡ true
      → q.has_job id (q.add d delay jobs) ≡ true
  pub has-remove_other :
      (id removed : Text) (jobs : q.Jobs)
      → text_eq id removed ≡ false
      → q.has_job id jobs ≡ true
      → q.has_job id (q.remove removed jobs) ≡ true
  pub has-add_repeat :
      (id : Text) (d : DeviceScheduleJobData) (pattern timezone : Text) (jobs : q.Jobs)
      → q.has_job id jobs ≡ true
      → q.has_job id (q.add_repeat d pattern timezone jobs) ≡ true
  pub listed-add_repeat :
      (d : DeviceScheduleJobData) (pattern timezone : Text) (jobs : q.Jobs)
      → IsShown d.job_id (q.repeatables (q.add_repeat d pattern timezone jobs))
  pub listed-add_repeat_other :
      (id : Text) (d : DeviceScheduleJobData) (pattern timezone : Text) (jobs : q.Jobs)
      → IsShown id (q.repeatables jobs)
      → IsShown id (q.repeatables (q.add_repeat d pattern timezone jobs))

module _ (q : JobQueue) where
  abbrev pub Scheduler : Type 0
  Scheduler = World × q.Jobs

  -- What a service does to the world, beside the queue.
  abbrev pub on_world : {A : Type 0} → Exec World A → Exec Scheduler A
  on_world m (w, jobs) = let (r, w') = m w in (r, (w', jobs))

  abbrev pub answer_queue :
      {A : Type 0} → Result (Unit {0}) → (q.Jobs → A × q.Jobs) → Exec Scheduler A
  answer_queue (ok tt) f (w, jobs) = let (a, jobs') = f jobs in (ok a, (w, jobs'))
  answer_queue (err e) f (w, jobs) = (err e, (w, jobs))

  -- One call of the queue.
  abbrev pub queue_call : {A : Type 0} → (q.Jobs → A × q.Jobs) → Exec Scheduler A
  queue_call f (w, jobs) = let (r, w') = db_call (λ v. (ok tt, v)) w in answer_queue r f (w', jobs)

  unfoldable pub add_job : DeviceScheduleJobData → ℕ → Exec Scheduler (Unit {0})
  add_job d delay = queue_call (λ jobs. (tt, q.add d delay jobs))

  abbrev is_overdue : ℕ → QueuedState → Bool
  is_overdue delay delayed = delay == 0
  is_overdue delay waiting = delay == 0
  is_overdue delay elsewhere = false

  unfoldable pub replace_or_skip :
      DeviceScheduleJobData → ℕ → QueuedState → Exec Scheduler (Unit {0})
  unfolding add_job
  replace_or_skip d delay state =
      if is_overdue delay state
      then (do queue_call (λ jobs. (tt, q.remove d.job_id jobs)); add_job d delay)
      else pure tt

  unfoldable pub enqueue_found : DeviceScheduleJobData → ℕ → Bool → Exec Scheduler (Unit {0})
  unfolding add_job replace_or_skip
  enqueue_found d delay false = add_job d delay
  enqueue_found d delay true = do
    state ← queue_call (λ jobs. (q.get_state d.job_id jobs, jobs))
    replace_or_skip d delay state

  -- `Math.max(0, runAt - now)`
  unfoldable pub enqueue_device_schedule_job : DeviceScheduleJobData → ℕ → Exec Scheduler (Unit {0})
  unfolding enqueue_found
  enqueue_device_schedule_job d run_at = do
    now ← on_world (λ w. (ok w.now, w))
    existing ← queue_call (λ jobs. (q.has_job d.job_id jobs, jobs))
    enqueue_found d (run_at - now) existing

  unfoldable pub list_repeatable_device_schedule_jobs : Exec Scheduler (List RepeatableJob)
  list_repeatable_device_schedule_jobs = queue_call (λ jobs. (q.repeatables jobs, jobs))

  unfoldable pub enqueue_repeat_device_schedule_job :
      DeviceScheduleJobData → Text → Text → Exec Scheduler (Unit {0})
  unfolding is_repeat_job_registered
  enqueue_repeat_device_schedule_job d cron_pattern timezone = do
    repeatables ← queue_call (λ jobs. (q.repeatables jobs, jobs))
    if is_repeat_job_registered repeatables d.job_id
        then pure tt
        else queue_call (λ jobs. (tt, q.add_repeat d cron_pattern timezone jobs))
