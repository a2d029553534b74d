-- ===== src/Schedule/Queue/Laws.antt =====
-- What calls of the queue leave in it, when they return.
use ginem_api.Common.{
  ℕ, ◌-◌, Bool, true, false, ◌≡◌, refl, sym, subst, ◌⊎◌, inl, inr, Bool-cases, List, if◌then◌else◌,
}
use ginem_api.Common.Text.{Text, text_eq, text_eq_iff}
use ginem_api.Common.Exec.{Exec, Result, ok, err, pure, gets, ◌>>=◌}
use ginem_api.Store.{World, db_call}
use ginem_api.Store.Calls.{bind-eq-ok, ok-injective}
use ginem_api.Schedule.Queue.Shown.{registered-IsShown}
use ginem_api.Schedule.Queue.{
  DeviceScheduleJobData, QueuedState, RepeatableJob, JobQueue, IsJobQueue, Scheduler, on_world,
  answer_queue, queue_call, add_job, replace_or_skip, enqueue_found, enqueue_device_schedule_job,
  IsShown, is_repeat_job_registered, enqueue_repeat_device_schedule_job,
}

module _ (q : JobQueue) where
  -- From jobs that satisfy `P`, an action that returns leaves jobs that satisfy `Q` of its result.
  pub record Leaves {A : Type 0} (P : q.Jobs → Type 0) (Q : A → q.Jobs → Type 0)
      (m : Exec (Scheduler q) A) : Type 0 where
    pub at : (s : Scheduler q) (a : A) → P s.1 → (m s).0 ≡ ok a → Q a (m s).1.1

  pub Leaves-bind :
      {A B : Type 0} (P : q.Jobs → Type 0) (Q : A → q.Jobs → Type 0) (R : B → q.Jobs → Type 0)
      (m : Exec (Scheduler q) A) (f : A → Exec (Scheduler q) B)
      → Leaves P Q m
      → ((a : A) → Leaves (Q a) R (f a))
      → Leaves P R (m >>= f)
  Leaves-bind P Q R m f km kf = record {
    at = λ s b p h.
        let (a, first, later, final) = bind-eq-ok m f s h in
        subst (λ (x : Scheduler q). R b x.1) (sym final)
          ((kf a).at (m s).1 b (km.at s a p first) later);
  }

  module _ {A : Type 0} where
    pub Leaves-pure : (P : q.Jobs → Type 0) (a : A) → Leaves P (λ _. P) (pure a)
    Leaves-pure P a = record { at = λ s b p h. p }

    -- An action on the world alone.
    pub Leaves-on_world :
        (P : q.Jobs → Type 0) (m : Exec World A) → Leaves P (λ _. P) (on_world q m)
    Leaves-on_world P m = record { at = λ s b p h. p }

    pub Leaves-if :
        (P : q.Jobs → Type 0) (Q : A → q.Jobs → Type 0) (b : Bool) (m n : Exec (Scheduler q) A)
        → Leaves P Q m
        → Leaves P Q n
        → Leaves P Q (if b then m else n)
    Leaves-if P Q true m n km kn = km
    Leaves-if P Q false m n km kn = kn

    answer-leaves :
        (P : q.Jobs → Type 0) (Q : A → q.Jobs → Type 0) (f : q.Jobs → A × q.Jobs)
        (r : Result (Unit {0})) (w : World) (jobs : q.Jobs) (a : A)
        → ((jobs : q.Jobs) → P jobs → Q (f jobs).0 (f jobs).1)
        → P jobs
        → (answer_queue q r f (w, jobs)).0 ≡ ok a
        → Q a (answer_queue q r f (w, jobs)).1.1
    answer-leaves P Q f (ok tt) w jobs a k p h =
        let e : (f jobs).0 ≡ a = ok-injective h in subst (λ b. Q b (f jobs).1) e (k jobs p)
    answer-leaves P Q f (err e) w jobs a k p h = cc

    pub Leaves-queue_call :
        (P : q.Jobs → Type 0) (Q : A → q.Jobs → Type 0) (f : q.Jobs → A × q.Jobs)
        → ((jobs : q.Jobs) → P jobs → Q (f jobs).0 (f jobs).1)
        → Leaves P Q (queue_call q f)
    Leaves-queue_call P Q f k = record {
      at = λ s a p h.
          answer-leaves P Q f (db_call (λ v. (ok tt, v)) s.0).0 (db_call (λ v. (ok tt, v)) s.0).1
            s.1 a k p h;
    }

module _ (q : JobQueue) (laws : IsJobQueue q) (d : DeviceScheduleJobData) (id : Text) where
  -- The job is there, or it is the one that is being put there.
  abbrev pub Due : q.Jobs → Type 0
  Due jobs = (id ≡ d.job_id) ⊎ (q.has_job id jobs ≡ true)

  abbrev pub Has : q.Jobs → Type 0
  Has jobs = q.has_job id jobs ≡ true

  add_job-Leaves : (delay : ℕ) → Leaves q Due (λ _. Has) (add_job q d delay)
  unfolding add_job
  add_job-Leaves delay =
      Leaves-queue_call q Due (λ _. Has) _
        λ jobs h. elim h [
          | inl e ↦ rw e (laws.has-add d delay jobs)
          | inr has ↦ laws.has-add_other id d delay jobs has
        ]

  remove-Due : (jobs : q.Jobs) → Due jobs → Due (q.remove d.job_id jobs)
  remove-Due jobs h = elim (Bool-cases (text_eq id d.job_id)) [
    | inl same ↦ inl ((text_eq_iff id d.job_id).0 same)
    | inr differ ↦ elim h [
      | inl e ↦ inl e
      | inr has ↦ inr (laws.has-remove_other id d.job_id jobs differ has)
    ]
  ]

  replace_or_skip-Leaves :
      (delay : ℕ) (state : QueuedState) → Leaves q Has (λ _. Has) (replace_or_skip q d delay state)
  unfolding replace_or_skip
  replace_or_skip-Leaves delay state =
      Leaves-if q Has (λ _. Has) _ _ _
        (Leaves-bind q Has (λ _. Due) (λ _. Has) _ _
          (Leaves-queue_call q Has (λ _. Due) _ (λ jobs h. remove-Due jobs (inr h)))
          (λ _. add_job-Leaves delay))
        (Leaves-pure q Has tt)

  -- The job was found or not, and is another than the one that is being put there or was found.
  abbrev Found : Bool → q.Jobs → Type 0
  Found found jobs = Due jobs × (q.has_job d.job_id jobs ≡ found)

  Has-Found : (jobs : q.Jobs) → Found true jobs → Has jobs
  Has-Found jobs (inl e, found) = rw e found
  Has-Found jobs (inr has, found) = has

  enqueue_found-Leaves :
      (delay : ℕ) (found : Bool) → Leaves q (Found found) (λ _. Has) (enqueue_found q d delay found)
  unfolding enqueue_found
  enqueue_found-Leaves delay false = record { at = λ s a h r. (add_job-Leaves delay).at s a h.0 r }
  enqueue_found-Leaves delay true =
      Leaves-bind q (Found true) (λ _. Has) (λ _. Has) _ _
        (Leaves-queue_call q (Found true) (λ _. Has) _ Has-Found) (replace_or_skip-Leaves delay)

  -- If the job of the data is put into the queue and the call returns, then it is there, and so is
  -- every job that was there before.
  pub enqueue-Leaves :
      (run_at : ℕ) → Leaves q Due (λ _. Has) (enqueue_device_schedule_job q d run_at)
  unfolding enqueue_device_schedule_job
  enqueue-Leaves run_at =
      Leaves-bind q Due (λ _. Due) (λ _. Has) _ _
        (Leaves-on_world q Due (gets (λ (w : World). w.now)))
        λ now.
          Leaves-bind q Due Found (λ _. Has) _ _
            (Leaves-queue_call q Due Found _ (λ jobs h. (h, refl)))
            (enqueue_found-Leaves (run_at - now))

  abbrev pub Listed : q.Jobs → Type 0
  Listed jobs = IsShown id (q.repeatables jobs)

  abbrev Read : List RepeatableJob → q.Jobs → Type 0
  Read repeatables jobs = ((id ≡ d.job_id) ⊎ Listed jobs) × (q.repeatables jobs ≡ repeatables)

  Listed-registered :
      (repeatables : List RepeatableJob) (jobs : q.Jobs)
      → is_repeat_job_registered repeatables d.job_id ≡ true
      → Read repeatables jobs
      → Listed jobs
  Listed-registered repeatables jobs h (inl e, read) =
      rw (e, read) (registered-IsShown repeatables d.job_id h)
  Listed-registered repeatables jobs h (inr listed, read) = listed

  register-Leaves :
      (cron_pattern timezone : Text) (repeatables : List RepeatableJob)
      → Leaves q
          (Read repeatables)
          (λ _. Listed)
          (if is_repeat_job_registered repeatables d.job_id
            then pure tt
            else queue_call q (λ jobs. (tt, q.add_repeat d cron_pattern timezone jobs)))
  register-Leaves cron_pattern timezone repeatables =
      elim (Bool-cases (is_repeat_job_registered repeatables d.job_id)) [
        | inl already ↦
            rw already (record { at = λ s a h r. Listed-registered repeatables s.1 already h })
        | inr absent ↦ rw absent (
            Leaves-queue_call q (Read repeatables) (λ _. Listed) _
              λ jobs h. elim h.0 [
                | inl e ↦ rw e (laws.listed-add_repeat d cron_pattern timezone jobs)
                | inr listed ↦ laws.listed-add_repeat_other id d cron_pattern timezone jobs listed
              ])
      ]

  -- The same for a repeatable job: after a call that returns it is listed.
  pub enqueue_repeat-Leaves :
      (cron_pattern timezone : Text)
      → Leaves q
          (λ jobs. (id ≡ d.job_id) ⊎ Listed jobs)
          (λ _. Listed)
          (enqueue_repeat_device_schedule_job q d cron_pattern timezone)
  unfolding enqueue_repeat_device_schedule_job
  enqueue_repeat-Leaves cron_pattern timezone =
      Leaves-bind q _ Read (λ _. Listed) _ _ (Leaves-queue_call q _ Read _ (λ jobs h. (h, refl)))
        (register-Leaves cron_pattern timezone)

  -- A job of the other kind stays.
  pub enqueue_repeat-Has :
      (cron_pattern timezone : Text)
      → Leaves q Has (λ _. Has) (enqueue_repeat_device_schedule_job q d cron_pattern timezone)
  unfolding enqueue_repeat_device_schedule_job
  enqueue_repeat-Has cron_pattern timezone =
      Leaves-bind q Has (λ _. Has) (λ _. Has) _ _
        (Leaves-queue_call q Has (λ _. Has) _ (λ jobs h. h))
        λ repeatables.
          Leaves-if q Has (λ _. Has) (is_repeat_job_registered repeatables d.job_id) _ _
            (Leaves-pure q Has tt)
            (Leaves-queue_call q Has (λ _. Has) _
              (λ jobs h. laws.has-add_repeat id d cron_pattern timezone jobs h))
