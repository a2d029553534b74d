-- ===== src/Schedule/Service/Recovery.antt =====
-- What `initializeDeviceSchedule` leaves in the queue.
use ginem_api.Common.{
  ℕ, true, false, ◌≡◌, refl, Option, none, some, is_some, List, [], ◌∷◌, All, ◌⊎◌, inl, inr,
  Bool-cases, if◌then◌else◌, leb,
}
use ginem_api.Common.Text.{Text}
use ginem_api.Common.Exec.{gets}
use ginem_api.Store.{World, SchedulerLogRow}
use ginem_api.Schedule.Queue.{
  JobQueue, IsJobQueue, RepeatableJob, IsShown, is_repeat_job_registered,
  list_repeatable_device_schedule_jobs,
}
use ginem_api.Schedule.Queue.Shown.{registered-IsShown}
use ginem_api.Schedule.Queue.Laws.{
  Leaves, Leaves-bind, Leaves-pure, Leaves-if, Leaves-on_world, Leaves-queue_call, enqueue-Leaves,
  enqueue_repeat-Leaves, enqueue_repeat-Has,
}
use ginem_api.Schedule.Service.{
  job_data, recover_once, recover_each_once, recover_repeat, recover_each_repeat,
  recover_found_repeats,
}

-- The id is that of one of the rows.
abbrev pub IsIdOf : Text → List SchedulerLogRow → Type 0
IsIdOf id [] = ⊥
IsIdOf id (row ∷ rows) = (id ≡ row.job_id) ⊎ IsIdOf id rows

pub All-of_ids :
    (P : Text → Type 0) (rows : List SchedulerLogRow)
    → ((id : Text) → IsIdOf id rows → P id)
    → All (λ (r : SchedulerLogRow). P r.job_id) rows
All-of_ids P [] h = tt
All-of_ids P (row ∷ rows) h = (h row.job_id (inl refl), All-of_ids P rows (λ id k. h id (inr k)))

-- The same for the rows that have a pattern.
abbrev pub IsRepeatIdOf : Text → List SchedulerLogRow → Type 0
IsRepeatIdOf id [] = ⊥
IsRepeatIdOf id (row ∷ rows) =
    ((id ≡ row.job_id) × (is_some row.cron_pattern ≡ true)) ⊎ IsRepeatIdOf id rows

pub All-of_repeat_ids :
    (P : Text → Type 0) (rows : List SchedulerLogRow)
    → ((id : Text) → IsRepeatIdOf id rows → P id)
    → All (λ (r : SchedulerLogRow). is_some r.cron_pattern ≡ true → P r.job_id) rows
All-of_repeat_ids P [] h = tt
All-of_repeat_ids P (row ∷ rows) h =
    (λ has. h row.job_id (inl (refl, has)), All-of_repeat_ids P rows (λ id k. h id (inr k)))

module _ (q : JobQueue) (laws : IsJobQueue q) where
  abbrev pub Has : Text → q.Jobs → Type 0
  Has id jobs = q.has_job id jobs ≡ true

  abbrev pub Listed : Text → q.Jobs → Type 0
  Listed id jobs = IsShown id (q.repeatables jobs)

  recover_once-Leaves :
      (id : Text) (now : ℕ) (row : SchedulerLogRow)
      → Leaves q (λ jobs. (id ≡ row.job_id) ⊎ Has id jobs) (λ _. Has id) (recover_once q now row)
  unfolding recover_once
  recover_once-Leaves id now row =
      Leaves-bind q _ _ (λ _. Has id) _ _
        (Leaves-on_world q (λ jobs. (id ≡ row.job_id) ⊎ Has id jobs) (gets (λ (w : World). w.now)))
        (λ current.
          enqueue-Leaves q laws (job_data row) id
            (if leb row.run_at now then current else row.run_at))

  abbrev pub Pending : Text → List SchedulerLogRow → q.Jobs → Type 0
  Pending id rows jobs = IsIdOf id rows ⊎ Has id jobs

  pub recover_each_once-Leaves :
      (id : Text) (now : ℕ) (rows : List SchedulerLogRow)
      → Leaves q (Pending id rows) (λ _. Has id) (recover_each_once q now rows)
  unfolding recover_each_once
  recover_each_once-Leaves id now [] = record {
    at = λ s a p h. elim p [ inl none_left ↦ elim none_left [ ] | inr has ↦ has ];
  }
  recover_each_once-Leaves id now (row ∷ rows) =
      Leaves-bind q _ (λ _. Pending id rows) (λ _. Has id) _ _
        (record {
          at = λ s a p h. elim p [
            | inl (inl e) ↦ inr ((recover_once-Leaves id now row).at s a (inl e) h)
            | inl (inr later) ↦ inl later
            | inr has ↦ inr ((recover_once-Leaves id now row).at s a (inr has) h)
          ];
        })
        (λ _. recover_each_once-Leaves id now rows)

  recover_repeat-Has :
      (id : Text) (repeatables : List RepeatableJob) (row : SchedulerLogRow) (pattern : Option Text)
      → Leaves q (Has id) (λ _. Has id) (recover_repeat q repeatables row pattern)
  unfolding recover_repeat
  recover_repeat-Has id repeatables row none = Leaves-pure q (Has id) tt
  recover_repeat-Has id repeatables row (some pattern) =
      Leaves-if q (Has id) (λ _. Has id) (is_repeat_job_registered repeatables row.job_id) _ _
        (Leaves-pure q (Has id) tt)
        (enqueue_repeat-Has q laws (job_data row) id pattern row.timezone)

  recover_each_repeat-Has :
      (id : Text) (repeatables : List RepeatableJob) (rows : List SchedulerLogRow)
      → Leaves q (Has id) (λ _. Has id) (recover_each_repeat q repeatables rows)
  unfolding recover_each_repeat
  recover_each_repeat-Has id repeatables [] = Leaves-pure q (Has id) tt
  recover_each_repeat-Has id repeatables (row ∷ rows) =
      Leaves-bind q (Has id) (λ _. Has id) (λ _. Has id) _ _
        (recover_repeat-Has id repeatables row row.cron_pattern)
        (λ _. recover_each_repeat-Has id repeatables rows)

  -- A job that is listed stays so.
  recover_repeat-Listed :
      (id : Text) (repeatables : List RepeatableJob) (row : SchedulerLogRow) (pattern : Option Text)
      → Leaves q (Listed id) (λ _. Listed id) (recover_repeat q repeatables row pattern)
  unfolding recover_repeat
  recover_repeat-Listed id repeatables row none = Leaves-pure q (Listed id) tt
  recover_repeat-Listed id repeatables row (some pattern) =
      Leaves-if q (Listed id) (λ _. Listed id) (is_repeat_job_registered repeatables row.job_id) _ _
        (Leaves-pure q (Listed id) tt)
        (record {
          at = λ s a h.
              (enqueue_repeat-Leaves q laws (job_data row) id pattern row.timezone).at s a (inr h);
        })

  recover_each_repeat-Listed :
      (id : Text) (repeatables : List RepeatableJob) (rows : List SchedulerLogRow)
      → Leaves q (Listed id) (λ _. Listed id) (recover_each_repeat q repeatables rows)
  unfolding recover_each_repeat
  recover_each_repeat-Listed id repeatables [] = Leaves-pure q (Listed id) tt
  recover_each_repeat-Listed id repeatables (row ∷ rows) =
      Leaves-bind q (Listed id) (λ _. Listed id) (λ _. Listed id) _ _
        (recover_repeat-Listed id repeatables row row.cron_pattern)
        (λ _. recover_each_repeat-Listed id repeatables rows)

  module _ (id : Text) (repeatables : List RepeatableJob)
      (absent : is_repeat_job_registered repeatables id ≡ false) where
    -- A job that was not listed before the loop is listed when its row has been seen.
    recover_absent :
        (row : SchedulerLogRow) (pattern : Option Text)
        → id ≡ row.job_id
        → is_some pattern ≡ true
        → Leaves q (λ _. Unit {0}) (λ _. Listed id) (recover_repeat q repeatables row pattern)
    unfolding recover_repeat
    recover_absent row none e h = cc
    recover_absent row (some pattern) e h =
        let missing : is_repeat_job_registered repeatables row.job_id ≡ false = rw (← e) absent in
        rw missing (record {
          at = λ s a _.
              (enqueue_repeat-Leaves q laws (job_data row) id pattern row.timezone).at s a (inl e);
        })

    abbrev Wanted : List SchedulerLogRow → q.Jobs → Type 0
    Wanted rows jobs = IsRepeatIdOf id rows ⊎ Listed id jobs

    recover_each_absent :
        (rows : List SchedulerLogRow)
        → Leaves q (Wanted rows) (λ _. Listed id) (recover_each_repeat q repeatables rows)
    unfolding recover_each_repeat
    recover_each_absent [] = record {
      at = λ s a p h. elim p [ inl none_left ↦ elim none_left [ ] | inr listed ↦ listed ];
    }
    recover_each_absent (row ∷ rows) =
        Leaves-bind q _ (λ _. Wanted rows) (λ _. Listed id) _ _
          (record {
            at = λ s a p h. elim p [
              | inl (inl (e, has)) ↦ inr ((recover_absent row row.cron_pattern e has).at s a tt h)
              | inl (inr later) ↦ inl later
              | inr listed ↦
                  inr ((recover_repeat-Listed id repeatables row row.cron_pattern).at s a listed h)
            ];
          })
          (λ _. recover_each_absent rows)

  -- What the queue listed before the loop.
  abbrev Read : Text → List RepeatableJob → q.Jobs → Type 0
  Read id repeatables jobs = q.repeatables jobs ≡ repeatables

  recover_each_repeat-Leaves :
      (id : Text) (repeatables : List RepeatableJob) (rows : List SchedulerLogRow)
      → IsRepeatIdOf id rows
      → Leaves q (Read id repeatables) (λ _. Listed id) (recover_each_repeat q repeatables rows)
  recover_each_repeat-Leaves id repeatables rows wanted = record {
    at = λ s a read h. elim (Bool-cases (is_repeat_job_registered repeatables id)) [
      | inl present ↦
          (recover_each_repeat-Listed id repeatables rows).at s a
            (rw read (registered-IsShown repeatables id present)) h
      | inr absent ↦ (recover_each_absent id repeatables absent rows).at s a (inl wanted) h
    ];
  }

  pub recover_found_repeats-Leaves :
      (id : Text) (rows : List SchedulerLogRow)
      → IsRepeatIdOf id rows
      → Leaves q (λ _. Unit {0}) (λ _. Listed id) (recover_found_repeats q rows)
  unfolding recover_found_repeats list_repeatable_device_schedule_jobs
  recover_found_repeats-Leaves id [] wanted = elim wanted [ ]
  recover_found_repeats-Leaves id (row ∷ rows) wanted =
      Leaves-bind q _ (Read id) (λ _. Listed id) _ _
        (Leaves-queue_call q (λ _. Unit {0}) (Read id) _ (λ jobs _. refl))
        (λ repeatables. recover_each_repeat-Leaves id repeatables (row ∷ rows) wanted)

  pub recover_found_repeats-Has :
      (id : Text) (rows : List SchedulerLogRow)
      → Leaves q (Has id) (λ _. Has id) (recover_found_repeats q rows)
  unfolding recover_found_repeats list_repeatable_device_schedule_jobs
  recover_found_repeats-Has id [] = Leaves-pure q (Has id) tt
  recover_found_repeats-Has id (row ∷ rows) =
      Leaves-bind q (Has id) (λ _. Has id) (λ _. Has id) _ _
        (Leaves-queue_call q (Has id) (λ _. Has id) _ (λ jobs h. h))
        (λ repeatables. recover_each_repeat-Has id repeatables (row ∷ rows))
