-- ===== src/Schedule/Queue/Samples.antt =====
-- A queue that is two lists, for the tests.
use ginem_api.Common.{
  ◌≡◌, refl, true, false, not, some, List, [], ◌∷◌, any, filter, arith, inl, inr,
}
use ginem_api.Common.Text.{Text, text_eq, text_eq_iff, text_eq_refl}
use ginem_api.Schedule.Queue.{
  JobQueue, IsJobQueue, RepeatableJob, DeviceScheduleJobData, delayed, entry_is,
  is_repeat_job_registered,
}

abbrev pub Lists : Type 0
Lists = List Text × List RepeatableJob

abbrev listed : DeviceScheduleJobData → RepeatableJob
listed d = record { id = some d.job_id; key = [] }

-- The ids of the jobs that wait, and the repeatable jobs.
abbrev pub lists_queue : JobQueue
lists_queue = record {
  Jobs = Lists;
  has_job = λ id (jobs : Lists). any (text_eq id) jobs.0;
  get_state = λ id jobs. delayed;
  remove = λ id (jobs : Lists). (filter (λ other. not (text_eq id other)) jobs.0, jobs.1);
  add = λ (d : DeviceScheduleJobData) delay (jobs : Lists). (d.job_id ∷ jobs.0, jobs.1);
  repeatables = λ (jobs : Lists). jobs.1;
  add_repeat =
      λ (d : DeviceScheduleJobData) pattern timezone (jobs : Lists). (jobs.0, listed d ∷ jobs.1);
}

filter_keeps :
    (id removed : Text) (ids : List Text)
    → text_eq id removed ≡ false
    → any (text_eq id) ids ≡ true
    → any (text_eq id) (filter (λ other. not (text_eq removed other)) ids) ≡ true
filter_keeps id removed [] h k = k
filter_keeps id removed (i ∷ ids) h k = ground (
  arith,
  filter_keeps id removed ids h,
  text_eq_iff id i,
  text_eq_iff removed i,
  text_eq_iff id removed,
  text_eq_refl id,
)

pub lists_laws : IsJobQueue lists_queue
unfolding is_repeat_job_registered entry_is
lists_laws = record {
  has-add = λ d delay jobs. ground (arith, text_eq_refl d.job_id);
  has-add_other = λ id d delay jobs h. ground arith;
  has-remove_other = λ id removed jobs h k. filter_keeps id removed jobs.0 h k;
  has-add_repeat = λ id d pattern timezone jobs h. h;
  listed-add_repeat = λ d pattern timezone jobs. inl (inl refl);
  listed-add_repeat_other = λ id d pattern timezone jobs h. inr h;
}
