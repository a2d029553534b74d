-- ===== src/Schedule/Queue/Shown.antt =====
-- What the code takes for a registered job (services/scheduler/deviceSchedule.queue.ts) stands in the
-- list of repeatable jobs.
use ginem_api.Common.{
  ◌≡◌, refl, ap, true, inl, inr, Bool-cases, Option, none, some, List, [], ◌∷◌, ◌++◌, arith,
}
use ginem_api.Common.Text.{Text, text_eq_iff, starts_with, includes}
use ginem_api.Schedule.Queue.{
  RepeatableJob, id_is, entry_is, is_repeat_job_registered, Shows, IsShown,
}

starts_with-append :
    (part s : Text) → starts_with part s ≡ true → (after : Text) × (s ≡ part ++ after)
unfolding starts_with
starts_with-append [] s h = (s, refl)
starts_with-append (a ∷ part) [] h = cc
starts_with-append (a ∷ part) (b ∷ s) h =
    let same : a ≡ b = ground arith in
    let (after, e) = starts_with-append part s (ground arith) in
    (after, rw same (ap (λ t. b ∷ t) e))

includes-append :
    (part s : Text)
    → includes part s ≡ true
    → (before : Text) × (after : Text) × (s ≡ before ++ (part ++ after))
unfolding includes
includes-append part [] h = let (after, e) = starts_with-append part [] h in ([], after, e)
includes-append part (c ∷ s) h = elim (Bool-cases (starts_with part (c ∷ s))) [
  | inl here ↦ let (after, e) = starts_with-append part (c ∷ s) here in ([], after, e)
  | inr later ↦
      let (before, after, e) = includes-append part s (rw later at h) in
      (c ∷ before, after, ap (λ t. c ∷ t) e)
]

id_is-some : (job_id : Text) (id : Option Text) → id_is job_id id ≡ true → id ≡ some job_id
id_is-some job_id none h = cc
id_is-some job_id (some i) h = ap some ((text_eq_iff i job_id).0 h)

entry_is-Shows : (job_id : Text) (e : RepeatableJob) → entry_is job_id e ≡ true → Shows job_id e
unfolding entry_is
entry_is-Shows job_id e h = elim (Bool-cases (id_is job_id e.id)) [
  | inl same ↦ inl (id_is-some job_id e.id same)
  | inr differ ↦ inr (includes-append job_id e.key (rw differ at h))
]

pub registered-IsShown :
    (entries : List RepeatableJob) (job_id : Text)
    → is_repeat_job_registered entries job_id ≡ true
    → IsShown job_id entries
unfolding is_repeat_job_registered
registered-IsShown [] job_id h = cc
registered-IsShown (e ∷ entries) job_id h = elim (Bool-cases (entry_is job_id e)) [
  | inl here ↦ inl (entry_is-Shows job_id e here)
  | inr later ↦ inr (registered-IsShown entries job_id (rw later at h))
]
