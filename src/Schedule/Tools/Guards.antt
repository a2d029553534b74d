-- ===== src/Schedule/Tools/Guards.antt =====
-- What the tools of deviceActuatorScheduler.tools.ts do on a device that is not an actuator.
use mathlib.Core.Option.{some_inj}
use ginem_api.Common.{ℕ, false, ◌≡◌, refl, sym, inl, inr, Option, none, some, List}
use ginem_api.Common.Int.{ℤ}
use ginem_api.Common.Text.{Text}
use ginem_api.Common.Exec.{Thrown, app_error, other, ok}
use ginem_api.Store.{World, Reply, DeviceRow, State}
use ginem_api.Store.Calls.{advance}
use ginem_api.Device.Found.{find_by_name-cases}
use ginem_api.Device.{device_named}
use ginem_api.Schedule.Queue.{JobQueue, Scheduler}
use ginem_api.Schedule.Jobs.{is_actuator}
use ginem_api.Schedule.Tools.{
  not_actuator, turn, set_actuator_state_by_device_name, ScheduleRequest, schedule_if_actuator,
  schedule_actuator_state_at, answer_app_error,
}

-- No device was found, or one that is not an actuator.
unfoldable pub NotActuator : Option DeviceRow → Type 0
NotActuator none = Unit
NotActuator (some d) = is_actuator d.device_type ≡ false

NotActuator-some :
    (found : Option DeviceRow) (d : DeviceRow)
    → found ≡ some d
    → NotActuator found
    → is_actuator d.device_type ≡ false
unfolding NotActuator
NotActuator-some none d e h = cc
NotActuator-some (some c) d e h = rw (sym (some_inj.0 e)) h

turn-refused :
    (name : Text) (state : State) (d : DeviceRow) (v : World)
    → is_actuator d.device_type ≡ false
    → (turn name state d v).1 ≡ v
unfolding turn
turn-refused name state d v h = rw h refl

-- On a name whose device is missing or no actuator, turning it on or off changes nothing but the
-- time and the environment's script, and so publishes nothing, whichever calls fail.
pub set_actuator_state-refused :
    (name : Text) (state : State) (w : World)
    → NotActuator (device_named name w.db.devices)
    → (t : ℕ) × (rest : List Reply) × ((set_actuator_state_by_device_name name state w).1
        ≡ advance t rest w)
unfolding set_actuator_state_by_device_name NotActuator
set_actuator_state-refused name state w h =
    let (t, rest, ends) = find_by_name-cases name w in
    (
      t,
      rest,
      elim ends [
        | inl (e, thrown) ↦ rw thrown refl
        | inr (d, found, returned) ↦
            rw returned
              (turn-refused name state d (advance t rest w) (NotActuator-some _ d found h))
      ],
    )

module _ (q : JobQueue) (parse_other : ℤ → ℤ → ℤ → ℤ → ℤ → Option ℕ) where
  answer_app_error-state :
      (e : Thrown) (s : Scheduler q) → (answer_app_error {S = Scheduler q} e s).1 ≡ s
  unfolding answer_app_error
  answer_app_error-state (app_error status message) s = refl
  answer_app_error-state other s = refl

  schedule_if_actuator-refused :
      (p : ScheduleRequest) (state : State) (d : DeviceRow) (s : Scheduler q)
      → is_actuator d.device_type ≡ false
      → schedule_if_actuator q parse_other p state d s
        ≡ (ok (not_actuator p.device_name d.device_type), s)
  unfolding schedule_if_actuator
  schedule_if_actuator-refused p state d s h = rw h refl

  -- On a name whose device is missing or no actuator, the tool that schedules an actuator leaves the
  -- queue as it is, and of the rest changes nothing but the time and the environment's script,
  -- whatever it is asked to schedule and whichever calls fail.
  pub schedule_actuator_state_at-refused :
      (p : ScheduleRequest) (state : State) (w : World) (jobs : q.Jobs)
      → NotActuator (device_named p.device_name w.db.devices)
      → (t : ℕ) × (rest : List Reply) × ((schedule_actuator_state_at q parse_other p state
            (w, jobs)).1
          ≡ (advance t rest w, jobs))
  unfolding schedule_actuator_state_at
  schedule_actuator_state_at-refused p state w jobs h =
      let (t, rest, ends) = find_by_name-cases p.device_name w in
      (
        t,
        rest,
        elim ends [
          | inl (e, thrown) ↦ rw thrown (answer_app_error-state e (advance t rest w, jobs))
          | inr (d, found, returned) ↦
              rw
                (
                  returned,
                  schedule_if_actuator-refused p state d (advance t rest w, jobs)
                      (NotActuator-some _ d found h),
                )
                refl
        ],
      )
