-- ===== src/Device/Found.antt =====
-- The two ends of the search for a device by its name (services/device/Device.service.ts).
use ginem_api.Common.{
  ℕ, ◌≡◌, ◌≢◌, refl, ◌∙◌, ap, sym, ◌⊎◌, inl, inr, ◌+◌, Bool, true, false, [], ◌∷◌, Option, none,
  some, List,
}
use ginem_api.Common.Text.{Text, codes}
use ginem_api.Common.Exec.{
  Exec, Result, Thrown, app_error, other, handle, continue, not_found, ok, err, gets, catch,
  rethrow,
}
use ginem_api.Store.{World, Reply, answered, DeviceRow, db_call}
use ginem_api.Store.Calls.{advance, db_call-cases, ok-injective}
use ginem_api.Device.{find_by_name, device_named, or_not_found}

abbrev found_by_name : Option DeviceRow → Exec World DeviceRow
found_by_name found =
    catch (or_not_found (codes "Device not found") found)
      (rethrow (codes "Failed to get device by name"))

-- The two ends of a search for a device that found `found`.
abbrev pub Ends : Option DeviceRow → Result DeviceRow × World → World → Type 0
Ends found r v =
    ((e : Thrown) × (r ≡ (err e, v))) ⊎ ((d : DeviceRow) × (found ≡ some d) × (r ≡ (ok d, v)))

found_by_name-Ends : (found : Option DeviceRow) (v : World) → Ends found (found_by_name found v) v
unfolding or_not_found not_found
found_by_name-Ends none v = inl (_, refl)
found_by_name-Ends (some d) v = inr (d, refl, refl)

pub find_by_name-cases :
    (name : Text) (w : World)
    → (t : ℕ) × (rest : List Reply) × Ends
        (device_named name w.db.devices)
        (find_by_name name w)
        (advance t rest w)
unfolding find_by_name
find_by_name-cases name w =
    let (t, rest, cases) = db_call-cases (gets (λ (v : World). device_named name v.db.devices)) w in
    (
      t,
      rest,
      elim cases [
        | inl failed ↦ rw failed (inl (_, refl))
        | inr made ↦
            rw made (found_by_name-Ends (device_named name w.db.devices) (advance t rest w))
      ],
    )

err-ne-ok : {e : Thrown} {d : DeviceRow} → err e ≢ ok d
err-ne-ok h = cc

-- A search that returns gives the device that the tables have, and changes nothing but the time and
-- the environment's script.
pub find_by_name-eq-ok :
    (name : Text) (w : World) {d : DeviceRow}
    → (find_by_name name w).0 ≡ ok d
    → (device_named name w.db.devices ≡ some d)
      × (t : ℕ) × (rest : List Reply) × ((find_by_name name w).1 ≡ advance t rest w)
find_by_name-eq-ok name w h =
    let (t, rest, ends) = find_by_name-cases name w in
    elim ends [
      | inl (e, thrown) ↦
          absurd (err-ne-ok (sym (ap (λ (x : Result DeviceRow × World). x.0) thrown) ∙ h))
      | inr (c, found, returned) ↦ (
        found
            ∙ ap some
                (ok-injective (sym (ap (λ (x : Result DeviceRow × World). x.0) returned) ∙ h)),
        t,
        rest,
        ap (λ (x : Result DeviceRow × World). x.1) returned,
      )
    ]

-- What the clock reads after the next database call.
abbrev pub clock_after_call : List Reply → ℕ → ℕ
clock_after_call [] now = now
clock_after_call (r ∷ script) now = now + r.elapsed

made_or_failed-now :
    {A : Type 0} (fails : Bool) (f : World → A) (w : World)
    → (elim fails as (λ _. Result A × World) [ true ↦ (err other, w) | false ↦ gets f w ]).1.now
      ≡ w.now
made_or_failed-now true f w = refl
made_or_failed-now false f w = refl

query-now :
    {A : Type 0} (f : World → A) (script : List Reply) (w : World)
    → (answered script (gets f) w).1.now ≡ clock_after_call script w.now
unfolding answered
query-now f [] w = refl
query-now f (r ∷ rest) w =
    made_or_failed-now r.fails f (record w { now = w.now + r.elapsed; script = rest })

state_of_search :
    (r : Result (Option DeviceRow)) (w : World)
    → (handle
        (rethrow (codes "Failed to get device by name"))
        (continue r (or_not_found (codes "Device not found")) w).0
        (continue r (or_not_found (codes "Device not found")) w).1).1
      ≡ w
unfolding or_not_found not_found
state_of_search (ok none) w = refl
state_of_search (ok (some d)) w = refl
state_of_search (err (app_error status text)) w = refl
state_of_search (err other) w = refl

-- The search for a device takes one database call.
pub find_by_name-now :
    (name : Text) (w : World) → (find_by_name name w).1.now ≡ clock_after_call w.script w.now
unfolding find_by_name db_call
find_by_name-now name w =
    let query = λ (v : World). device_named name v.db.devices in
    ap (λ (v : World). v.now)
      (state_of_search (answered w.script (gets query) w).0 (answered w.script (gets query) w).1)
    ∙ query-now query w.script w
