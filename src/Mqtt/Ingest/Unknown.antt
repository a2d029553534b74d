-- ===== src/Mqtt/Ingest/Unknown.antt =====
-- services/mqtt/Telemetry.service.ts: telemetry of a device that the tables do not have is dropped.
use ginem_api.Common.{ℕ, ◌≡◌, refl, false, Option, none, List, inl, inr}
use ginem_api.Common.Int.{ℤ}
use ginem_api.Common.Text.{Text}
use ginem_api.Common.Exec.{Result, ok, gets, not_found}
use ginem_api.Store.{World, Reply}
use ginem_api.Store.Calls.{advance, db_call-cases}
use ginem_api.Device.{device_with_id, or_not_found}
use ginem_api.Device.Service.{find_device_by_id, device_exists}
use ginem_api.Rule.Telemetry.{Json}
use ginem_api.Mqtt.Ingest.{ingest_telemetry}

-- The action ends with that result and changes nothing but the time and the environment's script.
abbrev pub EndsQuietly : {A : Type 0} → Result A → World → Result A × World → Type 0
EndsQuietly r w end = (t : ℕ) × (rest : List Reply) × (end ≡ (r, advance t rest w))

device_exists-unknown :
    (id : ℕ) (w : World)
    → device_with_id id w.db.devices ≡ none
    → EndsQuietly (ok false) w (device_exists id w)
unfolding device_exists find_device_by_id or_not_found not_found
device_exists-unknown id w unknown =
    let (t, rest, cases) = db_call-cases (gets (λ (w : World). device_with_id id w.db.devices)) w in
    elim cases [
      | inl failed ↦ (t, rest, rw failed refl)
      | inr made ↦ (t, rest, rw (made, unknown) refl)
    ]

module _ (text_of : Json → Text) (number_of : Text → Option ℤ)
    (json_parse : Text → Option Json) where
  -- Telemetry of a device that is not in the tables, or is removed, changes nothing but the time and
  -- the environment's script, and the listener returns: no log row is written and no rule is
  -- evaluated, whatever the payload is and whichever calls fail.
  pub ingest_telemetry-unknown :
      (id : ℕ) (payload : Json) (w : World)
      → device_with_id id w.db.devices ≡ none
      → EndsQuietly (ok tt) w (ingest_telemetry text_of number_of json_parse id payload w)
  unfolding ingest_telemetry
  ingest_telemetry-unknown id payload w unknown =
      let (t, rest, quiet) = device_exists-unknown id w unknown in (t, rest, rw quiet refl)
