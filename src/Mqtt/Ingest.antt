-- ===== src/Mqtt/Ingest.antt =====
-- services/mqtt/Telemetry.service.ts: what the listener of telemetry does with a payload. The text
-- that `String` makes of a value is the parameter `text_of`; that a device has its id as a natural
-- number is read off the topic before. The evaluation of the rules, which the source starts without
-- waiting for it, runs here to its end.
pub mod Unknown
use ginem_api.Common.{ℕ, Bool, true, false, Option, none, some, List, [], ◌∷◌, if◌then◌else◌}
use ginem_api.Common.Int.{ℤ}
use ginem_api.Common.Text.{Text, codes}
use ginem_api.Common.Exec.{Exec, pure, gets, catch, ◌>>=◌, ◌>>◌}
use ginem_api.Store.{World}
use ginem_api.Device.{create_device_log}
use ginem_api.Device.Service.{device_exists}
use ginem_api.Rule.Telemetry.{
  Json, null, bool, num, str, array, object, Metrics, member, parse_telemetry_metrics,
}
use ginem_api.Rule.Engine.{evaluate}

module _ (text_of : Json → Text) where
  abbrev pub value_text : Option Json → Option Text
  value_text none = none
  value_text (some null) = none
  value_text (some (bool b)) = some (text_of (bool b))
  value_text (some (num n)) = some (text_of (num n))
  value_text (some (str s)) = some (text_of (str s))
  value_text (some (array s)) = some (text_of (array s))
  value_text (some (object fs)) = some (text_of (object fs))

  -- An array has no property of this name.
  unfoldable pub extract_value_as_string : Json → Option Text
  unfolding member
  extract_value_as_string (object fs) = value_text (member (codes "value") fs)
  extract_value_as_string null = none
  extract_value_as_string (bool b) = none
  extract_value_as_string (num n) = none
  extract_value_as_string (str s) = none
  extract_value_as_string (array s) = none

  module _ (number_of : Text → Option ℤ) (json_parse : Text → Option Json) where
    -- `RuleEngine.evaluate(…).catch(…)`, if there are metrics
    unfoldable pub evaluate_metrics : ℕ → Metrics → Exec World (Unit {0})
    unfolding evaluate
    evaluate_metrics id [] = pure tt
    evaluate_metrics id (m ∷ metrics) =
        catch
          (do
            received_at ← gets (λ (w : World). w.now)
            evaluate number_of json_parse
                (record { device_id = id; metrics = m ∷ metrics; received_at = received_at }))
          (λ _. pure tt)

    unfoldable pub log_telemetry : ℕ → Json → Option Text → Exec World (Unit {0})
    unfolding create_device_log evaluate_metrics parse_telemetry_metrics
    log_telemetry id payload none = pure tt
    log_telemetry id payload (some device_log_data) = do
      row ← create_device_log id device_log_data
      evaluate_metrics id (parse_telemetry_metrics number_of json_parse payload)

    -- The listener; what is thrown is logged.
    unfoldable pub ingest_telemetry : ℕ → Json → Exec World (Unit {0})
    unfolding device_exists extract_value_as_string log_telemetry
    ingest_telemetry id payload =
        catch
          (do
            known ← device_exists id
            if known then log_telemetry id payload (extract_value_as_string payload) else pure tt)
          (λ _. pure tt)
