-- ===== src/Mqtt/Tests.antt =====
-- services/mqtt/: the topic of a device, and uses of the theorems.
use ginem_api.Common.{◌≡◌, refl, Option, none, some, []}
use ginem_api.Common.Int.{ℤ, pos}
use ginem_api.Common.Text.{
  Text, codes, show_nat, number_from, starts_with, text_eq, is_space, is_digit,
}
use ginem_api.Common.Exec.{ok}
use ginem_api.Store.Samples.{empty_world}
use ginem_api.Device.{device_with_id}
use ginem_api.Rule.Telemetry.{Json, str, num, object, field, end}
use ginem_api.Mqtt.{
  MqttState, state, telemetry, device_topic, handle_incoming_message, get_last_device_state,
}
use ginem_api.Mqtt.Topics.{Received, handle_incoming_message-device_topic}
use ginem_api.Mqtt.Ingest.{ingest_telemetry}
use ginem_api.Mqtt.Ingest.Unknown.{EndsQuietly, ingest_telemetry-unknown}

topic_of_12 : device_topic telemetry 12 ≡ codes "iot/v1/device/12/telemetry"
unfolding device_topic show_nat
topic_of_12 = refl

abbrev nothing_yet : MqttState
nothing_yet = record { last_state_by_device = []; deliveries = [] }

abbrev always_one : Json → Text
always_one j = codes "1"

abbrev digits_only : Text → Option ℤ
digits_only s = some (pos (number_from 0 s))

abbrev no_json : Text → Option Json
no_json s = none

handle_incoming_message-device_topic_example :
    Received no_json state 12
      (codes "on")
      nothing_yet
      (handle_incoming_message no_json (device_topic state 12) (codes "on") nothing_yet)
handle_incoming_message-device_topic_example =
    handle_incoming_message-device_topic no_json state 12 (codes "on") nothing_yet

last_state_of_12 :
    get_last_device_state
      (pos 12)
      (handle_incoming_message no_json
        (codes "iot/v1/device/12/state")
        (codes "on")
        nothing_yet).last_state_by_device
    ≡ some (str (codes "on"))
unfolding handle_incoming_message get_last_device_state starts_with text_eq is_space is_digit
    number_from
last_state_of_12 = refl

abbrev reading : Json
reading = object (field (codes "value") (num (pos 1)) end)

unknown : device_with_id 12 empty_world.db.devices ≡ none
unfolding device_with_id
unknown = refl

ingest_telemetry-unknown_example :
    EndsQuietly
      (ok tt)
      empty_world
      (ingest_telemetry always_one digits_only no_json 12 reading empty_world)
ingest_telemetry-unknown_example =
    ingest_telemetry-unknown always_one digits_only no_json 12 reading empty_world unknown
