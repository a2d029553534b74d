-- ===== src/Mqtt.antt =====
-- services/mqtt/topics.ts and the dispatch of messages in services/mqtt/MQTT.service.ts. The broker,
-- the client and the listeners are outside: a message is a topic and the text of a payload, and what
-- comes out is the calls of listeners. `JSON.parse` is the parameter `json_parse`.
pub mod Topics
pub mod Ingest
mod Tests
use ginem_api.Common.{
  ℕ, zero, suc, ◌+◌, ◌-◌, ◌*◌, Bool, true, false, ◌&&◌, ◌||◌, Option, none, some, List, [], ◌∷◌,
  ◌++◌, drop, length, leb, ◌==◌, if◌then◌else◌,
}
use ginem_api.Rule.Telemetry.{Json, str}
use ginem_api.Common.Int.{ℤ, pos, negsuc}
use ginem_api.Common.Text.{
  Text, codes, text_eq, starts_with, is_digit, is_space, trim_start, number_from, show_nat,
}

pub data Channel : Type 0 where
  state command telemetry : Channel

unfoldable pub channel_name : Channel → Text
channel_name state = codes "state"
channel_name command = codes "command"
channel_name telemetry = codes "telemetry"

abbrev pub topic_prefix : Text
topic_prefix = codes "iot/v1/device/"

-- `deviceCommandTopic`, `deviceStateTopic` and `deviceTelemetryTopic`
unfoldable pub device_topic : Channel → ℕ → Text
unfolding channel_name
device_topic channel device_id = topic_prefix ++ (show_nat device_id ++ b'/' ∷ channel_name channel)

-- `([^/]+)` and what follows: the text before the first slash, and the text from there.
unfoldable pub segment : Text → Text × Text
segment [] = ([], [])
segment (c ∷ s) =
    let (before, after) = segment s in if c == b'/' then ([], c ∷ s) else (c ∷ before, after)

abbrev pub non_empty_if : Bool → Text → Option Text
non_empty_if true (c ∷ s) = some (c ∷ s)
non_empty_if true [] = none
non_empty_if false s = none

-- `topic.match(PATTERN)`: the group of the pattern of a channel.
unfoldable pub match_topic : Channel → Text → Option Text
unfolding segment channel_name
match_topic channel topic =
    if starts_with topic_prefix topic
    then (let (group, after) = segment (drop (length topic_prefix) topic) in
        non_empty_if (text_eq after (b'/' ∷ channel_name channel)) group)
    else none

unfoldable pub digits_prefix : Text → Text
digits_prefix [] = []
digits_prefix (c ∷ s) = let rest = digits_prefix s in if is_digit c then c ∷ rest else []

-- `a`–`f` and `A`–`F` have the values 10 to 15.
unfoldable pub hex_value : ℕ → Option ℕ
hex_value c =
    if is_digit c
    then some (c - b'0')
    else if leb b'a' c && leb c b'f'
    then some (c - b'a' + 10)
    else if leb b'A' c && leb c b'F'
    then some (c - b'A' + 10)
    else none

unfoldable pub hex_from : Option ℕ → Text → Option ℕ
unfolding hex_value
hex_from acc [] = acc
hex_from acc (c ∷ s) =
    let next : ℕ → Option ℕ =
      λ v. hex_from (some (elim acc [ none ↦ v | some n ↦ n * 16 + v ])) s in
    elim (hex_value c) [ none ↦ acc | some v ↦ next v ]

abbrev pub decimal_from : Text → Option ℕ
decimal_from [] = none
decimal_from (c ∷ s) = some (number_from 0 (c ∷ s))

unfoldable pub parse_magnitude : Text → Option ℕ
unfolding hex_from digits_prefix
parse_magnitude s =
    if starts_with (codes "0x") s || starts_with (codes "0X") s
    then hex_from none (drop 2 s)
    else decimal_from (digits_prefix s)

abbrev pub negated : ℕ → ℤ
negated zero = pos zero
negated (suc n) = negsuc n

abbrev pub signed : (ℕ → ℤ) → Option ℕ → Option ℤ
signed f none = none
signed f (some n) = some (f n)

abbrev pub parse_signed : Text → Option ℤ
parse_signed [] = none
parse_signed (c ∷ s) =
    if c == b'-'
    then signed negated (parse_magnitude s)
    else if c == b'+'
    then signed pos (parse_magnitude s)
    else signed pos (parse_magnitude (c ∷ s))

-- `parseInt(s)`, `none` for NaN
unfoldable pub parse_int : Text → Option ℤ
unfolding parse_magnitude trim_start
parse_int s = parse_signed (trim_start s)

-- The key of the map that an id finds.
abbrev pub same_id : ℤ → Option ℤ → Bool
same_id id none = false
same_id (pos n) (some (pos m)) = n == m
same_id (pos n) (some (negsuc m)) = false
same_id (negsuc n) (some (pos m)) = false
same_id (negsuc n) (some (negsuc m)) = n == m

-- A call of the listeners of a channel, with the id that was read off the topic.
pub record Delivery : Type 0 where
  pub channel : Channel
  pub device_id : Option ℤ
  pub payload : Json

-- The last status of every device, by what `parseInt` gave for its id.
pub record MqttState : Type 0 where
  pub last_state_by_device : List (Option ℤ × Json)
  pub deliveries : List Delivery

abbrev pub deliver : Channel → Option ℤ → Json → MqttState → MqttState
deliver channel id payload s = record s {
  deliveries =
      s.deliveries ++ (record { channel = channel; device_id = id; payload = payload }) ∷ [];
}

-- `recordDeviceState`: the newest entry stands first, and is the one that is read.
unfoldable pub record_device_state : Option ℤ → Json → MqttState → MqttState
record_device_state id payload s = record s {
  last_state_by_device = (id, payload) ∷ s.last_state_by_device;
}

abbrev pub handle_match : Channel → Option Text → Json → MqttState → MqttState
handle_match channel none payload s = s
handle_match state (some group) payload s =
    deliver state (parse_int group) payload (record_device_state (parse_int group) payload s)
handle_match command (some group) payload s = deliver command (parse_int group) payload s
handle_match telemetry (some group) payload s = deliver telemetry (parse_int group) payload s

-- `JSON.parse(raw)`, or the text itself where that throws.
unfoldable pub parse_payload : (Text → Option Json) → Text → Json
parse_payload json_parse raw = elim (json_parse raw) [ none ↦ str raw | some parsed ↦ parsed ]

-- The three patterns, each tried in turn.
unfoldable pub dispatch : Text → Json → MqttState → MqttState
unfolding match_topic parse_int record_device_state
dispatch topic parsed s = handle_match telemetry (match_topic telemetry topic) parsed (
    handle_match command (match_topic command topic) parsed
      (handle_match state (match_topic state topic) parsed s))

unfoldable pub handle_incoming_message : (Text → Option Json) → Text → Text → MqttState → MqttState
unfolding parse_payload dispatch
handle_incoming_message json_parse topic raw s = dispatch topic (parse_payload json_parse raw) s

-- `getLastDeviceState(deviceId)?.payload`
unfoldable pub get_last_device_state : ℤ → List (Option ℤ × Json) → Option Json
get_last_device_state id [] = none
get_last_device_state id ((k, payload) ∷ states) =
    let rest = get_last_device_state id states in if same_id id k then some payload else rest
