-- ===== src/Mqtt/Topics.antt =====
-- services/mqtt/topics.ts and MQTT.service.ts: a message on a device's topic reaches the listeners of
-- that channel, with that device's id.
use ginem_api.Common.{
  ℕ, zero, suc, ◌/◌, ◌≡◌, refl, ap, ◌∙◌, Bool, true, false, ◌||◌, Option, ◌⊎◌, ◌≢◌, none, some, [],
  ◌∷◌, ◌++◌, ltb, ◌==◌, All, All-append, arith, if◌then◌else◌, Bool-cases, inl, inr,
}
use ginem_api.Common.Int.{pos}
use ginem_api.Common.Text.{
  Text, codes, text_eq, starts_with, is_digit, is_space, trim_start, number_from, show_nat,
  digits_upto, number_from-show_nat,
}
use ginem_api.Rule.Telemetry.{Json, str}
use ginem_api.Mqtt.{
  Channel, state, command, telemetry, channel_name, topic_prefix, device_topic, segment,
  match_topic, digits_prefix, non_empty_if, parse_magnitude, parse_signed, parse_int, MqttState,
  record_device_state, handle_match, dispatch, parse_payload, get_last_device_state,
  handle_incoming_message,
}

abbrev Digit : ℕ → Type 0
Digit c = is_digit c ≡ true

digits_upto-Digit : (fuel n : ℕ) → All Digit (digits_upto fuel n)
unfolding digits_upto is_digit
digits_upto-Digit zero n = tt
digits_upto-Digit (suc fuel) n = elim (Bool-cases (ltb n 10)) [
  | inl small ↦ rw small (ground arith, tt)
  | inr large ↦ rw large (
      All-append Digit (digits_upto fuel (n / 10)) _ (digits_upto-Digit fuel (n / 10))
        (ground arith, tt))
]

-- A text is not empty.
abbrev Starts : Text → Type 0
Starts [] = ⊥
Starts (c ∷ s) = Unit

Starts-append : (s : Text) (c : ℕ) → Starts (s ++ c ∷ [])
Starts-append [] c = tt
Starts-append (d ∷ s) c = tt

show_nat-Starts : (n : ℕ) → Starts (show_nat n)
unfolding show_nat digits_upto
show_nat-Starts n = elim (Bool-cases (ltb n 10)) [
  | inl small ↦ rw small tt
  | inr large ↦ rw large (Starts-append _ _)
]

show_nat-Digit : (n : ℕ) → All Digit (show_nat n)
unfolding show_nat
show_nat-Digit n = digits_upto-Digit (suc n) n

segment-digits : (s rest : Text) → All Digit s → segment (s ++ b'/' ∷ rest) ≡ (s, b'/' ∷ rest)
unfolding segment is_digit
segment-digits [] rest h = refl
segment-digits (c ∷ s) rest (d, h) =
    let other : (c == b'/') ≡ false = ground arith in rw (other, segment-digits s rest h) refl

digits_prefix-digits : (s : Text) → All Digit s → digits_prefix s ≡ s
unfolding digits_prefix
digits_prefix-digits [] h = refl
digits_prefix-digits (c ∷ s) (d, h) = rw (d, digits_prefix-digits s h) refl

trim_start-Digit : (c : ℕ) (s : Text) → Digit c → trim_start (c ∷ s) ≡ c ∷ s
unfolding trim_start is_space is_digit
trim_start-Digit c s d = ground arith

not_hex :
    (c : ℕ) (s : Text)
    → Digit c
    → All Digit s
    → starts_with (codes "0x") (c ∷ s) || starts_with (codes "0X") (c ∷ s) ≡ false
unfolding starts_with is_digit
not_hex c [] d h = ground arith
not_hex c (e ∷ s) d (h, hs) = ground arith

parse_magnitude-digits :
    (c : ℕ) (s : Text)
    → Digit c
    → All Digit s
    → parse_magnitude (c ∷ s) ≡ some (number_from 0 (c ∷ s))
unfolding parse_magnitude
parse_magnitude-digits c s d h = rw (not_hex c s d h, digits_prefix-digits (c ∷ s) (d, h)) refl

parse_signed-digits :
    (c : ℕ) (s : Text)
    → Digit c
    → All Digit s
    → parse_signed (c ∷ s) ≡ some (pos (number_from 0 (c ∷ s)))
parse_signed-digits c s d h =
    let no_minus : (c == b'-') ≡ false = unfold is_digit in ground arith in
    let no_plus : (c == b'+') ≡ false = unfold is_digit in ground arith in
    rw (no_minus, no_plus, parse_magnitude-digits c s d h) refl

parse_int-digits : (s : Text) → Starts s → All Digit s → parse_int s ≡ some (pos (number_from 0 s))
unfolding parse_int
parse_int-digits [] h d = elim h [ ]
parse_int-digits (c ∷ s) h (d, ds) = rw (trim_start-Digit c s d) (parse_signed-digits c s d ds)

-- `parseInt` of the decimal digits of a number.
parse_int-show_nat : (n : ℕ) → parse_int (show_nat n) ≡ some (pos n)
parse_int-show_nat n =
    parse_int-digits (show_nat n) (show_nat-Starts n) (show_nat-Digit n)
    ∙ ap (λ m. some (pos m)) (number_from-show_nat n)

non_empty_if-Starts :
    (b : Bool) (s : Text) → Starts s → non_empty_if b s ≡ (if b then some s else none)
non_empty_if-Starts true [] h = elim h [ ]
non_empty_if-Starts true (c ∷ s) h = refl
non_empty_if-Starts false s h = refl

abbrev same_channel : Channel → Channel → Bool
same_channel state state = true
same_channel command command = true
same_channel telemetry telemetry = true
same_channel state command = false
same_channel state telemetry = false
same_channel command state = false
same_channel command telemetry = false
same_channel telemetry state = false
same_channel telemetry command = false

text_eq-channel_name :
    (c d : Channel) → text_eq (b'/' ∷ channel_name d) (b'/' ∷ channel_name c) ≡ same_channel c d
unfolding text_eq channel_name
text_eq-channel_name state state = refl
text_eq-channel_name state command = refl
text_eq-channel_name state telemetry = refl
text_eq-channel_name command state = refl
text_eq-channel_name command command = refl
text_eq-channel_name command telemetry = refl
text_eq-channel_name telemetry state = refl
text_eq-channel_name telemetry command = refl
text_eq-channel_name telemetry telemetry = refl

starts_with-prefix : (s : Text) → starts_with topic_prefix (topic_prefix ++ s) ≡ true
unfolding starts_with
starts_with-prefix s = refl

-- The pattern of a channel matches the topics of that channel alone, and finds the device's id.
match_topic-device_topic :
    (c d : Channel) (id : ℕ)
    → match_topic c (device_topic d id) ≡ (if same_channel c d then some (show_nat id) else none)
unfolding match_topic device_topic
match_topic-device_topic c d id =
    rw
      (
        starts_with-prefix (show_nat id ++ b'/' ∷ channel_name d),
        segment-digits (show_nat id) (channel_name d) (show_nat-Digit id),
        text_eq-channel_name c d,
      )
      (non_empty_if-Starts (same_channel c d) (show_nat id) (show_nat-Starts id))

-- The payload of a text: what `JSON.parse` makes of it, or the text where that throws.
abbrev pub Reads : (Text → Option Json) → Text → Json → Type 0
Reads json_parse raw payload =
    (json_parse raw ≡ some payload) ⊎ ((json_parse raw ≡ none) × (payload ≡ str raw))

-- The last state of a device after a message.
abbrev pub LastState : Channel → Json → Option Json → Option Json → Type 0
LastState state payload before after = after ≡ some payload
LastState command payload before after = after ≡ before
LastState telemetry payload before after = after ≡ before

-- What a message on the topic of a device does.
pub record Received (json_parse : Text → Option Json) (channel : Channel) (id : ℕ) (raw : Text)
    (s s' : MqttState) : Type 0 where
  pub payload : Json
  pub reads : Reads json_parse raw payload
  pub called :
      s'.deliveries
      ≡ s.deliveries
        ++ (record { channel = channel; device_id = some (pos id); payload = payload }) ∷ []
  pub recorded :
      LastState channel payload
        (get_last_device_state (pos id) s.last_state_by_device)
        (get_last_device_state (pos id) s'.last_state_by_device)
  pub others :
      (other : ℕ)
      → other ≢ id
      → get_last_device_state (pos other) s'.last_state_by_device
        ≡ get_last_device_state (pos other) s.last_state_by_device

parsed_or_raw :
    (json_parse : Text → Option Json) (raw : Text) (parsed : Option Json)
    → json_parse raw ≡ parsed
    → Reads json_parse raw (elim parsed [ none ↦ str raw | some j ↦ j ])
parsed_or_raw json_parse raw none e = inr (e, refl)
parsed_or_raw json_parse raw (some j) e = inl e

parse_payload-Reads :
    (json_parse : Text → Option Json) (raw : Text)
    → Reads json_parse raw (parse_payload json_parse raw)
unfolding parse_payload
parse_payload-Reads json_parse raw = parsed_or_raw json_parse raw (json_parse raw) refl

dispatch-device_topic :
    (channel : Channel) (id : ℕ) (payload : Json) (s : MqttState)
    → dispatch (device_topic channel id) payload s
      ≡ handle_match channel (some (show_nat id)) payload s
unfolding dispatch
dispatch-device_topic state id payload s =
    rw
      (
        match_topic-device_topic telemetry state id,
        match_topic-device_topic command state id,
        match_topic-device_topic state state id,
      )
      refl
dispatch-device_topic command id payload s =
    rw
      (
        match_topic-device_topic telemetry command id,
        match_topic-device_topic command command id,
        match_topic-device_topic state command id,
      )
      refl
dispatch-device_topic telemetry id payload s =
    rw
      (
        match_topic-device_topic telemetry telemetry id,
        match_topic-device_topic command telemetry id,
        match_topic-device_topic state telemetry id,
      )
      refl

last_recorded :
    (other id : ℕ) (payload : Json) (s : MqttState)
    → get_last_device_state
        (pos other)
        (record_device_state (some (pos id)) payload s).last_state_by_device
      ≡ (if other == id
          then some payload
          else get_last_device_state (pos other) s.last_state_by_device)
unfolding record_device_state get_last_device_state
last_recorded other id payload s = refl

matched-Received :
    (json_parse : Text → Option Json) (channel : Channel) (id : ℕ) (raw : Text) (s : MqttState)
    → Received json_parse channel id raw s
        (handle_match channel (some (show_nat id)) (parse_payload json_parse raw) s)
matched-Received json_parse state id raw s = rw (parse_int-show_nat id) (record {
  payload = parse_payload json_parse raw;
  reads = parse_payload-Reads json_parse raw;
  called = unfold record_device_state in refl;
  recorded = last_recorded id id (parse_payload json_parse raw) s ∙ ground arith;
  others = λ other ne. last_recorded other id (parse_payload json_parse raw) s ∙ ground (arith, ne);
})
matched-Received json_parse command id raw s = rw (parse_int-show_nat id) (record {
  payload = parse_payload json_parse raw;
  reads = parse_payload-Reads json_parse raw;
  called = refl;
  recorded = refl;
  others = λ other ne. refl;
})
matched-Received json_parse telemetry id raw s = rw (parse_int-show_nat id) (record {
  payload = parse_payload json_parse raw;
  reads = parse_payload-Reads json_parse raw;
  called = refl;
  recorded = refl;
  others = λ other ne. refl;
})

-- A message on the topic that the code publishes to for a device calls the listeners of that channel
-- alone, once, with the id of that device and the payload that `JSON.parse` makes of the text, or the
-- text where that throws; after a message on the topic of states the last state of that device is
-- that payload, after another it is as before, and that of every other device always stays.
pub handle_incoming_message-device_topic :
    (json_parse : Text → Option Json) (channel : Channel) (id : ℕ) (raw : Text) (s : MqttState)
    → Received json_parse channel id raw s
        (handle_incoming_message json_parse (device_topic channel id) raw s)
unfolding handle_incoming_message
handle_incoming_message-device_topic json_parse channel id raw s =
    rw (dispatch-device_topic channel id (parse_payload json_parse raw) s)
      (matched-Received json_parse channel id raw s)
