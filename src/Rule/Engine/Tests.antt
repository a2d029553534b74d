-- ===== src/Rule/Engine/Tests.antt =====
-- services/rule/RuleEngine.service.ts and telemetryMetrics.ts: runs on a small cache, and uses of
-- the theorems.
use ginem_api.Common.{
  ℕ, ◌≡◌, ◌+◌, ◌*◌, ◌<◌, refl, true, false, Option, none, some, [], ◌∷◌, arith, inl, List,
}
use ginem_api.Common.Int.{ℤ, pos}
use ginem_api.Common.Text.{Text, codes, number_from, text_eq, to_lower_case, lower}
use ginem_api.Common.Exec.{ok}
use ginem_api.Store.{CachedRule, World, Reply, on, gt, and, actuator, online, db_call}
use ginem_api.Store.Commands.{Added}
use ginem_api.Device.{
  create_device_log, device_with_id, or_not_found, logs_of, latest, insert_device_log,
}
use ginem_api.Rule.Cache.{touch_last_triggered, touch_first}
use ginem_api.Rule.Telemetry.{
  Json, num, str, object, get, or_value, field, end, resolve_metric_reading,
  parse_telemetry_metrics,
}
use ginem_api.Rule.Telemetry.Laws.{
  LowerKeys, parse_telemetry_metrics-LowerKeys, explicit_payload_reads,
}
use ginem_api.Rule.Engine.Refused.{FailsOwn, evaluate_conditions-refused}
use ginem_api.Store.Calls.{advance}
use ginem_api.Rule.Engine.Readings.{SensorEvent, holds, evaluate_operator}
use ginem_api.Rule.Engine.{
  evaluate_conditions, evaluate_one, evaluate, fire, run_actions, should_skip_action, run_action,
  skip_by_log, skip_by_status, logged_state, publish_actuator_state,
}
use ginem_api.Rule.Engine.Triggered.{CommandOfAny, evaluate-CommandOfAny}
use ginem_api.Rule.Engine.Completes.{evaluate-returns}
use ginem_api.Rule.Engine.Cooldown.{cached, fire-cools}

-- A reader of numbers that knows only decimal digits, and a parser that reads no text.
abbrev digits_only : Text → Option ℤ
digits_only s = some (pos (number_from 0 s))

abbrev no_json : Text → Option Json
no_json s = none

abbrev fan_rule : CachedRule
fan_rule = record {
  rule_id = 1;
  name = codes "cool";
  original_prompt = codes "turn on the fan above 28";
  condition_logic = and;
  is_active = true;
  cooldown_sec = 60;
  last_triggered_at = some 1000;
  trigger = record { device_id = 1; device_name = codes "dht"; metric = codes "temperature" };
  conditions =
      (record {
        device_id = 1;
        device_name = codes "dht";
        metric = codes "temperature";
        operator = gt;
        threshold = pos 28;
        unit = none;
      })
      ∷ [];
  actions = (record { device_id = 2; device_name = codes "fan"; state = on }) ∷ [];
}

abbrev hot : SensorEvent
hot = record { device_id = 1; metrics = (codes "temperature", pos 31) ∷ []; received_at = 61000 }

abbrev world_at : ℕ → World
world_at now = record {
  db = record {
    devices = [];
    device_logs = [];
    rules = [];
    triggers = [];
    conditions = [];
    actions = [];
    execution_logs = [];
    scheduler_logs = [];
    users = [];
    llm_models = [];
  };
  next_rule_id = 2;
  next_device_log_id = 1;
  next_device_id = 3;
  next_scheduler_log_id = 1;
  next_user_id = 1;
  job_id_counter = 0;
  cache = record { rules = fan_rule ∷ []; loaded = true };
  commands = [];
  last_state = λ _. none;
  now = now;
  script = [];
}

evaluate-CommandOfAny_example :
    Added
      (CommandOfAny hot (fan_rule ∷ []))
      (world_at 61000)
      (evaluate digits_only no_json hot (world_at 61000)).1
evaluate-CommandOfAny_example = evaluate-CommandOfAny digits_only no_json hot (world_at 61000)

evaluate-returns_example : (evaluate digits_only no_json hot (world_at 61000)).0 ≡ ok tt
evaluate-returns_example = evaluate-returns digits_only no_json hot (world_at 61000)

-- The fan's rule fires at 61 seconds, and rests at 62.
abbrev with_fan : World
with_fan = record (world_at 61000) {
  db = record (world_at 61000).db {
    devices =
        (record {
          device_id = 2;
          device_name = codes "fan";
          device_token = codes "fck_2";
          device_description = none;
          device_type = actuator;
          device_status = online;
          device_firmware_version = none;
          device_metadata = none;
          deleted = false;
          destroyed = false;
        })
        ∷ [];
  };
}

abbrev fired_fan : CachedRule
fired_fan = record fan_rule { last_triggered_at = some 61000 }

fan_fires : (fire fan_rule hot 61000 [] with_fan).0 ≡ ok tt
unfolding fire run_actions should_skip_action run_action create_device_log device_with_id
    or_not_found db_call logs_of latest skip_by_log logged_state touch_last_triggered touch_first
    publish_actuator_state skip_by_status insert_device_log
fan_fires = refl

fan_cached : cached 1 (fire fan_rule hot 61000 [] with_fan).1.cache.rules ≡ some fired_fan
unfolding fire run_actions should_skip_action run_action create_device_log device_with_id
    or_not_found db_call logs_of latest skip_by_log logged_state touch_last_triggered touch_first
    publish_actuator_state skip_by_status insert_device_log
fan_cached = refl

-- The fan rests until 121 seconds.
fan_rests : 62000 < (run_actions fan_rule.actions with_fan).1.now + 60 * 1000
unfolding run_actions should_skip_action run_action create_device_log device_with_id or_not_found
    db_call logs_of latest skip_by_log logged_state touch_last_triggered touch_first
    publish_actuator_state skip_by_status insert_device_log
fan_rests = (omega arith)

fire-cools_example :
    evaluate_one digits_only no_json fired_fan hot 62000 (world_at 62000) ≡ (ok tt, world_at 62000)
fire-cools_example =
    fire-cools digits_only no_json fan_rule hot 61000 [] with_fan fired_fan hot 62000
      (world_at 62000) fan_fires fan_cached (omega arith) fan_rests

abbrev humidity_60 : Json
humidity_60 =
    object
      (field (codes "metric") (str (codes "Humidity")) (field (codes "value") (num (pos 60)) end))

parse_telemetry_metrics-LowerKeys_example :
    LowerKeys (parse_telemetry_metrics digits_only no_json humidity_60)
parse_telemetry_metrics-LowerKeys_example =
    parse_telemetry_metrics-LowerKeys digits_only no_json humidity_60

explicit_payload_reads_example :
    resolve_metric_reading
      (parse_telemetry_metrics digits_only no_json humidity_60)
      (codes "temperature")
    ≡ some (pos 60)
explicit_payload_reads_example =
    explicit_payload_reads digits_only no_json (codes "Humidity") (codes "temperature") (pos 60)

-- The rule waits for more than 28.
abbrev cold : SensorEvent
cold = record { device_id = 1; metrics = (codes "temperature", pos 28) ∷ []; received_at = 61000 }

cold_fails : FailsOwn cold fan_rule.conditions
unfolding resolve_metric_reading get or_value text_eq to_lower_case lower holds evaluate_operator
cold_fails = inl (refl, refl)

evaluate_conditions-refused_example :
    (t : ℕ) × (rest : List Reply) × ((evaluate_conditions digits_only no_json fan_rule cold 61000
        (world_at 61000)).1
      ≡ advance t rest (world_at 61000))
evaluate_conditions-refused_example =
    evaluate_conditions-refused digits_only no_json fan_rule cold 61000 (world_at 61000) refl
      cold_fails
