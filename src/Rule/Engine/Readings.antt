-- ===== src/Rule/Engine/Readings.antt =====
-- services/rule/RuleEngine.service.ts: the event, and the readings on which the conditions of a rule
-- are decided.
use ginem_api.Common.{
  ℕ, Bool, true, false, ◌&&◌, ◌||◌, not, Option, none, some, List, [], ◌∷◌, ◌==◌, if◌then◌else◌,
}
use ginem_api.Common.Int.{ℤ, ltb_ℤ}
use ginem_api.Common.Text.{Text, codes, to_lower_case}
use ginem_api.Common.Exec.{Exec, pure, gets, catch, ◌>>=◌}
use ginem_api.Store.{
  DeviceLogRow, RuleOperator, gt, ge, lt, le, eq, ne, ConditionDetail, CachedRuleCondition, World,
  db_call,
}
use ginem_api.Device.{logs_of, latest}
use ginem_api.Rule.Telemetry.{
  Json, null, bool, num, str, array, object, member, Metrics, resolve_metric_reading,
}

pub record SensorEvent : Type 0 where
  pub device_id : ℕ
  pub metrics : Metrics
  pub received_at : ℕ

-- The `default` case of the switch is left out: the type has no other operator.
unfoldable pub evaluate_operator : ℤ → RuleOperator → ℤ → Bool
evaluate_operator reading gt threshold = ltb_ℤ threshold reading
evaluate_operator reading ge threshold = not (ltb_ℤ reading threshold)
evaluate_operator reading lt threshold = ltb_ℤ reading threshold
evaluate_operator reading le threshold = not (ltb_ℤ threshold reading)
evaluate_operator reading eq threshold =
    not (ltb_ℤ reading threshold) && not (ltb_ℤ threshold reading)
evaluate_operator reading ne threshold = ltb_ℤ reading threshold || ltb_ℤ threshold reading

unfoldable pub holds : Option ℤ → CachedRuleCondition → Bool
holds none condition = false
holds (some reading) condition = evaluate_operator reading condition.operator condition.threshold

abbrev pub condition_detail : CachedRuleCondition → Option ℤ → ConditionDetail
condition_detail c reading = record {
  device_id = c.device_id;
  metric = c.metric;
  operator = c.operator;
  threshold = c.threshold;
  reading = reading;
  ok = holds reading c;
}

module _ (number_of : Text → Option ℤ) (json_parse : Text → Option Json) where
  -- `Number(raw)` if finite: of `null` as of the empty text, of a Boolean as of 1 and 0, of an array
  -- as of its text.
  unfoldable pub number_of_json : Option Json → Option ℤ
  number_of_json none = none
  number_of_json (some null) = number_of []
  number_of_json (some (bool true)) = number_of (codes "1")
  number_of_json (some (bool false)) = number_of (codes "0")
  number_of_json (some (num n)) = some n
  number_of_json (some (str s)) = number_of s
  number_of_json (some (array s)) = number_of s
  number_of_json (some (object _)) = none

  -- `parsed[key] ?? parsed.value`
  unfoldable pub member_or_value : Option Json → Option Json → Option Json
  member_or_value (some (bool b)) value = some (bool b)
  member_or_value (some (num n)) value = some (num n)
  member_or_value (some (str s)) value = some (str s)
  member_or_value (some (array s)) value = some (array s)
  member_or_value (some (object o)) value = some (object o)
  member_or_value (some null) value = value
  member_or_value none value = value

  -- The members of a parsed value that is no object are `undefined`.
  unfoldable pub parsed_metric : Text → Option Json → Option ℤ
  unfolding number_of_json member_or_value
  parsed_metric metric (some (object o)) =
      number_of_json (member_or_value (member (to_lower_case metric) o) (member (codes "value") o))
  parsed_metric metric (some null) = none
  parsed_metric metric (some (bool _)) = none
  parsed_metric metric (some (num _)) = none
  parsed_metric metric (some (str _)) = none
  parsed_metric metric (some (array _)) = none
  parsed_metric metric none = none

  unfoldable pub logged_metric : Text → Option DeviceLogRow → Option ℤ
  unfolding parsed_metric
  logged_metric metric none = none
  logged_metric metric (some row) = elim (number_of row.device_log_data) [
    | some n ↦ some n
    | none ↦ parsed_metric metric (json_parse row.device_log_data)
  ]

  unfoldable pub read_last_device_metric : ℕ → Text → Exec World (Option ℤ)
  unfolding logged_metric
  read_last_device_metric device_id metric =
      catch
        (do
          row ← db_call (gets (λ w. latest (logs_of device_id w.db.device_logs)))
          pure (logged_metric metric row))
        (λ _. pure none)

  unfoldable pub condition_reading : SensorEvent → CachedRuleCondition → Exec World (Option ℤ)
  condition_reading event c =
      if c.device_id == event.device_id
      then pure (resolve_metric_reading event.metrics c.metric)
      else read_last_device_metric c.device_id c.metric

  unfoldable pub condition_details :
      SensorEvent → List CachedRuleCondition → Exec World (List ConditionDetail)
  unfolding condition_reading
  condition_details event [] = pure []
  condition_details event (c ∷ cs) = do
    reading ← condition_reading event c
    rest ← condition_details event cs
    pure (condition_detail c reading ∷ rest)
