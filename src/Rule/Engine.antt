-- ===== src/Rule/Engine.antt =====
-- services/rule/RuleEngine.service.ts: a telemetry event is evaluated against the cached rules of
-- its device. An evaluation runs to its end before the next begins, so a rule that the loop holds
-- is the one in the cache. The execution log's row leaves out the raw payload.
pub mod Readings
pub mod Published
pub mod Triggered
pub mod Completes
pub mod Cooldown
pub mod Refused
pub mod Tests
use ginem_api.Common.{
  ℕ, suc, ◌+◌, ◌-◌, ◌*◌, Bool, true, false, ◌&&◌, ◌||◌, not, Option, none, some, List, [], ◌∷◌,
  ◌++◌, map, every, any, ltb, ◌==◌, if◌then◌else◌,
}
use ginem_api.Common.Int.{ℤ, ltb_ℤ}
use ginem_api.Common.Text.{Text, codes, text_eq, to_lower_case}
use ginem_api.Common.Exec.{
  Exec, Result, Thrown, ok, err, pure, throw, gets, modify, catch, ◌>>=◌, ◌>>◌,
}
use ginem_api.Store.{
  State, on, off, DeviceLogRow, RuleConditionLogic, and, or, RuleOperator, gt, ge, lt, le, eq, ne,
  RuleRow, ConditionDetail, ActionDetail, skipped, published, Execution, fired, failed,
  RuleExecutionLogRow, Db, CachedRule, CachedRuleCondition, CachedRuleAction, World, db_call,
  update_db,
}
use ginem_api.Device.{logs_of, latest, create_device_log, state_value}
use ginem_api.Rule.Cache.{find_by_trigger_device, touch_last_triggered}
use ginem_api.Rule.Telemetry.{
  Json, null, bool, num, str, array, object, Fields, member, Metrics, resolve_metric_reading,
}
use ginem_api.Rule.Engine.Readings.{SensorEvent, condition_details}

-- `now - last < cooldownSec * 1000`, with the subtraction taken to the other side: the difference
-- may be negative.
unfoldable pub cooling : ℕ → ℕ → Option ℕ → Bool
cooling now cooldown_sec none = false
cooling now cooldown_sec (some last) =
    not (cooldown_sec == 0) && ltb now (last + cooldown_sec * 1000)

unfoldable pub is_in_cooldown : CachedRule → ℕ → Bool
unfolding cooling
is_in_cooldown rule now = cooling now rule.cooldown_sec rule.last_triggered_at

unfoldable pub state_of : Text → Option State
state_of s =
    if text_eq s (codes "1") || text_eq (to_lower_case s) (codes "on")
    then some on
    else if text_eq s (codes "0") || text_eq (to_lower_case s) (codes "off")
    then some off
    else none

abbrev pub state_eq : State → State → Bool
state_eq on on = true
state_eq on off = false
state_eq off on = false
state_eq off off = true

abbrev pub state_text : State → Text
state_text on = codes "on"
state_text off = codes "off"

-- What `getLastDeviceState` says, by the `state` text of the device's last status.
unfoldable pub skip_by_status : Option Text → State → Bool
skip_by_status none desired = false
skip_by_status (some s) desired = text_eq (to_lower_case s) (state_text desired)

unfoldable pub skip_by_log : Option State → Option Text → State → Bool
unfolding skip_by_status
skip_by_log (some current) status desired = state_eq current desired
skip_by_log none status desired = skip_by_status status desired

unfoldable pub logged_state : Option DeviceLogRow → Option State
unfolding state_of
logged_state none = none
logged_state (some row) = state_of row.device_log_data

unfoldable pub should_skip_action : ℕ → State → Exec World Bool
unfolding skip_by_log logged_state
should_skip_action device_id desired =
    catch
      (do
        last ← db_call (gets (λ w. latest (logs_of device_id w.db.device_logs)))
        gets (λ w. skip_by_log (logged_state last) (w.last_state device_id) desired))
      (λ _. pure false)

-- `MQTTService.publishActuatorState`
unfoldable pub publish_actuator_state : ℕ → State → Exec World (Unit {0})
publish_actuator_state device_id state =
    modify (λ w. record w { commands = w.commands ++ (device_id, state) ∷ [] })

unfoldable pub run_action : CachedRuleAction → Bool → Exec World ActionDetail
unfolding publish_actuator_state
run_action action true = pure (skipped action.device_id action.state)
run_action action false = do
  log ← create_device_log action.device_id (state_value action.state)
  publish_actuator_state action.device_id action.state
  pure (published action.device_id action.state log.device_log_id log.device_log_data)

unfoldable pub run_actions : List CachedRuleAction → Exec World (List ActionDetail)
run_actions [] = pure []
run_actions (action ∷ actions) = do
  skip ← should_skip_action action.device_id action.state
  detail ← run_action action skip
  rest ← run_actions actions
  pure (detail ∷ rest)

-- `results.every(Boolean)` or `results.some(Boolean)`
unfoldable pub passes : RuleConditionLogic → List ConditionDetail → Bool
passes and details = every (λ (d : ConditionDetail). d.ok) details
passes or details = any (λ (d : ConditionDetail). d.ok) details

unfoldable pub touch_rules : ℕ → ℕ → List RuleRow → List RuleRow
touch_rules id at [] = []
touch_rules id at (r ∷ rules) =
    (if not r.destroyed && r.rule_id == id then record r { last_triggered_at = some at } else r)
    ∷ touch_rules id at rules

unfoldable pub insert_execution_log : RuleExecutionLogRow → Exec World (Unit {0})
insert_execution_log row =
    update_db (λ db. record db { execution_logs = db.execution_logs ++ row ∷ [] })

abbrev pub log_row : CachedRule → SensorEvent → ℕ → Execution → ℕ → RuleExecutionLogRow
log_row rule event started execution now = record {
  rule_id = rule.rule_id;
  device_id = event.device_id;
  metrics = event.metrics;
  received_at = event.received_at;
  execution = execution;
  latency_ms = now - started;
}

-- The actions of a rule whose conditions hold, and the record of its firing.
unfoldable pub fire : CachedRule → SensorEvent → ℕ → List ConditionDetail → Exec World (Unit {0})
unfolding touch_rules insert_execution_log
fire rule event started details = do
  results ← run_actions rule.actions
  fired_at ← gets (λ w. w.now)
  db_call (update_db (λ db. record db { rules = touch_rules rule.rule_id fired_at db.rules }))
  modify (λ w. record w { cache = touch_last_triggered rule.rule_id fired_at w.cache })
  now ← gets (λ w. w.now)
  db_call (
      insert_execution_log
        (log_row rule event started (fired rule.condition_logic details results) now))

module _ (number_of : Text → Option ℤ) (json_parse : Text → Option Json) where
  unfoldable pub evaluate_conditions : CachedRule → SensorEvent → ℕ → Exec World (Unit {0})
  evaluate_conditions rule event started = do
    details ← condition_details number_of json_parse event rule.conditions
    if passes rule.condition_logic details then fire rule event started details else pure tt

  unfoldable pub evaluate_triggered :
      CachedRule → SensorEvent → ℕ → Option ℤ → ℕ → Exec World (Unit {0})
  evaluate_triggered rule event started none now = pure tt
  evaluate_triggered rule event started (some reading) now =
      if is_in_cooldown rule now then pure tt else evaluate_conditions rule event started

  unfoldable pub evaluate_one : CachedRule → SensorEvent → ℕ → Exec World (Unit {0})
  unfolding evaluate_triggered
  evaluate_one rule event started = do
    now ← gets (λ w. w.now)
    evaluate_triggered rule event started (resolve_metric_reading event.metrics rule.trigger.metric)
        now

  -- A failed evaluation is logged, and a failure to log it is dropped.
  unfoldable pub evaluate_safely : CachedRule → SensorEvent → ℕ → Exec World (Unit {0})
  evaluate_safely rule event started = catch (evaluate_one rule event started) λ _.
      catch
        (do
          now ← gets (λ w. w.now)
          db_call (insert_execution_log (log_row rule event started failed now)))
        (λ _. pure tt)

  unfoldable pub evaluate_all : List CachedRule → SensorEvent → ℕ → Exec World (Unit {0})
  evaluate_all [] event started = pure tt
  evaluate_all (rule ∷ rules) event started = do
    evaluate_safely rule event started
    evaluate_all rules event started

  unfoldable pub evaluate : SensorEvent → Exec World (Unit {0})
  evaluate event = do
    started ← gets (λ w. w.now)
    candidates ← gets (λ w. find_by_trigger_device event.device_id w.cache)
    evaluate_all candidates event started
