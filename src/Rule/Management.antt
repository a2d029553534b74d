-- ===== src/Rule/Management.antt =====
-- services/rule/RuleManagement.service.ts: rules are created, changed and removed in the tables,
-- each change in one transaction, and the cache is rebuilt after it.
pub mod Changes
pub mod Update
pub mod Rows
pub mod Reads
pub mod AllOrNothing
pub mod Fresh
pub mod Removal
pub mod Merged
pub mod Recreated
pub mod Replacement
pub mod Listing
pub mod Ordered
pub mod Tests
use ginem_api.Common.{
  ℕ, suc, ◌+◌, Bool, true, false, ◌&&◌, not, Option, none, some, List, [], ◌∷◌, ◌++◌, map, find,
  filter, ◌==◌, if◌then◌else◌, or_else,
}
use ginem_api.Common.Int.{ℤ}
use ginem_api.Common.Text.{Text, codes, text_eq, trim, to_lower_case}
use ginem_api.Common.Exec.{
  Exec, Result, ok, err, pure, throw, gets, lift, modify, catch, rethrow, not_found, app_error,
  internal_server_error, and_then, ◌>>=◌, ◌>>◌,
}
use ginem_api.Store.{
  DeviceRow, DeviceType, sensor, actuator, hybrid, State, RuleConditionLogic, RuleOperator, RuleRow,
  RuleTriggerRow, RuleConditionRow, RuleActionRow, Db, World, CachedRule, CachedRuleTrigger,
  CachedRuleCondition, CachedRuleAction, db_call, transaction, update_db,
}
use ginem_api.Device.{device_named, device_with_id, or_not_found}
use ginem_api.Rule.Cache.{set_rules}

pub record TriggerInput : Type 0 where
  pub device_name : Text
  pub metric : Text

pub record ConditionInput : Type 0 where
  pub device_name : Option Text
  pub metric : Text
  pub operator : RuleOperator
  pub threshold : ℤ
  pub unit : Option Text

pub record ActionInput : Type 0 where
  pub device_name : Text
  pub state : State

pub record CreateRule : Type 0 where
  pub name : Option Text
  pub original_prompt : Text
  pub condition_logic : RuleConditionLogic
  pub cooldown_sec : ℕ
  pub is_active : Bool
  pub user_id : Option ℕ
  pub trigger : TriggerInput
  pub conditions : List ConditionInput
  pub actions : List ActionInput

pub record UpdateRule : Type 0 where
  pub rule_id : ℕ
  pub name : Option Text
  pub original_prompt : Option Text
  pub condition_logic : Option RuleConditionLogic
  pub cooldown_sec : Option ℕ
  pub is_active : Option Bool
  pub trigger : Option TriggerInput
  pub conditions : Option (List ConditionInput)
  pub actions : Option (List ActionInput)

-- `device?.deviceName ?? ''` of the joined device
unfoldable pub name_of : Option DeviceRow → Text
name_of none = []
name_of (some d) = d.device_name

unfoldable pub joined_name : Db → ℕ → Text
unfolding name_of
joined_name db id = name_of (find (λ d. not d.destroyed && d.device_id == id) db.devices)

unfoldable pub serialize_condition : Db → RuleConditionRow → CachedRuleCondition
unfolding joined_name
serialize_condition db c = record {
  device_id = c.device_id;
  device_name = joined_name db c.device_id;
  metric = c.metric;
  operator = c.operator;
  threshold = c.threshold;
  unit = c.unit;
}

unfoldable pub serialize_action : Db → RuleActionRow → CachedRuleAction
unfolding joined_name
serialize_action db a = record {
  device_id = a.device_id;
  device_name = joined_name db a.device_id;
  state = a.state;
}

unfoldable pub serialize_with : Db → RuleRow → List RuleTriggerRow → Result CachedRule
unfolding serialize_condition serialize_action
serialize_with db rule [] = err (app_error internal_server_error (codes "Rule is missing trigger"))
serialize_with db rule (trigger_row ∷ _) = ok (record {
  rule_id = rule.rule_id;
  name = rule.name;
  original_prompt = rule.original_prompt;
  condition_logic = rule.condition_logic;
  is_active = rule.is_active;
  cooldown_sec = rule.cooldown_sec;
  last_triggered_at = rule.last_triggered_at;
  trigger = record {
    device_id = trigger_row.device_id;
    device_name = joined_name db trigger_row.device_id;
    metric = trigger_row.metric;
  };
  conditions = map (serialize_condition db) (filter (λ c. c.rule_id == rule.rule_id) db.conditions);
  actions = map (serialize_action db) (filter (λ a. a.rule_id == rule.rule_id) db.actions);
})

-- A row with what `ruleInclude` joins to it, as `serializeRule` shows it.
unfoldable pub serialize_rule : Db → RuleRow → Result CachedRule
unfolding serialize_with
serialize_rule db rule =
    serialize_with db rule (filter (λ t. t.rule_id == rule.rule_id) db.triggers)

unfoldable pub serialize_all : Db → List RuleRow → Result (List CachedRule)
unfolding serialize_rule
serialize_all db [] = ok []
serialize_all db (r ∷ rows) =
    and_then (serialize_rule db r) λ c. and_then (serialize_all db rows) λ rest. ok (c ∷ rest)

unfoldable pub is_live_rule : RuleRow → Bool
is_live_rule r = not r.deleted && not r.destroyed

unfoldable pub rule_with_id : ℕ → Db → Option RuleRow
unfolding is_live_rule
rule_with_id id db = find (λ r. is_live_rule r && r.rule_id == id) db.rules

unfoldable pub resolve_device_by_name : Text → Exec World DeviceRow
resolve_device_by_name name = do
  found ← db_call (gets (λ w. device_named name w.db.devices))
  or_not_found (codes "Device not found: " ++ name) found

unfoldable pub is_trigger_device : DeviceType → Bool
is_trigger_device sensor = true
is_trigger_device actuator = false
is_trigger_device hybrid = true

unfoldable pub is_action_device : DeviceType → Bool
is_action_device sensor = false
is_action_device actuator = true
is_action_device hybrid = true

unfoldable pub type_name : DeviceType → Text
type_name sensor = codes "sensor"
type_name actuator = codes "actuator"
type_name hybrid = codes "hybrid"

unfoldable pub assert_trigger_device : DeviceRow → Exec World (Unit {0})
unfolding is_trigger_device
assert_trigger_device d =
    if is_trigger_device d.device_type
    then pure tt
    else throw (
        app_error 400 (
          codes "Device \""
          ++ (d.device_name
              ++ (codes "\" cannot be a rule trigger (type="
                  ++ (type_name d.device_type ++ codes "). Use sensor or hybrid.")))))

unfoldable pub assert_action_device : DeviceRow → Exec World (Unit {0})
unfolding is_action_device
assert_action_device d =
    if is_action_device d.device_type
    then pure tt
    else throw (
        app_error 400 (
          codes "Device \""
          ++ (d.device_name
              ++ (codes "\" cannot be a rule action target (type="
                  ++ (type_name d.device_type ++ codes "). Use actuator or hybrid.")))))

-- The active rules, as one query shows them.
unfoldable pub active_rules : Db → Result (List CachedRule)
unfolding is_live_rule
active_rules db = serialize_all db (filter (λ r. is_live_rule r && r.is_active) db.rules)

unfoldable pub refresh_cache : Exec World (Unit {0})
refresh_cache = do
  rows ← db_call (gets (λ w. active_rules w.db))
  rules ← lift rows
  modify (λ w. record w { cache = set_rules rules w.cache })

unfoldable pub find_rule : ℕ → Db → Option (Result CachedRule)
find_rule id db = elim (rule_with_id id db) [ none ↦ none | some r ↦ some (serialize_rule db r) ]

unfoldable pub find_by_id : ℕ → Exec World CachedRule
unfolding find_rule
find_by_id id =
    catch
      (do
        found ← db_call (gets (λ w. find_rule id w.db))
        rule ← or_not_found (codes "Rule not found") found
        lift rule)
      (rethrow (codes "Failed to get rule"))
