-- ===== src/Rule/Management/Update.antt =====
-- services/rule/RuleManagement.service.ts: `update`.
use ginem_api.Common.{
  ℕ, not, ◌&&◌, none, some, List, [], ◌∷◌, map, filter, ◌==◌, if◌then◌else◌, or_else,
}
use ginem_api.Common.Text.{Text, codes}
use ginem_api.Common.Exec.{Exec, pure, catch, rethrow, ◌>>=◌, ◌>>◌}
use ginem_api.Store.{
  DeviceRow, RuleRow, World, CachedRule, CachedRuleCondition, CachedRuleAction, Db, db_call,
  transaction, update_db,
}
use ginem_api.Rule.Management.{
  ConditionInput, ActionInput, CreateRule, UpdateRule, resolve_device_by_name,
  assert_trigger_device, assert_action_device, refresh_cache, find_by_id,
}
use ginem_api.Rule.Management.Changes.{
  condition_row, action_row, trigger_row, insert_trigger, insert_condition, insert_action,
}

abbrev kept_condition : CachedRuleCondition → ConditionInput
kept_condition c = record {
  device_name = some c.device_name;
  metric = c.metric;
  operator = c.operator;
  threshold = c.threshold;
  unit = c.unit;
}

abbrev kept_action : CachedRuleAction → ActionInput
kept_action a = record { device_name = a.device_name; state = a.state }

-- The stored rule with the fields that the payload gives.
unfoldable pub merged : UpdateRule → CachedRule → CreateRule
merged p existing = record {
  name = some (or_else p.name existing.name);
  original_prompt = or_else p.original_prompt existing.original_prompt;
  condition_logic = or_else p.condition_logic existing.condition_logic;
  cooldown_sec = or_else p.cooldown_sec existing.cooldown_sec;
  is_active = or_else p.is_active existing.is_active;
  user_id = none;
  trigger =
      or_else p.trigger
        (record { device_name = existing.trigger.device_name; metric = existing.trigger.metric });
  conditions = or_else p.conditions (map kept_condition existing.conditions);
  actions = or_else p.actions (map kept_action existing.actions);
}

-- `RuleModel.update(…, { where: { ruleId } })`
unfoldable pub rewrite_rules : UpdateRule → CachedRule → List RuleRow → List RuleRow
unfolding merged
rewrite_rules p existing [] = []
rewrite_rules p existing (r ∷ rules) =
    (if not r.destroyed && r.rule_id == p.rule_id
      then record r {
        name = or_else p.name existing.name;
        original_prompt = or_else p.original_prompt existing.original_prompt;
        condition_logic = or_else p.condition_logic existing.condition_logic;
        cooldown_sec = or_else p.cooldown_sec existing.cooldown_sec;
        is_active = or_else p.is_active existing.is_active;
      }
      else r)
    ∷ rewrite_rules p existing rules

unfoldable pub recreate_conditions : ℕ → Text → List ConditionInput → Exec World (Unit {0})
unfolding insert_condition
recreate_conditions id trigger_name [] = pure tt
recreate_conditions id trigger_name (c ∷ cs) = do
  device ← resolve_device_by_name (or_else c.device_name trigger_name)
  db_call (insert_condition (condition_row id c device))
  recreate_conditions id trigger_name cs

unfoldable pub recreate_actions : ℕ → List ActionInput → Exec World (Unit {0})
unfolding insert_action
recreate_actions id [] = pure tt
recreate_actions id (a ∷ as') = do
  device ← resolve_device_by_name a.device_name
  assert_action_device device
  db_call (insert_action (action_row id a device))
  recreate_actions id as'

abbrev pub rewrite_row : UpdateRule → CachedRule → Db → Db
rewrite_row p existing db = record db { rules = rewrite_rules p existing db.rules }

-- `destroy({ where: { ruleId }, force: true })`
abbrev pub drop_triggers : ℕ → Db → Db
drop_triggers id db = record db { triggers = filter (λ t. not (t.rule_id == id)) db.triggers }

abbrev pub drop_conditions : ℕ → Db → Db
drop_conditions id db = record db { conditions = filter (λ c. not (c.rule_id == id)) db.conditions }

abbrev pub drop_actions : ℕ → Db → Db
drop_actions id db = record db { actions = filter (λ a. not (a.rule_id == id)) db.actions }

-- The row is rewritten, the old parts are destroyed and the trigger is created.
unfoldable pub reset_rows : UpdateRule → CachedRule → CreateRule → DeviceRow → Exec World (Unit {0})
unfolding rewrite_rules insert_trigger
reset_rows p existing next trigger_device = do
  db_call (update_db (rewrite_row p existing))
  db_call (update_db (drop_triggers p.rule_id))
  db_call (update_db (drop_conditions p.rule_id))
  db_call (update_db (drop_actions p.rule_id))
  db_call (insert_trigger (trigger_row p.rule_id next.trigger trigger_device))

unfoldable pub update_rows :
    UpdateRule → CachedRule → CreateRule → DeviceRow → Exec World (Unit {0})
update_rows p existing next trigger_device = do
  reset_rows p existing next trigger_device
  recreate_conditions p.rule_id next.trigger.device_name next.conditions
  recreate_actions p.rule_id next.actions

unfoldable pub update_body : UpdateRule → Exec World CachedRule
update_body p = do
  existing ← find_by_id p.rule_id
  trigger_device ← resolve_device_by_name (merged p existing).trigger.device_name
  assert_trigger_device trigger_device
  transaction (update_rows p existing (merged p existing) trigger_device)
  refresh_cache
  find_by_id p.rule_id

unfoldable pub update : UpdateRule → Exec World CachedRule
update p = catch (update_body p) (rethrow (codes "Failed to update rule"))
