-- ===== src/Rule/Management/Changes.antt =====
-- services/rule/RuleManagement.service.ts: `create`, `setActive`, `remove` and `update`.
use ginem_api.Common.{
  ℕ, ◌+◌, Bool, true, false, none, some, List, [], ◌∷◌, ◌++◌, map, ◌==◌, if◌then◌else◌, or_else,
}
use ginem_api.Common.Text.{Text, codes, text_eq, trim, to_lower_case}
use ginem_api.Common.Exec.{Exec, ok, pure, gets, catch, rethrow, ◌>>=◌, ◌>>◌}
use ginem_api.Store.{
  DeviceRow, RuleRow, RuleTriggerRow, RuleConditionRow, RuleActionRow, World, CachedRule, db_call,
  transaction, update_db,
}
use ginem_api.Device.{or_not_found}
use ginem_api.Rule.Management.{
  TriggerInput, ConditionInput, ActionInput, CreateRule, rule_with_id, resolve_device_by_name,
  assert_trigger_device, assert_action_device, refresh_cache, find_by_id,
}

-- `metric.trim().toLowerCase()`
unfoldable pub metric_key : Text → Text
metric_key metric = to_lower_case (trim metric)

abbrev pub condition_row : ℕ → ConditionInput → DeviceRow → RuleConditionRow
condition_row id c device = record {
  rule_id = id;
  device_id = device.device_id;
  metric = metric_key c.metric;
  operator = c.operator;
  threshold = c.threshold;
  unit = c.unit;
  deleted = false;
}

abbrev pub action_row : ℕ → ActionInput → DeviceRow → RuleActionRow
action_row id a device = record {
  rule_id = id;
  device_id = device.device_id;
  state = a.state;
  deleted = false;
}

abbrev pub trigger_row : ℕ → TriggerInput → DeviceRow → RuleTriggerRow
trigger_row id t device = record {
  rule_id = id;
  device_id = device.device_id;
  metric = metric_key t.metric;
  deleted = false;
}

-- The devices of the conditions, in order; a condition that names none is about the trigger's.
unfoldable pub condition_devices : Text → List ConditionInput → Exec World (List DeviceRow)
condition_devices trigger_name [] = pure []
condition_devices trigger_name (c ∷ cs) = do
  device ← resolve_device_by_name (or_else c.device_name trigger_name)
  rest ← condition_devices trigger_name cs
  pure (device ∷ rest)

unfoldable pub action_devices : List ActionInput → Exec World (List DeviceRow)
action_devices [] = pure []
action_devices (a ∷ as') = do
  device ← resolve_device_by_name a.device_name
  assert_action_device device
  rest ← action_devices as'
  pure (device ∷ rest)

unfoldable pub join : List Text → Text
join [] = []
join (s ∷ []) = s
join (s ∷ (t ∷ rest)) = s ++ (codes ", " ++ join (t ∷ rest))

unfoldable pub rule_name : CreateRule → Text
unfolding join
rule_name p =
    let fallback =
      codes "Rule: "
      ++ (p.trigger.device_name
          ++ (codes " → " ++ join (map (λ (a : ActionInput). a.device_name) p.actions))) in
    elim p.name [
      | none ↦ fallback
      | some name ↦ if text_eq (trim name) [] then fallback else trim name
    ]

-- `RuleModel.create` with the next id
unfoldable pub insert_rule : CreateRule → Exec World ℕ
unfolding rule_name
insert_rule p w = (
  ok w.next_rule_id,
  record w {
    db = record w.db {
      rules =
          w.db.rules
          ++ (record {
            rule_id = w.next_rule_id;
            name = rule_name p;
            original_prompt = p.original_prompt;
            condition_logic = p.condition_logic;
            is_active = p.is_active;
            cooldown_sec = p.cooldown_sec;
            last_triggered_at = none;
            user_id = p.user_id;
            deleted = false;
            destroyed = false;
          })
            ∷ [];
    };
    next_rule_id = w.next_rule_id + 1;
  },
)

unfoldable pub insert_trigger : RuleTriggerRow → Exec World (Unit {0})
insert_trigger row = update_db (λ db. record db { triggers = db.triggers ++ row ∷ [] })

unfoldable pub insert_condition : RuleConditionRow → Exec World (Unit {0})
insert_condition row = update_db (λ db. record db { conditions = db.conditions ++ row ∷ [] })

unfoldable pub insert_action : RuleActionRow → Exec World (Unit {0})
insert_action row = update_db (λ db. record db { actions = db.actions ++ row ∷ [] })

-- The conditions meet their devices in the order of the lists, which are equally long.
unfoldable pub insert_conditions : ℕ → List ConditionInput → List DeviceRow → Exec World (Unit {0})
unfolding insert_condition
insert_conditions id [] devices = pure tt
insert_conditions id (c ∷ cs) [] = pure tt
insert_conditions id (c ∷ cs) (d ∷ devices) = do
  db_call (insert_condition (condition_row id c d))
  insert_conditions id cs devices

unfoldable pub insert_actions : ℕ → List ActionInput → List DeviceRow → Exec World (Unit {0})
unfolding insert_action
insert_actions id [] devices = pure tt
insert_actions id (a ∷ as') [] = pure tt
insert_actions id (a ∷ as') (d ∷ devices) = do
  db_call (insert_action (action_row id a d))
  insert_actions id as' devices

-- The rows that refer to the new rule.
unfoldable pub insert_parts :
    CreateRule → DeviceRow → List DeviceRow → List DeviceRow → ℕ → Exec World ℕ
insert_parts p trigger_device for_conditions for_actions id = do
  db_call (insert_trigger (trigger_row id p.trigger trigger_device))
  insert_conditions id p.conditions for_conditions
  insert_actions id p.actions for_actions
  pure id

unfoldable pub create_rows : CreateRule → DeviceRow → List DeviceRow → List DeviceRow → Exec World ℕ
create_rows p trigger_device for_conditions for_actions = do
  id ← db_call (insert_rule p)
  insert_parts p trigger_device for_conditions for_actions id

unfoldable pub create_body : CreateRule → Exec World CachedRule
create_body p = do
  trigger_device ← resolve_device_by_name p.trigger.device_name
  assert_trigger_device trigger_device
  for_conditions ← condition_devices p.trigger.device_name p.conditions
  for_actions ← action_devices p.actions
  id ← transaction (create_rows p trigger_device for_conditions for_actions)
  refresh_cache
  find_by_id id

unfoldable pub create : CreateRule → Exec World CachedRule
create p = catch (create_body p) (rethrow (codes "Failed to create rule"))

-- `rule.update(…)`: the row of that id is changed.
unfoldable pub update_rules : ℕ → (RuleRow → RuleRow) → List RuleRow → List RuleRow
update_rules id f [] = []
update_rules id f (r ∷ rules) = (if r.rule_id == id then f r else r) ∷ update_rules id f rules

unfoldable pub set_active_body : ℕ → Bool → Exec World CachedRule
unfolding update_rules
set_active_body id is_active = do
  found ← db_call (gets (λ w. rule_with_id id w.db))
  rule ← or_not_found (codes "Rule not found") found
  db_call (
      update_db (λ db. record db {
        rules = update_rules rule.rule_id (λ r. record r { is_active = is_active }) db.rules;
      }))
  refresh_cache
  find_by_id id

unfoldable pub set_active : ℕ → Bool → Exec World CachedRule
set_active id is_active =
    catch (set_active_body id is_active) (rethrow (codes "Failed to update rule active state"))

unfoldable pub flag_triggers : ℕ → List RuleTriggerRow → List RuleTriggerRow
flag_triggers id rows = map (λ t. if t.rule_id == id then record t { deleted = true } else t) rows

unfoldable pub flag_conditions : ℕ → List RuleConditionRow → List RuleConditionRow
flag_conditions id rows = map (λ c. if c.rule_id == id then record c { deleted = true } else c) rows

unfoldable pub flag_actions : ℕ → List RuleActionRow → List RuleActionRow
flag_actions id rows = map (λ a. if a.rule_id == id then record a { deleted = true } else a) rows

unfoldable pub remove_rows : ℕ → ℕ → Exec World (Unit {0})
unfolding update_rules flag_triggers flag_conditions flag_actions
remove_rows id row_id = do
  db_call (update_db (λ db. record db { triggers = flag_triggers id db.triggers }))
  db_call (update_db (λ db. record db { conditions = flag_conditions id db.conditions }))
  db_call (update_db (λ db. record db { actions = flag_actions id db.actions }))
  db_call (
      update_db (λ db. record db {
        rules = update_rules row_id (λ r. record r { deleted = true; is_active = false }) db.rules;
      }))
  db_call (
      update_db (λ db. record db {
        rules = update_rules row_id (λ r. record r { destroyed = true }) db.rules;
      }))

unfoldable pub remove_body : ℕ → Exec World ℕ
remove_body id = do
  found ← db_call (gets (λ w. rule_with_id id w.db))
  rule ← or_not_found (codes "Rule not found") found
  transaction (remove_rows id rule.rule_id)
  refresh_cache
  pure id

unfoldable pub remove : ℕ → Exec World ℕ
remove id = catch (remove_body id) (rethrow (codes "Failed to delete rule"))
