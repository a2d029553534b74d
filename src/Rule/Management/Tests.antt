-- ===== src/Rule/Management/Tests.antt =====
-- services/rule/RuleManagement.service.ts: runs on a small table, and uses of the theorems.
use ginem_api.Common.{ℕ, Bool, ◌≡◌, refl, true, false, none, some, List, [], ◌∷◌, ◌⊎◌}
use ginem_api.Common.Int.{pos}
use ginem_api.Common.Text.{codes, text_eq}
use ginem_api.Store.{
  RuleRow, Db, DeviceRow, online, sensor, actuator, on, gt, and, World, db_call, answered,
  transaction, rolled_back,
}
use ginem_api.Device.{device_named, is_live_device, or_not_found}
use ginem_api.Rule.Cache.{set_rules}
use ginem_api.Store.Atomic.{Unchanged}
use ginem_api.Rule.Management.{
  CreateRule, UpdateRule, resolve_device_by_name, assert_trigger_device, is_trigger_device,
  assert_action_device, is_action_device, refresh_cache, active_rules, is_live_rule, serialize_all,
  serialize_rule, serialize_with, serialize_condition, serialize_action, joined_name, name_of,
  find_by_id, find_rule, rule_with_id,
}
use ginem_api.Rule.Management.Changes.{
  create, create_body, condition_devices, action_devices, create_rows, insert_rule, rule_name, join,
  insert_parts, insert_trigger, insert_conditions, insert_condition, insert_actions, insert_action,
  metric_key, remove,
}
use ginem_api.Rule.Management.Update.{update}
use ginem_api.Rule.Management.AllOrNothing.{Created, create_all_or_nothing}
use ginem_api.Rule.Management.Fresh.{Fresh, created, run_change, run_change-Fresh}
use ginem_api.Rule.Management.Removal.{Removed, remove_all_or_nothing}
use ginem_api.Rule.Management.Listing.{FindAllRules, listed_rules}
use ginem_api.Rule.Management.Ordered.{Lists, listed_rules-sorts}
use ginem_api.Rule.Management.Replacement.{Replaced, update_all_or_nothing}

abbrev two_devices : List DeviceRow
two_devices =
    (record {
      device_id = 1;
      device_name = codes "dht";
      device_token = codes "fck_1";
      device_description = none;
      device_type = sensor;
      device_status = online;
      device_firmware_version = none;
      device_metadata = none;
      deleted = false;
      destroyed = false;
    })
    ∷ (record {
      device_id = 2;
      device_name = codes "fan";
      device_token = codes "fck_2";
      device_description = none;
      device_type = actuator;
      device_status = online;
      device_firmware_version = none;
      device_metadata = none;
      deleted = false;
      destroyed = false;
    })
    ∷ []

-- No call fails, and no time passes.
abbrev quiet_world : World
quiet_world = record {
  db = record {
    devices = two_devices;
    device_logs = [];
    rules = [];
    triggers = [];
    conditions = [];
    actions = [];
    execution_logs = [];
    scheduler_logs = [];
    users = [];
    llm_models = [];
  };
  next_rule_id = 1;
  next_device_log_id = 1;
  next_device_id = 3;
  next_scheduler_log_id = 1;
  next_user_id = 1;
  job_id_counter = 0;
  cache = record { rules = []; loaded = false };
  commands = [];
  last_state = λ _. none;
  now = 1000;
  script = [];
}

abbrev cool_when_hot : CreateRule
cool_when_hot = record {
  name = none;
  original_prompt = codes "turn on the fan above 28";
  condition_logic = and;
  cooldown_sec = 60;
  is_active = true;
  user_id = none;
  trigger = record { device_name = codes "dht"; metric = codes "Temperature" };
  conditions =
      (record {
        device_name = none;
        metric = codes "Temperature";
        operator = gt;
        threshold = pos 28;
        unit = none;
      })
      ∷ [];
  actions = (record { device_name = codes "fan"; state = on }) ∷ [];
}

-- The rule that `cool_when_hot` makes, with its actions replaced.
abbrev fan_twice : UpdateRule
fan_twice = record {
  rule_id = 1;
  name = none;
  original_prompt = none;
  condition_logic = none;
  cooldown_sec = some 30;
  is_active = none;
  trigger = none;
  conditions = none;
  actions = some (
      (record { device_name = codes "fan"; state = on })
      ∷ (record { device_name = codes "fan"; state = on })
      ∷ []);
}

abbrev world_with_rule : World
world_with_rule = (run_change (created cool_when_hot) quiet_world).1

create_all_or_nothing_example :
    Unchanged quiet_world.db (create cool_when_hot quiet_world)
    ⊎ Created cool_when_hot quiet_world.db (create cool_when_hot quiet_world).1.db
create_all_or_nothing_example = create_all_or_nothing cool_when_hot quiet_world

update_all_or_nothing_example :
    Unchanged world_with_rule.db (update fan_twice world_with_rule)
    ⊎ Replaced fan_twice world_with_rule.db (update fan_twice world_with_rule).1.db
update_all_or_nothing_example = update_all_or_nothing fan_twice world_with_rule

remove_all_or_nothing_example :
    Unchanged world_with_rule.db (remove 1 world_with_rule)
    ⊎ Removed 1 world_with_rule.db (remove 1 world_with_rule).1.db
remove_all_or_nothing_example = remove_all_or_nothing 1 world_with_rule

created_returns : (run_change (created cool_when_hot) quiet_world).0 ≡ true
unfolding run_change create create_body resolve_device_by_name db_call answered device_named
    is_live_device text_eq or_not_found assert_trigger_device is_trigger_device condition_devices
    action_devices assert_action_device is_action_device transaction rolled_back create_rows
    insert_rule rule_name join insert_parts insert_trigger insert_conditions insert_condition
    insert_actions insert_action metric_key refresh_cache active_rules is_live_rule serialize_all
    serialize_rule serialize_with serialize_condition serialize_action joined_name name_of set_rules
    find_by_id find_rule rule_with_id
created_returns = refl

run_change-Fresh_example : Fresh world_with_rule
run_change-Fresh_example = run_change-Fresh (created cool_when_hot) quiet_world created_returns

abbrev newest : FindAllRules
newest = record {
  page = none;
  size = none;
  pagination = true;
  is_active = some true;
  search = none;
}

abbrev rule_row : ℕ → Bool → RuleRow
rule_row id is_active = record {
  rule_id = id;
  name = codes "cool";
  original_prompt = codes "turn on the fan above 28";
  condition_logic = and;
  is_active = is_active;
  cooldown_sec = 60;
  last_triggered_at = none;
  user_id = none;
  deleted = false;
  destroyed = false;
}

abbrev three_rules : Db
three_rules = record quiet_world.db {
  rules = rule_row 1 true ∷ rule_row 2 false ∷ rule_row 3 true ∷ [];
}

three_listed :
    listed_rules (λ _ _. false) newest three_rules ≡ rule_row 3 true ∷ rule_row 1 true ∷ []
unfolding listed_rules is_live_rule
three_listed = refl

listed_rules-sorts_example :
    Lists (λ _ _. false) newest three_rules (listed_rules (λ _ _. false) newest three_rules)
listed_rules-sorts_example = listed_rules-sorts (λ _ _. false) newest three_rules
