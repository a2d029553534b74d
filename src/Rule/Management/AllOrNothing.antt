-- ===== src/Rule/Management/AllOrNothing.antt =====
-- Each change of the rules is made whole, or not at all.
use ginem_api.Common.{◌≡◌, refl, ◌∙◌, ap, subst, ◌⊎◌, true, List, ℕ}
use ginem_api.Store.{DeviceRow, Db, World, transaction}
use ginem_api.Store.Calls.{KeepsDb-bind}
use ginem_api.Store.Atomic.{
  Unchanged, Atomic, Atomic-read, Atomic-then, Atomic-transaction, Atomic-catch,
}
use ginem_api.Rule.Management.{CreateRule, is_trigger_device}
use ginem_api.Rule.Management.Changes.{create_rows, create_body, create}
use ginem_api.Rule.Management.Rows.{with_rule, create_rows-db}
use ginem_api.Rule.Management.Reads.{
  Names, ConditionDevices, ActionDevices, resolve_device_by_name-KeepsDb,
  resolve_device_by_name-Names, assert_trigger_device-KeepsDb, assert_trigger_device-eq-ok,
  condition_devices-KeepsDb, condition_devices-ConditionDevices, action_devices-KeepsDb,
  action_devices-ActionDevices, refresh_cache-KeepsDb, find_by_id-KeepsDb,
}

-- The tables with the rule's rows added: its trigger, conditions and actions are about the live
-- devices of the names given, the trigger's can be one, and each action's can be acted on.
pub record Created (p : CreateRule) (before after : Db) : Type 0 where
  pub id : ℕ
  pub trigger_device : DeviceRow
  pub for_conditions : List DeviceRow
  pub for_actions : List DeviceRow
  pub written : after ≡ with_rule p id trigger_device for_conditions for_actions before
  pub trigger_named : Names before p.trigger.device_name trigger_device
  pub trigger_allowed : is_trigger_device trigger_device.device_type ≡ true
  pub conditions_named : ConditionDevices before p.trigger.device_name p.conditions for_conditions
  pub actions_named : ActionDevices before p.actions for_actions

create_rows-Created :
    (p : CreateRule) (before : Db) (d : DeviceRow) (cs as' : List DeviceRow)
    → Names before p.trigger.device_name d
    → is_trigger_device d.device_type ≡ true
    → ConditionDevices before p.trigger.device_name p.conditions cs
    → ActionDevices before p.actions as'
    → Atomic before (Created p before) (transaction (create_rows p d cs as'))
create_rows-Created p before d cs as' named allowed conditions actions =
    Atomic-transaction (Created p before) (create_rows p d cs as') λ w id e returned. record {
      id = id;
      trigger_device = d;
      for_conditions = cs;
      for_actions = as';
      written = (create_rows-db p d cs as' w returned).1 ∙ ap (with_rule p id d cs as') e;
      trigger_named = named;
      trigger_allowed = allowed;
      conditions_named = conditions;
      actions_named = actions;
    }

create-Atomic : (p : CreateRule) (before : Db) → Atomic before (Created p before) (create p)
unfolding create create_body
create-Atomic p before = Atomic-catch (Created p before) _ _ (
    Atomic-read _ _ _ (resolve_device_by_name-KeepsDb p.trigger.device_name) λ w d e found.
      Atomic-read _ _ _ (assert_trigger_device-KeepsDb d) λ w₁ _ _ allowed.
        Atomic-read _ _ _ (condition_devices-KeepsDb p.trigger.device_name p.conditions)
          λ w₂ cs e₂ conditions.
            Atomic-read _ _ _ (action_devices-KeepsDb p.actions) λ w₃ as' e₃ actions.
              Atomic-then _ _ _
                (create_rows-Created p before d cs as'
                  (subst (λ db. Names db p.trigger.device_name d) e
                    (resolve_device_by_name-Names p.trigger.device_name w found))
                  (assert_trigger_device-eq-ok d w₁ allowed)
                  (subst (λ db. ConditionDevices db p.trigger.device_name p.conditions cs) e₂
                    (condition_devices-ConditionDevices p.trigger.device_name p.conditions w₂
                      conditions))
                  (subst (λ db. ActionDevices db p.actions as') e₃
                    (action_devices-ActionDevices p.actions w₃ actions)))
                λ id. KeepsDb-bind _ _ refresh_cache-KeepsDb λ _. find_by_id-KeepsDb id)

-- Whatever fails and whenever, `create` throws and leaves the tables as they were, or adds the
-- rule with its trigger, every condition and every action.
pub create_all_or_nothing :
    (p : CreateRule) (w : World) → Unchanged w.db (create p w) ⊎ Created p w.db (create p w).1.db
create_all_or_nothing p w = (create-Atomic p w.db).at w refl
