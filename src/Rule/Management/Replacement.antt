-- ===== src/Rule/Management/Replacement.antt =====
-- `update`: the rule's row is rewritten and its parts are replaced, or nothing is.
use mathlib.Core.Option.{some_inj}
use ginem_api.Common.{
  filter, not, ◌==◌, ℕ, ◌≡◌, refl, ◌∙◌, ap, subst, ◌⊎◌, true, Option, none, some, List, [], ◌∷◌,
  ◌++◌,
}
use ginem_api.Common.Exec.{Result, ok}
use ginem_api.Store.{
  DeviceRow, RuleRow, RuleTriggerRow, RuleConditionRow, RuleActionRow, CachedRule, Db, World,
}
use ginem_api.Store.Calls.{KeepsDb-bind, Writes, Writes-bind, Writes-update_db, bind-eq-ok}
use ginem_api.Store.Atomic.{
  Unchanged, Atomic, Atomic-read, Atomic-then, Atomic-transaction, Atomic-catch,
}
use ginem_api.Rule.Management.{
  CreateRule, UpdateRule, is_trigger_device, find_rule, rule_with_id, serialize_rule,
}
use ginem_api.Rule.Management.Changes.{trigger_row, insert_trigger}
use ginem_api.Rule.Management.Update.{
  rewrite_rules, merged, recreate_conditions, rewrite_row, drop_triggers, drop_conditions,
  drop_actions, reset_rows, update_rows, update_body, update,
}
use ginem_api.Rule.Management.Recreated.{recreate_conditions-eq-ok, recreate_actions-eq-ok}
use ginem_api.Rule.Management.Merged.{IsMerged, RowsTake, merged-IsMerged, rewrite_rules-RowsTake}
use ginem_api.Rule.Management.Rows.{condition_rows, action_rows, add_conditions, add_actions}
use ginem_api.Rule.Management.Removal.{rule_with_id-rule_id}
use ginem_api.Rule.Management.Reads.{
  Names, ConditionDevices, ActionDevices, resolve_device_by_name-KeepsDb,
  resolve_device_by_name-Names, assert_trigger_device-KeepsDb, assert_trigger_device-eq-ok,
  refresh_cache-KeepsDb, find_by_id-KeepsDb, find_by_id-eq-ok,
}

-- The tables with the rule's row rewritten, its old parts gone and the new trigger in place.
abbrev add_trigger : UpdateRule → CreateRule → DeviceRow → Db → Db
add_trigger p next d db = record db {
  triggers = db.triggers ++ trigger_row p.rule_id next.trigger d ∷ [];
}

abbrev reset : UpdateRule → CachedRule → CreateRule → DeviceRow → Db → Db
reset p existing next d db = add_trigger p next d (
    drop_actions p.rule_id
      (drop_conditions p.rule_id (drop_triggers p.rule_id (rewrite_row p existing db))))

-- The tables with these rules, the rule's old parts gone and the new trigger in place.
abbrev pub replaced : ℕ → List RuleRow → CreateRule → DeviceRow → Db → Db
replaced id rules next d db = record db {
  rules = rules;
  triggers =
      filter (λ (t : RuleTriggerRow). not (t.rule_id == id)) db.triggers
      ++ trigger_row id next.trigger d ∷ [];
  conditions = filter (λ (c : RuleConditionRow). not (c.rule_id == id)) db.conditions;
  actions = filter (λ (a : RuleActionRow). not (a.rule_id == id)) db.actions;
}

-- What `update` leaves: the live rule of the id was there before, its row takes the fields of the
-- payload, and its parts are exactly those of the payload, or the stored ones where it has none,
-- about the live devices of their names.
pub record Replaced (p : UpdateRule) (before after : Db) : Type 0 where
  pub existing : CachedRule
  pub row : RuleRow
  pub found : rule_with_id p.rule_id before ≡ some row
  pub of_id : row.rule_id ≡ p.rule_id
  pub shown : serialize_rule before row ≡ ok existing
  pub next : CreateRule
  pub merges : IsMerged p existing next
  pub rules : List RuleRow
  pub rewritten : RowsTake p existing before.rules rules
  pub trigger_device : DeviceRow
  pub for_conditions : List DeviceRow
  pub for_actions : List DeviceRow
  pub written :
      after
      ≡ add_actions (action_rows p.rule_id next.actions for_actions) (
          add_conditions
            (condition_rows p.rule_id next.conditions for_conditions)
            (replaced p.rule_id rules next trigger_device before))
  pub trigger_named : Names before next.trigger.device_name trigger_device
  pub trigger_allowed : is_trigger_device trigger_device.device_type ≡ true
  pub conditions_named :
      ConditionDevices before next.trigger.device_name next.conditions for_conditions
  pub actions_named : ActionDevices before next.actions for_actions

reset_rows-Writes :
    (p : UpdateRule) (existing : CachedRule) (next : CreateRule) (d : DeviceRow)
    → Writes (reset p existing next d) (reset_rows p existing next d)
unfolding reset_rows insert_trigger
reset_rows-Writes p existing next d =
    Writes-bind (rewrite_row p existing)
      (λ db.
        add_trigger p next d
          (drop_actions p.rule_id (drop_conditions p.rule_id (drop_triggers p.rule_id db))))
      _ _ (Writes-update_db _)
      λ _.
        Writes-bind (drop_triggers p.rule_id)
          (λ db. add_trigger p next d (drop_actions p.rule_id (drop_conditions p.rule_id db))) _ _
          (Writes-update_db _)
          λ _.
            Writes-bind (drop_conditions p.rule_id)
              (λ db. add_trigger p next d (drop_actions p.rule_id db)) _ _ (Writes-update_db _)
              λ _.
                Writes-bind (drop_actions p.rule_id) (add_trigger p next d) _ _ (Writes-update_db _)
                  λ _. Writes-update_db _

shown_row :
    (found : Option RuleRow) (db : Db) {c : CachedRule}
    → elim found as (λ _. Option (Result CachedRule)) [
      | none ↦ none
      | some r ↦ some (serialize_rule db r)
    ]
      ≡ some (ok c)
    → (row : RuleRow) × (found ≡ some row) × (serialize_rule db row ≡ ok c)
shown_row none db h = cc
shown_row (some r) db h = (r, refl, some_inj.0 h)

find_rule-row :
    (id : ℕ) (db : Db) {c : CachedRule}
    → find_rule id db ≡ some (ok c)
    → (row : RuleRow) × (rule_with_id id db ≡ some row) × (serialize_rule db row ≡ ok c)
unfolding find_rule
find_rule-row id db h = shown_row (rule_with_id id db) db h

update_rows-Replaced :
    (p : UpdateRule) (existing : CachedRule) (d : DeviceRow) (before : Db) (w : World)
    {u : Unit {0}}
    → w.db ≡ before
    → find_rule p.rule_id before ≡ some (ok existing)
    → Names before (merged p existing).trigger.device_name d
    → is_trigger_device d.device_type ≡ true
    → (update_rows p existing (merged p existing) d w).0 ≡ ok u
    → Replaced p before (update_rows p existing (merged p existing) d w).1.db
unfolding update_rows
update_rows-Replaced p existing d before w e found named allowed h =
    let next = merged p existing in
    let (row, of_the_id, shown) = find_rule-row p.rule_id before found in
    let (u, i₁, h₁, f₁) = bind-eq-ok (reset_rows p existing next d) _ w h in
    let (_, i₂, h₂, f₂) =
      bind-eq-ok (recreate_conditions p.rule_id next.trigger.device_name next.conditions) _ _ h₁ in
    let w₁ = (reset_rows p existing next d w).1 in
    let db₁ = (reset_rows-Writes p existing next d).at w u i₁ ∙ ap (reset p existing next d) e in
    let (cs, conditions, db₂) =
      recreate_conditions-eq-ok p.rule_id next.trigger.device_name next.conditions w₁ i₂ in
    let (as', actions, db₃) = recreate_actions-eq-ok p.rule_id next.actions _ h₂ in
    record {
      existing = existing;
      row = row;
      found = of_the_id;
      of_id = rule_with_id-rule_id p.rule_id before.rules row (unfold rule_with_id in of_the_id);
      shown = shown;
      next = next;
      merges = merged-IsMerged p existing;
      rules = rewrite_rules p existing before.rules;
      rewritten = rewrite_rules-RowsTake p existing before.rules;
      trigger_device = d;
      for_conditions = cs;
      for_actions = as';
      written =
          ap (λ (v : World). v.db) (f₁ ∙ f₂)
          ∙ db₃
          ∙ ap (add_actions (action_rows p.rule_id next.actions as'))
              (db₂ ∙ ap (add_conditions (condition_rows p.rule_id next.conditions cs)) db₁);
      trigger_named = named;
      trigger_allowed = allowed;
      conditions_named =
          subst (λ db. ConditionDevices db next.trigger.device_name next.conditions cs) db₁
            conditions;
      actions_named =
          subst (λ db. ActionDevices db next.actions as')
            (db₂ ∙ ap (add_conditions (condition_rows p.rule_id next.conditions cs)) db₁) actions;
    }

update-Atomic : (p : UpdateRule) (before : Db) → Atomic before (Replaced p before) (update p)
unfolding update update_body
update-Atomic p before = Atomic-catch (Replaced p before) _ _ (
    Atomic-read _ _ _ (find_by_id-KeepsDb p.rule_id) λ w₀ existing e₀ read.
      let name = (merged p existing).trigger.device_name in
      Atomic-read _ _ _ (resolve_device_by_name-KeepsDb name) λ w d e found.
        Atomic-read _ _ _ (assert_trigger_device-KeepsDb d) λ w₁ _ _ allowed.
          Atomic-then _ _ _
            (Atomic-transaction _ _ λ w₂ _ e₂ done.
              update_rows-Replaced p existing d before w₂ e₂
                (subst (λ db. find_rule p.rule_id db ≡ some (ok existing)) e₀
                  (find_by_id-eq-ok p.rule_id w₀ read))
                (subst (λ db. Names db name d) e (resolve_device_by_name-Names name w found))
                (assert_trigger_device-eq-ok d w₁ allowed) done)
            λ _. KeepsDb-bind _ _ refresh_cache-KeepsDb λ _. find_by_id-KeepsDb p.rule_id)

-- Whatever fails and whenever, `update` throws and leaves the tables as they were, or finds the
-- live rule of that id, gives its row the fields of the payload, and replaces its trigger,
-- conditions and actions by those of the payload, or by the stored ones where it has none; the other
-- rules' rows and parts stay.
pub update_all_or_nothing :
    (p : UpdateRule) (w : World) → Unchanged w.db (update p w) ⊎ Replaced p w.db (update p w).1.db
update_all_or_nothing p w = (update-Atomic p w.db).at w refl
