-- ===== src/Rule/Management/Rows.antt =====
-- The rows that `create` writes, all of them or none.
use mathlib.Core.List.{append_assoc, append-nil}
use ginem_api.Common.{ℕ, ◌≡◌, refl, ◌∙◌, ap, false, none, List, [], ◌∷◌, ◌++◌}
use ginem_api.Common.Exec.{Result, ok}
use ginem_api.Store.{DeviceRow, RuleRow, RuleConditionRow, RuleActionRow, Db, World, db_call}
use ginem_api.Store.Calls.{
  advance, bind-eq-ok, db_call-eq-ok, Writes, Writes-pure, Writes-ext, Writes-update_db,
  Writes-bind, Yields, Yields-pure, Yields-bind,
}
use ginem_api.Rule.Management.{ConditionInput, ActionInput, CreateRule}
use ginem_api.Rule.Management.Changes.{
  condition_row, action_row, trigger_row, rule_name, insert_rule, insert_trigger, insert_condition,
  insert_action, insert_conditions, insert_actions, insert_parts, create_rows,
}

abbrev pub condition_rows : ℕ → List ConditionInput → List DeviceRow → List RuleConditionRow
condition_rows id [] devices = []
condition_rows id (c ∷ cs) [] = []
condition_rows id (c ∷ cs) (d ∷ devices) = condition_row id c d ∷ condition_rows id cs devices

abbrev pub action_rows : ℕ → List ActionInput → List DeviceRow → List RuleActionRow
action_rows id [] devices = []
action_rows id (a ∷ as') [] = []
action_rows id (a ∷ as') (d ∷ devices) = action_row id a d ∷ action_rows id as' devices

abbrev pub rule_row : ℕ → CreateRule → RuleRow
rule_row id p = record {
  rule_id = id;
  name = rule_name p;
  original_prompt = p.original_prompt;
  condition_logic = p.condition_logic;
  is_active = p.is_active;
  cooldown_sec = p.cooldown_sec;
  last_triggered_at = none;
  user_id = p.user_id;
  deleted = false;
  destroyed = false;
}

-- The tables with a rule's rows added.
abbrev pub with_rule : CreateRule → ℕ → DeviceRow → List DeviceRow → List DeviceRow → Db → Db
with_rule p id trigger_device for_conditions for_actions db = record db {
  rules = db.rules ++ rule_row id p ∷ [];
  triggers = db.triggers ++ trigger_row id p.trigger trigger_device ∷ [];
  conditions = db.conditions ++ condition_rows id p.conditions for_conditions;
  actions = db.actions ++ action_rows id p.actions for_actions;
}

abbrev pub add_conditions : List RuleConditionRow → Db → Db
add_conditions rows db = record db { conditions = db.conditions ++ rows }

abbrev pub add_actions : List RuleActionRow → Db → Db
add_actions rows db = record db { actions = db.actions ++ rows }

insert_conditions-Writes :
    (id : ℕ) (cs : List ConditionInput) (devices : List DeviceRow)
    → Writes (add_conditions (condition_rows id cs devices)) (insert_conditions id cs devices)
unfolding insert_conditions insert_condition
insert_conditions-Writes id [] devices = Writes-ext _ (Writes-pure tt) (λ db. rw append-nil refl)
insert_conditions-Writes id (c ∷ cs) [] = Writes-ext _ (Writes-pure tt) (λ db. rw append-nil refl)
insert_conditions-Writes id (c ∷ cs) (d ∷ devices) =
    Writes-ext _
      (Writes-bind (add_conditions (condition_row id c d ∷ []))
        (add_conditions (condition_rows id cs devices)) _ _ (Writes-update_db _)
        (λ _. insert_conditions-Writes id cs devices))
      (λ db. rw append_assoc refl)

insert_actions-Writes :
    (id : ℕ) (as' : List ActionInput) (devices : List DeviceRow)
    → Writes (add_actions (action_rows id as' devices)) (insert_actions id as' devices)
unfolding insert_actions insert_action
insert_actions-Writes id [] devices = Writes-ext _ (Writes-pure tt) (λ db. rw append-nil refl)
insert_actions-Writes id (a ∷ as') [] = Writes-ext _ (Writes-pure tt) (λ db. rw append-nil refl)
insert_actions-Writes id (a ∷ as') (d ∷ devices) =
    Writes-ext _
      (Writes-bind (add_actions (action_row id a d ∷ [])) (add_actions (action_rows id as' devices))
        _ _ (Writes-update_db _) (λ _. insert_actions-Writes id as' devices))
      (λ db. rw append_assoc refl)

abbrev with_parts : CreateRule → ℕ → DeviceRow → List DeviceRow → List DeviceRow → Db → Db
with_parts p id d cs as' db = record db {
  triggers = db.triggers ++ trigger_row id p.trigger d ∷ [];
  conditions = db.conditions ++ condition_rows id p.conditions cs;
  actions = db.actions ++ action_rows id p.actions as';
}

insert_parts-Writes :
    (p : CreateRule) (d : DeviceRow) (cs as' : List DeviceRow) (id : ℕ)
    → Writes (with_parts p id d cs as') (insert_parts p d cs as' id)
unfolding insert_parts insert_trigger
insert_parts-Writes p d cs as' id = Writes-bind _ _ _ _ (Writes-update_db _) λ _.
    Writes-bind _ _ _ _ (insert_conditions-Writes id p.conditions cs)
      λ _. Writes-bind _ _ _ _ (insert_actions-Writes id p.actions as') λ _. Writes-pure id

insert_parts-Yields :
    (p : CreateRule) (d : DeviceRow) (cs as' : List DeviceRow) (id : ℕ)
    → Yields id (insert_parts p d cs as' id)
unfolding insert_parts
insert_parts-Yields p d cs as' id = search (Yields-bind, Yields-pure)

with_parts-insert_rule :
    (p : CreateRule) (d : DeviceRow) (cs as' : List DeviceRow) (w w' : World) (r : Result ℕ)
    (id id' : ℕ)
    → (r, w') ≡ insert_rule p w
    → id ≡ id'
    → r ≡ ok id'
    → (id ≡ w.next_rule_id) × (with_parts p id' d cs as' w'.db ≡ with_rule p id d cs as' w.db)
unfolding insert_rule
with_parts-insert_rule p d cs as' w w' r id id' made same first =
    let given : id' ≡ w.next_rule_id = cc in
    let inserted = ap (λ (x : Result ℕ × World). x.1.db) made in
    (same ∙ given, rw (same, inserted, given) refl)

-- The rows of the rule have the id that the table gives next.
pub create_rows-db :
    (p : CreateRule) (d : DeviceRow) (cs as' : List DeviceRow) (w : World) {id : ℕ}
    → (create_rows p d cs as' w).0 ≡ ok id
    → (id ≡ w.next_rule_id) × ((create_rows p d cs as' w).1.db ≡ with_rule p id d cs as' w.db)
unfolding create_rows
create_rows-db p d cs as' w {id} h =
    let (id', first, later, final) =
      bind-eq-ok (db_call (insert_rule p)) (insert_parts p d cs as') w h in
    let (t, rest, made) = db_call-eq-ok (insert_rule p) w first in
    let (given, written) =
      with_parts-insert_rule p d cs as' (advance t rest w) _ _ id id' made
        ((insert_parts-Yields p d cs as' id').at _ id later) first in
    (
      given,
      ap (λ (v : World). v.db) final ∙ (insert_parts-Writes p d cs as' id').at _ id later ∙ written,
    )
