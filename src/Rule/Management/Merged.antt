-- ===== src/Rule/Management/Merged.antt =====
-- `update` in services/rule/RuleManagement.service.ts: the rule that is stored with the fields of the
-- payload in place of its own, and the rule's row with those fields.
use ginem_api.Common.{
  ◌≡◌, refl, ◌⊎◌, inl, inr, Bool-cases, true, false, ◌==◌, some, List, [], ◌∷◌, map, Takes,
  or_else-Takes, arith,
}
use ginem_api.Store.{RuleRow, CachedRule, CachedRuleCondition, CachedRuleAction}
use ginem_api.Rule.Management.{ConditionInput, ActionInput, CreateRule, UpdateRule}
use ginem_api.Rule.Management.Update.{merged, rewrite_rules}

abbrev condition_of : CachedRuleCondition → ConditionInput
condition_of c = record {
  device_name = some c.device_name;
  metric = c.metric;
  operator = c.operator;
  threshold = c.threshold;
  unit = c.unit;
}

abbrev action_of : CachedRuleAction → ActionInput
action_of a = record { device_name = a.device_name; state = a.state }

-- The trigger, the conditions and the actions are each those of the payload where it has them, and
-- those of the stored rule where it does not.
pub record IsMerged (p : UpdateRule) (existing : CachedRule) (next : CreateRule) : Type 0 where
  pub trigger :
      Takes p.trigger
        (record { device_name = existing.trigger.device_name; metric = existing.trigger.metric })
        next.trigger
  pub conditions : Takes p.conditions (map condition_of existing.conditions) next.conditions
  pub actions : Takes p.actions (map action_of existing.actions) next.actions

-- The same of the columns of the rule's row; the others stay.
pub record IsRewritten (p : UpdateRule) (existing : CachedRule) (r s : RuleRow) : Type 0 where
  pub id : s.rule_id ≡ r.rule_id
  pub name : Takes p.name existing.name s.name
  pub original_prompt : Takes p.original_prompt existing.original_prompt s.original_prompt
  pub condition_logic : Takes p.condition_logic existing.condition_logic s.condition_logic
  pub cooldown_sec : Takes p.cooldown_sec existing.cooldown_sec s.cooldown_sec
  pub is_active : Takes p.is_active existing.is_active s.is_active
  pub last_triggered_at : s.last_triggered_at ≡ r.last_triggered_at
  pub user_id : s.user_id ≡ r.user_id
  pub deleted : s.deleted ≡ r.deleted
  pub destroyed : s.destroyed ≡ r.destroyed

-- A stored row of the payload's id is rewritten, and every other row stays.
abbrev pub RowTakes : UpdateRule → CachedRule → RuleRow → RuleRow → Type 0
RowTakes p existing r s =
    ((r.destroyed ≡ false) × (r.rule_id ≡ p.rule_id) × IsRewritten p existing r s)
    ⊎ (((r.destroyed ≡ true) ⊎ (¬ (r.rule_id ≡ p.rule_id))) × (s ≡ r))

-- The rows of the table, one by one.
abbrev pub RowsTake : UpdateRule → CachedRule → List RuleRow → List RuleRow → Type 0
RowsTake p existing [] [] = Unit {0}
RowsTake p existing [] (s ∷ after) = ⊥
RowsTake p existing (r ∷ before) [] = ⊥
RowsTake p existing (r ∷ before) (s ∷ after) =
    RowTakes p existing r s × RowsTake p existing before after

pub merged-IsMerged :
    (p : UpdateRule) (existing : CachedRule) → IsMerged p existing (merged p existing)
unfolding merged
merged-IsMerged p existing = record {
  trigger = or_else-Takes p.trigger _;
  conditions = or_else-Takes p.conditions _;
  actions = or_else-Takes p.actions _;
}

pub rewrite_rules-RowsTake :
    (p : UpdateRule) (existing : CachedRule) (rules : List RuleRow)
    → RowsTake p existing rules (rewrite_rules p existing rules)
unfolding rewrite_rules
rewrite_rules-RowsTake p existing [] = tt
rewrite_rules-RowsTake p existing (r ∷ rules) =
    let rest = rewrite_rules-RowsTake p existing rules in
    elim (Bool-cases r.destroyed) [
      | inl gone ↦ rw gone (inr (inl refl, refl), rest)
      | inr stored ↦ elim (Bool-cases (r.rule_id == p.rule_id)) [
        | inl its ↦
            rw (stored, its)
              (
                inl (
                  refl,
                  ground arith,
                  record {
                    id = refl;
                    name = or_else-Takes p.name _;
                    original_prompt = or_else-Takes p.original_prompt _;
                    condition_logic = or_else-Takes p.condition_logic _;
                    cooldown_sec = or_else-Takes p.cooldown_sec _;
                    is_active = or_else-Takes p.is_active _;
                    last_triggered_at = refl;
                    user_id = refl;
                    deleted = refl;
                    destroyed = refl;
                  },
                ),
                rest,
              )
        | inr other ↦ rw (stored, other) (inr (inr (ground arith), refl), rest)
      ]
    ]
