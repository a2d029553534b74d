-- ===== src/Rule/Management/Removal.antt =====
-- `remove`: the rule is gone for every query, and no other rule is touched.
use ginem_api.Common.{
  ℕ, ◌≡◌, ◌≢◌, refl, ◌∙◌, ap₂, ◌⊎◌, true, false, ◌&&◌, Option, none, some, List, [], ◌∷◌, find,
  ◌==◌, arith,
}
use ginem_api.Common.Exec.{ok, gets}
use ginem_api.Store.{RuleRow, Db, World, db_call}
use ginem_api.Store.Calls.{
  KeepsDb-bind, KeepsDb-pure, KeepsDb-db_call, KeepsDb-gets, Writes, Writes-bind, Writes-update_db,
  query-eq-ok,
}
use ginem_api.Store.Atomic.{
  Unchanged, Atomic, Atomic-read, Atomic-then, Atomic-transaction, Atomic-catch,
}
use ginem_api.Common.Text.{codes}
use ginem_api.Device.{or_not_found}
use ginem_api.Device.Laws.{or_not_found-KeepsDb, or_not_found-eq-ok}
use ginem_api.Rule.Management.{is_live_rule, rule_with_id}
use ginem_api.Rule.Management.Changes.{
  update_rules, flag_triggers, flag_conditions, flag_actions, remove_rows, remove_body, remove,
}
use ginem_api.Rule.Management.Reads.{refresh_cache-KeepsDb}

-- The tables with a rule flagged as deleted and destroyed, and its parts flagged as deleted.
abbrev pub without_rule : ℕ → ℕ → Db → Db
without_rule id row_id db = record db {
  triggers = flag_triggers id db.triggers;
  conditions = flag_conditions id db.conditions;
  actions = flag_actions id db.actions;
  rules =
      update_rules row_id (λ r. record r { destroyed = true })
        (update_rules row_id (λ r. record r { deleted = true; is_active = false }) db.rules);
}

remove_rows-Writes : (id row_id : ℕ) → Writes (without_rule id row_id) (remove_rows id row_id)
unfolding remove_rows
remove_rows-Writes id row_id = Writes-bind _ _ _ _ (Writes-update_db _) λ _.
    Writes-bind _ _ _ _ (Writes-update_db _) λ _.
      Writes-bind _ _ _ _ (Writes-update_db _)
        λ _. Writes-bind _ _ _ _ (Writes-update_db _) λ _. Writes-update_db _

-- A rule is found by its id.
pub rule_with_id-rule_id :
    (id : ℕ) (rules : List RuleRow) (r : RuleRow)
    → find (λ (s : RuleRow). is_live_rule s && s.rule_id == id) rules ≡ some r
    → r.rule_id ≡ id
rule_with_id-rule_id id [] r h = cc
rule_with_id-rule_id id (s ∷ rules) r h = ground (arith, rule_with_id-rule_id id rules r)

find-removed :
    (id : ℕ) (rules : List RuleRow)
    → find
        (λ (s : RuleRow). is_live_rule s && s.rule_id == id)
        (update_rules id
          (λ r. record r { destroyed = true })
          (update_rules id (λ r. record r { deleted = true; is_active = false }) rules))
      ≡ none
unfolding update_rules is_live_rule
find-removed id [] = refl
find-removed id (r ∷ rules) = ground (arith, find-removed id rules)

find-others :
    (id j : ℕ) (rules : List RuleRow)
    → j ≢ id
    → find
        (λ (s : RuleRow). is_live_rule s && s.rule_id == j)
        (update_rules id
          (λ r. record r { destroyed = true })
          (update_rules id (λ r. record r { deleted = true; is_active = false }) rules))
      ≡ find (λ (s : RuleRow). is_live_rule s && s.rule_id == j) rules
unfolding update_rules is_live_rule
find-others id j [] ne = refl
find-others id j (r ∷ rules) ne = ground (arith, find-others id j rules)

pub record Removed (id : ℕ) (before after : Db) : Type 0 where
  pub written : after ≡ without_rule id id before
  pub gone : rule_with_id id after ≡ none
  pub others : (j : ℕ) → j ≢ id → rule_with_id j after ≡ rule_with_id j before

Removed-written :
    (id : ℕ) (before after : Db) → after ≡ without_rule id id before → Removed id before after
unfolding rule_with_id
Removed-written id before after e = record {
  written = e;
  gone = rw e (find-removed id before.rules);
  others = λ j ne. rw e (find-others id j before.rules ne);
}

found_id :
    (id : ℕ) (w w₁ : World) {found : Option RuleRow} {r : RuleRow}
    → (db_call (gets (λ (v : World). rule_with_id id v.db)) w).0 ≡ ok found
    → (or_not_found (codes "Rule not found") found w₁).0 ≡ ok r
    → r.rule_id ≡ id
unfolding rule_with_id
found_id id w w₁ {found} {r} read here =
    let (_, _, shown) = query-eq-ok (λ (v : World). rule_with_id id v.db) w read in
    rule_with_id-rule_id id w.db.rules r (shown ∙ or_not_found-eq-ok _ found _ here)

remove-Atomic : (id : ℕ) (before : Db) → Atomic before (Removed id before) (remove id)
unfolding remove remove_body
remove-Atomic id before = Atomic-catch (Removed id before) _ _ (
    Atomic-read _ _ _ (KeepsDb-db_call _ (KeepsDb-gets _)) λ w found e read.
      Atomic-read _ _ _ (or_not_found-KeepsDb _ found) λ w₁ rule _ here.
        Atomic-then _ _ _
          (Atomic-transaction _ _ λ w₂ u e₂ done. Removed-written id before _ (
            (remove_rows-Writes id rule.rule_id).at w₂ u done
            ∙ ap₂ (without_rule id) (found_id id w w₁ read here) e₂))
          λ _. KeepsDb-bind _ _ refresh_cache-KeepsDb λ _. KeepsDb-pure id)

-- Whatever fails and whenever, `remove` throws and leaves the tables as they were, or the rule is
-- found no more, by any query, and every other rule is found as before.
pub remove_all_or_nothing :
    (id : ℕ) (w : World) → Unchanged w.db (remove id w) ⊎ Removed id w.db (remove id w).1.db
remove_all_or_nothing id w = (remove-Atomic id w.db).at w refl
