-- ===== src/Rule/Engine/Cooldown.antt =====
-- services/rule/RuleEngine.service.ts and RuleCache.service.ts: a rule that has fired rests for its
-- cooldown, since firing sets the time in the cache from which evaluations read it.
use mathlib.Core.Option.{some_inj}
use ginem_api.Common.{
  ℕ, ◌+◌, ◌*◌, ◌<◌, ◌≡◌, ◌∙◌, ap, sym, Option, some, List, [], ◌∷◌, find, ◌==◌, inl, inr,
  Bool-cases,
}
use ginem_api.Common.Int.{ℤ}
use ginem_api.Common.Text.{Text}
use ginem_api.Common.Exec.{Exec, Result, ok, gets, modify, ◌>>=◌, ◌>>◌}
use ginem_api.Store.{CachedRule, RuleCache, RuleExecutionLogRow, World, fired, db_call, update_db}
use ginem_api.Store.Calls.{bind-eq-ok, db_call-eq-ok}
use ginem_api.Rule.Cache.{touch_first, touch_last_triggered}
use ginem_api.Rule.Telemetry.{Json}
use ginem_api.Rule.Engine.Readings.{SensorEvent}
use ginem_api.Rule.Engine.Completes.{evaluate_one-cooldown}
use ginem_api.Rule.Engine.{
  ActionDetail, ConditionDetail, run_actions, touch_rules, insert_execution_log, log_row, fire,
  evaluate_one,
}

abbrev pub cached : ℕ → List CachedRule → Option CachedRule
cached id rules = find (λ (r : CachedRule). r.rule_id == id) rules

cached-touched :
    (id at : ℕ) (rules : List CachedRule) (c : CachedRule)
    → cached id (touch_first id at rules) ≡ some c
    → c.last_triggered_at ≡ some at
unfolding touch_first
cached-touched id at [] c h = cc
cached-touched id at (r ∷ rules) c h = elim (Bool-cases (r.rule_id == id)) [
  | inl here ↦
      let same : record r { last_triggered_at = some at } ≡ c = some_inj.0 (rw (here, here) at h) in
      sym (ap (λ (x : CachedRule). x.last_triggered_at) same)
  | inr later ↦ cached-touched id at rules c (rw (later, later) at h)
]

-- The row of the execution log, whose insertion leaves the cache alone.
insert-cache :
    (m : ℕ → RuleExecutionLogRow) (w : World) {u : Unit {0}}
    → (db_call (insert_execution_log (m w.now)) w).0 ≡ ok u
    → (db_call (insert_execution_log (m w.now)) w).1.cache ≡ w.cache
unfolding insert_execution_log
insert-cache m w h =
    let (_, _, made) = db_call-eq-ok (insert_execution_log (m w.now)) w h in
    ap (λ (x : Result (Unit {0}) × World). x.1.cache) made

fire-touches :
    (rule : CachedRule) (event : SensorEvent) (started : ℕ) (details : List ConditionDetail)
    (w : World)
    → (fire rule event started details w).0 ≡ ok tt
    → (before : RuleCache) × ((fire rule event started details w).1.cache
        ≡ touch_last_triggered rule.rule_id (run_actions rule.actions w).1.now before)
unfolding fire
fire-touches rule event started details w h =
    let w₁ = (run_actions rule.actions w).1 in
    let row : List ActionDetail → ℕ → RuleExecutionLogRow =
      λ results now. log_row rule event started (fired rule.condition_logic details results) now in
    let touch : Exec World (Unit {0}) =
      db_call (update_db (λ db. record db { rules = touch_rules rule.rule_id w₁.now db.rules })) in
    let log : List ActionDetail → Exec World (Unit {0}) = λ results. (do
      modify (λ v. record v { cache = touch_last_triggered rule.rule_id w₁.now v.cache })
      now ← gets (λ (v : World). v.now)
      db_call (insert_execution_log (row results now))) in
    let finish : List ActionDetail → Exec World (Unit {0}) = λ results. (do
      at ← gets (λ (v : World). v.now)
      db_call (update_db (λ db. record db { rules = touch_rules rule.rule_id at db.rules }))
      modify (λ v. record v { cache = touch_last_triggered rule.rule_id at v.cache })
      now ← gets (λ (v : World). v.now)
      db_call (insert_execution_log (row results now))) in
    let (results, ran, later, final) = bind-eq-ok (run_actions rule.actions) finish w h in
    let (_, touched, logged, final') = bind-eq-ok touch (λ _. log results) w₁ later in
    let w₂ = (touch w₁).1 in
    let w₃ : World = record w₂ { cache = touch_last_triggered rule.rule_id w₁.now w₂.cache } in
    (w₂.cache, ap (λ (v : World). v.cache) (final ∙ final') ∙ insert-cache (row results) w₃ logged)

module _ (number_of : Text → Option ℤ) (json_parse : Text → Option Json) where
  -- If firing a rule returns, the cached rule with its id rests if its cooldown is not 0: until that
  -- has passed since the rule's actions were run, evaluating that cached rule returns and changes
  -- nothing, whatever the event is and whatever else has happened in between.
  pub fire-cools :
      (rule : CachedRule) (event : SensorEvent) (started : ℕ) (details : List ConditionDetail)
      (w : World) (c : CachedRule) (event' : SensorEvent) (started' : ℕ) (w' : World)
      → (fire rule event started details w).0 ≡ ok tt
      → cached rule.rule_id (fire rule event started details w).1.cache.rules ≡ some c
      → 0 < c.cooldown_sec
      → w'.now < (run_actions rule.actions w).1.now + c.cooldown_sec * 1000
      → evaluate_one number_of json_parse c event' started' w' ≡ (ok tt, w')
  unfolding touch_last_triggered
  fire-cools rule event started details w c event' started' w' returned found positive soon =
      let at = (run_actions rule.actions w).1.now in
      let (before, touched) = fire-touches rule event started details w returned in
      let set =
        cached-touched rule.rule_id at before.rules c
          (ap (λ (x : RuleCache). cached rule.rule_id x.rules) (sym touched) ∙ found) in
      evaluate_one-cooldown number_of json_parse c event' started' at w' set positive soon
