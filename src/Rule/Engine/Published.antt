-- ===== src/Rule/Engine/Published.antt =====
-- What the engine publishes: only commands of the rules that the event triggers.
use ginem_api.Common.{
  ℕ, ◌≡◌, refl, Bool, true, false, Option, none, List, [], ◌∷◌, ◌==◌, ◌⊎◌, inl, inr, Bool-cases,
}
use ginem_api.Common.Int.{ℤ}
use ginem_api.Common.Text.{Text}
use ginem_api.Common.Exec.{modify}
use ginem_api.Store.{
  State, CachedRule, CachedRuleCondition, CachedRuleAction, ConditionDetail, published, fired,
  World, update_db,
}
use ginem_api.Store.OnlyReads.{OnlyReads-query}
use ginem_api.Store.Commands.{
  Publishes, Publishes-state, Publishes-OnlyReads, Publishes-db_call, Publishes-catch,
  Publishes-rethrow, Publishes-bind, Publishes-pure, Publishes-gets,
}
use ginem_api.Device.{create_device_log, state_value}
use ginem_api.Device.Laws.{or_not_found-OnlyReads}
use ginem_api.Rule.Cache.{touch_last_triggered}
use ginem_api.Rule.Telemetry.{Json}
use ginem_api.Rule.Engine.Readings.{
  SensorEvent, logged_metric, condition_detail, condition_reading, read_last_device_metric,
  condition_details,
}
use ginem_api.Rule.Engine.{
  should_skip_action, publish_actuator_state, run_action, run_actions, fire, passes, skip_by_log,
  logged_state, evaluate_conditions, touch_rules, insert_execution_log, log_row,
}

-- The command is that of one of the actions.
abbrev pub CommandOf : List CachedRuleAction → ℕ × State → Type 0
CommandOf [] c = ⊥
CommandOf (a ∷ as') c = (c ≡ (a.device_id, a.state)) ⊎ CommandOf as' c

module _ (P : ℕ × State → Type 0) where
  create_device_log-Publishes : (id : ℕ) (value : Text) → Publishes P (create_device_log id value)
  unfolding create_device_log
  create_device_log-Publishes id value =
      Publishes-catch P _ _
        (Publishes-bind P _ _ (Publishes-OnlyReads P _ (OnlyReads-query _)) λ found.
          Publishes-bind P _ _ (Publishes-OnlyReads P _ (or_not_found-OnlyReads _ found))
            λ d. Publishes-db_call P _ (λ w. refl))
        (Publishes-rethrow P _)

  should_skip_action-Publishes : (id : ℕ) (s : State) → Publishes P (should_skip_action id s)
  unfolding should_skip_action
  should_skip_action-Publishes id s =
      Publishes-catch P _ _
        (Publishes-bind P _ _ (Publishes-OnlyReads P _ (OnlyReads-query _)) λ last.
          Publishes-gets P (λ (w : World). skip_by_log (logged_state last) (w.last_state id) s))
        (λ _. Publishes-pure P false)

  publish-Publishes : (id : ℕ) (s : State) → P (id, s) → Publishes P (publish_actuator_state id s)
  unfolding publish_actuator_state
  publish-Publishes id s p = record { at = λ w. ((id, s) ∷ [], refl, (p, tt)) }

  run_action-Publishes :
      (a : CachedRuleAction) (skip : Bool)
      → P (a.device_id, a.state)
      → Publishes P (run_action a skip)
  unfolding run_action
  run_action-Publishes a true p = Publishes-pure P _
  run_action-Publishes a false p =
      Publishes-bind P _ _ (create_device_log-Publishes a.device_id (state_value a.state)) λ log.
        Publishes-bind P _ _ (publish-Publishes a.device_id a.state p) λ _.
          Publishes-pure P (published a.device_id a.state log.device_log_id log.device_log_data)

  run_actions-Publishes :
      (as' : List CachedRuleAction)
      → ((c : ℕ × State) → CommandOf as' c → P c)
      → Publishes P (run_actions as')
  unfolding run_actions
  run_actions-Publishes [] h = Publishes-pure P []
  run_actions-Publishes (a ∷ as') h =
      Publishes-bind P _ _ (should_skip_action-Publishes a.device_id a.state) λ skip.
        Publishes-bind P _ _ (run_action-Publishes a skip (h _ (inl refl))) λ detail.
          Publishes-bind P _ _ (run_actions-Publishes as' (λ c k. h c (inr k)))
            λ rest. Publishes-pure P (detail ∷ rest)

  fire-Publishes :
      (rule : CachedRule) (event : SensorEvent) (started : ℕ) (details : List ConditionDetail)
      → ((c : ℕ × State) → CommandOf rule.actions c → P c)
      → Publishes P (fire rule event started details)
  unfolding fire
  fire-Publishes rule event started details h =
      Publishes-bind P _ _ (run_actions-Publishes rule.actions h) λ results.
        Publishes-bind P _ _ (Publishes-gets P (λ (w : World). w.now)) λ fired_at.
          Publishes-bind P _ _
            (Publishes-db_call P
              (update_db λ db. record db { rules = touch_rules rule.rule_id fired_at db.rules })
              (λ w. refl))
            λ _.
              Publishes-bind P _ _
                (Publishes-state P
                  (modify λ (w : World). record w {
                    cache = touch_last_triggered rule.rule_id fired_at w.cache;
                  })
                  (λ w. refl))
                λ _. Publishes-bind P _ _ (Publishes-gets P (λ (w : World). w.now)) λ now.
                  Publishes-db_call P
                    (insert_execution_log
                      (log_row rule event started (fired rule.condition_logic details results) now))
                    (λ w. refl)

module _ (number_of : Text → Option ℤ) (json_parse : Text → Option Json) where
  read_last-Publishes :
      (P : ℕ × State → Type 0) (id : ℕ) (metric : Text)
      → Publishes P (read_last_device_metric number_of json_parse id metric)
  unfolding read_last_device_metric
  read_last-Publishes P id metric =
      Publishes-catch P _ _
        (Publishes-bind P _ _ (Publishes-OnlyReads P _ (OnlyReads-query _))
          λ row. Publishes-pure P (logged_metric number_of json_parse metric row))
        (λ _. Publishes-pure P none)

  condition_reading-Publishes :
      (P : ℕ × State → Type 0) (event : SensorEvent) (c : CachedRuleCondition)
      → Publishes P (condition_reading number_of json_parse event c)
  unfolding condition_reading
  condition_reading-Publishes P event c = elim (Bool-cases (c.device_id == event.device_id)) [
    | inl own ↦ rw own (Publishes-pure P _)
    | inr foreign ↦ rw foreign (read_last-Publishes P c.device_id c.metric)
  ]

  pub condition_details-Publishes :
      (P : ℕ × State → Type 0) (event : SensorEvent) (cs : List CachedRuleCondition)
      → Publishes P (condition_details number_of json_parse event cs)
  unfolding condition_details
  condition_details-Publishes P event [] = Publishes-pure P []
  condition_details-Publishes P event (c ∷ cs) =
      Publishes-bind P _ _ (condition_reading-Publishes P event c) λ reading.
        Publishes-bind P _ _ (condition_details-Publishes P event cs)
          λ rest. Publishes-pure P (condition_detail c reading ∷ rest)

  pub evaluate_conditions-Publishes :
      (P : ℕ × State → Type 0) (rule : CachedRule) (event : SensorEvent) (started : ℕ)
      → ((c : ℕ × State) → CommandOf rule.actions c → P c)
      → Publishes P (evaluate_conditions number_of json_parse rule event started)
  unfolding evaluate_conditions
  evaluate_conditions-Publishes P rule event started h =
      Publishes-bind P _ _ (condition_details-Publishes P event rule.conditions) λ details.
        elim (Bool-cases (passes rule.condition_logic details)) [
          | inl held ↦ rw held (fire-Publishes P rule event started details h)
          | inr failed ↦ rw failed (Publishes-pure P tt)
        ]
