-- ===== src/Rule/Engine/Triggered.antt =====
-- services/rule/RuleEngine.service.ts: `evaluate` and the loop over the candidate rules.
use ginem_api.Common.{
  ℕ, ◌≡◌, refl, true, Option, none, some, is_some, List, [], ◌∷◌, filter, ◌==◌, ==_iff, ◌⊎◌, inl,
  inr, Bool-cases,
}
use ginem_api.Common.Int.{ℤ}
use ginem_api.Common.Text.{Text}
use ginem_api.Store.{State, CachedRule, World}
use ginem_api.Store.Commands.{
  Added, Publishes, Publishes-db_call, Publishes-catch, Publishes-bind, Publishes-pure,
  Publishes-gets,
}
use ginem_api.Store.{failed}
use ginem_api.Rule.Cache.{get_active, find_by_trigger_device}
use ginem_api.Rule.Telemetry.{Json, resolve_metric_reading}
use ginem_api.Rule.Engine.Readings.{SensorEvent}
use ginem_api.Rule.Engine.{
  is_in_cooldown, evaluate_triggered, evaluate_one, evaluate_safely, evaluate_all, evaluate,
  insert_execution_log, log_row,
}
use ginem_api.Rule.Engine.Published.{CommandOf, evaluate_conditions-Publishes}

-- The command is that of an action of the rule, and the event has a reading for its trigger.
abbrev pub CommandOfRule : SensorEvent → CachedRule → ℕ × State → Type 0
CommandOfRule event rule c =
    (is_some (resolve_metric_reading event.metrics rule.trigger.metric) ≡ true)
    × CommandOf rule.actions c

-- The command is that of one of the rules, which is active and triggered by the event's device.
abbrev pub CommandOfAny : SensorEvent → List CachedRule → ℕ × State → Type 0
CommandOfAny event [] c = ⊥
CommandOfAny event (rule ∷ rules) c =
    ((rule.is_active ≡ true)
      × (rule.trigger.device_id ≡ event.device_id)
      × CommandOfRule event rule c)
    ⊎ CommandOfAny event rules c

abbrev AnyOf : SensorEvent → List CachedRule → ℕ × State → Type 0
AnyOf event [] c = ⊥
AnyOf event (rule ∷ rules) c = CommandOfRule event rule c ⊎ AnyOf event rules c

candidates_lem :
    (event : SensorEvent) (rules : List CachedRule) (c : ℕ × State)
    → AnyOf event
        (filter (λ r. r.trigger.device_id == event.device_id) (filter (λ r. r.is_active) rules))
        c
    → CommandOfAny event rules c
candidates_lem event [] c h = h
candidates_lem event (rule ∷ rules) c h = elim (Bool-cases rule.is_active) [
  | inr inactive ↦ inr (candidates_lem event rules c (rw inactive at h))
  | inl active ↦ elim (Bool-cases (rule.trigger.device_id == event.device_id)) [
    | inr foreign ↦ inr (candidates_lem event rules c (rw foreign at (rw active at h)))
    | inl own ↦ elim (rw own at (rw active at h)) [
      | inl k ↦ inl (active, (==_iff rule.trigger.device_id event.device_id).0 own, k)
      | inr k ↦ inr (candidates_lem event rules c k)
    ]
  ]
]

module _ (number_of : Text → Option ℤ) (json_parse : Text → Option Json) where
  evaluate_triggered-Publishes :
      (P : ℕ × State → Type 0) (rule : CachedRule) (event : SensorEvent) (started : ℕ)
      (reading : Option ℤ) (now : ℕ)
      → ((c : ℕ × State) → (is_some reading ≡ true) × CommandOf rule.actions c → P c)
      → Publishes P (evaluate_triggered number_of json_parse rule event started reading now)
  unfolding evaluate_triggered
  evaluate_triggered-Publishes P rule event started none now h = Publishes-pure P tt
  evaluate_triggered-Publishes P rule event started (some r) now h =
      elim (Bool-cases (is_in_cooldown rule now)) [
        | inl cooling ↦ rw cooling (Publishes-pure P tt)
        | inr ready ↦ rw ready (
            evaluate_conditions-Publishes number_of json_parse P rule event started
              (λ c k. h c (refl, k)))
      ]

  evaluate_one-Publishes :
      (P : ℕ × State → Type 0) (rule : CachedRule) (event : SensorEvent) (started : ℕ)
      → ((c : ℕ × State) → CommandOfRule event rule c → P c)
      → Publishes P (evaluate_one number_of json_parse rule event started)
  unfolding evaluate_one
  evaluate_one-Publishes P rule event started h =
      Publishes-bind P _ _ (Publishes-gets P (λ (w : World). w.now)) λ now.
        evaluate_triggered-Publishes P rule event started
          (resolve_metric_reading event.metrics rule.trigger.metric) now h

  evaluate_safely-Publishes :
      (P : ℕ × State → Type 0) (rule : CachedRule) (event : SensorEvent) (started : ℕ)
      → ((c : ℕ × State) → CommandOfRule event rule c → P c)
      → Publishes P (evaluate_safely number_of json_parse rule event started)
  unfolding evaluate_safely insert_execution_log
  evaluate_safely-Publishes P rule event started h =
      Publishes-catch P _ _ (evaluate_one-Publishes P rule event started h) λ _.
        Publishes-catch P _ _
          (Publishes-bind P _ _ (Publishes-gets P (λ (w : World). w.now)) λ now.
            Publishes-db_call P (insert_execution_log (log_row rule event started failed now))
              (λ w. refl))
          (λ _. Publishes-pure P tt)

  evaluate_all-Publishes :
      (P : ℕ × State → Type 0) (rules : List CachedRule) (event : SensorEvent) (started : ℕ)
      → ((c : ℕ × State) → AnyOf event rules c → P c)
      → Publishes P (evaluate_all number_of json_parse rules event started)
  unfolding evaluate_all
  evaluate_all-Publishes P [] event started h = Publishes-pure P tt
  evaluate_all-Publishes P (rule ∷ rules) event started h =
      Publishes-bind P _ _ (evaluate_safely-Publishes P rule event started (λ c k. h c (inl k)))
        λ _. evaluate_all-Publishes P rules event started (λ c k. h c (inr k))

  -- Whatever the database does, evaluating an event only adds to the commands that were published,
  -- and each command it adds is that of an action of a rule of the cache which is active, is
  -- triggered by the event's device, and for whose trigger the event has a reading.
  pub evaluate-CommandOfAny :
      (event : SensorEvent) (w : World)
      → Added (CommandOfAny event w.cache.rules) w (evaluate number_of json_parse event w).1
  unfolding evaluate find_by_trigger_device get_active
  evaluate-CommandOfAny event w =
      (evaluate_all-Publishes (CommandOfAny event w.cache.rules)
          (find_by_trigger_device event.device_id w.cache) event w.now
          (candidates_lem event w.cache.rules)).at
        w
