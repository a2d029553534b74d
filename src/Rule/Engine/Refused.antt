-- ===== src/Rule/Engine/Refused.antt =====
-- services/rule/RuleEngine.service.ts: `evaluateOne` on a rule whose conditions do not all hold.
use ginem_api.Common.{
  ℕ, ◌≡◌, refl, ◌∙◌, Bool, true, false, ◌&&◌, Option, none, List, [], ◌∷◌, every, ◌==◌, ◌⊎◌, inl,
  inr, Bool-cases, if◌then◌else◌, arith,
}
use ginem_api.Common.Int.{ℤ}
use ginem_api.Common.Text.{Text}
use ginem_api.Common.Exec.{Result, ok, err, pure, continue, handle}
use ginem_api.Store.{CachedRule, CachedRuleCondition, ConditionDetail, and, World, Reply}
use ginem_api.Store.Calls.{advance, bind-eq-ok, ok-injective}
use ginem_api.Store.OnlyReads.{OnlyReads, OnlyReads-pure, OnlyReads-query, OnlyReads-bind}
use ginem_api.Device.{logs_of, latest}
use ginem_api.Rule.Telemetry.{Json, resolve_metric_reading}
use ginem_api.Rule.Engine.Readings.{
  SensorEvent, holds, condition_detail, condition_reading, condition_details,
  read_last_device_metric, logged_metric,
}
use ginem_api.Rule.Engine.{passes, evaluate_conditions, fire}

-- One of the conditions is on the event's device, and does not hold of the event's reading.
abbrev pub FailsOwn : SensorEvent → List CachedRuleCondition → Type 0
FailsOwn event [] = ⊥
FailsOwn event (c ∷ cs) =
    ((c.device_id ≡ event.device_id)
      × (holds (resolve_metric_reading event.metrics c.metric) c ≡ false))
    ⊎ FailsOwn event cs

refused : (a b : Bool) → (a ≡ false) ⊎ (b ≡ false) → (a && b) ≡ false
refused false b h = refl
refused true b (inl h) = cc
refused true b (inr h) = h

-- What follows the conditions of a rule of logic AND.
stops :
    (rule : CachedRule) (event : SensorEvent) (started : ℕ) (r : Result (List ConditionDetail))
    (w : World)
    → rule.condition_logic ≡ and
    → ((ds : List ConditionDetail) → r ≡ ok ds → every (λ (d : ConditionDetail). d.ok) ds ≡ false)
    → (continue r
        (λ ds. if passes rule.condition_logic ds then fire rule event started ds else pure tt)
        w).1
      ≡ w
unfolding passes
stops rule event started (err e) w logic h = refl
stops rule event started (ok ds) w logic h = rw (logic, h ds refl) refl

module _ (number_of : Text → Option ℤ) (json_parse : Text → Option Json) where
  own_reading :
      (event : SensorEvent) (c : CachedRuleCondition) (w : World) {reading : Option ℤ}
      → c.device_id ≡ event.device_id
      → (condition_reading number_of json_parse event c w).0 ≡ ok reading
      → resolve_metric_reading event.metrics c.metric ≡ reading
  unfolding condition_reading
  own_reading event c w own h = ground arith

  condition_details-fail :
      (event : SensorEvent) (cs : List CachedRuleCondition) (w : World) {ds : List ConditionDetail}
      → FailsOwn event cs
      → (condition_details number_of json_parse event cs w).0 ≡ ok ds
      → every (λ (d : ConditionDetail). d.ok) ds ≡ false
  unfolding condition_details
  condition_details-fail event [] w h e = elim h [ ]
  condition_details-fail event (c ∷ cs) w h e =
      let (reading, read, e₁, _) =
        bind-eq-ok (condition_reading number_of json_parse event c) _ w e in
      let (rest, later, e₂, _) =
        bind-eq-ok (condition_details number_of json_parse event cs) _ _ e₁ in
      elim h [
        | inl (own, fails) ↦
            rw (← ok-injective e₂)
              (refused (holds reading c) _ (inl (rw (own_reading event c w own read) at fails)))
        | inr further ↦
            rw (← ok-injective e₂)
              (refused (holds reading c) _ (inr (condition_details-fail event cs _ further later)))
      ]

  handle-default : (r : Result (Option ℤ)) (w : World) → (handle (λ _. pure none) r w).1 ≡ w
  handle-default (ok a) w = refl
  handle-default (err e) w = refl

  read_last-OnlyReads :
      (id : ℕ) (metric : Text) → OnlyReads (read_last_device_metric number_of json_parse id metric)
  unfolding read_last_device_metric
  read_last-OnlyReads id metric = record {
    at = λ w.
        let k =
          OnlyReads-bind _ _ (OnlyReads-query (λ (v : World). latest (logs_of id v.db.device_logs)))
            (λ row. OnlyReads-pure (logged_metric number_of json_parse metric row)) in
        let (t, rest, e) = k.at w in (t, rest, handle-default _ _ ∙ e);
  }

  condition_reading-OnlyReads :
      (event : SensorEvent) (c : CachedRuleCondition)
      → OnlyReads (condition_reading number_of json_parse event c)
  unfolding condition_reading
  condition_reading-OnlyReads event c = elim (Bool-cases (c.device_id == event.device_id)) [
    | inl own ↦ rw own (OnlyReads-pure _)
    | inr foreign ↦ rw foreign (read_last-OnlyReads c.device_id c.metric)
  ]

  condition_details-OnlyReads :
      (event : SensorEvent) (cs : List CachedRuleCondition)
      → OnlyReads (condition_details number_of json_parse event cs)
  unfolding condition_details
  condition_details-OnlyReads event [] = OnlyReads-pure []
  condition_details-OnlyReads event (c ∷ cs) =
      OnlyReads-bind _ _ (condition_reading-OnlyReads event c) λ reading.
        OnlyReads-bind _ _ (condition_details-OnlyReads event cs)
          λ rest. OnlyReads-pure (condition_detail c reading ∷ rest)

  -- A rule of logic AND with a condition on the event's device that does not hold of the event's
  -- reading does not fire: evaluating its conditions changes nothing but the time and the rest of the
  -- environment's script.
  pub evaluate_conditions-refused :
      (rule : CachedRule) (event : SensorEvent) (started : ℕ) (w : World)
      → rule.condition_logic ≡ and
      → FailsOwn event rule.conditions
      → (t : ℕ) × (rest : List Reply) × ((evaluate_conditions number_of json_parse rule event
            started w).1
          ≡ advance t rest w)
  unfolding evaluate_conditions
  evaluate_conditions-refused rule event started w logic h =
      let (t, rest, e) = (condition_details-OnlyReads event rule.conditions).at w in
      (
        t,
        rest,
        stops rule event started (condition_details number_of json_parse event rule.conditions w).0
              _ logic (λ ds. condition_details-fail event rule.conditions w h)
            ∙ e,
      )
