-- ===== src/Rule/Engine/Completes.antt =====
-- services/rule/RuleEngine.service.ts: an evaluation never throws, and leaves a rule that cools down.
use ginem_api.Common.{
  ℕ, ◌+◌, ◌*◌, ◌<◌, ◌≡◌, refl, true, Option, none, some, List, [], ◌∷◌, ◌⊎◌, inl, inr, arith,
}
use ginem_api.Common.Int.{ℤ}
use ginem_api.Common.Text.{Text}
use ginem_api.Common.Exec.{Exec, Result, Thrown, ok, err, pure, continue, handle}
use ginem_api.Store.{CachedRule, World}
use ginem_api.Rule.Cache.{find_by_trigger_device}
use ginem_api.Rule.Telemetry.{Json}
use ginem_api.Rule.Engine.Readings.{SensorEvent}
use ginem_api.Rule.Engine.{
  cooling, is_in_cooldown, evaluate_triggered, evaluate_one, evaluate_safely, evaluate_all,
  evaluate,
}

handle-returns :
    (handler : Thrown → Exec World (Unit {0})) (r : Result (Unit {0})) (w : World)
    → ((e : Thrown) (v : World) → (handler e v).0 ≡ ok tt)
    → (handle handler r w).0 ≡ ok tt
handle-returns handler (ok tt) w h = refl
handle-returns handler (err e) w h = h e w

continue-returns :
    (r : Result (Unit {0})) (f : Unit {0} → Exec World (Unit {0})) (w : World)
    → r ≡ ok tt
    → ((v : World) → (f tt v).0 ≡ ok tt)
    → (continue r f w).0 ≡ ok tt
continue-returns (ok tt) f w e h = h w
continue-returns (err t) f w e h = ground arith

-- A rule that has fired `cooldown_sec` seconds ago or less is in its cooldown.
is_in_cooldown_lem :
    (rule : CachedRule) (last now : ℕ)
    → rule.last_triggered_at ≡ some last
    → 0 < rule.cooldown_sec
    → now < last + rule.cooldown_sec * 1000
    → is_in_cooldown rule now ≡ true
unfolding is_in_cooldown cooling
is_in_cooldown_lem rule last now fired positive soon = rw fired (ground arith)

module _ (number_of : Text → Option ℤ) (json_parse : Text → Option Json) where
  evaluate_safely-returns :
      (rule : CachedRule) (event : SensorEvent) (started : ℕ) (w : World)
      → (evaluate_safely number_of json_parse rule event started w).0 ≡ ok tt
  unfolding evaluate_safely
  evaluate_safely-returns rule event started w =
      handle-returns _ (evaluate_one number_of json_parse rule event started w).0 _
        (λ e v. handle-returns (λ _. pure tt) _ _ (λ _ _. refl))

  evaluate_all-returns :
      (rules : List CachedRule) (event : SensorEvent) (started : ℕ) (w : World)
      → (evaluate_all number_of json_parse rules event started w).0 ≡ ok tt
  unfolding evaluate_all
  evaluate_all-returns [] event started w = refl
  evaluate_all-returns (rule ∷ rules) event started w =
      continue-returns (evaluate_safely number_of json_parse rule event started w).0 _ _
        (evaluate_safely-returns rule event started w) (evaluate_all-returns rules event started)

  -- Evaluating an event returns, whatever the rules are and whichever calls of the database fail.
  pub evaluate-returns :
      (event : SensorEvent) (w : World) → (evaluate number_of json_parse event w).0 ≡ ok tt
  unfolding evaluate
  evaluate-returns event w =
      evaluate_all-returns (find_by_trigger_device event.device_id w.cache) event w.now w

  triggered-rests :
      (rule : CachedRule) (event : SensorEvent) (started now : ℕ) (reading : Option ℤ) (w : World)
      → (reading ≡ none) ⊎ (is_in_cooldown rule now ≡ true)
      → evaluate_triggered number_of json_parse rule event started reading now w ≡ (ok tt, w)
  unfolding evaluate_triggered
  triggered-rests rule event started now none w h = refl
  triggered-rests rule event started now (some r) w (inr h) = rw h refl
  triggered-rests rule event started now (some r) w (inl h) = ground arith

  -- A rule whose cooldown is positive, and which last fired less than that many seconds before the
  -- current time, is left alone: its evaluation returns and changes nothing at all.
  pub evaluate_one-cooldown :
      (rule : CachedRule) (event : SensorEvent) (started last : ℕ) (w : World)
      → rule.last_triggered_at ≡ some last
      → 0 < rule.cooldown_sec
      → w.now < last + rule.cooldown_sec * 1000
      → evaluate_one number_of json_parse rule event started w ≡ (ok tt, w)
  unfolding evaluate_one
  evaluate_one-cooldown rule event started last w fired positive soon =
      triggered-rests rule event started w.now _ w
        (inr (is_in_cooldown_lem rule last w.now fired positive soon))
