-- ===== src/Evaluation/Tests.antt =====
-- evaluation/: runs on small inputs, and uses of the theorems.
use ginem_api.Common.{
  ℕ, zero, suc, ◌<◌, ◌+◌, ◌*◌, ◌≤◌, ◌≡◌, refl, max, true, false, ◌&&◌, Option, none, some, [], ◌∷◌,
  length, arith, ◌↔◌, ◌⊎◌,
}
use ginem_api.Common.Int.{ℤ, pos}
use ginem_api.Common.Text.{Text, codes, text_eq, number_from}
use ginem_api.Common.Exec.{Result, Thrown, ok, err, other}
use ginem_api.Evaluation.Retry.{with_retry}
use ginem_api.Evaluation.Retry.Laws.{nap, scripted, untouched, EndsAt, with_retry-EndsAt}
use ginem_api.Evaluation.Concurrency.{Run, start, ask, Reach, begun, then_step, Step, queue_up}
use ginem_api.Evaluation.Concurrency.Bounded.{Reach-bounded, WaitsOnlyAt}
use ginem_api.Evaluation.Concurrency.Ends.{Reach-ends, steps, IsDone}
use ginem_api.Evaluation.Values.{
  Value, Fields, number, text, array, object, nil, cons, end, field, semantic_equal,
}
use ginem_api.Evaluation.Values.Same.{HasDistinctKeys, has_key, semantic_equal_refl}
use ginem_api.Evaluation.Tools.{
  ToolCall, ToolPairing, tool_call, tool_names, is_empty, compare_tools, classify_errors,
  compare_parameters,
}
use ginem_api.Evaluation.Tools.Names.{
  SameNames, tool_correct_iff, classify_errors-is_empty, faultless,
}
use ginem_api.Evaluation.Tools.Counts.{Counts, all_parameters, compare_parameters-Counts}

-- Two failures, then a success.
abbrev flaky : ℕ → Result ℕ
flaky zero = err other
flaky (suc zero) = err other
flaky (suc (suc n)) = ok 7

flaky-fails : (i : ℕ) → i < 2 → (e : Thrown) × (flaky i ≡ err e)
flaky-fails zero h = (other, refl)
flaky-fails (suc zero) h = (other, refl)
flaky-fails (suc (suc n)) h = absurd (omega arith)

with_retry-EndsAt_example :
    EndsAt flaky 100 2
      (with_retry nap (scripted flaky) (record { max_retries = 3; base_delay_ms = 100 }) untouched)
with_retry-EndsAt_example = with_retry-EndsAt flaky 100 3 2 flaky-fails (omega arith) (omega arith)

-- Two items under a limit of one: the first has the slot, the second waits.
abbrev two_asked : Run ℕ
two_asked = ask (ask (start 2 1))

two_reached : Reach (start 2 1) two_asked
unfolding start ask
two_reached = then_step (then_step begun (queue_up _ (omega arith))) (queue_up _ (omega arith))

second_waits : two_asked.semaphore.queue ≡ 1 ∷ []
unfolding start ask
second_waits = refl

Reach-bounded_example :
    (length two_asked.working ≤ max 1 1)
    × WaitsOnlyAt
        (max 1 1)
        (length two_asked.granted + length two_asked.working)
        two_asked.semaphore.queue
Reach-bounded_example = Reach-bounded 2 1 two_asked two_reached

Reach-ends_example :
    (steps two_reached ≤ 4 * 2) × (IsDone two_asked ⊎ ((s : Run ℕ) × Step two_asked s))
Reach-ends_example = Reach-ends 2 1 two_asked two_reached

abbrev digits_only : Text → Option ℤ
digits_only s = some (pos (number_from 0 s))

abbrev no_number : Text → Option ℤ
no_number s = none

abbrev fan_off : Fields
fan_off =
    field (codes "deviceName") (text (codes "fan")) (field (codes "state") (text (codes "off")) end)

abbrev two_actions : Value
two_actions = array (cons (object fan_off) (cons (object fan_off) nil))

two_actions-HasDistinctKeys : HasDistinctKeys two_actions
unfolding has_key text_eq
two_actions-HasDistinctKeys = ((refl, tt, (refl, tt, tt)), ((refl, tt, (refl, tt, tt)), tt))

semantic_equal_refl_example : semantic_equal no_number two_actions two_actions ≡ true
semantic_equal_refl_example = semantic_equal_refl no_number two_actions two_actions-HasDistinctKeys

-- An expected object looks only at its own keys, so the loop may give it an item that a later one
-- needs: these two arrays hold the same objects, in another order.
abbrev one_key : Value
one_key = object (field (codes "a") (number (pos 1)) end)

abbrev two_keys : Value
two_keys = object (field (codes "a") (number (pos 1)) (field (codes "b") (number (pos 2)) end))

order_matters :
    semantic_equal no_number
      (array (cons one_key (cons two_keys nil)))
      (array (cons two_keys (cons one_key nil)))
    ≡ false
unfolding semantic_equal text_eq
order_matters = refl

abbrev fan_call : ToolCall
fan_call = record { tool = codes "set_state"; parameters = fan_off }

abbrev list_call : ToolCall
list_call = record { tool = codes "list_devices"; parameters = end }

tool_correct_iff_example :
    ((compare_tools tool_call (fan_call ∷ list_call ∷ []) (list_call ∷ fan_call ∷ [])).tool_correct
      ≡ true)
    ↔ SameNames (tool_names (fan_call ∷ list_call ∷ [])) (tool_names (list_call ∷ fan_call ∷ []))
tool_correct_iff_example = tool_correct_iff (fan_call ∷ list_call ∷ []) (list_call ∷ fan_call ∷ [])

classify_errors-is_empty_example :
    is_empty (
      classify_errors tool_call
        (compare_tools tool_call (fan_call ∷ []) (list_call ∷ []))
        (some true)
        none)
    ≡ ((compare_tools tool_call (fan_call ∷ []) (list_call ∷ [])).tool_correct
        && faultless tool_call (some true) none)
classify_errors-is_empty_example =
    classify_errors-is_empty tool_call (fan_call ∷ []) (list_call ∷ []) (some true) none

abbrev fan_pair : ToolPairing
fan_pair = record {
  tool = codes "set_state";
  expected_parameters = fan_off;
  actual_parameters = field (codes "state") (text (codes "on")) end;
}

compare_parameters-Counts_example :
    Counts no_number (all_parameters (fan_pair ∷ [])) (compare_parameters no_number (fan_pair ∷ []))
compare_parameters-Counts_example = compare_parameters-Counts no_number (fan_pair ∷ [])
