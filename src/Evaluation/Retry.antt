-- ===== src/Evaluation/Retry.antt =====
-- evaluation/runner/retry.ts: an action is tried again after a delay that doubles each time.
pub mod Laws
use Prim.Native.Nat.{◌^◌}
use ginem_api.Common.{ℕ, zero, suc, ◌+◌, ◌*◌, Option, none, some}
use ginem_api.Common.Exec.{Exec, Result, Thrown, ok, err}

-- `RetryOutcome`, or a `RetryExhaustedError` with the last error, if there is one.
pub data RetryOutcome (A : Type 0) : Type 0 where
  returned : A → ℕ → RetryOutcome A
  exhausted : Option Thrown → ℕ → RetryOutcome A

pub record RetryOptions : Type 0 where
  pub max_retries : ℕ
  pub base_delay_ms : ℕ

module _ {S A : Type 0} (sleep : ℕ → S → S) (fn : Exec S A) (base_delay_ms : ℕ) where
  -- The delay after a failed attempt, of which there were `failed` before it, if attempts are left.
  unfoldable pub pause : ℕ → ℕ → S → S
  pause zero failed s = s
  pause (suc left) failed s = sleep (base_delay_ms * 2 ^ failed) s

  -- The loop, by the attempts that are left; `failed` attempts came before.
  unfoldable pub attempts : ℕ → ℕ → Option Thrown → S → RetryOutcome A × S
  unfolding pause
  attempts zero failed last_error s = (exhausted last_error failed, s)
  attempts (suc left) failed last_error s =
      let (r, s') = fn s in
      elim r [
        | ok value ↦ (returned value (failed + 1), s')
        | err e ↦ attempts left (failed + 1) (some e) (pause left failed s')
      ]

unfoldable pub with_retry :
    {S A : Type 0} → (ℕ → S → S) → Exec S A → RetryOptions → S → RetryOutcome A × S
unfolding attempts
with_retry sleep fn options s =
    attempts sleep fn options.base_delay_ms (options.max_retries + 1) 0 none s
