-- ===== src/Evaluation/Retry/Laws.antt =====
-- evaluation/runner/retry.ts: how often the action is called, how long the retries wait in all, and
-- what comes back.
use ginem_api.Common.{ℕ, zero, suc, ◌+◌, ◌*◌, ◌≤◌, ◌<◌, ◌≡◌, refl, Option, none, some, arith}
use native.Mathlib.Decide.{dec_lt}
use native.Mathlib.Numerals.{towards_suc}
use ginem_api.Common.Exec.{Exec, Result, Thrown, ok, err}
use Prim.Native.Nat.{◌^◌}
use ginem_api.Evaluation.Retry.{RetryOutcome, returned, exhausted, pause, attempts, with_retry}

-- How often the action was called, and how long the retries have waited.
pub record Tally : Type 0 where
  pub calls : ℕ
  pub slept : ℕ

abbrev pub nap : ℕ → Tally → Tally
nap ms t = record t { slept = t.slept + ms }

-- An action whose calls end as `results` says.
abbrev pub scripted : {A : Type 0} → (ℕ → Result A) → Exec Tally A
scripted results t = (results t.calls, record t { calls = t.calls + 1 })

abbrev pub untouched : Tally
untouched = record { calls = 0; slept = 0 }

double_pow : (b f : ℕ) → b * 2 ^ (f + 1) ≡ b * 2 ^ f + b * 2 ^ f
double_pow b f =
    let doubled : 2 ^ (f + 1) ≡ 2 * 2 ^ f = simp towards_suc (grind arith) in
    rw doubled (grind arith)

-- After so many failures, each followed by its pause.
record IsAfter (base failed : ℕ) (t : Tally) : Type 0 where
  counted : t.calls ≡ failed
  waited : t.slept + base ≡ base * 2 ^ failed

module _ {A : Type 0} (results : ℕ → Result A) (base : ℕ) where
  abbrev pub Fails : ℕ → Type 0
  Fails i = (e : Thrown) × (results i ≡ err e)

  IsAfter-pause :
      (failed : ℕ) (t : Tally)
      → IsAfter base failed t
      → IsAfter base (failed + 1) (nap (base * 2 ^ failed) (record t { calls = t.calls + 1 }))
  IsAfter-pause failed t h = record {
    counted = omega (arith, h.counted);
    waited = omega (arith, h.waited, double_pow base failed);
  }

  module _ (left failed : ℕ) (last_error : Option Thrown) (t : Tally) where
    attempts-ok :
        (value : A)
        → results t.calls ≡ ok value
        → attempts nap (scripted results) base (suc left) failed last_error t
          ≡ (returned value (failed + 1), record t { calls = t.calls + 1 })
    unfolding attempts
    attempts-ok value h = rw h refl

    attempts-err :
        (e : Thrown)
        → results t.calls ≡ err e
        → attempts nap (scripted results) base (suc left) failed last_error t
          ≡ attempts nap
              (scripted results)
              base
              left
              (failed + 1)
              (some e)
              (pause nap (scripted results) base left failed (record t { calls = t.calls + 1 }))
    unfolding attempts
    attempts-err e h = rw h refl

  pause-suc :
      (left failed : ℕ) (t : Tally)
      → 0 < left
      → pause nap (scripted results) base left failed t ≡ nap (base * 2 ^ failed) t
  unfolding pause
  pause-suc zero failed t h = elim h [ ]
  pause-suc (suc left) failed t h = refl

  -- The last call is the first one that succeeds, or the last one that is allowed.
  abbrev pub IsLast : ℕ → ℕ → Result A → Type 0
  IsLast k total (ok value) = k < total
  IsLast k total (err e) = k + 1 ≡ total

  abbrev pub ending : ℕ → Result A → RetryOutcome A
  ending n (ok value) = returned value n
  ending n (err e) = exhausted (some e) n

  -- The outcome of call `k`, counted from 0, comes back after it, and the pauses before it have been
  -- waited: base + 2 base + 4 base + …
  abbrev pub EndsAt : ℕ → RetryOutcome A × Tally → Type 0
  EndsAt k (outcome, t) =
      (outcome ≡ ending (k + 1) (results k)) × (t.calls ≡ k + 1) × (t.slept + base ≡ base * 2 ^ k)

  attempts-last :
      (left failed : ℕ) (last_error : Option Thrown) (r : Result A) (t : Tally)
      → failed < failed + left
      → IsLast failed (failed + left) r
      → results failed ≡ r
      → IsAfter base failed t
      → EndsAt failed (attempts nap (scripted results) base left failed last_error t)
  attempts-last zero failed last_error r t some' last e h = absurd (omega arith)
  attempts-last (suc left) failed last_error (ok value) t some' last e h =
      let here : results t.calls ≡ ok value = rw (h.counted) e in
      rw (attempts-ok left failed last_error t value here, e)
        (refl, omega (arith, h.counted), h.waited)
  attempts-last (suc zero) failed last_error (err thrown) t some' last e h =
      let here : results t.calls ≡ err thrown = rw (h.counted) e in
      rw (attempts-err zero failed last_error t thrown here, e)
        (unfold attempts pause in (refl, omega (arith, h.counted), h.waited))
  attempts-last (suc (suc left)) failed last_error (err thrown) t some' last e h =
      absurd (omega arith)

  attempts-EndsAt :
      (left failed k : ℕ) (last_error : Option Thrown) (t : Tally)
      → failed ≤ k
      → k < failed + left
      → ((i : ℕ) → i < k → Fails i)
      → IsLast k (failed + left) (results k)
      → IsAfter base failed t
      → EndsAt k (attempts nap (scripted results) base left failed last_error t)
  attempts-EndsAt zero failed k last_error t from below errs last h = absurd (omega arith)
  attempts-EndsAt (suc left) failed k last_error t from below errs last h = elim (dec_lt failed k) [
    | yes before ↦
        let (e, failure) = errs failed before in
        let here : results t.calls ≡ err e = rw (h.counted) failure in
        let total : failed + 1 + left ≡ failed + suc left = omega arith in
        rw
          (
            attempts-err left failed last_error t e here,
            pause-suc left failed (record t { calls = t.calls + 1 }) (omega arith),
          )
          (attempts-EndsAt left (failed + 1) k (some e)
            (nap (base * 2 ^ failed) (record t { calls = t.calls + 1 })) (omega arith) (omega arith)
            errs (rw total last) (IsAfter-pause failed t h))
    | no last' ↦
        let same : k ≡ failed = omega arith in
        rw same (
          attempts-last (suc left) failed last_error (results failed) t (omega arith)
            (rw same at last) refl h)
  ]

  -- If the calls before `k` fail, and call `k` is the first that succeeds or the last of
  -- `max_retries` + 1, then retrying calls the action exactly `k` + 1 times, waits base * (2 ^ k - 1)
  -- in all, and ends as call `k` does, with the number of attempts.
  pub with_retry-EndsAt :
      (max_retries k : ℕ)
      → ((i : ℕ) → i < k → Fails i)
      → IsLast k (max_retries + 1) (results k)
      → k ≤ max_retries
      → EndsAt k (
          with_retry nap
            (scripted results)
            (record { max_retries = max_retries; base_delay_ms = base })
            untouched)
  unfolding with_retry
  with_retry-EndsAt max_retries k errs last below =
      let total : max_retries + 1 ≡ 0 + (max_retries + 1) = omega arith in
      attempts-EndsAt (max_retries + 1) 0 k none untouched (omega arith) (omega arith) errs
        (rw total at last) (record { counted = refl; waited = omega arith })
