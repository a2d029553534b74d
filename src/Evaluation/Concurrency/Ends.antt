-- ===== src/Evaluation/Concurrency/Ends.antt =====
-- evaluation/runner/concurrency.ts: a run is never stuck before its end, and comes to it.
use ginem_api.Common.{
  ℕ, suc, ◌+◌, ◌-◌, ◌*◌, ◌<◌, ◌≤◌, max, ◌≡◌, refl, List, [], ◌∷◌, length, length-append, ltb, arith,
  ◌⊎◌, inl, inr, Bool-cases,
}
use native.Mathlib.Decide.{dec_lt}
use ginem_api.Evaluation.Concurrency.{
  acquire, release, Run, here, start, ask, leave, Step, skip, queue_up, stop, begin, finish, fail,
  Reach, begun, then_step,
}
use ginem_api.Evaluation.Concurrency.Bounded.{
  length-Picks, WaitsOnlyAt, IsBounded, start-IsBounded, Reach-IsBounded,
}

waits-full :
    (slots active : ℕ) (queue : List ℕ)
    → 1 ≤ slots
    → active ≡ 0
    → WaitsOnlyAt slots active queue
    → queue ≡ []
waits-full slots active [] some' idle h = refl
waits-full slots active (i ∷ queue) some' idle h = absurd (omega arith)

module _ {R : Type 0} where
  -- What is left to do: four steps at most for an item that has not begun, three for one that waits,
  -- two for one that is granted a slot, one for one whose worker runs.
  unfoldable pub left_to_do : Run R → ℕ
  left_to_do r =
      4 * (r.total - r.next)
      + 3 * length r.semaphore.queue
      + 2 * length r.granted
      + length r.working

  ask-left_to_do : (r : Run R) → r.next < r.total → left_to_do (ask r) < left_to_do r
  unfolding ask acquire left_to_do
  ask-left_to_do r more = elim (Bool-cases (ltb r.semaphore.active r.semaphore.limit)) [
    | inl free ↦ rw free (omega (arith, length-append {0} r.granted (r.next ∷ [])))
    | inr full ↦ rw full (omega (arith, length-append {0} r.semaphore.queue (r.next ∷ [])))
  ]

  leave-left_to_do :
      (limit active total next : ℕ) (queue granted working : List ℕ) (results : List (ℕ × R))
      → left_to_do (
          leave (record {
            semaphore = record { limit = limit; active = active; queue = queue };
            total = total;
            next = next;
            granted = granted;
            working = working;
            results = results;
          }))
        ≤ 4 * (total - next) + 3 * length queue + 2 * length granted + length working
  unfolding leave release left_to_do
  leave-left_to_do limit active total next [] granted working results = omega arith
  leave-left_to_do limit active total next (i ∷ queue) granted working results =
      omega (arith, length-append {0} granted (i ∷ []))

  Step-left_to_do : {r s : Run R} → Step r s → left_to_do s < left_to_do r
  unfolding left_to_do
  Step-left_to_do (skip r more) = omega arith
  Step-left_to_do (queue_up r more) = unfold left_to_do in ask-left_to_do r more
  Step-left_to_do (stop r item rest p) = omega (
    arith,
    length-Picks p,
    leave-left_to_do r.semaphore.limit r.semaphore.active r.total r.next r.semaphore.queue rest
        r.working r.results,
  )
  Step-left_to_do (begin r item rest p) = omega (arith, length-Picks p)
  Step-left_to_do (finish r item result rest p) = omega (
    arith,
    length-Picks p,
    leave-left_to_do r.semaphore.limit r.semaphore.active r.total r.next r.semaphore.queue r.granted
        rest ((item, result) ∷ r.results),
  )
  Step-left_to_do (fail r item rest p) = omega (
    arith,
    length-Picks p,
    leave-left_to_do r.semaphore.limit r.semaphore.active r.total r.next r.semaphore.queue r.granted
        rest r.results,
  )

  -- All items have begun, and none waits or has a slot.
  pub record IsDone (r : Run R) : Type 0 where
    pub all_begun : r.total ≤ r.next
    pub none_waits : r.semaphore.queue ≡ []
    pub none_granted : r.granted ≡ []
    pub none_works : r.working ≡ []

  -- How many steps a run has made.
  pub steps : {r s : Run R} → Reach r s → ℕ
  steps begun = 0
  steps (then_step reach step) = suc (steps reach)

  steps-left_to_do : {r s : Run R} (reach : Reach r s) → steps reach + left_to_do s ≤ left_to_do r
  unfolding steps
  steps-left_to_do begun = omega arith
  steps-left_to_do (then_step reach step) =
      omega (arith, steps-left_to_do reach, Step-left_to_do step)

  move_on :
      (slots limit active total next : ℕ) (queue granted working : List ℕ) (results : List (ℕ × R))
      → let r : Run R = record {
        semaphore = record { limit = limit; active = active; queue = queue };
        total = total;
        next = next;
        granted = granted;
        working = working;
        results = results;
      } in
        IsBounded slots r → IsDone r ⊎ ((s : Run R) × Step r s)
  move_on slots limit active total next queue (i ∷ granted) working results h =
      inr (_, begin _ i granted here)
  move_on slots limit active total next queue [] (i ∷ working) results h =
      inr (_, fail _ i working here)
  move_on slots limit active total next queue [] [] results h = elim (dec_lt next total) [
    | yes more ↦ inr (_, skip _ more)
    | no done ↦ inl (record {
      all_begun = omega arith;
      none_waits =
          waits-full limit active queue (omega (arith, h.some_slot, h.same_limit))
            (omega (arith, h.counted)) h.busy;
      none_granted = refl;
      none_works = refl;
    })
  ]

start-left_to_do :
    (R : Type 0) (total limit : ℕ) → left_to_do (start {R = R} total limit) ≡ 4 * total
unfolding left_to_do start
start-left_to_do R total limit = omega arith

module _ {R : Type 0} (total limit : ℕ) where
  -- Whatever the order of its steps, a run over so many items makes at most four for each item, and
  -- as long as an item has not begun, waits, or has a slot, there is a step that the run can make.
  pub Reach-ends :
      (r : Run R) (reach : Reach (start total limit) r)
      → (steps reach ≤ 4 * total) × (IsDone r ⊎ ((s : Run R) × Step r s))
  Reach-ends r reach = (
    omega (arith, steps-left_to_do reach, start-left_to_do R total limit),
    move_on (max 1 limit) r.semaphore.limit r.semaphore.active r.total r.next r.semaphore.queue
        r.granted r.working r.results
        (Reach-IsBounded (max 1 limit) (start-IsBounded (max 1 limit) total limit refl) reach),
  )
