-- ===== src/Evaluation/Concurrency/Bounded.antt =====
-- evaluation/runner/concurrency.ts: the limit holds, no slot is idle while an item waits, and a run
-- comes to its end.
use ginem_api.Common.{
  ℕ, ◌+◌, ◌-◌, ◌<◌, ◌≤◌, max, ◌≡◌, refl, List, [], ◌∷◌, ◌++◌, length, length-append, ltb, arith,
  inl, inr, Bool-cases,
}
use ginem_api.Evaluation.Concurrency.{
  acquire, release, Run, Picks, here, there, start, ask, leave, Step, skip, queue_up, stop, begin,
  finish, fail, Reach, begun, then_step,
}

-- An item waits only while all slots are taken.
abbrev pub WaitsOnlyAt : ℕ → ℕ → List ℕ → Type 0
WaitsOnlyAt limit active [] = Unit
WaitsOnlyAt limit active (item ∷ rest) = active ≡ limit

pub length-Picks :
    {item : ℕ} {items rest : List ℕ} → Picks item items rest → length items ≡ length rest + 1
length-Picks here = omega arith
length-Picks (there p) = omega (arith, length-Picks p)

waits-append :
    (limit active : ℕ) (items : List ℕ) (item : ℕ)
    → active ≡ limit
    → WaitsOnlyAt limit active (items ++ item ∷ [])
waits-append limit active [] item h = h
waits-append limit active (i ∷ items) item h = h

-- While a slot is free nothing waits.
waits-free :
    (limit active : ℕ) (items : List ℕ)
    → active < limit
    → WaitsOnlyAt limit active items
    → WaitsOnlyAt limit (active + 1) items
waits-free limit active [] free h = tt
waits-free limit active (i ∷ items) free h = absurd (omega arith)

module _ {R : Type 0} (slots : ℕ) where
  -- There is a slot at least; those in use are those of the items that have one, and no more than
  -- there are; and none is free while an item waits.
  pub record IsBounded (r : Run R) : Type 0 where
    pub same_limit : r.semaphore.limit ≡ slots
    pub counted : r.semaphore.active ≡ length r.granted + length r.working
    pub within : r.semaphore.active ≤ r.semaphore.limit
    pub busy : WaitsOnlyAt r.semaphore.limit r.semaphore.active r.semaphore.queue
    pub some_slot : 1 ≤ slots

  pub start-IsBounded : (total limit : ℕ) → slots ≡ max 1 limit → IsBounded (start total limit)
  unfolding start
  start-IsBounded total limit e = record {
    same_limit = omega arith;
    counted = omega arith;
    within = omega arith;
    busy = tt;
    some_slot = omega arith;
  }

  ask-IsBounded : (r : Run R) → IsBounded r → IsBounded (ask r)
  unfolding ask acquire
  ask-IsBounded r h = elim (Bool-cases (ltb r.semaphore.active r.semaphore.limit)) [
    | inl free ↦ rw free (record {
      same_limit = h.same_limit;
      counted = omega (arith, h.counted, length-append {0} r.granted (r.next ∷ []));
      within = ground arith;
      busy =
          waits-free r.semaphore.limit r.semaphore.active r.semaphore.queue (ground arith) h.busy;
      some_slot = h.some_slot;
    })
    | inr full ↦ rw full (record {
      same_limit = h.same_limit;
      counted = h.counted;
      within = h.within;
      busy = waits-append _ _ r.semaphore.queue r.next (ground arith);
      some_slot = h.some_slot;
    })
  ]

  -- An item that gives its slot back has left the lists already.
  leave-IsBounded :
      (limit active total next : ℕ) (queue granted working : List ℕ) (results : List (ℕ × R))
      → limit ≡ slots
      → 1 ≤ slots
      → active ≡ length granted + length working + 1
      → active ≤ limit
      → WaitsOnlyAt limit active queue
      → IsBounded (
          leave (record {
            semaphore = record { limit = limit; active = active; queue = queue };
            total = total;
            next = next;
            granted = granted;
            working = working;
            results = results;
          }))
  unfolding leave release
  leave-IsBounded limit active total next [] granted working results same some' counted within
        busy =
      record {
        same_limit = same;
        counted = omega arith;
        within = omega arith;
        busy = tt;
        some_slot = omega arith;
      }
  leave-IsBounded limit active total next (i ∷ queue) granted working results same some' counted
        within busy =
      record {
        same_limit = same;
        counted = omega (arith, length-append {0} granted (i ∷ []));
        within = omega arith;
        busy = elim queue as (λ q. WaitsOnlyAt limit (active - 1 + 1) q) [
          | [] ↦ tt
          | j ∷ rest ↦ omega arith
        ];
        some_slot = omega arith;
      }

  Step-IsBounded : {r s : Run R} → Step r s → IsBounded r → IsBounded s
  Step-IsBounded (skip r more) h = record {
    same_limit = h.same_limit;
    counted = h.counted;
    within = h.within;
    busy = h.busy;
    some_slot = h.some_slot;
  }
  Step-IsBounded (queue_up r more) h = ask-IsBounded r h
  Step-IsBounded (stop r item rest p) h =
      leave-IsBounded _ _ _ _ _ rest r.working r.results h.same_limit h.some_slot
        (omega (arith, h.counted, length-Picks p)) h.within h.busy
  Step-IsBounded (begin r item rest p) h = record {
    same_limit = h.same_limit;
    counted = omega (arith, h.counted, length-Picks p);
    within = h.within;
    busy = h.busy;
    some_slot = h.some_slot;
  }
  Step-IsBounded (finish r item result rest p) h =
      leave-IsBounded _ _ _ _ _ r.granted rest ((item, result) ∷ r.results) h.same_limit h.some_slot
        (omega (arith, h.counted, length-Picks p)) h.within h.busy
  Step-IsBounded (fail r item rest p) h =
      leave-IsBounded _ _ _ _ _ r.granted rest r.results h.same_limit h.some_slot
        (omega (arith, h.counted, length-Picks p)) h.within h.busy

  pub Reach-IsBounded : {r s : Run R} → IsBounded r → Reach r s → IsBounded s
  Reach-IsBounded h begun = h
  Reach-IsBounded h (then_step reach step) = Step-IsBounded step (Reach-IsBounded h reach)

module _ {R : Type 0} (total limit : ℕ) where
  -- However the steps of a run are ordered, no more workers run at once than the limit, or one if
  -- the limit is 0, and an item waits only while that many items have a slot.
  pub Reach-bounded :
      (r : Run R)
      → Reach (start total limit) r
      → (length r.working ≤ max 1 limit)
        × WaitsOnlyAt (max 1 limit) (length r.granted + length r.working) r.semaphore.queue
  Reach-bounded r reach =
      let h =
        Reach-IsBounded (max 1 limit) (start-IsBounded (max 1 limit) total limit refl) reach in
      (omega (arith, h.same_limit, h.counted, h.within), rw (← h.same_limit, ← h.counted) h.busy)
