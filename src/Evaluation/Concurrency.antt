-- ===== src/Evaluation/Concurrency.antt =====
-- evaluation/runner/concurrency.ts: a counting semaphore, and the items that run under it. What the
-- event loop and the workers decide (which item goes on next, whether a stop is asked for, whether a
-- worker throws) is the choice of the step.
pub mod Bounded
pub mod Ends
use ginem_api.Common.{
  ℕ, suc, ◌+◌, ◌-◌, ◌<◌, ◌≤◌, max, Bool, true, false, Option, none, some, List, [], ◌∷◌, ◌++◌, ltb,
  if◌then◌else◌,
}

pub record Semaphore : Type 0 where
  pub limit : ℕ
  pub active : ℕ
  pub queue : List ℕ

-- Whether the slot is given at once; otherwise the item waits.
unfoldable pub acquire : ℕ → Semaphore → Bool × Semaphore
acquire item s =
    if ltb s.active s.limit
    then (true, record s { active = s.active + 1 })
    else (false, record s { queue = s.queue ++ item ∷ [] })

abbrev pub wake : List ℕ → Semaphore → Option ℕ × Semaphore
wake [] s = (none, s)
wake (item ∷ rest) s = (some item, record s { active = s.active + 1; queue = rest })

-- The slot goes back, and the item that has waited longest gets one.
unfoldable pub release : Semaphore → Option ℕ × Semaphore
release s = wake s.queue (record s { active = s.active - 1 })

-- `next` is the first item that has not begun; an item that has its slot is `granted` until it goes
-- on, and `working` while its worker runs. `results` are the results, the newest first.
pub record Run (R : Type 0) : Type 0 where
  pub semaphore : Semaphore
  pub total : ℕ
  pub next : ℕ
  pub granted : List ℕ
  pub working : List ℕ
  pub results : List (ℕ × R)

-- The item is taken out of the list.
pub data Picks (item : ℕ) : List ℕ → List ℕ → Type 0 where
  here : {rest : List ℕ} → Picks item (item ∷ rest) rest
  there :
      {other : ℕ} {items rest : List ℕ}
      → Picks item items rest
      → Picks item (other ∷ items) (other ∷ rest)

abbrev pub grant : Bool → ℕ → List ℕ → List ℕ
grant true item granted = granted ++ item ∷ []
grant false item granted = granted

abbrev pub resume : Option ℕ → List ℕ → List ℕ
resume none granted = granted
resume (some item) granted = granted ++ item ∷ []

module _ {R : Type 0} where
  unfoldable pub start : ℕ → ℕ → Run R
  start total limit = record {
    semaphore = record { limit = max 1 limit; active = 0; queue = [] };
    total = total;
    next = 0;
    granted = [];
    working = [];
    results = [];
  }

  unfoldable pub ask : Run R → Run R
  unfolding acquire
  ask r =
      let (given, s) = acquire r.next r.semaphore in
      record r { semaphore = s; next = r.next + 1; granted = grant given r.next r.granted }

  -- The `finally` block.
  unfoldable pub leave : Run R → Run R
  unfolding release
  leave r =
      let (woken, s) = release r.semaphore in
      record r { semaphore = s; granted = resume woken r.granted }

  -- An item is skipped before or after it has its slot, or its worker starts, and returns or throws.
  pub data Step : Run R → Run R → Type 0 where
    skip : (r : Run R) → r.next < r.total → Step r (record r { next = r.next + 1 })
    queue_up : (r : Run R) → r.next < r.total → Step r (ask r)
    stop :
        (r : Run R) (item : ℕ) (rest : List ℕ)
        → Picks item r.granted rest
        → Step r (leave (record r { granted = rest }))
    begin :
        (r : Run R) (item : ℕ) (rest : List ℕ)
        → Picks item r.granted rest
        → Step r (record r { granted = rest; working = item ∷ r.working })
    finish :
        (r : Run R) (item : ℕ) (result : R) (rest : List ℕ)
        → Picks item r.working rest
        → Step r (leave (record r { working = rest; results = (item, result) ∷ r.results }))
    fail :
        (r : Run R) (item : ℕ) (rest : List ℕ)
        → Picks item r.working rest
        → Step r (leave (record r { working = rest }))

  pub data Reach (r : Run R) : Run R → Type 0 where
    begun : Reach r r
    then_step : {s t : Run R} → Reach r s → Step s t → Reach r t
