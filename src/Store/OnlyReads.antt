-- ===== src/Store/OnlyReads.antt =====
-- Actions that change nothing but the time and the environment's script.
use ginem_api.Common.{ℕ, ◌≡◌, refl, ◌∙◌, ap, List, inl, inr}
use ginem_api.Common.Text.{Text}
use ginem_api.Common.Exec.{
  Exec, Result, Thrown, app_error, other, ok, err, pure, throw, lift, gets, continue, catch, handle,
  rethrow, ◌>>=◌,
}
use ginem_api.Store.{World, Reply, db_call}
use ginem_api.Store.Calls.{advance, db_call-cases}

pub record OnlyReads {A : Type 0} (m : Exec World A) : Type 0 where
  pub at : (w : World) → (t : ℕ) × (rest : List Reply) × ((m w).1 ≡ advance t rest w)

module _ {A : Type 0} where
  pub OnlyReads-pure : (a : A) → OnlyReads (pure a)
  OnlyReads-pure a = record { at = λ w. (w.now, w.script, refl) }

  pub OnlyReads-throw : (e : Thrown) → OnlyReads (throw {A = A} e)
  OnlyReads-throw e = record { at = λ w. (w.now, w.script, refl) }

  pub OnlyReads-lift : (r : Result A) → OnlyReads (lift r)
  OnlyReads-lift r = record { at = λ w. (w.now, w.script, refl) }

  -- A query.
  pub OnlyReads-query : (f : World → A) → OnlyReads (db_call (gets f))
  OnlyReads-query f = record {
    at = λ w.
        let (t, rest, cases) = db_call-cases (gets f) w in
        (
          t,
          rest,
          elim cases [
            | inl failed ↦ ap (λ (x : Result A × World). x.1) failed
            | inr made ↦ ap (λ (x : Result A × World). x.1) made
          ],
        );
  }

  handle_state : (message : Text) (r : Result A) (w : World) → (handle (rethrow message) r w).1 ≡ w
  handle_state message (ok a) w = refl
  handle_state message (err (app_error status text)) w = refl
  handle_state message (err other) w = refl

  pub OnlyReads-catch :
      (m : Exec World A) (message : Text) → OnlyReads m → OnlyReads (catch m (rethrow message))
  OnlyReads-catch m message k = record {
    at = λ w. let (t, rest, e) = k.at w in (t, rest, handle_state message (m w).0 (m w).1 ∙ e);
  }

module _ {A B : Type 0} where
  continue_reads :
      (r : Result A) (f : A → Exec World B) (w : World)
      → ((a : A) → OnlyReads (f a))
      → (t : ℕ) × (rest : List Reply) × ((continue r f w).1 ≡ advance t rest w)
  continue_reads (ok a) f w k = (k a).at w
  continue_reads (err e) f w k = (w.now, w.script, refl)

  pub OnlyReads-bind :
      (m : Exec World A) (f : A → Exec World B)
      → OnlyReads m
      → ((a : A) → OnlyReads (f a))
      → OnlyReads (m >>= f)
  OnlyReads-bind m f km kf = record {
    at = λ w.
        let (_, _, e) = km.at w in
        let (t, rest, e') = continue_reads (m w).0 f (m w).1 kf in
        (t, rest, e' ∙ ap (advance t rest) e);
  }

pub ruleset only_reads = (
  OnlyReads-pure, OnlyReads-throw, OnlyReads-lift, OnlyReads-query, OnlyReads-bind, OnlyReads-catch,
)
