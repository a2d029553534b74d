-- ===== src/Store/Preserves.antt =====
-- Actions that preserve a property of the state which the passing of time does not touch.
use ginem_api.Common.{ℕ, Bool, true, false, List, inl, inr, if◌then◌else◌}
use ginem_api.Common.Text.{Text}
use ginem_api.Common.Exec.{
  Exec, Result, Thrown, app_error, other, ok, err, pure, throw, gets, continue, catch, handle,
  rethrow, ◌>>=◌,
}
use ginem_api.Store.{World, Reply, db_call}
use ginem_api.Store.Calls.{advance, db_call-cases}

module _ (P : World → Type 0)
    (steady : (t : ℕ) (rest : List Reply) (w : World) → P w → P (advance t rest w)) where
  pub record Preserves {A : Type 0} (m : Exec World A) : Type 0 where
    pub at : (w : World) → P w → P (m w).1

  module _ {A : Type 0} where
    pub Preserves-pure : (a : A) → Preserves (pure a)
    Preserves-pure a = record { at = λ w h. h }

    pub Preserves-throw : (e : Thrown) → Preserves (throw {A = A} e)
    Preserves-throw e = record { at = λ w h. h }

    pub Preserves-gets : (f : World → A) → Preserves (gets f)
    Preserves-gets f = record { at = λ w h. h }

    pub Preserves-if :
        (b : Bool) (m n : Exec World A) → Preserves m → Preserves n → Preserves (if b then m else n)
    Preserves-if true m n km kn = km
    Preserves-if false m n km kn = kn

    pub db_call-preserved :
        (m : Exec World A) (w : World)
        → ((t : ℕ) (rest : List Reply) → P (m (advance t rest w)).1)
        → P w
        → P (db_call m w).1
    db_call-preserved m w k h =
        let (t, rest, cases) = db_call-cases m w in
        elim cases [ inl failed ↦ rw failed (steady t rest w h) | inr made ↦ rw made (k t rest) ]

    pub Preserves-db_call : (m : Exec World A) → Preserves m → Preserves (db_call m)
    Preserves-db_call m k = record {
      at = λ w h. db_call-preserved m w (λ t rest. k.at _ (steady t rest w h)) h;
    }

    handle_preserved :
        (message : Text) (r : Result A) (w : World) → P w → P (handle (rethrow message) r w).1
    handle_preserved message (ok a) w h = h
    handle_preserved message (err (app_error status text)) w h = h
    handle_preserved message (err other) w h = h

    pub Preserves-catch :
        (m : Exec World A) (message : Text) → Preserves m → Preserves (catch m (rethrow message))
    Preserves-catch m message k = record {
      at = λ w h. handle_preserved message (m w).0 (m w).1 (k.at w h);
    }

  module _ {A B : Type 0} where
    continue_preserved :
        (r : Result A) (f : A → Exec World B) (w : World)
        → ((a : A) → Preserves (f a))
        → P w
        → P (continue r f w).1
    continue_preserved (ok a) f w k h = (k a).at w h
    continue_preserved (err e) f w k h = h

    pub Preserves-bind :
        (m : Exec World A) (f : A → Exec World B)
        → Preserves m
        → ((a : A) → Preserves (f a))
        → Preserves (m >>= f)
    Preserves-bind m f km kf = record {
      at = λ w h. continue_preserved (m w).0 f (m w).1 kf (km.at w h);
    }

    -- What follows a query may use that its answer was read off the state from which it goes on.
    pub Preserves-query :
        (f : World → A) (k : A → Exec World B)
        → ((w : World) → P w → P (k (f w) w).1)
        → Preserves (db_call (gets f) >>= k)
    Preserves-query f k h = record {
      at = λ w p.
          let (t, rest, cases) = db_call-cases (gets f) w in
          elim cases [
            | inl failed ↦ rw failed (steady t rest w p)
            | inr made ↦ rw made (h (advance t rest w) (steady t rest w p))
          ];
    }
