-- ===== src/Store/Commands.antt =====
-- What an action publishes: commands are only added, and each satisfies a predicate.
use mathlib.Core.List.{append_assoc, append-nil}
use ginem_api.Common.{ℕ, ◌≡◌, refl, ◌∙◌, ap, sym, List, [], ◌++◌, All, All-append, inl, inr}
use ginem_api.Common.Text.{Text}
use ginem_api.Common.Exec.{
  Exec, Result, Thrown, app_error, other, ok, err, pure, gets, continue, catch, handle, rethrow,
  ◌>>=◌,
}
use ginem_api.Store.{State, World, db_call}
use ginem_api.Store.Calls.{advance, db_call-cases}
use ginem_api.Store.OnlyReads.{OnlyReads}

abbrev pub Added : (ℕ × State → Type 0) → World → World → Type 0
Added P before after =
    (new : List (ℕ × State)) × (after.commands ≡ before.commands ++ new) × All P new

pub Added-same :
    (P : ℕ × State → Type 0) (before after : World)
    → after.commands ≡ before.commands
    → Added P before after
Added-same P before after e = ([], e ∙ sym (append-nil before.commands), tt)

pub Added-trans : (P : ℕ × State → Type 0) (u v w : World) → Added P u v → Added P v w → Added P u w
Added-trans P u v w (first, e, h) (second, e', h') = (
  first ++ second,
  e' ∙ ap (λ c. c ++ second) e ∙ append_assoc u.commands first second,
  All-append P first second h h',
)

pub record Publishes {A : Type 0} (P : ℕ × State → Type 0) (m : Exec World A) : Type 0 where
  pub at : (w : World) → Added P w (m w).1

module _ {A : Type 0} (P : ℕ × State → Type 0) where
  pub Publishes-state :
      (m : Exec World A) → ((w : World) → (m w).1.commands ≡ w.commands) → Publishes P m
  Publishes-state m e = record { at = λ w. Added-same P w (m w).1 (e w) }

  pub Publishes-OnlyReads : (m : Exec World A) → OnlyReads m → Publishes P m
  Publishes-OnlyReads m k =
      Publishes-state m λ w. let (_, _, e) = k.at w in ap (λ (v : World). v.commands) e

  -- A database call of an action that publishes nothing.
  pub Publishes-db_call :
      (m : Exec World A) → ((w : World) → (m w).1.commands ≡ w.commands) → Publishes P (db_call m)
  Publishes-db_call m k = Publishes-state (db_call m) λ w.
      let (t, rest, cases) = db_call-cases m w in
      elim cases [
        | inl failed ↦ ap (λ (x : Result A × World). x.1.commands) failed
        | inr made ↦ ap (λ (x : Result A × World). x.1.commands) made ∙ k (advance t rest w)
      ]

  handle-Added :
      (handler : Thrown → Exec World A) (r : Result A) (u w : World)
      → ((e : Thrown) → Publishes P (handler e))
      → Added P u w
      → Added P u (handle handler r w).1
  handle-Added handler (ok a) u w k h = h
  handle-Added handler (err e) u w k h = Added-trans P u w (handler e w).1 h ((k e).at w)

  pub Publishes-catch :
      (m : Exec World A) (handler : Thrown → Exec World A)
      → Publishes P m
      → ((e : Thrown) → Publishes P (handler e))
      → Publishes P (catch m handler)
  Publishes-catch m handler km kh = record {
    at = λ w. handle-Added handler (m w).0 w (m w).1 kh (km.at w);
  }

  pub Publishes-rethrow : (message : Text) (e : Thrown) → Publishes P (rethrow {A = A} message e)
  Publishes-rethrow message (app_error status text) = Publishes-state _ (λ w. refl)
  Publishes-rethrow message other = Publishes-state _ (λ w. refl)

  pub Publishes-pure : (a : A) → Publishes P (pure a)
  Publishes-pure a = Publishes-state _ (λ w. refl)

  pub Publishes-gets : (f : World → A) → Publishes P (gets f)
  Publishes-gets f = Publishes-state _ (λ w. refl)

module _ {A B : Type 0} (P : ℕ × State → Type 0) where
  continue-Added :
      (r : Result A) (f : A → Exec World B) (u w : World)
      → ((a : A) → Publishes P (f a))
      → Added P u w
      → Added P u (continue r f w).1
  continue-Added (ok a) f u w k h = Added-trans P u w (f a w).1 h ((k a).at w)
  continue-Added (err e) f u w k h = h

  pub Publishes-bind :
      (m : Exec World A) (f : A → Exec World B)
      → Publishes P m
      → ((a : A) → Publishes P (f a))
      → Publishes P (m >>= f)
  Publishes-bind m f km kf = record { at = λ w. continue-Added (m w).0 f w (m w).1 kf (km.at w) }
