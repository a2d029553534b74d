-- ===== src/Store/Calls.antt =====
-- Which actions leave the tables alone, and what a transaction leaves behind.
use ginem_api.Common.{
  ℕ, ◌+◌, Bool, true, false, ◌≡◌, refl, ◌∙◌, ◌⊎◌, inl, inr, List, [], ◌∷◌, arith, if◌then◌else◌, ap,
  sym, Bool-cases,
}
use ginem_api.Common.Text.{Text}
use ginem_api.Common.Exec.{
  Exec, Result, Thrown, app_error, other, ok, err, pure, throw, lift, gets, catch, handle, rethrow,
  continue, ◌>>=◌,
}
use ginem_api.Store.{Db, World, Reply, db_call, answered, transaction, rolled_back, update_db}

-- The action leaves the tables as they are, whether it returns or throws.
pub record KeepsDb {A : Type 0} (m : Exec World A) : Type 0 where
  pub at : (w : World) → (m w).1.db ≡ w.db

module _ {A : Type 0} where
  pub KeepsDb-pure : (a : A) → KeepsDb (pure a)
  KeepsDb-pure a = record { at = λ w. refl }

  pub KeepsDb-throw : (e : Thrown) → KeepsDb (throw {A = A} e)
  KeepsDb-throw e = record { at = λ w. refl }

  pub KeepsDb-lift : (r : Result A) → KeepsDb (lift r)
  KeepsDb-lift r = record { at = λ w. refl }

  pub KeepsDb-gets : (f : World → A) → KeepsDb (gets f)
  KeepsDb-gets f = record { at = λ w. refl }

  answered_db :
      (script : List Reply) (m : Exec World A) (w : World)
      → KeepsDb m
      → (answered script m w).1.db ≡ w.db
  unfolding answered
  answered_db [] m w k = k.at w
  answered_db (r ∷ rest) m w k =
      ground (arith, k.at (record w { now = w.now + r.elapsed; script = rest }))

  pub KeepsDb-db_call : (m : Exec World A) → KeepsDb m → KeepsDb (db_call m)
  unfolding db_call
  KeepsDb-db_call m k = record { at = λ w. answered_db w.script m w k }

module _ {A B : Type 0} where
  continue_db :
      (r : Result A) (f : A → Exec World B) (w : World)
      → ((a : A) → KeepsDb (f a))
      → (continue r f w).1.db ≡ w.db
  continue_db (ok a) f w k = (k a).at w
  continue_db (err e) f w k = refl

  pub KeepsDb-bind :
      (m : Exec World A) (f : A → Exec World B)
      → KeepsDb m
      → ((a : A) → KeepsDb (f a))
      → KeepsDb (m >>= f)
  KeepsDb-bind m f km kf = record { at = λ w. continue_db (m w).0 f (m w).1 kf ∙ km.at w }

module _ {A : Type 0} where
  pub KeepsDb-if :
      (b : Bool) (m n : Exec World A) → KeepsDb m → KeepsDb n → KeepsDb (if b then m else n)
  KeepsDb-if true m n km kn = km
  KeepsDb-if false m n km kn = kn

  pub KeepsDb-rethrow : (message : Text) (e : Thrown) → KeepsDb (rethrow {A = A} message e)
  KeepsDb-rethrow message (app_error status text) = record { at = λ w. refl }
  KeepsDb-rethrow message other = record { at = λ w. refl }

  handle_db :
      (message : Text) (r : Result A) (w : World) → (handle (rethrow message) r w).1.db ≡ w.db
  handle_db message (ok a) w = refl
  handle_db message (err (app_error status text)) w = refl
  handle_db message (err other) w = refl

  -- A handler that only throws again adds nothing to what its body does to the tables.
  pub db-catch :
      (m : Exec World A) (message : Text) (w : World)
      → (catch m (rethrow message) w).1.db ≡ (m w).1.db
  db-catch m message w = handle_db message (m w).0 (m w).1

  pub KeepsDb-catch :
      (m : Exec World A) (message : Text) → KeepsDb m → KeepsDb (catch m (rethrow message))
  KeepsDb-catch m message k = record { at = λ w. db-catch m message w ∙ k.at w }

pub ruleset keeps_db = (
  KeepsDb-pure, KeepsDb-throw, KeepsDb-lift, KeepsDb-gets, KeepsDb-db_call, KeepsDb-bind,
  KeepsDb-if, KeepsDb-rethrow, KeepsDb-catch,
)

-- The world after a database call that has not been made yet: time has passed, and the environment
-- has used up some of its script.
abbrev pub advance : ℕ → List Reply → World → World
advance t script w = record w { now = t; script = script }

module _ {A : Type 0} where
  answered-cases :
      (script : List Reply) (m : Exec World A) (w : World)
      → w.script ≡ script
      → (t : ℕ) × (rest : List Reply) × ((answered script m w ≡ (err other, advance t rest w))
          ⊎ (answered script m w ≡ m (advance t rest w)))
  unfolding answered
  answered-cases [] m w e = (w.now, [], inr (ap m (ground arith)))
  answered-cases (record_ ∷ rest) m w e = (
    w.now + record_.elapsed,
    rest,
    elim (Bool-cases record_.fails) [ inl fails ↦ inl (rw fails) | inr made ↦ inr (rw made) ],
  )

  -- A database call fails and changes nothing, or is made.
  pub db_call-cases :
      (m : Exec World A) (w : World)
      → (t : ℕ) × (rest : List Reply) × ((db_call m w ≡ (err other, advance t rest w))
          ⊎ (db_call m w ≡ m (advance t rest w)))
  unfolding db_call
  db_call-cases m w = answered-cases w.script m w refl

  abbrev commit : Db → Result A → World → Result A × World
  commit before r w = rolled_back before (continue r (λ a. db_call (λ v. (ok a, v))) w)

  commit-cases :
      (before : Db) (r : Result A) (w : World)
      → ((e : Thrown) × ((commit before r w).0 ≡ err e) × ((commit before r w).1.db ≡ before))
        ⊎ ((a : A) × (r ≡ ok a)
            × ((commit before r w).0 ≡ ok a)
            × ((commit before r w).1.db ≡ w.db))
  unfolding rolled_back
  commit-cases before (err e) w = inl (e, refl, refl)
  commit-cases before (ok a) w =
      let (t, rest, cases) = db_call-cases (λ v. (ok a, v)) w in
      elim cases [
        | inl failed ↦ inl (other, rw failed refl, rw failed refl)
        | inr made ↦ inr (a, refl, rw made refl, rw made refl)
      ]

module _ {A : Type 0} where
  -- A transaction that throws leaves the tables as they were; one that returns leaves them as its
  -- body did.
  pub transaction-cases :
      (m : Exec World A) (w : World)
      → ((e : Thrown) × ((transaction m w).0 ≡ err e) × ((transaction m w).1.db ≡ w.db))
        ⊎ ((a : A) × (t : ℕ) × (rest : List Reply) × ((m (advance t rest w)).0 ≡ ok a)
            × ((transaction m w).0 ≡ ok a)
            × ((transaction m w).1.db ≡ (m (advance t rest w)).1.db))
  unfolding transaction
  transaction-cases m w =
      let (t, rest, cases) = db_call-cases (λ v. (ok tt, v)) w in
      elim cases [
        | inl failed ↦ rw failed (inl (other, refl, refl))
        | inr made ↦
            rw made (elim (commit-cases w.db (m (advance t rest w)).0 (m (advance t rest w)).1) [
              | inl thrown ↦ inl thrown
              | inr (a, returned, result, kept) ↦ inr (a, t, rest, returned, result, kept)
            ])
      ]

module _ {S A B : Type 0} where
  continue-eq-ok :
      (r : Result A) (f : A → Exec S B) (w : S) {b : B}
      → (continue r f w).0 ≡ ok b
      → (a : A) × (r ≡ ok a) × ((f a w).0 ≡ ok b) × ((continue r f w).1 ≡ (f a w).1)
  continue-eq-ok (ok a) f w h = (a, refl, h, refl)
  continue-eq-ok (err e) f w h = cc

  -- Inversion of two actions of which the second returns.
  pub bind-eq-ok :
      (m : Exec S A) (f : A → Exec S B) (w : S) {b : B}
      → ((m >>= f) w).0 ≡ ok b
      → (a : A) × ((m w).0 ≡ ok a) × ((f a (m w).1).0 ≡ ok b) × (((m >>= f) w).1 ≡ (f a (m w).1).1)
  bind-eq-ok m f w h = continue-eq-ok (m w).0 f (m w).1 h

module _ {A : Type 0} where
  pub db_call-eq-ok :
      (m : Exec World A) (w : World) {a : A}
      → (db_call m w).0 ≡ ok a
      → (t : ℕ) × (rest : List Reply) × (db_call m w ≡ m (advance t rest w))
  db_call-eq-ok m w h =
      let (t, rest, cases) = db_call-cases m w in
      elim cases [
        | inl failed ↦ absurd (cc (ap (λ (p : Result A × World). p.0) failed))
        | inr made ↦ (t, rest, made)
      ]

-- Whenever the action returns, the tables are `f` of what they were.
pub record Writes {A : Type 0} (f : Db → Db) (m : Exec World A) : Type 0 where
  pub at : (w : World) (a : A) → (m w).0 ≡ ok a → (m w).1.db ≡ f w.db

-- Whenever the action returns, it returns `b`.
pub record Yields {A : Type 0} (b : A) (m : Exec World A) : Type 0 where
  pub at : (w : World) (a : A) → (m w).0 ≡ ok a → a ≡ b

module _ {A : Type 0} where
  pub Writes-pure : (a : A) → Writes (λ db. db) (pure a)
  Writes-pure a = record { at = λ w b h. refl }

  pub Yields-pure : (a : A) → Yields a (pure a)
  Yields-pure a = record { at = λ w b h. cc }

  pub Writes-ext :
      {f g : Db → Db} (m : Exec World A) → Writes f m → ((db : Db) → f db ≡ g db) → Writes g m
  Writes-ext m wm e = record { at = λ w a h. wm.at w a h ∙ e w.db }

  pub Writes-KeepsDb : (m : Exec World A) → KeepsDb m → Writes (λ db. db) m
  Writes-KeepsDb m k = record { at = λ w a h. k.at w }

module _ {A B : Type 0} where
  pub Writes-bind :
      (f g : Db → Db) (m : Exec World A) (k : A → Exec World B)
      → Writes f m
      → ((a : A) → Writes g (k a))
      → Writes (λ db. g (f db)) (m >>= k)
  Writes-bind f g m k wm wk = record {
    at = λ w b h.
        let (a, first, later, final) = bind-eq-ok m k w h in
        ap (λ (v : World). v.db) final ∙ (wk a).at (m w).1 b later ∙ ap g (wm.at w a first);
  }

  pub Yields-bind :
      (b : B) (m : Exec World A) (k : A → Exec World B)
      → ((a : A) → Yields b (k a))
      → Yields b (m >>= k)
  Yields-bind b m k yk = record {
    at = λ w c h. let (a, _, later, _) = bind-eq-ok m k w h in (yk a).at (m w).1 c later;
  }

-- A call that only updates the tables.
pub Writes-update_db : (f : Db → Db) → Writes f (db_call (update_db f))
Writes-update_db f = record {
  at = λ w a h.
      let (t, rest, made) = db_call-eq-ok (update_db f) w h in
      ap (λ (p : Result (Unit {0}) × World). p.1.db) made;
}

pub ok-injective : {A : Type 0} {a b : A} → ok a ≡ ok b → a ≡ b
ok-injective h = cc

-- What a query returns is read off the tables and the rest of the state at the time of the call.
pub query-eq-ok :
    {A : Type 0} (f : World → A) (w : World) {a : A}
    → (db_call (gets f) w).0 ≡ ok a
    → (t : ℕ) × (rest : List Reply) × (f (advance t rest w) ≡ a)
query-eq-ok {A} f w {a} h =
    let (t, rest, made) = db_call-eq-ok (gets f) w h in
    (t, rest, ok-injective (sym (ap (λ (x : Result A × World). x.0) made) ∙ h))

module _ {A : Type 0} where
  handle-eq-ok :
      (message : Text) (r : Result A) (w : World) {a : A}
      → (handle (rethrow message) r w).0 ≡ ok a
      → (r ≡ ok a) × ((handle (rethrow message) r w).1 ≡ w)
  handle-eq-ok message (ok a) w h = (h, refl)
  handle-eq-ok message (err (app_error status text)) w h = cc
  handle-eq-ok message (err other) w h = cc

  -- What returns through a handler that throws again was returned by the body.
  pub catch-eq-ok :
      (m : Exec World A) (message : Text) (w : World) {a : A}
      → (catch m (rethrow message) w).0 ≡ ok a
      → ((m w).0 ≡ ok a) × ((catch m (rethrow message) w).1 ≡ (m w).1)
  catch-eq-ok m message w h = handle-eq-ok message (m w).0 (m w).1 h
