-- ===== src/Store/Atomic.antt =====
-- Actions that change the tables in one transaction: all of the change, or an error and no change.
use ginem_api.Common.{◌≡◌, refl, ◌∙◌, ◌⊎◌, inl, inr}
use ginem_api.Common.Text.{Text}
use ginem_api.Common.Exec.{
  Exec, Result, Thrown, app_error, other, ok, err, continue, catch, handle, rethrow, ◌>>=◌,
}
use ginem_api.Store.{Db, World, transaction}
use ginem_api.Store.Calls.{KeepsDb, transaction-cases, advance}

abbrev pub Unchanged : {A : Type 0} → Db → Result A × World → Type 0
Unchanged before (r, w) = (e : Thrown) × (r ≡ err e) × (w.db ≡ before)

-- From tables `before` the action throws and leaves them so, or leaves tables that satisfy `P`.
pub record Atomic {A : Type 0} (before : Db) (P : Db → Type 0) (m : Exec World A) : Type 0 where
  pub at : (w : World) → w.db ≡ before → Unchanged before (m w) ⊎ P (m w).1.db

module _ {A B : Type 0} {before : Db} (P : Db → Type 0) where
  read_continue :
      (r : Result A) (f : A → Exec World B) (w : World)
      → w.db ≡ before
      → ((a : A) → r ≡ ok a → Atomic before P (f a))
      → Unchanged before (continue r f w) ⊎ P (continue r f w).1.db
  read_continue (ok a) f w e k = (k a refl).at w e
  read_continue (err x) f w e k = inl (x, refl, e)

  -- What only reads comes before the transaction.
  pub Atomic-read :
      (m : Exec World A) (f : A → Exec World B)
      → KeepsDb m
      → ((w : World) (a : A) → w.db ≡ before → (m w).0 ≡ ok a → Atomic before P (f a))
      → Atomic before P (m >>= f)
  Atomic-read m f km kf = record {
    at = λ w e. read_continue (m w).0 f (m w).1 (km.at w ∙ e) (λ a returned. kf w a e returned);
  }

  continue_read :
      (r : Result A) (f : A → Exec World B) (w : World)
      → ((a : A) → KeepsDb (f a))
      → Unchanged before (r, w) ⊎ P w.db
      → Unchanged before (continue r f w) ⊎ P (continue r f w).1.db
  continue_read (ok a) f w k (inl (x, thrown, _)) = cc
  continue_read (ok a) f w k (inr p) = inr (rw ((k a).at w) p)
  continue_read (err x) f w k (inl (_, _, kept)) = inl (x, refl, kept)
  continue_read (err x) f w k (inr p) = inr p

  -- And after it.
  pub Atomic-then :
      (m : Exec World A) (f : A → Exec World B)
      → Atomic before P m
      → ((a : A) → KeepsDb (f a))
      → Atomic before P (m >>= f)
  Atomic-then m f am kf = record { at = λ w e. continue_read (m w).0 f (m w).1 kf (am.at w e) }

module _ {A : Type 0} {before : Db} (P : Db → Type 0) where
  pub Atomic-transaction :
      (m : Exec World A)
      → ((w : World) (a : A) → w.db ≡ before → (m w).0 ≡ ok a → P (m w).1.db)
      → Atomic before P (transaction m)
  Atomic-transaction m written = record {
    at = λ w e. elim (transaction-cases m w) [
      | inl (x, thrown, kept) ↦ inl (x, thrown, kept ∙ e)
      | inr (a, t, rest, returned, result, left) ↦
          inr (rw left (written (advance t rest w) a e returned))
    ];
  }

  handle-Unchanged :
      (message : Text) (r : Result A) (w : World)
      → Unchanged before (r, w) ⊎ P w.db
      → Unchanged before (handle (rethrow message) r w) ⊎ P (handle (rethrow message) r w).1.db
  handle-Unchanged message (ok a) w h = h
  handle-Unchanged message (err (app_error status text)) w h = h
  handle-Unchanged message (err other) w (inl (x, thrown, kept)) = inl (_, refl, kept)
  handle-Unchanged message (err other) w (inr p) = inr p

  pub Atomic-catch :
      (m : Exec World A) (message : Text)
      → Atomic before P m
      → Atomic before P (catch m (rethrow message))
  Atomic-catch m message am = record {
    at = λ w e. handle-Unchanged message (m w).0 (m w).1 (am.at w e);
  }
