-- ===== src/Common/Exec.antt =====
-- Thrown errors (utilities/AppError.ts) and `async` methods as actions on a state: what was
-- written before a throw stays written, so the state comes back beside the error too.
use Prim.Native.Nat.{ℕ}
use ginem_api.Common.Text.{Text}

-- An `AppError` with its `statusCode` and `message`, or any other thrown value.
pub data Thrown : Type 0 where
  app_error : ℕ → Text → Thrown
  other : Thrown

unfoldable pub not_found : Text → Thrown
not_found message = app_error 404 message

unfoldable pub bad_request : Text → Thrown
bad_request message = app_error 400 message

unfoldable pub conflict : Text → Thrown
conflict message = app_error 409 message

abbrev pub internal_server_error : ℕ
internal_server_error = 500

pub data Result {ℓ} (A : Type ℓ) : Type ℓ where
  ok : A → Result A
  err : Thrown → Result A

-- A step of a computation that may throw and keeps no state.
abbrev pub and_then {ℓ κ} : {A : Type ℓ} {B : Type κ} → Result A → (A → Result B) → Result B
and_then (ok a) f = f a
and_then (err e) f = err e

abbrev pub Exec : Type 0 → Type 0 → Type 0
Exec S A = S → Result A × S

module _ {S A : Type 0} where
  abbrev pub pure : A → Exec S A
  pure a s = (ok a, s)

  abbrev pub throw : Thrown → Exec S A
  throw e s = (err e, s)

  abbrev pub lift : Result A → Exec S A
  lift r s = (r, s)

  abbrev pub gets : (S → A) → Exec S A
  gets f s = (ok (f s), s)

  -- `try { m } catch (error) { handler }`
  abbrev pub handle : (Thrown → Exec S A) → Result A → Exec S A
  handle handler (ok a) s = (ok a, s)
  handle handler (err e) s = handler e s

  abbrev pub catch : Exec S A → (Thrown → Exec S A) → Exec S A
  catch m handler s = let (r, s') = m s in handle handler r s'

abbrev pub modify : {S : Type 0} → (S → S) → Exec S (Unit {0})
modify f s = (ok tt, f s)

module _ {S A B : Type 0} where
  abbrev pub continue : Result A → (A → Exec S B) → Exec S B
  continue (ok a) f s = f a s
  continue (err e) f s = (err e, s)

  infixl 5 ◌>>=◌ ◌>>◌
  abbrev pub ◌>>=◌ : Exec S A → (A → Exec S B) → Exec S B
  ◌>>=◌ m f s = let (r, s') = m s in continue r f s'

  abbrev pub ◌>>◌ : Exec S A → Exec S B → Exec S B
  m >> n = m >>= λ _. n

-- `if (error instanceof AppError) throw error; … throw new AppError(message, 500)`
abbrev pub rethrow : {S A : Type 0} → Text → Thrown → Exec S A
rethrow message (app_error status text) s = (err (app_error status text), s)
rethrow message other s = (err (app_error internal_server_error message), s)
