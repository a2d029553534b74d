-- ===== src/Accounts/Registered.antt =====
-- services/auth/Auth.service.ts: who can register, and who can log in after that.
use mathlib.Core.Option.{some_inj}
use ginem_api.Common.{
  ℕ, ◌≡◌, refl, ◌∙◌, ap, true, false, Option, none, some, List, [], ◌∷◌, ◌++◌, arith, Bool-cases,
  inl, inr, Bool, ◌&&◌, ◌+◌, not, any, All, is_some,
}
use ginem_api.Common.Text.{Text, codes, text_eq, text_eq_refl, text_eq_iff}
use ginem_api.Common.Exec.{
  Exec, bad_request, Result, Thrown, app_error, other, ok, err, handle, rethrow, gets, ◌>>=◌,
}
use ginem_api.Store.{UserRole, UserRow, World, Reply, db_call, answered}
use ginem_api.Store.Calls.{advance, bind-eq-ok, db_call-eq-ok, catch-eq-ok}
use ginem_api.Store.Preserves.{Preserves, Preserves-db_call, Preserves-catch, Preserves-query}
use ginem_api.Device.{or_not_found}
use ginem_api.Accounts.{
  NewUser, new_user_row, is_live_user, user_with_email, email_taken, insert_user,
}
use ginem_api.Accounts.Auth.{
  UserRegistration, registered_user, login_user, register_if_free, register_user,
}

module _ {A : Type 0} where
  -- Once the environment's script is used up, calls are made.
  db_call-made : (m : Exec World A) (w : World) → w.script ≡ [] → db_call m w ≡ m w
  unfolding db_call answered
  db_call-made m w h = rw h refl

find-append :
    (email : Text) (users : List UserRow) (u : UserRow)
    → email_taken email users ≡ false
    → is_live_user u ≡ true
    → text_eq u.user_email email ≡ true
    → user_with_email email (users ++ u ∷ []) ≡ some u
unfolding user_with_email
find-append email [] u h live same = rw (live, same) refl
find-append email (v ∷ users) u h live same = ground (arith, find-append email users u)

-- Every database call that follows is made.
abbrev pub AllMade : World → Type 0
AllMade w = All (λ (r : Reply). r.fails ≡ false) w.script

answered-made :
    {A : Type 0} (m : Exec World A) (script : List Reply) (w : World)
    → w.script ≡ script
    → All (λ (r : Reply). r.fails ≡ false) script
    → (t : ℕ) × (rest : List Reply) × All (λ (r : Reply). r.fails ≡ false) rest
      × (answered script m w ≡ m (advance t rest w))
unfolding answered
answered-made m [] w e made = (w.now, [], tt, ap m (ground arith))
answered-made m (r ∷ rest) w e (fine, made) = (w.now + r.elapsed, rest, made, rw fine refl)

db_call-AllMade :
    {A : Type 0} (m : Exec World A) (w : World)
    → AllMade w
    → (t : ℕ) × (rest : List Reply) × All (λ (r : Reply). r.fails ≡ false) rest
      × (db_call m w ≡ m (advance t rest w))
unfolding db_call
db_call-AllMade m w made = answered-made m w.script w refl made

-- A row that is not removed has the e-mail.
abbrev pub holds_email : Text → UserRow → Bool
holds_email email u = not u.deleted && (not u.destroyed && text_eq u.user_email email)

-- The answer to a registration: the e-mail of an account is refused by name, that of a removed
-- account as an internal error.
abbrev pub refusal : Text → Bool → Thrown
refusal email true =
    app_error 400 (codes "E-mail " ++ (email ++ codes " sudah terdaftar, gunakan yang lain"))
refusal email false = app_error 500 (codes "Failed to register user")

any-holds_email :
    (email : Text) (users : List UserRow)
    → any (holds_email email) users ≡ is_some (user_with_email email users)
unfolding user_with_email is_live_user
any-holds_email email [] = refl
any-holds_email email (u ∷ users) = ground (arith, any-holds_email email users)

user_with_email-email :
    (email : Text) (users : List UserRow) (u : UserRow)
    → user_with_email email users ≡ some u
    → u.user_email ≡ email
unfolding user_with_email
user_with_email-email email [] u h = cc
user_with_email-email email (v ∷ users) u h =
    elim (Bool-cases (is_live_user v && text_eq v.user_email email)) [
      | inl here ↦
          let same : v ≡ u = some_inj.0 (rw here at h) in
          let equal : v.user_email ≡ email = ground (arith, text_eq_iff v.user_email email) in
          rw (← same) equal
      | inr later ↦ user_with_email-email email users u (rw later at h)
    ]

module _ (hash_password : Text → Text) where
  insert_user-eq-ok :
      (n : NewUser) (w : World) {a : Unit {0}}
      → (insert_user n w).0 ≡ ok a
      → (email_taken n.user_email w.db.users ≡ false)
        × ((insert_user n w).1.db.users ≡ w.db.users ++ new_user_row n w.next_user_id ∷ [])
  unfolding insert_user
  insert_user-eq-ok n w h = elim (Bool-cases (email_taken n.user_email w.db.users)) [
    | inl taken ↦ cc (rw taken at h)
    | inr free ↦ (free, rw free refl)
  ]

  register_if_free-adds :
      (p : UserRegistration) (existing : Option UserRow) (w : World) {a : Unit {0}}
      → (register_if_free hash_password p existing w).0 ≡ ok a
      → (email_taken p.user_email w.db.users ≡ false)
        × ((register_if_free hash_password p existing w).1.db.users
            ≡ w.db.users ++ new_user_row (registered_user hash_password p) w.next_user_id ∷ [])
  unfolding register_if_free
  register_if_free-adds p (some u) w h = cc
  register_if_free-adds p none w h =
      let n = registered_user hash_password p in
      let (t, rest, made) = db_call-eq-ok (insert_user n) w h in
      rw made (insert_user-eq-ok n (advance t rest w) (rw made at h))

  register_user-adds :
      (p : UserRegistration) (w : World) {a : Unit {0}}
      → (register_user hash_password p w).0 ≡ ok a
      → (email_taken p.user_email w.db.users ≡ false)
        × ((register_user hash_password p w).1.db.users
            ≡ w.db.users ++ new_user_row (registered_user hash_password p) w.next_user_id ∷ [])
  unfolding register_user
  register_user-adds p w h =
      let query = λ (w : World). user_with_email p.user_email w.db.users in
      let (inner, same) =
        catch-eq-ok (db_call (gets query) >>= register_if_free hash_password p)
          (codes "Failed to register user") w h in
      let (existing, first, later, final) =
        bind-eq-ok (db_call (gets query)) (register_if_free hash_password p) w inner in
      let (t, rest, made) = db_call-eq-ok (gets query) w first in
      let after : (db_call (gets query) w).1 ≡ advance t rest w =
        ap (λ (x : Result (Option UserRow) × World). x.1) made in
      let (free, added) = register_if_free-adds p existing (advance t rest w) (rw after at later) in
      (
        free,
        ap (λ (v : World). v.db.users)
              (same ∙ final ∙ ap (λ v. (register_if_free hash_password p existing v).1) after)
            ∙ added,
      )

  module _ (generate_access_token : ℕ → UserRole → Text → Text) where
    login_user-returns :
        (email password : Text) (u : UserRow) (w : World)
        → w.script ≡ []
        → user_with_email email w.db.users ≡ some u
        → text_eq (hash_password password) u.user_password ≡ true
        → (login_user hash_password generate_access_token email password w).0
          ≡ ok (generate_access_token u.user_id u.user_role u.user_email)
    unfolding login_user or_not_found
    login_user-returns email password u w quiet found right =
        rw (db_call-made (gets λ (w : World). user_with_email email w.db.users) w quiet)
          (rw (found, or_not_found) (rw right refl))

    -- Who has registered can log in: if a registration returns and no further database call fails,
    -- a login with the same e-mail and password returns the token of the new account, with its id,
    -- the role that the registration asked for and the e-mail.
    pub login_user-register_user :
        (p : UserRegistration) (w : World)
        → (register_user hash_password p w).0 ≡ ok tt
        → (register_user hash_password p w).1.script ≡ []
        → (login_user hash_password generate_access_token p.user_email p.user_password
            (register_user hash_password p w).1).0
          ≡ ok (generate_access_token w.next_user_id p.user_role p.user_email)
    login_user-register_user p w h quiet =
        let (free, added) = register_user-adds p w h in
        let row = new_user_row (registered_user hash_password p) w.next_user_id in
        login_user-returns p.user_email p.user_password row (register_user hash_password p w).1
          quiet
          (rw added (
            find-append p.user_email w.db.users row free (unfold is_live_user in refl)
              (text_eq_refl p.user_email)))
          (text_eq_refl (hash_password p.user_password))

  module _ (p : UserRegistration) (users : List UserRow)
      (taken : email_taken p.user_email users ≡ true) where
    abbrev SameUsers : World → Type 0
    SameUsers w = w.db.users ≡ users

    insert_user-refused :
        (w : World) → SameUsers w → SameUsers (insert_user (registered_user hash_password p) w).1
    unfolding insert_user
    insert_user-refused w same =
        let still : email_taken p.user_email w.db.users ≡ true = rw same taken in rw still same

    register_if_free-refused :
        (existing : Option UserRow)
        → Preserves SameUsers (λ t rest w h. h) (register_if_free hash_password p existing)
    unfolding register_if_free
    register_if_free-refused none =
        Preserves-db_call SameUsers (λ t rest w h. h) _ (record { at = insert_user-refused })
    register_if_free-refused (some u) = record { at = λ w h. h }

    register_user-refused : Preserves SameUsers (λ t rest w h. h) (register_user hash_password p)
    unfolding register_user
    register_user-refused =
        Preserves-catch SameUsers (λ t rest w h. h) _ (codes "Failed to register user")
          (Preserves-query SameUsers (λ t rest w h. h)
            (λ (w : World). user_with_email p.user_email w.db.users)
            (register_if_free hash_password p)
            (λ w h. (register_if_free-refused (user_with_email p.user_email w.db.users)).at w h))

  insert_user-taken :
      (n : NewUser) (w : World)
      → email_taken n.user_email w.db.users ≡ true
      → insert_user n w ≡ (err other, w)
  unfolding insert_user
  insert_user-taken n w taken = rw taken refl

  register_if_free-answer :
      (p : UserRegistration) (found : Option UserRow) (w : World)
      → AllMade w
      → email_taken p.user_email w.db.users ≡ true
      → ((u : UserRow) → found ≡ some u → u.user_email ≡ p.user_email)
      → (handle
          (rethrow (codes "Failed to register user"))
          (register_if_free hash_password p found w).0
          (register_if_free hash_password p found w).1).0
        ≡ err (refusal p.user_email (is_some found))
  unfolding register_if_free bad_request
  register_if_free-answer p none w made taken its =
      let (t, rest, _, call) =
        db_call-AllMade (insert_user (registered_user hash_password p)) w made in
      rw (call, insert_user-taken (registered_user hash_password p) (advance t rest w) taken) refl
  register_if_free-answer p (some u) w made taken its = rw (its u refl) refl

  -- Where some row of the table has the e-mail and no database call fails, the users stay as they
  -- are, and the registration is refused: with the message that names the e-mail if an account that
  -- is not removed has it, and as an internal error if only removed accounts have it.
  pub register_user-taken :
      (p : UserRegistration) (w : World)
      → email_taken p.user_email w.db.users ≡ true
      → AllMade w
      → ((register_user hash_password p w).0
          ≡ err (refusal p.user_email (any (holds_email p.user_email) w.db.users)))
        × ((register_user hash_password p w).1.db.users ≡ w.db.users)
  unfolding register_user
  register_user-taken p w taken made =
      let query = λ (v : World). user_with_email p.user_email v.db.users in
      let (t, rest, made', call) = db_call-AllMade (gets query) w made in
      (
        rw (call, any-holds_email p.user_email w.db.users)
            (register_if_free-answer p (query w) (advance t rest w) made' taken
              (user_with_email-email p.user_email w.db.users)),
        (register_user-refused p w.db.users taken).at w refl,
      )
