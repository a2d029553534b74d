-- ===== src/Accounts.antt =====
-- models/UserModel.ts and what the three services of accounts do with its table. The column
-- `user_email` is unique among all rows, also those that are destroyed; a comparison of texts in a
-- query is taken to be equality. The hash of a password is a parameter of each service.
pub mod Auth
pub mod Admin
pub mod Profile
pub mod Table
pub mod Administered
pub mod Registered
mod Tests
use ginem_api.Common.{
  ℕ, ◌+◌, Bool, true, false, ◌&&◌, ◌||◌, not, Option, none, some, List, [], ◌∷◌, ◌++◌, map, filter,
  find, any, length, ◌==◌, or_else, is_some, if◌then◌else◌,
}
use ginem_api.Common.Text.{Text, codes, text_eq}
use ginem_api.Common.Exec.{
  Exec, ok, err, other, pure, throw, bad_request, conflict, not_found, gets, ◌>>=◌, ◌>>◌,
}
use ginem_api.Store.{UserRole, OnboardingStatus, UserRow, admin, user, Db, World, db_call}

unfoldable pub is_live_user : UserRow → Bool
is_live_user u = not u.deleted && not u.destroyed

abbrev pub is_admin : UserRole → Bool
is_admin admin = true
is_admin user = false

unfoldable pub is_live_admin : UserRow → Bool
unfolding is_live_user
is_live_admin u = is_live_user u && is_admin u.user_role

unfoldable pub user_with_email : Text → List UserRow → Option UserRow
unfolding is_live_user
user_with_email email users = find (λ u. is_live_user u && text_eq u.user_email email) users

unfoldable pub user_with_id : ℕ → List UserRow → Option UserRow
unfolding is_live_user
user_with_id id users = find (λ u. is_live_user u && u.user_id == id) users

pub record NewUser : Type 0 where
  pub user_name : Text
  pub user_email : Text
  pub user_password : Text
  pub user_role : UserRole
  pub user_onboarding_status : OnboardingStatus

abbrev pub new_user_row : NewUser → ℕ → UserRow
new_user_row n id = record {
  user_id = id;
  user_name = n.user_name;
  user_password = n.user_password;
  user_email = n.user_email;
  user_role = n.user_role;
  user_onboarding_status = n.user_onboarding_status;
  deleted = false;
  destroyed = false;
}

abbrev pub set_users : List UserRow → World → World
set_users users w = record w { db = record w.db { users = users } }

abbrev pub email_taken : Text → List UserRow → Bool
email_taken email users = any (λ (u : UserRow). text_eq u.user_email email) users

-- `UserModel.create`: the database refuses a row whose e-mail is taken.
unfoldable pub insert_user : NewUser → Exec World (Unit {0})
insert_user n w = if email_taken n.user_email w.db.users then (err other, w) else (
  ok tt,
  record (set_users (w.db.users ++ new_user_row n w.next_user_id ∷ []) w) {
    next_user_id = w.next_user_id + 1;
  },
)

-- `Partial<IUserAttributes>`, as far as the services set them.
pub record UserChanges : Type 0 where
  pub user_name : Option Text
  pub user_email : Option Text
  pub user_password : Option Text
  pub user_onboarding_status : Option OnboardingStatus

-- `Object.keys(updateData).length === 0`
unfoldable pub no_changes : UserChanges → Bool
no_changes c = not (
    is_some c.user_name
    || (is_some c.user_email || (is_some c.user_password || is_some c.user_onboarding_status)))

unfoldable pub changed_user : UserChanges → UserRow → UserRow
changed_user c u = record u {
  user_name = or_else c.user_name u.user_name;
  user_email = or_else c.user_email u.user_email;
  user_password = or_else c.user_password u.user_password;
  user_onboarding_status = or_else c.user_onboarding_status u.user_onboarding_status;
}

abbrev pub taken_by_other : (UserRow → Bool) → Option Text → List UserRow → Bool
taken_by_other matching none users = false
taken_by_other matching (some email) users =
    any matching users
    && any (λ (u : UserRow). text_eq u.user_email email && not (matching u)) users

-- `UserModel.update` of the rows that match, which returns their number; the callers match on the id,
-- so that it is one row at most.
unfoldable pub update_users : (UserRow → Bool) → UserChanges → Exec World ℕ
unfolding changed_user
update_users matching c w =
    if taken_by_other matching c.user_email w.db.users then (err other, w) else (
      ok (length (filter matching w.db.users)),
      set_users (map (λ u. if matching u then changed_user c u else u) w.db.users) w,
    )

-- The e-mail of an update must not be that of another account.
unfoldable pub check_email : ℕ → Option Text → Exec World (Unit {0})
check_email id none = pure tt
check_email id (some []) = pure tt
check_email id (some (c ∷ email)) = do
  existing ← db_call (gets (λ w. user_with_email (c ∷ email) w.db.users))
  elim existing [
    | none ↦ pure tt
    | some u ↦ if u.user_id == id then pure tt else throw (conflict (codes "Email already in use"))
  ]

-- What `update` of administrators and of profiles do with the changes that they collect.
unfoldable pub apply_changes : (UserRow → Bool) → UserChanges → Text → Exec World (Unit {0})
unfolding update_users no_changes
apply_changes matching c missing =
    if no_changes c then throw (bad_request (codes "No fields to update")) else (do
      affected ← db_call (update_users matching c)
      if affected == 0 then throw (not_found missing) else pure tt)
