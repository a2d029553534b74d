-- ===== src/Accounts/Auth.antt =====
-- services/auth/Auth.service.ts. The hash and the token are made by libraries and are parameters.
use ginem_api.Common.{
  ℕ, ◌&&◌, Option, none, some, [], ◌∷◌, ◌++◌, find, or_else, ◌==◌, if◌then◌else◌, not,
}
use ginem_api.Common.Text.{Text, codes, text_eq}
use ginem_api.Common.Exec.{
  Exec, app_error, pure, throw, bad_request, gets, catch, rethrow, ◌>>=◌, ◌>>◌,
}
use ginem_api.Store.{UserRole, UserRow, World, db_call, waiting}
use ginem_api.Device.{or_not_found}
use ginem_api.Accounts.{
  NewUser, UserChanges, is_live_user, is_admin, user_with_email, insert_user, update_users,
}

pub record UserRegistration : Type 0 where
  pub user_name : Option Text
  pub user_email : Text
  pub user_role : UserRole
  pub user_password : Text

abbrev unauthorized : ℕ
unauthorized = 401

module _ (hash_password : Text → Text) (generate_access_token : ℕ → UserRole → Text → Text) where
  -- The access token; the refresh token is always empty.
  unfoldable pub login_user : Text → Text → Exec World Text
  unfolding user_with_email
  login_user email password =
      catch
        (do
          found ← db_call (gets (λ w. user_with_email email w.db.users))
          account ← or_not_found (codes "Account not found. Please register first!") found
          if text_eq (hash_password password) account.user_password
              then pure (generate_access_token account.user_id account.user_role account.user_email)
              else throw (
                  app_error unauthorized (codes "Invalid email numbuer and password combination!")))
        (rethrow (codes "Failed to login user"))

module _ (hash_password : Text → Text) where
  abbrev pub registered_user : UserRegistration → NewUser
  registered_user p = record {
    user_name = or_else p.user_name [];
    user_email = p.user_email;
    user_password = hash_password p.user_password;
    user_role = p.user_role;
    user_onboarding_status = waiting;
  }

  unfoldable pub register_if_free : UserRegistration → Option UserRow → Exec World (Unit {0})
  unfolding insert_user
  register_if_free p none = db_call (insert_user (registered_user p))
  register_if_free p (some existing) = throw (
      bad_request
        (codes "E-mail " ++ (existing.user_email ++ codes " sudah terdaftar, gunakan yang lain")))

  unfoldable pub register_user : UserRegistration → Exec World (Unit {0})
  unfolding register_if_free user_with_email
  register_user p =
      catch
        (do
          existing ← db_call (gets (λ w. user_with_email p.user_email w.db.users))
          register_if_free p existing)
        (rethrow (codes "Failed to register user"))

  -- `userPassword != null && userPassword !== ''`
  abbrev pub password_change : Text → UserChanges
  password_change password = record {
    user_name = none;
    user_email = none;
    user_password = elim password [ [] ↦ none | c ∷ rest ↦ some (hash_password (c ∷ rest)) ];
    user_onboarding_status = none;
  }

  unfoldable pub set_password : Text → UserRow → Exec World (Unit {0})
  unfolding is_live_user update_users
  set_password password account = do
    db_call (
        update_users (λ u. is_live_user u && u.user_id == account.user_id)
          (password_change password))
    pure tt

  unfoldable pub update_user_password : Text → Text → Exec World (Unit {0})
  unfolding set_password
  update_user_password email password =
      catch
        (do
          found ← db_call (
              gets λ w.
                find
                  (λ u.
                    is_live_user u && (text_eq u.user_email email && not (is_admin u.user_role)))
                  w.db.users)
          account ← or_not_found (codes "User not found!") found
          set_password password account)
        (rethrow (codes "Failed to update user password"))
