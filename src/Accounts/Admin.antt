-- ===== src/Accounts/Admin.antt =====
-- services/admin/Admin.service.ts. The hash of a password and the operator LIKE of the database are
-- parameters.
use mathlib.Core.Option
use ginem_api.Common.{
  ℕ, Bool, true, ◌&&◌, ◌||◌, Option, none, some, List, [], ◌∷◌, map, find, filter, length, leb,
  or_else, ◌==◌, if◌then◌else◌,
}
use ginem_api.Common.Int.{ℤ}
use ginem_api.Common.Text.{Text, codes, text_eq, trim}
use ginem_api.Common.Exec.{
  Exec, pure, throw, bad_request, conflict, gets, catch, rethrow, ◌>>=◌, ◌>>◌,
}
use ginem_api.Store.{OnboardingStatus, UserRow, admin, World, db_call, update_db, waiting}
use ginem_api.Device.{or_not_found}
use ginem_api.Paging.{PageData, pagination, format_data, find_page}
use ginem_api.Accounts.{
  NewUser, UserChanges, is_live_admin, user_with_email, insert_user, check_email, apply_changes,
}

pub record FindAllAdmins : Type 0 where
  pub page : Option ℤ
  pub size : Option ℤ
  pub pagination : Bool
  pub search : Option Text

unfoldable pub admin_matches : (Text → Text → Bool) → Option Text → UserRow → Bool
admin_matches like none u = true
admin_matches like (some search) u =
    text_eq (trim search) [] || like (trim search) u.user_name || like (trim search) u.user_email

-- `order: [['userId', 'DESC']]`
unfoldable pub insert_user_by_id : UserRow → List UserRow → List UserRow
insert_user_by_id r [] = r ∷ []
insert_user_by_id r (s ∷ rows) =
    let later = s ∷ insert_user_by_id r rows in
    if leb s.user_id r.user_id then r ∷ s ∷ rows else later

unfoldable pub users_by_id_desc : List UserRow → List UserRow
unfolding insert_user_by_id
users_by_id_desc [] = []
users_by_id_desc (r ∷ rows) = insert_user_by_id r (users_by_id_desc rows)

-- The rows come back whole here; the source leaves the password out.
unfoldable pub admins_page : FindAllAdmins → List UserRow → PageData UserRow
unfolding find_page pagination format_data
admins_page p rows =
    if p.pagination
    then find_page p.page p.size rows
    else format_data (pagination p.page p.size) (length rows) rows

unfoldable pub find_all_admins :
    (Text → Text → Bool) → FindAllAdmins → Exec World (PageData UserRow)
unfolding admins_page users_by_id_desc admin_matches is_live_admin
find_all_admins like p =
    catch
      (db_call (
        gets λ w. admins_page p (
          users_by_id_desc
            (filter (λ u. is_live_admin u && admin_matches like p.search u) w.db.users))))
      (rethrow (codes "Failed to list admins"))

unfoldable pub admin_with_id : ℕ → List UserRow → Option UserRow
unfolding is_live_admin
admin_with_id id users = find (λ u. is_live_admin u && u.user_id == id) users

unfoldable pub find_admin_by_id : ℕ → Exec World UserRow
unfolding admin_with_id
find_admin_by_id id =
    catch
      (do
        found ← db_call (gets (λ w. admin_with_id id w.db.users))
        or_not_found (codes "Admin not found") found)
      (rethrow (codes "Failed to fetch admin"))

pub record CreateAdmin : Type 0 where
  pub user_name : Text
  pub user_email : Text
  pub user_password : Text
  pub user_onboarding_status : Option OnboardingStatus

pub record UpdateAdmin : Type 0 where
  pub user_id : ℕ
  pub user_name : Option Text
  pub user_email : Option Text
  pub user_password : Option Text
  pub user_onboarding_status : Option OnboardingStatus

module _ (hash_password : Text → Text) where
  abbrev new_admin : CreateAdmin → NewUser
  new_admin p = record {
    user_name = p.user_name;
    user_email = p.user_email;
    user_password = hash_password p.user_password;
    user_role = admin;
    user_onboarding_status = or_else p.user_onboarding_status waiting;
  }

  unfoldable pub create_if_free : CreateAdmin → Option UserRow → Exec World (Unit {0})
  unfolding insert_user
  create_if_free p none = db_call (insert_user (new_admin p))
  create_if_free p (some existing) = throw (conflict (codes "Email already registered"))

  unfoldable pub create_admin : CreateAdmin → Exec World (Unit {0})
  unfolding create_if_free user_with_email
  create_admin p =
      catch
        (do
          existing ← db_call (gets (λ w. user_with_email p.user_email w.db.users))
          create_if_free p existing)
        (rethrow (codes "Failed to create admin"))

  abbrev pub admin_changes : UpdateAdmin → UserChanges
  admin_changes p = record {
    user_name = p.user_name;
    user_email = p.user_email;
    user_password = Option.map hash_password p.user_password;
    user_onboarding_status = p.user_onboarding_status;
  }

  unfoldable pub update_admin : UpdateAdmin → Exec World (Unit {0})
  unfolding check_email apply_changes is_live_admin
  update_admin p =
      catch
        (do
          check_email p.user_id p.user_email
          apply_changes (λ u. is_live_admin u && u.user_id == p.user_id) (admin_changes p)
              (codes "Admin not found"))
        (rethrow (codes "Failed to update admin"))

-- `user.destroy()`
unfoldable pub destroy_user : ℕ → List UserRow → List UserRow
destroy_user id users =
    map (λ u. if u.user_id == id then record u { destroyed = true } else u) users

unfoldable pub count_admins : List UserRow → ℕ
unfolding is_live_admin
count_admins users = length (filter is_live_admin users)

unfoldable pub destroy_unless_last : ℕ → ℕ → Exec World (Unit {0})
unfolding destroy_user
destroy_unless_last id admin_count =
    if leb admin_count 1
    then throw (conflict (codes "Cannot delete the last admin account"))
    else db_call (update_db λ db. record db { users = destroy_user id db.users })

unfoldable pub remove_admin : ℕ → ℕ → Exec World (Unit {0})
unfolding destroy_unless_last count_admins admin_with_id
remove_admin id requester =
    catch
      (do
        if id == requester
            then throw (bad_request (codes "Cannot delete your own admin account"))
            else pure tt
        found ← db_call (gets (λ w. admin_with_id id w.db.users))
        account ← or_not_found (codes "Admin not found") found
        admin_count ← db_call (gets (λ w. count_admins w.db.users))
        destroy_unless_last account.user_id admin_count)
      (rethrow (codes "Failed to remove admin"))
