-- ===== src/Accounts/Profile.antt =====
-- services/profile/MyProfile.service.ts. The hash of a password is a parameter.
use ginem_api.Common.{ℕ, ◌&&◌, Option, none, some, List, [], ◌∷◌, map, ◌==◌, if◌then◌else◌}
use ginem_api.Common.Text.{Text, codes}
use ginem_api.Common.Exec.{Exec, pure, gets, catch, rethrow, ◌>>=◌, ◌>>◌}
use ginem_api.Store.{OnboardingStatus, UserRow, World, db_call, update_db}
use ginem_api.Device.{or_not_found}
use ginem_api.Accounts.{UserChanges, is_live_user, user_with_id, check_email, apply_changes}

-- The row comes back whole here; the source leaves the password out.
unfoldable pub find_by_user_id : ℕ → Exec World UserRow
unfolding user_with_id
find_by_user_id id =
    catch
      (do
        found ← db_call (gets (λ w. user_with_id id w.db.users))
        or_not_found (codes "User not found") found)
      (rethrow (codes "Failed to fetch profile"))

pub record UpdateMyProfile : Type 0 where
  pub user_name : Option Text
  pub user_email : Option Text
  pub user_password : Option Text

-- `payload.x != null && payload.x.length > 0`
abbrev non_empty : Option Text → Option Text
non_empty none = none
non_empty (some []) = none
non_empty (some (c ∷ s)) = some (c ∷ s)

module _ (hash_password : Text → Text) where
  abbrev hashed : Option Text → Option Text
  hashed none = none
  hashed (some password) = some (hash_password password)

  abbrev pub profile_changes : UpdateMyProfile → UserChanges
  profile_changes p = record {
    user_name = non_empty p.user_name;
    user_email = non_empty p.user_email;
    user_password = hashed (non_empty p.user_password);
    user_onboarding_status = none;
  }

  unfoldable pub update_profile : ℕ → UpdateMyProfile → Exec World (Unit {0})
  unfolding check_email apply_changes is_live_user
  update_profile id p =
      catch
        (do
          check_email id p.user_email
          apply_changes (λ u. is_live_user u && u.user_id == id) (profile_changes p)
              (codes "User not found"))
        (rethrow (codes "Failed to update profile"))

-- `result.save()`
unfoldable pub save_status : ℕ → OnboardingStatus → List UserRow → List UserRow
save_status id status users =
    map (λ u. if u.user_id == id then record u { user_onboarding_status = status } else u) users

-- The row that the source returns is the one found, with the new status.
unfoldable pub set_status : OnboardingStatus → UserRow → Exec World UserRow
unfolding save_status
set_status status account = do
  db_call (update_db λ db. record db { users = save_status account.user_id status db.users })
  pure (record account { user_onboarding_status = status })

unfoldable pub update_onboarding_status : ℕ → OnboardingStatus → Exec World UserRow
unfolding user_with_id set_status
update_onboarding_status id status =
    catch
      (do
        found ← db_call (gets (λ w. user_with_id id w.db.users))
        account ← or_not_found (codes "User not found") found
        set_status status account)
      (rethrow (codes "Failed to update onboarding status"))
