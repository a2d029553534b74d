-- ===== src/Accounts/Tests.antt =====
-- services/auth, services/admin, services/profile: runs over a small table, and uses of the theorems.
-- The hash puts a letter before the password, and a token is the e-mail.
use ginem_api.Common.{ℕ, ◌≡◌, refl, true, false, none, [], ◌∷◌, arith}
use ginem_api.Common.Text.{Text, codes, text_eq}
use ginem_api.Common.Exec.{ok, conflict, err, app_error, bad_request}
use ginem_api.Store.{UserRole, UserRow, admin, user, waiting, World, db_call}
use ginem_api.Device.{or_not_found}
use ginem_api.Accounts.Auth.{UserRegistration, register_user, login_user}
use ginem_api.Accounts.Admin.{remove_admin, count_admins}
use ginem_api.Accounts.Administered.{perform_all, register, remove, perform_all-IsAdministered}
use ginem_api.Accounts.Registered.{login_user-register_user, register_user-taken}
use ginem_api.Accounts.Table.{IsAdministered}

abbrev hash : Text → Text
hash password = b'h' ∷ password

abbrev token : ℕ → UserRole → Text → Text
token id role email = email

abbrev root : UserRow
root = record {
  user_id = 1;
  user_name = codes "root";
  user_password = codes "hsecret";
  user_email = codes "root@home";
  user_role = admin;
  user_onboarding_status = waiting;
  deleted = false;
  destroyed = false;
}

abbrev house : World
house = record {
  db = record {
    devices = [];
    device_logs = [];
    rules = [];
    triggers = [];
    conditions = [];
    actions = [];
    execution_logs = [];
    scheduler_logs = [];
    users = root ∷ [];
    llm_models = [];
  };
  next_rule_id = 1;
  next_device_log_id = 1;
  next_device_id = 1;
  next_scheduler_log_id = 1;
  next_user_id = 2;
  job_id_counter = 0;
  cache = record { rules = []; loaded = false };
  commands = [];
  last_state = λ _. none;
  now = 0;
  script = [];
}

abbrev guest : UserRegistration
guest = record {
  user_name = none;
  user_email = codes "guest@home";
  user_role = user;
  user_password = codes "welcome";
}

registers : (register_user hash guest house).0 ≡ ok tt
unfolding register_user db_call text_eq
registers = refl

quiet_after : (register_user hash guest house).1.script ≡ []
unfolding register_user db_call text_eq
quiet_after = refl

last_admin_stays :
    (remove_admin 1 2 house).0 ≡ err (conflict (codes "Cannot delete the last admin account"))
unfolding remove_admin db_call or_not_found conflict
last_admin_stays = refl

house-IsAdministered : IsAdministered house
unfolding count_admins
house-IsAdministered = record {
  distinct = (tt, tt);
  below = (omega arith, tt);
  some_admin = omega arith;
}

perform_all-IsAdministered_example :
    IsAdministered (perform_all hash (register guest ∷ remove 1 2 ∷ []) house)
perform_all-IsAdministered_example =
    perform_all-IsAdministered hash (register guest ∷ remove 1 2 ∷ []) house house-IsAdministered

login_user-register_user_example :
    (login_user hash token
      (codes "guest@home")
      (codes "welcome")
      (register_user hash guest house).1).0
    ≡ ok (codes "guest@home")
login_user-register_user_example =
    login_user-register_user hash token guest house registers quiet_after

abbrev gone : World
gone = record house { db = record house.db { users = record root { destroyed = true } ∷ [] } }

abbrev again : UserRegistration
again = record guest { user_email = codes "root@home" }

-- The account was removed, so that its e-mail is refused as an internal error.
register_user-taken_example :
    ((register_user hash again gone).0 ≡ err (app_error 500 (codes "Failed to register user")))
    × ((register_user hash again gone).1.db.users ≡ record root { destroyed = true } ∷ [])
unfolding text_eq
register_user-taken_example = register_user-taken hash again gone refl tt

-- The account is there, so that its e-mail is refused by name.
named_refusal :
    (register_user hash again house).0
    ≡ err (app_error 400 (codes "E-mail root@home sudah terdaftar, gunakan yang lain"))
unfolding register_user db_call text_eq bad_request
named_refusal = refl
