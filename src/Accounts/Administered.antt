-- ===== src/Accounts/Administered.antt =====
-- The services of accounts, in whatever order they are called, leave an administrator.
use ginem_api.Common.{
  ℕ, ◌+◌, ◌≤◌, ◌≡◌, refl, Bool, true, false, ◌&&◌, Option, none, some, List, [], ◌∷◌, ◌==◌, leb,
  arith, if◌then◌else◌, Bool-cases, inl, inr,
}
use ginem_api.Common.Text.{Text, codes}
use ginem_api.Common.Exec.{Exec, pure, throw, gets, catch, rethrow, not_found, conflict, ◌>>=◌}
use ginem_api.Store.{OnboardingStatus, UserRow, World, db_call, update_db, Db}
use ginem_api.Store.Calls.{advance}
use ginem_api.Store.Preserves.{
  Preserves, Preserves-pure, Preserves-throw, Preserves-if, Preserves-db_call, Preserves-catch,
  Preserves-bind, Preserves-query, db_call-preserved,
}
use ginem_api.Device.{or_not_found}
use ginem_api.Accounts.{
  NewUser, UserChanges, is_live_admin, is_live_user, email_taken, taken_by_other, insert_user,
  changed_user, update_users, check_email, apply_changes, no_changes,
}
use ginem_api.Accounts.Auth.{
  UserRegistration, register_if_free, register_user, password_change, set_password,
  update_user_password,
}
use ginem_api.Accounts.Admin.{
  CreateAdmin, UpdateAdmin, create_if_free, create_admin, admin_changes, update_admin, remove_admin,
  destroy_user, count_admins, destroy_unless_last,
}
use ginem_api.Accounts.Profile.{
  UpdateMyProfile, profile_changes, update_profile, save_status, set_status,
  update_onboarding_status,
}
use ginem_api.Accounts.Table.{
  IsAdministered, IsAdministered-advance, IsAdministered-map, IsAdministered-append,
  DistinctIds-map, IdsBelow-map, count_admins-destroy_user,
}

abbrev Keeps : {A : Type 0} → Exec World A → Type 0
Keeps m = Preserves IsAdministered IsAdministered-advance m

abbrev keeps_query :
    {A B : Type 0} (f : World → A) (k : A → Exec World B)
    → ((w : World) → IsAdministered w → IsAdministered (k (f w) w).1)
    → Keeps (db_call (gets f) >>= k)
keeps_query f k h = Preserves-query IsAdministered IsAdministered-advance f k h

abbrev keeps_bind :
    {A B : Type 0} (m : Exec World A) (k : A → Exec World B)
    → Keeps m
    → ((a : A) → Keeps (k a))
    → Keeps (m >>= k)
keeps_bind m k hm hk = Preserves-bind IsAdministered IsAdministered-advance m k hm hk

module _ {A : Type 0} where
  keeps_catch : (m : Exec World A) (message : Text) → Keeps m → Keeps (catch m (rethrow message))
  keeps_catch m message h = Preserves-catch IsAdministered IsAdministered-advance m message h

  keeps_db_call : (m : Exec World A) → Keeps m → Keeps (db_call m)
  keeps_db_call m h = Preserves-db_call IsAdministered IsAdministered-advance m h

  keeps_pure : (a : A) → Keeps (pure a)
  keeps_pure a = Preserves-pure IsAdministered IsAdministered-advance a

  or_not_found-Keeps : (message : Text) (found : Option A) → Keeps (or_not_found message found)
  unfolding or_not_found
  or_not_found-Keeps message none =
      Preserves-throw IsAdministered IsAdministered-advance (not_found message)
  or_not_found-Keeps message (some a) = keeps_pure a

insert_user-Keeps : (n : NewUser) → Keeps (insert_user n)
unfolding insert_user
insert_user-Keeps n = record {
  at = λ w h. elim (Bool-cases (email_taken n.user_email w.db.users)) [
    | inl taken ↦ rw taken h
    | inr free ↦ rw free (IsAdministered-append n w _ refl refl h)
  ];
}

changed_if-same :
    (b : Bool) (c : UserChanges) (u : UserRow)
    → (is_live_admin (if b then changed_user c u else u) ≡ is_live_admin u)
      × ((if b then changed_user c u else u).user_id ≡ u.user_id)
unfolding is_live_admin changed_user
changed_if-same true c u = (refl, refl)
changed_if-same false c u = (refl, refl)

update_users-Keeps : (matching : UserRow → Bool) (c : UserChanges) → Keeps (update_users matching c)
unfolding update_users
update_users-Keeps matching c = record {
  at = λ w h. elim (Bool-cases (taken_by_other matching c.user_email w.db.users)) [
    | inl taken ↦ rw taken h
    | inr free ↦ rw free (
        IsAdministered-map (λ u. if matching u then changed_user c u else u)
          (λ u. (changed_if-same (matching u) c u).1) w _ refl refl
          (λ u. (changed_if-same (matching u) c u).0) h)
  ];
}

email_check-Keeps :
    (id : ℕ) (existing : Option UserRow)
    → Keeps (elim existing [
      | none ↦ pure tt
      | some u ↦
          if u.user_id == id then pure tt else throw (conflict (codes "Email already in use"))
    ])
email_check-Keeps id none = keeps_pure tt
email_check-Keeps id (some u) =
    Preserves-if IsAdministered IsAdministered-advance (u.user_id == id) _ _ (keeps_pure tt)
      (Preserves-throw IsAdministered IsAdministered-advance _)

check_email-Keeps : (id : ℕ) (email : Option Text) → Keeps (check_email id email)
unfolding check_email
check_email-Keeps id none = keeps_pure tt
check_email-Keeps id (some []) = keeps_pure tt
check_email-Keeps id (some (c ∷ email)) = keeps_query _ _ (λ w h. (email_check-Keeps id _).at w h)

apply_changes-Keeps :
    (matching : UserRow → Bool) (c : UserChanges) (missing : Text)
    → Keeps (apply_changes matching c missing)
unfolding apply_changes
apply_changes-Keeps matching c missing =
    Preserves-if IsAdministered IsAdministered-advance (no_changes c) _ _
      (Preserves-throw IsAdministered IsAdministered-advance _)
      (keeps_bind _ _ (keeps_db_call _ (update_users-Keeps matching c)) λ affected.
        Preserves-if IsAdministered IsAdministered-advance (affected == 0) _ _
          (Preserves-throw IsAdministered IsAdministered-advance _) (keeps_pure tt))

save_if-same :
    (b : Bool) (status : OnboardingStatus) (u : UserRow)
    → (is_live_admin (if b then record u { user_onboarding_status = status } else u)
        ≡ is_live_admin u)
      × ((if b then record u { user_onboarding_status = status } else u).user_id ≡ u.user_id)
unfolding is_live_admin
save_if-same true status u = (refl, refl)
save_if-same false status u = (refl, refl)

save_status-Keeps :
    (id : ℕ) (status : OnboardingStatus)
    → Keeps (update_db λ (db : Db). record db { users = save_status id status db.users })
unfolding save_status
save_status-Keeps id status = record {
  at = λ w h.
      IsAdministered-map
        (λ u. if u.user_id == id then record u { user_onboarding_status = status } else u)
        (λ u. (save_if-same (u.user_id == id) status u).1) w _ refl refl
        (λ u. (save_if-same (u.user_id == id) status u).0) h;
}

destroyed_id :
    (b : Bool) (u : UserRow) → (if b then record u { destroyed = true } else u).user_id ≡ u.user_id
destroyed_id true u = refl
destroyed_id false u = refl

destroy_user-IsAdministered :
    (id : ℕ) (w v : World)
    → v.next_user_id ≡ w.next_user_id
    → v.db.users ≡ destroy_user id w.db.users
    → 2 ≤ count_admins w.db.users
    → IsAdministered w
    → IsAdministered v
unfolding destroy_user
destroy_user-IsAdministered id w v next users many h =
    let same_id = λ (u : UserRow). destroyed_id (u.user_id == id) u in
    let kept : count_admins w.db.users ≤ count_admins (destroy_user id w.db.users) + 1 =
      count_admins-destroy_user id w.db.users h.distinct in
    record {
      distinct = rw users (DistinctIds-map _ same_id w.db.users h.distinct);
      below = rw (next, users) (IdsBelow-map _ same_id w.next_user_id w.db.users h.below);
      some_admin = rw users (omega (arith, many, kept));
    }

destroy_unless_last-IsAdministered :
    (id : ℕ) (w : World)
    → IsAdministered w
    → IsAdministered (destroy_unless_last id (count_admins w.db.users) w).1
unfolding destroy_unless_last
destroy_unless_last-IsAdministered id w h = elim (Bool-cases (leb (count_admins w.db.users) 1)) [
  | inl last ↦ rw last h
  | inr more ↦
      let many : 2 ≤ count_admins w.db.users = ground arith in
      rw more (
        db_call-preserved IsAdministered IsAdministered-advance _ w
          (λ t rest.
            destroy_user-IsAdministered id (advance t rest w) _ refl refl many
              (IsAdministered-advance t rest w h))
          h)
]

remove_admin-Keeps : (id requester : ℕ) → Keeps (remove_admin id requester)
unfolding remove_admin
remove_admin-Keeps id requester = keeps_catch _ _ (
    keeps_bind _ _
      (Preserves-if IsAdministered IsAdministered-advance (id == requester) _ _
        (Preserves-throw IsAdministered IsAdministered-advance _) (keeps_pure tt))
      λ _. keeps_query _ _ λ w h.
        (keeps_bind _ _ (or_not_found-Keeps _ _)
            λ account. keeps_query _ _ (destroy_unless_last-IsAdministered account.user_id)).at
          w h)

-- A call of one of the services that may write to the table.
pub data Operation : Type 0 where
  register : UserRegistration → Operation
  reset_password : Text → Text → Operation
  create : CreateAdmin → Operation
  update : UpdateAdmin → Operation
  remove : ℕ → ℕ → Operation
  edit_profile : ℕ → UpdateMyProfile → Operation
  onboard : ℕ → OnboardingStatus → Operation

module _ (hash_password : Text → Text) where
  -- The state after the call, whether it returned or threw.
  pub perform : Operation → World → World
  perform (register p) w = (register_user hash_password p w).1
  perform (reset_password email password) w =
      (update_user_password hash_password email password w).1
  perform (create p) w = (create_admin hash_password p w).1
  perform (update p) w = (update_admin hash_password p w).1
  perform (remove id requester) w = (remove_admin id requester w).1
  perform (edit_profile id p) w = (update_profile hash_password id p w).1
  perform (onboard id status) w = (update_onboarding_status id status w).1

  pub perform_all : List Operation → World → World
  unfolding perform
  perform_all [] w = w
  perform_all (o ∷ os) w = perform_all os (perform o w)

  register_if_free-Keeps :
      (p : UserRegistration) (existing : Option UserRow)
      → Keeps (register_if_free hash_password p existing)
  unfolding register_if_free
  register_if_free-Keeps p none = keeps_db_call _ (insert_user-Keeps _)
  register_if_free-Keeps p (some u) = Preserves-throw IsAdministered IsAdministered-advance _

  create_if_free-Keeps :
      (p : CreateAdmin) (existing : Option UserRow)
      → Keeps (create_if_free hash_password p existing)
  unfolding create_if_free
  create_if_free-Keeps p none = keeps_db_call _ (insert_user-Keeps _)
  create_if_free-Keeps p (some u) = Preserves-throw IsAdministered IsAdministered-advance _

  register_user-Keeps : (p : UserRegistration) → Keeps (register_user hash_password p)
  unfolding register_user
  register_user-Keeps p =
      keeps_catch _ _ (keeps_query _ _ (λ w h. (register_if_free-Keeps p _).at w h))

  create_admin-Keeps : (p : CreateAdmin) → Keeps (create_admin hash_password p)
  unfolding create_admin
  create_admin-Keeps p =
      keeps_catch _ _ (keeps_query _ _ (λ w h. (create_if_free-Keeps p _).at w h))

  set_password-Keeps :
      (password : Text) (u : UserRow) → Keeps (set_password hash_password password u)
  unfolding set_password
  set_password-Keeps password u =
      keeps_bind _ _
        (keeps_db_call _ (
          update_users-Keeps (λ x. is_live_user x && x.user_id == u.user_id)
            (password_change hash_password password)))
        (λ _. keeps_pure tt)

  update_user_password-Keeps :
      (email password : Text) → Keeps (update_user_password hash_password email password)
  unfolding update_user_password
  update_user_password-Keeps email password = keeps_catch _ _ (
      keeps_query _ _
        λ w h. (keeps_bind _ _ (or_not_found-Keeps _ _) (set_password-Keeps password)).at w h)

  update_admin-Keeps : (p : UpdateAdmin) → Keeps (update_admin hash_password p)
  unfolding update_admin
  update_admin-Keeps p = keeps_catch _ (codes "Failed to update admin") (
      keeps_bind _ _ (check_email-Keeps p.user_id p.user_email) λ _.
        apply_changes-Keeps (λ u. is_live_admin u && u.user_id == p.user_id)
          (admin_changes hash_password p) (codes "Admin not found"))

  update_profile-Keeps : (id : ℕ) (p : UpdateMyProfile) → Keeps (update_profile hash_password id p)
  unfolding update_profile
  update_profile-Keeps id p = keeps_catch _ (codes "Failed to update profile") (
      keeps_bind _ _ (check_email-Keeps id p.user_email) λ _.
        apply_changes-Keeps (λ u. is_live_user u && u.user_id == id)
          (profile_changes hash_password p) (codes "User not found"))

  set_status-Keeps : (status : OnboardingStatus) (u : UserRow) → Keeps (set_status status u)
  unfolding set_status
  set_status-Keeps status u =
      keeps_bind _ _ (keeps_db_call _ (save_status-Keeps u.user_id status)) (λ _. keeps_pure _)

  update_onboarding_status-Keeps :
      (id : ℕ) (status : OnboardingStatus) → Keeps (update_onboarding_status id status)
  unfolding update_onboarding_status
  update_onboarding_status-Keeps id status = keeps_catch _ _ (
      keeps_query _ _
        λ w h. (keeps_bind _ _ (or_not_found-Keeps _ _) (set_status-Keeps status)).at w h)

  perform-IsAdministered :
      (o : Operation) (w : World) → IsAdministered w → IsAdministered (perform o w)
  unfolding perform
  perform-IsAdministered (register p) w h = (register_user-Keeps p).at w h
  perform-IsAdministered (reset_password email password) w h =
      (update_user_password-Keeps email password).at w h
  perform-IsAdministered (create p) w h = (create_admin-Keeps p).at w h
  perform-IsAdministered (update p) w h = (update_admin-Keeps p).at w h
  perform-IsAdministered (remove id requester) w h = (remove_admin-Keeps id requester).at w h
  perform-IsAdministered (edit_profile id p) w h = (update_profile-Keeps id p).at w h
  perform-IsAdministered (onboard id status) w h = (update_onboarding_status-Keeps id status).at w h

  -- If no two users share an id, the next id is free and some administrator is not removed, then
  -- the same holds after any sequence of calls of the services of accounts, one after the other,
  -- also where calls throw or the database fails.
  pub perform_all-IsAdministered :
      (os : List Operation) (w : World) → IsAdministered w → IsAdministered (perform_all os w)
  unfolding perform_all
  perform_all-IsAdministered [] w h = h
  perform_all-IsAdministered (o ∷ os) w h =
      perform_all-IsAdministered os (perform o w) (perform-IsAdministered o w h)
