-- ===== src/Accounts/Table.antt =====
-- The table of users: what adding, changing and destroying rows does to ids and administrators.
use ginem_api.Common.{
  ℕ, ◌+◌, ◌≤◌, ◌<◌, ◌≡◌, ◌≢◌, refl, List, [], ◌∷◌, ◌++◌, map, filter, length, All, All-append, ◌==◌,
  arith, Bool-cases, inl, inr,
}
use ginem_api.Store.{UserRow, World, Reply}
use ginem_api.Store.Calls.{advance}
use ginem_api.Accounts.{NewUser, new_user_row, is_live_admin}
use ginem_api.Accounts.Admin.{destroy_user, count_admins}

abbrev pub DistinctIds : List UserRow → Type 0
DistinctIds [] = Unit
DistinctIds (u ∷ users) = All (λ (v : UserRow). u.user_id ≢ v.user_id) users × DistinctIds users

abbrev pub IdsBelow : ℕ → List UserRow → Type 0
IdsBelow n users = All (λ (u : UserRow). u.user_id < n) users

-- No two rows share an id, the next id is not taken, and there is an administrator.
pub record IsAdministered (w : World) : Type 0 where
  pub distinct : DistinctIds w.db.users
  pub below : IdsBelow w.next_user_id w.db.users
  pub some_admin : 1 ≤ count_admins w.db.users

pub IsAdministered-advance :
    (t : ℕ) (rest : List Reply) (w : World) → IsAdministered w → IsAdministered (advance t rest w)
IsAdministered-advance t rest w h = record {
  distinct = h.distinct;
  below = h.below;
  some_admin = h.some_admin;
}

module _ (f : UserRow → UserRow) (same_id : (u : UserRow) → (f u).user_id ≡ u.user_id) where
  All-map_ids :
      (P : ℕ → Type 0) (users : List UserRow)
      → All (λ (u : UserRow). P u.user_id) users
      → All (λ (u : UserRow). P u.user_id) (map f users)
  All-map_ids P [] h = tt
  All-map_ids P (u ∷ users) (p, h) = (rw (same_id u) p, All-map_ids P users h)

  pub DistinctIds-map : (users : List UserRow) → DistinctIds users → DistinctIds (map f users)
  DistinctIds-map [] h = tt
  DistinctIds-map (u ∷ users) (p, h) =
      (rw (same_id u) (All-map_ids (λ n. u.user_id ≢ n) users p), DistinctIds-map users h)

  pub IdsBelow-map : (n : ℕ) (users : List UserRow) → IdsBelow n users → IdsBelow n (map f users)
  IdsBelow-map n users h = All-map_ids (λ i. i < n) users h

  pub count_admins-map :
      ((u : UserRow) → is_live_admin (f u) ≡ is_live_admin u)
      → (users : List UserRow) → count_admins (map f users) ≡ count_admins users
  unfolding count_admins
  count_admins-map same [] = refl
  count_admins-map same (u ∷ users) =
      let ih : length (filter is_live_admin (map f users)) ≡ length (filter is_live_admin users) =
        count_admins-map same users in
      elim (Bool-cases (is_live_admin u)) [
        | inl yes' ↦ rw (same u, yes') (omega (arith, ih))
        | inr no' ↦ rw (same u, no') ih
      ]

  -- A change of rows that keeps ids and administrators.
  pub IsAdministered-map :
      (w v : World)
      → v.next_user_id ≡ w.next_user_id
      → v.db.users ≡ map f w.db.users
      → ((u : UserRow) → is_live_admin (f u) ≡ is_live_admin u)
      → IsAdministered w
      → IsAdministered v
  IsAdministered-map w v next users same h = record {
    distinct = rw users (DistinctIds-map w.db.users h.distinct);
    below = rw (next, users) (IdsBelow-map w.next_user_id w.db.users h.below);
    some_admin = rw (users, count_admins-map same w.db.users) h.some_admin;
  }

IdsBelow-weaken : (n m : ℕ) (users : List UserRow) → n ≤ m → IdsBelow n users → IdsBelow m users
IdsBelow-weaken n m [] h k = tt
IdsBelow-weaken n m (u ∷ users) h (p, k) = (omega arith, IdsBelow-weaken n m users h k)

DistinctIds-append :
    (users : List UserRow) (v : UserRow)
    → DistinctIds users
    → IdsBelow v.user_id users
    → DistinctIds (users ++ v ∷ [])
DistinctIds-append [] v h k = (tt, tt)
DistinctIds-append (u ∷ users) v (p, h) (q, k) =
    let other : u.user_id ≢ v.user_id = omega arith in
    (
      All-append (λ (x : UserRow). u.user_id ≢ x.user_id) users (v ∷ []) p (other, tt),
      DistinctIds-append users v h k,
    )

count_admins-append :
    (users : List UserRow) (v : UserRow) → count_admins users ≤ count_admins (users ++ v ∷ [])
unfolding count_admins
count_admins-append [] v = omega arith
count_admins-append (u ∷ users) v =
    let ih : length (filter is_live_admin users) ≤ length (filter is_live_admin (users ++ v ∷ [])) =
      count_admins-append users v in
    elim (Bool-cases (is_live_admin u)) [
      | inl yes' ↦ rw yes' (omega (arith, ih))
      | inr no' ↦ rw no' ih
    ]

pub IsAdministered-append :
    (n : NewUser) (w v : World)
    → v.next_user_id ≡ w.next_user_id + 1
    → v.db.users ≡ w.db.users ++ new_user_row n w.next_user_id ∷ []
    → IsAdministered w
    → IsAdministered v
IsAdministered-append n w v next users h =
    let row = new_user_row n w.next_user_id in
    let grown : count_admins w.db.users ≤ count_admins v.db.users =
      rw users (count_admins-append w.db.users row) in
    record {
      distinct = rw users (DistinctIds-append w.db.users row h.distinct h.below);
      below =
          rw (users, next)
            (All-append (λ (u : UserRow). u.user_id < w.next_user_id + 1) w.db.users (row ∷ [])
              (IdsBelow-weaken w.next_user_id (w.next_user_id + 1) w.db.users (omega arith) h.below)
              (omega arith, tt));
      some_admin = omega (arith, grown, h.some_admin);
    }

destroy_user-absent :
    (id : ℕ) (users : List UserRow)
    → All (λ (v : UserRow). id ≢ v.user_id) users
    → destroy_user id users ≡ users
unfolding destroy_user
destroy_user-absent id [] h = refl
destroy_user-absent id (u ∷ users) (p, h) = ground (arith, destroy_user-absent id users h)

-- At most one administrator goes with an id.
pub count_admins-destroy_user :
    (id : ℕ) (users : List UserRow)
    → DistinctIds users
    → count_admins users ≤ count_admins (destroy_user id users) + 1
unfolding count_admins destroy_user is_live_admin
count_admins-destroy_user id [] h = omega arith
count_admins-destroy_user id (u ∷ users) (p, h) =
    let ih : length (filter is_live_admin users)
        ≤ length (filter is_live_admin (destroy_user id users)) + 1 =
      count_admins-destroy_user id users h in
    elim (Bool-cases (u.user_id == id)) [
      | inl mine ↦
          let same : u.user_id ≡ id = ground arith in
          let absent = destroy_user-absent id users (rw same at p) in ground (arith, absent)
      | inr theirs ↦ ground (arith, ih)
    ]
