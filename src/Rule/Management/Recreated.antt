-- ===== src/Rule/Management/Recreated.antt =====
-- `update` in services/rule/RuleManagement.service.ts: the conditions and actions that it creates anew.
use mathlib.Core.List.{append_assoc, append-nil}
use ginem_api.Common.{ℕ, ◌≡◌, refl, ◌∙◌, ap, subst, List, [], ◌∷◌, or_else}
use ginem_api.Common.Text.{Text}
use ginem_api.Common.Exec.{ok}
use ginem_api.Store.{DeviceRow, World, db_call}
use ginem_api.Store.Calls.{Writes-update_db, bind-eq-ok}
use ginem_api.Rule.Management.{
  ConditionInput, ActionInput, resolve_device_by_name, assert_action_device,
}
use ginem_api.Rule.Management.Changes.{condition_row, action_row, insert_condition, insert_action}
use ginem_api.Rule.Management.Update.{recreate_conditions, recreate_actions}
use ginem_api.Rule.Management.Rows.{condition_rows, action_rows, add_conditions, add_actions}
use ginem_api.Rule.Management.Reads.{
  ConditionDevices, ActionDevices, resolve_device_by_name-KeepsDb, resolve_device_by_name-Names,
  assert_action_device-KeepsDb, assert_action_device-eq-ok,
}

-- Inserting a row of another table changes no device.
pub recreate_conditions-eq-ok :
    (id : ℕ) (name : Text) (cs : List ConditionInput) (w : World) {u : Unit {0}}
    → (recreate_conditions id name cs w).0 ≡ ok u
    → (ds : List DeviceRow) × ConditionDevices w.db name cs ds
      × ((recreate_conditions id name cs w).1.db ≡ add_conditions (condition_rows id cs ds) w.db)
unfolding recreate_conditions insert_condition
recreate_conditions-eq-ok id name [] w h = ([], tt, rw append-nil refl)
recreate_conditions-eq-ok id name (c ∷ cs) w h =
    let named = or_else c.device_name name in
    let (d, found, h₁, final₁) = bind-eq-ok (resolve_device_by_name named) _ w h in
    let row = condition_row id c d in
    let (_, inserted, h₂, final₂) = bind-eq-ok (db_call (insert_condition row)) _ _ h₁ in
    let (ds, devices, db₃) = recreate_conditions-eq-ok id name cs _ h₂ in
    let db₁ = (resolve_device_by_name-KeepsDb named).at w in
    let db₂ =
      (Writes-update_db (add_conditions (row ∷ []))).at _ _ inserted
      ∙ ap (add_conditions (row ∷ [])) db₁ in
    (
      d ∷ ds,
      (
        resolve_device_by_name-Names named w found,
        subst (λ db. ConditionDevices db name cs ds) db₂ devices,
      ),
      ap (λ (v : World). v.db) (final₁ ∙ final₂)
          ∙ db₃
          ∙ ap (add_conditions (condition_rows id cs ds)) db₂
          ∙ rw append_assoc refl,
    )

pub recreate_actions-eq-ok :
    (id : ℕ) (as' : List ActionInput) (w : World) {u : Unit {0}}
    → (recreate_actions id as' w).0 ≡ ok u
    → (ds : List DeviceRow) × ActionDevices w.db as' ds
      × ((recreate_actions id as' w).1.db ≡ add_actions (action_rows id as' ds) w.db)
unfolding recreate_actions insert_action
recreate_actions-eq-ok id [] w h = ([], tt, rw append-nil refl)
recreate_actions-eq-ok id (a ∷ as') w h =
    let (d, found, h₁, final₁) = bind-eq-ok (resolve_device_by_name a.device_name) _ w h in
    let (_, allowed, h₂, final₂) = bind-eq-ok (assert_action_device d) _ _ h₁ in
    let row = action_row id a d in
    let (_, inserted, h₃, final₃) = bind-eq-ok (db_call (insert_action row)) _ _ h₂ in
    let (ds, devices, db₄) = recreate_actions-eq-ok id as' _ h₃ in
    let db₂ =
      (assert_action_device-KeepsDb d).at _ ∙ (resolve_device_by_name-KeepsDb a.device_name).at w in
    let db₃ =
      (Writes-update_db (add_actions (row ∷ []))).at _ _ inserted
      ∙ ap (add_actions (row ∷ [])) db₂ in
    (
      d ∷ ds,
      (
        resolve_device_by_name-Names a.device_name w found,
        assert_action_device-eq-ok d _ allowed,
        subst (λ db. ActionDevices db as' ds) db₃ devices,
      ),
      ap (λ (v : World). v.db) (final₁ ∙ final₂ ∙ final₃)
          ∙ db₄
          ∙ ap (add_actions (action_rows id as' ds)) db₃
          ∙ rw append_assoc refl,
    )
