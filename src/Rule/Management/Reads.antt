-- ===== src/Rule/Management/Reads.antt =====
-- What the management service only reads: devices by name, the cache's refresh, a rule by id.
use ginem_api.Common.{
  ◌≡◌, refl, ◌∙◌, ap, sym, subst, true, Option, some, List, [], ◌∷◌, ℕ, or_else, arith,
}
use ginem_api.Common.Text.{Text, codes}
use ginem_api.Common.Exec.{Exec, Result, ok, gets, lift, ◌>>=◌}
use ginem_api.Store.{DeviceRow, CachedRule, Db, World, db_call}
use ginem_api.Store.Calls.{
  KeepsDb, keeps_db, KeepsDb-bind, KeepsDb-db_call, KeepsDb-gets, KeepsDb-lift, KeepsDb-pure,
  bind-eq-ok, db_call-eq-ok, ok-injective, catch-eq-ok, query-eq-ok,
}
use ginem_api.Device.{device_named, or_not_found}
use ginem_api.Device.Laws.{or_not_found-KeepsDb, or_not_found-eq-ok}
use ginem_api.Rule.Management.{
  ConditionInput, ActionInput, is_trigger_device, is_action_device, resolve_device_by_name,
  assert_trigger_device, assert_action_device, refresh_cache, find_by_id, find_rule,
}
use ginem_api.Rule.Management.Changes.{condition_devices, action_devices}

pub resolve_device_by_name-KeepsDb : (name : Text) → KeepsDb (resolve_device_by_name name)
unfolding resolve_device_by_name
resolve_device_by_name-KeepsDb name = search (keeps_db, or_not_found-KeepsDb)

pub assert_trigger_device-KeepsDb : (d : DeviceRow) → KeepsDb (assert_trigger_device d)
unfolding assert_trigger_device
assert_trigger_device-KeepsDb d = search keeps_db

pub assert_action_device-KeepsDb : (d : DeviceRow) → KeepsDb (assert_action_device d)
unfolding assert_action_device
assert_action_device-KeepsDb d = search keeps_db

pub refresh_cache-KeepsDb : KeepsDb refresh_cache
unfolding refresh_cache
refresh_cache-KeepsDb =
    KeepsDb-bind _ _ (KeepsDb-db_call _ (KeepsDb-gets _))
      λ rows. KeepsDb-bind _ _ (KeepsDb-lift rows) λ rules. record { at = λ w. refl }

pub find_by_id-KeepsDb : (id : ℕ) → KeepsDb (find_by_id id)
unfolding find_by_id
find_by_id-KeepsDb id = search (keeps_db, or_not_found-KeepsDb)

-- A rule that is found is the live rule of that id, as the tables show it.
pub find_by_id-eq-ok :
    (id : ℕ) (w : World) {c : CachedRule}
    → (find_by_id id w).0 ≡ ok c
    → find_rule id w.db ≡ some (ok c)
unfolding find_by_id
find_by_id-eq-ok id w {c} h =
    let query = λ (v : World). find_rule id v.db in
    let show : Option (Result CachedRule) → Exec World CachedRule =
      λ found. or_not_found (codes "Rule not found") found >>= lift in
    let (body, _) = catch-eq-ok (db_call (gets query) >>= show) (codes "Failed to get rule") w h in
    let (found, read, later, _) = bind-eq-ok (db_call (gets query)) show w body in
    let (rule, here, lifted, _) =
      bind-eq-ok (or_not_found (codes "Rule not found") found) lift (db_call (gets query) w).1
        later in
    let (_, _, shown) = query-eq-ok query w read in
    shown ∙ or_not_found-eq-ok _ found _ here ∙ ap some lifted

pub condition_devices-KeepsDb :
    (name : Text) (cs : List ConditionInput) → KeepsDb (condition_devices name cs)
unfolding condition_devices
condition_devices-KeepsDb name [] = KeepsDb-pure []
condition_devices-KeepsDb name (c ∷ cs) =
    KeepsDb-bind _ _ (resolve_device_by_name-KeepsDb _)
      λ d. KeepsDb-bind _ _ (condition_devices-KeepsDb name cs) λ rest. KeepsDb-pure (d ∷ rest)

pub action_devices-KeepsDb : (as' : List ActionInput) → KeepsDb (action_devices as')
unfolding action_devices
action_devices-KeepsDb [] = KeepsDb-pure []
action_devices-KeepsDb (a ∷ as') = KeepsDb-bind _ _ (resolve_device_by_name-KeepsDb _) λ d.
    KeepsDb-bind _ _ (assert_action_device-KeepsDb d)
      λ _. KeepsDb-bind _ _ (action_devices-KeepsDb as') λ rest. KeepsDb-pure (d ∷ rest)

-- The live device of a name.
abbrev pub Names : Db → Text → DeviceRow → Type 0
Names db name d = device_named name db.devices ≡ some d

-- The devices are those that the conditions name, or the trigger's.
abbrev pub ConditionDevices : Db → Text → List ConditionInput → List DeviceRow → Type 0
ConditionDevices db name [] [] = Unit
ConditionDevices db name [] (_ ∷ _) = ⊥
ConditionDevices db name (_ ∷ _) [] = ⊥
ConditionDevices db name (c ∷ cs) (d ∷ ds) =
    Names db (or_else c.device_name name) d × ConditionDevices db name cs ds

-- The devices are those that the actions name, and can be acted on.
abbrev pub ActionDevices : Db → List ActionInput → List DeviceRow → Type 0
ActionDevices db [] [] = Unit
ActionDevices db [] (_ ∷ _) = ⊥
ActionDevices db (_ ∷ _) [] = ⊥
ActionDevices db (a ∷ as') (d ∷ ds) =
    Names db a.device_name d × (is_action_device d.device_type ≡ true) × ActionDevices db as' ds

pub resolve_device_by_name-Names :
    (name : Text) (w : World) {d : DeviceRow}
    → (resolve_device_by_name name w).0 ≡ ok d
    → Names w.db name d
unfolding resolve_device_by_name
resolve_device_by_name-Names name w h =
    let read : Exec World (Option DeviceRow) =
      gets (λ (v : World). device_named name v.db.devices) in
    let (found, first, later, _) = bind-eq-ok (db_call read) _ w h in
    let (t, rest, made) = db_call-eq-ok read w first in
    let same : device_named name w.db.devices ≡ found =
      cc (ap (λ (x : Result (Option DeviceRow) × World). x.0) made) in
    same ∙ or_not_found-eq-ok _ found _ later

pub assert_trigger_device-eq-ok :
    (d : DeviceRow) (w : World) {u : Unit {0}}
    → (assert_trigger_device d w).0 ≡ ok u
    → is_trigger_device d.device_type ≡ true
unfolding assert_trigger_device
assert_trigger_device-eq-ok d w h = ground arith

pub assert_action_device-eq-ok :
    (d : DeviceRow) (w : World) {u : Unit {0}}
    → (assert_action_device d w).0 ≡ ok u
    → is_action_device d.device_type ≡ true
unfolding assert_action_device
assert_action_device-eq-ok d w h = ground arith

pub condition_devices-ConditionDevices :
    (name : Text) (cs : List ConditionInput) (w : World) {ds : List DeviceRow}
    → (condition_devices name cs w).0 ≡ ok ds
    → ConditionDevices w.db name cs ds
unfolding condition_devices
condition_devices-ConditionDevices name [] w h = rw (sym (ok-injective h)) tt
condition_devices-ConditionDevices name (c ∷ cs) w h =
    let (d, first, h₁, _) =
      bind-eq-ok (resolve_device_by_name (or_else c.device_name name)) _ w h in
    let (rest, second, h₂, _) = bind-eq-ok (condition_devices name cs) _ _ h₁ in
    rw (sym (ok-injective h₂)) (
      resolve_device_by_name-Names (or_else c.device_name name) w first,
      subst (λ db. ConditionDevices db name cs rest)
          ((resolve_device_by_name-KeepsDb (or_else c.device_name name)).at w)
          (condition_devices-ConditionDevices name cs _ second),
    )

pub action_devices-ActionDevices :
    (as' : List ActionInput) (w : World) {ds : List DeviceRow}
    → (action_devices as' w).0 ≡ ok ds
    → ActionDevices w.db as' ds
unfolding action_devices
action_devices-ActionDevices [] w h = rw (sym (ok-injective h)) tt
action_devices-ActionDevices (a ∷ as') w h =
    let (d, first, h₁, _) = bind-eq-ok (resolve_device_by_name a.device_name) _ w h in
    let (_, allowed, h₂, _) = bind-eq-ok (assert_action_device d) _ _ h₁ in
    let (rest, second, h₃, _) = bind-eq-ok (action_devices as') _ _ h₂ in
    rw (sym (ok-injective h₃)) (
      resolve_device_by_name-Names a.device_name w first,
      assert_action_device-eq-ok d _ allowed,
      subst (λ db. ActionDevices db as' rest)
          ((assert_action_device-KeepsDb d).at _
            ∙ (resolve_device_by_name-KeepsDb a.device_name).at w)
          (action_devices-ActionDevices as' _ second),
    )
