-- ===== src/Device/Service/Changes.antt =====
-- services/device/Device.service.ts: which devices are found after one is changed or removed.
use mathlib.Core.Option
use ginem_api.Common.{
  Takes, or_else-Takes, ℕ, ◌≡◌, ◌≢◌, refl, ◌∙◌, ap, sym, true, false, ◌&&◌, Option, none, some,
  List, [], ◌∷◌, map, filter, length, ◌==◌, arith, if◌then◌else◌, Bool-cases, inl, inr, is_some,
}
use ginem_api.Common.Text.{Text, codes}
use ginem_api.Common.Exec.{Exec, Result, ok, gets, bad_request, catch, rethrow, ◌>>=◌}
use ginem_api.Store.{DeviceRow, World, db_call}
use ginem_api.Store.Calls.{
  advance, bind-eq-ok, catch-eq-ok, query-eq-ok, db_call-eq-ok, ok-injective, KeepsDb-db_call,
  KeepsDb-gets, Writes-update_db,
}
use ginem_api.Device.{is_live_device, device_with_id, or_not_found}
use ginem_api.Device.Laws.{or_not_found-eq-ok, or_not_found-KeepsDb}
use ginem_api.Device.Service.{
  UpdateDevice, has_changes, changed_device, or_null, is_device, update_devices, update_device,
  destroy_device, destroy_found, none_affected, remove_device,
}

device_with_id-destroy_device :
    (other id : ℕ) (devices : List DeviceRow)
    → device_with_id other (destroy_device id devices)
      ≡ (if other == id then none else device_with_id other devices)
unfolding device_with_id destroy_device is_live_device
device_with_id-destroy_device other id [] = ground arith
device_with_id-destroy_device other id (d ∷ devices) =
    ground (arith, device_with_id-destroy_device other id devices)

abbrev changed_if : UpdateDevice → DeviceRow → DeviceRow
changed_if p d = if is_device p.device_id d then changed_device p d else d

device_with_id-changed :
    (other : ℕ) (p : UpdateDevice) (devices : List DeviceRow)
    → device_with_id other (map (changed_if p) devices) ≡ (
        if other == p.device_id
        then Option.map (changed_device p) (device_with_id other devices)
        else device_with_id other devices)
unfolding device_with_id is_live_device changed_device
device_with_id-changed other p [] = ground arith
device_with_id-changed other p (d ∷ devices) =
    ground (arith, device_with_id-changed other p devices)

device_with_id-id :
    (id : ℕ) (devices : List DeviceRow) {d : DeviceRow}
    → device_with_id id devices ≡ some d
    → d.device_id ≡ id
unfolding device_with_id
device_with_id-id id [] h = cc
device_with_id-id id (e ∷ devices) {d} h =
    elim (Bool-cases (is_live_device e && e.device_id == id)) [
      | inl found ↦
          let same : some e ≡ some d = rw found at h in
          let id_of : e.device_id ≡ id = ground arith in let e' : e ≡ d = cc in rw (← e') id_of
      | inr other ↦ device_with_id-id id devices (rw other at h)
    ]

found_of_count :
    (id : ℕ) (devices : List DeviceRow)
    → (length (filter (is_device id) devices) == 0) ≡ false
    → is_some (device_with_id id devices) ≡ true
unfolding device_with_id
found_of_count id [] h = cc
found_of_count id (d ∷ devices) h = ground (arith, found_of_count id devices)

destroy_found-writes :
    (device : DeviceRow) (w : World)
    → (destroy_found device w).0 ≡ ok tt
    → (destroy_found device w).1.db
      ≡ record w.db { devices = destroy_device device.device_id w.db.devices }
unfolding destroy_found
destroy_found-writes device w h = (Writes-update_db _).at w tt h

-- If removing a device returns, that device is found no more by its id, and every other device is
-- found as before.
pub remove_device-removes :
    (id : ℕ) (w : World)
    → (remove_device id w).0 ≡ ok tt
    → (other : ℕ)
    → device_with_id other (remove_device id w).1.db.devices
      ≡ (if other == id then none else device_with_id other w.db.devices)
unfolding remove_device
remove_device-removes id w h other =
    let query = λ (w : World). device_with_id id w.db.devices in
    let message = codes "Device not found" in
    let body : Option DeviceRow → Exec World (Unit {0}) =
      λ found. or_not_found message found >>= destroy_found in
    let (inner, same) =
      catch-eq-ok (db_call (gets query) >>= body) (codes "Failed to remove device") w h in
    let (found, first, later, final) = bind-eq-ok (db_call (gets query)) body w inner in
    let (t, rest, shown) = query-eq-ok query w first in
    let read = (KeepsDb-db_call (gets query) (KeepsDb-gets query)).at w in
    let w₁ = (db_call (gets query) w).1 in
    let (device, got, last, final') =
      bind-eq-ok (or_not_found message found) destroy_found w₁ later in
    let its_id =
      device_with_id-id id w.db.devices (shown ∙ or_not_found-eq-ok message found w₁ got) in
    let kept = (or_not_found-KeepsDb message found).at w₁ ∙ read in
    let tables =
      ap (λ (v : World). v.db) (same ∙ final ∙ final')
      ∙ destroy_found-writes device (or_not_found message found w₁).1 last in
    rw (tables, kept, its_id) (device_with_id-destroy_device other id w.db.devices)

none_affected-eq-ok :
    (n : ℕ) (w : World)
    → (none_affected n w).0 ≡ ok tt
    → ((n == 0) ≡ false) × ((none_affected n w).1 ≡ w)
unfolding none_affected
none_affected-eq-ok n w h = elim (Bool-cases (n == 0)) [
  | inl none' ↦ cc (rw none' at h)
  | inr some' ↦ (some', rw some' refl)
]

-- A column that may be null takes the value that was given, or stays.
abbrev pub TakesOptional : {A : Type 0} → Option A → Option A → Option A → Type 0
TakesOptional none old new = new ≡ old
TakesOptional (some a) old new = new ≡ some a

-- The row of a device before and after a change: each column that the request may name takes the
-- value given, and the others stay.
pub record IsChanged (p : UpdateDevice) (d e : DeviceRow) : Type 0 where
  pub name : Takes p.device_name d.device_name e.device_name
  pub description : TakesOptional p.device_description d.device_description e.device_description
  pub status : Takes p.device_status d.device_status e.device_status
  pub firmware_version :
      TakesOptional p.device_firmware_version d.device_firmware_version e.device_firmware_version
  pub metadata : TakesOptional p.device_metadata d.device_metadata e.device_metadata
  pub id : e.device_id ≡ d.device_id
  pub token : e.device_token ≡ d.device_token
  pub type : e.device_type ≡ d.device_type

-- What is found after a change: at least one column was named, the device was there and is found
-- with the change, and every other device is found as before.
pub record Changed (p : UpdateDevice) (devices devices' : List DeviceRow) : Type 0 where
  pub named : has_changes p ≡ true
  pub before : DeviceRow
  pub after : DeviceRow
  pub was_there : device_with_id p.device_id devices ≡ some before
  pub is_found : device_with_id p.device_id devices' ≡ some after
  pub changed : IsChanged p before after
  pub others :
      (other : ℕ)
      → other ≢ p.device_id
      → device_with_id other devices' ≡ device_with_id other devices

or_null-TakesOptional : (given old : Option Text) → TakesOptional given old (or_null given old)
or_null-TakesOptional none old = refl
or_null-TakesOptional (some a) old = refl

changed_device-IsChanged : (p : UpdateDevice) (d : DeviceRow) → IsChanged p d (changed_device p d)
unfolding changed_device
changed_device-IsChanged p d = record {
  name = or_else-Takes p.device_name d.device_name;
  description = or_null-TakesOptional p.device_description d.device_description;
  status = or_else-Takes p.device_status d.device_status;
  firmware_version = or_null-TakesOptional p.device_firmware_version d.device_firmware_version;
  metadata = or_null-TakesOptional p.device_metadata d.device_metadata;
  id = refl;
  token = refl;
  type = refl;
}

some_found : {A : Type 0} (found : Option A) → is_some found ≡ true → (a : A) × (found ≡ some a)
some_found none h = cc
some_found (some a) h = (a, refl)

found_changed :
    (p : UpdateDevice) (d : DeviceRow) (found : Option DeviceRow)
    → found ≡ some d
    → (if p.device_id == p.device_id then Option.map (changed_device p) found else found)
      ≡ some (changed_device p d)
found_changed p d found e = rw e (ground arith)

update_devices-Changed :
    (p : UpdateDevice) (w : World)
    → (length (filter (is_device p.device_id) w.db.devices) == 0) ≡ false
    → has_changes p ≡ true
    → Changed p w.db.devices (update_devices p w).1.db.devices
unfolding update_devices
update_devices-Changed p w h named =
    let (d, there) =
      some_found (device_with_id p.device_id w.db.devices)
        (found_of_count p.device_id w.db.devices h) in
    record {
      named = named;
      before = d;
      after = changed_device p d;
      was_there = there;
      is_found =
          device_with_id-changed p.device_id p w.db.devices
          ∙ found_changed p d (device_with_id p.device_id w.db.devices) there;
      changed = changed_device-IsChanged p d;
      others = λ other ne. device_with_id-changed other p w.db.devices ∙ ground (arith, ne);
    }

abbrev update_found : UpdateDevice → Exec World (Unit {0})
update_found p =
    catch (db_call (update_devices p) >>= none_affected) (rethrow (codes "Failed to update device"))

update_found-changes :
    (p : UpdateDevice) (w : World)
    → has_changes p ≡ true
    → (update_found p w).0 ≡ ok tt
    → Changed p w.db.devices (update_found p w).1.db.devices
update_found-changes p w named h =
    let (inner, same) =
      catch-eq-ok (db_call (update_devices p) >>= none_affected) (codes "Failed to update device") w
        h in
    let (n, first, later, final) = bind-eq-ok (db_call (update_devices p)) none_affected w inner in
    let (t, rest, made) = db_call-eq-ok (update_devices p) w first in
    let (affected, ends) = none_affected-eq-ok n (db_call (update_devices p) w).1 later in
    let count : length (filter (is_device p.device_id) w.db.devices) ≡ n =
      unfold update_devices in
      ok-injective (sym (ap (λ (x : Result ℕ × World). x.0) made) ∙ first) in
    rw (same, final, ends, made)
      (update_devices-Changed p (advance t rest w) (rw count affected) named)

-- If changing a device returns, at least one column was named, the device with that id was there and
-- is found with each column that was named at its new value and all others as they were, and every
-- other device is found as before.
pub update_device-changes :
    (p : UpdateDevice) (w : World)
    → (update_device p w).0 ≡ ok tt
    → Changed p w.db.devices (update_device p w).1.db.devices
unfolding update_device bad_request
update_device-changes p w h = elim (Bool-cases (has_changes p)) [
  | inl some' ↦ rw some' (update_found-changes p w some' (rw some' at h))
  | inr none' ↦ absurd (cc (rw none' at h))
]
