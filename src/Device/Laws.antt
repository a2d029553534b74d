-- ===== src/Device/Laws.antt =====
-- Reading devices and their logs leaves the tables alone.
use ginem_api.Common.{ℕ, ◌≡◌, Option, none, some}
use ginem_api.Common.Text.{Text}
use ginem_api.Common.Exec.{not_found, ok}
use ginem_api.Store.{World}
use ginem_api.Store.Calls.{KeepsDb, keeps_db, KeepsDb-pure, KeepsDb-throw}
use ginem_api.Store.OnlyReads.{OnlyReads, OnlyReads-pure, OnlyReads-throw}
use ginem_api.Device.{or_not_found, find_by_name, find_last_logs_by_device_id}

pub or_not_found-KeepsDb :
    {A : Type 0} (message : Text) (found : Option A) → KeepsDb (or_not_found message found)
unfolding or_not_found
or_not_found-KeepsDb message none = KeepsDb-throw (not_found message)
or_not_found-KeepsDb message (some a) = KeepsDb-pure a

pub find_by_name-KeepsDb : (name : Text) → KeepsDb (find_by_name name)
unfolding find_by_name
find_by_name-KeepsDb name = search (keeps_db, or_not_found-KeepsDb)

pub find_last_logs_by_device_id-KeepsDb :
    (id limit : ℕ) → KeepsDb (find_last_logs_by_device_id id limit)
unfolding find_last_logs_by_device_id
find_last_logs_by_device_id-KeepsDb id limit = search keeps_db

pub or_not_found-eq-ok :
    {A : Type 0} (message : Text) (found : Option A) (w : World) {a : A}
    → (or_not_found message found w).0 ≡ ok a
    → found ≡ some a
unfolding or_not_found
or_not_found-eq-ok message none w h = cc
or_not_found-eq-ok message (some a) w h = cc

pub or_not_found-OnlyReads :
    {A : Type 0} (message : Text) (found : Option A) → OnlyReads (or_not_found message found)
unfolding or_not_found
or_not_found-OnlyReads message none = OnlyReads-throw _
or_not_found-OnlyReads message (some a) = OnlyReads-pure a
