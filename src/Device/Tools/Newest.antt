-- ===== src/Device/Tools/Newest.antt =====
-- The value that deviceLogs.tools.ts records is the last one that it reads.
use mathlib.Core.Option.{some_inj}
use ginem_api.Common.{
  ℕ, ◌<◌, Bool, true, false, ◌≡◌, refl, ◌∙◌, ap, ap₂, sym, not, ◌&&◌, ◌==◌, take, Option, none,
  some, List, [], ◌∷◌, ◌++◌, All, if◌then◌else◌, arith,
}
use ginem_api.Common.Text.{Text, codes}
use ginem_api.Common.Exec.{Exec, Result, ok, gets, pure, ◌>>=◌}
use ginem_api.Store.{World, Reply, DeviceRow, DeviceLogRow, db_call}
use ginem_api.Store.Calls.{
  advance, db_call-eq-ok, query-eq-ok, bind-eq-ok, catch-eq-ok, ok-injective,
}
use ginem_api.Device.{
  logs_of, by_id_desc, insert_by_id, create_device_log, insert_device_log, new_device_log,
  device_with_id, or_not_found, find_by_name, find_last_logs_by_device_id, device_named,
}
use ginem_api.Device.Found.{find_by_name-eq-ok}
use ginem_api.Device.Tools.{
  LogAnswer, log_created, last_value, answer_last, get_last_log_by_device_name,
  create_device_log_by_device_name,
}

abbrev pub IdsBelow : ℕ → List DeviceLogRow → Type 0
IdsBelow n rows = All (λ (r : DeviceLogRow). r.device_log_id < n) rows

abbrev Kept : ℕ → DeviceLogRow → Type 0
Kept id r = logs_of id (r ∷ []) ≡ r ∷ []

insert_by_id-first :
    (r n : DeviceLogRow) (rows : List DeviceLogRow)
    → r.device_log_id < n.device_log_id
    → insert_by_id r (n ∷ rows) ≡ n ∷ insert_by_id r rows
unfolding insert_by_id
insert_by_id-first r n rows h = ground (arith, h)

newest_if :
    (keep : Bool) (r n : DeviceLogRow) (rows rest : List DeviceLogRow)
    → r.device_log_id < n.device_log_id
    → by_id_desc rows ≡ n ∷ rest
    → (later : List DeviceLogRow) × (by_id_desc (if keep then r ∷ rows else rows) ≡ n ∷ later)
unfolding by_id_desc
newest_if true r n rows rest h e =
    (insert_by_id r rest, ap (insert_by_id r) e ∙ insert_by_id-first r n rest h)
newest_if false r n rows rest h e = (rest, e)

newest-first :
    (id : ℕ) (rows : List DeviceLogRow) (n : DeviceLogRow)
    → Kept id n
    → IdsBelow n.device_log_id rows
    → (rest : List DeviceLogRow) × (by_id_desc (logs_of id (rows ++ n ∷ [])) ≡ n ∷ rest)
unfolding logs_of by_id_desc insert_by_id
newest-first id [] n kept h = ([], ap by_id_desc kept)
newest-first id (r ∷ rows) n kept (first, h) =
    let (rest, e) = newest-first id rows n kept h in
    newest_if (not r.deleted && (not r.destroyed && r.device_log_device_id == id)) r n
      (logs_of id (rows ++ n ∷ [])) rest first e

or_not_found-state :
    {A : Type 0} (message : Text) (found : Option A) (w : World)
    → (or_not_found message found w).1 ≡ w
unfolding or_not_found
or_not_found-state message none w = refl
or_not_found-state message (some a) w = refl

-- The row that is inserted, and what is inserted with it.
abbrev Inserted : ℕ → Text → World → DeviceLogRow → World → Type 0
Inserted id value w log after =
    (t : ℕ) × (rest : List Reply) × (log ≡ new_device_log (advance t rest w) id value)
    × (after ≡ (insert_device_log id value (advance t rest w)).1)

insert-Inserted :
    (id : ℕ) (value : Text) (w : World) {log : DeviceLogRow}
    → (db_call (insert_device_log id value) w).0 ≡ ok log
    → Inserted id value w log (db_call (insert_device_log id value) w).1
unfolding insert_device_log
insert-Inserted id value w h =
    let (t, rest, made) = db_call-eq-ok (insert_device_log id value) w h in
    (
      t,
      rest,
      ok-injective (sym h ∙ ap (λ (x : Result DeviceLogRow × World). x.0) made),
      ap (λ (x : Result DeviceLogRow × World). x.1) made,
    )

create_device_log-Inserted :
    (id : ℕ) (value : Text) (w : World) {log : DeviceLogRow}
    → (create_device_log id value w).0 ≡ ok log
    → Inserted id value w log (create_device_log id value w).1
unfolding create_device_log
create_device_log-Inserted id value w {log} h =
    let query = db_call (gets (λ (v : World). device_with_id id v.db.devices)) in
    let insert : Exec World DeviceLogRow = db_call (insert_device_log id value) in
    let checked : Option DeviceRow → Exec World DeviceLogRow =
      λ found. or_not_found (codes "Device not found") found >>= (λ d. insert) in
    let (body, same) =
      catch-eq-ok (query >>= checked) (codes "Failed to create new device log") w h in
    let (found, read, later, final) = bind-eq-ok query checked w body in
    let (t₀, rest₀, made) =
      db_call-eq-ok (gets (λ (v : World). device_with_id id v.db.devices)) w read in
    let (d, here, inserted, final') =
      bind-eq-ok (or_not_found (codes "Device not found") found) (λ d. insert) (query w).1 later in
    let state : (or_not_found (codes "Device not found") found (query w).1).1 ≡ advance t₀ rest₀ w =
      or_not_found-state (codes "Device not found") found (query w).1
      ∙ ap (λ (x : Result (Option DeviceRow) × World). x.1) made in
    let (t, rest, row, after) =
      insert-Inserted id value (advance t₀ rest₀ w)
        (ap (λ (v : World). (insert v).0) (sym state) ∙ inserted) in
    (t, rest, row, same ∙ final ∙ final' ∙ ap (λ (v : World). (insert v).1) state ∙ after)

create_tool-eq-ok :
    (name value : Text) (w : World) {a : LogAnswer}
    → (create_device_log_by_device_name name value w).0 ≡ ok a
    → (d : DeviceRow) × (device_named name w.db.devices ≡ some d)
      × (log : DeviceLogRow) × (a ≡ log_created d.device_id log)
      × Inserted d.device_id value w log (create_device_log_by_device_name name value w).1
unfolding create_device_log_by_device_name
create_tool-eq-ok name value w {a} h =
    let answer : DeviceRow → DeviceLogRow → Exec World LogAnswer =
      λ d log. pure (log_created d.device_id log) in
    let create : DeviceRow → Exec World LogAnswer =
      λ d. create_device_log d.device_id value >>= answer d in
    let (d, searched, later, final) = bind-eq-ok (find_by_name name) create w h in
    let (found, _, _, state) = find_by_name-eq-ok name w searched in
    let (log, created, last, final') =
      bind-eq-ok (create_device_log d.device_id value) (answer d) (find_by_name name w).1 later in
    let (t, rest, row, after) =
      create_device_log-Inserted d.device_id value (find_by_name name w).1 created in
    (
      d,
      found,
      log,
      sym (ok-injective last),
      (
        t,
        rest,
        row ∙ ap (λ (v : World). new_device_log (advance t rest v) d.device_id value) state,
        final
            ∙ final'
            ∙ after
            ∙ ap (λ (v : World). (insert_device_log d.device_id value (advance t rest v)).1) state,
      ),
    )

last_logs-eq-ok :
    (id : ℕ) (w : World) {items : List DeviceLogRow}
    → (find_last_logs_by_device_id id 1 w).0 ≡ ok items
    → take 1 (by_id_desc (logs_of id w.db.device_logs)) ≡ items
unfolding find_last_logs_by_device_id
last_logs-eq-ok id w h =
    let last : World → List DeviceLogRow = λ v. take 1 (by_id_desc (logs_of id v.db.device_logs)) in
    let (body, _) =
      catch-eq-ok (db_call (gets last)) (codes "Failed to list last device logs") w h in
    let (_, _, shown) = query-eq-ok last w body in shown

last_tool-eq-ok :
    (name : Text) (w : World) {a : LogAnswer}
    → (get_last_log_by_device_name name w).0 ≡ ok a
    → (d : DeviceRow) × (device_named name w.db.devices ≡ some d)
      × (a ≡ answer_last d.device_id (take 1 (by_id_desc (logs_of d.device_id w.db.device_logs))))
unfolding get_last_log_by_device_name
last_tool-eq-ok name w {a} h =
    let answer : DeviceRow → List DeviceLogRow → Exec World LogAnswer =
      λ d items. pure (answer_last d.device_id items) in
    let read : DeviceRow → Exec World LogAnswer =
      λ d. find_last_logs_by_device_id d.device_id 1 >>= answer d in
    let (d, searched, later, _) = bind-eq-ok (find_by_name name) read w h in
    let (found, _, _, state) = find_by_name-eq-ok name w searched in
    let (items, listed, last, _) =
      bind-eq-ok (find_last_logs_by_device_id d.device_id 1) (answer d) (find_by_name name w).1
        later in
    (
      d,
      found,
      sym (ok-injective last)
          ∙ ap (answer_last d.device_id) (
              sym (last_logs-eq-ok d.device_id (find_by_name name w).1 listed)
              ∙ ap (λ (v : World). take 1 (by_id_desc (logs_of d.device_id v.db.device_logs)))
                  state),
    )

new_device_log-Kept : (id : ℕ) (value : Text) (w : World) → Kept id (new_device_log w id value)
unfolding logs_of new_device_log
new_device_log-Kept id value w = ground arith

newest_answer :
    (id : ℕ) (rows : List DeviceLogRow) (n : DeviceLogRow)
    → Kept id n
    → IdsBelow n.device_log_id rows
    → answer_last id (take 1 (by_id_desc (logs_of id (rows ++ n ∷ [])))) ≡ last_value id n
newest_answer id rows n kept below =
    let (rest, e) = newest-first id rows n kept below in
    ap (λ items. answer_last id (take 1 items)) e

-- If a value is recorded for a device by its name and the last value of that name is read after it,
-- and both tools return, then both answers are of the device that the name finds, the value read is
-- the row that was recorded, and it holds the text that was given; all this where the ids of the log
-- are below the next id.
pub get_last_log-create_device_log :
    (name value : Text) (w : World) (created last : LogAnswer)
    → IdsBelow w.next_device_log_id w.db.device_logs
    → (create_device_log_by_device_name name value w).0 ≡ ok created
    → (get_last_log_by_device_name name (create_device_log_by_device_name name value w).1).0
      ≡ ok last
    → (d : DeviceRow) × (device_named name w.db.devices ≡ some d)
      × (log : DeviceLogRow) × (created ≡ log_created d.device_id log)
      × (last ≡ last_value d.device_id log)
      × (log.device_log_data ≡ value)
unfolding insert_device_log new_device_log
get_last_log-create_device_log name value w created last below h k =
    let (d, found, log, answered, (t, rest, row, after)) = create_tool-eq-ok name value w h in
    let (c, found', read) =
      last_tool-eq-ok name (create_device_log_by_device_name name value w).1 k in
    let same : c ≡ d =
      some_inj.0 (sym found' ∙ ap (λ (v : World). device_named name v.db.devices) after ∙ found) in
    let read_back : DeviceRow → World → LogAnswer =
      λ x v. answer_last x.device_id (take 1 (by_id_desc (logs_of x.device_id v.db.device_logs))) in
    let new = new_device_log (advance t rest w) d.device_id value in
    (
      d,
      found,
      log,
      answered,
      read
          ∙ ap₂ read_back same after
          ∙ newest_answer d.device_id w.db.device_logs new
              (new_device_log-Kept d.device_id value (advance t rest w)) below
          ∙ ap (last_value d.device_id) (sym row),
      ap (λ (r : DeviceLogRow). r.device_log_data) row,
    )
