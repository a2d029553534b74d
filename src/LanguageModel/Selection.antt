-- ===== src/LanguageModel/Selection.antt =====
-- One model is selected after `selectModel` (services/llm/LLMModel.service.ts), and it is the one
-- that `getSelectedModel` gives.
use mathlib.Core.Option.{some_inj}
use ginem_api.Common.{
  ℕ, Bool, true, false, ◌≡◌, ◌≢◌, refl, ◌∙◌, ap, ◌⊎◌, inl, inr, Option, some, List, [], ◌∷◌, map,
  find, filter, arith, if◌then◌else◌, sym,
}
use ginem_api.Common.Text.{Text, codes, text_eq_iff}
use ginem_api.Common.Exec.{Thrown, ok, err, gets, catch, rethrow, ◌>>=◌, ◌>>◌}
use ginem_api.Store.{LlmModelRow, World, Db, Reply, db_call}
use ginem_api.Store.Calls.{
  KeepsDb-gets, KeepsDb-db_call, Writes, Writes-bind, Writes-update_db, query-eq-ok, bind-eq-ok,
  catch-eq-ok, advance,
}
use ginem_api.Store.Atomic.{Unchanged, Atomic, Atomic-read, Atomic-transaction, Atomic-catch}
use ginem_api.Device.{or_not_found}
use ginem_api.Device.Laws.{or_not_found-KeepsDb, or_not_found-eq-ok}
use ginem_api.LanguageModel.{
  is_live_model, has_model_id, is_selected_model, set_selected, move_selection, select_model,
  get_selected_model,
}

abbrev pub with_selected : Bool → LlmModelRow → LlmModelRow
with_selected b m = record m { is_selected = b }

abbrev moved : Text → Db → Db
moved id db = set_selected (has_model_id id) true (set_selected is_selected_model false db)

-- The live selected rows are the live rows of the id, and nothing but the selection has changed.
pub record Selected (id : Text) (before after : Db) : Type 0 where
  pub model : LlmModelRow
  pub existed : find (has_model_id id) before.llm_models ≡ some model
  pub first : find is_selected_model after.llm_models ≡ some (with_selected true model)
  pub all :
      filter is_selected_model after.llm_models
      ≡ map (with_selected true) (filter (has_model_id id) before.llm_models)
  pub rest :
      map (with_selected false) after.llm_models ≡ map (with_selected false) before.llm_models
  pub tables : after ≡ record before { llm_models = after.llm_models }

filter-moved :
    (id : Text) (rows : List LlmModelRow)
    → filter is_selected_model (
        map
          (λ m. if has_model_id id m then with_selected true m else m)
          (map (λ m. if is_selected_model m then with_selected false m else m) rows))
      ≡ map (with_selected true) (filter (has_model_id id) rows)
unfolding is_selected_model has_model_id is_live_model
filter-moved id [] = refl
filter-moved id (m ∷ rows) = ground (arith, filter-moved id rows)

find-moved :
    (id : Text) (rows : List LlmModelRow) (m : LlmModelRow)
    → find (has_model_id id) rows ≡ some m
    → find is_selected_model (
        map
          (λ m. if has_model_id id m then with_selected true m else m)
          (map (λ m. if is_selected_model m then with_selected false m else m) rows))
      ≡ some (with_selected true m)
unfolding is_selected_model has_model_id is_live_model
find-moved id [] m h = cc
find-moved id (r ∷ rows) m h = ground (arith, find-moved id rows m)

map-moved :
    (id : Text) (rows : List LlmModelRow)
    → map (with_selected false) (
        map
          (λ m. if has_model_id id m then with_selected true m else m)
          (map (λ m. if is_selected_model m then with_selected false m else m) rows))
      ≡ map (with_selected false) rows
unfolding is_selected_model has_model_id is_live_model
map-moved id [] = refl
map-moved id (m ∷ rows) = ground (arith, map-moved id rows)

Selected-moved :
    (id : Text) (before after : Db) (m : LlmModelRow)
    → find (has_model_id id) before.llm_models ≡ some m
    → after ≡ moved id before
    → Selected id before after
unfolding set_selected
Selected-moved id before after m existed e = record {
  model = m;
  existed = existed;
  first = rw e (find-moved id before.llm_models m existed);
  all = rw e (filter-moved id before.llm_models);
  rest = rw e (map-moved id before.llm_models);
  tables = rw e refl;
}

move_selection-Writes : (id : Text) → Writes (moved id) (move_selection id)
unfolding move_selection
move_selection-Writes id =
    Writes-bind _ _ _ _ (Writes-update_db (set_selected is_selected_model false))
      λ _. Writes-update_db (set_selected (has_model_id id) true)

select_model-Atomic :
    (id : Text) (before : Db) → Atomic before (Selected id before) (select_model id)
unfolding select_model
select_model-Atomic id before = Atomic-catch (Selected id before) _ _ (
    Atomic-read _ _ _ (KeepsDb-db_call _ (KeepsDb-gets _)) λ w found e read.
      Atomic-read _ _ _ (or_not_found-KeepsDb _ found) λ w₁ m _ here.
        Atomic-transaction _ _ λ w₂ u e₂ done.
          let (_, _, shown) =
            query-eq-ok (λ (v : World). find (has_model_id id) v.db.llm_models) w read in
          Selected-moved id before _ m
            (ap (λ (db : Db). find (has_model_id id) db.llm_models) (sym e)
              ∙ shown
              ∙ or_not_found-eq-ok _ found _ here)
            ((move_selection-Writes id).at w₂ u done ∙ ap (moved id) e₂))

-- Whatever fails and whenever, `select_model` throws and leaves the tables as they were, or a live
-- model had the id, the live rows that are selected then are exactly the live rows with that id, the
-- first of them being the model found, and no row of any table has changed but in `is_selected`.
pub select_model_all_or_nothing :
    (id : Text) (w : World)
    → Unchanged w.db (select_model id w) ⊎ Selected id w.db (select_model id w).1.db
select_model_all_or_nothing id w = (select_model-Atomic id w.db).at w refl

thrown-ne-ok : {e : Thrown} {u : Unit {0}} → err e ≢ ok u
thrown-ne-ok h = cc

select_model-eq-ok :
    (id : Text) (w : World) {u : Unit {0}}
    → (select_model id w).0 ≡ ok u
    → Selected id w.db (select_model id w).1.db
select_model-eq-ok id w h = elim (select_model_all_or_nothing id w) [
  | inl (e, thrown, _) ↦ absurd (thrown-ne-ok (sym thrown ∙ h))
  | inr selected ↦ selected
]

found-eq-ok :
    (f : World → Option LlmModelRow) (missing message : Text) (w : World) {m : LlmModelRow}
    → (catch (do found ← db_call (gets f); or_not_found missing found) (rethrow message) w).0 ≡ ok m
    → (t : ℕ) × (rest : List Reply) × (f (advance t rest w) ≡ some m)
found-eq-ok f missing message w h =
    let (body, _) =
      catch-eq-ok (db_call (gets f) >>= (λ found. or_not_found missing found)) message w h in
    let (found, read, here, _) =
      bind-eq-ok (db_call (gets f)) (λ found. or_not_found missing found) w body in
    let (t, rest, shown) = query-eq-ok f w read in
    (t, rest, shown ∙ or_not_found-eq-ok missing found (db_call (gets f) w).1 here)

get_selected_model-eq-ok :
    (w : World) {m : LlmModelRow}
    → (get_selected_model w).0 ≡ ok m
    → find is_selected_model w.db.llm_models ≡ some m
unfolding get_selected_model
get_selected_model-eq-ok w h =
    let (_, _, shown) =
      found-eq-ok (λ (v : World). find is_selected_model v.db.llm_models)
        (codes "Selected model not found") (codes "Failed to get selected model") w h in
    shown

find-has_model_id :
    (id : Text) (rows : List LlmModelRow) (m : LlmModelRow)
    → find (has_model_id id) rows ≡ some m
    → has_model_id id m ≡ true
find-has_model_id id [] m h = cc
find-has_model_id id (r ∷ rows) m h = ground (arith, find-has_model_id id rows m)

model-id : (id : Text) (m : LlmModelRow) → has_model_id id m ≡ true → m.id ≡ id
unfolding has_model_id
model-id id m h = ground (arith, text_eq_iff m.id id)

-- When `select_model` and a `get_selected_model` after it both return, the row that comes back is
-- the live row with the id that was selected, as it was before but for being selected.
pub get_selected_model-select_model :
    (id : Text) (w : World) (m : LlmModelRow)
    → ((select_model id >> get_selected_model) w).0 ≡ ok m
    → (m.id ≡ id)
      × (m.is_selected ≡ true)
      × (row : LlmModelRow) × (find (has_model_id id) w.db.llm_models ≡ some row)
      × (m ≡ with_selected true row)
get_selected_model-select_model id w m h =
    let (_, selected, got, _) = bind-eq-ok (select_model id) (λ _. get_selected_model) w h in
    let s = select_model-eq-ok id w selected in
    let same : m ≡ with_selected true s.model =
      some_inj.0 (sym (get_selected_model-eq-ok (select_model id w).1 got) ∙ s.first) in
    (
      rw same (model-id id s.model (find-has_model_id id w.db.llm_models s.model s.existed)),
      rw same refl,
      s.model,
      s.existed,
      same,
    )
