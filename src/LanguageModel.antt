-- ===== src/LanguageModel.antt =====
-- services/llm/LLMModel.service.ts: the models that the assistant may use, of which one is selected.
-- The operator LIKE of the database and its order of names are parameters.
pub mod Selection
pub mod Tests
use ginem_api.Common.{
  ℕ, Bool, true, false, ◌&&◌, ◌||◌, not, Option, none, some, List, [], ◌∷◌, map, find, filter,
  length, if◌then◌else◌,
}
use ginem_api.Common.Text.{Text, codes, text_eq, trim}
use ginem_api.Common.Exec.{Exec, gets, catch, rethrow, ◌>>=◌, ◌>>◌}
use ginem_api.Store.{LlmModelRow, World, Db, db_call, update_db, transaction}
use ginem_api.Device.{or_not_found}

-- `where: { deleted: 0 }` on a paranoid model
unfoldable pub is_live_model : LlmModelRow → Bool
is_live_model m = not m.deleted && not m.destroyed

-- `where: { deleted: 0, id }`
unfoldable pub has_model_id : Text → LlmModelRow → Bool
unfolding is_live_model
has_model_id id m = is_live_model m && text_eq m.id id

-- `where: { deleted: 0, isSelected: true }`
unfoldable pub is_selected_model : LlmModelRow → Bool
unfolding is_live_model
is_selected_model m = is_live_model m && m.is_selected

unfoldable pub model_matches : (Text → Text → Bool) → Option Text → LlmModelRow → Bool
model_matches like none m = true
model_matches like (some search) m =
    text_eq (trim search) [] || like (trim search) m.name || like (trim search) m.provider

-- `order: [['name', 'asc']]`
module _ (name_leb : Text → Text → Bool) where
  unfoldable pub insert_model_by_name : LlmModelRow → List LlmModelRow → List LlmModelRow
  insert_model_by_name m [] = m ∷ []
  insert_model_by_name m (n ∷ rows) =
      let later = n ∷ insert_model_by_name m rows in
      if name_leb m.name n.name then m ∷ n ∷ rows else later

  unfoldable pub models_by_name : List LlmModelRow → List LlmModelRow
  unfolding insert_model_by_name
  models_by_name [] = []
  models_by_name (m ∷ rows) = insert_model_by_name m (models_by_name rows)

pub record ModelList : Type 0 where
  pub total_items : ℕ
  pub items : List LlmModelRow

abbrev model_list : List LlmModelRow → ModelList
model_list items = record { total_items = length items; items = items }

unfoldable pub find_all_models :
    (Text → Text → Bool) → (Text → Text → Bool) → Option Text → Exec World ModelList
unfolding models_by_name model_matches is_live_model
find_all_models like name_leb search =
    catch
      (db_call (
        gets λ w. model_list (
          models_by_name name_leb
            (filter (λ m. is_live_model m && model_matches like search m) w.db.llm_models))))
      (rethrow (codes "Failed to fetch LLM models"))

unfoldable pub find_model : Text → Exec World LlmModelRow
unfolding has_model_id
find_model id =
    catch
      (do
        found ← db_call (gets (λ w. find (has_model_id id) w.db.llm_models))
        or_not_found (codes "LLM model not found") found)
      (rethrow (codes "Failed to fetch LLM model"))

unfoldable pub set_selected : (LlmModelRow → Bool) → Bool → Db → Db
set_selected matching b db = record db {
  llm_models = map (λ m. if matching m then record m { is_selected = b } else m) db.llm_models;
}

unfoldable pub move_selection : Text → Exec World (Unit {0})
unfolding set_selected is_selected_model has_model_id
move_selection id = do
  db_call (update_db (set_selected is_selected_model false))
  db_call (update_db (set_selected (has_model_id id) true))

unfoldable pub select_model : Text → Exec World (Unit {0})
unfolding move_selection has_model_id
select_model id =
    catch
      (do
        found ← db_call (gets (λ w. find (has_model_id id) w.db.llm_models))
        model ← or_not_found (codes "LLM model not found") found
        transaction (move_selection id))
      (rethrow (codes "Failed to select LLM model"))

unfoldable pub get_selected_model : Exec World LlmModelRow
unfolding is_selected_model
get_selected_model =
    catch
      (do
        found ← db_call (gets (λ w. find is_selected_model w.db.llm_models))
        or_not_found (codes "Selected model not found") found)
      (rethrow (codes "Failed to get selected model"))
