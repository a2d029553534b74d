-- ===== src/LanguageModel/Tests.antt =====
-- Runs of services/llm/LLMModel.service.ts on a table of three models, one of them removed.
use ginem_api.Common.{true, false, ◌≡◌, refl, ◌⊎◌, none, some, [], ◌∷◌, map, find}
use ginem_api.Common.Text.{codes, text_eq}
use ginem_api.Common.Exec.{ok, err, not_found, ◌>>◌}
use ginem_api.Store.{LlmModelRow, World, db_call, transaction}
use ginem_api.Device.{or_not_found}
use ginem_api.Store.Atomic.{Unchanged}
use ginem_api.Store.Samples.{empty_world}
use ginem_api.LanguageModel.{
  has_model_id, select_model, get_selected_model, find_model, find_all_models,
}
use ginem_api.LanguageModel.Selection.{
  Selected, with_selected, select_model_all_or_nothing, get_selected_model-select_model,
}

abbrev small : LlmModelRow
small = record {
  id = codes "small";
  name = codes "Small";
  provider = codes "ollama";
  is_selected = true;
  deleted = false;
  destroyed = false;
}

abbrev large : LlmModelRow
large = record small { id = codes "large"; name = codes "Large"; is_selected = false }

abbrev retired : LlmModelRow
retired = record small { id = codes "old"; name = codes "Old"; deleted = true }

abbrev three_models : World
three_models = record empty_world {
  db = record empty_world.db { llm_models = small ∷ retired ∷ large ∷ [] };
}

-- The second call of the transaction's body fails: the old selection is back.
abbrev failing : World
failing = record three_models {
  script =
      record { fails = false; elapsed = 1 }
      ∷ record { fails = false; elapsed = 1 }
      ∷ record { fails = false; elapsed = 1 }
      ∷ record { fails = true; elapsed = 1 }
      ∷ [];
}

selected_flags :
    map (λ m. m.is_selected) (select_model (codes "large") three_models).1.db.llm_models
    ≡ false ∷ true ∷ true ∷ []
unfolding select_model get_selected_model db_call or_not_found text_eq transaction
selected_flags = refl

selection_taken_back : (select_model (codes "large") failing).1.db ≡ three_models.db
unfolding select_model db_call or_not_found text_eq transaction
selection_taken_back = refl

removed_not_selected :
    (select_model (codes "old") three_models).0 ≡ err (not_found (codes "LLM model not found"))
unfolding select_model db_call or_not_found text_eq not_found
removed_not_selected = refl

all_models :
    (find_all_models text_eq (λ _ _. true) none three_models).0
    ≡ ok (record { total_items = 2; items = small ∷ large ∷ [] })
unfolding find_all_models db_call text_eq
all_models = refl

model_found : (find_model (codes "large") three_models).0 ≡ ok large
unfolding find_model db_call or_not_found text_eq
model_found = refl

select_model_all_or_nothing_example :
    Unchanged three_models.db (select_model (codes "large") three_models)
    ⊎ Selected (codes "large") three_models.db (select_model (codes "large") three_models).1.db
select_model_all_or_nothing_example = select_model_all_or_nothing (codes "large") three_models

large_selected :
    ((select_model (codes "large") >> get_selected_model) three_models).0
    ≡ ok (with_selected true large)
unfolding select_model get_selected_model db_call or_not_found text_eq transaction
large_selected = refl

get_selected_model-select_model_example :
    ((with_selected true large).id ≡ codes "large")
    × ((with_selected true large).is_selected ≡ true)
    × (row : LlmModelRow) × (find (has_model_id (codes "large")) three_models.db.llm_models
        ≡ some row)
    × (with_selected true large ≡ with_selected true row)
get_selected_model-select_model_example =
    get_selected_model-select_model (codes "large") three_models (with_selected true large)
      large_selected
