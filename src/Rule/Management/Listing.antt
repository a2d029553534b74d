-- ===== src/Rule/Management/Listing.antt =====
-- services/rule/RuleManagement.service.ts: `findAll` and `listExecutionLogs`. The operator LIKE of the
-- database is the parameter `like`, of the text that is searched for and the text it is searched in.
-- The rows of the execution log stand in the order of their ids.
use mathlib.Core.List.{reverse}
use ginem_api.Common.{
  ℕ, Bool, true, false, ◌&&◌, ◌||◌, not, Option, none, some, List, [], ◌∷◌, filter, length, leb,
  ◌==◌, if◌then◌else◌,
}
use ginem_api.Common.Int.{ℤ}
use ginem_api.Common.Text.{Text, codes, trim, text_eq}
use ginem_api.Common.Exec.{Exec, Result, ok, gets, lift, catch, rethrow, and_then, ◌>>=◌}
use ginem_api.Paging.{PageData, pagination, format_data, find_page}
use ginem_api.Store.{RuleRow, RuleExecutionLogRow, Db, World, CachedRule, db_call}
use ginem_api.Rule.Management.{is_live_rule, serialize_all}

pub record FindAllRules : Type 0 where
  pub page : Option ℤ
  pub size : Option ℤ
  pub pagination : Bool
  pub is_active : Option Bool
  pub search : Option Text

abbrev bool_eq : Bool → Bool → Bool
bool_eq true b = b
bool_eq false b = not b

unfoldable pub matches_active : Option Bool → RuleRow → Bool
matches_active none rule = true
matches_active (some b) rule = bool_eq rule.is_active b

unfoldable pub matches_search : (Text → Text → Bool) → Option Text → RuleRow → Bool
matches_search like none rule = true
matches_search like (some search) rule =
    text_eq (trim search) []
    || like (trim search) rule.name
    || like (trim search) rule.original_prompt

-- `order: [['ruleId', 'DESC']]`
unfoldable pub insert_rule_by_id : RuleRow → List RuleRow → List RuleRow
insert_rule_by_id r [] = r ∷ []
insert_rule_by_id r (s ∷ rows) =
    let later = s ∷ insert_rule_by_id r rows in
    if leb s.rule_id r.rule_id then r ∷ s ∷ rows else later

unfoldable pub rules_by_id_desc : List RuleRow → List RuleRow
unfolding insert_rule_by_id
rules_by_id_desc [] = []
rules_by_id_desc (r ∷ rows) = insert_rule_by_id r (rules_by_id_desc rows)

unfoldable pub listed_rules : (Text → Text → Bool) → FindAllRules → Db → List RuleRow
unfolding matches_active matches_search rules_by_id_desc
listed_rules like p db = rules_by_id_desc (
    filter (λ r. is_live_rule r && (matches_active p.is_active r && matches_search like p.search r))
      db.rules)

-- The page of rows, or all rows with the same numbers.
unfoldable pub rows_page : FindAllRules → List RuleRow → PageData RuleRow
unfolding find_page pagination format_data
rows_page p rows =
    if p.pagination
    then find_page p.page p.size rows
    else format_data (pagination p.page p.size) (length rows) rows

unfoldable pub serialize_page : Db → PageData RuleRow → Result (PageData CachedRule)
serialize_page db page = and_then (serialize_all db page.items) λ rules. ok (record {
  total_items = page.total_items;
  items = rules;
  total_pages = page.total_pages;
  current_page = page.current_page;
})

unfoldable pub find_all : (Text → Text → Bool) → FindAllRules → Exec World (PageData CachedRule)
unfolding listed_rules rows_page serialize_page
find_all like p =
    catch
      (do
        page ← db_call (gets (λ w. serialize_page w.db (rows_page p (listed_rules like p w.db))))
        lift page)
      (rethrow (codes "Failed to list rules"))

unfoldable pub logs_of_rule : Option ℕ → List RuleExecutionLogRow → List RuleExecutionLogRow
logs_of_rule none logs = logs
logs_of_rule (some id) logs = filter (λ l. l.rule_id == id) logs

unfoldable pub list_execution_logs :
    Option ℕ → Option ℤ → Option ℤ → Exec World (PageData RuleExecutionLogRow)
unfolding logs_of_rule find_page
list_execution_logs id page size =
    catch
      (db_call (gets (λ w. find_page page size (reverse (logs_of_rule id w.db.execution_logs)))))
      (rethrow (codes "Failed to list rule execution logs"))
