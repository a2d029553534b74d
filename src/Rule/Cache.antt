-- ===== src/Rule/Cache.antt =====
-- services/rule/RuleCache.service.ts: the process' cache of active rules.
use ginem_api.Common.{ℕ, Bool, true, false, some, List, [], ◌∷◌, filter, ◌==◌, if◌then◌else◌}
use ginem_api.Store.{CachedRule, RuleCache}

unfoldable pub is_loaded : RuleCache → Bool
is_loaded c = c.loaded

unfoldable pub get_all : RuleCache → List CachedRule
get_all c = c.rules

unfoldable pub get_active : RuleCache → List CachedRule
get_active c = filter (λ r. r.is_active) c.rules

unfoldable pub find_by_trigger_device : ℕ → RuleCache → List CachedRule
unfolding get_active
find_by_trigger_device device_id c = filter (λ r. r.trigger.device_id == device_id) (get_active c)

unfoldable pub set_rules : List CachedRule → RuleCache → RuleCache
set_rules rules c = record { rules = rules; loaded = true }

unfoldable pub clear : RuleCache → RuleCache
clear c = record { rules = []; loaded = false }

-- `find` gives the first rule of that id, and the assignment changes it in place.
unfoldable pub touch_first : ℕ → ℕ → List CachedRule → List CachedRule
touch_first id at [] = []
touch_first id at (r ∷ rules) =
    let later = r ∷ touch_first id at rules in
    if r.rule_id == id then record r { last_triggered_at = some at } ∷ rules else later

unfoldable pub touch_last_triggered : ℕ → ℕ → RuleCache → RuleCache
unfolding touch_first
touch_last_triggered id at c = record c { rules = touch_first id at c.rules }
