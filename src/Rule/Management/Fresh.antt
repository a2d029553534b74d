-- ===== src/Rule/Management/Fresh.antt =====
-- After a change the cache holds the active rules as the tables hold them.
use ginem_api.Common.{ℕ, ◌≡◌, refl, ◌∙◌, ap, sym, subst, Bool, true, false, not, ◌&&◌, filter, List}
use ginem_api.Common.Text.{Text}
use ginem_api.Common.Exec.{
  Exec, Result, ok, err, lift, gets, catch, rethrow, ◌>>=◌, app_error, other, handle,
}
use ginem_api.Store.{World, RuleRow, CachedRule, db_call}
use ginem_api.Store.Calls.{bind-eq-ok, db_call-eq-ok, ok-injective}
use ginem_api.Store.OnlyReads.{OnlyReads, only_reads, OnlyReads-pure}
use ginem_api.Device.Laws.{or_not_found-OnlyReads}
use ginem_api.Rule.Cache.{set_rules}
use ginem_api.Rule.Management.{
  CreateRule, UpdateRule, active_rules, is_live_rule, serialize_all, refresh_cache, find_by_id,
}
use ginem_api.Rule.Management.Changes.{
  create, create_body, set_active, set_active_body, remove, remove_body,
}
use ginem_api.Rule.Management.Update.{update, update_body}

-- The cache is loaded, and holds the rules of the tables that are active and not removed, as
-- `serializeRule` shows them with their parts.
pub record Fresh (w : World) : Type 0 where
  pub current :
      serialize_all w.db
        (filter (λ (r : RuleRow). (not r.deleted && not r.destroyed) && r.is_active) w.db.rules)
      ≡ ok w.cache.rules
  pub loaded : w.cache.loaded ≡ true

abbrev pub returned : {A : Type 0} → Result A → Bool
returned (ok a) = true
returned (err e) = false

-- Whenever the action returns, the cache is fresh.
pub record Refreshes {A : Type 0} (m : Exec World A) : Type 0 where
  pub at : (w : World) (a : A) → (m w).0 ≡ ok a → Fresh (m w).1

refresh_cache-Refreshes : Refreshes refresh_cache
unfolding refresh_cache set_rules active_rules is_live_rule
refresh_cache-Refreshes = record {
  at = λ w a h.
      let read : Exec World (Result (List CachedRule)) = gets (λ (v : World). active_rules v.db) in
      let (rows, first, h₁, final₁) = bind-eq-ok (db_call read) _ w h in
      let (rules, second, _, final₂) = bind-eq-ok (lift rows) _ _ h₁ in
      let (t, rest, made) = db_call-eq-ok read w first in
      let shown : rows ≡ active_rules w.db =
        ok-injective
          (sym first ∙ ap (λ (x : Result (Result (List CachedRule)) × World). x.0) made) in
      subst Fresh (sym (final₁ ∙ final₂)) (record {
        current =
            ap (λ (x : Result (Result (List CachedRule)) × World). active_rules x.1.db) made
            ∙ sym shown
            ∙ second;
        loaded = refl;
      });
}

pub find_by_id-OnlyReads : (id : ℕ) → OnlyReads (find_by_id id)
unfolding find_by_id
find_by_id-OnlyReads id = search (only_reads, or_not_found-OnlyReads)

module _ {A B : Type 0} where
  -- Only the last actions matter.
  Refreshes-after :
      (m : Exec World A) (f : A → Exec World B) → ((a : A) → Refreshes (f a)) → Refreshes (m >>= f)
  Refreshes-after m f k = record {
    at = λ w b h.
        let (a, _, later, final) = bind-eq-ok m f w h in
        subst Fresh (sym final) ((k a).at (m w).1 b later);
  }

  Refreshes-then :
      (m : Exec World A) (f : A → Exec World B)
      → Refreshes m
      → ((a : A) → OnlyReads (f a))
      → Refreshes (m >>= f)
  Refreshes-then m f km kf = record {
    at = λ w b h.
        let (a, first, _, final) = bind-eq-ok m f w h in
        let (t, rest, e) = (kf a).at (m w).1 in
        let fresh = km.at w a first in
        subst Fresh (sym (final ∙ e)) (record { current = fresh.current; loaded = fresh.loaded });
  }

module _ {A : Type 0} where
  handle_refreshes :
      (message : Text) (r : Result A) (w : World) {a : A}
      → (r ≡ ok a → Fresh w)
      → (handle (rethrow message) r w).0 ≡ ok a
      → Fresh (handle (rethrow message) r w).1
  handle_refreshes message (ok a) w k h = k h
  handle_refreshes message (err (app_error status text)) w k h = cc
  handle_refreshes message (err other) w k h = cc

  Refreshes-catch :
      (m : Exec World A) (message : Text) → Refreshes m → Refreshes (catch m (rethrow message))
  Refreshes-catch m message k = record {
    at = λ w a h. handle_refreshes message (m w).0 (m w).1 (k.at w a) h;
  }

refresh_and_find-Refreshes : (id : ℕ) → Refreshes (refresh_cache >>= λ _. find_by_id id)
refresh_and_find-Refreshes id =
    Refreshes-then refresh_cache _ refresh_cache-Refreshes λ _. find_by_id-OnlyReads id

ruleset refreshing = (
  Refreshes-catch, Refreshes-after, refresh_and_find-Refreshes, Refreshes-then,
  refresh_cache-Refreshes, OnlyReads-pure,
)

create-Refreshes : (p : CreateRule) → Refreshes (create p)
unfolding create create_body
create-Refreshes p = search refreshing depth 9

update-Refreshes : (p : UpdateRule) → Refreshes (update p)
unfolding update update_body
update-Refreshes p = search refreshing depth 9

set_active-Refreshes : (id : ℕ) (b : Bool) → Refreshes (set_active id b)
unfolding set_active set_active_body
set_active-Refreshes id b = search refreshing depth 9

remove-Refreshes : (id : ℕ) → Refreshes (remove id)
unfolding remove remove_body
remove-Refreshes id = search refreshing depth 9

-- The operations that change rules.
pub data Change : Type 0 where
  created : CreateRule → Change
  updated : UpdateRule → Change
  activated : ℕ → Bool → Change
  removed : ℕ → Change

-- The world that a change leaves, and whether it returned.
unfoldable pub run_change : Change → World → Bool × World
run_change (created p) w = let (r, w') = create p w in (returned r, w')
run_change (updated p) w = let (r, w') = update p w in (returned r, w')
run_change (activated id b) w = let (r, w') = set_active id b w in (returned r, w')
run_change (removed id) w = let (r, w') = remove id w in (returned r, w')

returned-true : {A : Type 0} (r : Result A) → returned r ≡ true → (a : A) × (r ≡ ok a)
returned-true (ok a) h = (a, refl)
returned-true (err e) h = cc

Fresh-returned :
    {A : Type 0} (m : Exec World A) (w : World)
    → Refreshes m
    → returned (m w).0 ≡ true
    → Fresh (m w).1
Fresh-returned m w k h = let (a, e) = returned-true (m w).0 h in k.at w a e

-- Whenever a change of the rules returns, whatever happened before and during it, the cache is
-- loaded and holds exactly the active rules, as the tables hold them.
pub run_change-Fresh :
    (c : Change) (w : World) → (run_change c w).0 ≡ true → Fresh (run_change c w).1
unfolding run_change
run_change-Fresh (created p) w h = Fresh-returned (create p) w (create-Refreshes p) h
run_change-Fresh (updated p) w h = Fresh-returned (update p) w (update-Refreshes p) h
run_change-Fresh (activated id b) w h =
    Fresh-returned (set_active id b) w (set_active-Refreshes id b) h
run_change-Fresh (removed id) w h = Fresh-returned (remove id) w (remove-Refreshes id) h
