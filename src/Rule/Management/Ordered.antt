-- ===== src/Rule/Management/Ordered.antt =====
-- services/rule/RuleManagement.service.ts: the order of the rules that `findAll` lists.
use mathlib.Core.List.{Perm}
use mathlib.Core.List.Perm
use ginem_api.Common.{
  ℕ, ◌≤◌, ◌≡◌, refl, ◌↔◌, ◌⊎◌, Bool, true, false, not, ◌&&◌, Option, none, some, List, [], ◌∷◌,
  ◌++◌, All, filter, leb, inl, inr, Bool-cases, arith,
}
use ginem_api.Common.Text.{Text, trim, text_eq_iff}
use ginem_api.Store.{RuleRow, Db}
use ginem_api.Rule.Management.{is_live_rule}
use ginem_api.Rule.Management.Listing.{
  FindAllRules, matches_active, matches_search, insert_rule_by_id, rules_by_id_desc, listed_rules,
}

-- The newest rule comes first.
abbrev pub IsNewestFirst : List RuleRow → Type 0
IsNewestFirst [] = Unit
IsNewestFirst (r ∷ rows) = All (λ (s : RuleRow). s.rule_id ≤ r.rule_id) rows × IsNewestFirst rows

All-weaken :
    (a b : ℕ) (rows : List RuleRow)
    → a ≤ b
    → All (λ (s : RuleRow). s.rule_id ≤ a) rows
    → All (λ (s : RuleRow). s.rule_id ≤ b) rows
All-weaken a b [] le h = tt
All-weaken a b (r ∷ rows) le (first, h) = (omega arith, All-weaken a b rows le h)

insert-All :
    (P : RuleRow → Type 0) (r : RuleRow) (rows : List RuleRow)
    → P r
    → All P rows
    → All P (insert_rule_by_id r rows)
unfolding insert_rule_by_id
insert-All P r [] p h = (p, tt)
insert-All P r (s ∷ rows) p (first, h) = elim (Bool-cases (leb s.rule_id r.rule_id)) [
  | inl here ↦ rw here (p, (first, h))
  | inr later ↦ rw later (first, insert-All P r rows p h)
]

insert-IsNewestFirst :
    (r : RuleRow) (rows : List RuleRow)
    → IsNewestFirst rows
    → IsNewestFirst (insert_rule_by_id r rows)
unfolding insert_rule_by_id
insert-IsNewestFirst r [] h = (tt, tt)
insert-IsNewestFirst r (s ∷ rows) (below, h) = elim (Bool-cases (leb s.rule_id r.rule_id)) [
  | inl here ↦
      let le : s.rule_id ≤ r.rule_id = ground arith in
      rw here ((le, All-weaken s.rule_id r.rule_id rows le below), (below, h))
  | inr later ↦
      let le : r.rule_id ≤ s.rule_id = ground arith in
      rw later (
        insert-All (λ (t : RuleRow). t.rule_id ≤ s.rule_id) r rows le below,
        insert-IsNewestFirst r rows h,
      )
]

insert-Perm : (r : RuleRow) (rows : List RuleRow) → Perm (insert_rule_by_id r rows) (r ∷ rows)
unfolding insert_rule_by_id
insert-Perm r [] = Perm.refl _
insert-Perm r (s ∷ rows) = elim (Bool-cases (leb s.rule_id r.rule_id)) [
  | inl here ↦ rw here (Perm.refl _)
  | inr later ↦ rw later (Perm.trans (Perm.cons s (insert-Perm r rows)) (Perm.swap _ _ _))
]

rules_by_id_desc-sorts :
    (rows : List RuleRow)
    → IsNewestFirst (rules_by_id_desc rows) × Perm (rules_by_id_desc rows) rows
unfolding rules_by_id_desc
rules_by_id_desc-sorts [] = (tt, Perm.refl [])
rules_by_id_desc-sorts (r ∷ rows) =
    let (sorted, same) = rules_by_id_desc-sorts rows in
    (
      insert-IsNewestFirst r _ sorted,
      Perm.trans (insert-Perm r (rules_by_id_desc rows)) (Perm.cons r same),
    )

rules_by_id_desc-All :
    (P : RuleRow → Type 0) (rows : List RuleRow) → All P rows → All P (rules_by_id_desc rows)
unfolding rules_by_id_desc
rules_by_id_desc-All P [] h = tt
rules_by_id_desc-All P (r ∷ rows) (p, h) =
    insert-All P r (rules_by_id_desc rows) p (rules_by_id_desc-All P rows h)

-- The text of a search is blank, or the name or the prompt of the rule is like it.
abbrev pub IsLike : (Text → Text → Bool) → Option Text → RuleRow → Type 0
IsLike like none r = Unit
IsLike like (some search) r =
    (trim search ≡ [])
    ⊎ (like (trim search) r.name ≡ true)
    ⊎ (like (trim search) r.original_prompt ≡ true)

abbrev pub IsActiveAs : Option Bool → RuleRow → Type 0
IsActiveAs none r = Unit
IsActiveAs (some active) r = r.is_active ≡ active

-- The rule is not removed and is what the payload asks for.
pub record IsWanted (like : Text → Text → Bool) (p : FindAllRules) (r : RuleRow) : Type 0 where
  pub not_deleted : r.deleted ≡ false
  pub not_destroyed : r.destroyed ≡ false
  pub active : IsActiveAs p.is_active r
  pub search : IsLike like p.search r

active-IsActiveAs :
    (active : Option Bool) (r : RuleRow) → (matches_active active r ≡ true) ↔ IsActiveAs active r
unfolding matches_active
active-IsActiveAs none r = ((λ h. tt), (λ h. refl))
active-IsActiveAs (some true) r = ground arith
active-IsActiveAs (some false) r = ground arith

search-IsLike :
    (like : Text → Text → Bool) (search : Option Text) (r : RuleRow)
    → (matches_search like search r ≡ true) ↔ IsLike like search r
unfolding matches_search
search-IsLike like none r = ((λ h. tt), (λ h. refl))
search-IsLike like (some search) r = ground (arith, text_eq_iff (trim search) [])

abbrev wanted : (Text → Text → Bool) → FindAllRules → RuleRow → Bool
wanted like p r = is_live_rule r && (matches_active p.is_active r && matches_search like p.search r)

wanted-IsWanted :
    (like : Text → Text → Bool) (p : FindAllRules) (r : RuleRow)
    → wanted like p r ≡ true
    → IsWanted like p r
unfolding is_live_rule
wanted-IsWanted like p r h = record {
  not_deleted = ground arith;
  not_destroyed = ground arith;
  active = (active-IsActiveAs p.is_active r).0 (ground arith);
  search = (search-IsLike like p.search r).0 (ground arith);
}

unwanted :
    (like : Text → Text → Bool) (p : FindAllRules) (r : RuleRow)
    → wanted like p r ≡ false
    → ¬ IsWanted like p r
unfolding is_live_rule
unwanted like p r h k =
    let active = (active-IsActiveAs p.is_active r).1 k.active in
    let search = (search-IsLike like p.search r).1 k.search in
    let live : is_live_rule r ≡ true = ground (arith, k.not_deleted, k.not_destroyed) in
    cc (rw (live, active, search) at h)

Perm_middle : (r : RuleRow) (xs ys : List RuleRow) → Perm (xs ++ r ∷ ys) (r ∷ xs ++ ys)
Perm_middle r [] ys = Perm.refl _
Perm_middle r (x ∷ xs) ys = Perm.trans (Perm.cons x (Perm_middle r xs ys)) (Perm.swap _ _ _)

module _ (test : RuleRow → Bool) where
  abbrev others : List RuleRow → List RuleRow
  others rows = filter (λ r. not (test r)) rows

  filter-All :
      (P : RuleRow → Type 0) (rows : List RuleRow)
      → ((r : RuleRow) → test r ≡ true → P r)
      → All P (filter test rows)
  filter-All P [] h = tt
  filter-All P (r ∷ rows) h = elim (Bool-cases (test r)) [
    | inl kept ↦ rw kept (h r kept, filter-All P rows h)
    | inr dropped ↦ rw dropped (filter-All P rows h)
  ]

  others-All :
      (P : RuleRow → Type 0) (rows : List RuleRow)
      → ((r : RuleRow) → test r ≡ false → P r)
      → All P (others rows)
  others-All P [] h = tt
  others-All P (r ∷ rows) h = elim (Bool-cases (test r)) [
    | inl kept ↦ rw kept (others-All P rows h)
    | inr dropped ↦ rw dropped (h r dropped, others-All P rows h)
  ]

  filter-Perm : (rows : List RuleRow) → Perm (filter test rows ++ others rows) rows
  filter-Perm [] = Perm.refl []
  filter-Perm (r ∷ rows) = elim (Bool-cases (test r)) [
    | inl kept ↦ rw kept (Perm.cons r (filter-Perm rows))
    | inr dropped ↦ rw dropped (
        Perm.trans (Perm_middle r (filter test rows) (others rows))
          (Perm.cons r (filter-Perm rows)))
  ]

-- The listed rules, together with rules none of which is wanted, are the rules of the table, each as
-- often as it stands there; every listed rule is not removed and matches the filters of the payload;
-- and the newest come first.
pub record Lists (like : Text → Text → Bool) (p : FindAllRules) (db : Db) (listed : List RuleRow)
    : Type 0 where
  pub rest : List RuleRow
  pub all : Perm (listed ++ rest) db.rules
  pub are_wanted : All (IsWanted like p) listed
  pub rest_unwanted : All (λ r. ¬ IsWanted like p r) rest
  pub in_order : IsNewestFirst listed

-- The rules that are listed are exactly those of the table, each as often as it stands there, that
-- are not removed, are active or not as the payload asks, and, unless its search is blank, have a
-- name or a prompt that is like it; and the newest come first.
pub listed_rules-sorts :
    (like : Text → Text → Bool) (p : FindAllRules) (db : Db)
    → Lists like p db (listed_rules like p db)
unfolding listed_rules
listed_rules-sorts like p db =
    let test = wanted like p in
    let (sorted, same) = rules_by_id_desc-sorts (filter test db.rules) in
    record {
      rest = others test db.rules;
      all = Perm.trans (Perm.append_right (others test db.rules) same) (filter-Perm test db.rules);
      are_wanted =
          rules_by_id_desc-All (IsWanted like p) (filter test db.rules)
            (filter-All test (IsWanted like p) db.rules (wanted-IsWanted like p));
      rest_unwanted = others-All test (λ r. ¬ IsWanted like p r) db.rules (unwanted like p);
      in_order = sorted;
    }
