-- ===== src/Evaluation/Values.antt =====
-- evaluation/metrics/valueNormalizer.ts: equality of values as the metrics mean it. `null` stands for
-- `undefined` too; `number_of` is the number that a text converts to, `none` for NaN. The
-- properties that every JavaScript object inherits are left out.
pub mod Same
use mathlib.Core.Option
use ginem_api.Common.{
  ℕ, zero, suc, ◌+◌, Bool, true, false, ◌&&◌, Option, none, some, List, [], ◌∷◌, ◌==◌,
  if◌then◌else◌,
}
use ginem_api.Common.Int.{ℤ, pos, negsuc}
use ginem_api.Common.Text.{Text, codes, text_eq, trim, is_space, to_lower_case, show_nat}

mutual
  pub data Value : Type 0 where
    null : Value
    boolean : Bool → Value
    number : ℤ → Value
    text : Text → Value
    array : Items → Value
    object : Fields → Value

  pub data Items : Type 0 where
    nil : Items
    cons : Value → Items → Items

  pub data Fields : Type 0 where
    end : Fields
    field : Text → Value → Fields → Fields

abbrev pub length : Items → ℕ
length nil = 0
length (cons x xs) = suc (length xs)

-- `replace(/\s+/g, ' ')`; the flag says whether a space stands before.
unfoldable pub collapse : Bool → Text → Text
unfolding is_space
collapse spaced [] = []
collapse spaced (c ∷ s) =
    let rest = collapse (is_space c) s in
    if is_space c then (if spaced then rest else 32 ∷ rest) else c ∷ rest

unfoldable pub normalize_string : Text → Text
unfolding collapse trim to_lower_case
normalize_string s = to_lower_case (collapse false (trim s))

abbrev pub int_eq : ℤ → ℤ → Bool
int_eq (pos m) (pos n) = m == n
int_eq (negsuc m) (negsuc n) = m == n
int_eq a b = false

-- `obj[key]` of an object, and of an array.
unfoldable pub get : Text → Fields → Value
get key end = null
get key (field k v fs) = let rest = get key fs in if text_eq k key then v else rest

unfoldable pub get_item : ℕ → Text → Items → Value
get_item i key nil = null
get_item i key (cons x xs) =
    let rest = get_item (i + 1) key xs in if text_eq (show_nat i) key then x else rest

unfoldable pub property : Value → Text → Value
unfolding get get_item
property (object fs) key = get key fs
property (array xs) key =
    if text_eq key (codes "length") then number (pos (length xs)) else get_item 0 key xs
property v key = null

abbrev pub both_equal : Option ℤ → Option ℤ → Bool → Bool
both_equal (some m) (some n) otherwise = int_eq m n
both_equal m n otherwise = otherwise

-- `findIndex` and `splice`: the items without the first that passes the test.
unfoldable pub without : (Value → Bool) → Items → Option Items
without test nil = none
without test (cons y ys) =
    let later = Option.map (cons y) (without test ys) in if test y then some ys else later

module _ (number_of : Text → Option ℤ) where
  -- `isNumericLike`, with the number
  unfoldable pub numeric : Value → Option ℤ
  numeric (number n) = some n
  numeric (text s) = if text_eq (trim s) [] then none else number_of s
  numeric v = none

  unfoldable mutual
    unfolding numeric normalize_string property without

    pub semantic_equal : Value → Value → Bool
    semantic_equal null null = true
    semantic_equal null (boolean b) = false
    semantic_equal null (number n) = false
    semantic_equal null (text s) = false
    semantic_equal null (array xs) = false
    semantic_equal null (object fs) = false
    semantic_equal (boolean true) (boolean b) = b
    semantic_equal (boolean false) (boolean true) = false
    semantic_equal (boolean false) (boolean false) = true
    semantic_equal (boolean b) other = false
    semantic_equal (number n) other = both_equal (some n) (numeric other) false
    semantic_equal (text s) (text t) =
        both_equal (numeric (text s)) (numeric (text t))
          (text_eq (normalize_string s) (normalize_string t))
    semantic_equal (text s) other = both_equal (numeric (text s)) (numeric other) false
    semantic_equal (array xs) (array ys) = length xs == length ys && match_all xs ys
    semantic_equal (array xs) (object fs) = items_equal 0 xs (object fs)
    semantic_equal (array xs) other = false
    semantic_equal (object fs) (array ys) = fields_equal fs (array ys)
    semantic_equal (object fs) (object gs) = fields_equal fs (object gs)
    semantic_equal (object fs) other = false

    -- The loop over the expected items, each of which takes the first that equals it out of
    -- `remaining`.
    pub match_all : Items → Items → Bool
    match_all nil remaining = true
    match_all (cons x xs) remaining = elim (without (semantic_equal x) remaining) [
      | none ↦ false
      | some rest ↦ match_all xs rest
    ]

    -- Only the keys that are expected are looked at.
    pub fields_equal : Fields → Value → Bool
    fields_equal end actual = true
    fields_equal (field k v fs) actual =
        semantic_equal v (property actual k) && fields_equal fs actual

    pub items_equal : ℕ → Items → Value → Bool
    items_equal i nil actual = true
    items_equal i (cons x xs) actual =
        semantic_equal x (property actual (show_nat i)) && items_equal (i + 1) xs actual
