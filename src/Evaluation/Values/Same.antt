-- ===== src/Evaluation/Values/Same.antt =====
-- evaluation/metrics/valueNormalizer.ts: a value is equal to itself.
use ginem_api.Common.{◌≡◌, refl, Bool, true, false, ◌||◌, Option, none, some, arith}
use ginem_api.Common.Int.{ℤ, pos, negsuc}
use ginem_api.Common.Text.{Text, text_eq, text_eq_iff, text_eq_refl}
use ginem_api.Evaluation.Values.{
  Value, Items, Fields, null, boolean, number, text, array, object, nil, cons, end, field, int_eq,
  both_equal, get, property, normalize_string, without, numeric, semantic_equal, match_all,
  fields_equal,
}

unfoldable pub has_key : Text → Fields → Bool
has_key key end = false
has_key key (field k v fs) = text_eq k key || has_key key fs

-- No object inside the value has a key twice.
abbrev mutual
  pub HasDistinctKeys : Value → Type 0
  HasDistinctKeys (array xs) = AllDistinct xs
  HasDistinctKeys (object fs) = FieldsDistinct fs
  HasDistinctKeys null = Unit
  HasDistinctKeys (boolean b) = Unit
  HasDistinctKeys (number n) = Unit
  HasDistinctKeys (text s) = Unit

  pub AllDistinct : Items → Type 0
  AllDistinct nil = Unit
  AllDistinct (cons x xs) = HasDistinctKeys x × AllDistinct xs

  pub FieldsDistinct : Fields → Type 0
  FieldsDistinct end = Unit
  FieldsDistinct (field k v fs) = (has_key k fs ≡ false) × HasDistinctKeys v × FieldsDistinct fs

-- Every field of the first object is found in the second.
abbrev Agrees : Fields → Fields → Type 0
Agrees end gs = Unit
Agrees (field k v fs) gs = (get k gs ≡ v) × Agrees fs gs

int_eq_refl : (n : ℤ) → int_eq n n ≡ true
int_eq_refl (pos n) = ground arith
int_eq_refl (negsuc n) = ground arith

both_equal_refl : (n : Option ℤ) (b : Bool) → b ≡ true → both_equal n n b ≡ true
both_equal_refl none b h = h
both_equal_refl (some n) b h = int_eq_refl n

Agrees-field :
    (k : Text) (v : Value) (fs gs : Fields)
    → has_key k fs ≡ false
    → Agrees fs gs
    → Agrees fs (field k v gs)
unfolding has_key get
Agrees-field k v end gs new h = tt
Agrees-field k v (field j w fs) gs new (e, h) =
    (ground (arith, text_eq_iff k j, text_eq_iff j k), Agrees-field k v fs gs (ground arith) h)

Agrees-refl : (fs : Fields) → FieldsDistinct fs → Agrees fs fs
unfolding get
Agrees-refl end h = tt
Agrees-refl (field k v fs) (new, _, h) =
    (rw (text_eq_refl k) refl, Agrees-field k v fs fs new (Agrees-refl fs h))

without-first :
    (test : Value → Bool) (y : Value) (ys : Items)
    → test y ≡ true
    → without test (cons y ys) ≡ some ys
unfolding without
without-first test y ys h = rw h refl

module _ (number_of : Text → Option ℤ) where
  mutual
    unfolding semantic_equal property

    same : (v : Value) → HasDistinctKeys v → semantic_equal number_of v v ≡ true
    same null h = refl
    same (boolean true) h = refl
    same (boolean false) h = refl
    same (number n) h = int_eq_refl n
    same (text s) h =
        both_equal_refl (numeric number_of (text s)) _ (text_eq_refl (normalize_string s))
    same (array xs) h = let all = same_items xs h in ground (arith, all)
    same (object fs) h = same_fields fs fs h (Agrees-refl fs h)

    same_items : (xs : Items) → AllDistinct xs → match_all number_of xs xs ≡ true
    same_items nil h = refl
    same_items (cons x xs) (hx, h) =
        rw (match_all, without-first (semantic_equal number_of x) x xs (same x hx))
          (same_items xs h)

    same_fields :
        (fs gs : Fields)
        → FieldsDistinct fs
        → Agrees fs gs
        → fields_equal number_of fs (object gs) ≡ true
    same_fields end gs h a = refl
    same_fields (field k v fs) gs (_, hv, h) (e, a) = rw (e, same v hv) (same_fields fs gs h a)

  -- A value in which no object has a key twice is equal to itself, whatever texts convert to numbers:
  -- arrays match their items one to one, objects field by field.
  pub semantic_equal_refl : (v : Value) → HasDistinctKeys v → semantic_equal number_of v v ≡ true
  semantic_equal_refl v h = same v h
