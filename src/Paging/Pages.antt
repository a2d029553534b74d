-- ===== src/Paging/Pages.antt =====
-- utilities/pagination.ts: the pages of a listing, taken together.
use native.Mathlib.Nat.{div-add-mod', mod-lt}
use ginem_api.Common.{
  ℕ, suc, zero, ◌+◌, ◌-◌, ◌*◌, ◌/◌, max, ◌≤◌, ◌≡◌, refl, ◌∙◌, ap, ap₂, Option, some, List, [], ◌∷◌,
  ◌++◌, take, drop, length, arith,
}
use ginem_api.Common.Int.{ℤ, pos}
use ginem_api.Paging.{positive_or, pagination, calculate_offset, format_data, find_page}

-- The limit that a size gives.
abbrev pub limit_of : Option ℤ → ℕ
limit_of size = max 1 (positive_or 10 size)

zero_add : (b : ℕ) → 0 + b ≡ b
zero_add b = omega arith

suc_add : (a b : ℕ) → suc a + b ≡ suc (a + b)
suc_add a b = omega arith

none_left : (n : ℕ) → suc n ≤ 0 → ⊥
none_left n h = omega arith

suc_mul : (n l : ℕ) → suc n * l ≡ n * l + l
suc_mul n l = ground arith

offset_lem : (n l : ℕ) → (max 1 (suc n) - 1) * l ≡ n * l
offset_lem n l = let e : max 1 (suc n) - 1 ≡ n = omega arith in ap (λ k. k * l) e

module _ {ℓ} {A : Type ℓ} where
  -- The items of the first `n` pages, one page after the other.
  abbrev pub first_pages : Option ℤ → List A → ℕ → List A
  first_pages size rows zero = []
  first_pages size rows (suc n) =
      first_pages size rows n ++ (find_page (some (pos (suc n))) size rows).items

  take-nil : (n : ℕ) → take {A = A} n [] ≡ []
  take-nil zero = refl
  take-nil (suc n) = refl

  take-add : (a b : ℕ) (xs : List A) → take (a + b) xs ≡ take a xs ++ take b (drop a xs)
  take-add zero b xs = ap (λ n. take n xs) (zero_add b)
  take-add (suc a) b [] = rw (take-nil (suc a + b), take-nil b) refl
  take-add (suc a) b (x ∷ xs) = rw (suc_add a b) (ap (λ t. x ∷ t) (take-add a b xs))

  take-all : (n : ℕ) (xs : List A) → length xs ≤ n → take n xs ≡ xs
  take-all zero [] h = refl
  take-all zero (x ∷ xs) h = elim (none_left (length xs) h) [ ]
  take-all (suc n) [] h = refl
  take-all (suc n) (x ∷ xs) h = ap (λ t. x ∷ t) (take-all n xs (omega arith))

  first_pages-take :
      (size : Option ℤ) (rows : List A) (n : ℕ)
      → first_pages size rows n ≡ take (n * limit_of size) rows
  unfolding find_page pagination format_data positive_or calculate_offset
  first_pages-take size rows zero =
      let e : 0 ≡ 0 * limit_of size = omega arith in ap (λ n. take n rows) e
  first_pages-take size rows (suc n) =
      rw (suc_mul n (limit_of size), take-add (n * limit_of size) (limit_of size) rows)
        (ap₂ (λ xs ys. xs ++ ys) (first_pages-take size rows n)
          (ap (λ k. take (limit_of size) (drop k rows)) (offset_lem n (limit_of size))))

ceil_covers : (count l : ℕ) → 1 ≤ l → count ≤ (count + l - 1) / l * l
ceil_covers count l h = omega (arith, div-add-mod' (count + l - 1) l, mod-lt (count + l - 1) h)

module _ {ℓ} {A : Type ℓ} where
  -- All pages of a listing together, as many as the listing says that there are, are its rows: each
  -- row once, in order, whatever the size is.
  pub first_pages-total :
      (size page : Option ℤ) (rows : List A)
      → first_pages size rows (find_page page size rows).total_pages ≡ rows
  unfolding find_page pagination format_data
  first_pages-total size page rows =
      first_pages-take size rows _
      ∙ take-all _ rows (ceil_covers (length rows) (limit_of size) (omega arith))
