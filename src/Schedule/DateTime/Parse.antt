-- ===== src/Schedule/DateTime/Parse.antt =====
-- `parseDateString` of services/scheduler/deviceSchedule.datetime.ts, with its two patterns
-- written out: a run of digits is followed by a separator or by the end, so taking as many digits
-- as the pattern allows never has to give one back.
use ginem_api.Common.{
  ℕ, zero, suc, Bool, true, false, ◌&&◌, ◌||◌, Option, none, some, [], ◌∷◌, length, leb, ◌==◌,
  if◌then◌else◌,
}
use ginem_api.Common.Text.{Text, codes, trim, is_digit, number_from}
use ginem_api.Common.Exec.{Result, ok, err, bad_request}
use ginem_api.Schedule.Calendar.{YearMonthDay}

-- At most `most` leading digits, and what follows them.
unfoldable pub take_digits : ℕ → Text → Text × Text
unfolding is_digit
take_digits zero s = ([], s)
take_digits (suc most) [] = ([], [])
take_digits (suc most) (c ∷ s) =
    let rest = take_digits most s in if is_digit c then (c ∷ rest.0, rest.1) else ([], c ∷ s)

-- `(\d{least,most})`
unfoldable pub digit_group : ℕ → ℕ → Text → Option (ℕ × Text)
unfolding take_digits
digit_group least most s =
    let (digits, rest) = take_digits most s in
    if leb least (length digits) then some (number_from 0 digits, rest) else none

unfoldable pub separator : Bool → Text → Option Text
separator slash [] = none
separator slash (c ∷ s) = if c == b'-' || slash && c == b'/' then some s else none

unfoldable pub at_end : Text → Bool
at_end [] = true
at_end (_ ∷ _) = false

infixl 5 ◌>>=◌
abbrev ◌>>=◌ {ℓ κ} : {A : Type ℓ} {B : Type κ} → Option A → (A → Option B) → Option B
none >>= k = none
some a >>= k = k a

-- Three groups of digits with two separators, to the end of the text.
unfoldable pub three_groups : ℕ → ℕ → ℕ → ℕ → ℕ → ℕ → Bool → Text → Option (ℕ × ℕ × ℕ)
unfolding digit_group separator at_end
three_groups l₁ m₁ l₂ m₂ l₃ m₃ slash s = do
  (a, s₁) ← digit_group l₁ m₁ s
  s₂ ← separator slash s₁
  (b, s₃) ← digit_group l₂ m₂ s₂
  s₄ ← separator slash s₃
  (c, s₅) ← digit_group l₃ m₃ s₄
  if at_end s₅ then some (a, b, c) else none

-- /^(\d{4})-(\d{1,2})-(\d{1,2})$/
unfoldable pub iso_match : Text → Option (ℕ × ℕ × ℕ)
unfolding three_groups
iso_match s = three_groups 4 4 1 2 1 2 false s

-- /^(\d{1,2})[-/](\d{1,2})[-/](\d{4})$/
unfoldable pub dmy_match : Text → Option (ℕ × ℕ × ℕ)
unfolding three_groups
dmy_match s = three_groups 1 2 1 2 4 4 true s

unfoldable pub parse_matches : Option (ℕ × ℕ × ℕ) → Option (ℕ × ℕ × ℕ) → Result YearMonthDay
parse_matches (some (y, m, d)) _ = ok (record { year = y; month = m; day = d })
parse_matches none (some (d, m, y)) = ok (record { year = y; month = m; day = d })
parse_matches none none =
    err (
      bad_request (codes "Invalid date format. Use DD-MM-YYYY (e.g. \"09-06-2026\") or YYYY-MM-DD"))

unfoldable pub parse_date_string : Text → Result YearMonthDay
unfolding trim iso_match dmy_match parse_matches number_from
parse_date_string date = parse_matches (iso_match (trim date)) (dmy_match (trim date))
