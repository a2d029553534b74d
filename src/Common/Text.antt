-- ===== src/Common/Text.antt =====
-- The source's strings as lists of code points, with the string methods that it calls.
-- `to_lower_case` maps the ASCII letters and leaves every other code point as it is.
use Prim.Native.Char.{code}
use Prim.Native.String.{String}
use Prim.Native.Nat.{ℕ, zero, suc, ◌+◌, ◌-◌, ◌*◌, ◌/◌, ◌%◌, ◌<◌}
use mathlib.Core.Path.{◌≡◌, refl, ◌∙◌}
use mathlib.Core.Logic.{◌↔◌, inl, inr}
use mathlib.Core.Bool.{Bool, true, false, ◌&&◌, ◌||◌}
use mathlib.Core.List.{List, [], ◌∷◌, ◌++◌, reverse, map}
use native.Mathlib.Omega.{arith}
use ginem_api.Common.Tests.{ltb, leb, ◌==◌, if◌then◌else◌, Bool-cases}

abbrev pub Text : Type 0
Text = List ℕ

abbrev pub codes : String → Text
codes String.[] = []
codes (String.◌∷◌ c s) = code c ∷ codes s

-- `===`
unfoldable pub text_eq : Text → Text → Bool
text_eq [] [] = true
text_eq [] (_ ∷ _) = false
text_eq (_ ∷ _) [] = false
text_eq (a ∷ s) (b ∷ t) = a == b && text_eq s t

pub text_eq_iff : (s t : Text) → (text_eq s t ≡ true) ↔ (s ≡ t)
unfolding text_eq
text_eq_iff [] [] = ground arith
text_eq_iff [] (b ∷ t) = ground arith
text_eq_iff (a ∷ s) [] = ground arith
text_eq_iff (a ∷ s) (b ∷ t) = ground (arith, text_eq_iff s t)

pub text_eq_refl : (s : Text) → text_eq s s ≡ true
text_eq_refl s = (text_eq_iff s s).1 refl

unfoldable pub starts_with : Text → Text → Bool
starts_with [] s = true
starts_with (_ ∷ _) [] = false
starts_with (a ∷ prefix) (b ∷ s) = a == b && starts_with prefix s

-- `s.includes(part)`
unfoldable pub includes : Text → Text → Bool
unfolding starts_with
includes part [] = starts_with part []
includes part (c ∷ s) = starts_with part (c ∷ s) || includes part s

-- White space and line terminators, as `trim` takes them off.
unfoldable pub is_space : ℕ → Bool
is_space c =
    leb 9 c && leb c 13
    || c == 32
    || c == 0xa0
    || c == 0x1680
    || leb 0x2000 c && leb c 0x200a
    || c == 0x2028
    || c == 0x2029
    || c == 0x202f
    || c == 0x205f
    || c == 0x3000
    || c == 0xfeff

unfoldable pub trim_start : Text → Text
trim_start [] = []
trim_start (c ∷ s) = let rest = trim_start s in if is_space c then rest else c ∷ s

unfoldable pub trim : Text → Text
unfolding trim_start is_space
trim s = reverse (trim_start (reverse (trim_start s)))

unfoldable pub lower : ℕ → ℕ
lower c = if leb b'A' c && leb c b'Z' then c + 32 else c

unfoldable pub to_lower_case : Text → Text
unfolding lower
to_lower_case s = map lower s

pub lower_idempotent : (c : ℕ) → lower (lower c) ≡ lower c
unfolding lower
lower_idempotent c = ground arith

pub to_lower_case_idempotent : (s : Text) → to_lower_case (to_lower_case s) ≡ to_lower_case s
unfolding to_lower_case
to_lower_case_idempotent [] = refl
to_lower_case_idempotent (c ∷ s) = simp (lower_idempotent, to_lower_case_idempotent s)

unfoldable pub is_digit : ℕ → Bool
is_digit c = leb b'0' c && leb c b'9'

-- The decimal digits of a number, with fuel for at most that many digits.
unfoldable pub digits_upto : ℕ → ℕ → Text
digits_upto zero n = []
digits_upto (suc fuel) n =
    let more = digits_upto fuel (n / 10) ++ (b'0' + n % 10) ∷ [] in
    if ltb n 10 then (b'0' + n) ∷ [] else more

-- `String(n)` of a natural number
unfoldable pub show_nat : ℕ → Text
unfolding digits_upto
show_nat n = digits_upto (suc n) n

-- `Number(s)` of a text of digits
unfoldable pub number_from : ℕ → Text → ℕ
number_from acc [] = acc
number_from acc (c ∷ s) = number_from (acc * 10 + (c - b'0')) s

number_from-append :
    (acc c : ℕ) (s : Text) → number_from acc (s ++ c ∷ []) ≡ number_from acc s * 10 + (c - b'0')
unfolding number_from
number_from-append acc c [] = refl
number_from-append acc c (d ∷ s) = number_from-append (acc * 10 + (d - b'0')) c s

number_from-digits_upto : (fuel n : ℕ) → n < fuel → number_from 0 (digits_upto fuel n) ≡ n
unfolding digits_upto
number_from-digits_upto zero n h = elim h [ ]
number_from-digits_upto (suc fuel) n h = elim (Bool-cases (ltb n 10)) [
  | inl small ↦ rw small (unfold number_from in omega arith)
  | inr large ↦ rw large (
      number_from-append 0 (b'0' + n % 10) (digits_upto fuel (n / 10))
      ∙ ground (arith, number_from-digits_upto fuel (n / 10)))
]

-- Reading back what `show_nat` prints gives the number.
pub number_from-show_nat : (n : ℕ) → number_from 0 (show_nat n) ≡ n
unfolding show_nat
number_from-show_nat n = number_from-digits_upto (suc n) n (omega arith)
