-- ===== src/Evaluation/Tools/Counts.antt =====
-- evaluation/metrics/parameterComparator.ts: what is counted of every expected parameter.
use ginem_api.Common.{
  ◌+◌, ◌≡◌, refl, ap, Bool, false, ◌&&◌, not, Option, none, some, List, [], ◌∷◌, ◌++◌, map, filter,
  every, is_some, length, arith, if◌then◌else◌, inl, inr, Bool-cases,
}
use ginem_api.Common.Int.{ℤ}
use ginem_api.Common.Text.{Text, text_eq}
use ginem_api.Evaluation.Values.{Value, Fields, null, end, field, get, semantic_equal}
use ginem_api.Evaluation.Values.Same.{has_key}
use ginem_api.Evaluation.Tools.{
  ToolPairing, is_empty, ParameterComparisonResult, parameter_correct, count_parameter,
  compare_fields, compare_parameters,
}

-- A parameter that a matched call expects, with the value that the call has for the key, if any.
pub record Parameter : Type 0 where
  pub tool : Text
  pub key : Text
  pub expected : Value
  pub actual : Option Value

unfoldable pub value_at : Text → Fields → Option Value
value_at key end = none
value_at key (field k v fs) = let rest = value_at key fs in if text_eq k key then some v else rest

unfoldable pub parameters_of : Text → Fields → Fields → List Parameter
unfolding value_at
parameters_of tool end actual = []
parameters_of tool (field key expected fs) actual =
    (record { tool = tool; key = key; expected = expected; actual = value_at key actual })
    ∷ parameters_of tool fs actual

-- Every parameter that the matched calls expect.
unfoldable pub all_parameters : List ToolPairing → List Parameter
unfolding parameters_of
all_parameters [] = []
all_parameters (p ∷ pairs) =
    parameters_of p.tool p.expected_parameters p.actual_parameters ++ all_parameters pairs

abbrev pub is_missing : Parameter → Bool
is_missing q = not (is_some q.actual)

none_correct : {A : Type 0} (missing : List A) → is_empty missing && false ≡ false
none_correct [] = refl
none_correct (m ∷ missing) = refl

module _ (number_of : Text → Option ℤ) where
  abbrev pub is_same : Value → Option Value → Bool
  is_same expected none = false
  is_same expected (some v) = semantic_equal number_of expected v

  -- The values are equal in meaning.
  abbrev pub is_correct : Parameter → Bool
  is_correct q = is_same q.expected q.actual

  abbrev mismatch : Parameter → Option Value → List (Text × Text × Value × Value)
  mismatch q none = []
  mismatch q (some v) =
      if semantic_equal number_of q.expected v then [] else (q.tool, q.key, q.expected, v) ∷ []

  -- The parameters that have another value, with both values.
  unfoldable pub mismatches : List Parameter → List (Text × Text × Value × Value)
  mismatches [] = []
  mismatches (q ∷ params) = mismatch q q.actual ++ mismatches params

  -- What a result says of the parameters.
  pub record Counts (params : List Parameter) (r : ParameterComparisonResult) : Type 0 where
    pub checked : r.parameters_checked ≡ length params
    pub correct : r.parameters_correct ≡ length (filter is_correct params)
    pub missing : r.missing_parameters ≡ map (λ q. (q.tool, q.key)) (filter is_missing params)
    pub mismatched : r.mismatched_parameters ≡ mismatches params
    pub each_once :
        r.parameters_checked
        ≡ r.parameters_correct + length r.missing_parameters + length r.mismatched_parameters
    pub all_correct : parameter_correct r ≡ every is_correct params

  has_key-value_at : (key : Text) (fs : Fields) → has_key key fs ≡ is_some (value_at key fs)
  unfolding has_key value_at
  has_key-value_at key end = refl
  has_key-value_at key (field k v fs) = ground (arith, has_key-value_at key fs)

  read_value : Option Value → Value
  read_value none = null
  read_value (some v) = v

  get-value_at : (key : Text) (fs : Fields) → get key fs ≡ read_value (value_at key fs)
  unfolding get value_at read_value
  get-value_at key end = refl
  get-value_at key (field k v fs) = elim (Bool-cases (text_eq k key)) [
    | inl here ↦ rw here refl
    | inr later ↦ rw later (get-value_at key fs)
  ]

  counted-Counts :
      (tool key : Text) (expected : Value) (actual : Option Value) (params : List Parameter)
      (r : ParameterComparisonResult)
      → Counts params r
      → Counts
          ((record { tool = tool; key = key; expected = expected; actual = actual }) ∷ params)
          (count_parameter
            (is_some actual)
            (semantic_equal number_of expected (read_value actual))
            tool
            key
            expected
            (read_value actual)
            r)
  unfolding count_parameter read_value mismatches
  counted-Counts tool key expected none params r h = record {
    checked = omega (arith, h.checked);
    correct = h.correct;
    missing = ap (λ m. (tool, key) ∷ m) h.missing;
    mismatched = h.mismatched;
    each_once = omega (arith, h.each_once);
    all_correct = refl;
  }
  counted-Counts tool key expected (some v) params r h =
      elim (Bool-cases (semantic_equal number_of expected v)) [
        | inl same ↦ record {
          checked = rw same (omega (arith, h.checked));
          correct = rw same (omega (arith, h.correct));
          missing = rw same h.missing;
          mismatched = rw same h.mismatched;
          each_once = rw same (omega (arith, h.each_once));
          all_correct = rw same h.all_correct;
        }
        | inr differ ↦ record {
          checked = rw differ (omega (arith, h.checked));
          correct = rw differ h.correct;
          missing = rw differ h.missing;
          mismatched = rw differ (ap (λ m. (tool, key, expected, v) ∷ m) h.mismatched);
          each_once = rw differ (omega (arith, h.each_once));
          all_correct = rw differ (none_correct r.missing_parameters);
        }
      ]

  compare_fields-Counts :
      (tool : Text) (fs actual : Fields) (params : List Parameter)
      (rest : ParameterComparisonResult)
      → Counts params rest
      → Counts
          (parameters_of tool fs actual ++ params)
          (compare_fields number_of tool fs actual rest)
  unfolding compare_fields parameters_of
  compare_fields-Counts tool end actual params rest h = h
  compare_fields-Counts tool (field k v fs) actual params rest h =
      rw (has_key-value_at k actual, get-value_at k actual)
        (counted-Counts tool k v (value_at k actual) (parameters_of tool fs actual ++ params)
          (compare_fields number_of tool fs actual rest)
          (compare_fields-Counts tool fs actual params rest h))

  -- Of the parameters that the matched calls expect, each with the value that the call has for the
  -- key: as many are checked as there are; those are correct whose value equals the expected one in
  -- meaning; those without a value are missing, and those with another value are mismatched, with both
  -- values and in their order; each is one of the three; and `parameterCorrect` holds exactly when
  -- every parameter is correct.
  pub compare_parameters-Counts :
      (pairs : List ToolPairing)
      → Counts (all_parameters pairs) (compare_parameters number_of pairs)
  unfolding compare_parameters all_parameters
  compare_parameters-Counts [] = record {
    checked = refl;
    correct = refl;
    missing = refl;
    mismatched = unfold mismatches in refl;
    each_once = omega arith;
    all_correct = refl;
  }
  compare_parameters-Counts (p ∷ pairs) =
      compare_fields-Counts p.tool p.expected_parameters p.actual_parameters (all_parameters pairs)
        (compare_parameters number_of pairs) (compare_parameters-Counts pairs)
