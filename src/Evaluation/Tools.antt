-- ===== src/Evaluation/Tools.antt =====
-- evaluation/metrics/toolComparator.ts, parameterComparator.ts and errorClassifier.ts: the calls that
-- the model made beside those that were expected, and the errors that this shows.
pub mod Names
pub mod Counts
use ginem_api.Common.{
  ℕ, ◌+◌, Bool, true, false, ◌&&◌, Option, none, some, List, [], ◌∷◌, ◌++◌, map, ltb, ◌==◌, length,
  if◌then◌else◌,
}
use ginem_api.Common.Int.{ℤ}
use ginem_api.Common.Text.{Text, text_eq}
use ginem_api.Evaluation.Values.{Value, Fields, end, field, get, null, semantic_equal}
use ginem_api.Evaluation.Values.Same.{has_key}

-- `{ tool, parameters }` of an expected call, `{ name, args }` of a call that was made.
pub record ToolCall : Type 0 where
  pub tool : Text
  pub parameters : Fields

pub data ExpectedBehavior : Type 0 where
  tool_call clarification reject_or_no_tool : ExpectedBehavior

pub record ToolPairing : Type 0 where
  pub tool : Text
  pub expected_parameters : Fields
  pub actual_parameters : Fields

pub record ToolComparisonResult : Type 0 where
  pub tool_correct : Bool
  pub expected_tools : List Text
  pub actual_tools : List Text
  pub missing_tools : List Text
  pub extra_tools : List Text
  pub matched_pairs : List ToolPairing

abbrev pub tool_names : List ToolCall → List Text
tool_names calls = map (λ (c : ToolCall). c.tool) calls

abbrev pub is_empty : {A : Type 0} → List A → Bool
is_empty [] = true
is_empty (_ ∷ _) = false

abbrev pub put_back :
    ToolCall → Option (ToolCall × List ToolCall) → Option (ToolCall × List ToolCall)
put_back c none = none
put_back c (some (found, rest)) = some (found, c ∷ rest)

-- `findIndex` and `splice`: the first call of the tool, and the other calls.
unfoldable pub take_call : Text → List ToolCall → Option (ToolCall × List ToolCall)
take_call tool [] = none
take_call tool (c ∷ calls) =
    let later = put_back c (take_call tool calls) in
    if text_eq c.tool tool then some (c, calls) else later

-- What the loop over the expected calls collects: the missing tools, the pairs, and what remains.
pub record Pairing : Type 0 where
  pub missing : List Text
  pub pairs : List ToolPairing
  pub remaining : List ToolCall

abbrev pub add_pair : ToolCall → ToolCall → Pairing → Pairing
add_pair expected actual p = record p {
  pairs =
      (record {
        tool = expected.tool;
        expected_parameters = expected.parameters;
        actual_parameters = actual.parameters;
      })
      ∷ p.pairs;
}

abbrev pub add_missing : ToolCall → Pairing → Pairing
add_missing expected p = record p { missing = expected.tool ∷ p.missing }

unfoldable pub pair_calls : List ToolCall → List ToolCall → Pairing
unfolding take_call
pair_calls [] actual = record { missing = []; pairs = []; remaining = actual }
pair_calls (e ∷ expected) actual = elim (take_call e.tool actual) [
  | none ↦ add_missing e (pair_calls expected actual)
  | some (found, rest) ↦ add_pair e found (pair_calls expected rest)
]

abbrev pub compared : List ToolCall → List ToolCall → Pairing → ToolComparisonResult
compared expected actual p = record {
  tool_correct = is_empty p.missing && is_empty p.remaining;
  expected_tools = tool_names expected;
  actual_tools = tool_names actual;
  missing_tools = p.missing;
  extra_tools = tool_names p.remaining;
  matched_pairs = p.pairs;
}

abbrev pub no_tool_expected : List ToolCall → ToolComparisonResult
no_tool_expected actual = record {
  tool_correct = is_empty actual;
  expected_tools = [];
  actual_tools = tool_names actual;
  missing_tools = [];
  extra_tools = tool_names actual;
  matched_pairs = [];
}

unfoldable pub compare_tools :
    ExpectedBehavior → List ToolCall → List ToolCall → ToolComparisonResult
unfolding pair_calls
compare_tools tool_call expected actual = compared expected actual (pair_calls expected actual)
compare_tools clarification expected actual = no_tool_expected actual
compare_tools reject_or_no_tool expected actual = no_tool_expected actual

pub data ErrorType : Type 0 where
  wrong_tool invalid_or_missing_parameter invalid_structure failed_clarification : ErrorType
  unnecessary_tool_call other_error : ErrorType

abbrev pub tag_if : Bool → ErrorType → List ErrorType
tag_if true e = e ∷ []
tag_if false e = []

abbrev pub is_false : Option Bool → Bool
is_false (some false) = true
is_false (some true) = false
is_false none = false

unfoldable pub classify_errors :
    ExpectedBehavior → ToolComparisonResult → Option Bool → Option Bool → List ErrorType
classify_errors clarification c parameter_correct structure_valid =
    if is_empty c.actual_tools then [] else failed_clarification ∷ unnecessary_tool_call ∷ []
classify_errors reject_or_no_tool c parameter_correct structure_valid =
    if is_empty c.actual_tools then [] else unnecessary_tool_call ∷ []
classify_errors tool_call c parameter_correct structure_valid =
    if is_empty c.missing_tools && is_empty c.extra_tools
    then tag_if (is_false parameter_correct) invalid_or_missing_parameter
      ++ tag_if (is_false structure_valid) invalid_structure
    else tag_if (if is_empty c.missing_tools then false else true) wrong_tool
      ++ tag_if (if is_empty c.extra_tools then false else true) unnecessary_tool_call

pub record ParameterComparisonResult : Type 0 where
  pub parameters_checked : ℕ
  pub parameters_correct : ℕ
  pub missing_parameters : List (Text × Text)
  pub mismatched_parameters : List (Text × Text × Value × Value)

-- The field `parameterCorrect`.
abbrev pub parameter_correct : ParameterComparisonResult → Bool
parameter_correct r = is_empty r.missing_parameters && is_empty r.mismatched_parameters

-- One expected parameter: missing, correct or mismatched. A key whose value is `undefined` does not
-- come out of JSON.
unfoldable pub count_parameter :
    Bool
    → Bool
    → Text
    → Text
    → Value
    → Value
    → ParameterComparisonResult
    → ParameterComparisonResult
count_parameter false equal tool key expected actual r = record r {
  parameters_checked = r.parameters_checked + 1;
  missing_parameters = (tool, key) ∷ r.missing_parameters;
}
count_parameter true true tool key expected actual r = record r {
  parameters_checked = r.parameters_checked + 1;
  parameters_correct = r.parameters_correct + 1;
}
count_parameter true false tool key expected actual r = record r {
  parameters_checked = r.parameters_checked + 1;
  mismatched_parameters = (tool, key, expected, actual) ∷ r.mismatched_parameters;
}

module _ (number_of : Text → Option ℤ) where
  -- The two loops; what they collect is in the order of the source.
  unfoldable pub compare_fields :
      Text → Fields → Fields → ParameterComparisonResult → ParameterComparisonResult
  unfolding count_parameter has_key get
  compare_fields tool end actual rest = rest
  compare_fields tool (field key expected fs) actual rest =
      count_parameter (has_key key actual) (semantic_equal number_of expected (get key actual)) tool
        key expected (get key actual) (compare_fields tool fs actual rest)

  unfoldable pub compare_parameters : List ToolPairing → ParameterComparisonResult
  unfolding compare_fields
  compare_parameters [] = record {
    parameters_checked = 0;
    parameters_correct = 0;
    missing_parameters = [];
    mismatched_parameters = [];
  }
  compare_parameters (p ∷ pairs) =
      compare_fields p.tool p.expected_parameters p.actual_parameters (compare_parameters pairs)
