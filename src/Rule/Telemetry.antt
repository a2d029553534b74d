-- ===== src/Rule/Telemetry.antt =====
-- services/rule/telemetryMetrics.ts: the numeric metrics of an MQTT payload. A JavaScript object
-- with string keys is an association list. Reading a number from a text (`Number`, when the result
-- is finite) and `JSON.parse` are the parameters `number_of` and `json_parse`.
pub mod Laws
use ginem_api.Common.{
  ℕ, Bool, true, false, ◌&&◌, ◌||◌, not, Option, none, some, List, [], ◌∷◌, any, if◌then◌else◌,
  ◌==◌,
}
use ginem_api.Common.Int.{ℤ}
use ginem_api.Common.Text.{Text, codes, text_eq, trim, to_lower_case}

-- A parsed payload; its numbers are finite, and an object that `JSON.parse` gives has no key twice. Of an array only the text is kept that `String` makes
-- of it, since the code reads no element.
mutual
  pub data Json : Type 0 where
    null : Json
    bool : Bool → Json
    num : ℤ → Json
    str : Text → Json
    array : Text → Json
    object : Fields → Json

  pub data Fields : Type 0 where
    end : Fields
    field : Text → Json → Fields → Fields

abbrev pub Metrics : Type 0
Metrics = List (Text × ℤ)

-- `metrics[key]`
unfoldable pub get : Text → Metrics → Option ℤ
get key [] = none
get key ((k, v) ∷ m) = let rest = get key m in if text_eq k key then some v else rest

-- `metrics[key] = value`
unfoldable pub put : Text → ℤ → Metrics → Metrics
put key value [] = (key, value) ∷ []
put key value ((k, v) ∷ m) =
    let rest = (k, v) ∷ put key value m in if text_eq k key then (k, value) ∷ m else rest

-- `Object.assign(metrics, other)`
unfoldable pub assign : Metrics → Metrics → Metrics
unfolding put
assign m [] = m
assign m ((k, v) ∷ other) = assign (put k v m) other

-- `obj.name` of a parsed object, `none` for `undefined`; the last of equal keys counts.
unfoldable pub member : Text → Fields → Option Json
member name end = none
member name (field k v rest) = elim (member name rest) [
  | some later ↦ some later
  | none ↦ if text_eq k name then some v else none
]

unfoldable pub is_empty : Text → Bool
is_empty [] = true
is_empty (_ ∷ _) = false

unfoldable pub put_if : Option ℤ → Text → Metrics → Metrics
unfolding put
put_if none key m = m
put_if (some n) key m = put key n m

unfoldable pub starts_with_brace : Text → Bool
starts_with_brace [] = false
starts_with_brace (c ∷ _) = c == b'{'

module _ (number_of : Text → Option ℤ) (json_parse : Text → Option Json) where
  -- The number of one field of an object, if it has one.
  unfoldable pub field_number : Json → Option ℤ
  unfolding is_empty
  field_number (num n) = some n
  field_number (str s) = if is_empty (trim s) then none else number_of s
  field_number null = none
  field_number (bool _) = none
  field_number (array _) = none
  field_number (object _) = none

  unfoldable pub extract_from : List Text → Fields → Metrics → Metrics
  unfolding put_if field_number
  extract_from skip_keys end out = out
  extract_from skip_keys (field key raw rest) out = extract_from skip_keys rest (
      if any (text_eq key) skip_keys
      then out
      else put_if (field_number raw) (to_lower_case key) out)

  unfoldable pub extract_numeric_fields : List Text → Fields → Metrics
  unfolding extract_from
  extract_numeric_fields skip_keys obj = extract_from skip_keys obj []

  -- `Object.assign(metrics, extractNumericFields(nested))`; of a parsed text that begins with `{`
  unfoldable pub nested_metrics : Text → Option Json → Metrics
  unfolding extract_numeric_fields put_if
  nested_metrics trimmed none = put_if (number_of trimmed) (codes "value") []
  nested_metrics trimmed (some (object nested)) = assign [] (extract_numeric_fields [] nested)
  nested_metrics trimmed (some null) = []
  nested_metrics trimmed (some (bool _)) = []
  nested_metrics trimmed (some (num _)) = []
  nested_metrics trimmed (some (str _)) = []
  nested_metrics trimmed (some (array _)) = []

  -- The block on `obj.value`.
  unfoldable pub value_metrics : Option Json → Metrics
  unfolding nested_metrics starts_with_brace put_if
  value_metrics (some (str s)) =
      if starts_with_brace (trim s)
      then nested_metrics (trim s) (json_parse (trim s))
      else put_if (number_of (trim s)) (codes "value") []
  value_metrics (some (num n)) = put (codes "value") n []
  value_metrics (some null) = []
  value_metrics (some (bool _)) = []
  value_metrics (some (array _)) = []
  value_metrics (some (object _)) = []
  value_metrics none = []

  -- The number of `obj.value` for an explicit metric.
  unfoldable pub explicit_number : Option Json → Option ℤ
  explicit_number (some (num n)) = some n
  explicit_number (some (str s)) = number_of s
  explicit_number (some null) = none
  explicit_number (some (bool _)) = none
  explicit_number (some (array _)) = none
  explicit_number (some (object _)) = none
  explicit_number none = none

  -- The block on `obj.metric`.
  unfoldable pub explicit_metric : Option Json → Option Json → Metrics → Metrics
  unfolding explicit_number put_if is_empty
  explicit_metric (some (str name)) value m =
      if is_empty (trim name)
      then m
      else put_if (explicit_number value) (to_lower_case (trim name)) m
  explicit_metric (some null) value m = m
  explicit_metric (some (bool _)) value m = m
  explicit_metric (some (num _)) value m = m
  explicit_metric (some (array _)) value m = m
  explicit_metric (some (object _)) value m = m
  explicit_metric none value m = m

  unfoldable pub object_metrics : Fields → Metrics
  unfolding assign extract_numeric_fields explicit_metric value_metrics member
  object_metrics obj =
      assign
        (explicit_metric (member (codes "metric") obj) (member (codes "value") obj)
          (value_metrics (member (codes "value") obj)))
        (extract_numeric_fields (codes "metric" ∷ codes "value" ∷ []) obj)

  unfoldable pub data_metrics : Json → Metrics
  unfolding object_metrics
  data_metrics (object obj) = object_metrics obj
  data_metrics null = []
  data_metrics (bool _) = []
  data_metrics (num _) = []
  data_metrics (str _) = []
  data_metrics (array _) = []

  -- A payload that is text is parsed first.
  unfoldable pub text_metrics : Text → Option Json → Metrics
  unfolding data_metrics put_if
  text_metrics payload (some parsed) = data_metrics parsed
  text_metrics payload none = put_if (number_of payload) (codes "value") []

  unfoldable pub parse_telemetry_metrics : Json → Metrics
  unfolding text_metrics data_metrics
  parse_telemetry_metrics (str payload) = text_metrics payload (json_parse payload)
  parse_telemetry_metrics null = []
  parse_telemetry_metrics (bool b) = data_metrics (bool b)
  parse_telemetry_metrics (num n) = data_metrics (num n)
  parse_telemetry_metrics (array s) = data_metrics (array s)
  parse_telemetry_metrics (object obj) = data_metrics (object obj)

-- The metric's own reading, or the bare `value`.
unfoldable pub or_value : Option ℤ → Option ℤ → Option ℤ
or_value (some n) fallback = some n
or_value none fallback = fallback

unfoldable pub resolve_metric_reading : Metrics → Text → Option ℤ
unfolding get or_value
resolve_metric_reading metrics metric =
    or_value (get (to_lower_case metric) metrics) (get (codes "value") metrics)
