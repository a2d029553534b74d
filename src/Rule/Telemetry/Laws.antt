-- ===== src/Rule/Telemetry/Laws.antt =====
-- services/rule/telemetryMetrics.ts: the names that a payload's metrics get, and what a payload
-- with an explicit metric reads as.
use ginem_api.Common.{
  ◌≡◌, refl, Option, none, some, List, [], ◌∷◌, All, any, Bool-cases, inl, inr, arith,
}
use ginem_api.Common.Int.{ℤ}
use ginem_api.Common.Text.{
  Text, codes, text_eq, text_eq_refl, trim, to_lower_case, to_lower_case_idempotent, lower,
}
use ginem_api.Rule.Telemetry.{
  Json, null, bool, num, str, array, object, Fields, end, field, Metrics, get, put, assign, put_if,
  is_empty, starts_with_brace, extract_from, extract_numeric_fields, nested_metrics, value_metrics,
  explicit_number, explicit_metric, object_metrics, data_metrics, text_metrics,
  parse_telemetry_metrics, or_value, resolve_metric_reading, member,
}

-- Every name is in lower case.
abbrev pub LowerKeys : Metrics → Type 0
LowerKeys = All (λ m. to_lower_case m.0 ≡ m.0)

lower_value : to_lower_case (codes "value") ≡ codes "value"
unfolding to_lower_case lower
lower_value = refl

put-LowerKeys :
    (key : Text) (n : ℤ) (m : Metrics)
    → to_lower_case key ≡ key
    → LowerKeys m
    → LowerKeys (put key n m)
unfolding put
put-LowerKeys key n [] e h = (e, tt)
put-LowerKeys key n ((k, v) ∷ m) e (first, h) = elim (Bool-cases (text_eq k key)) [
  | inl same ↦ rw same (first, h)
  | inr differ ↦ rw differ (first, put-LowerKeys key n m e h)
]

put_if-LowerKeys :
    (n : Option ℤ) (key : Text) (m : Metrics)
    → to_lower_case key ≡ key
    → LowerKeys m
    → LowerKeys (put_if n key m)
unfolding put_if
put_if-LowerKeys none key m e h = h
put_if-LowerKeys (some n) key m e h = put-LowerKeys key n m e h

assign-LowerKeys : (m other : Metrics) → LowerKeys m → LowerKeys other → LowerKeys (assign m other)
unfolding assign
assign-LowerKeys m [] h h' = h
assign-LowerKeys m ((k, v) ∷ other) h (e, h') =
    assign-LowerKeys (put k v m) other (put-LowerKeys k v m e h) h'

get-put : (key : Text) (n : ℤ) (m : Metrics) → get key (put key n m) ≡ some n
unfolding get put
get-put key n [] = rw (text_eq_refl key) refl
get-put key n ((k, v) ∷ m) = elim (Bool-cases (text_eq k key)) [
  | inl same ↦ rw same (rw same refl)
  | inr differ ↦ rw differ (rw differ (get-put key n m))
]

module _ (number_of : Text → Option ℤ) (json_parse : Text → Option Json) where
  extract_from-LowerKeys :
      (skip_keys : List Text) (obj : Fields) (out : Metrics)
      → LowerKeys out
      → LowerKeys (extract_from number_of json_parse skip_keys obj out)
  unfolding extract_from
  extract_from-LowerKeys skip_keys end out h = h
  extract_from-LowerKeys skip_keys (field key raw rest) out h =
      extract_from-LowerKeys skip_keys rest _ (elim (Bool-cases (any (text_eq key) skip_keys)) [
        | inl skipped ↦ rw skipped h
        | inr kept ↦
            rw kept (put_if-LowerKeys _ (to_lower_case key) out (to_lower_case_idempotent key) h)
      ])

  nested-LowerKeys :
      (s : Text) (parsed : Option Json) → LowerKeys (nested_metrics number_of json_parse s parsed)
  unfolding nested_metrics extract_numeric_fields
  nested-LowerKeys s none = put_if-LowerKeys (number_of s) (codes "value") [] lower_value tt
  nested-LowerKeys s (some (object o)) =
      assign-LowerKeys [] _ tt (extract_from-LowerKeys [] o [] tt)
  nested-LowerKeys s (some null) = tt
  nested-LowerKeys s (some (bool _)) = tt
  nested-LowerKeys s (some (num _)) = tt
  nested-LowerKeys s (some (str _)) = tt
  nested-LowerKeys s (some (array _)) = tt

  value-LowerKeys : (value : Option Json) → LowerKeys (value_metrics number_of json_parse value)
  unfolding value_metrics
  value-LowerKeys (some (str s)) = elim (Bool-cases (starts_with_brace (trim s))) [
    | inl brace ↦ rw brace (nested-LowerKeys (trim s) (json_parse (trim s)))
    | inr plain ↦ rw plain (put_if-LowerKeys (number_of (trim s)) (codes "value") [] lower_value tt)
  ]
  value-LowerKeys (some (num n)) = put-LowerKeys (codes "value") n [] lower_value tt
  value-LowerKeys (some null) = tt
  value-LowerKeys (some (bool _)) = tt
  value-LowerKeys (some (array _)) = tt
  value-LowerKeys (some (object _)) = tt
  value-LowerKeys none = tt

  explicit-LowerKeys :
      (metric value : Option Json) (m : Metrics)
      → LowerKeys m
      → LowerKeys (explicit_metric number_of json_parse metric value m)
  unfolding explicit_metric
  explicit-LowerKeys (some (str s)) value m h = elim (Bool-cases (is_empty (trim s))) [
    | inl empty ↦ rw empty h
    | inr named ↦ rw named (
        put_if-LowerKeys (explicit_number number_of json_parse value) (to_lower_case (trim s)) m
          (to_lower_case_idempotent (trim s)) h)
  ]
  explicit-LowerKeys (some null) value m h = h
  explicit-LowerKeys (some (bool _)) value m h = h
  explicit-LowerKeys (some (num _)) value m h = h
  explicit-LowerKeys (some (array _)) value m h = h
  explicit-LowerKeys (some (object _)) value m h = h
  explicit-LowerKeys none value m h = h

  data-LowerKeys : (data' : Json) → LowerKeys (data_metrics number_of json_parse data')
  unfolding data_metrics object_metrics extract_numeric_fields
  data-LowerKeys (object obj) =
      assign-LowerKeys _ _
        (explicit-LowerKeys (member (codes "metric") obj) (member (codes "value") obj) _
          (value-LowerKeys (member (codes "value") obj)))
        (extract_from-LowerKeys (codes "metric" ∷ codes "value" ∷ []) obj [] tt)
  data-LowerKeys null = tt
  data-LowerKeys (bool _) = tt
  data-LowerKeys (num _) = tt
  data-LowerKeys (str _) = tt
  data-LowerKeys (array _) = tt

  text-LowerKeys :
      (payload : Text) (parsed : Option Json)
      → LowerKeys (text_metrics number_of json_parse payload parsed)
  unfolding text_metrics
  text-LowerKeys payload (some parsed) = data-LowerKeys parsed
  text-LowerKeys payload none =
      put_if-LowerKeys (number_of payload) (codes "value") [] lower_value tt

  -- Every metric that is read from a payload has a name in lower case, so the name that a rule
  -- gives, which is put in lower case as well, can meet it.
  pub parse_telemetry_metrics-LowerKeys :
      (payload : Json) → LowerKeys (parse_telemetry_metrics number_of json_parse payload)
  unfolding parse_telemetry_metrics
  parse_telemetry_metrics-LowerKeys (str payload) = text-LowerKeys payload (json_parse payload)
  parse_telemetry_metrics-LowerKeys null = tt
  parse_telemetry_metrics-LowerKeys (bool b) = tt
  parse_telemetry_metrics-LowerKeys (num n) = tt
  parse_telemetry_metrics-LowerKeys (array s) = tt
  parse_telemetry_metrics-LowerKeys (object obj) = data-LowerKeys (object obj)

  -- The payload `{ metric: name, value: n }` reads as `n` for the metric it names, and for every
  -- other metric too: the reading falls back to the bare value, which the payload sets as well.
  pub explicit_payload_reads :
      (name metric : Text) (n : ℤ)
      → resolve_metric_reading
          (parse_telemetry_metrics number_of json_parse
            (object (field (codes "metric") (str name) (field (codes "value") (num n) end))))
          metric
        ≡ some n
  unfolding parse_telemetry_metrics data_metrics object_metrics member value_metrics explicit_metric
      put put_if explicit_number extract_numeric_fields extract_from assign resolve_metric_reading
      get or_value text_eq
  explicit_payload_reads name metric n = elim (Bool-cases (is_empty (trim name))) [
    | inl empty ↦ ground arith
    | inr named ↦ elim (Bool-cases (text_eq (codes "value") (to_lower_case (trim name)))) [
      | inl same ↦ ground arith
      | inr differ ↦ ground arith
    ]
  ]
