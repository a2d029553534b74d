-- ===== src/Evaluation/Tools/Names.antt =====
-- evaluation/metrics/toolComparator.ts and errorClassifier.ts: what `toolCorrect` means, and when a
-- record carries no error.
use ginem_api.Common.{
  ℕ, ◌+◌, ◌≡◌, refl, sym, ◌∙◌, ◌⊎◌, inl, inr, ◌↔◌, Bool, true, false, ◌&&◌, not, Option, none, some,
  List, [], ◌∷◌, ◌++◌, map, arith, if◌then◌else◌, Bool-cases, Option-cases,
}
use ginem_api.Common.Text.{Text, text_eq, text_eq_iff, text_eq_refl}
use ginem_api.Evaluation.Tools.{
  ToolCall, ToolPairing, ExpectedBehavior, tool_call, clarification, reject_or_no_tool, tool_names,
  is_empty, put_back, take_call, Pairing, add_pair, add_missing, pair_calls, compare_tools,
  classify_errors, tag_if, is_false, wrong_tool, invalid_or_missing_parameter, invalid_structure,
  unnecessary_tool_call,
}

unfoldable pub count : Text → List Text → ℕ
count name [] = 0
count name (t ∷ names) = (if text_eq t name then 1 else 0) + count name names

-- The same names, each as often.
abbrev pub SameNames : List Text → List Text → Type 0
SameNames xs ys = (name : Text) → count name xs ≡ count name ys

abbrev pair_names : List ToolPairing → List Text
pair_names pairs = map (λ (p : ToolPairing). p.tool) pairs

-- What taking a call out says of the names.
abbrev Taken : Text → List ToolCall → Option (ToolCall × List ToolCall) → Type 0
Taken tool calls none = count tool (tool_names calls) ≡ 0
Taken tool calls (some (c, rest)) =
    (name : Text) → count name (tool_names calls) ≡ count name (tool ∷ tool_names rest)

Taken-put_back :
    (tool : Text) (c : ToolCall) (calls : List ToolCall) (o : Option (ToolCall × List ToolCall))
    → text_eq c.tool tool ≡ false
    → Taken tool calls o
    → Taken tool (c ∷ calls) (put_back c o)
unfolding count
Taken-put_back tool c calls none other h = rw other (omega arith)
Taken-put_back tool c calls (some (found, rest)) other h = λ name. omega (arith, h name)

take_call-Taken : (tool : Text) (calls : List ToolCall) → Taken tool calls (take_call tool calls)
unfolding take_call
take_call-Taken tool [] = unfold count in refl
take_call-Taken tool (c ∷ calls) = elim (Bool-cases (text_eq c.tool tool)) [
  | inl mine ↦ rw mine (λ name. rw ((text_eq_iff c.tool tool).0 mine) refl)
  | inr other ↦ rw other (Taken-put_back tool c calls _ other (take_call-Taken tool calls))
]

-- The expected names are the missing ones and those paired, the actual names those paired and what
-- remains, and no name is both missing and left over.
record Accounts (expected actual : List ToolCall) (p : Pairing) : Type 0 where
  expected_split :
      (name : Text)
      → count name (tool_names expected) ≡ count name p.missing + count name (pair_names p.pairs)
  actual_split :
      (name : Text)
      → count name (tool_names actual)
        ≡ count name (pair_names p.pairs) + count name (tool_names p.remaining)
  apart : (name : Text) → (count name p.missing ≡ 0) ⊎ (count name (tool_names p.remaining) ≡ 0)

module _ (e : ToolCall) (expected actual : List ToolCall) (p : Pairing) where
  add_missing-apart :
      Accounts expected actual p
      → count e.tool (tool_names actual) ≡ 0
      → (name : Text)
      → (count name (e.tool ∷ p.missing) ≡ 0) ⊎ (count name (tool_names p.remaining) ≡ 0)
  unfolding count
  add_missing-apart h gone name = elim (Bool-cases (text_eq e.tool name)) [
    | inl same ↦
        let e' : e.tool ≡ name = (text_eq_iff e.tool name).0 same in
        let none' : count name (tool_names actual) ≡ 0 = rw (← e') gone in
        inr (omega (arith, none', h.actual_split name))
    | inr other ↦ elim (h.apart name) [
      | inl here ↦ inl (rw other (omega arith))
      | inr there ↦ inr there
    ]
  ]

  add_missing-Accounts :
      count e.tool (tool_names actual) ≡ 0
      → Accounts expected actual p
      → Accounts (e ∷ expected) actual (add_missing e p)
  unfolding count
  add_missing-Accounts gone h = record {
    expected_split = λ name. omega (arith, h.expected_split name);
    actual_split = h.actual_split;
    apart = add_missing-apart h gone;
  }

  add_pair-Accounts :
      (found : ToolCall) (all : List ToolCall)
      → ((name : Text) → count name (tool_names all) ≡ count name (e.tool ∷ tool_names actual))
      → Accounts expected actual p
      → Accounts (e ∷ expected) all (add_pair e found p)
  unfolding count
  add_pair-Accounts found all taken h = record {
    expected_split = λ name. omega (arith, h.expected_split name);
    actual_split = λ name. omega (arith, taken name, h.actual_split name);
    apart = h.apart;
  }

pair_calls-Accounts :
    (expected actual : List ToolCall) → Accounts expected actual (pair_calls expected actual)
unfolding pair_calls
pair_calls-Accounts [] actual = (record {
  expected_split = λ name. unfold count in refl;
  actual_split = λ name. unfold count in omega arith;
  apart = λ name. unfold count in inl refl;
})
pair_calls-Accounts (e ∷ expected) actual =
    let taken = take_call-Taken e.tool actual in
    elim (Option-cases (take_call e.tool actual)) [
      | inl gone ↦
          rw (pair_calls, gone)
            (add_missing-Accounts e expected actual _ (rw gone at taken)
              (pair_calls-Accounts expected actual))
      | inr ((found, rest), took) ↦
          rw (pair_calls, took)
            (add_pair-Accounts e expected rest _ found actual (rw took at taken)
              (pair_calls-Accounts expected rest))
    ]

is_empty-of_counts :
    (names : List Text) → ((name : Text) → count name names ≡ 0) → is_empty names ≡ true
unfolding count
is_empty-of_counts [] h = refl
is_empty-of_counts (t ∷ names) h =
    let one : (if text_eq t t then 1 else 0) + count t names ≡ 0 = h t in
    absurd (ground (arith, text_eq_refl t))

count-is_empty : (name : Text) (names : List Text) → is_empty names ≡ true → count name names ≡ 0
unfolding count
count-is_empty name [] h = refl
count-is_empty name (t ∷ names) h = cc

is_empty-map : (calls : List ToolCall) → is_empty (tool_names calls) ≡ is_empty calls
is_empty-map [] = refl
is_empty-map (c ∷ calls) = refl

and_parts : (a b : Bool) → a && b ≡ true → (a ≡ true) × (b ≡ true)
and_parts a b h = ground arith

module _ {expected actual : List ToolCall} {p : Pairing} (h : Accounts expected actual p) where
  SameNames-of_empty :
      is_empty p.missing && is_empty p.remaining ≡ true
      → SameNames (tool_names expected) (tool_names actual)
  SameNames-of_empty e name =
      let (none_missing, none_left) = and_parts (is_empty p.missing) (is_empty p.remaining) e in
      omega (
        arith,
        h.expected_split name,
        h.actual_split name,
        count-is_empty name p.missing none_missing,
        count-is_empty name (tool_names p.remaining) (is_empty-map p.remaining ∙ none_left),
      )

  both_zero :
      SameNames (tool_names expected) (tool_names actual)
      → (name : Text) → (count name p.missing ≡ 0) × (count name (tool_names p.remaining) ≡ 0)
  both_zero same name =
      let equal : count name p.missing ≡ count name (tool_names p.remaining) =
        omega (arith, same name, h.expected_split name, h.actual_split name) in
      elim (h.apart name) [
        | inl none_missing ↦ (none_missing, sym equal ∙ none_missing)
        | inr none_left ↦ (equal ∙ none_left, none_left)
      ]

  empty-of_SameNames :
      SameNames (tool_names expected) (tool_names actual)
      → is_empty p.missing && is_empty p.remaining ≡ true
  empty-of_SameNames same =
      let a = is_empty-of_counts p.missing (λ name. (both_zero same name).0) in
      let b = is_empty-of_counts (tool_names p.remaining) (λ name. (both_zero same name).1) in
      rw (a, sym (is_empty-map p.remaining) ∙ b) refl

-- Where tool calls are expected, `toolCorrect` holds exactly when the calls that were made have the
-- expected names, each as often, in whatever order.
pub tool_correct_iff :
    (expected actual : List ToolCall)
    → ((compare_tools tool_call expected actual).tool_correct ≡ true)
      ↔ SameNames (tool_names expected) (tool_names actual)
unfolding compare_tools
tool_correct_iff expected actual =
    let h = pair_calls-Accounts expected actual in (SameNames-of_empty h, empty-of_SameNames h)

-- Whether the checks of a call's parameters and structure found no fault, where calls are expected.
unfoldable pub faultless : ExpectedBehavior → Option Bool → Option Bool → Bool
faultless tool_call parameter_correct structure_valid =
    not (is_false parameter_correct) && not (is_false structure_valid)
faultless clarification parameter_correct structure_valid = true
faultless reject_or_no_tool parameter_correct structure_valid = true

tags-is_empty :
    (m x : Bool) (p v : Option Bool)
    → is_empty (
        if m && x
        then tag_if (is_false p) invalid_or_missing_parameter
          ++ tag_if (is_false v) invalid_structure
        else tag_if (if m then false else true) wrong_tool
          ++ tag_if (if x then false else true) unnecessary_tool_call)
      ≡ (m && x && (not (is_false p) && not (is_false v)))
tags-is_empty m x p v = ground arith

-- A record carries no error exactly when its tools are correct and no fault was found in the
-- parameters or the structure of the calls, where calls are expected.
pub classify_errors-is_empty :
    (behavior : ExpectedBehavior) (expected actual : List ToolCall)
    (parameter_correct structure_valid : Option Bool)
    → is_empty (
        classify_errors behavior
          (compare_tools behavior expected actual)
          parameter_correct
          structure_valid)
      ≡ ((compare_tools behavior expected actual).tool_correct
          && faultless behavior parameter_correct structure_valid)
unfolding compare_tools classify_errors faultless
classify_errors-is_empty tool_call expected actual p v =
    let q = pair_calls expected actual in
    rw (← is_empty-map q.remaining)
      (tags-is_empty (is_empty q.missing) (is_empty (tool_names q.remaining)) p v)
classify_errors-is_empty clarification expected [] p v = refl
classify_errors-is_empty clarification expected (c ∷ actual) p v = refl
classify_errors-is_empty reject_or_no_tool expected [] p v = refl
classify_errors-is_empty reject_or_no_tool expected (c ∷ actual) p v = refl
