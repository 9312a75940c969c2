-- ===== src/Condition/Atom.antt =====
-- `resolve_output_ref` and `evaluate_atom` of crates/har-dag-executor/src/condition_evaluator.rs. The
-- match of the regular expression `ATOM_PATTERN`, with its six groups, is the parameter `captures`;
-- `json_text` is serde_json's printer.
use harness_agent_rs.Prelude.{
  Bool, true, false, ◌&&◌, Option, none, some, [], Text, text, text_eq, trim, Dict, get, not,
  if◌then◌else◌, Result, ok, ◌>>=◌,
}
use harness_agent_rs.Schema.Json.{Json, null, bool, number, string, array, object}
use harness_agent_rs.Schema.Output.{NodeOutput, output}
use harness_agent_rs.OutputRef.{
  OutputRefError, FieldResolution, value, empty, resolve_node_output_field,
}
use harness_agent_rs.Condition.Number.{Floats, parse_float_js}

pub record EvaluationResult : Type 0 where
  pub result : Bool
  pub parsed : Bool

abbrev pub parsed_as : Bool → EvaluationResult
parsed_as b = record { result = b; parsed = true }

abbrev pub unparsed : EvaluationResult
unparsed = record { result = false; parsed = false }

-- The groups of a match.
pub record Captures : Type 0 where
  pub node_id : Option Text
  pub segment1 : Option Text
  pub segment2 : Option Text
  pub operator : Option Text
  pub quoted_value : Option Text
  pub unquoted_value : Option Text

-- What an atom refers to and compares with.
pub record Reference : Type 0 where
  pub node_id : Text
  pub field : Option Text
  pub operator : Text
  pub expected : Text

-- `$node.output[.field]`, or the shorthand `$node.field`, which takes no second segment.
unfoldable pub shorthand : Text → Option Text → Option (Option Text)
shorthand segment1 none = some (some segment1)
shorthand segment1 (some s) = none

unfoldable pub field_of : Text → Option Text → Option (Option Text)
unfolding shorthand
field_of segment1 segment2 =
    if text_eq segment1 (text "output") then some segment2 else shorthand segment1 segment2

-- The quoted value takes precedence.
unfoldable pub expected_of : Option Text → Option Text → Option Text
expected_of (some q) u = some q
expected_of none u = u

-- The groups that the evaluation needs, or `none` for an atom that is not understood.
unfoldable pub reference_of : Captures → Option Reference
unfolding field_of expected_of
reference_of c = elim c.node_id [
  | none ↦ none
  | some n ↦ elim c.segment1 [
    | none ↦ none
    | some s ↦ elim c.operator [
      | none ↦ none
      | some o ↦ elim (field_of s c.segment2) [
        | none ↦ none
        | some f ↦ elim (expected_of c.quoted_value c.unquoted_value) [
          | none ↦ none
          | some x ↦ some (record { node_id = n; field = f; operator = o; expected = x })
        ]
      ]
    ]
  ]
]

module _ (from_str : Text → Option Json) (fence : Text → Option (Option Text))
    (json_text : Json → Text) where
  -- How a field's value is written out.
  unfoldable pub stringify : FieldResolution → Text
  stringify empty = []
  stringify (value (string s)) = s
  stringify (value (number n)) = n
  stringify (value (bool true)) = text "true"
  stringify (value (bool false)) = text "false"
  stringify (value null) = json_text null
  stringify (value (array xs)) = json_text (array xs)
  stringify (value (object fs)) = json_text (object fs)

  unfoldable pub resolve_known : Text → Option Text → NodeOutput → Result OutputRefError Text
  unfolding stringify resolve_node_output_field output
  resolve_known n none o = ok (output o)
  resolve_known n (some f) o =
      resolve_node_output_field from_str fence o n f >>= λ r. ok (stringify r)

  -- An unknown node reads as the empty text.
  unfoldable pub resolve_output_ref :
      Text → Option Text → Dict NodeOutput → Result OutputRefError Text
  unfolding resolve_known get
  resolve_output_ref n f outputs = elim (get n outputs) [
    | none ↦ ok []
    | some o ↦ resolve_known n f o
  ]

  module _ (fl : Floats) (captures : Text → Option Captures) where
    -- The four orders on numbers; another operator is not understood.
    unfoldable pub compare_numbers : Text → fl.F64 → fl.F64 → EvaluationResult
    compare_numbers op a b =
        if text_eq op (text "<")
        then parsed_as (fl.lt a b)
        else if text_eq op (text ">")
        then parsed_as (fl.lt b a)
        else if text_eq op (text "<=")
        then parsed_as (fl.le a b)
        else if text_eq op (text ">=")
        then parsed_as (fl.le b a)
        else unparsed

    -- Both sides must be finite numbers.
    unfoldable pub compare_finite : Text → fl.F64 → fl.F64 → EvaluationResult
    unfolding compare_numbers
    compare_finite op a b =
        if fl.is_finite a && fl.is_finite b then compare_numbers op a b else unparsed

    unfoldable pub compare_texts : Text → Text → Text → EvaluationResult
    unfolding compare_finite parse_float_js
    compare_texts op actual expected =
        if text_eq op (text "==")
        then parsed_as (text_eq actual expected)
        else if text_eq op (text "!=")
        then parsed_as (not (text_eq actual expected))
        else compare_finite op (parse_float_js fl actual) (parse_float_js fl expected)

    unfoldable pub evaluate_reference :
        Dict NodeOutput → Option Reference → Result OutputRefError EvaluationResult
    unfolding resolve_output_ref compare_texts
    evaluate_reference outputs none = ok unparsed
    evaluate_reference outputs (some r) = resolve_output_ref r.node_id r.field outputs >>= λ actual.
        ok (compare_texts r.operator actual r.expected)

    unfoldable pub evaluate_atom : Dict NodeOutput → Text → Result OutputRefError EvaluationResult
    unfolding evaluate_reference reference_of
    evaluate_atom outputs expr = elim (captures (trim expr)) [
      | none ↦ ok unparsed
      | some c ↦ evaluate_reference outputs (reference_of c)
    ]
