-- ===== src/OutputRef.antt =====
-- `resolve_node_output_field` of crates/har-dag-executor/src/output_ref.rs: reading one field of an
-- upstream node's output. serde_json's reader and the regular expression that finds a code fence are
-- the parameters `from_str` and `fence`. The child module says when a read fails and what it gives.
pub mod Contract
use harness_agent_rs.Prelude.{
  Text, text, text_eq, Bool, true, false, not, Option, none, some, List, [], ◌∷◌, ◌++◌, any,
  is_empty, if◌then◌else◌, Result, ok, err,
}
use harness_agent_rs.Schema.Json.{Json, Fields, null, as_object, get_field, contains_key, object}
use harness_agent_rs.Schema.Output.{
  NodeOutput, Payload, completed, running, failed, pending, skipped,
}

pub data OutputRefErrorReason : Type 0 where
  not_in_schema unparseable missing_key producer_not_run : OutputRefErrorReason

pub record OutputRefError : Type 0 where
  pub node_id : Text
  pub field : Text
  pub reason : OutputRefErrorReason

-- `message_for`.
unfoldable pub message_for : Text → Text → OutputRefErrorReason → Text
message_for n f not_in_schema =
    text "'$"
    ++ n
    ++ text ".output."
    ++ f
    ++ text "' references field '"
    ++ f
    ++ text "', which is not declared in node '"
    ++ n
    ++ text "'s output_format schema. Add '"
    ++ f
    ++ text "' to the schema (and mark it optional if it can be absent), or fix the reference."
message_for n f unparseable =
    text "'$"
    ++ n
    ++ text ".output."
    ++ f
    ++ text "' references field '"
    ++ f
    ++ text "', but node '"
    ++ n
    ++ text "'s output is not a JSON object, so the field cannot be read. Emit JSON containing '"
    ++ f
    ++ text "', or reference '$"
    ++ n
    ++ text ".output' (whole text) instead."
message_for n f missing_key =
    text "'$"
    ++ n
    ++ text ".output."
    ++ f
    ++ text "' references field '"
    ++ f
    ++ text "', but node '"
    ++ n
    ++ text "'s JSON output has no such key. Emit '"
    ++ f
    ++ text "' in the output, or fix the reference."
message_for n f producer_not_run =
    text "'$"
    ++ n
    ++ text ".output."
    ++ f
    ++ text "' references field '"
    ++ f
    ++ text "', but node '"
    ++ n
    ++ text
        "' did not run (skipped or pending), so it has no output to read. Guard this reference with "
    ++ text "a 'when:' condition, or fix the dependency."

pub data FieldResolution : Type 0 where
  value : Json → FieldResolution
  empty : FieldResolution

-- `Option::and_then(as_plain_object)`.
unfoldable pub object_of : Option Json → Option Fields
unfolding as_object
object_of none = none
object_of (some v) = as_object v

-- A declared field that is absent or null is an intended blank.
unfoldable pub declared_value : Option Json → FieldResolution
declared_value none = empty
declared_value (some null) = empty
declared_value (some v) = value v

-- Without a schema an absent field is blank and a null is kept.
unfoldable pub lenient_value : Option Json → FieldResolution
lenient_value none = empty
lenient_value (some v) = value v

-- `decl.contains(field)`.
unfoldable pub is_declared : Text → List Text → Bool
is_declared f decl = any (λ d. text_eq d f) decl

module _ (from_str : Text → Option Json) (fence : Text → Option (Option Text)) where
  -- The text in the fence, if there is one; its capture group may be unset.
  unfoldable pub candidate : Text → Option (Option Text) → Text
  candidate t none = t
  candidate t (some none) = []
  candidate t (some (some inner)) = inner

  unfoldable pub parse_output_object : Text → Option Fields
  unfolding candidate is_empty object_of
  parse_output_object t = if is_empty t then none else object_of (from_str (candidate t (fence t)))

  -- 1. The producer declares its fields.
  unfoldable pub from_declared : Option Fields → Text → Text → FieldResolution
  unfolding declared_value parse_output_object get_field
  from_declared (some obj) t f = declared_value (get_field f obj)
  from_declared none t f = elim (parse_output_object t) [
    | none ↦ empty
    | some obj ↦ declared_value (get_field f obj)
  ]

  -- 3. Neither a schema nor a structured payload: the text must be an object with the key.
  unfoldable pub from_text : Text → Text → Option Fields → Result OutputRefError FieldResolution
  unfolding get_field
  from_text n f none = err (record { node_id = n; field = f; reason = unparseable })
  from_text n f (some obj) = elim (get_field f obj) [
    | none ↦ err (record { node_id = n; field = f; reason = missing_key })
    | some v ↦ ok (value v)
  ]

  -- The three kinds of producer, for a node that ran.
  unfoldable pub resolve_payload :
      Option (List Text)
      → Option Fields
      → Text
      → Text
      → Text
      → Result OutputRefError FieldResolution
  unfolding from_declared lenient_value from_text parse_output_object get_field is_declared
  resolve_payload (some decl) structured t n f =
      if is_declared f decl
      then ok (from_declared structured t f)
      else err (record { node_id = n; field = f; reason = not_in_schema })
  resolve_payload none (some obj) t n f = ok (lenient_value (get_field f obj))
  resolve_payload none none t n f = from_text n f (parse_output_object t)

  unfoldable pub resolve_node_output_field :
      NodeOutput → Text → Text → Result OutputRefError FieldResolution
  unfolding resolve_payload object_of
  resolve_node_output_field (pending t) n f =
      err (record { node_id = n; field = f; reason = producer_not_run })
  resolve_node_output_field (skipped t) n f =
      err (record { node_id = n; field = f; reason = producer_not_run })
  resolve_node_output_field (completed p) n f =
      resolve_payload p.declared_fields (object_of p.structured_output) p.output n f
  resolve_node_output_field (running p) n f =
      resolve_payload p.declared_fields (object_of p.structured_output) p.output n f
  resolve_node_output_field (failed e p) n f =
      resolve_payload p.declared_fields (object_of p.structured_output) p.output n f
