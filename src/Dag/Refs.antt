-- ===== src/Dag/Refs.antt =====
-- Output references in a prompt or a script: `shell_quote`, `shell_quote_or_file` and
-- `substitute_node_output_refs` of crates/har-dag-executor/src/dag_executor.rs. The matches of the
-- regular expression cut the text into pieces, which are an argument; `to_string` is serde_json's
-- printer and `write` says whether a file can be written. A text that goes to a file is given with it.
pub mod Shell
pub mod Quoting
use harness_agent_rs.Prelude.{
  ℕ, ◌+◌, ◌==◌, ltb, leb, Text, text, Bool, true, false, Option, none, some, List, [], ◌∷◌, ◌++◌,
  Dict, get, is_empty, if◌then◌else◌, Result, ok, err,
}
use harness_agent_rs.Schema.Json.{Json, null, bool, number, string, array, object}
use harness_agent_rs.Schema.Output.{NodeOutput, output}
use harness_agent_rs.OutputRef.{
  OutputRefError, message_for, FieldResolution, value, empty, resolve_node_output_field,
}

-- The inside of the quotes: `value.replace('\'', "'\\''")`.
unfoldable pub escape : Text → Text
escape [] = []
escape (c ∷ s) =
    let rest = escape s in if c == 0x27 then 0x27 ∷ 0x5c ∷ 0x27 ∷ 0x27 ∷ rest else c ∷ rest

unfoldable pub shell_quote : Text → Text
unfolding escape
shell_quote v = 0x27 ∷ escape v ++ 0x27 ∷ []

-- `str::len`, in bytes of UTF-8.
unfoldable pub byte_length : Text → ℕ
byte_length [] = 0
byte_length (c ∷ s) =
    (if ltb c 0x80 then 1 else if ltb c 0x800 then 2 else if ltb c 0x10000 then 3 else 4)
    + byte_length s

-- `NODE_OUTPUT_FILE_THRESHOLD`.
abbrev pub node_output_file_threshold : ℕ
node_output_file_threshold = 32768

-- A text for the script, with the file that it refers to.
pub record Quoted : Type 0 where
  pub shown : Text
  pub file : Option (Text × Text)

abbrev pub inline : Text → Quoted
inline t = record { shown = t; file = none }

unfoldable pub file_name : Text → Option Text → Text
file_name n none = n ++ text ".nodeoutput"
file_name n (some f) = n ++ text "." ++ f ++ text ".nodeoutput"

abbrev ends_with_slash : Text → Bool
ends_with_slash [] = false
ends_with_slash (c ∷ []) = c == 0x2f
ends_with_slash (c ∷ d ∷ s) = ends_with_slash (d ∷ s)

-- `Path::join` with a relative name.
unfoldable pub path_join : Text → Text → Text
unfolding is_empty
path_join dir name =
    if is_empty dir
    then name
    else if ends_with_slash dir
    then dir ++ name
    else dir ++ text "/" ++ name

abbrev pub as_text : Bool → Text
as_text true = text "true"
as_text false = text "false"

pub data Piece : Type 0 where
  plain : Text → Piece
  reference : Text → Option Text → Piece

module _ (from_str : Text → Option Json) (fence : Text → Option (Option Text))
    (to_string : Json → Text) (write : Text → Text → Bool) where
  unfoldable pub spilled : Text → Text → Quoted
  unfolding shell_quote
  spilled path v =
      if write path v
      then record { shown = text "$(cat " ++ shell_quote path ++ text ")"; file = some (path, v) }
      else inline (shell_quote v)

  unfoldable pub shell_quote_or_file : Text → Text → Option Text → Option Text → Quoted
  unfolding shell_quote byte_length file_name path_join spilled
  shell_quote_or_file v n f none = inline (shell_quote v)
  shell_quote_or_file v n f (some dir) =
      if ltb node_output_file_threshold (byte_length v)
      then spilled (path_join dir (file_name n f)) v
      else inline (shell_quote v)

  -- A value as it stands in a prompt, or quoted for a script.
  unfoldable pub placed : Bool → Text → Text → Option Text → Option Text → Quoted
  unfolding shell_quote_or_file
  placed true v n f dir = shell_quote_or_file v n f dir
  placed false v n f dir = inline v

  -- What stands for nothing.
  abbrev pub blank : Bool → Quoted
  blank true = inline (text "''")
  blank false = inline []

  unfoldable pub substitute_value : Bool → Text → Text → Option Text → Json → Quoted
  unfolding placed
  substitute_value b n f dir (string s) = placed b s n (some f) dir
  substitute_value b n f dir (number t) = inline t
  substitute_value b n f dir (bool c) = inline (as_text c)
  substitute_value b n f dir v = placed b (to_string v) n (some f) dir

  unfoldable pub substitute_field :
      Bool → Text → Text → Option Text → Result OutputRefError FieldResolution → Quoted
  unfolding substitute_value message_for
  substitute_field b n f dir (ok empty) = blank b
  substitute_field b n f dir (ok (value v)) = substitute_value b n f dir v
  substitute_field b n f dir (err e) = inline (message_for e.node_id e.field e.reason)

  unfoldable pub substitute_output : Bool → Text → Option Text → Option Text → NodeOutput → Quoted
  unfolding placed substitute_field resolve_node_output_field output
  substitute_output b n none dir o = placed b (output o) n none dir
  substitute_output b n (some f) dir o =
      substitute_field b n f dir (resolve_node_output_field from_str fence o n f)

  unfoldable pub substitute_ref : Dict NodeOutput → Bool → Text → Option Text → Option Text → Quoted
  unfolding get substitute_output
  substitute_ref outputs b n f dir = elim (get n outputs) [
    | none ↦ blank b
    | some o ↦ substitute_output b n f dir o
  ]

  unfoldable pub substitute_node_output_refs :
      Dict NodeOutput → Bool → Option Text → List Piece → Text
  unfolding substitute_ref
  substitute_node_output_refs outputs b dir [] = []
  substitute_node_output_refs outputs b dir (plain t ∷ ps) =
      t ++ substitute_node_output_refs outputs b dir ps
  substitute_node_output_refs outputs b dir (reference n f ∷ ps) =
      (substitute_ref outputs b n f dir).shown ++ substitute_node_output_refs outputs b dir ps
