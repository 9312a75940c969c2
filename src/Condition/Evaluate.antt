-- ===== src/Condition/Evaluate.antt =====
-- `evaluate_condition` of crates/har-dag-executor/src/condition_evaluator.rs, over any evaluation of
-- atoms: `||` is split first, `&&` inside. `none` would be a split that does not end.
use harness_agent_rs.Prelude.{
  true, false, Option, none, some, List, [], ◌∷◌, Text, text, trim, if◌then◌else◌, Result, ok, err,
  Dict,
}
use harness_agent_rs.Schema.Json.{Json}
use harness_agent_rs.Schema.Output.{NodeOutput}
use harness_agent_rs.OutputRef.{OutputRefError}
use harness_agent_rs.Condition.Split.{split_outside_quotes}
use harness_agent_rs.Condition.Number.{Floats}
use harness_agent_rs.Condition.Atom.{EvaluationResult, parsed_as, unparsed, Captures, evaluate_atom}

abbrev pub Verdict : Type 0
Verdict = Result OutputRefError EvaluationResult

-- Goes on with the next atom after a true one; anything else decides.
abbrev pub and_then : Verdict → Verdict → Verdict
and_then (err e) rest = err e
and_then (ok r) rest =
    if r.parsed then (if r.result then rest else ok (parsed_as false)) else ok unparsed

-- Goes on with the next clause after a false one.
abbrev pub or_else : Verdict → Option Verdict → Option Verdict
or_else (err e) rest = some (err e)
or_else (ok r) rest =
    if r.parsed then (if r.result then some (ok (parsed_as true)) else rest) else some (ok unparsed)

module _ (atom : Text → Verdict) where
  unfoldable pub evaluate_atoms : List Text → Verdict
  evaluate_atoms [] = ok (parsed_as true)
  evaluate_atoms (a ∷ as') = let rest = evaluate_atoms as' in and_then (atom a) rest

  abbrev evaluate_clause : Option (List Text) → Option Verdict → Option Verdict
  evaluate_clause none rest = none
  evaluate_clause (some atoms) rest = or_else (evaluate_atoms atoms) rest

  unfoldable pub evaluate_clauses : List Text → Option Verdict
  unfolding evaluate_atoms split_outside_quotes
  evaluate_clauses [] = some (ok (parsed_as false))
  evaluate_clauses (c ∷ cs) =
      let rest = evaluate_clauses cs in evaluate_clause (split_outside_quotes c (text "&&")) rest

  abbrev evaluate_split : Option (List Text) → Option Verdict
  evaluate_split none = none
  evaluate_split (some clauses) = evaluate_clauses clauses

  unfoldable pub evaluate_with : Text → Option Verdict
  unfolding evaluate_clauses split_outside_quotes trim
  evaluate_with expr = evaluate_split (split_outside_quotes (trim expr) (text "||"))

module _ (from_str : Text → Option Json) (fence : Text → Option (Option Text))
    (json_text : Json → Text) (fl : Floats) (captures : Text → Option Captures) where
  unfoldable pub evaluate_condition : Text → Dict NodeOutput → Option Verdict
  unfolding evaluate_with evaluate_atom
  evaluate_condition expr outputs =
      evaluate_with (evaluate_atom from_str fence json_text fl captures outputs) expr
