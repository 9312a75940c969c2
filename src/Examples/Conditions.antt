-- ===== src/Examples/Conditions.antt =====
-- Conditions, output references and messages on concrete values, crates/har-dag-executor/src.
use harness_agent_rs.Prelude.{
  ◌≡◌, ◌≢◌, refl, ◌↔◌, ◌⊎◌, Bool, true, none, some, List, [], ◌∷◌, Text, text, text_eq, trim, any,
  all, ok, err,
}
use harness_agent_rs.Schema.Output.{NodeOutput, plain, completed}
use harness_agent_rs.OutputRef.{OutputRefError, missing_key, unparseable, resolve_node_output_field}
use harness_agent_rs.OutputRef.Contract.{payload, Blames, resolve_errs_iff}
use harness_agent_rs.Condition.Split.{split_outside_quotes}
use harness_agent_rs.Condition.Atom.{parsed_as, unparsed}
use harness_agent_rs.Condition.Evaluate.{Verdict, evaluate_with}
use harness_agent_rs.Condition.Truth.{evaluate_with_lem}
use harness_agent_rs.Condition.Pieces.{
  MakeUp, split_outside_quotes_total, join-split_outside_quotes,
}
use harness_agent_rs.Messages.{Answer, undelivered, refused}
use harness_agent_rs.Messages.Streaks.{SomeFatal, ThreeUnknown, refused_iff}
use harness_agent_rs.Examples.Samples.{toy_from_str, toy_fence}

abbrev json_output : NodeOutput
json_output = completed (plain (text "{k:x}"))

abbrev declared_output : NodeOutput
declared_output = completed (record {
  output = text "prose";
  session_id = none;
  structured_output = none;
  declared_fields = some (text "k" ∷ []);
})

resolve_errs_iff_example :
    (resolve_node_output_field toy_from_str toy_fence json_output (text "a") (text "z")
      ≡ err (record { node_id = text "a"; field = text "z"; reason = missing_key }))
    ↔ Blames toy_from_str toy_fence missing_key (payload json_output) (text "z")
resolve_errs_iff_example =
    resolve_errs_iff toy_from_str toy_fence missing_key json_output (text "a") (text "z")

abbrev is_t : Text → Bool
is_t a = text_eq a (text "t")

abbrev toy_atom : Text → Verdict
toy_atom a = ok (parsed_as (is_t a))

abbrev clauses : List (List Text)
clauses = (text "t" ∷ text "f" ∷ []) ∷ (text "t" ∷ []) ∷ []

evaluate_with_lem_example :
    evaluate_with toy_atom (text "t && f || t") ≡ some (ok (parsed_as (any (all is_t) clauses)))
unfolding split_outside_quotes text_eq trim
evaluate_with_lem_example =
    evaluate_with_lem toy_atom is_t (text "t && f || t") (text "t && f" ∷ text "t" ∷ []) clauses
      refl (refl, (refl, tt)) ((refl, (refl, tt)), ((refl, tt), tt))

abbrev ref_error : OutputRefError
ref_error = record { node_id = text "a"; field = text "k"; reason = unparseable }

abbrev failing_atom : Text → Verdict
failing_atom a = err ref_error

abbrev odd_atom : Text → Verdict
odd_atom a = ok unparsed

split_outside_quotes_total_example :
    split_outside_quotes (text "$a.output == 'x || y' || $b.output == 'z'") (text "||") ≢ none
split_outside_quotes_total_example =
    split_outside_quotes_total (text "$a.output == 'x || y' || $b.output == 'z'") (text "||")
      (λ h. cc)

join-split_outside_quotes_example :
    MakeUp (text "||") (text "'a||b' || c") (text "'a||b'" ∷ text "c" ∷ [])
unfolding split_outside_quotes text_eq trim
join-split_outside_quotes_example =
    join-split_outside_quotes (text "'a||b' || c") (text "||") (text "'a||b'" ∷ text "c" ∷ []) refl

abbrev lower : Text → Text
lower t = t

abbrev answers : List Answer
answers = undelivered (text "odd") ∷ undelivered (text "odd") ∷ undelivered (text "odd") ∷ []

refused_test : refused lower answers (some (record { count = 0 })) ≡ true
unfolding refused
refused_test = refl

refused_iff_example :
    (refused lower answers (some (record { count = 0 })) ≡ true)
    ↔ (SomeFatal lower answers ⊎ ThreeUnknown lower answers)
refused_iff_example = refused_iff lower answers
