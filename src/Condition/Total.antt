-- ===== src/Condition/Total.antt =====
-- `evaluate_condition` of crates/har-dag-executor/src/condition_evaluator.rs as its callers see it:
-- every condition has an answer, so that the `none` of a split that does not end is gone. What the
-- evaluation takes from other libraries is gathered in `Readers`.
use harness_agent_rs.Prelude.{◌≡◌, ◌≢◌, refl, Option, none, some, Text, Dict}
use harness_agent_rs.Schema.Json.{Json}
use harness_agent_rs.Schema.Output.{NodeOutput}
use harness_agent_rs.Condition.Number.{Floats}
use harness_agent_rs.Condition.Atom.{Captures, evaluate_atom}
use harness_agent_rs.Condition.Evaluate.{Verdict, evaluate_condition}
use harness_agent_rs.Condition.Truth.{evaluate_with_total}

-- serde_json's reader and printer, floats, and the matches of the two regular expressions.
pub record Readers : Type 1 where
  pub from_str : Text → Option Json
  pub json_text : Json → Text
  pub fence : Text → Option (Option Text)
  pub captures : Text → Option Captures
  pub floats : Floats

unfoldable pub from_some : {A : Type 0} (o : Option A) → o ≢ none → A
from_some none h = absurd (h refl)
from_some (some a) h = a

pub evaluate_condition_total :
    (r : Readers) (expr : Text) (outputs : Dict NodeOutput)
    → evaluate_condition r.from_str r.fence r.json_text r.floats r.captures expr outputs ≢ none
unfolding evaluate_condition
evaluate_condition_total r expr outputs =
    evaluate_with_total (evaluate_atom r.from_str r.fence r.json_text r.floats r.captures outputs)
      expr

unfoldable pub verdict : Readers → Text → Dict NodeOutput → Verdict
unfolding from_some evaluate_condition
verdict r expr outputs =
    from_some (evaluate_condition r.from_str r.fence r.json_text r.floats r.captures expr outputs)
      (evaluate_condition_total r expr outputs)

from_some-some : {A : Type 0} (o : Option A) (h : o ≢ none) → o ≡ some (from_some o h)
unfolding from_some
from_some-some none h = absurd (h refl)
from_some-some (some a) h = refl

-- The verdict is the answer of the evaluation.
pub verdict_lem :
    (r : Readers) (expr : Text) (outputs : Dict NodeOutput)
    → evaluate_condition r.from_str r.fence r.json_text r.floats r.captures expr outputs
      ≡ some (verdict r expr outputs)
unfolding verdict
verdict_lem r expr outputs = from_some-some _ (evaluate_condition_total r expr outputs)
