-- ===== src/Condition/Truth.antt =====
-- What a condition evaluates to, crates/har-dag-executor/src/condition_evaluator.rs: an `or` of
-- `and`s, read from the left and no further than needed, that is false where it is not understood.
use harness_agent_rs.Prelude.{
  ◌≡◌, ◌≢◌, refl, ◌∙◌, inl, inr, Bool, false, none, some, List, [], ◌∷◌, ◌++◌, arith, Text, text,
  trim, any, all, All, Bool-cases, Option-cases, Result-cases, ok, err,
}
use harness_agent_rs.OutputRef.{OutputRefError}
use harness_agent_rs.Condition.Split.{split_outside_quotes}
use harness_agent_rs.Condition.Pieces.{split_outside_quotes_total}
use harness_agent_rs.Condition.Atom.{EvaluationResult, parsed_as}
use harness_agent_rs.Condition.Evaluate.{Verdict, evaluate_atoms, evaluate_clauses, evaluate_with}

module _ (atom : Text → Verdict) where
  -- The atoms of the clauses, all understood, with the truth `b` of each.
  abbrev pub IsUnderstood : (Text → Bool) → List Text → Type 0
  IsUnderstood b as' = All (λ a. atom a ≡ ok (parsed_as (b a))) as'

  -- A clause is the conjunction of its atoms.
  pub evaluate_atoms-all :
      (b : Text → Bool) (as' : List Text)
      → IsUnderstood b as'
      → evaluate_atoms atom as' ≡ ok (parsed_as (all b as'))
  unfolding evaluate_atoms
  evaluate_atoms-all b [] h = refl
  evaluate_atoms-all b (a ∷ as') h = rw h.0 (ground (arith, evaluate_atoms-all b as' h.1))

  -- The clauses with their atoms.
  abbrev pub SplitInto : List Text → List (List Text) → Type 0
  SplitInto [] [] = Unit
  SplitInto [] (l ∷ ls) = ⊥
  SplitInto (c ∷ cs) [] = ⊥
  SplitInto (c ∷ cs) (l ∷ ls) = (split_outside_quotes c (text "&&") ≡ some l) × SplitInto cs ls

  evaluate_clauses-any :
      (b : Text → Bool) (cs : List Text) (ls : List (List Text))
      → SplitInto cs ls
      → All (IsUnderstood b) ls
      → evaluate_clauses atom cs ≡ some (ok (parsed_as (any (all b) ls)))
  unfolding evaluate_clauses
  evaluate_clauses-any b [] [] s h = refl
  evaluate_clauses-any b [] (l ∷ ls) s h = absurd s
  evaluate_clauses-any b (c ∷ cs) [] s h = absurd s
  evaluate_clauses-any b (c ∷ cs) (l ∷ ls) s h =
      rw (s.0, evaluate_atoms-all b l h.0) (ground (arith, evaluate_clauses-any b cs ls s.1 h.1))

  -- If every atom is understood, a condition is the disjunction of its clauses, each the conjunction
  -- of its atoms.
  pub evaluate_with_lem :
      (b : Text → Bool) (expr : Text) (cs : List Text) (ls : List (List Text))
      → split_outside_quotes (trim expr) (text "||") ≡ some cs
      → SplitInto cs ls
      → All (IsUnderstood b) ls
      → evaluate_with atom expr ≡ some (ok (parsed_as (any (all b) ls)))
  unfolding evaluate_with
  evaluate_with_lem b expr cs ls e s h = rw e (evaluate_clauses-any b cs ls s h)

  -- After a false atom the rest of the clause does not matter, whatever it would come to.
  pub evaluate_atoms-stops :
      (b : Text → Bool) (as' : List Text) (a : Text) (rest : List Text)
      → IsUnderstood b as'
      → atom a ≡ ok (parsed_as false)
      → evaluate_atoms atom (as' ++ a ∷ rest) ≡ ok (parsed_as false)
  unfolding evaluate_atoms
  evaluate_atoms-stops b [] a rest h f = rw f refl
  evaluate_atoms-stops b (x ∷ as') a rest h f =
      rw h.0 (ground (arith, evaluate_atoms-stops b as' a rest h.1 f))

  -- The error of a clause is that of one of its atoms.
  atoms-err :
      (as' : List Text) (e : OutputRefError)
      → evaluate_atoms atom as' ≡ err e
      → (a : Text) × (atom a ≡ err e)
  unfolding evaluate_atoms
  atoms-err [] e h = cc
  atoms-err (a ∷ as') e h = elim (Result-cases (atom a)) [
    | inr (f, g) ↦ (a, g ∙ rw g at h)
    | inl (r, g) ↦ elim (Bool-cases r.parsed) [
      | inr p ↦ absurd (ground arith)
      | inl p ↦ elim (Bool-cases r.result) [
        | inr q ↦ absurd (ground arith)
        | inl q ↦ atoms-err as' e (ground arith)
      ]
    ]
  ]

  -- A clause that is understood in part only is reported as false.
  atoms-closed :
      (as' : List Text) (r : EvaluationResult)
      → evaluate_atoms atom as' ≡ ok r
      → r.parsed ≡ false
      → r.result ≡ false
  unfolding evaluate_atoms
  atoms-closed [] r h p = ground arith
  atoms-closed (a ∷ as') r h p = ground (arith, atoms-closed as' r)

  clauses-closed :
      (cs : List Text) (r : EvaluationResult)
      → evaluate_clauses atom cs ≡ some (ok r)
      → r.parsed ≡ false
      → r.result ≡ false
  unfolding evaluate_clauses
  clauses-closed [] r h p = ground arith
  clauses-closed (c ∷ cs) r h p = ground (arith, clauses-closed cs r)

  -- A condition that is not understood comes out false.
  pub evaluate_with-closed :
      (expr : Text) (r : EvaluationResult)
      → evaluate_with atom expr ≡ some (ok r)
      → r.parsed ≡ false
      → r.result ≡ false
  unfolding evaluate_with
  evaluate_with-closed expr r h p =
      elim (Option-cases (split_outside_quotes (trim expr) (text "||"))) [
        | inl e ↦ absurd (ground arith)
        | inr (cs, e) ↦ clauses-closed cs r (rw e at h) p
      ]

  clauses-total : (cs : List Text) → evaluate_clauses atom cs ≢ none
  unfolding evaluate_clauses
  clauses-total [] = λ e. cc
  clauses-total (c ∷ cs) =
      ground (arith, split_outside_quotes_total c (text "&&") (λ e. cc), clauses-total cs)

  -- Every condition has an answer: no split of it runs on for ever.
  pub evaluate_with_total : (expr : Text) → evaluate_with atom expr ≢ none
  unfolding evaluate_with
  evaluate_with_total expr = elim (Option-cases (split_outside_quotes (trim expr) (text "||"))) [
    | inl e ↦ absurd (split_outside_quotes_total (trim expr) (text "||") (λ f. cc) e)
    | inr (cs, e) ↦ rw e (clauses-total cs)
  ]

  clauses-err :
      (cs : List Text) (e : OutputRefError)
      → evaluate_clauses atom cs ≡ some (err e)
      → (a : Text) × (atom a ≡ err e)
  unfolding evaluate_clauses
  clauses-err [] e h = cc
  clauses-err (c ∷ cs) e h = elim (Option-cases (split_outside_quotes c (text "&&"))) [
    | inl n ↦ absurd (ground arith)
    | inr (as', s) ↦ elim (Result-cases (evaluate_atoms atom as')) [
      | inr (f, g) ↦ atoms-err as' e (ground arith)
      | inl (r, g) ↦ elim (Bool-cases r.parsed) [
        | inr p ↦ absurd (ground arith)
        | inl p ↦ elim (Bool-cases r.result) [
          | inl q ↦ absurd (ground arith)
          | inr q ↦ clauses-err cs e (ground arith)
        ]
      ]
    ]
  ]

  -- A condition fails only with the error of one of its atoms.
  pub evaluate_with-err :
      (expr : Text) (e : OutputRefError)
      → evaluate_with atom expr ≡ some (err e)
      → (a : Text) × (atom a ≡ err e)
  unfolding evaluate_with
  evaluate_with-err expr e h = elim (Option-cases (split_outside_quotes (trim expr) (text "||"))) [
    | inl n ↦ absurd (ground arith)
    | inr (cs, s) ↦ clauses-err cs e (rw s at h)
  ]
