-- ===== src/Isolation/Searches.antt =====
-- The stages of crates/har-isolation/src/resolver.rs that look up a row in the store, and their
-- sequence.
use harness_agent_rs.Prelude.{
  refl, ℕ, Text, true, false, not, Option, none, some, List, [], ◌∷◌, ◌++◌, ok, err, if◌then◌else◌,
  is_empty,
}
use harness_agent_rs.Isolation.{
  IsolationWorkflowType, IsolationHints, IsolationEnvironmentRow, CodebaseSummary, ResolutionMethod,
  workflow_reuse, linked_issue_reuse, IsolationResolution, issue, ResolveRequest,
}
use harness_agent_rs.Isolation.Calls.{Log, Run, give, ◌>>>◌, Outside, searched}
use harness_agent_rs.Isolation.Reuse.{
  reuse_with_warnings, find_active, reuse_row, find_reusable_environment, linked_row, linked_issue,
  linked_issues_in, find_linked_issue_environment, or_next, reused, decimal,
}
use harness_agent_rs.Isolation.Resolve.{
  stage_workflow, stage_linked, workflow_type_of, workflow_id_of,
}
use harness_agent_rs.Isolation.Ensures.{Ensures, give-rule, then-rule, tried-rule}
use harness_agent_rs.Isolation.Contract.{StagePromise, All-Accounted}
use harness_agent_rs.Isolation.Stages.{
  checked_row-Ensures, later-Ensures, nothing-Ensures, reuse_with_warnings-Ensures, Reuses,
}

module _ (o : Outside) (repo : Text) where
  -- A search of the store, and what is done with the row.
  found-Ensures :
      (c : Text) (t : IsolationWorkflowType) (w : Text)
      (k : IsolationEnvironmentRow → Run (Option IsolationResolution))
      → ((row : IsolationEnvironmentRow) → Ensures (k row) (StagePromise repo))
      → Ensures
          (find_active o c t w >>> λ found. elim found [ none ↦ give (ok none) | some row ↦ k row ])
          (StagePromise repo)
  unfolding find_active StagePromise
  found-Ensures c t w k h =
      tried-rule (StagePromise repo) _ (searched c t w) _
        (λ x. All-Accounted (searched c t w (err x) ∷ []) (_, _))
        (λ b.
          elim b
            as (λ b'.
              Ensures (elim b' [ none ↦ give (ok none) | some row ↦ k row ])
                (λ r new. StagePromise repo r (new ++ searched c t w (ok b') ∷ []))) [
                  | none ↦ nothing-Ensures repo (searched c t w (ok none) ∷ []) (_, _)
                  | some row ↦
                      later-Ensures repo (k row) (searched c t w (ok (some row)) ∷ []) (h row)
                        (_, _)
                ])

  find_reusable_environment-Ensures :
      (c : CodebaseSummary) (t : IsolationWorkflowType) (w : Text) (hints : Option IsolationHints)
      → Ensures (find_reusable_environment o c repo t w hints) (StagePromise repo)
  unfolding find_reusable_environment reuse_row
  find_reusable_environment-Ensures c t w hints =
      found-Ensures c.id t w (reuse_row o repo hints) (λ row.
        checked_row-Ensures o repo row workflow_reuse
          (reuse_with_warnings o row workflow_reuse hints) row.id _
          (reuse_with_warnings-Ensures o row workflow_reuse hints))

  reused-Reuses :
      (row : IsolationEnvironmentRow) (how : ResolutionMethod)
      → Ensures (give (ok (some (reused row how none)))) (Reuses row how)
  unfolding Reuses
  reused-Reuses row how = give-rule (Reuses row how) _ ((none, refl), _)

  linked_issue-Ensures :
      (c : CodebaseSummary) (n : ℕ) → Ensures (linked_issue o c repo n) (StagePromise repo)
  unfolding linked_issue linked_row
  linked_issue-Ensures c n = found-Ensures c.id issue (decimal n) (linked_row o repo n) (λ row.
      checked_row-Ensures o repo row (linked_issue_reuse n) _ row.id _
        (reused-Reuses row (linked_issue_reuse n)))

  -- One stage after another.
  pub or_next-Ensures :
      (m k : Run (Option IsolationResolution))
      → Ensures m (StagePromise repo)
      → Ensures k (StagePromise repo)
      → Ensures (or_next m k) (StagePromise repo)
  unfolding StagePromise
  or_next-Ensures m k h g =
      then-rule (StagePromise repo) (StagePromise repo) m _ h (λ e old p. p) (λ b old p. go b old p)
    where
      go :
          (b : Option IsolationResolution) (old : Log)
          → StagePromise repo (ok b) old
          → Ensures
              (elim b [ some found ↦ give (ok (some found)) | none ↦ k ])
              (λ r new. StagePromise repo r (new ++ old))
      go none old p = later-Ensures repo k old g p
      go (some f) old p = give-rule (λ r new. StagePromise repo r (new ++ old)) (ok (some f)) p

  linked_issues_in-Ensures :
      (c : CodebaseSummary) (ns : List ℕ)
      → Ensures (linked_issues_in o c repo ns) (StagePromise repo)
  unfolding linked_issues_in StagePromise
  linked_issues_in-Ensures c [] = give-rule (StagePromise repo) (ok none) _
  linked_issues_in-Ensures c (n ∷ ns) =
      or_next-Ensures _ _ (linked_issue-Ensures c n) (linked_issues_in-Ensures c ns)

  -- Without its hint a stage gives nothing.
  pub idle-Ensures : Ensures (give (ok none)) (StagePromise repo)
  unfolding StagePromise
  idle-Ensures = give-rule (StagePromise repo) (ok none) _

  pub stage_workflow-Ensures :
      (q : ResolveRequest) (c : CodebaseSummary)
      → Ensures (stage_workflow o q c repo) (StagePromise repo)
  unfolding stage_workflow
  stage_workflow-Ensures q c =
      elim (not (is_empty (workflow_id_of q.hints)))
        as (λ b.
          Ensures
            (if b
              then find_reusable_environment o c repo (workflow_type_of q.hints)
                  (workflow_id_of q.hints) q.hints
              else give (ok none))
            (StagePromise repo)) [
              | true ↦
                  find_reusable_environment-Ensures c (workflow_type_of q.hints)
                    (workflow_id_of q.hints) q.hints
              | false ↦ idle-Ensures
            ]

  linked-Ensures :
      (c : CodebaseSummary) (h : IsolationHints)
      → Ensures (find_linked_issue_environment o c repo h) (StagePromise repo)
  unfolding find_linked_issue_environment
  linked-Ensures c h =
      elim h.linked_issues
        as (λ b.
          Ensures (elim b [ none ↦ give (ok none) | some ns ↦ linked_issues_in o c repo ns ])
            (StagePromise repo)) [ none ↦ idle-Ensures | some ns ↦ linked_issues_in-Ensures c ns ]

  pub stage_linked-Ensures :
      (q : ResolveRequest) (c : CodebaseSummary)
      → Ensures (stage_linked o q c repo) (StagePromise repo)
  unfolding stage_linked
  stage_linked-Ensures q c =
      elim q.hints
        as (λ b.
          Ensures
            (elim b [ none ↦ give (ok none) | some h ↦ find_linked_issue_environment o c repo h ])
            (StagePromise repo)) [ none ↦ idle-Ensures | some h ↦ linked-Ensures c h ]
