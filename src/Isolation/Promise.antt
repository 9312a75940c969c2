-- ===== src/Isolation/Promise.antt =====
-- Stages 3 to 6 of crates/har-isolation/src/resolver.rs keep their promises in sequence.
use harness_agent_rs.Prelude.{Text, Option, none, some, ◌++◌, All, All-append, Result, ok, err}
use harness_agent_rs.Isolation.{
  IsolationError, CodebaseSummary, ResolveRequest, IsolationResolution, resolved, stale_cleaned,
  no_isolation, blocked,
}
use harness_agent_rs.Isolation.Calls.{Log, Run, give, Outside}
use harness_agent_rs.Isolation.Create.{try_branch_adoption}
use harness_agent_rs.Isolation.Reuse.{or_next}
use harness_agent_rs.Isolation.Fresh.{create_new_environment}
use harness_agent_rs.Isolation.Resolve.{
  stage_workflow, stage_linked, stage_adoption, stages, workflow_type_of, workflow_id_of,
}
use harness_agent_rs.Isolation.Ensures.{Ensures, give-rule, weaken, then-rule}
use harness_agent_rs.Isolation.Contract.{
  Quiet, WritesNoRow, StagePromise, All-WritesNoRow, Accounted-append, BackedBy-append,
}
use harness_agent_rs.Isolation.Searches.{
  or_next-Ensures, stage_workflow-Ensures, stage_linked-Ensures, idle-Ensures,
}
use harness_agent_rs.Isolation.Writes.{try_branch_adoption-Ensures}
use harness_agent_rs.Isolation.Provision.{FreshPromise, create_new_environment-Ensures}

module _ (o : Outside) (q : ResolveRequest) (c : CodebaseSummary) (repo : Text) where
  stage_adoption-Ensures : Ensures (stage_adoption o q c repo) (StagePromise repo)
  unfolding stage_adoption
  stage_adoption-Ensures =
      elim q.hints
        as (λ b.
          Ensures
            (elim b [
              | none ↦ give (ok none)
              | some h ↦
                  try_branch_adoption o c repo h (workflow_type_of q.hints) (workflow_id_of q.hints)
                    q.git_identity
            ])
            (StagePromise repo)) [
              | none ↦ idle-Ensures o repo
              | some h ↦
                  try_branch_adoption-Ensures o repo c (workflow_type_of q.hints)
                    (workflow_id_of q.hints) q.git_identity h
            ]

  pub FreshPromise-append :
      (r : Result IsolationError IsolationResolution) (new old : Log)
      → FreshPromise repo r new
      → All Quiet old
      → FreshPromise repo r (new ++ old)
  unfolding FreshPromise
  FreshPromise-append (err e) new old h a = Accounted-append new old h a
  FreshPromise-append (ok (resolved p)) new old h a =
      (Accounted-append new old h.0 a, BackedBy-append p.method repo p new old h.1)
  FreshPromise-append (ok (blocked v m)) new old h a =
      (Accounted-append new old h.0 a, All-append WritesNoRow new old h.1 (All-WritesNoRow old a))
  FreshPromise-append (ok (stale_cleaned d)) new old h a = h
  FreshPromise-append (ok (no_isolation d)) new old h a = h

  -- The three searches, then the creation.
  pub stages-Ensures : Ensures (stages o q c repo) (FreshPromise repo)
  unfolding stages StagePromise FreshPromise
  stages-Ensures =
      then-rule (FreshPromise repo) (StagePromise repo)
        (or_next (stage_workflow o q c repo)
          (or_next (stage_linked o q c repo) (stage_adoption o q c repo)))
        _
        (or_next-Ensures o repo (stage_workflow o q c repo)
          (or_next (stage_linked o q c repo) (stage_adoption o q c repo))
          (stage_workflow-Ensures o repo q c)
          (or_next-Ensures o repo (stage_linked o q c repo) (stage_adoption o q c repo)
            (stage_linked-Ensures o repo q c) stage_adoption-Ensures))
        (λ e old p. p) go
    where
      fresh : Run IsolationResolution
      fresh =
          create_new_environment o c repo (workflow_type_of q.hints) (workflow_id_of q.hints)
            q.hints q.platform_type q.git_identity

      go :
          (b : Option IsolationResolution) (old : Log)
          → StagePromise repo (ok b) old
          → Ensures
              (elim b [ some found ↦ give (ok found) | none ↦ fresh ])
              (λ r new. FreshPromise repo r (new ++ old))
      go none old p =
          weaken (λ r new. FreshPromise repo r (new ++ old)) fresh (FreshPromise repo)
            (create_new_environment-Ensures o repo c (workflow_type_of q.hints)
              (workflow_id_of q.hints) q.platform_type q.hints q.git_identity)
            (λ r new h. FreshPromise-append r new old h p)
      go (some (resolved p)) old h =
          give-rule (λ r new. FreshPromise repo r (new ++ old)) (ok (resolved p)) h
      go (some (stale_cleaned d)) old h = elim h [ ]
      go (some (no_isolation d)) old h = elim h [ ]
      go (some (blocked v m)) old h = elim h [ ]
