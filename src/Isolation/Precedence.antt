-- ===== src/Isolation/Precedence.antt =====
-- The order of the stages of crates/har-isolation/src/resolver.rs: the workflow's own environment goes
-- before a linked issue's, before adoption and before creation.
use harness_agent_rs.Prelude.{
  ◌≡◌, refl, arith, ◌∙◌, ap, Text, Bool, true, false, Option, none, some, List, ◌∷◌, Result, ok,
  err, is_empty,
}
use harness_agent_rs.Isolation.{
  IsolationError, IsolationWorkflowType, IsolationEnvironmentRow, CodebaseSummary, ResolveRequest,
  IsolationResolution, workflow_reuse,
}
use harness_agent_rs.Isolation.Calls.{
  done, Log, Run, give, continue, Outside, looked, verified, searched, canonical_asked,
}
use harness_agent_rs.Isolation.Checks.{
  on_disk, assert_worktree_ownership, to_repo_path, to_worktree_path,
}
use harness_agent_rs.Isolation.Reuse.{
  reused, reuse_with_warnings, reuse_row, find_active, find_reusable_environment,
}
use harness_agent_rs.Isolation.Resolve.{
  stage_workflow, stages, stage_codebase, resolve, workflow_type_of, workflow_id_of,
}
use harness_agent_rs.Isolation.Stages.{Reuses, reuse_with_warnings-Ensures}
use harness_agent_rs.Isolation.Ensures.{Ensures}
use harness_agent_rs.Isolation.Kept.{resolve-codebase}

-- The logs in which the store is searched, the disk is looked at and the clone is checked.
abbrev pub after_canonical : CodebaseSummary → Text → Log → Log
after_canonical c repo l = canonical_asked c.default_cwd (ok repo) ∷ l

abbrev pub after_search :
    ResolveRequest → CodebaseSummary → Text → IsolationEnvironmentRow → Log → Log
after_search q c repo row l =
    searched c.id (workflow_type_of q.hints) (workflow_id_of q.hints) (ok (some row))
    ∷ after_canonical c repo l

abbrev pub after_look :
    ResolveRequest → CodebaseSummary → Text → IsolationEnvironmentRow → Log → Log
after_look q c repo row l = looked row.working_path (ok true) ∷ after_search q c repo row l

abbrev Value : Type 0
Value = Result IsolationError (Option IsolationResolution) × Log

-- A stage that finds something ends the search.
found_stays :
    (v : Value) (k : Run (Option IsolationResolution)) (r : IsolationResolution)
    → v.0 ≡ ok (some r)
    → (continue v (λ x. elim x [ some found ↦ give (ok (some found)) | none ↦ k ])).0 ≡ ok (some r)
found_stays (ok none, l) k r h = cc
found_stays (ok (some x), l) k r h = h
found_stays (err e, l) k r h = cc

found_ends :
    (v : Value) (k : Run IsolationResolution) (r : IsolationResolution)
    → v.0 ≡ ok (some r)
    → (continue v (λ x. elim x [ some found ↦ give (ok found) | none ↦ k ])).0 ≡ ok r
found_ends (ok none, l) k r h = cc
found_ends (ok (some x), l) k r h = ground (arith, h)
found_ends (err e, l) k r h = cc

search-value :
    (o : Outside) (c : Text) (t : IsolationWorkflowType) (w : Text)
    (a : Result IsolationError (Option IsolationEnvironmentRow)) (l : Log)
    → o.find_active_by_workflow l c t w ≡ a
    → find_active o c t w l ≡ (a, searched c t w a ∷ l)
unfolding find_active
search-value o c t w a l h = rw (find_active, h) refl

disk-value :
    (o : Outside) (path : Text) (b : Bool) (l : Log)
    → is_empty path ≡ false
    → o.worktree_exists l path ≡ ok b
    → on_disk o path l ≡ (ok b, looked path (ok b) ∷ l)
unfolding on_disk to_worktree_path
disk-value o path b l p h = rw (on_disk, to_worktree_path, p, h) refl

owner-value :
    (o : Outside) (repo path : Text) (l : Log)
    → is_empty repo ≡ false
    → is_empty path ≡ false
    → o.verify_worktree_ownership l path repo ≡ ok done
    → assert_worktree_ownership o repo path l ≡ (ok done, verified path repo (ok done) ∷ l)
unfolding assert_worktree_ownership to_repo_path to_worktree_path
owner-value o repo path l r p h =
    rw (assert_worktree_ownership, to_repo_path, r, to_worktree_path, p, h) refl

module _ (o : Outside) (q : ResolveRequest) (c : CodebaseSummary) (repo : Text)
    (row : IsolationEnvironmentRow) (l : Log) where
  -- The log after the three checks.
  abbrev after_checks : Log
  after_checks = verified row.working_path repo (ok done) ∷ after_look q c repo row l

  -- The store has a row for the workflow, whose worktree is on disk and is this clone's.
  unfoldable pub IsReusable : Type 0
  IsReusable =
      (is_empty repo ≡ false)
      × (is_empty row.working_path ≡ false)
      × (o.find_active_by_workflow (after_canonical c repo l) c.id (workflow_type_of q.hints)
            (workflow_id_of q.hints)
          ≡ ok (some row))
      × (o.worktree_exists (after_search q c repo row l) row.working_path ≡ ok true)
      × (o.verify_worktree_ownership (after_look q c repo row l) row.working_path repo ≡ ok done)

  reuse_row-value :
      IsReusable
      → reuse_row o repo q.hints row (after_search q c repo row l)
        ≡ reuse_with_warnings o row workflow_reuse q.hints after_checks
  unfolding reuse_row IsReusable
  reuse_row-value h =
      rw
        (
          reuse_row,
          disk-value o row.working_path true (after_search q c repo row l) h.1 h.3,
          owner-value o repo row.working_path (after_look q c repo row l) h.0 h.1 h.4,
        )
        refl

  find_reusable-value :
      IsReusable
      → find_reusable_environment o c repo
          (workflow_type_of q.hints)
          (workflow_id_of q.hints)
          q.hints
          (after_canonical c repo l)
        ≡ reuse_row o repo q.hints row (after_search q c repo row l)
  unfolding find_reusable_environment IsReusable
  find_reusable-value h =
      ap
        (λ v.
          continue v
            (λ found. elim found [ none ↦ give (ok none) | some x ↦ reuse_row o repo q.hints x ]))
        (search-value o c.id (workflow_type_of q.hints) (workflow_id_of q.hints) (ok (some row))
          (after_canonical c repo l) h.2)

  stage_workflow-value :
      is_empty (workflow_id_of q.hints) ≡ false
      → IsReusable
      → stage_workflow o q c repo (after_canonical c repo l)
        ≡ reuse_with_warnings o row workflow_reuse q.hints after_checks
  unfolding stage_workflow
  stage_workflow-value w h = rw (stage_workflow, w) (find_reusable-value h ∙ reuse_row-value h)

  stage_workflow-reused :
      is_empty (workflow_id_of q.hints) ≡ false
      → IsReusable
      → (ws : Option (List Text)) × ((stage_workflow o q c repo (after_canonical c repo l)).0
          ≡ ok (some (reused row workflow_reuse ws)))
  unfolding Ensures Reuses
  stage_workflow-reused w h =
      let s = reuse_with_warnings-Ensures o row workflow_reuse q.hints after_checks in
      (s.2.0.0, ap (λ v. v.0) (stage_workflow-value w h) ∙ s.2.0.1)

  canonical-value :
      o.get_canonical_repo_path l c.default_cwd ≡ ok repo
      → stage_codebase o q c l ≡ stages o q c repo (after_canonical c repo l)
  unfolding stage_codebase
  canonical-value g = rw (stage_codebase, g) refl

  -- When the request names no environment and the store has a row for its workflow whose worktree is
  -- on disk and belongs to the clone, that row is the resolution, whatever the linked issues and the
  -- branch of a pull request are.
  pub workflow_first :
      q.existing_env_id ≡ none
      → q.codebase ≡ some c
      → o.get_canonical_repo_path l c.default_cwd ≡ ok repo
      → is_empty (workflow_id_of q.hints) ≡ false
      → IsReusable
      → (ws : Option (List Text)) × ((resolve o q l).0 ≡ ok (reused row workflow_reuse ws))
  unfolding stages stage_codebase
  workflow_first n k g w h =
      let found = stage_workflow-reused w h in
      let searched_all =
        found_stays (stage_workflow o q c repo (after_canonical c repo l)) _ _ found.1 in
      let at_stages : (stages o q c repo (after_canonical c repo l)).0
          ≡ ok (reused row workflow_reuse found.0) =
        found_ends (_, _) _ (reused row workflow_reuse found.0) searched_all in
      let start : stage_codebase o q c l ≡ stages o q c repo (after_canonical c repo l) =
        canonical-value g in
      (found.0, ap (λ m. (m l).0) (resolve-codebase o q c n k) ∙ ap (λ v. v.0) start ∙ at_stages)
