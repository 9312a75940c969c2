-- ===== src/Isolation/Writes.antt =====
-- The stages of crates/har-isolation/src/resolver.rs that write a row keep what they promise: the
-- adoption of a branch's worktree, and the creation of a new one.
use harness_agent_rs.Prelude.{
  ◌≡◌, refl, subst, ◌⊎◌, inl, inr, arith, Text, true, false, Option, none, some, [], ◌∷◌, ◌++◌, All,
  Result, ok, err, if◌then◌else◌,
}
use harness_agent_rs.Isolation.{
  IsolationError, IsolationWorkflowType, GitIdentity, IsolationRequest, WorktreeEnvironment,
  IsolationHints, IsolationEnvironmentRow, CreateEnvironmentParams, DestroyOptions, CodebaseSummary,
}
use harness_agent_rs.Isolation.Calls.{
  Done, done, Event, Log, give, ◌>>>◌, Outside, looked, verified, recorded, provisioned, torn_down,
  branch_searched,
}
use harness_agent_rs.Isolation.Checks.{
  to_repo_path, to_branch_name, as_other, as_git, or_false, assert_worktree_ownership,
}
use harness_agent_rs.Isolation.Create.{
  adoption_params, adopted, record_adoption, adopt, adopt_branch, try_branch_adoption,
}
use harness_agent_rs.Isolation.Ensures.{
  Ensures, append_assoc, give-rule, given-rule, weaken, asked-rule, tried-rule, on_disk-rule,
  owned-rule,
}
use harness_agent_rs.Isolation.Contract.{
  Occurs, Quiet, Accounted, StagePromise, Occurs-split, Occurs-All, All-Accounted,
}
use harness_agent_rs.Isolation.Stages.{later-Ensures, nothing-Ensures}
use harness_agent_rs.Isolation.Searches.{idle-Ensures}

-- A call that makes no worktree.
abbrev pub Idle : Event → Type 0
Idle (provisioned q (ok env)) = ⊥
Idle _ = Unit

pub Idle-Accounted : (l : Log) → All Idle l → Accounted l
unfolding Accounted
Idle-Accounted l a q env h = elim (Occurs-All Idle (provisioned q (ok env)) l h a) [ ]

-- A worktree was made for this environment, and the log accounts for it.
abbrev pub Settled : WorktreeEnvironment → Log → Type 0
Settled env l =
    ((p : CreateEnvironmentParams) × (row : IsolationEnvironmentRow) × Occurs (recorded p (ok row))
        l
      × (p.working_path ≡ env.working_path)
      × (p.branch_name ≡ env.branch_name))
    ⊎ ((d : DestroyOptions) × (r : Result IsolationError Done) × Occurs
          (torn_down env.working_path d r) l)

pub made-Accounted :
    (front old : Log) (q : IsolationRequest) (env : WorktreeEnvironment)
    → All Idle front
    → All Idle old
    → Settled env (front ++ provisioned q (ok env) ∷ old)
    → Accounted (front ++ provisioned q (ok env) ∷ old)
unfolding Accounted
made-Accounted front old q env f o s q' env' h =
    elim (Occurs-split (provisioned q' (ok env')) front (provisioned q (ok env) ∷ old) h) [
      | inl g ↦ elim (Occurs-All Idle (provisioned q' (ok env')) front g f) [ ]
      | inr g ↦ elim g [
        | inr i ↦ elim (Occurs-All Idle (provisioned q' (ok env')) old i o) [ ]
        | inl e ↦
            let same : env ≡ env' = ground (arith, e) in
            subst (λ x. Settled x (front ++ provisioned q (ok env) ∷ old)) same s
      ]
    ]

module _ (o : Outside) (repo : Text) (c : CodebaseSummary) (t : IsolationWorkflowType) (w : Text)
    (i : Option GitIdentity) where
  -- The events before the row of an adoption.
  abbrev checks_of : Text → Log
  checks_of path = verified path repo (ok done) ∷ looked path (ok true) ∷ []

  record_adoption-Ensures :
      (branch path : Text)
      → Ensures
          (record_adoption o c t w i branch path)
          (λ r new. StagePromise repo r (new ++ checks_of path))
  unfolding record_adoption StagePromise adopted adoption_params
  record_adoption-Ensures branch path =
      let p = adoption_params c t w i path branch in
      tried-rule (λ r new. StagePromise repo r (new ++ checks_of path)) (λ l. o.create_row l p)
        (recorded p) _ (λ x. Idle-Accounted (recorded p (err x) ∷ checks_of path) (_, (_, (_, _))))
        (λ row.
          give-rule
            (λ r new. StagePromise repo r ((new ++ recorded p (ok row) ∷ []) ++ checks_of path))
            (ok (some (adopted branch path row)))
            (
              Idle-Accounted (recorded p (ok row) ∷ checks_of path) (_, (_, (_, _))),
              ((inr (inr (inl refl)), inr (inl refl)), (p, inl refl, refl)),
            ))

  adopt-Ensures :
      (branch path : Text) → Ensures (adopt o c repo t w i branch path) (StagePromise repo)
  unfolding adopt StagePromise
  adopt-Ensures branch path =
      on_disk-rule (StagePromise repo) o path _ (λ x. All-Accounted [] _)
        (λ a.
          elim a
            as (λ b.
              Ensures
                (if or_false b
                  then (assert_worktree_ownership o repo path >>> λ d.
                      record_adoption o c t w i branch path)
                  else give (ok none))
                (λ r new. StagePromise repo r (new ++ looked path b ∷ []))) [
                  | err x ↦ nothing-Ensures repo (looked path (err x) ∷ []) (_, _)
                  | ok false ↦ nothing-Ensures repo (looked path (ok false) ∷ []) (_, _)
                  | ok true ↦
                      owned-rule (λ r new. StagePromise repo r (new ++ looked path (ok true) ∷ []))
                        o repo path _ (λ x. All-Accounted (looked path (ok true) ∷ []) (_, _))
                        (λ x e.
                          All-Accounted (verified path repo (err e) ∷ looked path (ok true) ∷ [])
                            (_, (_, _)))
                        (weaken
                          (λ r new. StagePromise repo r (
                            (new ++ verified path repo (ok done) ∷ [])
                            ++ looked path (ok true) ∷ []))
                          _ (λ r new. StagePromise repo r (new ++ checks_of path))
                          (record_adoption-Ensures branch path)
                          (λ r new h.
                            subst (StagePromise repo r)
                              (append_assoc new (verified path repo (ok done) ∷ [])
                                (looked path (ok true) ∷ []))
                              h))
                ])

  adopt_branch-Ensures :
      (branch : Text) → Ensures (adopt_branch o c repo t w i branch) (StagePromise repo)
  unfolding adopt_branch StagePromise
  adopt_branch-Ensures branch =
      given-rule (StagePromise repo) (as_other (to_repo_path repo)) _ (λ x. All-Accounted [] _)
        (λ r.
          given-rule (StagePromise repo) (as_other (to_branch_name branch)) _
            (λ x. All-Accounted [] _)
            (λ b.
              asked-rule (StagePromise repo) (λ l. o.find_worktree_by_branch l r b)
                (branch_searched r b) _ (searched_branch r b)))
    where
      go :
          (old : Log)
          → All Quiet old
          → (found : Option Text)
          → Ensures
              (elim found [ none ↦ give (ok none) | some path ↦ adopt o c repo t w i branch path ])
              (λ r new. StagePromise repo r (new ++ old))
      go old q none = nothing-Ensures repo old q
      go old q (some path) = later-Ensures repo _ old (adopt-Ensures branch path) q

      searched_branch :
          (r b : Text) (a : Result Text (Option Text))
          → Ensures
              (give (as_git a) >>> λ found. elim found [
                | none ↦ give (ok none)
                | some path ↦ adopt o c repo t w i branch path
              ])
              (λ s new. StagePromise repo s (new ++ branch_searched r b a ∷ []))
      searched_branch r b a =
          given-rule (λ s new. StagePromise repo s (new ++ branch_searched r b a ∷ [])) (as_git a) _
            (λ x. All-Accounted (branch_searched r b a ∷ []) (_, _))
            (go (branch_searched r b a ∷ []) (_, _))

  pub try_branch_adoption-Ensures :
      (h : IsolationHints) → Ensures (try_branch_adoption o c repo h t w i) (StagePromise repo)
  unfolding try_branch_adoption
  try_branch_adoption-Ensures h =
      elim h.pr_branch
        as (λ b.
          Ensures
            (elim b [ none ↦ give (ok none) | some branch ↦ adopt_branch o c repo t w i branch ])
            (StagePromise repo)) [
              | none ↦ idle-Ensures o repo
              | some branch ↦ adopt_branch-Ensures branch
            ]
