-- ===== src/Isolation/Provision.antt =====
-- `create_new_environment` of crates/har-isolation/src/resolver.rs keeps what it promises: a worktree
-- that it makes gets its row, or its removal is asked for.
use harness_agent_rs.Prelude.{
  refl, subst, inl, inr, ℕ, Text, text, true, false, Option, none, some, [], ◌∷◌, ◌++◌, All, Result,
  ok, err, if◌then◌else◌,
}
use harness_agent_rs.Isolation.{
  IsolationError, other, to_string, IsolationWorkflowType, GitIdentity, IsolationRequest,
  WorktreeEnvironment, IsolationHints, IsolationEnvironmentRow, CodebaseSummary,
  IsolationResolution, resolved, blocked,
}
use harness_agent_rs.Isolation.Failures.{is_known_isolation_error, classify_isolation_error}
use harness_agent_rs.Isolation.Calls.{
  Log, give, ◌>>>◌, asked, Outside, recorded, provisioned, torn_down, cleaned,
}
use harness_agent_rs.Isolation.Create.{
  creation_params, build_isolation_request, request_base, orphan_options,
}
use harness_agent_rs.Isolation.Fresh.{
  make_room, creation_failed, abandon, registered, persist, provided, provide,
  create_new_environment,
}
use harness_agent_rs.Isolation.Ensures.{
  Ensures, append_assoc, append_nil, give-rule, given-rule, weaken, asked-rule,
}
use harness_agent_rs.Isolation.Contract.{WritesNoRow, Accounted, BackedBy}
use harness_agent_rs.Isolation.Writes.{Idle, Idle-Accounted, made-Accounted}

-- What the creation of an environment promises.
unfoldable pub FreshPromise : Text → Result IsolationError IsolationResolution → Log → Type 0
FreshPromise repo (err e) l = Accounted l
FreshPromise repo (ok (resolved p)) l = Accounted l × BackedBy p.method repo p l
FreshPromise repo (ok (blocked v m)) l = Accounted l × All WritesNoRow l
FreshPromise repo (ok _) l = ⊥

module _ (o : Outside) (repo : Text) (c : CodebaseSummary) (t : IsolationWorkflowType)
    (w platform : Text) (i : Option GitIdentity) (n : ℕ) where
  module _ (old : Log) (idle : All Idle old) (bare : All WritesNoRow old) where
    creation_failed-FreshPromise :
        (q : IsolationRequest) (e : IsolationError)
        → FreshPromise repo (creation_failed o e) (provisioned q (err e) ∷ old)
    unfolding creation_failed FreshPromise
    creation_failed-FreshPromise q e =
        elim (is_known_isolation_error o.to_lowercase (to_string e) none)
          as (λ b.
            FreshPromise repo
              (if b
                then ok (
                    blocked (text "creation_failed")
                      (classify_isolation_error o.to_lowercase (to_string e) none))
                else err e)
              (provisioned q (err e) ∷ old)) [
                | true ↦ (Idle-Accounted (provisioned q (err e) ∷ old) (_, idle), (_, bare))
                | false ↦ Idle-Accounted (provisioned q (err e) ∷ old) (_, idle)
              ]

    registered-Ensures :
        (q : IsolationRequest) (env : WorktreeEnvironment)
        (a : Result IsolationError IsolationEnvironmentRow)
        → Ensures (registered o repo n env a) (λ r new. FreshPromise repo r (
            (new ++ recorded (creation_params c t w i platform env) a ∷ [])
            ++ provisioned q (ok env) ∷ old))
    unfolding registered abandon FreshPromise creation_params
    registered-Ensures q env (err e) =
        asked-rule _ (λ l. o.destroy l env.working_path (orphan_options env repo))
          (torn_down env.working_path (orphan_options env repo)) _
          (λ r.
            give-rule _
              (err (other (text "Failed to persist isolation environment record: " ++ to_string e)))
              (made-Accounted
                (torn_down env.working_path (orphan_options env repo) r
                  ∷ recorded (creation_params c t w i platform env) (err e)
                  ∷ [])
                old q env (_, (_, _)) idle (inr (orphan_options env repo, r, inl refl))))
    registered-Ensures q env (ok row) = give-rule _ _ (
      made-Accounted (recorded (creation_params c t w i platform env) (ok row) ∷ []) old q env
          (_, _) idle (inl (creation_params c t w i platform env, row, inl refl, refl, refl)),
      ((q, env, inr (inl refl), refl), (creation_params c t w i platform env, inl refl, refl)),
    )

    provide-Ensures :
        (q : IsolationRequest)
        → Ensures (provide o c repo t w platform i n q) (λ r new. FreshPromise repo r (new ++ old))
    unfolding provide provided persist
    provide-Ensures q =
        asked-rule (λ r new. FreshPromise repo r (new ++ old)) (λ l. o.provision l q)
          (provisioned q) _ (λ a. go a)
      where
        go :
            (a : Result IsolationError WorktreeEnvironment)
            → Ensures
                (provided o c repo t w platform i n a)
                (λ r new. FreshPromise repo r ((new ++ provisioned q a ∷ []) ++ old))
        go (err e) = give-rule _ (creation_failed o e) (creation_failed-FreshPromise q e)
        go (ok env) =
            asked-rule (λ r new. FreshPromise repo r ((new ++ provisioned q (ok env) ∷ []) ++ old))
              (λ l. o.create_row l (creation_params c t w i platform env))
              (recorded (creation_params c t w i platform env)) _
              (λ a.
                weaken
                  (λ r new. FreshPromise repo r (
                    ((new ++ recorded (creation_params c t w i platform env) a ∷ [])
                      ++ provisioned q (ok env) ∷ [])
                    ++ old))
                  _
                  (λ r new. FreshPromise repo r (
                    (new ++ recorded (creation_params c t w i platform env) a ∷ [])
                    ++ provisioned q (ok env) ∷ old))
                  (registered-Ensures q env a)
                  (λ r new h.
                    subst (FreshPromise repo r)
                      (append_assoc (new ++ recorded (creation_params c t w i platform env) a ∷ [])
                        (provisioned q (ok env) ∷ []) old)
                      h))

module _ (o : Outside) (repo : Text) (c : CodebaseSummary) (t : IsolationWorkflowType)
    (w platform : Text) (hints : Option IsolationHints) (i : Option GitIdentity) where
  requested-Ensures :
      (n : ℕ) (old : Log)
      → All Idle old
      → All WritesNoRow old
      → Ensures
          (give (build_isolation_request (request_base c repo i) t w hints) >>> λ q.
            provide o c repo t w platform i n q)
          (λ r new. FreshPromise repo r (new ++ old))
  unfolding FreshPromise
  requested-Ensures n old idle bare =
      given-rule (λ r new. FreshPromise repo r (new ++ old))
        (build_isolation_request (request_base c repo i) t w hints) _ (λ x. Idle-Accounted old idle)
        (λ q. provide-Ensures o repo c t w platform i n old idle bare q)

  pub create_new_environment-Ensures :
      Ensures (create_new_environment o c repo t w hints platform i) (FreshPromise repo)
  unfolding create_new_environment make_room FreshPromise
  create_new_environment-Ensures =
      elim o.cleanup
        as (λ u.
          Ensures
            (elim u [ none ↦ give (ok 0) | some f ↦ asked (λ l. f l c.id) (cleaned c.id) ] >>> λ n.
              (give (build_isolation_request (request_base c repo i) t w hints) >>> λ q.
              provide o c repo t w platform i n q))
            (FreshPromise repo)) [
              | none ↦ given-rule (FreshPromise repo) (ok 0) _ (λ x. no_error x) (λ n. bare n)
              | some f ↦
                  asked-rule (FreshPromise repo) (λ l. f l c.id) (cleaned c.id) _
                    (λ n. requested-Ensures n (cleaned c.id n ∷ []) (_, _) (_, _))
            ]
    where
      no_error : (x : IsolationError) → FreshPromise repo (err x) []
      no_error x = Idle-Accounted [] _

      bare :
          (n : ℕ)
          → Ensures
              (give (build_isolation_request (request_base c repo i) t w hints) >>> λ q.
                provide o c repo t w platform i n q)
              (FreshPromise repo)
      bare n =
          weaken (FreshPromise repo) _ (λ r new. FreshPromise repo r (new ++ []))
            (requested-Ensures n [] _ _) (λ r new h. subst (FreshPromise repo r) (append_nil new) h)
