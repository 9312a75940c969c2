-- ===== src/Isolation/Kept.antt =====
-- `resolve` of crates/har-isolation/src/resolver.rs: what it promises for every request, and that the
-- workflow's own environment goes before all others.
use harness_agent_rs.Prelude.{
  ◌≡◌, refl, sym, subst, inl, inr, Text, text, true, false, ◌||◌, none, some, [], ◌∷◌, ◌++◌, All,
  Result, ok, err, if◌then◌else◌, contains, Option-cases,
}
use harness_agent_rs.Isolation.{
  IsolationError, other, CodebaseSummary, ResolveRequest, IsolationResolution, resolved,
  stale_cleaned, no_isolation, blocked,
}
use harness_agent_rs.Isolation.Calls.{Log, Run, give, Outside, canonical_asked}
use harness_agent_rs.Isolation.Resolve.{
  stage_existing, stages, not_a_repository, stage_codebase, resolve, not_valid,
}
use harness_agent_rs.Isolation.Ensures.{Ensures, give-rule, weaken, asked-rule}
use harness_agent_rs.Isolation.Contract.{Marks, All-Marks-Quiet, Accounted, Promise, All-Accounted}
use harness_agent_rs.Isolation.Stages.{last}
use harness_agent_rs.Isolation.Provision.{FreshPromise}
use harness_agent_rs.Isolation.Promise.{stages-Ensures, FreshPromise-append}
use harness_agent_rs.Isolation.Explicit.{ExistingPromise, ExplicitPromise, stage_existing-Ensures}

module _ (o : Outside) (q : ResolveRequest) where
  Ensures-same :
      (m k : Run IsolationResolution) (Q : Result IsolationError IsolationResolution → Log → Type 0)
      → m ≡ k
      → Ensures k Q
      → Ensures m Q
  Ensures-same m k Q h e = subst (λ x. Ensures x Q) (sym h) e

  resolve-explicit :
      (id : Text) → q.existing_env_id ≡ some id → resolve o q ≡ stage_existing o id q.hints
  unfolding resolve
  resolve-explicit id h = rw (resolve, h) refl

  resolve-nowhere :
      q.existing_env_id ≡ none
      → q.codebase ≡ none
      → resolve o q ≡ give (ok (no_isolation (text "/workspace")))
  unfolding resolve
  resolve-nowhere h e = rw (resolve, h, e) refl

  pub resolve-codebase :
      (c : CodebaseSummary)
      → q.existing_env_id ≡ none
      → q.codebase ≡ some c
      → resolve o q ≡ stage_codebase o q c
  unfolding resolve
  resolve-codebase c h e = rw (resolve, h, e) refl

  explicit-Promise :
      (id : Text)
      → q.existing_env_id ≡ some id
      → (r : Result IsolationError IsolationResolution) (new : Log) → ExplicitPromise id r new
      → Promise q r new
  unfolding Promise ExplicitPromise ExistingPromise
  explicit-Promise id e (err x) new h = All-Accounted new (All-Marks-Quiet id new h)
  explicit-Promise id e (ok (resolved p)) new h =
      let quiet = All-Marks-Quiet id new h.1 in (All-Accounted new quiet, inl (id, e, h.0, quiet))
  explicit-Promise id e (ok (stale_cleaned d)) new h =
      subst (λ x. Promise q (ok (stale_cleaned x)) new) (sym h.0)
        (e, All-Marks-Quiet id new h.1.0, h.1.1)
  explicit-Promise id e (ok (no_isolation d)) new h = elim h [ ]
  explicit-Promise id e (ok (blocked v m)) new h = elim h [ ]

  fresh-Promise :
      (c : CodebaseSummary) (repo : Text)
      → q.existing_env_id ≡ none
      → q.codebase ≡ some c
      → (r : Result IsolationError IsolationResolution) (new : Log) → FreshPromise repo r new
      → Promise q r (new ++ canonical_asked c.default_cwd (ok repo) ∷ [])
  unfolding Promise FreshPromise
  fresh-Promise c repo e f r new h =
      go r (
        FreshPromise-append o q c repo r new (canonical_asked c.default_cwd (ok repo) ∷ []) h
          (_, _))
    where
      all : Log
      all = new ++ canonical_asked c.default_cwd (ok repo) ∷ []

      go :
          (s : Result IsolationError IsolationResolution)
          → FreshPromise repo s all
          → Promise q s all
      go (err x) g = g
      go (ok (resolved p)) g =
          (g.0, inr (c, repo, e, f, last (canonical_asked c.default_cwd (ok repo)) new, g.1))
      go (ok (blocked v m)) g = g
      go (ok (stale_cleaned d)) g = elim g [ ]
      go (ok (no_isolation d)) g = elim g [ ]

  not_a_repository-Promise :
      (c : CodebaseSummary) (e : Text)
      → Promise q (not_a_repository o c e) (canonical_asked c.default_cwd (err e) ∷ [])
  unfolding Promise not_a_repository
  not_a_repository-Promise c e =
      elim (contains (o.to_lowercase e) (text "not a git repository")
          || contains (o.to_lowercase e) (text "no such file or directory"))
        as (λ b.
          Promise q
            (if b then ok (blocked (text "creation_failed") (not_valid c)) else err (other e))
            (canonical_asked c.default_cwd (err e) ∷ [])) [
              | true ↦ (All-Accounted (canonical_asked c.default_cwd (err e) ∷ []) (_, _), (_, _))
              | false ↦ All-Accounted (canonical_asked c.default_cwd (err e) ∷ []) (_, _)
            ]

  codebase-Promise :
      (c : CodebaseSummary)
      → q.existing_env_id ≡ none
      → q.codebase ≡ some c
      → Ensures (stage_codebase o q c) (Promise q)
  unfolding stage_codebase
  codebase-Promise c e f =
      asked-rule (Promise q) (λ l. o.get_canonical_repo_path l c.default_cwd)
        (canonical_asked c.default_cwd) _ go
    where
      go :
          (a : Result Text Text)
          → Ensures
              (elim a [ err x ↦ give (not_a_repository o c x) | ok repo ↦ stages o q c repo ])
              (λ r new. Promise q r (new ++ canonical_asked c.default_cwd a ∷ []))
      go (err x) =
          give-rule (λ r new. Promise q r (new ++ canonical_asked c.default_cwd (err x) ∷ []))
            (not_a_repository o c x) (not_a_repository-Promise c x)
      go (ok repo) =
          weaken _ (stages o q c repo) (FreshPromise repo) (stages-Ensures o q c repo)
            (fresh-Promise c repo e f)

  -- Every resolution keeps the promise, whatever the store, git and the provider answer: it adds calls
  -- to the log, and its result rests on those calls as `Promise` says.
  pub resolve-Promise : Ensures (resolve o q) (Promise q)
  unfolding Promise
  resolve-Promise = elim (Option-cases q.existing_env_id) [
    | inr (id, e) ↦
        Ensures-same (resolve o q) (stage_existing o id q.hints) (Promise q) (resolve-explicit id e)
          (weaken (Promise q) _ (ExplicitPromise id) (stage_existing-Ensures o id q.hints)
            (explicit-Promise id e))
    | inl e ↦ elim (Option-cases q.codebase) [
      | inl f ↦
          Ensures-same (resolve o q) (give (ok (no_isolation (text "/workspace")))) (Promise q)
            (resolve-nowhere e f)
            (give-rule (Promise q) (ok (no_isolation (text "/workspace"))) (f, refl))
      | inr (c, f) ↦
          Ensures-same (resolve o q) (stage_codebase o q c) (Promise q) (resolve-codebase c e f)
            (codebase-Promise c e f)
    ]
  ]

  -- With an explicit environment, whatever the outcome and whatever the store, the provider and git
  -- answer: every call reads, or sets the status of that environment's row to `destroyed`. No worktree
  -- and no row is made or removed, and no other row is written.
  pub explicit_only_reads :
      (id : Text)
      → q.existing_env_id ≡ some id
      → Ensures (resolve o q) (λ r new. All (Marks id) new)
  unfolding ExplicitPromise ExistingPromise
  explicit_only_reads id e =
      Ensures-same (resolve o q) (stage_existing o id q.hints) (λ r new. All (Marks id) new)
        (resolve-explicit id e)
        (weaken (λ r new. All (Marks id) new) _ (ExplicitPromise id)
          (stage_existing-Ensures o id q.hints) go)
    where
      go :
          (r : Result IsolationError IsolationResolution) (new : Log)
          → ExplicitPromise id r new
          → All (Marks id) new
      go (err x) new h = h
      go (ok (resolved p)) new h = h.1
      go (ok (stale_cleaned d)) new h = h.1.0
      go (ok (no_isolation d)) new h = elim h [ ]
      go (ok (blocked v m)) new h = elim h [ ]

  -- No worktree is left behind: each that the provider makes during a resolution gets its row with its
  -- path and branch, or its removal is asked for, also when the resolution fails.
  pub resolve-Accounted : Ensures (resolve o q) (λ r new. Accounted new)
  unfolding Promise
  resolve-Accounted = weaken (λ r new. Accounted new) (resolve o q) (Promise q) resolve-Promise go
    where
      go :
          (r : Result IsolationError IsolationResolution) (new : Log)
          → Promise q r new
          → Accounted new
      go (err x) new h = h
      go (ok (resolved p)) new h = h.0
      go (ok (stale_cleaned d)) new h = All-Accounted new h.1
      go (ok (no_isolation d)) new h = subst Accounted (sym h.1) (All-Accounted [] _)
      go (ok (blocked v m)) new h = h.0
