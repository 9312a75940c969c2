-- ===== src/Isolation/Stages.antt =====
-- The stages of crates/har-isolation/src/resolver.rs keep what they promise, one by one.
use harness_agent_rs.Prelude.{
  ◌≡◌, refl, sym, subst, inl, Text, text, true, false, Option, none, some, List, [], ◌∷◌, ◌++◌, All,
  All-append, Result, ok, err, if◌then◌else◌,
}
use harness_agent_rs.Isolation.{
  IsolationError, IsolationHints, IsolationEnvironmentRow, ResolutionMethod, existing,
  workflow_reuse, linked_issue_reuse, IsolationResolution, ResolvedPayload, branch_adoption,
  created,
}
use harness_agent_rs.Isolation.Calls.{
  Done, done, Event, Log, Run, give, ◌>>>◌, Outside, looked, verified, status_set, ancestor_asked,
}
use harness_agent_rs.Isolation.Checks.{
  or_false, on_disk, assert_worktree_ownership, base_branch_of, collect_base_branch_warnings,
  mark_destroyed_best_effort,
}
use harness_agent_rs.Isolation.Reuse.{reused, give_up, reuse_with_warnings, some_warnings}
use harness_agent_rs.Isolation.Ensures.{Ensures, give-rule, weaken, on_disk-rule, owned-rule}
use harness_agent_rs.Isolation.Contract.{
  Occurs, Quiet, Reads, All-Reads-Quiet, Owned, BackedBy, StagePromise, Occurs-left, Occurs-right,
  All-Accounted, StagePromise-append,
}

-- The event is the newest or the oldest of some.
pub last : (e : Event) (new : Log) → Occurs e (new ++ e ∷ [])
last e new = Occurs-right e new (e ∷ []) (inl refl)

-- Giving up adds the mark and gives nothing.
unfoldable pub GivesUp : Text → Result IsolationError (Option IsolationResolution) → Log → Type 0
GivesUp id r new =
    (r ≡ ok none)
    × ((a : Result IsolationError Done) × (new ≡ status_set id (text "destroyed") a ∷ []))

pub give_up-Ensures : (o : Outside) (id : Text) → Ensures (give_up o id) (GivesUp id)
unfolding Ensures give_up mark_destroyed_best_effort GivesUp
give_up-Ensures o id l = (
  status_set id (text "destroyed") (o.update_status l id (text "destroyed")) ∷ [],
  refl,
  (refl, (o.update_status l id (text "destroyed"), refl)),
)

-- A row that is used as it is, after calls that read.
unfoldable pub Reuses :
    IsolationEnvironmentRow
    → ResolutionMethod
    → Result IsolationError (Option IsolationResolution)
    → Log
    → Type 0
Reuses row how r new =
    ((ws : Option (List Text)) × (r ≡ ok (some (reused row how ws)))) × All Reads new

warned-Ensures :
    (o : Outside) (row : IsolationEnvironmentRow) (how : ResolutionMethod) (base : Option Text)
    (f : List Text → Option (List Text))
    → Ensures
        (collect_base_branch_warnings o row.branch_name row.working_path base >>> λ ws.
          give (ok (some (reused row how (f ws)))))
        (Reuses row how)
unfolding Ensures collect_base_branch_warnings Reuses
warned-Ensures o row how none f l = ([], refl, ((f [], refl), _))
warned-Ensures o row how (some base) f l = (
  ancestor_asked row.working_path (text "origin/" ++ base)
        (o.is_ancestor_of l row.working_path (text "origin/" ++ base))
      ∷ [],
  refl,
  ((_, refl), (_, _)),
)

pub reuse_with_warnings-Ensures :
    (o : Outside) (row : IsolationEnvironmentRow) (how : ResolutionMethod)
    (hints : Option IsolationHints)
    → Ensures (reuse_with_warnings o row how hints) (Reuses row how)
unfolding reuse_with_warnings
reuse_with_warnings-Ensures o row how hints =
    warned-Ensures o row how (base_branch_of o hints) some_warnings

-- What is left of a stage after one quiet call.
pub later-Ensures :
    (repo : Text) (m : Run (Option IsolationResolution)) (old : Log)
    → Ensures m (StagePromise repo)
    → All Quiet old
    → Ensures m (λ r new. StagePromise repo r (new ++ old))
later-Ensures repo m old h a =
    weaken (λ r new. StagePromise repo r (new ++ old)) m (StagePromise repo) h
      (λ r new p. StagePromise-append repo r new old p a)

pub nothing-Ensures :
    (repo : Text) (old : Log)
    → All Quiet old
    → Ensures (give (ok none)) (λ r new. StagePromise repo r (new ++ old))
unfolding StagePromise
nothing-Ensures repo old a = give-rule (λ r new. StagePromise repo r (new ++ old)) (ok none) a

-- A row whose worktree is gone.
gone-Ensures :
    (o : Outside) (repo id : Text) (old : Log)
    → All Quiet old
    → Ensures (give_up o id) (λ r new. StagePromise repo r (new ++ old))
unfolding StagePromise GivesUp
gone-Ensures o repo id old a =
    weaken (λ r new. StagePromise repo r (new ++ old)) (give_up o id) (GivesUp id)
      (give_up-Ensures o id)
      (λ r new h.
        subst (λ t. StagePromise repo r (t ++ old)) (sym h.1.1)
          (subst (λ t. StagePromise repo t (status_set id (text "destroyed") h.1.0 ∷ old)) (sym h.0)
            (refl, a)))

-- A method of reuse that checks the clone.
abbrev pub IsChecked : ResolutionMethod → Type 0
IsChecked workflow_reuse = Unit
IsChecked (linked_issue_reuse n) = Unit
IsChecked _ = ⊥

checked-BackedBy :
    (m : ResolutionMethod) (repo : Text) (p : ResolvedPayload) (l : Log)
    → IsChecked m
    → p.cwd ≡ p.env.working_path
    → Owned repo p l
    → BackedBy m repo p l
checked-BackedBy existing repo p l c e w = elim c [ ]
checked-BackedBy workflow_reuse repo p l c e w = (e, w)
checked-BackedBy (linked_issue_reuse n) repo p l c e w = (e, w)
checked-BackedBy (branch_adoption b) repo p l c e w = elim c [ ]
checked-BackedBy (created n) repo p l c e w = elim c [ ]

-- The events of a reuse: the look, the check of the clone, and quiet calls after them.
abbrev pub after_checks : Text → Text → Log → Log
after_checks repo path new =
    (new ++ verified path repo (ok done) ∷ []) ++ looked path (ok true) ∷ []

reused-StagePromise :
    (repo : Text) (row : IsolationEnvironmentRow) (how : ResolutionMethod)
    (r : Result IsolationError (Option IsolationResolution)) (new : Log)
    → IsChecked how
    → Reuses row how r new
    → StagePromise repo r (after_checks repo row.working_path new)
unfolding StagePromise Reuses reused
reused-StagePromise repo row how r new c h =
    let path = row.working_path in
    let mid = new ++ verified path repo (ok done) ∷ [] in
    let quiet : All Quiet (after_checks repo path new) =
      All-append Quiet mid (looked path (ok true) ∷ [])
        (All-append Quiet new (verified path repo (ok done) ∷ []) (All-Reads-Quiet new h.1) (_, _))
        (_, _) in
    let owned : Owned repo (record { env = row; cwd = path; method = how; warnings = h.0.0 })
        (after_checks repo path new) =
      (
        last (looked path (ok true)) mid,
        Occurs-left (verified path repo (ok done)) mid (looked path (ok true) ∷ [])
            (last (verified path repo (ok done)) new),
      ) in
    subst (λ t. StagePromise repo t (after_checks repo path new)) (sym h.0.1)
      (
        All-Accounted (after_checks repo path new) quiet,
        checked-BackedBy how repo (record { env = row; cwd = path; method = how; warnings = h.0.0 })
            (after_checks repo path new) c refl owned,
      )

-- The rest of a stage that found a row, after the look at its worktree.
pub checked_row-Ensures :
    (o : Outside) (repo : Text) (row : IsolationEnvironmentRow) (how : ResolutionMethod)
    (k : Run (Option IsolationResolution)) (id : Text)
    → IsChecked how
    → Ensures k (Reuses row how)
    → Ensures
        (on_disk o row.working_path >>> λ e.
          if e
          then (assert_worktree_ownership o repo row.working_path >>> λ d. k)
          else give_up o id)
        (StagePromise repo)
unfolding StagePromise
checked_row-Ensures o repo row how k id c h =
    on_disk-rule (StagePromise repo) o row.working_path _ (λ x. All-Accounted [] _)
      (λ a.
        elim a
          as (λ b.
            Ensures
              (if or_false b
                then (assert_worktree_ownership o repo row.working_path >>> λ d. k)
                else give_up o id)
              (λ r new. StagePromise repo r (new ++ looked row.working_path b ∷ []))) [
                | err t ↦ gone-Ensures o repo id (looked row.working_path (err t) ∷ []) (_, _)
                | ok false ↦ gone-Ensures o repo id (looked row.working_path (ok false) ∷ []) (_, _)
                | ok true ↦
                    owned-rule
                      (λ r new. StagePromise repo r (new ++ looked row.working_path (ok true) ∷ []))
                      o repo row.working_path (λ d. k)
                      (λ x. All-Accounted (looked row.working_path (ok true) ∷ []) (_, _))
                      (λ x t.
                        All-Accounted
                          (verified row.working_path repo (err t)
                            ∷ looked row.working_path (ok true)
                            ∷ [])
                          (_, (_, _)))
                      (weaken
                        (λ r new. StagePromise repo r (after_checks repo row.working_path new)) k
                        (Reuses row how) h (λ r new g. reused-StagePromise repo row how r new c g))
              ])
