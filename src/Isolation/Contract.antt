-- ===== src/Isolation/Contract.antt =====
-- What a resolution by crates/har-isolation/src/resolver.rs has to rest on, in terms of the calls that
-- it made.
use harness_agent_rs.Prelude.{
  ◌≡◌, sym, subst, arith, ◌⊎◌, inl, inr, Text, text, true, Option, none, some, [], ◌∷◌, ◌++◌, All,
  All-append, Result, ok, err,
}
use harness_agent_rs.Isolation.{
  IsolationError, IsolationRequest, WorktreeEnvironment, DestroyOptions, IsolationEnvironmentRow,
  CreateEnvironmentParams, ResolveRequest, CodebaseSummary, IsolationResolution, ResolvedPayload,
  resolved, stale_cleaned, no_isolation, blocked, ResolutionMethod, existing, workflow_reuse,
  linked_issue_reuse, branch_adoption, created,
}
use harness_agent_rs.Isolation.Calls.{
  Done, done, Event, Log, fetched, recorded, status_set, looked, verified, canonical_asked,
  provisioned, torn_down, cleaned,
}

-- The event is in the log.
abbrev pub Occurs : Event → Log → Type 0
Occurs e [] = ⊥
Occurs e (x ∷ l) = (e ≡ x) ⊎ Occurs e l

-- A call that reads, or that sets the status of a row to `destroyed`.
abbrev pub Quiet : Event → Type 0
Quiet (recorded p r) = ⊥
Quiet (provisioned q r) = ⊥
Quiet (torn_down p q r) = ⊥
Quiet (cleaned c n) = ⊥
Quiet (status_set id s r) = s ≡ text "destroyed"
Quiet _ = Unit

-- A call that only reads.
abbrev pub Reads : Event → Type 0
Reads (recorded p r) = ⊥
Reads (provisioned q r) = ⊥
Reads (torn_down p q r) = ⊥
Reads (cleaned c n) = ⊥
Reads (status_set id s r) = ⊥
Reads _ = Unit

-- A call that reads, or that sets the status of the row `id` to `destroyed`.
abbrev pub Marks : Text → Event → Type 0
Marks id (recorded p r) = ⊥
Marks id (provisioned q r) = ⊥
Marks id (torn_down p q r) = ⊥
Marks id (cleaned c n) = ⊥
Marks id (status_set j s r) = (j ≡ id) × (s ≡ text "destroyed")
Marks id _ = Unit

-- A call that writes no row.
abbrev pub WritesNoRow : Event → Type 0
WritesNoRow (recorded p r) = ⊥
WritesNoRow _ = Unit

-- A worktree that was made is either in the store, or its removal was asked for.
unfoldable pub Accounted : Log → Type 0
Accounted l =
    (q : IsolationRequest) (env : WorktreeEnvironment)
    → Occurs (provisioned q (ok env)) l
    → ((p : CreateEnvironmentParams) × (row : IsolationEnvironmentRow) × Occurs
          (recorded p (ok row)) l
        × (p.working_path ≡ env.working_path)
        × (p.branch_name ≡ env.branch_name))
      ⊎ ((d : DestroyOptions) × (r : Result IsolationError Done) × Occurs
            (torn_down env.working_path d r) l)

-- The worktree of the payload is on disk and belongs to the clone at `repo`.
abbrev pub Owned : Text → ResolvedPayload → Log → Type 0
Owned repo p l = Occurs (looked p.cwd (ok true)) l × Occurs (verified p.cwd repo (ok done)) l

-- The payload's row is what the store gave for the payload's path.
abbrev pub Stored : ResolvedPayload → Log → Type 0
Stored p l =
    (q : CreateEnvironmentParams) × Occurs (recorded q (ok p.env)) l × (q.working_path ≡ p.cwd)

abbrev pub BackedBy : ResolutionMethod → Text → ResolvedPayload → Log → Type 0
BackedBy existing repo p l = ⊥
BackedBy workflow_reuse repo p l = (p.cwd ≡ p.env.working_path) × Owned repo p l
BackedBy (linked_issue_reuse n) repo p l = (p.cwd ≡ p.env.working_path) × Owned repo p l
BackedBy (branch_adoption b) repo p l = Owned repo p l × Stored p l
BackedBy (created n) repo p l =
    ((q : IsolationRequest) × (env : WorktreeEnvironment) × Occurs (provisioned q (ok env)) l
      × (env.working_path ≡ p.cwd))
    × Stored p l

-- An explicit environment is taken as it is: its worktree is on disk.
abbrev pub InPlace : Text → ResolvedPayload → Log → Type 0
InPlace id p l =
    (p.method ≡ existing)
    × (p.cwd ≡ p.env.working_path)
    × Occurs (fetched id (ok (some p.env))) l
    × Occurs (looked p.cwd (ok true)) l

-- The whole of what a resolution promises.
unfoldable pub Promise : ResolveRequest → Result IsolationError IsolationResolution → Log → Type 0
Promise q (err e) l = Accounted l
Promise q (ok (resolved p)) l =
    Accounted l
    × (((id : Text) × (q.existing_env_id ≡ some id) × InPlace id p l × All Quiet l)
        ⊎ ((c : CodebaseSummary) × (repo : Text) × (q.existing_env_id ≡ none)
            × (q.codebase ≡ some c)
            × Occurs (canonical_asked c.default_cwd (ok repo)) l
            × BackedBy p.method repo p l))
Promise q (ok (stale_cleaned id)) l =
    (q.existing_env_id ≡ some id)
    × All Quiet l
    × (Occurs (fetched id (ok none)) l
        ⊎ ((r : Result IsolationError Done) × Occurs (status_set id (text "destroyed") r) l))
Promise q (ok (no_isolation c)) l = (q.codebase ≡ none) × (l ≡ [])
Promise q (ok (blocked w m)) l = Accounted l × All WritesNoRow l

-- What one of the stages promises that look for something to take over.
unfoldable pub StagePromise :
    Text → Result IsolationError (Option IsolationResolution) → Log → Type 0
StagePromise repo (err e) l = Accounted l
StagePromise repo (ok none) l = All Quiet l
StagePromise repo (ok (some (resolved p))) l = Accounted l × BackedBy p.method repo p l
StagePromise repo (ok (some _)) l = ⊥

pub Occurs-left : (e : Event) (a b : Log) → Occurs e a → Occurs e (a ++ b)
Occurs-left e [] b h = elim h [ ]
Occurs-left e (x ∷ a) b (inl h) = inl h
Occurs-left e (x ∷ a) b (inr h) = inr (Occurs-left e a b h)

pub Occurs-right : (e : Event) (a b : Log) → Occurs e b → Occurs e (a ++ b)
Occurs-right e [] b h = h
Occurs-right e (x ∷ a) b h = inr (Occurs-right e a b h)

pub Occurs-split : (e : Event) (a b : Log) → Occurs e (a ++ b) → Occurs e a ⊎ Occurs e b
Occurs-split e [] b h = inr h
Occurs-split e (x ∷ a) b (inl h) = inl (inl h)
Occurs-split e (x ∷ a) b (inr h) = elim (Occurs-split e a b h) [
  | inl g ↦ inl (inr g)
  | inr g ↦ inr g
]

pub Occurs-All {κ} : (P : Event → Type κ) (e : Event) (l : Log) → Occurs e l → All P l → P e
Occurs-All P e [] h a = elim h [ ]
Occurs-All P e (x ∷ l) (inl h) a = subst P (sym h) a.0
Occurs-All P e (x ∷ l) (inr h) a = Occurs-All P e l h a.1

Quiet-WritesNoRow : (e : Event) → Quiet e → WritesNoRow e
Quiet-WritesNoRow e h = ground arith

Reads-Quiet : (e : Event) → Reads e → Quiet e
Reads-Quiet e h = ground arith

pub All-Reads-Quiet : (l : Log) → All Reads l → All Quiet l
All-Reads-Quiet [] a = _
All-Reads-Quiet (e ∷ l) a = (Reads-Quiet e a.0, All-Reads-Quiet l a.1)

Reads-Marks : (id : Text) (e : Event) → Reads e → Marks id e
Reads-Marks id e h = ground arith

pub All-Reads-Marks : (id : Text) (l : Log) → All Reads l → All (Marks id) l
All-Reads-Marks id [] a = _
All-Reads-Marks id (e ∷ l) a = (Reads-Marks id e a.0, All-Reads-Marks id l a.1)

Marks-Quiet : (id : Text) (e : Event) → Marks id e → Quiet e
Marks-Quiet id e h = ground arith

pub All-Marks-Quiet : (id : Text) (l : Log) → All (Marks id) l → All Quiet l
All-Marks-Quiet id [] a = _
All-Marks-Quiet id (e ∷ l) a = (Marks-Quiet id e a.0, All-Marks-Quiet id l a.1)

pub All-WritesNoRow : (l : Log) → All Quiet l → All WritesNoRow l
All-WritesNoRow [] a = _
All-WritesNoRow (e ∷ l) a = (Quiet-WritesNoRow e a.0, All-WritesNoRow l a.1)

pub All-Accounted : (l : Log) → All Quiet l → Accounted l
unfolding Accounted
All-Accounted l a q env h = absurd (Occurs-All Quiet (provisioned q (ok env)) l h a)

-- Earlier calls that are quiet change none of the promises.
pub Accounted-append : (new old : Log) → Accounted new → All Quiet old → Accounted (new ++ old)
unfolding Accounted
Accounted-append new old k a q env h = elim (Occurs-split (provisioned q (ok env)) new old h) [
  | inr g ↦ elim (Occurs-All Quiet (provisioned q (ok env)) old g a) [ ]
  | inl g ↦ elim (k q env g) [
    | inl s ↦ inl (s.0, s.1, Occurs-left (recorded s.0 (ok s.1)) new old s.2, s.3, s.4)
    | inr s ↦ inr (s.0, s.1, Occurs-left (torn_down env.working_path s.0 s.1) new old s.2)
  ]
]

Owned-append :
    (repo : Text) (p : ResolvedPayload) (new old : Log)
    → Owned repo p new
    → Owned repo p (new ++ old)
Owned-append repo p new old h = (
  Occurs-left (looked p.cwd (ok true)) new old h.0,
  Occurs-left (verified p.cwd repo (ok done)) new old h.1,
)

Stored-append : (p : ResolvedPayload) (new old : Log) → Stored p new → Stored p (new ++ old)
Stored-append p new old h = (h.0, Occurs-left (recorded h.0 (ok p.env)) new old h.1, h.2)

pub BackedBy-append :
    (m : ResolutionMethod) (repo : Text) (p : ResolvedPayload) (new old : Log)
    → BackedBy m repo p new
    → BackedBy m repo p (new ++ old)
BackedBy-append existing repo p new old h = h
BackedBy-append workflow_reuse repo p new old h = (h.0, Owned-append repo p new old h.1)
BackedBy-append (linked_issue_reuse n) repo p new old h = (h.0, Owned-append repo p new old h.1)
BackedBy-append (branch_adoption b) repo p new old h =
    (Owned-append repo p new old h.0, Stored-append p new old h.1)
BackedBy-append (created n) repo p new old h = (
  (h.0.0, h.0.1, Occurs-left (provisioned h.0.0 (ok h.0.1)) new old h.0.2, h.0.3),
  Stored-append p new old h.1,
)

pub StagePromise-append :
    (repo : Text) (r : Result IsolationError (Option IsolationResolution)) (new old : Log)
    → StagePromise repo r new
    → All Quiet old
    → StagePromise repo r (new ++ old)
unfolding StagePromise
StagePromise-append repo (err e) new old h a = Accounted-append new old h a
StagePromise-append repo (ok none) new old h a = All-append Quiet new old h a
StagePromise-append repo (ok (some (resolved p))) new old h a =
    (Accounted-append new old h.0 a, BackedBy-append p.method repo p new old h.1)
StagePromise-append repo (ok (some (stale_cleaned i))) new old h a = h
StagePromise-append repo (ok (some (no_isolation c))) new old h a = h
StagePromise-append repo (ok (some (blocked w m))) new old h a = h
