-- ===== src/RunStore/Resumption.antt =====
-- Resuming a run with `resume_workflow_run` of crates/har-db/src/workflows.rs: one resume by itself, and
-- two resumes of one run.
use harness_agent_rs.Prelude.{
  ℕ, ◌+◌, ◌-◌, ◌*◌, ◌<◌, ◌≤◌, ◌≡◌, ◌==◌, ◌↔◌, ◌⊎◌, inl, inr, ◌++◌, refl, ◌∙◌, true, false,
  Bool-cases, Option-cases, Option, none, some, arith, Text, text, text_eq, Result, ok, err,
}
use harness_agent_rs.Schema.Run.{running, failed, paused, is_one_of}
use harness_agent_rs.RunStore.Table.{
  Run, Table, StoreError, db, update_where, count_where, select_by_id, has_id,
  resumable_status_clause, is_stale_since, orphan_resume_stale_days, status_to_str, day_ms,
}
use harness_agent_rs.RunStore.Transitions.{resumable_with_id}
use harness_agent_rs.RunStore.Matching.{
  IsUnique, refused, taken, matched-found, read_back-ok, probe-err, count-select, select-update,
  count_id-update, absent-count_of_select, other-update,
}
use harness_agent_rs.RunStore.Queries.{
  set_resumed, resume_workflow_run, resume_cas_miss_probe, read_back, miss,
}

-- Nothing was heard of the run for a day.
abbrev pub IsSilent : ℕ → Option ℕ → Type 0
IsSilent now none = Unit
IsSilent now (some at) = at + day_ms < now

-- A run may be resumed: it is failed, paused, or running without a sign of life.
abbrev pub MayResume : ℕ → Run → Type 0
MayResume now r =
    (r.status ≡ failed)
    ⊎ ((r.status ≡ paused) ⊎ ((r.status ≡ running) × IsSilent now r.last_activity_at))

-- The run as it is after a resume: running, without an end, started and heard of now.
abbrev pub restarted : ℕ → Run → Run
restarted now r = record r {
  status = running;
  completed_at = none;
  started_at = now;
  last_activity_at = some now;
}

-- What a resume of `k` reports and leaves.
abbrev pub Resumes : ℕ → Text → Table → Result StoreError Run × Table → Type 0
Resumes now k t (ok r', t') =
    (r : Run) × (select_by_id k t ≡ some r)
    × MayResume now r
    × (r' ≡ restarted now r)
    × (select_by_id k t' ≡ some r')
    × ((j : Text) → text_eq k j ≡ false → select_by_id j t' ≡ select_by_id j t)
Resumes now k t (err e, t') =
    (t' ≡ t)
    × (((select_by_id k t ≡ none) × (e ≡ db (text "Workflow run not found (id: " ++ k ++ text ")")))
        ⊎ ((r : Run) × (select_by_id k t ≡ some r)
            × (¬ MayResume now r)
            × (e
                ≡ db (
                    text "WorkflowNotResumableError(run_id="
                    ++ k
                    ++ text ", current_status="
                    ++ status_to_str r.status
                    ++ text ")"))))

is_stale_since_iff :
    (now : ℕ) (o : Option ℕ)
    → (is_stale_since (now - orphan_resume_stale_days * day_ms) o ≡ true) ↔ IsSilent now o
unfolding is_stale_since
is_stale_since_iff now none = (λ h. tt, λ h. refl)
is_stale_since_iff now (some at) = (λ h. ground arith, λ h. ground arith)

resumable_iff : (now : ℕ) (r : Run) → (resumable_status_clause now r ≡ true) ↔ MayResume now r
unfolding resumable_status_clause is_one_of
resumable_iff now r =
    let c = is_stale_since_iff now r.last_activity_at in
    (λ h. ground (arith, c), λ h. ground (arith, c))

module _ (k : Text) where
  absent-Resumes :
      (now : ℕ) (t : Table)
      → select_by_id k t ≡ none
      → Resumes now k t (resume_workflow_run now none none (λ u. u) k t)
  unfolding resume_cas_miss_probe miss
  absent-Resumes now t h =
      rw (refused k now t (absent-count_of_select k now t h), h) (refl, inl (refl, refl))

  found-Resumes :
      (now : ℕ) (t : Table) (r : Run)
      → IsUnique k t
      → select_by_id k t ≡ some r
      → Resumes now k t (resume_workflow_run now none none (λ u. u) k t)
  unfolding resume_cas_miss_probe miss
  found-Resumes now t r u h =
      let c = resumable_iff now r in
      elim (Bool-cases (resumable_status_clause now r)) [
        | inl e ↦ rw (taken k now t r u h e) (
          r,
          h,
          c.0 e,
          unfold set_resumed in refl,
          select-update k now t r h e,
          λ j ne. other-update k now j t ne,
        )
        | inr e ↦
            let none_matched : count_where (resumable_with_id now k) t ≡ 0 =
              rw (count-select k now t r u h, e) refl in
            rw (refused k now t none_matched)
              (rw h (refl, inr (r, refl, (λ m. ground (arith, e, c.1 m)), refl)))
      ]

  -- With a unique id, no fault and no write of others in between: a resume that succeeds found the run
  -- failed, paused, or running without a sign of life for more than a day; it returns and leaves it
  -- running, without an end, started and heard of now, and otherwise as it was, and every other id
  -- finds what it found before. A resume that fails leaves the table as it was, and reports that there
  -- is no such run, or the status of a run that is none of those.
  pub resume_workflow_run_lem :
      (now : ℕ) (t : Table)
      → IsUnique k t
      → Resumes now k t (resume_workflow_run now none none (λ u. u) k t)
  resume_workflow_run_lem now t u = elim (Option-cases (select_by_id k t)) [
    | inl h ↦ absent-Resumes now t h
    | inr (r, h) ↦ found-Resumes now t r u h
  ]

  resumed-is_fresh :
      (now later : ℕ) (r : Run)
      → later ≤ now + day_ms
      → resumable_status_clause later (set_resumed now r) ≡ false
  unfolding resumable_status_clause is_one_of set_resumed
  resumed-is_fresh now later r h = ground arith

  -- What others do to the table that leaves the row of the id as it is.
  abbrev pub SparesRow : (Table → Table) → Type 0
  SparesRow between =
      (t : Table)
      → (select_by_id k (between t) ≡ select_by_id k t)
        × (count_where (has_id k) (between t) ≡ count_where (has_id k) t)

  -- A resume that succeeds, whatever happens around it.
  won :
      (now : ℕ) (check fault : Option Text) (between : Table → Table) (t : Table) (r : Run)
      → IsUnique k t
      → SparesRow between
      → (resume_workflow_run now check fault between k t).0 ≡ ok r
      → (r' : Run) × (r ≡ set_resumed now r')
        × (select_by_id k (resume_workflow_run now check fault between k t).1 ≡ some r)
        × IsUnique k (resume_workflow_run now check fault between k t).1
  unfolding resume_workflow_run
  won now (some e) fault between t r u s h = cc
  won now none fault between t r u s h =
      let after = update_where (resumable_with_id now k) (set_resumed now) t in
      elim (Bool-cases (count_where (resumable_with_id now k) t == 0)) [
        | inl c ↦
            let (e, p) = probe-err k fault (between t) in
            let bad : resume_cas_miss_probe fault k (between t) ≡ ok r = rw c at h in
            absurd (ground (arith, p, bad))
        | inr c ↦
            let read : read_back fault k (between after) ≡ ok r = rw c at h in
            let found = read_back-ok k fault (between after) r read in
            let (r', e, m) = matched-found k now t u (λ z. ground (arith, z, c)) in
            let (same, count) = s after in
            rw c (
              r',
              ground (arith, found, same, select-update k now t r' e m),
              found,
              rw (count, count_id-update k now t) u,
            )
      ]

  -- A run that nothing matches is refused.
  lost :
      (later : ℕ) (check fault : Option Text) (between : Table → Table) (t : Table) (r : Run)
      → SparesRow between
      → select_by_id k t ≡ some r
      → count_where (resumable_with_id later k) t ≡ 0
      → (e : StoreError) × ((resume_workflow_run later check fault between k t).0 ≡ err e)
        × (select_by_id k (resume_workflow_run later check fault between k t).1 ≡ some r)
  unfolding resume_workflow_run
  lost later (some e) fault between t r s h z = (_, refl, h)
  lost later none fault between t r s h z =
      let (e, p) = probe-err k fault (between t) in rw z (e, p, (s t).0 ∙ h)

  -- Of two resumes of one run, the second at most a day after the first and on the table that the first
  -- left, the second is refused if the first succeeded, and the run stays as the first one got it. The
  -- id is unique; any statement of either may fail, and others may write in between, but not to the row
  -- of the run.
  pub resume_once :
      (now later : ℕ) (check fault check' fault' : Option Text) (between between' : Table → Table)
      (t : Table) (r : Run)
      → IsUnique k t
      → SparesRow between
      → SparesRow between'
      → later ≤ now + day_ms
      → (resume_workflow_run now check fault between k t).0 ≡ ok r
      → (e : StoreError) × ((resume_workflow_run later check' fault' between' k
            (resume_workflow_run now check fault between k t).1).0
          ≡ err e)
        × (select_by_id k
              (resume_workflow_run later check' fault' between' k
                (resume_workflow_run now check fault between k t).1).1
            ≡ some r)
  resume_once now later check fault check' fault' between between' t r u s s' d first =
      let (r', e, found, unique) = won now check fault between t r u s first in
      let after = (resume_workflow_run now check fault between k t).1 in
      let stale : resumable_status_clause later r ≡ false =
        rw e (resumed-is_fresh now later r' d) in
      lost later check' fault' between' after r s' found
        (rw (count-select k later after r unique found, stale) refl)
