-- ===== src/RunStore/Matching.antt =====
-- How many rows a guarded update of crates/har-db/src/workflows.rs matches where ids are unique, for
-- the update of `resume_workflow_run`, and what its statements answer.
use harness_agent_rs.Prelude.{
  ℕ, ◌≤◌, ◌≡◌, ◌≢◌, inl, inr, refl, true, false, Bool-cases, Option-cases, Option, none, some, [],
  ◌∷◌, arith, Text, text_eq, text_eq_iff, if◌then◌else◌, ok, err,
}
use harness_agent_rs.RunStore.Table.{
  Run, Table, StoreError, update_where, count_where, select_by_id, has_id, resumable_status_clause,
}
use harness_agent_rs.RunStore.Transitions.{resumable_with_id}
use harness_agent_rs.RunStore.Queries.{
  set_resumed, resume_workflow_run, resume_cas_miss_probe, read_back, or_vanished,
}

-- The primary key: at most one row has the id.
abbrev pub IsUnique : Text → Table → Type 0
IsUnique k t = count_where (has_id k) t ≤ 1

module _ (k : Text) where
  pub absent-select : (t : Table) → count_where (has_id k) t ≡ 0 → select_by_id k t ≡ none
  unfolding count_where has_id select_by_id
  absent-select [] h = refl
  absent-select (r ∷ t) h = ground (arith, absent-select t)

  pub absent-count :
      (now : ℕ) (t : Table)
      → count_where (has_id k) t ≡ 0
      → count_where (resumable_with_id now k) t ≡ 0
  unfolding count_where has_id resumable_with_id
  absent-count now [] h = refl
  absent-count now (r ∷ t) h = ground (arith, absent-count now t)

  pub absent-update :
      (now : ℕ) (t : Table)
      → count_where (has_id k) t ≡ 0
      → update_where (resumable_with_id now k) (set_resumed now) t ≡ t
  unfolding count_where has_id resumable_with_id update_where
  absent-update now [] h = refl
  absent-update now (r ∷ t) h = ground (arith, absent-update now t)

  -- How many rows the update matches, where the id is unique.
  pub count-select :
      (now : ℕ) (t : Table) (r : Run)
      → IsUnique k t
      → select_by_id k t ≡ some r
      → count_where (resumable_with_id now k) t ≡ (if resumable_status_clause now r then 1 else 0)
  unfolding count_where has_id resumable_with_id select_by_id
  count-select now [] r u h = cc
  count-select now (s ∷ t) r u h = ground (arith, count-select now t r, absent-count now t)

  pub select-update :
      (now : ℕ) (t : Table) (r : Run)
      → select_by_id k t ≡ some r
      → resumable_status_clause now r ≡ true
      → select_by_id k (update_where (resumable_with_id now k) (set_resumed now) t)
        ≡ some (set_resumed now r)
  unfolding has_id resumable_with_id select_by_id update_where set_resumed
  select-update now [] r h c = cc
  select-update now (s ∷ t) r h c = ground (arith, select-update now t r)

  pub count_id-update :
      (now : ℕ) (t : Table)
      → count_where (has_id k) (update_where (resumable_with_id now k) (set_resumed now) t)
        ≡ count_where (has_id k) t
  unfolding count_where has_id resumable_with_id update_where set_resumed
  count_id-update now [] = refl
  count_id-update now (s ∷ t) = ground (arith, count_id-update now t)

  pub absent-count_of_select :
      (now : ℕ) (t : Table) → select_by_id k t ≡ none → count_where (resumable_with_id now k) t ≡ 0
  unfolding count_where has_id resumable_with_id select_by_id
  absent-count_of_select now [] h = refl
  absent-count_of_select now (r ∷ t) h = ground (arith, absent-count_of_select now t)

  pub other-update :
      (now : ℕ) (j : Text) (t : Table)
      → text_eq k j ≡ false
      → select_by_id j (update_where (resumable_with_id now k) (set_resumed now) t)
        ≡ select_by_id j t
  unfolding has_id resumable_with_id select_by_id update_where set_resumed
  other-update now j [] h = refl
  other-update now j (r ∷ t) h =
      ground
        (arith, other-update now j t h, text_eq_iff r.id j, text_eq_iff r.id k, text_eq_iff k j)

  pub refused :
      (now : ℕ) (t : Table)
      → count_where (resumable_with_id now k) t ≡ 0
      → resume_workflow_run now none none (λ u. u) k t ≡ (resume_cas_miss_probe none k t, t)
  unfolding resume_workflow_run
  refused now t h = rw h refl

  pub taken :
      (now : ℕ) (t : Table) (r : Run)
      → IsUnique k t
      → select_by_id k t ≡ some r
      → resumable_status_clause now r ≡ true
      → resume_workflow_run now none none (λ u. u) k t
        ≡ (ok (set_resumed now r), update_where (resumable_with_id now k) (set_resumed now) t)
  unfolding resume_workflow_run read_back
  taken now t r u h c = rw (count-select now t r u h, c, select-update now t r h c) refl

  pub matched-found :
      (now : ℕ) (t : Table)
      → IsUnique k t
      → count_where (resumable_with_id now k) t ≢ 0
      → (r : Run) × (select_by_id k t ≡ some r) × (resumable_status_clause now r ≡ true)
  matched-found now t u h = elim (Option-cases (select_by_id k t)) [
    | inl e ↦ absurd (h (absent-count_of_select now t e))
    | inr (r, e) ↦ elim (Bool-cases (resumable_status_clause now r)) [
      | inl c ↦ (r, e, c)
      | inr c ↦ absurd (h (rw (count-select now t r u e, c) refl))
    ]
  ]

  pub read_back-ok :
      (fault : Option Text) (t : Table) (r : Run)
      → read_back fault k t ≡ ok r
      → select_by_id k t ≡ some r
  unfolding read_back or_vanished
  read_back-ok (some e) t r h = cc
  read_back-ok none t r h = ground (arith, h)

  pub probe-err :
      (fault : Option Text) (t : Table)
      → (e : StoreError) × (resume_cas_miss_probe fault k t ≡ err e)
  unfolding resume_cas_miss_probe
  probe-err (some x) t = (_, refl)
  probe-err none t = (_, refl)
