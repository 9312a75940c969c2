-- ===== src/RunStore/Locking.antt =====
-- The lock on a working path, crates/har-db/src/workflows.rs: a dispatch goes on exactly if
-- `get_active_workflow_run_by_path` finds no other run, and two dispatches agree on who is first.
use mathlib.Core.List.{Memᴰ}
use harness_agent_rs.Prelude.{
  ℕ, ◌≡◌, refl, sym, inl, inr, ◌⊎◌, Bool, true, false, not, ◌&&◌, Option, none, some, [], ◌∷◌,
  arith, Text, text_eq, text_eq_iff, Bool-cases, ok, keep,
}
use harness_agent_rs.RunStore.Table.{Run, Table}
use harness_agent_rs.RunStore.Queries.{
  Dialect, ActiveRunSelf, text_lt, pick, first_by, starts_before, holds_lock, is_older_than,
  get_active_workflow_run_by_path,
}

abbrev pub self_of : Run → ActiveRunSelf
self_of r = record { id = r.id; started_at = r.started_at }

text_lt-total : (s t : Text) → text_eq s t ≡ false → text_lt s t ≡ not (text_lt t s)
unfolding text_lt text_eq
text_lt-total [] [] h = cc
text_lt-total [] (b ∷ t) h = refl
text_lt-total (a ∷ s) [] h = refl
text_lt-total (a ∷ s) (b ∷ t) h = ground (arith, text_lt-total s t)

text_eq-false_sym : (s t : Text) → text_eq s t ≡ false → text_eq t s ≡ false
text_eq-false_sym s t h = ground (arith, text_eq_iff s t, text_eq_iff t s)

pick-cases : (s r : Run) (o : Option Run) → pick starts_before s o ≡ some r → (s ≡ r) ⊎ (o ≡ some r)
unfolding pick
pick-cases s r none h = inl (cc)
pick-cases s r (some u) h = ground arith

picked :
    (p : Run → Bool) (s : Run) (t : Table) (r : Run)
    → p s ≡ true
    → pick starts_before s (first_by starts_before (keep p t)) ≡ some r
    → (first_by starts_before (keep p t) ≡ some r → Memᴰ r t × (p r ≡ true))
    → Memᴰ r (s ∷ t) × (p r ≡ true)
picked p s t r c h rest = elim (pick-cases s r (first_by starts_before (keep p t)) h) [
  | inl e ↦ (Memᴰ.head (sym e), rw (← e) c)
  | inr e ↦ let (m, f) = rest e in (Memᴰ.tail m, f)
]

-- The row that a query returns is one that it selects.
first-keep :
    (p : Run → Bool) (t : Table) (r : Run)
    → first_by starts_before (keep p t) ≡ some r
    → Memᴰ r t × (p r ≡ true)
unfolding first_by
first-keep p [] r h = cc
first-keep p (s ∷ t) r h = elim (Bool-cases (p s)) [
  | inl c ↦ picked p s t r c (rw c at h) (first-keep p t r)
  | inr c ↦ let (m, e) = first-keep p t r (rw c at h) in (Memᴰ.tail m, e)
]

module _ (datetime : ℕ → ℕ) (d : Dialect) where
  -- Of two runs with different ids exactly one is older than the other.
  pub older-total :
      (a b : Run)
      → text_eq a.id b.id ≡ false
      → is_older_than datetime d (some (self_of a)) b
        ≡ not (is_older_than datetime d (some (self_of b)) a)
  unfolding is_older_than
  older-total a b h = ground (arith, text_lt-total b.id a.id, text_eq-false_sym a.id b.id)

  -- A run that the query returns is in the table, holds a lock and is another, older run than the one
  -- that asks.
  pub active_run-IsOlder :
      (now : ℕ) (p : Text) (t : Table) (self : Option ActiveRunSelf) (r : Run)
      → get_active_workflow_run_by_path datetime d now none p self t ≡ ok (some r)
      → Memᴰ r t × (holds_lock now r ≡ true) × (is_older_than datetime d self r ≡ true)
  unfolding get_active_workflow_run_by_path
  active_run-IsOlder now p t self r h =
      let (m, c) =
        first-keep (λ s. holds_lock now s && is_older_than datetime d self s) t r (cc h) in
      (m, ground arith, ground arith)
