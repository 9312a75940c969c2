-- ===== src/Dag/Retry/Bounds.antt =====
-- How the attempt loop of crates/har-dag-executor/src/dag_executor.rs ends: which attempt is the
-- last, what was slept before it, and bounds for a configuration that validation accepts.
use native.Mathlib.Decide.{ℕ_discrete}
use mathlib.Core.Path.{subst}
use harness_agent_rs.Prelude.{
  ◌≢◌, ◌↔◌, ℕ, zero, suc, ◌+◌, ◌-◌, ◌*◌, ◌^◌, ◌≤◌, ◌<◌, ◌≡◌, min, refl, ap, inl, inr, ◌⊎◌, true,
  false, Option, none, some, List, [], ◌∷◌, arith, Text, leb, Bool-cases,
}
use harness_agent_rs.Schema.Node.{OnError, all, transient, StepRetryConfig, validate}
use harness_agent_rs.Errors.{ErrorType, classify_error}
use harness_agent_rs.Dag.Retry.Delays.{delay_of-doubled}
use harness_agent_rs.Dag.Retry.{
  ExecutionState, completed, failed, RetryConfig, effective, NodeExecutionResult, is_failed,
  delay_of, should_retry, attempts, execute_with_retries, not_executed, slept,
}

-- The errors that are retried: under `all` those that are not fatal, also a missing one; under
-- `transient` those that are transient.
abbrev pub Retryable : (Text → Text) → OnError → Option Text → Type 0
Retryable to_lowercase all none = Unit
Retryable to_lowercase all (some e) = classify_error to_lowercase e ≢ ErrorType.fatal
Retryable to_lowercase transient none = ⊥
Retryable to_lowercase transient (some e) = classify_error to_lowercase e ≡ ErrorType.transient

should_retry_iff :
    (to_lowercase : Text → Text) (o : OnError) (e : Option Text)
    → (should_retry to_lowercase o e ≡ true) ↔ Retryable to_lowercase o e
unfolding should_retry
should_retry_iff to_lowercase all none = (λ h. tt, λ h. refl)
should_retry_iff to_lowercase all (some e) = (λ h. ground arith, λ h. ground arith)
should_retry_iff to_lowercase transient none = (λ h. ground arith, λ h. absurd h)
should_retry_iff to_lowercase transient (some e) = (λ h. ground arith, λ h. ground arith)

when_failed : (s : ExecutionState) → is_failed s ≡ true → s ≡ failed
unfolding is_failed
when_failed failed h = refl
when_failed completed h = cc

when_done : (s : ExecutionState) → is_failed s ≡ false → s ≡ completed
unfolding is_failed
when_done completed h = refl
when_done failed h = cc

-- The delays after `k` attempts, from the attempt `i` on: the configured one, doubled each time, and
-- cut off at the greatest number of 64 bits.
abbrev pub delays_from : RetryConfig → ℕ → ℕ → List ℕ
delays_from c i zero = []
delays_from c i (suc k) = min (c.delay_ms * 2 ^ i) (2 ^ 64 - 1) ∷ delays_from c (i + 1) k

module _ (to_lowercase : Text → Text) (c : RetryConfig) (execute : ℕ → NodeExecutionResult) where
  -- An attempt that is followed by another.
  abbrev pub Retried : ℕ → Type 0
  Retried j = ((execute j).state ≡ failed) × Retryable to_lowercase c.on_error (execute j).error

  -- An attempt that is the last.
  abbrev pub Stops : ℕ → Type 0
  Stops n =
      ((execute n).state ≡ completed)
      ⊎ ((¬ Retryable to_lowercase c.on_error (execute n).error) ⊎ (n ≡ c.max_retries))

  -- `k` attempts that failed and were retried, and then the attempt `n`, whose result it is.
  abbrev pub Ends : ℕ → NodeExecutionResult × List ℕ → Type 0
  Ends i p =
      (k : ℕ) × (n : ℕ) × (n ≡ i + k)
      × (n ≤ c.max_retries)
      × (p.0 ≡ execute n)
      × (p.1 ≡ delays_from c i k)
      × ((j : ℕ) → i ≤ j → j < n → Retried j)
      × Stops n

  Ends-here :
      (left i : ℕ) (last : NodeExecutionResult)
      → i ≤ c.max_retries
      → Stops i
      → attempts to_lowercase c execute (suc left) i last ≡ (execute i, [])
      → Ends i (attempts to_lowercase c execute (suc left) i last)
  Ends-here left i last h s e =
      (0, i, omega arith, h, rw e refl, rw e refl, λ j a b. absurd (omega arith), s)

  first-Retried :
      (i n : ℕ)
      → Retried i
      → ((j : ℕ) → i + 1 ≤ j → j < n → Retried j)
      → (j : ℕ) → i ≤ j
      → j < n
      → Retried j
  first-Retried i n r rest j a b = elim (ℕ_discrete i j) [
    | yes e ↦ subst Retried e r
    | no e ↦ rest j (omega arith) b
  ]

  Ends-later :
      (left i : ℕ) (last : NodeExecutionResult)
      → c.max_retries ≤ 64
      → i < c.max_retries
      → Retried i
      → attempts to_lowercase c execute (suc left) i last
        ≡ slept (delay_of c i) (attempts to_lowercase c execute left (i + 1) (execute i))
      → Ends (i + 1) (attempts to_lowercase c execute left (i + 1) (execute i))
      → Ends i (attempts to_lowercase c execute (suc left) i last)
  Ends-later left i last few l r e (k, n, a, b, result, delays, rest, stops) = (
    suc k,
    n,
    omega arith,
    b,
    rw e result,
    rw (e, delay_of-doubled c i (omega arith))
        (ap (λ l. min (c.delay_ms * 2 ^ i) (2 ^ 64 - 1) ∷ l) delays),
    first-Retried i n r rest,
    stops,
  )

  step-Ends :
      (left i : ℕ) (last : NodeExecutionResult)
      → c.max_retries ≤ 64
      → i ≤ c.max_retries
      → (leb c.max_retries i ≡ false
          → Ends (i + 1) (attempts to_lowercase c execute left (i + 1) (execute i)))
      → Ends i (attempts to_lowercase c execute (suc left) i last)
  unfolding attempts
  step-Ends left i last few h more = elim (Bool-cases (is_failed (execute i).state)) [
    | inr f ↦ Ends-here left i last h (inl (when_done (execute i).state f)) (rw f refl)
    | inl f ↦ elim (Bool-cases (should_retry to_lowercase c.on_error (execute i).error)) [
      | inr s ↦
          Ends-here left i last h
            (inr (
              inl (λ t.
                ground
                  (arith, s, (should_retry_iff to_lowercase c.on_error (execute i).error).1 t))))
            (rw (f, s) refl)
      | inl s ↦ elim (Bool-cases (leb c.max_retries i)) [
        | inl m ↦ Ends-here left i last h (inr (inr (ground arith))) (rw (f, s, m) refl)
        | inr m ↦
            Ends-later left i last few (ground arith)
              (
                when_failed (execute i).state f,
                (should_retry_iff to_lowercase c.on_error (execute i).error).0 s,
              )
              (rw (f, s, m) refl) (more m)
      ]
    ]
  ]

  attempts-Ends :
      (left i : ℕ) (last : NodeExecutionResult)
      → c.max_retries ≤ 64
      → left + i ≡ c.max_retries
      → Ends i (attempts to_lowercase c execute (suc left) i last)
  attempts-Ends zero i last few h =
      step-Ends zero i last few (omega arith) (λ m. absurd (ground arith))
  attempts-Ends (suc left) i last few h =
      step-Ends (suc left) i last few (omega arith)
        (λ m. attempts-Ends left (i + 1) (execute i) few (omega arith))

  -- With at most 64 retries, a node is executed at most once more than its retries allow. The result
  -- is that of the last attempt, which did not fail, failed with an error that is not retried, or was
  -- the last allowed; each attempt before failed with an error that is retried. After the attempt `i`
  -- the executor sleeps for the configured delay times `2 ^ i`, cut off at 64 bits.
  pub execute_with_retries_lem :
      c.max_retries ≤ 64 → Ends 0 (execute_with_retries to_lowercase c execute)
  unfolding execute_with_retries
  execute_with_retries_lem few = attempts-Ends c.max_retries 0 not_executed few (omega arith)

-- The sum of the delays.
pub slept_in_all : List ℕ → ℕ
slept_in_all [] = 0
slept_in_all (d ∷ ds) = d + slept_in_all ds

accepted :
    (r : StepRetryConfig)
    → validate r ≡ []
    → ((effective (some r)).max_retries ≤ 5) × ((effective (some r)).delay_ms ≤ 60000)
unfolding validate effective
accepted r v = (ground arith, ground arith)

delay_exact :
    (c : RetryConfig) (i : ℕ) → c.delay_ms ≤ 60000 → i < 5 → delay_of c i ≡ c.delay_ms * 2 ^ i
unfolding delay_of
delay_exact c zero h l = omega arith
delay_exact c (suc zero) h l = omega arith
delay_exact c (suc (suc zero)) h l = omega arith
delay_exact c (suc (suc (suc zero))) h l = omega arith
delay_exact c (suc (suc (suc (suc zero)))) h l = omega arith
delay_exact c (suc (suc (suc (suc (suc i))))) h l = absurd (omega arith)

slept-le :
    (c : RetryConfig) (k : ℕ)
    → c.delay_ms ≤ 60000
    → k ≤ 5
    → slept_in_all (delays_from c 0 k) ≤ 1860000
unfolding slept_in_all delay_of
slept-le c zero h l = omega arith
slept-le c (suc zero) h l = omega arith
slept-le c (suc (suc zero)) h l = omega arith
slept-le c (suc (suc (suc zero))) h l = omega arith
slept-le c (suc (suc (suc (suc zero)))) h l = omega arith
slept-le c (suc (suc (suc (suc (suc zero))))) h l = omega arith
slept-le c (suc (suc (suc (suc (suc (suc k)))))) h l = absurd (omega arith)

-- With a configuration that validation accepts, the result is that of one of the first six attempts,
-- the delays before it are the configured ones, and they come to 31 minutes at most.
pub accepted_config_bounds :
    (to_lowercase : Text → Text) (r : StepRetryConfig) (execute : ℕ → NodeExecutionResult)
    → validate r ≡ []
    → (k : ℕ) × (k ≤ 5)
      × ((execute_with_retries to_lowercase (effective (some r)) execute).0 ≡ execute k)
      × ((execute_with_retries to_lowercase (effective (some r)) execute).1
          ≡ delays_from (effective (some r)) 0 k)
      × (slept_in_all (execute_with_retries to_lowercase (effective (some r)) execute).1 ≤ 1860000)
accepted_config_bounds to_lowercase r execute v =
    let c : RetryConfig = effective (some r) in
    let b = accepted r v in
    let (k, n, a, m, result, delays, rest, stops) =
      execute_with_retries_lem to_lowercase c execute (omega arith) in
    let e : n ≡ k = omega arith in
    (k, omega arith, rw (← e) result, delays, rw delays (slept-le c k b.1 (omega arith)))

-- With such a configuration the delay after an attempt is the configured one, doubled each time: it is
-- never cut off at 64 bits.
pub delay_of-doubles :
    (r : StepRetryConfig) (i : ℕ)
    → validate r ≡ []
    → i < (effective (some r)).max_retries
    → delay_of (effective (some r)) i ≡ (effective (some r)).delay_ms * 2 ^ i
delay_of-doubles r i v h =
    let b = accepted r v in delay_exact (effective (some r)) i b.1 (omega arith)
