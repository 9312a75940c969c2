-- ===== src/Dag/Retry/Delays.antt =====
-- The delay after an attempt, `retry_config.delay_ms.saturating_mul(2u64.pow(attempt))` in
-- crates/har-dag-executor/src/dag_executor.rs, where the power fits into 64 bits.
use mathlib.Core.Path.{subst}
use harness_agent_rs.Prelude.{
  ℕ, zero, suc, ◌+◌, ◌-◌, ◌%◌, ◌*◌, ◌^◌, ◌≤◌, ◌<◌, ◌≡◌, min, refl, arith,
}
use harness_agent_rs.Dag.Retry.{RetryConfig, delay_of, saturating_mul}

pow_pos : (k : ℕ) → 1 ≤ 2 ^ k
pow_pos zero = omega arith
pow_pos (suc k) = let rest = pow_pos k in omega arith

pow-lt : (i k : ℕ) → 2 ^ i < 2 ^ suc (k + i)
pow-lt i zero = let p = pow_pos i in let e : 0 + i ≡ i = omega arith in rw e (omega arith)
pow-lt i (suc k) =
    let rest = pow-lt i k in let e : suc k + i ≡ suc (k + i) = omega arith in rw e (omega arith)

-- The wrap of the power is not met before attempt 64.
pub delay_of-doubled :
    (c : RetryConfig) (i : ℕ) → i < 64 → delay_of c i ≡ min (c.delay_ms * 2 ^ i) (2 ^ 64 - 1)
unfolding delay_of saturating_mul
delay_of-doubled c i h =
    let same_bits : suc (63 - i + i) ≡ 64 = omega arith in
    let below : 2 ^ i < 2 ^ 64 = subst (λ n. 2 ^ i < 2 ^ n) same_bits (pow-lt i (63 - i)) in
    let same : 2 ^ i % 2 ^ 64 ≡ 2 ^ i = grind arith in rw same refl
