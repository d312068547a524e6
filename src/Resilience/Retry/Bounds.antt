-- ===== src/Resilience/Retry/Bounds.antt =====
-- How often a retried function runs, and how long the waits are together.
use syntor.Common.{
  ℕ, zero, suc, ◌+◌, ◌-◌, ◌*◌, ◌≤◌, ◌<◌, ◌≡◌, Bool, inl, inr, some, Option-cases, arith,
}
use syntor.Resilience.Retry.{
  Floats, RetryConfig, RetryResult, failed, Run, backoff, delay_after, delayed, loop, no_result,
  execute,
}

module _ (F : Floats) {E : Type 0} (is : E → E → Bool) (c : RetryConfig F E) (run : Run F E) where
  delay_after-le :
      (k : ℕ) → c.max_delay < 9_007_199_254_740_992 → delay_after F is c run k ≤ c.max_delay
  unfolding delay_after
  delay_after-le k h = ground (
    arith,
    F.gt_irrefl (F.of_int c.max_delay),
    F.to_duration-le (F.of_int c.max_delay) c.max_delay h,
    F.to_duration-le (backoff F c k (run.draw k)) c.max_delay h,
  )

  delayed-le :
      (attempt left total : ℕ)
      → c.max_delay < 9_007_199_254_740_992
      → attempt + suc left ≡ suc c.max_attempts
      → delayed F is c run attempt total + (left - 1) * c.max_delay ≤ total + left * c.max_delay
  delayed-le attempt zero total h e = ground arith
  delayed-le attempt (suc left) total h e = ground (arith, delay_after-le attempt h)

  loop_bounds :
      (left attempt : ℕ) (result : RetryResult E) (total : ℕ)
      → c.max_delay < 9_007_199_254_740_992
      → attempt + left ≡ suc c.max_attempts
      → result.attempts < attempt
      → let r = loop F is c run left attempt result total in
        (r.attempts ≤ c.max_attempts) × (r.total_delay ≤ total + (left - 1) * c.max_delay)
  unfolding loop
  loop_bounds zero attempt result total h e a = (omega arith, omega arith)
  loop_bounds (suc left) attempt result total h e a = elim (Option-cases (run.fn attempt)) [
    | inl ok ↦ ground arith
    | inr (err, bad) ↦ ground (
      arith,
      loop_bounds left (attempt + 1)
          (record result { attempts = attempt; last_error = some (failed err) })
          (delayed F is c run attempt total) h (omega arith) (omega arith),
      delayed-le attempt left total h e,
    )
  ]

  -- Where the maximal delay is below 2 ^ 53 nanoseconds, Execute makes at most the maximal number
  -- of attempts, and its delays together are at most one maximal delay for each attempt but one,
  -- whatever the function, the context and the random draws do.
  pub execute_bounds :
      c.max_delay < 9_007_199_254_740_992
      → ((execute F is c run).attempts ≤ c.max_attempts)
        × ((execute F is c run).total_delay ≤ (c.max_attempts - 1) * c.max_delay)
  unfolding execute
  execute_bounds h =
      let (a, d) =
        loop_bounds c.max_attempts 1 (no_result F is c run) 0 h (omega arith) (omega arith) in
      (a, omega (arith, d))
