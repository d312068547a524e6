-- ===== src/Resilience/Breaker/Invariant.antt =====
-- What holds of a breaker between two events, whatever callers do at the same time.
use syntor.Common.{ℕ, ◌≤◌, ◌<◌, ◌≡◌, ◌≢◌, List, [], ◌∷◌, none, some, arith}
use syntor.Resilience.Breaker.{closed, half_open, Config, CircuitBreaker, new}
use syntor.Resilience.Breaker.Calls.{Event, request, result, step, run}

pub record IsValid (cb : CircuitBreaker) : Type 0 where
  pub below_failures : cb.state ≡ closed → cb.failure_count < cb.failure_threshold
  pub below_successes : cb.state ≡ half_open → cb.success_count < cb.success_threshold
  pub no_successes : cb.state ≢ half_open → cb.success_count ≡ 0
  pub capped_calls : 0 < cb.half_open_max_calls → cb.half_open_calls ≤ cb.half_open_max_calls

new-IsValid : (c : Config) (now : ℕ) → 0 < c.failure_threshold → IsValid (new c now)
unfolding new
new-IsValid c now h = ground arith

-- No event changes the configuration.
step-config : (cb : CircuitBreaker) (e : ℕ × Event) → (step cb e).config ≡ cb.config
unfolding step
step-config cb (now, request) = ground arith
step-config cb (now, result outcome) = ground arith
step-config cb (now, _) = ground arith

-- One event keeps the invariant.
step-IsValid :
    (cb : CircuitBreaker) (e : ℕ × Event)
    → 0 < cb.failure_threshold
    → 0 < cb.success_threshold
    → IsValid cb
    → IsValid (step cb e)
unfolding step
step-IsValid cb (now, request) h k v = ground arith
step-IsValid cb (now, result none) h k v = ground arith
step-IsValid cb (now, result (some err)) h k v = ground arith
step-IsValid cb (now, _) h k v = ground arith

run-IsValid :
    (cb : CircuitBreaker) (es : List (ℕ × Event))
    → 0 < cb.failure_threshold
    → 0 < cb.success_threshold
    → IsValid cb
    → IsValid (run cb es)
unfolding run
run-IsValid cb [] h k v = v
run-IsValid cb (e ∷ es) h k v =
    run-IsValid (step cb e) es (rw (step-config cb e) h) (rw (step-config cb e) k)
      (step-IsValid cb e h k v)

-- Where both thresholds are positive, after any history of requests, results, resets and forced
-- openings from a new breaker: while closed the failure count is below the failure threshold,
-- while half-open the success count is below the success threshold, in the other states the
-- success count is 0, and if the half-open maximum is positive the half-open calls do not exceed
-- it.
pub run-new-IsValid :
    (c : Config) (now : ℕ) (es : List (ℕ × Event))
    → 0 < c.failure_threshold
    → 0 < c.success_threshold
    → IsValid (run (new c now) es)
unfolding new
run-new-IsValid c now es h k = run-IsValid (new c now) es h k (new-IsValid c now h)
