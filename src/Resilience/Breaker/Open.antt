-- ===== src/Resilience/Breaker/Open.antt =====
-- When a breaker opens, and what an open breaker does.
use syntor.Common.{
  ℕ, ◌+◌, ◌≤◌, ◌<◌, ◌≡◌, refl, List, [], ◌∷◌, none, some, All, length, ltb, Bool-cases, inl, inr,
  tests, arith,
}
use syntor.Resilience.Breaker.{closed, open_, Error, circuit_open, CircuitBreaker, allow_request}
use syntor.Resilience.Breaker.Calls.{Event, request, result, resets, forces_open, step, run}

-- A request before the deadline, or a late report of a result at any time.
abbrev pub BeforeTimeout : ℕ → ℕ × Event → Type 0
BeforeTimeout deadline (now, request) = now < deadline
BeforeTimeout deadline (now, result outcome) = Unit
BeforeTimeout deadline (now, resets) = ⊥
BeforeTimeout deadline (now, forces_open) = ⊥

step_open :
    (cb : CircuitBreaker) (e : ℕ × Event)
    → cb.state ≡ open_
    → BeforeTimeout (cb.last_state_change + cb.timeout) e
    → ((step cb e).state ≡ open_)
      × ((step cb e).last_state_change ≡ cb.last_state_change)
      × ((step cb e).timeout ≡ cb.timeout)
unfolding step
step_open cb (now, request) o b = ground arith
step_open cb (now, result none) o b = ground arith
step_open cb (now, result (some err)) o b = ground arith
step_open cb (now, resets) o b = absurd b
step_open cb (now, forces_open) o b = absurd b

run_open :
    (deadline : ℕ) (cb : CircuitBreaker) (es : List (ℕ × Event))
    → cb.last_state_change + cb.timeout ≡ deadline
    → cb.state ≡ open_
    → All (BeforeTimeout deadline) es
    → ((run cb es).state ≡ open_) × ((run cb es).last_state_change + (run cb es).timeout ≡ deadline)
unfolding run
run_open deadline cb [] d o a = (o, d)
run_open deadline cb (e ∷ es) d o a =
    let (still, same, config) = step_open cb e o (rw d a.0) in
    run_open deadline (step cb e) es (rw (same, config) d) still a.1

allow_before :
    (cb : CircuitBreaker) (now : ℕ)
    → cb.state ≡ open_
    → now < cb.last_state_change + cb.timeout
    → allow_request now cb ≡ (cb, some circuit_open)
unfolding allow_request
allow_before cb now o b = ground arith

-- An open breaker fails fast: after any requests made before its timeout has passed since the last
-- state change, and any results that arrive late, a request before the timeout is refused with the
-- circuit-open error and changes nothing.
pub open_fails_fast :
    (cb : CircuitBreaker) (es : List (ℕ × Event)) (now : ℕ)
    → cb.state ≡ open_
    → All (BeforeTimeout (cb.last_state_change + cb.timeout)) es
    → now < cb.last_state_change + cb.timeout
    → allow_request now (run cb es) ≡ (run cb es, some circuit_open)
open_fails_fast cb es now o a b =
    let (still, same) = run_open (cb.last_state_change + cb.timeout) cb es refl o a in
    allow_before (run cb es) now still (rw same b)

-- Failures reported one after another, with the times of the reports.
abbrev pub failures : List (ℕ × Error) → List (ℕ × Event)
failures [] = []
failures ((now, err) ∷ fs) = (now, result (some err)) ∷ failures fs

step_failure :
    (cb : CircuitBreaker) (now : ℕ) (err : Error)
    → cb.state ≡ closed
    → let cb' = step cb (now, result (some err)) in
      (cb'.failure_count ≡ cb.failure_count + 1)
      × (cb'.failure_threshold ≡ cb.failure_threshold)
      × (cb.failure_count + 1 < cb.failure_threshold → cb'.state ≡ closed)
      × (cb.failure_threshold ≤ cb.failure_count + 1 → cb'.state ≡ open_)
unfolding step
step_failure cb now err o = ground arith

step_failure_open :
    (cb : CircuitBreaker) (now : ℕ) (err : Error)
    → cb.state ≡ open_
    → (step cb (now, result (some err))).state ≡ open_
unfolding step
step_failure_open cb now err o = ground arith

failures_open :
    (cb : CircuitBreaker) (fs : List (ℕ × Error))
    → cb.state ≡ open_
    → (run cb (failures fs)).state ≡ open_
unfolding run
failures_open cb [] o = o
failures_open cb ((now, err) ∷ fs) o =
    failures_open (step cb (now, result (some err))) fs (step_failure_open cb now err o)

-- Consecutive failures open a closed breaker exactly when the failure count reaches the threshold:
-- while the failures already counted and the new ones stay below the failure threshold the breaker
-- is still closed and has counted every one, and once they reach it the breaker is open.
pub failures_trip :
    (cb : CircuitBreaker) (fs : List (ℕ × Error))
    → cb.state ≡ closed
    → cb.failure_count < cb.failure_threshold
    → (cb.failure_count + length fs < cb.failure_threshold
        → ((run cb (failures fs)).state ≡ closed)
          × ((run cb (failures fs)).failure_count ≡ cb.failure_count + length fs))
      × (cb.failure_threshold ≤ cb.failure_count + length fs → (run cb (failures fs)).state ≡ open_)
unfolding run
failures_trip cb [] o h = (λ b. (o, omega arith), λ b. absurd (omega arith))
failures_trip cb ((now, err) ∷ fs) o h =
    let (count, threshold, stays, opens) = step_failure cb now err o in
    elim (Bool-cases (ltb (cb.failure_count + 1) cb.failure_threshold)) [
      | inl below ↦
          let (c, t) =
            failures_trip (step cb (now, result (some err))) fs (stays (omega tests))
              (omega (tests, count, threshold)) in
          (
            λ b. (
              (c (omega (arith, count, threshold))).0,
              omega (arith, (c (omega (arith, count, threshold))).1, count),
            ),
            λ b. t (omega (arith, count, threshold)),
          )
      | inr reached ↦
          let o' = failures_open (step cb (now, result (some err))) fs (opens (ground arith)) in
          (λ b. absurd (ground arith), λ b. o')
    ]
