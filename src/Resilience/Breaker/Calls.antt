-- ===== src/Resilience/Breaker/Calls.antt =====
-- Histories of a circuit breaker. Callers run at the same time, so a request and the report of its
-- result are two events, and other callers' events may stand between them.
use syntor.Common.{ℕ, List, [], ◌∷◌, Option}
use syntor.Resilience.Breaker.{
  CircuitBreaker, Error, allow_request, record_result, execute, reset, force_open,
}

pub data Event : Type 0 where
  request : Event
  result : Option Error → Event
  resets forces_open : Event

unfoldable pub step : CircuitBreaker → ℕ × Event → CircuitBreaker
unfolding allow_request record_result reset force_open
step cb (now, request) = (allow_request now cb).0
step cb (now, result outcome) = record_result outcome now cb
step cb (now, resets) = reset now cb
step cb (now, forces_open) = force_open now cb

unfoldable pub run : CircuitBreaker → List (ℕ × Event) → CircuitBreaker
unfolding step
run cb [] = cb
run cb (e ∷ es) = run (step cb e) es

-- A call of Execute by a single caller: when it starts, what `fn` returns, and when.
pub record Call : Type 0 where
  pub at : ℕ
  pub outcome : Option Error
  pub done : ℕ

unfoldable pub run_calls : CircuitBreaker → List Call → CircuitBreaker
unfolding execute
run_calls cb [] = cb
run_calls cb (c ∷ cs) = run_calls (execute c.at c.outcome c.done cb).0 cs
