-- ===== src/Resilience/Breaker/Tests.antt =====
-- Runs of the circuit breaker, and its theorems at concrete inputs.
use syntor.Common.{ℕ, ◌≡◌, refl, true, List, [], ◌∷◌, none, some, arith}
use syntor.Resilience.Breaker.{
  Config, CircuitBreaker, closed, open_, half_open, circuit_open, failed, default_config, new,
  allow_request,
}
use syntor.Resilience.Breaker.Calls.{Call, Event, request, result, run, run_calls}
use syntor.Resilience.Breaker.Invariant.{IsValid, run-new-IsValid}
use syntor.Resilience.Breaker.Open.{failures, failures_trip, open_fails_fast}
use syntor.Resilience.Breaker.Recovery.{recovers, never_closes}

abbrev small_config : Config
small_config = record {
  name = "llm";
  failure_threshold = 2;
  success_threshold = 2;
  timeout = 10;
  half_open_max_calls = 2;
  on_state_change = true;
}

abbrev tripped : CircuitBreaker
tripped = record {
  config = small_config;
  state = open_;
  failure_count = 2;
  success_count = 0;
  last_failure = some 5;
  last_state_change = 5;
  half_open_calls = 0;
  notified = (closed, open_) ∷ [];
}

abbrev default_tripped : CircuitBreaker
default_tripped = record tripped { config = default_config "llm" }

abbrev history : List (ℕ × Event)
history =
    (1, request)
    ∷ (2, request)
    ∷ (3, result (some (failed "a")))
    ∷ (5, result (some (failed "b")))
    ∷ (16, request)
    ∷ (17, result none)
    ∷ (18, request)
    ∷ (19, result none)
    ∷ []

-- Two failures open the breaker, and two successes after the timeout close it; the callback sees
-- each change.
history_notified :
    (run (new small_config 0) history).notified
    ≡ (closed, open_) ∷ (open_, half_open) ∷ (half_open, closed) ∷ []
unfolding new run
history_notified = refl

run-new-IsValid_example : IsValid (run (new small_config 0) history)
run-new-IsValid_example = run-new-IsValid small_config 0 history (omega arith) (omega arith)

abbrev late : List (ℕ × Event)
late = (7, request) ∷ (20, result (some (failed "late"))) ∷ (8, request) ∷ []

open_fails_fast_example :
    allow_request 14 (run tripped late) ≡ (run tripped late, some circuit_open)
open_fails_fast_example = open_fails_fast tripped late 14 refl (omega arith) (omega arith)

failures_trip_example :
    (run (new small_config 0) (failures ((3, failed "a") ∷ (5, failed "b") ∷ []))).state ≡ open_
unfolding new
failures_trip_example =
    (failures_trip (new small_config 0) ((3, failed "a") ∷ (5, failed "b") ∷ []) refl
        (omega arith)).1
      (omega arith)

abbrev first : Call
first = record { at = 40_000_000_000; outcome = none; done = 40_000_000_001 }

recovers_example : (run_calls tripped (first ∷ first ∷ [])).state ≡ closed
recovers_example =
    recovers tripped first (first ∷ []) refl (omega arith) (omega arith) (omega arith) refl
      (refl, (refl, tt))

never_closes_example :
    (run_calls default_tripped (first ∷ first ∷ first ∷ first ∷ [])).state ≡ half_open
never_closes_example =
    never_closes default_tripped first (first ∷ first ∷ first ∷ []) refl (omega arith) (omega arith)
      (omega arith) (refl, (refl, (refl, (refl, tt))))
