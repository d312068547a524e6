-- ===== src/Resilience/Breaker.antt =====
-- pkg/resilience/circuit_breaker.go.
-- A method takes the clock as its argument `now` and returns the new breaker; the mutex makes each
-- method one step. Counters and nanoseconds are unbounded. A negative threshold acts like 0, since
-- counters are never negative, and is 0 here. The `onStateChange` callback is the list of the calls
-- made to it.
pub mod Calls
pub mod Invariant
pub mod Open
pub mod Recovery
mod Tests
use syntor.Common.{
  ℕ, ◌+◌, Bool, true, false, List, [], ◌∷◌, ◌++◌, Option, none, some, String, leb, if◌then◌else◌,
}

-- models.CircuitState
pub data CircuitState : Type 0 where
  closed open_ half_open : CircuitState

-- The two errors of the breaker, and the error of the protected function.
pub data Error : Type 0 where
  circuit_open too_many_requests : Error
  failed : String → Error

pub record Config : Type 0 where
  pub name : String
  pub failure_threshold : ℕ
  pub success_threshold : ℕ
  pub timeout : ℕ
  pub half_open_max_calls : ℕ
  pub on_state_change : Bool

pub record CircuitBreaker : Type 0 where
  pub config : Config
  pub open config use *
  pub state : CircuitState
  pub failure_count : ℕ
  pub success_count : ℕ
  pub last_failure : Option ℕ
  pub last_state_change : ℕ
  pub half_open_calls : ℕ
  pub notified : List (CircuitState × CircuitState)

-- DefaultCircuitBreakerConfig
abbrev pub default_config : String → Config
default_config name = record {
  name = name;
  failure_threshold = 5;
  success_threshold = 3;
  timeout = 30_000_000_000;
  half_open_max_calls = 1;
  on_state_change = false;
}

-- NewCircuitBreaker
unfoldable pub new : Config → ℕ → CircuitBreaker
new c now = record {
  config = c;
  state = closed;
  failure_count = 0;
  success_count = 0;
  last_failure = none;
  last_state_change = now;
  half_open_calls = 0;
  notified = [];
}

-- The `switch newState` of transitionTo.
reset_counters : CircuitState → CircuitBreaker → CircuitBreaker
reset_counters closed cb = record cb { failure_count = 0; success_count = 0 }
reset_counters open_ cb = record cb { success_count = 0 }
reset_counters half_open cb = record cb { half_open_calls = 0; success_count = 0 }

notify : CircuitState → CircuitState → CircuitBreaker → CircuitBreaker
notify old new_state cb =
    if cb.on_state_change then record cb { notified = cb.notified ++ (old, new_state) ∷ [] } else cb

unfoldable pub transition_to : CircuitState → ℕ → CircuitBreaker → CircuitBreaker
unfolding reset_counters notify
transition_to new_state now cb =
    notify cb.state new_state
      (reset_counters new_state (record cb { state = new_state; last_state_change = now }))

-- `time.Since(cb.lastStateChange) >= cb.timeout`
abbrev pub timeout_passed : CircuitBreaker → ℕ → Bool
timeout_passed cb now = leb (cb.last_state_change + cb.timeout) now

allow_in : CircuitState → ℕ → CircuitBreaker → CircuitBreaker × Option Error
unfolding transition_to
allow_in closed now cb = (cb, none)
allow_in open_ now cb =
    if timeout_passed cb now
    then (record (transition_to half_open now cb) { half_open_calls = 1 }, none)
    else (cb, some circuit_open)
allow_in half_open now cb =
    if leb cb.half_open_max_calls cb.half_open_calls
    then (cb, some too_many_requests)
    else (record cb { half_open_calls = cb.half_open_calls + 1 }, none)

unfoldable pub allow_request : ℕ → CircuitBreaker → CircuitBreaker × Option Error
unfolding allow_in
allow_request now cb = allow_in cb.state now cb

failure_in : CircuitState → ℕ → CircuitBreaker → CircuitBreaker
unfolding transition_to
failure_in closed now cb =
    if leb cb.failure_threshold cb.failure_count then transition_to open_ now cb else cb
failure_in open_ now cb = cb
failure_in half_open now cb = transition_to open_ now cb

unfoldable pub record_failure : ℕ → CircuitBreaker → CircuitBreaker
unfolding failure_in
record_failure now cb =
    failure_in cb.state now
      (record cb { failure_count = cb.failure_count + 1; last_failure = some now })

success_in : CircuitState → ℕ → CircuitBreaker → CircuitBreaker
unfolding transition_to
success_in closed now cb = record cb { failure_count = 0 }
success_in open_ now cb = cb
success_in half_open now cb =
    let counted = record cb { success_count = cb.success_count + 1 } in
    if leb cb.success_threshold counted.success_count
    then transition_to closed now counted
    else counted

unfoldable pub record_success : ℕ → CircuitBreaker → CircuitBreaker
unfolding success_in
record_success now cb = success_in cb.state now cb

unfoldable pub record_result : Option Error → ℕ → CircuitBreaker → CircuitBreaker
unfolding record_failure record_success
record_result (some err) now cb = record_failure now cb
record_result none now cb = record_success now cb

-- The tail of Execute, after allowRequest.
finish_call : Option Error → Option Error → ℕ → CircuitBreaker → CircuitBreaker × Option Error
unfolding record_result
finish_call (some err) outcome done cb = (cb, some err)
finish_call none outcome done cb = (record_result outcome done cb, outcome)

-- Execute, where `fn` returns `outcome` at time `done`.
unfoldable pub execute : ℕ → Option Error → ℕ → CircuitBreaker → CircuitBreaker × Option Error
unfolding allow_request finish_call
execute now outcome done cb =
    let (admitted, err) = allow_request now cb in finish_call err outcome done admitted

unfoldable pub reset : ℕ → CircuitBreaker → CircuitBreaker
unfolding transition_to
reset now cb = transition_to closed now cb

unfoldable pub force_open : ℕ → CircuitBreaker → CircuitBreaker
unfolding transition_to
force_open now cb = transition_to open_ now cb
