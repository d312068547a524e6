-- ===== src/Resilience/Load.antt =====
-- Backpressure and Semaphore of pkg/resilience/rate_limiter.go.
-- The shedding threshold and probability are whole thousandths. `randFloat` is the time's last
-- three decimal digits, in thousandths too, so its test is exact.
pub mod Bounds
mod Tests
use syntor.Common.{
  ℕ, ◌+◌, ◌-◌, ◌*◌, ◌%◌, Bool, true, false, not, ◌&&◌, Option, none, some, ltb, leb, if◌then◌else◌,
}

pub record Backpressure : Type 0 where
  pub max_concurrent : ℕ
  pub current_load : ℕ
  pub shed_threshold : ℕ
  pub shed_probability : ℕ

-- NewBackpressure
unfoldable pub new_backpressure : ℕ → ℕ → ℕ → Backpressure
new_backpressure max_concurrent shed_threshold shed_probability = record {
  max_concurrent = max_concurrent;
  current_load = 0;
  shed_threshold = shed_threshold;
  shed_probability = shed_probability;
}

-- IsOverloaded: `load >= bp.shedThreshold`, with the division multiplied out.
unfoldable pub is_overloaded : Backpressure → Bool
is_overloaded bp = leb (bp.shed_threshold * bp.max_concurrent) (bp.current_load * 1000)

abbrev pub rand_thousandths : ℕ → ℕ
rand_thousandths now = now % 1000

unfoldable pub acquire : ℕ → Backpressure → Backpressure × Bool
unfolding is_overloaded
acquire now bp =
    if leb bp.max_concurrent bp.current_load
    then (bp, false)
    else if is_overloaded bp && ltb (rand_thousandths now) bp.shed_probability
    then (bp, false)
    else (record bp { current_load = bp.current_load + 1 }, true)

unfoldable pub release : Backpressure → Backpressure
release bp = if ltb 0 bp.current_load then record bp { current_load = bp.current_load - 1 } else bp

pub data Outcome (E : Type 0) : Type 0 where
  rate_limit_exceeded : Outcome E
  returned : Option E → Outcome E

-- Execute of a function that returns `result`, with no other caller in between.
unfoldable pub execute : {E : Type 0} → ℕ → Option E → Backpressure → Backpressure × Outcome E
unfolding acquire release
execute now result bp =
    let (admitted, ok) = acquire now bp in
    if ok then (release admitted, returned result) else (admitted, rate_limit_exceeded)

-- The buffered channel of a Semaphore: its capacity, and how many values it holds.
pub record Semaphore : Type 0 where
  pub capacity : ℕ
  pub held : ℕ

-- NewSemaphore
unfoldable pub new_semaphore : ℕ → Semaphore
new_semaphore capacity = record { capacity = capacity; held = 0 }

unfoldable pub try_acquire : Semaphore → Semaphore × Bool
try_acquire s = if ltb s.held s.capacity then (record s { held = s.held + 1 }, true) else (s, false)

pub data AcquireResult : Type 0 where
  acquired canceled blocked : AcquireResult

-- Acquire, whose `select` takes a case that is ready: where both are, `prefers_done` says which.
unfoldable pub acquire_slot : Bool → Bool → Semaphore → Semaphore × AcquireResult
acquire_slot done prefers_done s =
    if ltb s.held s.capacity && not (done && prefers_done)
    then (record s { held = s.held + 1 }, acquired)
    else if done
    then (s, canceled)
    else (s, blocked)

unfoldable pub release_slot : Semaphore → Semaphore
release_slot s = if ltb 0 s.held then record s { held = s.held - 1 } else s

unfoldable pub available : Semaphore → ℕ
available s = s.capacity - s.held
