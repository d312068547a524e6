-- ===== src/Resilience/Limiter.antt =====
-- The token bucket of pkg/resilience/rate_limiter.go.
-- Tokens are counted in billionths, for a rate of whole tokens per second: then the refill of an
-- elapsed time in nanoseconds, `elapsed * rate`, is exact. Rounding of float64 is not modelled. The
-- clock never runs back, as with Go's monotonic clock: `now` is at least `last_update`.
pub mod Throughput
pub mod Waiting
mod Tests
use syntor.Common.{
  ℕ, ◌+◌, ◌-◌, ◌*◌, ◌/◌, Bool, true, false, ◌&&◌, List, [], ◌∷◌, Option, none, some, ltb, leb,
  if◌then◌else◌,
}

-- One token.
abbrev pub one_token : ℕ
one_token = 1_000_000_000

pub record RateLimiter : Type 0 where
  pub rate : ℕ
  pub bucket_size : ℕ
  pub tokens : ℕ
  pub last_update : ℕ

-- NewRateLimiter
unfoldable pub new_rate_limiter : ℕ → ℕ → ℕ → RateLimiter
new_rate_limiter rate bucket_size now = record {
  rate = rate;
  bucket_size = bucket_size;
  tokens = bucket_size * one_token;
  last_update = now;
}

unfoldable pub refill : ℕ → RateLimiter → RateLimiter
refill now rl =
    let tokens = rl.tokens + (now - rl.last_update) * rl.rate in
    let max = rl.bucket_size * one_token in
    record rl { tokens = if ltb max tokens then max else tokens; last_update = now }

unfoldable pub allow_n : ℕ → ℕ → RateLimiter → RateLimiter × Bool
unfolding refill
allow_n n now rl =
    let filled = refill now rl in
    if leb (n * one_token) filled.tokens
    then (record filled { tokens = filled.tokens - n * one_token }, true)
    else (filled, false)

unfoldable pub allow : ℕ → RateLimiter → RateLimiter × Bool
unfolding allow_n
allow now rl = allow_n 1 now rl

-- waitTime: the nanoseconds until `n` tokens are there, rounded down as time.Duration does.
unfoldable pub wait_time : ℕ → ℕ → RateLimiter → RateLimiter × ℕ
unfolding refill
wait_time n now rl =
    let filled = refill now rl in
    if leb (n * one_token) filled.tokens
    then (filled, 0)
    else (filled, (n * one_token - filled.tokens) / filled.rate)

-- Tokens
unfoldable pub tokens_at : ℕ → RateLimiter → RateLimiter × ℕ
unfolding refill
tokens_at now rl = let filled = refill now rl in (filled, filled.tokens)

-- One round of the loop of WaitN: whether the context is done, the time of AllowN, the time of
-- waitTime, and whether the context is done before the timer fires.
pub record Round : Type 0 where
  pub done : Bool
  pub at : ℕ
  pub asked : ℕ
  pub done_waiting : Bool

pub data WaitResult : Type 0 where
  granted canceled : WaitResult

-- WaitN over the rounds that the scheduler gives it; `none` means that it is still waiting.
unfoldable pub wait_n : ℕ → List Round → RateLimiter → RateLimiter × Option WaitResult
unfolding allow_n wait_time
wait_n n [] rl = (rl, none)
wait_n n (r ∷ rounds) rl =
    let (asked, ok) = allow_n n r.at rl in
    let (waiting, pause) = wait_time n r.asked asked in
    let rest = wait_n n rounds waiting in
    if r.done
    then (rl, some canceled)
    else if ok
    then (asked, some granted)
    else if ltb 0 pause && r.done_waiting
    then (waiting, some canceled)
    else rest
