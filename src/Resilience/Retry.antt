-- ===== src/Resilience/Retry.antt =====
-- pkg/resilience/retry.go.
-- float64, the function that is retried, the context's cancellation and the random draws are not
-- code of the repository: they are the parameters `Floats` and `Run`. `errors.Is` is the parameter
-- `is`. A wait is over at once in the model: `done_waiting` says whether the context was cancelled
-- first. A count or a duration that is not positive is 0 here, which the code treats the same way.
pub mod Bounds
pub mod Success
pub mod Callback
mod Tests
use syntor.Common.{
  ℕ, zero, suc, ◌+◌, ◌-◌, ◌≤◌, ◌<◌, ◌≡◌, Bool, true, false, not, ◌&&◌, ◌||◌, List, [], ◌∷◌, Option,
  none, some, ltb, leb, ◌==◌, if◌then◌else◌,
}

-- What the code uses of float64 and of its conversions from and to time.Duration. A duration below
-- 2 ^ 53 nanoseconds is a float64 exactly, and `time.Duration(x)` drops the fraction.
pub record Floats : Type 1 where
  pub Float : Type 0
  pub of_int : ℕ → Float
  pub add : Float → Float → Float
  pub sub : Float → Float → Float
  pub mul : Float → Float → Float
  pub pow : Float → Float → Float
  pub gt : Float → Float → Bool
  pub le : Float → Float → Bool
  pub to_duration : Float → ℕ
  pub gt_irrefl : (x : Float) → gt x x ≡ false
  pub to_duration-le :
      (x : Float) (n : ℕ) → n < 9_007_199_254_740_992 → gt x (of_int n) ≡ false → to_duration x ≤ n

pub record RetryConfig (F : Floats) (E : Type 0) : Type 0 where
  pub max_attempts : ℕ
  pub initial_delay : ℕ
  pub max_delay : ℕ
  pub multiplier : F.Float
  pub jitter : F.Float
  pub retryable_errors : List E
  pub should_retry : Option (E → Bool)

-- LastError: an error of the function, or ErrContextCanceled.
pub data Failure (E : Type 0) : Type 0 where
  canceled : Failure E
  failed : E → Failure E

pub record RetryResult (E : Type 0) : Type 0 where
  pub attempts : ℕ
  pub last_error : Option (Failure E)
  pub total_delay : ℕ
  pub success : Bool

-- What happens at each attempt: the result of `fn`, whether the context is done before the call
-- and during the wait after it, and the draw of rand.Float64.
pub record Run (F : Floats) (E : Type 0) : Type 0 where
  pub fn : ℕ → Option E
  pub done_before : ℕ → Bool
  pub done_waiting : ℕ → Bool
  pub draw : ℕ → F.Float

-- NewRetryer
unfoldable pub new_retryer : (F : Floats) {E : Type 0} → RetryConfig F E → RetryConfig F E
new_retryer F c = record c {
  max_attempts = if c.max_attempts == 0 then 3 else c.max_attempts;
  initial_delay = if c.initial_delay == 0 then 100_000_000 else c.initial_delay;
  max_delay = if c.max_delay == 0 then 30_000_000_000 else c.max_delay;
  multiplier = if F.le c.multiplier (F.of_int 0) then F.of_int 2 else c.multiplier;
}

-- The loop over RetryableErrors in shouldRetry.
is_listed : {E : Type 0} → (E → E → Bool) → E → List E → Bool
is_listed is err [] = false
is_listed is err (retryable ∷ rest) = is err retryable || is_listed is err rest

abbrev is_empty : {E : Type 0} → List E → Bool
is_empty [] = true
is_empty (_ ∷ _) = false

unfoldable pub should_retry_error :
    (F : Floats) {E : Type 0} → (E → E → Bool) → RetryConfig F E → E → Bool
unfolding is_listed
should_retry_error F is c err = elim c.should_retry [
  | some test ↦ test err
  | none ↦ if is_empty c.retryable_errors then true else is_listed is err c.retryable_errors
]

-- The delay with its jitter, before the cap.
backoff : (F : Floats) {E : Type 0} → RetryConfig F E → ℕ → F.Float → F.Float
backoff F c attempt draw =
    let delay = F.mul (F.of_int c.initial_delay) (F.pow c.multiplier (F.of_int (attempt - 1))) in
    let range = F.mul delay c.jitter in
    if F.gt c.jitter (F.of_int 0)
    then F.add delay (F.mul (F.sub (F.mul draw (F.of_int 2)) (F.of_int 1)) range)
    else delay

unfoldable pub calculate_delay : (F : Floats) {E : Type 0} → RetryConfig F E → ℕ → F.Float → ℕ
unfolding backoff
calculate_delay F c attempt draw =
    let delay = backoff F c attempt draw in
    let max = F.of_int c.max_delay in F.to_duration (if F.gt delay max then max else delay)

module _ (F : Floats) {E : Type 0} (is : E → E → Bool) (c : RetryConfig F E) (run : Run F E) where
  open run use {fn, done_before, done_waiting, draw}

  unfoldable pub delay_after : ℕ → ℕ
  unfolding calculate_delay
  delay_after attempt = calculate_delay F c attempt (draw attempt)

  -- totalDelay once the attempt has failed: no delay follows the last one.
  abbrev pub delayed : ℕ → ℕ → ℕ
  delayed attempt total = if ltb attempt c.max_attempts then total + delay_after attempt else total

  -- The loop of Execute, with `left` rounds to go.
  unfoldable pub loop : ℕ → ℕ → RetryResult E → ℕ → RetryResult E
  loop zero attempt result total = record result { total_delay = total }
  loop (suc left) attempt result total =
      let started = record result { attempts = attempt } in
      if done_before attempt
      then record started { last_error = some canceled; total_delay = total }
      else elim (fn attempt) [
        | none ↦ record started { success = true; total_delay = total }
        | some err ↦
            let tried = record started { last_error = some (failed err) } in
            let next = delayed attempt total in
            let rest = loop left (attempt + 1) tried next in
            if not (should_retry_error F is c err)
            then record tried { total_delay = total }
            else if ltb attempt c.max_attempts && done_waiting attempt
            then record tried { last_error = some canceled; total_delay = next }
            else rest
      ]

  abbrev pub no_result : RetryResult E
  no_result = record { attempts = 0; last_error = none; total_delay = 0; success = false }

  unfoldable pub execute : RetryResult E
  unfolding loop
  execute = loop c.max_attempts 1 no_result 0
