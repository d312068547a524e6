-- ===== src/Resilience/Retry/Tests.antt =====
-- Runs of the retry loop, and its theorems at concrete inputs.
use Prim.Native.Nat.{◌^◌}
use syntor.Common.{
  ℕ, zero, suc, ◌-◌, ◌*◌, ◌≤◌, ◌≡◌, refl, true, false, String, [], ◌∷◌, Option, none, some, ltb,
  leb, str_eq, arith, ◌+◌,
}
use syntor.Resilience.Retry.{
  Floats, RetryConfig, failed, Run, execute, delay_after, should_retry_error,
}
use syntor.Resilience.Retry.Bounds.{execute_bounds}
use syntor.Resilience.Retry.Success.{SucceedsAt, execute_success}
use syntor.Resilience.Retry.Callback.{delays, execute_with_callback, execute_with_callback_lem}

ltb_irrefl : (n : ℕ) → ltb n n ≡ false
ltb_irrefl n = ground arith

le_of_ltb : (x n : ℕ) → ltb n x ≡ false → x ≤ n
le_of_ltb x n h = ground arith

-- Whole numbers in place of floats: the laws can be met.
abbrev whole : Floats
whole = record {
  Float = ℕ;
  of_int = λ n. n;
  add = λ a b. a + b;
  sub = λ a b. a - b;
  mul = λ a b. a * b;
  pow = λ a b. a ^ b;
  gt = λ a b. ltb b a;
  le = leb;
  to_duration = λ x. x;
  gt_irrefl = ltb_irrefl;
  to_duration-le = λ x n _ h. le_of_ltb x n h;
}

abbrev doubling : RetryConfig whole String
doubling = record {
  max_attempts = 4;
  initial_delay = 100;
  max_delay = 300;
  multiplier = 2;
  jitter = 0;
  retryable_errors = "busy" ∷ [];
  should_retry = none;
}

-- The function is busy twice, then succeeds.
abbrev busy_twice : ℕ → Option String
busy_twice zero = none
busy_twice (suc zero) = some "busy"
busy_twice (suc (suc zero)) = some "busy"
busy_twice (suc (suc (suc n))) = none

abbrev calm : Run whole String
calm = record {
  fn = busy_twice;
  done_before = λ k. false;
  done_waiting = λ k. false;
  draw = λ k. 0;
}

execute_third :
    execute whole str_eq doubling calm
    ≡ record { attempts = 3; last_error = some (failed "busy"); total_delay = 300; success = true }
unfolding execute delay_after should_retry_error
execute_third = refl

execute_bounds_example :
    ((execute whole str_eq doubling calm).attempts ≤ 4)
    × ((execute whole str_eq doubling calm).total_delay ≤ 3 * 300)
execute_bounds_example = execute_bounds whole str_eq doubling calm (omega arith)

execute_success_example : SucceedsAt whole str_eq doubling calm 3
unfolding execute delay_after should_retry_error
execute_success_example = (execute_success whole str_eq doubling calm).0 refl

execute_with_callback_example :
    (execute whole str_eq doubling calm).total_delay
    ≡ delays (execute_with_callback whole str_eq doubling calm true).1
execute_with_callback_example = (execute_with_callback_lem whole str_eq doubling calm).1
