-- ===== src/Resilience/Limiter/Tests.antt =====
-- Runs of the token bucket, and its theorems at concrete inputs.
use syntor.Common.{ℕ, ◌+◌, ◌*◌, ◌≤◌, ◌≡◌, ◌≢◌, refl, false, List, [], ◌∷◌, some, arith}
use syntor.Resilience.Limiter.{
  RateLimiter, one_token, new_rate_limiter, Round, granted, allow_n, wait_time, wait_n,
}
use syntor.Resilience.Limiter.Throughput.{run, run-new_bound}
use syntor.Resilience.Limiter.Waiting.{wait_n_large, wait_n_two_rounds}

abbrev burst : List (ℕ × ℕ)
burst = (3, 5) ∷ (1, 6) ∷ (1, 1_000_000_005) ∷ (1, 1_000_000_006) ∷ []

-- Two a second and a burst of three: the second call is refused.
burst_granted : (run (new_rate_limiter 2 3 0) burst).1 ≡ 5
unfolding run new_rate_limiter
burst_granted = refl

run-new_bound_example :
    (run (new_rate_limiter 2 3 0) burst).1 * one_token ≤ 3 * one_token + 1_000_000_006 * 2
run-new_bound_example = run-new_bound 2 3 0 burst (omega arith)

abbrev empty_bucket : RateLimiter
empty_bucket = record { rate = 2; bucket_size = 3; tokens = 0; last_update = 0 }

abbrev round_at : ℕ → Round
round_at now = record { done = false; at = now; asked = now; done_waiting = false }

wait_n_large_example :
    (wait_n 4 (round_at 10 ∷ round_at 2_000_000_011 ∷ []) empty_bucket).1 ≢ some granted
wait_n_large_example =
    wait_n_large 4 (round_at 10 ∷ round_at 2_000_000_011 ∷ []) empty_bucket (omega arith)

wait_n_two_rounds_example :
    (wait_n 2 (round_at 10 ∷ round_at 1_000_000_011 ∷ []) empty_bucket).1 ≡ some granted
unfolding wait_time allow_n
wait_n_two_rounds_example =
    wait_n_two_rounds 2 (round_at 10) (round_at 1_000_000_011) [] empty_bucket (omega arith)
      (omega arith) refl refl refl (omega arith)
