-- ===== src/Resilience/Limiter/Throughput.antt =====
-- How much a token bucket lets through.
use syntor.Common.{ℕ, ◌+◌, ◌-◌, ◌*◌, ◌≤◌, ◌≡◌, List, [], ◌∷◌, arith, if◌then◌else◌}
use syntor.Resilience.Limiter.{RateLimiter, one_token, new_rate_limiter, refill, allow_n}

-- AllowN calls: how many are asked for, and when.
unfoldable pub run : RateLimiter → List (ℕ × ℕ) → RateLimiter × ℕ
unfolding allow_n
run rl [] = (rl, 0)
run rl ((n, now) ∷ calls) =
    let (next, ok) = allow_n n now rl in
    let (last, granted) = run next calls in (last, (if ok then n else 0) + granted)

-- The times of the calls do not fall.
abbrev pub IsOrdered : ℕ → List (ℕ × ℕ) → Type 0
IsOrdered last [] = Unit
IsOrdered last ((n, now) ∷ calls) = (last ≤ now) × IsOrdered now calls

abbrev pub end_time : ℕ → List (ℕ × ℕ) → ℕ
end_time last [] = last
end_time last ((n, now) ∷ calls) = end_time now calls

refill_budget :
    (now : ℕ) (rl : RateLimiter)
    → let r = refill now rl in
      (r.tokens ≤ rl.tokens + (now - rl.last_update) * rl.rate)
      × (rl.tokens ≤ rl.bucket_size * one_token → r.tokens ≤ rl.bucket_size * one_token)
unfolding refill
refill_budget now rl = ground arith

allow_n_budget :
    (n now : ℕ) (rl : RateLimiter)
    → rl.last_update ≤ now
    → let (r, ok) = allow_n n now rl in
      (r.tokens + (if ok then n else 0) * one_token ≤ rl.tokens + (now - rl.last_update) * rl.rate)
      × (r.rate ≡ rl.rate)
      × (r.last_update ≡ now)
      × (r.bucket_size ≡ rl.bucket_size)
unfolding allow_n
allow_n_budget n now rl h = ground (arith)

end_time-le : (last : ℕ) (calls : List (ℕ × ℕ)) → IsOrdered last calls → last ≤ end_time last calls
end_time-le last [] o = omega arith
end_time-le last ((n, now) ∷ calls) o = omega (arith, o.0, end_time-le now calls o.1)

-- Elapsed times add up.
elapsed_mul : (a b c r : ℕ) → a ≤ b → b ≤ c → (b - a) * r + (c - b) * r ≡ (c - a) * r
elapsed_mul a b c r h k = let e : (c - a) ≡ (b - a) + (c - b) = omega arith in rw e (omega arith)

run_budget :
    (rl : RateLimiter) (calls : List (ℕ × ℕ))
    → IsOrdered rl.last_update calls
    → (run rl calls).1 * one_token
      ≤ rl.tokens + (end_time rl.last_update calls - rl.last_update) * rl.rate
unfolding run
run_budget rl [] o = omega arith
run_budget rl ((n, now) ∷ calls) o =
    let (spent, rate, last, _) = allow_n_budget n now rl o.0 in
    let rest = run_budget (allow_n n now rl).0 calls (rw last o.1) in
    let rest' = rw (last, rate) at rest in
    omega (
      arith,
      spent,
      rest',
      elapsed_mul rl.last_update now (end_time now calls) rl.rate o.0 (end_time-le now calls o.1),
    )

-- Over any calls of AllowN in the order of time, a new token bucket grants at most its burst size
-- and its rate times the time passed: in billionths of a token, as the model counts them.
pub run-new_bound :
    (rate bucket_size start : ℕ) (calls : List (ℕ × ℕ))
    → IsOrdered start calls
    → (run (new_rate_limiter rate bucket_size start) calls).1 * one_token
      ≤ bucket_size * one_token + (end_time start calls - start) * rate
unfolding new_rate_limiter
run-new_bound rate bucket_size start calls o =
    run_budget (new_rate_limiter rate bucket_size start) calls o
