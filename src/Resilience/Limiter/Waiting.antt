-- ===== src/Resilience/Limiter/Waiting.antt =====
-- Whether WaitN ends.
use syntor.Common.{
  ℕ, ◌+◌, ◌-◌, ◌*◌, ◌/◌, ◌≤◌, ◌<◌, ◌≡◌, ◌≢◌, true, false, List, [], ◌∷◌, some, arith,
}
use syntor.Resilience.Limiter.{
  RateLimiter, one_token, Round, granted, refill, allow_n, wait_time, wait_n,
}

allow_n_large :
    (n now : ℕ) (rl : RateLimiter)
    → rl.bucket_size < n
    → ((allow_n n now rl).1 ≡ false) × ((allow_n n now rl).0.bucket_size ≡ rl.bucket_size)
unfolding allow_n
allow_n_large n now rl h = ground arith

wait_time-bucket_size :
    (n now : ℕ) (rl : RateLimiter) → (wait_time n now rl).0.bucket_size ≡ rl.bucket_size
unfolding wait_time
wait_time-bucket_size n now rl = ground arith

-- A wait for more tokens than the bucket holds is never granted, however many rounds it makes.
pub wait_n_large :
    (n : ℕ) (rounds : List Round) (rl : RateLimiter)
    → rl.bucket_size < n
    → (wait_n n rounds rl).1 ≢ some granted
unfolding wait_n
wait_n_large n [] rl h = λ e. cc
wait_n_large n (r ∷ rounds) rl h =
    let (no_, same) = allow_n_large n r.at rl h in
    let same' = wait_time-bucket_size n r.asked (allow_n n r.at rl).0 in
    ground (
      arith,
      no_,
      wait_n_large n rounds (wait_time n r.asked (allow_n n r.at rl).0).0 (rw (same', same) h),
    )

div_enough : (x r : ℕ) → 0 < r → x < (x / r + 1) * r
div_enough x r h = grind arith

allow_n-config :
    (n now : ℕ) (rl : RateLimiter)
    → ((allow_n n now rl).0.bucket_size ≡ rl.bucket_size) × ((allow_n n now rl).0.rate ≡ rl.rate)
unfolding allow_n
allow_n-config n now rl = ground arith

-- The wait and one nanosecond more bring the missing tokens.
wait_time_pause :
    (n now : ℕ) (rl : RateLimiter)
    → 0 < rl.rate
    → let (waiting, pause) = wait_time n now rl in
      (n * one_token ≤ waiting.tokens + (pause + 1) * rl.rate)
      × (waiting.rate ≡ rl.rate)
      × (waiting.last_update ≡ now)
unfolding wait_time
wait_time_pause n now rl k =
    ground (arith, div_enough (n * one_token - (refill now rl).tokens) rl.rate k)

allow_n-enough :
    (n now : ℕ) (rl : RateLimiter)
    → n ≤ rl.bucket_size
    → n * one_token ≤ rl.tokens + (now - rl.last_update) * rl.rate
    → (allow_n n now rl).1 ≡ true
unfolding allow_n
allow_n-enough n now rl h k = ground arith

mul_mono_left : (a b r : ℕ) → a ≤ b → a * r ≤ b * r
mul_mono_left a b r h = grind arith

wait_time-enough :
    (n now later : ℕ) (rl : RateLimiter)
    → n ≤ rl.bucket_size
    → 0 < rl.rate
    → now + (wait_time n now rl).1 < later
    → (allow_n n later (wait_time n now rl).0).1 ≡ true
wait_time-enough n now later rl h k l =
    let (enough, rate, last) = wait_time_pause n now rl k in
    allow_n-enough n later (wait_time n now rl).0 (rw (wait_time-bucket_size n now rl) h) (
      rw (last, rate)
        (omega (
          arith,
          enough,
          mul_mono_left ((wait_time n now rl).1 + 1) (later - now) rl.rate (omega arith),
        )))

-- Where the rate is positive and at most a bucket of tokens is asked for, a caller whose context is
-- not cancelled is granted them by its second round at the latest, if the second round comes later
-- than the announced wait after the first and no other caller takes tokens in between.
pub wait_n_two_rounds :
    (n : ℕ) (first second : Round) (rounds : List Round) (rl : RateLimiter)
    → n ≤ rl.bucket_size
    → 0 < rl.rate
    → first.done ≡ false
    → first.done_waiting ≡ false
    → second.done ≡ false
    → first.asked + (wait_time n first.asked (allow_n n first.at rl).0).1 < second.at
    → (wait_n n (first ∷ second ∷ rounds) rl).1 ≡ some granted
unfolding wait_n
wait_n_two_rounds n first second rounds rl h k d w d' l =
    let same = allow_n-config n first.at rl in
    ground (
      arith,
      wait_time-enough n first.asked second.at (allow_n n first.at rl).0 (rw same.0 h) (rw same.1 k)
          l,
    )
