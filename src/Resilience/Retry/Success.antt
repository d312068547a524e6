-- ===== src/Resilience/Retry/Success.antt =====
-- When a retried function succeeds.
use syntor.Common.{
  ℕ, zero, suc, ◌∙◌, ltb, ◌&&◌, sym, dec_lt, Bool-cases, subst, ◌⊎◌, ◌+◌, ◌≤◌, ◌<◌, ◌≡◌, refl, Bool,
  true, false, inl, inr, none, some, Option-cases, arith,
}
use syntor.Resilience.Retry.{
  Floats, RetryConfig, RetryResult, failed, Run, should_retry_error, delayed, loop, no_result,
  execute,
}

module _ (F : Floats) {E : Type 0} (is : E → E → Bool) (c : RetryConfig F E) (run : Run F E) where
  -- The attempt fails with an error that is retried, and the context is not cancelled around it.
  abbrev pub Fails : ℕ → Type 0
  Fails k =
      (run.done_before k ≡ false)
      × (err : E) × (run.fn k ≡ some err)
      × (should_retry_error F is c err ≡ true)
      × (run.done_waiting k ≡ false)

  -- The attempt is the first that does not fail so, and it succeeds.
  abbrev pub SucceedsAt : ℕ → Type 0
  SucceedsAt k =
      (1 ≤ k)
      × (k ≤ c.max_attempts)
      × (run.done_before k ≡ false)
      × (run.fn k ≡ none)
      × ((j : ℕ) → 1 ≤ j → j < k → Fails j)

  -- Every attempt before this one has failed.
  abbrev FailedBefore : ℕ → Type 0
  FailedBefore attempt = (j : ℕ) → 1 ≤ j → j < attempt → j < c.max_attempts → Fails j

  FailedBefore-next :
      (attempt : ℕ)
      → FailedBefore attempt
      → (attempt < c.max_attempts → Fails attempt)
      → FailedBefore (attempt + 1)
  FailedBefore-next attempt before now j l h m = elim (dec_lt j attempt) [
    | yes earlier ↦ before j l earlier m
    | no later ↦ let e : attempt ≡ j = omega arith in subst Fails e (now (omega arith))
  ]

  -- The rest of the loop, once an attempt has failed.
  abbrev rest : ℕ → ℕ → RetryResult E → ℕ → E → RetryResult E
  rest left attempt result total err =
      loop F is c run left (attempt + 1)
        (record result { attempts = attempt; last_error = some (failed err) })
        (delayed F is c run attempt total)

  -- The three ways a round of the loop goes: it ends without success, it ends with success, or the
  -- attempt fails and the loop goes on.
  round_cases :
      (left attempt : ℕ) (result : RetryResult E) (total : ℕ)
      → attempt ≤ c.max_attempts
      → let r = loop F is c run (suc left) attempt result total in
        ((r.success ≡ result.success)
          × (¬ SucceedsAt attempt)
          × (attempt < c.max_attempts → ¬ Fails attempt))
        ⊎ (((run.done_before attempt ≡ false) × (run.fn attempt ≡ none))
            × (r.success ≡ true)
            × (r.attempts ≡ attempt))
        ⊎ ((err : E) × (run.fn attempt ≡ some err)
            × (attempt < c.max_attempts → Fails attempt)
            × (r ≡ rest left attempt result total err))
  unfolding loop
  round_cases left attempt result total m = elim (Bool-cases (run.done_before attempt)) [
    | inl done ↦ inl (ground arith, λ s. cc (s.2), λ h s. cc (s.0))
    | inr go ↦ elim (Option-cases (run.fn attempt)) [
      | inl ok ↦ inr (inl ((go, ok), ground arith, ground arith))
      | inr (err, bad) ↦ elim (Bool-cases (should_retry_error F is c err)) [
        | inr final ↦ inl (ground arith, λ s. cc (s.3), λ h s. cc (s.2, s.3))
        | inl again ↦ elim (Bool-cases (ltb attempt c.max_attempts && run.done_waiting attempt)) [
          | inl waited ↦ inl (ground arith, λ s. cc (s.3), λ h s. ground arith)
          | inr on ↦ inr (inr (err, bad, λ h. (go, err, bad, again, ground arith), ground arith))
        ]
      ]
    ]
  ]

  loop_sound :
      (left attempt : ℕ) (result : RetryResult E) (total : ℕ)
      → attempt + left ≡ suc c.max_attempts
      → 1 ≤ attempt
      → FailedBefore attempt
      → result.success ≡ false
      → (loop F is c run left attempt result total).success ≡ true
      → SucceedsAt (loop F is c run left attempt result total).attempts
  unfolding loop
  loop_sound zero attempt result total e l before f s = cc
  loop_sound (suc left) attempt result total e l before f s =
      elim (round_cases left attempt result total (omega arith)) [
        | inl (same, _, _) ↦ cc
        | inr (inl ((d, n), _, a)) ↦
            subst SucceedsAt (sym a) (l, omega arith, d, n, λ j p q. before j p q (omega arith))
        | inr (inr (err, bad, fails, on)) ↦
            subst (λ (r : RetryResult E). r.success ≡ true → SucceedsAt r.attempts) (sym on)
              (loop_sound left (attempt + 1)
                (record result { attempts = attempt; last_error = some (failed err) })
                (delayed F is c run attempt total) (omega arith) (omega arith)
                (FailedBefore-next attempt before fails) f)
              s
      ]

  loop_complete :
      (left attempt : ℕ) (result : RetryResult E) (total k : ℕ)
      → attempt + left ≡ suc c.max_attempts
      → attempt ≤ k
      → 1 ≤ attempt
      → SucceedsAt k
      → ((loop F is c run left attempt result total).success ≡ true)
        × ((loop F is c run left attempt result total).attempts ≡ k)
  loop_complete zero attempt result total k e b l s = absurd (omega arith)
  loop_complete (suc left) attempt result total k e b l s = elim (dec_lt attempt k) [
    | no late ↦
        let here : k ≡ attempt = omega arith in
        let s' = subst SucceedsAt here s in
        elim (round_cases left attempt result total (omega arith)) [
          | inl (_, never, _) ↦ absurd (never s')
          | inr (inl (_, ok, a)) ↦ (ok, a ∙ sym here)
          | inr (inr (err, bad, _, _)) ↦ cc (s'.3)
        ]
    | yes early ↦
        let (d, err, bad, r, w) = s.4 attempt l early in
        elim (round_cases left attempt result total (omega arith)) [
          | inl (_, _, fails) ↦ absurd (fails (omega arith) (d, err, bad, r, w))
          | inr (inl ((_, n), _, _)) ↦ cc
          | inr (inr (err', _, _, on)) ↦ rw on (
              loop_complete left (attempt + 1)
                (record result { attempts = attempt; last_error = some (failed err') })
                (delayed F is c run attempt total) k (omega arith) (omega arith) (omega arith) s)
        ]
  ]

  -- Execute succeeds exactly at the first attempt that returns no error: if it succeeds, its last
  -- attempt is within the maximum and succeeded, and every attempt before failed with an error that
  -- is retried, the context not being cancelled around it; and if some attempt is like that,
  -- Execute succeeds after that many attempts.
  pub execute_success :
      ((execute F is c run).success ≡ true → SucceedsAt (execute F is c run).attempts)
      × ((k : ℕ)
          → SucceedsAt k
          → ((execute F is c run).success ≡ true) × ((execute F is c run).attempts ≡ k))
  unfolding execute
  execute_success = (
    loop_sound c.max_attempts 1 (no_result F is c run) 0 (omega arith) (omega arith)
        (λ j p q m. absurd (omega arith)) refl,
    λ k s.
        loop_complete c.max_attempts 1 (no_result F is c run) 0 k (omega arith) s.0 (omega arith) s,
  )
