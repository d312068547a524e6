-- ===== src/Resilience/Retry/Callback.antt =====
-- ExecuteWithCallback: the loop of Execute once more, with a callback before each wait. The calls
-- made to `onRetry` are a list of attempt, error and delay; `has_callback` says that it is not nil.
use syntor.Common.{
  ℕ, zero, suc, ◌+◌, ◌≡◌, refl, ap, sym, ◌∙◌, Bool, true, not, ◌&&◌, List, [], ◌∷◌, ◌++◌, none,
  some, Option-cases, inl, inr, ltb, if◌then◌else◌, arith,
}
use syntor.Resilience.Retry.{
  Floats, RetryConfig, RetryResult, canceled, failed, Run, should_retry_error, delay_after, delayed,
  loop, no_result, execute,
}

-- attempt, err and delay of a call of onRetry
pub record RetryCall (E : Type 0) : Type 0 where
  pub attempt : ℕ
  pub err : E
  pub delay : ℕ

abbrev pub delays : {E : Type 0} → List (RetryCall E) → ℕ
delays [] = 0
delays (call ∷ calls) = call.delay + delays calls

delays-append :
    {E : Type 0} (xs ys : List (RetryCall E)) → delays (xs ++ ys) ≡ delays xs + delays ys
delays-append [] ys = omega arith
delays-append (x ∷ xs) ys = omega (arith, delays-append xs ys)

module _ (F : Floats) {E : Type 0} (is : E → E → Bool) (c : RetryConfig F E) (run : Run F E) where
  open run use {fn, done_before, done_waiting}

  calls_after : Bool → ℕ → E → List (RetryCall E) → List (RetryCall E)
  calls_after has_callback attempt err calls =
      if ltb attempt c.max_attempts && has_callback
      then calls
        ++ record { attempt = attempt; err = err; delay = delay_after F is c run attempt } ∷ []
      else calls

  callback_loop :
      Bool → ℕ → ℕ → RetryResult E → ℕ → List (RetryCall E) → RetryResult E × List (RetryCall E)
  callback_loop has zero attempt result total calls = (record result { total_delay = total }, calls)
  callback_loop has (suc left) attempt result total calls =
      let started = record result { attempts = attempt } in
      if done_before attempt
      then (record started { last_error = some canceled; total_delay = total }, calls)
      else elim (fn attempt) [
        | none ↦ (record started { success = true; total_delay = total }, calls)
        | some err ↦
            let tried = record started { last_error = some (failed err) } in
            let next = delayed F is c run attempt total in
            let told = calls_after has attempt err calls in
            let rest = callback_loop has left (attempt + 1) tried next told in
            if not (should_retry_error F is c err)
            then (record tried { total_delay = total }, calls)
            else if ltb attempt c.max_attempts && done_waiting attempt
            then (record tried { last_error = some canceled; total_delay = next }, told)
            else rest
      ]

  unfoldable pub execute_with_callback : Bool → RetryResult E × List (RetryCall E)
  unfolding callback_loop calls_after
  execute_with_callback has = callback_loop has c.max_attempts 1 (no_result F is c run) 0 []

  callback_loop-result :
      (has : Bool) (left attempt : ℕ) (result : RetryResult E) (total : ℕ)
      (calls : List (RetryCall E))
      → (callback_loop has left attempt result total calls).0
        ≡ loop F is c run left attempt result total
  unfolding callback_loop loop
  callback_loop-result has zero attempt result total calls = refl
  callback_loop-result has (suc left) attempt result total calls =
      elim (Option-cases (fn attempt)) [
        | inl ok ↦ ground arith
        | inr (err, bad) ↦ ground (
          arith,
          callback_loop-result has left (attempt + 1)
              (record result { attempts = attempt; last_error = some (failed err) })
              (delayed F is c run attempt total) (calls_after has attempt err calls),
        )
      ]

  calls_after-delays :
      (attempt total : ℕ) (err : E) (calls : List (RetryCall E))
      → total ≡ delays calls
      → delayed F is c run attempt total ≡ delays (calls_after true attempt err calls)
  unfolding calls_after
  calls_after-delays attempt total err calls e = ground (
    arith,
    delays-append calls
        (record { attempt = attempt; err = err; delay = delay_after F is c run attempt } ∷ []),
  )

  callback_loop-delays :
      (left attempt : ℕ) (result : RetryResult E) (total : ℕ) (calls : List (RetryCall E))
      → total ≡ delays calls
      → let (r, told) = callback_loop true left attempt result total calls in
        r.total_delay ≡ delays told
  unfolding callback_loop
  callback_loop-delays zero attempt result total calls e = e
  callback_loop-delays (suc left) attempt result total calls e = elim (Option-cases (fn attempt)) [
    | inl ok ↦ ground arith
    | inr (err, bad) ↦ ground (
      arith,
      calls_after-delays attempt total err calls e,
      callback_loop-delays left (attempt + 1)
          (record result { attempts = attempt; last_error = some (failed err) })
          (delayed F is c run attempt total) (calls_after true attempt err calls)
          (calls_after-delays attempt total err calls e),
    )
  ]

  -- ExecuteWithCallback returns the same result as Execute, with a callback or without, and where
  -- it has a callback the delays that the callback is told add up to the total delay of the result.
  pub execute_with_callback_lem :
      ((has : Bool) → (execute_with_callback has).0 ≡ execute F is c run)
      × ((execute F is c run).total_delay ≡ delays (execute_with_callback true).1)
  unfolding execute_with_callback execute
  execute_with_callback_lem =
      let same =
        λ (has : Bool). callback_loop-result has c.max_attempts 1 (no_result F is c run) 0 [] in
      (
        same,
        ap (λ (r : RetryResult E). r.total_delay) (sym (same true))
            ∙ callback_loop-delays c.max_attempts 1 (no_result F is c run) 0 [] refl,
      )
