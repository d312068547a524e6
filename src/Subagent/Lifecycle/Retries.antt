-- ===== src/Subagent/Lifecycle/Retries.antt =====
-- The attempts of execute.
use syntor.Common.{
  ℕ, zero, suc, ◌+◌, ◌≤◌, ◌<◌, ◌≡◌, ◌⊎◌, inl, inr, refl, sym, ap, subst, Bool, true, false, ◌==◌,
  arith, Bool-cases,
}
use syntor.Subagent.Lifecycle.{
  Answer, Tries, result_of, error_of, is_success, wait, attempt_once, attempts,
}

module _ (answer : ℕ → Answer) (is_done : ℕ → Bool) where
  -- The attempts that follow one: the last is the first success, or there is none.
  abbrev pub IsLast : ℕ → ℕ → ℕ → Type 0
  IsLast from left last =
      (from ≤ last)
      × (last < from + left)
      × ((i : ℕ) → from ≤ i → i < last → is_success (answer i) ≡ false)
      × ((is_success (answer last) ≡ true) ⊎ (suc last ≡ from + left))

  abbrev pub TriedLast : ℕ → ℕ → Tries → Tries → Type 0
  TriedLast from left before after =
      (last : ℕ) × IsLast from left last
      × (after.result ≡ result_of (answer last))
      × (after.err ≡ error_of (answer last))
      × (after.calls + from ≡ before.calls + suc last)

  wait_calls : (left attempt : ℕ) (t : Tries) → (wait answer is_done left attempt t).calls ≡ t.calls
  unfolding wait
  wait_calls zero attempt t = refl
  wait_calls (suc left) attempt t = ground arith

  once_calls : (from : ℕ) (t : Tries) → (attempt_once answer is_done from t).calls ≡ suc t.calls
  unfolding attempt_once
  once_calls from t = refl

  later :
      (from left last : ℕ)
      → is_success (answer from) ≡ false
      → IsLast (suc from) (suc left) last
      → IsLast from (suc (suc left)) last
  later from left last f (low, high, before, why) = (omega arith, omega arith, failures, ends why)
    where
      failures : (i : ℕ) → from ≤ i → i < last → is_success (answer i) ≡ false
      failures i a b = elim (Bool-cases (i == from)) [
        | inl e ↦
            let same : from ≡ i = ground (arith, e) in
            subst (λ i. is_success (answer i) ≡ false) same f
        | inr n ↦ before i (ground (arith, n, a)) b
      ]

      ends :
          (is_success (answer last) ≡ true) ⊎ (suc last ≡ suc from + suc left)
          → (is_success (answer last) ≡ true) ⊎ (suc last ≡ from + suc (suc left))
      ends (inl s) = inl s
      ends (inr e) = inr (omega arith)

  -- The attempt is the last.
  TriedLast-here :
      (from left : ℕ) (t after : Tries)
      → (is_success (answer from) ≡ true) ⊎ (left ≡ 0)
      → after ≡ attempt_once answer is_done from t
      → TriedLast from (suc left) t after
  unfolding attempt_once
  TriedLast-here from left t after why same = (
    from,
    (omega arith, omega arith, (λ i a b. absurd (omega arith)), ends why),
    ap (λ t. t.result) same,
    ap (λ t. t.err) same,
    omega (arith, ap (λ t. t.calls) same),
  )
    where
      ends :
          (is_success (answer from) ≡ true) ⊎ (left ≡ 0)
          → (is_success (answer from) ≡ true) ⊎ (suc from ≡ from + suc left)
      ends (inl s) = inl s
      ends (inr z) = inr (omega arith)

  pub attempts-TriedLast :
      (left from : ℕ) (t : Tries)
      → TriedLast from (suc left) t (attempts answer is_done (suc left) from t)
  unfolding attempts
  attempts-TriedLast zero from t =
      TriedLast-here from 0 t (attempts answer is_done 1 from t) (inr refl) (ground arith)
  attempts-TriedLast (suc left) from t = elim (Bool-cases (is_success (answer from))) [
    | inl s ↦
        TriedLast-here from (suc left) t (attempts answer is_done (suc (suc left)) from t) (inl s)
          (rw (attempts, s) refl)
    | inr f ↦
        let tried = attempt_once answer is_done from t in
        let waited = wait answer is_done (suc left) from tried in
        let n = wait_calls (suc left) from tried in
        let same : attempts answer is_done (suc (suc left)) from t
            ≡ attempts answer is_done (suc left) (suc from) waited =
          rw (attempts, f) refl in
        let (last, is_last, result, err, calls) = attempts-TriedLast left (suc from) waited in
        subst (TriedLast from (suc (suc left)) t) (sym same) (
          last,
          later from left last f is_last,
          result,
          err,
          omega (arith, n, calls, once_calls from t),
        )
  ]
