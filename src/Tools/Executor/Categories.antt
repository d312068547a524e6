-- ===== src/Tools/Executor/Categories.antt =====
-- categorizeCalls: where each call goes.
use syntor.Common.{
  ℕ, zero, suc, ◌+◌, ◌≤◌, ◌≡◌, inl, inr, ap, ◌∙◌, false, List, [], ◌∷◌, some, get_elem?, All, Any,
  All-mono, Any-mono, arith, Bool-cases,
}
use syntor.Tools.{ToolCall}
use syntor.Tools.Executor.{is_modifying, parallel_calls, sequential_calls}

module _ {Params : Type 0} where
  parallel_calls-le :
      (k : ℕ) (calls : List (ToolCall Params)) → All (λ p. k ≤ p.0) (parallel_calls k calls)
  unfolding parallel_calls
  parallel_calls-le k [] = tt
  parallel_calls-le k (call ∷ calls) =
      let ih =
        All-mono (λ p. suc k ≤ p.0) (λ p. k ≤ p.0) (parallel_calls (suc k) calls)
          (λ p h. omega arith) (parallel_calls-le (suc k) calls) in
      elim (Bool-cases (is_modifying call.name)) [
        | inl m ↦ rw m ih
        | inr m ↦ rw m (omega arith, ih)
      ]

  pub sequential_calls-le :
      (k : ℕ) (calls : List (ToolCall Params)) → All (λ p. k ≤ p.0) (sequential_calls k calls)
  unfolding sequential_calls
  sequential_calls-le k [] = tt
  sequential_calls-le k (call ∷ calls) =
      let ih =
        All-mono (λ p. suc k ≤ p.0) (λ p. k ≤ p.0) (sequential_calls (suc k) calls)
          (λ p h. omega arith) (sequential_calls-le (suc k) calls) in
      elim (Bool-cases (is_modifying call.name)) [
        | inr m ↦ rw m ih
        | inl m ↦ rw m (omega arith, ih)
      ]

  -- Another call is there, under its index only.
  pub parallel_calls_at :
      (k : ℕ) (calls : List (ToolCall Params)) (i : ℕ) (c : ToolCall Params)
      → get_elem? calls i ≡ some c
      → is_modifying c.name ≡ false
      → Any (λ p. p.0 ≡ k + i) (parallel_calls k calls)
        × All (λ p. p.0 ≡ k + i → p.1 ≡ c) (parallel_calls k calls)
  unfolding parallel_calls
  parallel_calls_at k [] i c found m = absurd (ground arith)
  parallel_calls_at k (call ∷ calls) zero c found m =
      let same : call ≡ c = ground arith in
      let n : is_modifying call.name ≡ false = ap (λ c. is_modifying c.name) same ∙ m in
      rw n (
        inl (omega arith),
        (
          (λ e. same),
          All-mono (λ p. suc k ≤ p.0) (λ p. p.0 ≡ k + 0 → p.1 ≡ c) (parallel_calls (suc k) calls)
              (λ p h e. absurd (omega arith)) (parallel_calls-le (suc k) calls),
        ),
      )
  parallel_calls_at k (call ∷ calls) (suc i) c found m =
      let (there, only) = parallel_calls_at (suc k) calls i c found m in
      let any =
        Any-mono (λ p. p.0 ≡ suc k + i) (λ p. p.0 ≡ k + suc i) (parallel_calls (suc k) calls)
          (λ p h. omega arith) there in
      let all =
        All-mono (λ p. p.0 ≡ suc k + i → p.1 ≡ c) (λ p. p.0 ≡ k + suc i → p.1 ≡ c)
          (parallel_calls (suc k) calls) (λ p h e. h (omega arith)) only in
      elim (Bool-cases (is_modifying call.name)) [
        | inl n ↦ rw n (any, all)
        | inr n ↦ rw n (inr any, ((λ e. absurd (omega arith)), all))
      ]

  pub parallel_calls-All :
      (P : ToolCall Params → Type 0) (k : ℕ) (calls : List (ToolCall Params))
      → All (λ c. is_modifying c.name ≡ false → P c) calls
      → All (λ p. P p.1) (parallel_calls k calls)
  unfolding parallel_calls
  parallel_calls-All P k [] h = tt
  parallel_calls-All P k (call ∷ calls) (h, all) =
      let ih = parallel_calls-All P (suc k) calls all in
      elim (Bool-cases (is_modifying call.name)) [ inl n ↦ rw n ih | inr n ↦ rw n (h n, ih) ]
