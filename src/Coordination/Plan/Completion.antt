-- ===== src/Coordination/Plan/Completion.antt =====
-- What an ended plan has done.
use syntor.Common.{
  ℕ, zero, suc, ◌+◌, ◌-◌, ◌≤◌, ◌≡◌, inl, inr, refl, sym, ap, subst, ◌∙◌, true, List, [], ◌∷◌,
  length, map, arith, All, Any, Any-mono, ◌==◌, Bool-cases,
}
use syntor.Coordination.Plan.{
  PlanStep, PlanExecution, StepResult, is_done, deps_ready, ready_steps, completed, executing,
  stuck, fail_plan, ended, waves, execute_plan, new_execution,
}
use syntor.Coordination.Plan.Counting.{IsDistinct, pigeonhole}
use syntor.Coordination.Plan.Order.{
  InOrder, IsReady, IsGood, collect-IsGood, collect_status, ready_steps-IsReady, InOrder-numbers,
}
use syntor.Coordination.Plan.Termination.{Delivers, wave, waves_cases}

pub length-numbers :
    (steps : List PlanStep) → length (map (λ s. s.step_number) steps) ≡ length steps
length-numbers [] = refl
length-numbers (s ∷ steps) = ap suc (length-numbers steps)

All-numbers :
    (steps : List PlanStep) (done : List ℕ)
    → ((n : ℕ) → is_done n (map (λ s. s.step_number) steps) ≡ true → is_done n done ≡ true)
    → All (λ s. is_done s.step_number done ≡ true) steps
unfolding is_done
All-numbers [] done sub = tt
All-numbers (s ∷ steps) done sub =
    (sub s.step_number (ground arith), All-numbers steps done (λ n e. sub n (ground arith)))

-- The number is that of a step, and each number it depends on is in the list.
abbrev Follows : List ℕ → ℕ → PlanStep → Type 0
Follows older n s = (s.step_number ≡ n) × All (λ dep. Any (λ m. m ≡ dep) older) s.depends_on

-- Each number, from the oldest on, is that of a step of the plan, and what the step depends on is
-- among the older ones.
abbrev pub IsOrdered : List PlanStep → List ℕ → Type 0
IsOrdered steps [] = Unit
IsOrdered steps (n ∷ older) = Any (Follows older n) steps × IsOrdered steps older

is_done-Any : (n : ℕ) (ms : List ℕ) → is_done n ms ≡ true → Any (λ m. m ≡ n) ms
unfolding is_done
is_done-Any n [] e = absurd (ground arith)
is_done-Any n (m ∷ ms) e = elim (Bool-cases (m == n)) [
  | inl this ↦ inl (ground arith)
  | inr other ↦ inr (is_done-Any n ms (ground arith))
]

deps_ready-All :
    (deps done : List ℕ) → deps_ready deps done ≡ true → All (λ dep. Any (λ m. m ≡ dep) done) deps
unfolding deps_ready
deps_ready-All [] done e = tt
deps_ready-All (dep ∷ deps) done e =
    let there : is_done dep done ≡ true = ground arith in
    let others : deps_ready deps done ≡ true = ground arith in
    (is_done-Any dep done there, deps_ready-All deps done others)

InOrder-IsOrdered :
    (steps : List PlanStep) (done : List ℕ) → InOrder steps done → IsOrdered steps done
InOrder-IsOrdered steps [] o = tt
InOrder-IsOrdered steps (n ∷ older) (ready, o) = (
  Any-mono (IsReady older n) (Follows older n) steps
      (λ s r. (r.0, deps_ready-All s.depends_on older r.1)) ready,
  InOrder-IsOrdered steps older o,
)

ended_injective : (x y : PlanExecution) → ended x ≡ ended y → x ≡ y
ended_injective x y e = ground arith

-- An ended plan's steps are in order, and a completed one has as many as the plan.
abbrev IsSettled : List PlanStep → PlanExecution → Type 0
IsSettled steps x =
    IsGood steps x.done_steps × (x.status ≡ completed → length steps ≤ length x.done_steps)

module _ (run_wave : List PlanStep → PlanExecution → List StepResult)
    (delivers : Delivers run_wave) where
  wave-IsGood :
      (steps : List PlanStep) (x : PlanExecution)
      → IsGood steps x.done_steps
      → IsGood steps (wave run_wave steps x).0.done_steps
  wave-IsGood steps x g =
      let ready = ready_steps steps x.done_steps in
      collect-IsGood steps x.done_steps (run_wave ready x) x
        (λ n e. ready_steps-IsReady steps x.done_steps n (sym (delivers ready x n) ∙ e)) (λ n e. e)
        g

  waves-IsGood :
      (fuel : ℕ) (steps : List PlanStep) (x x' : PlanExecution)
      → x.status ≡ executing
      → IsGood steps x.done_steps
      → waves run_wave fuel steps x ≡ ended x'
      → IsSettled steps x'
  unfolding waves fail_plan
  waves-IsGood zero steps x x' s g e = absurd (ground arith)
  waves-IsGood (suc fuel) steps x x' s g e = elim (waves_cases run_wave fuel steps x) [
    | inl (full, e') ↦
        let y = record x { status = completed } in
        subst (IsSettled steps) (ended_injective y x' (sym e' ∙ e)) (g, λ c. full)
    | inr (inl (more, none_ready, e')) ↦
        let y = fail_plan (stuck (length steps - length x.done_steps)) x in
        subst (IsSettled steps) (ended_injective y x' (sym e' ∙ e)) (g, λ c. absurd (ground arith))
    | inr (inr (inl (more, off, e'))) ↦
        let y = (wave run_wave steps x).0 in
        let bad = (collect_status (run_wave (ready_steps steps x.done_steps) x) x s).1 off in
        subst (IsSettled steps) (ended_injective y x' (sym e' ∙ e))
          (wave-IsGood steps x g, λ c. absurd (ground arith))
    | inr (inr (inr (more, some_ready, on, e'))) ↦
        waves-IsGood fuel steps (wave run_wave steps x).0 x'
          ((collect_status (run_wave (ready_steps steps x.done_steps) x) x s).0 on)
          (wave-IsGood steps x g) (sym e' ∙ e)
  ]

  -- Where each step that a wave starts sends a result, and no other step does: however ExecutePlan
  -- ends, also when it fails, it has completed no step twice, and each step that it completed is one
  -- of the plan's, all of whose dependencies were completed before it.
  pub execute_plan-InOrder :
      (steps : List PlanStep) (x : PlanExecution)
      → execute_plan run_wave steps ≡ ended x
      → IsOrdered steps x.done_steps × IsDistinct x.done_steps
  unfolding execute_plan
  execute_plan-InOrder steps x e =
      let (o, d) = (waves-IsGood (length steps + 1) steps new_execution x refl (tt, tt) e).0 in
      (InOrder-IsOrdered steps x.done_steps o, d)

  -- Under the same condition, a plan that ends as completed has completed the step of every number
  -- in it, and its step numbers are distinct: a plan that repeats a step number never completes.
  pub execute_plan_completed :
      (steps : List PlanStep) (x : PlanExecution)
      → execute_plan run_wave steps ≡ ended x
      → x.status ≡ completed
      → All (λ s. is_done s.step_number x.done_steps ≡ true) steps
        × IsDistinct (map (λ s. s.step_number) steps)
  unfolding execute_plan
  execute_plan_completed steps x e c =
      let ((o, d), full) = waves-IsGood (length steps + 1) steps new_execution x refl (tt, tt) e in
      let numbers = map (λ s. s.step_number) steps in
      let (all, distinct) =
        pigeonhole x.done_steps numbers d (λ n e. InOrder-numbers steps x.done_steps n o e)
          (omega (arith, length-numbers steps, full c)) in
      (All-numbers steps x.done_steps all, distinct)
