-- ===== src/Coordination/Plan/Tests.antt =====
-- Plans at concrete inputs.
use syntor.Common.{ℕ, ◌≡◌, refl, true, List, [], ◌∷◌, none, some, map, All, ◌==◌, ◌||◌, ap}
use syntor.Coordination.Plan.{
  PlanStep, PlanExecution, StepResult, success, completed, failed, stuck, is_done, ended,
  execute_plan, new_execution, deps_ready,
}
use syntor.Coordination.Plan.Termination.{Delivers, execute_plan_ends}
use syntor.Coordination.Plan.Liveness.{Succeeded, execute_plan_completes}
use syntor.Coordination.Plan.Completion.{IsOrdered, execute_plan-InOrder, execute_plan_completed}

-- Every step succeeds, and the results come in the order of the steps.
abbrev succeed : PlanStep → StepResult
succeed s = record { step_num = s.step_number; result = some success; err = none }

abbrev all_succeed : List PlanStep → PlanExecution → List StepResult
all_succeed steps x = map succeed steps

all_succeed-Delivers : Delivers all_succeed
unfolding is_done
all_succeed-Delivers [] x n = refl
all_succeed-Delivers (s ∷ steps) x n =
    ap (λ b. s.step_number == n || b) (all_succeed-Delivers steps x n)

abbrev step : ℕ → List ℕ → PlanStep
step n deps = record { step_number = n; agent = "coder"; action = "work"; depends_on = deps }

abbrev diamond : List PlanStep
diamond = step 4 (2 ∷ 3 ∷ []) ∷ step 2 (1 ∷ []) ∷ step 3 (1 ∷ []) ∷ step 1 [] ∷ []

abbrev diamond_end : PlanExecution
diamond_end = record {
  status = completed;
  current_step = 4;
  step_results = (4, some success) ∷ (3, some success) ∷ (2, some success) ∷ (1, some success) ∷ [];
  done_steps = 4 ∷ 3 ∷ 2 ∷ 1 ∷ [];
  failure = none;
}

diamond_run : execute_plan all_succeed diamond ≡ ended diamond_end
unfolding execute_plan
diamond_run = refl

-- A plan with a cycle is stuck, and so is one that repeats a step number, with every step run.
cyclic_run :
    execute_plan all_succeed (step 1 (2 ∷ []) ∷ step 2 (1 ∷ []) ∷ [])
    ≡ ended (record new_execution { status = failed; failure = some (stuck 2) })
unfolding execute_plan
cyclic_run = refl

repeated_run :
    execute_plan all_succeed (step 1 [] ∷ step 1 [] ∷ [])
    ≡ ended (record {
      status = failed;
      current_step = 1;
      step_results = (1, some success) ∷ (1, some success) ∷ [];
      done_steps = 1 ∷ [];
      failure = some (stuck 1);
    })
unfolding execute_plan
repeated_run = refl

execute_plan_ends_example : (x : PlanExecution) × (execute_plan all_succeed diamond ≡ ended x)
execute_plan_ends_example = execute_plan_ends all_succeed all_succeed-Delivers diamond

execute_plan-InOrder_example : IsOrdered diamond (4 ∷ 3 ∷ 2 ∷ 1 ∷ [])
unfolding execute_plan
execute_plan-InOrder_example =
    (execute_plan-InOrder all_succeed all_succeed-Delivers diamond diamond_end refl).0

execute_plan_completed_example :
    All (λ s. is_done s.step_number (4 ∷ 3 ∷ 2 ∷ 1 ∷ []) ≡ true) diamond
unfolding execute_plan
execute_plan_completed_example =
    (execute_plan_completed all_succeed all_succeed-Delivers diamond diamond_end refl refl).0

succeed-Succeeded : (steps : List PlanStep) → All Succeeded (map succeed steps)
succeed-Succeeded [] = tt
succeed-Succeeded (s ∷ steps) = ((refl, refl), succeed-Succeeded steps)

abbrev sorted_diamond : List PlanStep
sorted_diamond = step 1 [] ∷ step 3 (1 ∷ []) ∷ step 2 (1 ∷ []) ∷ step 4 (2 ∷ 3 ∷ []) ∷ []

execute_plan_completes_example :
    (x : PlanExecution) × (execute_plan all_succeed sorted_diamond ≡ ended x)
    × (x.status ≡ completed)
unfolding is_done deps_ready
execute_plan_completes_example =
    execute_plan_completes all_succeed all_succeed-Delivers (λ steps x. succeed-Succeeded steps)
      sorted_diamond (refl, (refl, (refl, (refl, tt)))) (refl, (refl, (refl, (refl, tt))))
