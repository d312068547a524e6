-- ===== src/Coordination/Plan.antt =====
-- ExecutePlan of pkg/coordination/executor.go, on the plans of protocol.go.
-- The steps of a wave run concurrently, and their results come out of a channel in some order:
-- the parameter `run_wave` gives them in that order. The map of completed steps is the list of its
-- keys, the newest first.
pub mod Counting
pub mod Completion
pub mod Liveness
pub mod Order
pub mod Termination
mod Tests
use syntor.Common.{
  ℕ, zero, suc, ◌+◌, ◌-◌, ◌≡◌, String, Bool, true, false, ◌&&◌, ◌||◌, List, [], ◌∷◌, Option, none,
  some, leb, ◌==◌, if◌then◌else◌, length, map,
}

pub record PlanStep : Type 0 where
  pub step_number : ℕ
  pub agent : String
  pub action : String
  pub depends_on : List ℕ

pub data ResultStatus : Type 0 where
  success error partial timeout : ResultStatus

pub data PlanStatus : Type 0 where
  pending approved executing completed failed cancelled : PlanStatus

-- The errors that ExecutePlan ends with.
pub data PlanError : Type 0 where
  stuck : ℕ → PlanError
  step_failed : ℕ → String → PlanError
  step_returned : ℕ → ResultStatus → PlanError

-- What Execute returned for a step: the result's status, if there is one, and the error.
pub record StepResult : Type 0 where
  pub step_num : ℕ
  pub result : Option ResultStatus
  pub err : Option String

-- PlanExecution, with the map of completed steps that the loop keeps.
pub record PlanExecution : Type 0 where
  pub status : PlanStatus
  pub current_step : ℕ
  pub step_results : List (ℕ × Option ResultStatus)
  pub done_steps : List ℕ
  pub failure : Option PlanError

abbrev pub new_execution : PlanExecution
new_execution = record {
  status = executing;
  current_step = 0;
  step_results = [];
  done_steps = [];
  failure = none;
}

-- `completed[n]`
unfoldable pub is_done : ℕ → List ℕ → Bool
is_done n [] = false
is_done n (m ∷ ms) = m == n || is_done n ms

-- `completed[n] = true`
unfoldable pub mark_done : ℕ → List ℕ → List ℕ
unfolding is_done
mark_done n ms = if is_done n ms then ms else n ∷ ms

-- The loop over a step's dependencies.
unfoldable pub deps_ready : List ℕ → List ℕ → Bool
unfolding is_done
deps_ready [] done = true
deps_ready (dep ∷ deps) done = is_done dep done && deps_ready deps done

-- The loop that finds the ready steps.
unfoldable pub ready_steps : List PlanStep → List ℕ → List PlanStep
unfolding is_done deps_ready
ready_steps [] done = []
ready_steps (step ∷ steps) done =
    let others = ready_steps steps done in
    if is_done step.step_number done
    then others
    else if deps_ready step.depends_on done
    then step ∷ others
    else others

-- A status other than success.
abbrev pub bad_status : Option ResultStatus → Option ResultStatus
bad_status none = none
bad_status (some success) = none
bad_status (some error) = some error
bad_status (some partial) = some partial
bad_status (some timeout) = some timeout

unfoldable pub note_result : StepResult → PlanExecution → PlanExecution
note_result sr x = record x { step_results = (sr.step_num, sr.result) ∷ x.step_results }

unfoldable pub fail_plan : PlanError → PlanExecution → PlanExecution
fail_plan why x = record x { status = failed; failure = some why }

unfoldable pub complete_step : ℕ → PlanExecution → PlanExecution
unfolding mark_done
complete_step n x = record x {
  done_steps = mark_done n x.done_steps;
  current_step = length (mark_done n x.done_steps);
}

-- The loop that collects the results of a wave, and whether the plan goes on.
unfoldable pub collect : List StepResult → PlanExecution → PlanExecution × Bool
unfolding note_result fail_plan complete_step
collect [] x = (x, true)
collect (sr ∷ rest) x =
    let noted = note_result sr x in
    let later = collect rest (complete_step sr.step_num noted) in
    elim sr.err [
      | some e ↦ (fail_plan (step_failed sr.step_num e) noted, false)
      | none ↦ elim (bad_status sr.result) [
        | some s ↦ (fail_plan (step_returned sr.step_num s) noted, false)
        | none ↦ later
      ]
    ]

pub data PlanOutcome : Type 0 where
  ended : PlanExecution → PlanOutcome
  out_of_fuel : PlanOutcome

module _ (run_wave : List PlanStep → PlanExecution → List StepResult) where
  -- The loop over the waves.
  unfoldable pub waves : ℕ → List PlanStep → PlanExecution → PlanOutcome
  unfolding ready_steps collect fail_plan
  waves zero steps x = out_of_fuel
  waves (suc fuel) steps x =
      let ready = ready_steps steps x.done_steps in
      let collected = collect (run_wave ready x) x in
      let rest = waves fuel steps collected.0 in
      if leb (length steps) (length x.done_steps)
      then ended (record x { status = completed })
      else elim ready [
        | [] ↦ ended (fail_plan (stuck (length steps - length x.done_steps)) x)
        | step ∷ others ↦ if collected.1 then rest else ended collected.0
      ]

  -- ExecutePlan
  unfoldable pub execute_plan : List PlanStep → PlanOutcome
  unfolding waves
  execute_plan steps = waves (length steps + 1) steps new_execution
