-- ===== src/Coordination/Plan/Liveness.antt =====
-- A sound plan whose steps succeed is completed.
use syntor.Common.{
  ℕ, zero, suc, ◌+◌, ◌-◌, ◌<◌, ◌≡◌, inl, inr, refl, sym, ap, ◌∙◌, true, List, [], ◌∷◌, none, ◌==◌,
  length, map, arith, All, Bool-cases,
}
use syntor.Coordination.Plan.{
  PlanStep, PlanExecution, StepResult, is_done, deps_ready, ready_steps, collect, note_result,
  complete_step, bad_status, completed, ended, waves, execute_plan, new_execution,
}
use syntor.Coordination.Plan.Counting.{IsDistinct, length_le}
use syntor.Coordination.Plan.Order.{Within, deps_ready_later}
use syntor.Coordination.Plan.Termination.{Delivers, wave, wave_lt, waves_cases}
use syntor.Coordination.Plan.Completion.{length-numbers}

-- The step was executed without an error, and with no status but success.
abbrev pub Succeeded : StepResult → Type 0
Succeeded sr = (sr.err ≡ none) × (bad_status sr.result ≡ none)

abbrev pub Succeeds : (List PlanStep → PlanExecution → List StepResult) → Type 0
Succeeds run_wave = (steps : List PlanStep) (x : PlanExecution) → All Succeeded (run_wave steps x)

-- Each step depends on steps that stand before it only, `earlier` being the numbers before.
abbrev pub IsSorted : List ℕ → List PlanStep → Type 0
IsSorted earlier [] = Unit
IsSorted earlier (s ∷ steps) =
    (deps_ready s.depends_on earlier ≡ true) × IsSorted (s.step_number ∷ earlier) steps

collect_succeeds :
    (rs : List StepResult) (x : PlanExecution) → All Succeeded rs → (collect rs x).1 ≡ true
unfolding collect
collect_succeeds [] x h = refl
collect_succeeds (sr ∷ rs) x ((e, b), h) =
    let ih = collect_succeeds rs (complete_step sr.step_num (note_result sr x)) h in
    ground (arith, ih)

Within-nothing : (done : List ℕ) → Within [] done
unfolding is_done
Within-nothing done n e = absurd (ground arith)

-- If no step of a sorted plan is ready, all of them are done.
none_ready_done :
    (earlier : List ℕ) (steps : List PlanStep) (done : List ℕ)
    → IsSorted earlier steps
    → Within earlier done
    → ready_steps steps done ≡ []
    → Within (map (λ s. s.step_number) steps) done
unfolding is_done ready_steps
none_ready_done earlier [] done sorted w e n there = absurd (ground arith)
none_ready_done earlier (s ∷ steps) done (deps, sorted) w e n there =
    let ready = deps_ready_later s.depends_on earlier done w deps in
    elim (Bool-cases (is_done s.step_number done)) [
      | inr new ↦ absurd (ground arith)
      | inl old ↦
          let rest : ready_steps steps done ≡ [] = ground arith in
          let w' : Within (s.step_number ∷ earlier) done = λ k e.
            elim (Bool-cases (s.step_number == k)) [
              | inl this ↦
                  let p : s.step_number ≡ k = ground arith in ap (λ k. is_done k done) (sym p) ∙ old
              | inr other ↦ w k (ground arith)
            ] in
          elim (Bool-cases (s.step_number == n)) [
            | inl this ↦
                let p : s.step_number ≡ n = ground arith in ap (λ k. is_done k done) (sym p) ∙ old
            | inr other ↦
                none_ready_done (s.step_number ∷ earlier) steps done sorted w' rest n (ground arith)
          ]
    ]

module _ (run_wave : List PlanStep → PlanExecution → List StepResult) (delivers : Delivers run_wave)
    (succeeds : Succeeds run_wave) where
  waves_complete :
      (fuel : ℕ) (steps : List PlanStep) (x : PlanExecution)
      → IsSorted [] steps
      → IsDistinct (map (λ s. s.step_number) steps)
      → length steps - length x.done_steps < fuel
      → (x' : PlanExecution) × (waves run_wave fuel steps x ≡ ended x') × (x'.status ≡ completed)
  waves_complete zero steps x sorted distinct enough = absurd (omega arith)
  waves_complete (suc fuel) steps x sorted distinct enough =
      let ready = ready_steps steps x.done_steps in
      let good = collect_succeeds (run_wave ready x) x (succeeds ready x) in
      elim (waves_cases run_wave fuel steps x) [
        | inl (full, e) ↦ (record x { status = completed }, e, refl)
        | inr (inl (more, none_ready, e)) ↦
            let all =
              none_ready_done [] steps x.done_steps sorted (Within-nothing x.done_steps)
                none_ready in
            absurd (
              omega (
                arith,
                length_le (map (λ s. s.step_number) steps) x.done_steps distinct all,
                length-numbers steps,
              ))
        | inr (inr (inl (more, off, e))) ↦ absurd (ground arith)
        | inr (inr (inr (more, some_ready, on, e))) ↦
            let grows = wave_lt run_wave delivers steps x some_ready on in
            let (x', e', c) =
              waves_complete fuel steps (wave run_wave steps x).0 sorted distinct (omega arith) in
            (x', e ∙ e', c)
      ]

  -- Where each step that a wave starts sends a result, no other step does, and every result is a
  -- success: a plan whose step numbers are distinct, and whose steps depend only on steps that
  -- stand before them, ends as completed.
  pub execute_plan_completes :
      (steps : List PlanStep)
      → IsSorted [] steps
      → IsDistinct (map (λ s. s.step_number) steps)
      → (x : PlanExecution) × (execute_plan run_wave steps ≡ ended x) × (x.status ≡ completed)
  unfolding execute_plan
  execute_plan_completes steps sorted distinct =
      waves_complete (length steps + 1) steps new_execution sorted distinct (omega arith)
