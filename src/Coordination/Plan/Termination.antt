-- ===== src/Coordination/Plan/Termination.antt =====
-- A plan ends: every wave that goes on completes a step.
use syntor.Common.{
  ℕ, zero, suc, ◌+◌, ◌-◌, ◌<◌, ◌≤◌, ◌≡◌, ◌⊎◌, inl, inr, refl, ap, ◌∙◌, Bool, true, false, List, [],
  ◌∷◌, leb, ◌==◌, length, map, arith, Bool-cases,
}
use syntor.Coordination.Plan.{
  PlanStep, PlanExecution, StepResult, is_done, mark_done, ready_steps, collect, note_result,
  complete_step, fail_plan, stuck, completed, ended, waves, execute_plan, new_execution,
}

-- Each step that a wave starts sends a result, and no other step does.
abbrev pub Delivers : (List PlanStep → PlanExecution → List StepResult) → Type 0
Delivers run_wave =
    (steps : List PlanStep) (x : PlanExecution) (n : ℕ)
    → is_done n (map (λ sr. sr.step_num) (run_wave steps x))
      ≡ is_done n (map (λ s. s.step_number) steps)

mark_done_le : (n : ℕ) (ms : List ℕ) → length ms ≤ length (mark_done n ms)
unfolding mark_done
mark_done_le n ms = ground arith

collect_le :
    (rs : List StepResult) (x : PlanExecution)
    → length x.done_steps ≤ length (collect rs x).0.done_steps
unfolding collect note_result complete_step fail_plan
collect_le [] x = omega arith
collect_le (sr ∷ rest) x =
    let noted = complete_step sr.step_num (note_result sr x) in
    let ih = collect_le rest noted in
    let m = mark_done_le sr.step_num x.done_steps in ground (arith, ih, m)

collect_lt :
    (sr : StepResult) (rest : List StepResult) (x : PlanExecution)
    → is_done sr.step_num x.done_steps ≡ false
    → (collect (sr ∷ rest) x).1 ≡ true
    → length x.done_steps < length (collect (sr ∷ rest) x).0.done_steps
unfolding collect note_result complete_step fail_plan mark_done
collect_lt sr rest x new goes_on =
    let noted = complete_step sr.step_num (note_result sr x) in
    let ih = collect_le rest noted in ground (arith, ih)

pub ready_not_done :
    (steps : List PlanStep) (done : List ℕ) (n : ℕ)
    → is_done n (map (λ s. s.step_number) (ready_steps steps done)) ≡ true
    → is_done n done ≡ false
unfolding ready_steps is_done
ready_not_done [] done n e = absurd (ground arith)
ready_not_done (s ∷ steps) done n e =
    let ih = ready_not_done steps done n in
    elim (Bool-cases (s.step_number == n)) [
      | inl same ↦ let p : s.step_number ≡ n = ground arith in ground (arith, ih, p)
      | inr other ↦ ground (arith, ih)
    ]

List-cases :
    (steps : List PlanStep)
    → (steps ≡ []) ⊎ ((s : PlanStep) × (others : List PlanStep) × (steps ≡ s ∷ others))
List-cases [] = inl refl
List-cases (s ∷ others) = inr (s, others, refl)

module _ (run_wave : List PlanStep → PlanExecution → List StepResult) where
  abbrev pub wave : List PlanStep → PlanExecution → PlanExecution × Bool
  wave steps x = collect (run_wave (ready_steps steps x.done_steps) x) x

  -- The ways that a round of the loop ends, and the one in which it goes on.
  pub waves_cases :
      (fuel : ℕ) (steps : List PlanStep) (x : PlanExecution)
      → ((length steps ≤ length x.done_steps)
          × (waves run_wave (suc fuel) steps x ≡ ended (record x { status = completed })))
        ⊎ ((length x.done_steps < length steps)
            × (ready_steps steps x.done_steps ≡ [])
            × (waves run_wave (suc fuel) steps x
                ≡ ended (fail_plan (stuck (length steps - length x.done_steps)) x)))
        ⊎ ((length x.done_steps < length steps)
            × ((wave steps x).1 ≡ false)
            × (waves run_wave (suc fuel) steps x ≡ ended (wave steps x).0))
        ⊎ ((length x.done_steps < length steps)
            × ((s : PlanStep) × (others : List PlanStep) × (ready_steps steps x.done_steps
                  ≡ s ∷ others))
            × ((wave steps x).1 ≡ true)
            × (waves run_wave (suc fuel) steps x ≡ waves run_wave fuel steps (wave steps x).0))
  unfolding waves
  waves_cases fuel steps x = elim (Bool-cases (leb (length steps) (length x.done_steps))) [
    | inl full ↦ inl (ground arith, ground arith)
    | inr more ↦ elim (List-cases (ready_steps steps x.done_steps)) [
      | inl none_ready ↦ inr (inl (ground arith, none_ready, ground arith))
      | inr (s, others, some_ready) ↦ elim (Bool-cases (wave steps x).1) [
        | inl on ↦ inr (inr (inr (ground arith, (s, others, some_ready), on, ground arith)))
        | inr off ↦ inr (inr (inl (ground arith, off, ground arith)))
      ]
    ]
  ]

module _ (run_wave : List PlanStep → PlanExecution → List StepResult)
    (delivers : Delivers run_wave) where
  delivered_lt :
      (ready : List PlanStep) (x : PlanExecution) (rs : List StepResult) (s : PlanStep)
      (others : List PlanStep)
      → ready ≡ s ∷ others
      → ((n : ℕ)
          → is_done n (map (λ sr. sr.step_num) rs) ≡ is_done n (map (λ s. s.step_number) ready))
      → ((n : ℕ)
          → is_done n (map (λ s. s.step_number) ready) ≡ true
          → is_done n x.done_steps ≡ false)
      → (collect rs x).1 ≡ true
      → length x.done_steps < length (collect rs x).0.done_steps
  unfolding is_done
  delivered_lt ready x [] s others e same new goes_on =
      let numbers = ap (λ steps. is_done s.step_number (map (λ s. s.step_number) steps)) e in
      absurd (ground (arith, same s.step_number, numbers))
  delivered_lt ready x (sr ∷ rs) s others e same new goes_on =
      collect_lt sr rs x (new sr.step_num (ground (arith, same sr.step_num))) goes_on

  -- A wave that goes on completes a step.
  pub wave_lt :
      (steps : List PlanStep) (x : PlanExecution)
      → ((s : PlanStep) × (others : List PlanStep) × (ready_steps steps x.done_steps ≡ s ∷ others))
      → (wave run_wave steps x).1 ≡ true
      → length x.done_steps < length (wave run_wave steps x).0.done_steps
  wave_lt steps x (s, others, some_ready) on =
      let ready = ready_steps steps x.done_steps in
      delivered_lt ready x (run_wave ready x) s others some_ready (delivers ready x)
        (ready_not_done steps x.done_steps) on

  waves_end :
      (fuel : ℕ) (steps : List PlanStep) (x : PlanExecution)
      → length steps - length x.done_steps < fuel
      → (x' : PlanExecution) × (waves run_wave fuel steps x ≡ ended x')
  waves_end zero steps x enough = absurd (omega arith)
  waves_end (suc fuel) steps x enough = elim (waves_cases run_wave fuel steps x) [
    | inl (full, e) ↦ (record x { status = completed }, e)
    | inr (inl (more, none_ready, e)) ↦
        (fail_plan (stuck (length steps - length x.done_steps)) x, e)
    | inr (inr (inl (more, off, e))) ↦ ((wave run_wave steps x).0, e)
    | inr (inr (inr (more, some_ready, on, e))) ↦
        let grows = wave_lt steps x some_ready on in
        let (x', e') = waves_end fuel steps (wave run_wave steps x).0 (omega arith) in (x', e ∙ e')
  ]

  -- Where each step that a wave starts sends a result, and no other step does, ExecutePlan ends
  -- whatever the plan is, cyclic or with repeated step numbers: as many rounds as there are steps,
  -- and one more, are enough.
  pub execute_plan_ends :
      (steps : List PlanStep) → (x : PlanExecution) × (execute_plan run_wave steps ≡ ended x)
  unfolding execute_plan
  execute_plan_ends steps = waves_end (length steps + 1) steps new_execution (omega arith)
