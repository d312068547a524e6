-- ===== src/Coordination/Plan/Order.antt =====
-- The order in which a plan completes its steps.
use syntor.Common.{
  ℕ, ◌≡◌, ◌⊎◌, inl, inr, refl, sym, ap, subst, ◌∙◌, true, false, List, [], ◌∷◌, ◌==◌, map, arith,
  Bool-cases, Option-cases, Any,
}
use syntor.Coordination.Plan.{
  PlanStep, PlanExecution, StepResult, is_done, mark_done, deps_ready, ready_steps, collect,
  note_result, complete_step, fail_plan, bad_status, executing, failed,
}
use syntor.Coordination.Plan.Counting.{IsDistinct}

-- The number is that of a step whose dependencies are all in the list.
abbrev pub IsReady : List ℕ → ℕ → PlanStep → Type 0
IsReady done n s = (s.step_number ≡ n) × (deps_ready s.depends_on done ≡ true)

-- Each number, from the oldest on, is that of a step of the plan whose dependencies are older.
abbrev pub InOrder : List PlanStep → List ℕ → Type 0
InOrder steps [] = Unit
InOrder steps (n ∷ older) = Any (IsReady older n) steps × InOrder steps older

-- The one list has all the numbers of the other.
abbrev pub Within : List ℕ → List ℕ → Type 0
Within old new = (n : ℕ) → is_done n old ≡ true → is_done n new ≡ true

pub deps_ready_later :
    (deps old new : List ℕ)
    → Within old new
    → deps_ready deps old ≡ true
    → deps_ready deps new ≡ true
unfolding deps_ready
deps_ready_later [] old new w e = refl
deps_ready_later (d ∷ deps) old new w e =
    let ih = deps_ready_later deps old new w in let there = w d in ground (arith, ih, there)

Any-IsReady-later :
    (steps : List PlanStep) (old new : List ℕ) (n : ℕ)
    → Within old new
    → Any (IsReady old n) steps
    → Any (IsReady new n) steps
Any-IsReady-later [] old new n w a = a
Any-IsReady-later (s ∷ steps) old new n w (inl (e, r)) =
    inl (e, deps_ready_later s.depends_on old new w r)
Any-IsReady-later (s ∷ steps) old new n w (inr a) = inr (Any-IsReady-later steps old new n w a)

Within-mark_done : (n : ℕ) (ms : List ℕ) → Within ms (mark_done n ms)
unfolding mark_done is_done
Within-mark_done n ms k e = ground arith

-- The state of the loop: completed in order, and nothing twice.
abbrev pub IsGood : List PlanStep → List ℕ → Type 0
IsGood steps done = InOrder steps done × IsDistinct done

mark_done-IsGood :
    (steps : List PlanStep) (n : ℕ) (done : List ℕ)
    → Any (IsReady done n) steps
    → IsGood steps done
    → IsGood steps (mark_done n done)
unfolding mark_done
mark_done-IsGood steps n done a (o, d) = elim (Bool-cases (is_done n done)) [
  | inl there ↦
      let same : mark_done n done ≡ done = ground arith in subst (IsGood steps) (sym same) (o, d)
  | inr new ↦
      let more : mark_done n done ≡ n ∷ done = ground arith in
      subst (IsGood steps) (sym more) ((a, o), (new, d))
]

-- A result is the last of the wave, or its step is completed and the next one is read.
collect_cases :
    (sr : StepResult) (rs : List StepResult) (x : PlanExecution)
    → let noted = complete_step sr.step_num (note_result sr x) in
      (((collect (sr ∷ rs) x).0.done_steps ≡ x.done_steps)
        × ((collect (sr ∷ rs) x).1 ≡ false)
        × ((collect (sr ∷ rs) x).0.status ≡ failed))
      ⊎ (collect (sr ∷ rs) x ≡ collect rs noted)
unfolding collect note_result fail_plan complete_step
collect_cases sr rs x = elim (Option-cases sr.err) [
  | inl fine ↦ elim (Option-cases (bad_status sr.result)) [
    | inl good ↦ inr (ground arith)
    | inr (s, bad) ↦ inl (ground arith)
  ]
  | inr (e, wrong) ↦ inl (ground arith)
]

pub collect-IsGood :
    (steps : List PlanStep) (base : List ℕ) (rs : List StepResult) (x : PlanExecution)
    → ((n : ℕ) → is_done n (map (λ sr. sr.step_num) rs) ≡ true → Any (IsReady base n) steps)
    → Within base x.done_steps
    → IsGood steps x.done_steps
    → IsGood steps (collect rs x).0.done_steps
unfolding is_done collect note_result complete_step
collect-IsGood steps base [] x started w g = g
collect-IsGood steps base (sr ∷ rs) x started w g = elim (collect_cases sr rs x) [
  | inl (same, off, bad) ↦ subst (IsGood steps) (sym same) g
  | inr more ↦
      let noted = complete_step sr.step_num (note_result sr x) in
      let ready = started sr.step_num (ground arith) in
      let marked =
        mark_done-IsGood steps sr.step_num x.done_steps
          (Any-IsReady-later steps base x.done_steps sr.step_num w ready) g in
      let later = λ (n : ℕ) (e : is_done n base ≡ true).
        Within-mark_done sr.step_num x.done_steps n (w n e) in
      subst (λ c. IsGood steps c.0.done_steps) (sym more)
        (collect-IsGood steps base rs noted (λ n e. started n (ground arith)) later marked)
]

pub collect_status :
    (rs : List StepResult) (x : PlanExecution)
    → x.status ≡ executing
    → ((collect rs x).1 ≡ true → (collect rs x).0.status ≡ executing)
      × ((collect rs x).1 ≡ false → (collect rs x).0.status ≡ failed)
unfolding collect note_result complete_step
collect_status [] x e = ground arith
collect_status (sr ∷ rs) x e =
    let ih = collect_status rs (complete_step sr.step_num (note_result sr x)) e in
    elim (collect_cases sr rs x) [
      | inl last ↦ ground arith
      | inr more ↦
          subst (λ c. (c.1 ≡ true → c.0.status ≡ executing) × (c.1 ≡ false → c.0.status ≡ failed))
            (sym more) ih
    ]

pub ready_steps-IsReady :
    (steps : List PlanStep) (done : List ℕ) (n : ℕ)
    → is_done n (map (λ s. s.step_number) (ready_steps steps done)) ≡ true
    → Any (IsReady done n) steps
unfolding is_done ready_steps
ready_steps-IsReady [] done n e = absurd (ground arith)
ready_steps-IsReady (s ∷ steps) done n e =
    let ih = ready_steps-IsReady steps done n in
    let number = λ (done' : List PlanStep). is_done n (map (λ s. s.step_number) done') in
    elim (Bool-cases (is_done s.step_number done)) [
      | inl old ↦
          let same : ready_steps (s ∷ steps) done ≡ ready_steps steps done = ground arith in
          inr (ih (sym (ap number same) ∙ e))
      | inr new ↦ elim (Bool-cases (deps_ready s.depends_on done)) [
        | inr waits ↦
            let same : ready_steps (s ∷ steps) done ≡ ready_steps steps done = ground arith in
            inr (ih (sym (ap number same) ∙ e))
        | inl ready ↦
            let more : ready_steps (s ∷ steps) done ≡ s ∷ ready_steps steps done = ground arith in
            let e' = sym (ap number more) ∙ e in
            elim (Bool-cases (s.step_number == n)) [
              | inl this ↦ inl (ground arith, ready)
              | inr other ↦ inr (ih (ground arith))
            ]
      ]
    ]

Any-IsReady-number :
    (steps : List PlanStep) (done : List ℕ) (n : ℕ)
    → Any (IsReady done n) steps
    → is_done n (map (λ s. s.step_number) steps) ≡ true
unfolding is_done
Any-IsReady-number [] done n a = absurd a
Any-IsReady-number (s ∷ steps) done n (inl (e, r)) = ground arith
Any-IsReady-number (s ∷ steps) done n (inr a) =
    let ih = Any-IsReady-number steps done n a in ground arith

pub InOrder-numbers :
    (steps : List PlanStep) (done : List ℕ) (n : ℕ)
    → InOrder steps done
    → is_done n done ≡ true
    → is_done n (map (λ s. s.step_number) steps) ≡ true
unfolding is_done
InOrder-numbers steps [] n o e = absurd (ground arith)
InOrder-numbers steps (m ∷ done) n (a, o) e = elim (Bool-cases (m == n)) [
  | inl this ↦
      let p : m ≡ n = ground arith in
      subst (λ k. is_done k (map (λ s. s.step_number) steps) ≡ true) p
        (Any-IsReady-number steps done m a)
  | inr other ↦ InOrder-numbers steps done n o (ground arith)
]
