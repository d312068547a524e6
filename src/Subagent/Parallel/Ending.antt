-- ===== src/Subagent/Parallel/Ending.antt =====
-- ExecuteWithDependencies ends at a failure or when nothing is ready.
use syntor.Common.{
  Any, ℕ, zero, suc, ◌≤◌, ◌<◌, ◌≡◌, ◌⊎◌, inl, inr, refl, sym, ap, subst, ◌∙◌, String, true, false,
  not, ◌&&◌, List, [], ◌∷◌, ◌++◌, none, some, if◌then◌else◌, length, contains, All, arith,
  Bool-cases, List-cases, eq_refl,
}
use syntor.Common.Dict.{Dict, Each}
use syntor.Subagent.Lifecycle.{SpawnRequest}
use syntor.Subagent.Parallel.{
  DependencyGraph, depends_on, all_satisfied, ready_nodes, get_ready, Run, erred, ended, Progress,
  note_run, note_runs, rounds, start_progress, execute_with_dependencies,
}
use syntor.Subagent.Parallel.Order.{built, built-Each}

-- A run is a failure, or it completes its name.
note_run-ends :
    (name : String) (run : Run) (p : Progress)
    → ((note_run name run p).result.failed ≡ p.result.failed ++ name ∷ [])
      ⊎ (((note_run name run p).result.failed ≡ p.result.failed)
          × ((note_run name run p).done ≡ name ∷ p.done))
unfolding note_run
note_run-ends name erred p = inl refl
note_run-ends name (ended id status none) p = inr (refl, refl)
note_run-ends name (ended id status (some r)) p = elim (Bool-cases r.success) [
  | inl s ↦ inr (rw s refl, rw s refl)
  | inr f ↦ inl (rw f refl)
]

append-one : (names : List String) (name : String) → names ++ name ∷ [] ≡ [] → ⊥
append-one [] name e = ground arith
append-one (n ∷ names) name e = ground arith

-- Where nothing has failed at the end, nothing had before, and every request is completed.
note_runs-done :
    (ran : SpawnRequest → Run) (reqs : List SpawnRequest) (p : Progress)
    → (note_runs ran reqs p).result.failed ≡ []
    → (p.result.failed ≡ [])
      × All (λ r. contains r.name (note_runs ran reqs p).done ≡ true) reqs
      × ((n : String) → contains n p.done ≡ true → contains n (note_runs ran reqs p).done ≡ true)
unfolding note_runs contains
note_runs-done ran [] p ok = (ok, tt, λ n h. h)
note_runs-done ran (req ∷ reqs) p ok =
    let next = note_run req.name (ran req) p in
    let (fine, all, more) = note_runs-done ran reqs next ok in
    elim (note_run-ends req.name (ran req) p) [
      | inl bad ↦ absurd (append-one p.result.failed req.name (sym bad ∙ fine))
      | inr (same, new) ↦
          let there : contains req.name next.done ≡ true =
            subst (λ d. contains req.name d ≡ true) (sym new) (ground (arith, eq_refl req.name)) in
          (
            sym same ∙ fine,
            (more req.name there, all),
            λ n h. more n (subst (λ d. contains n d ≡ true) (sym new) (ground (arith, h))),
          )
    ]

-- How many of the nodes are not completed.
remaining : List String → Dict SpawnRequest → ℕ
remaining done [] = 0
remaining done (e ∷ es) =
    let rest = remaining done es in if contains e.0 done then rest else suc rest

remaining-le :
    (done more : List String) (es : Dict SpawnRequest)
    → ((n : String) → contains n done ≡ true → contains n more ≡ true)
    → remaining more es ≤ remaining done es
unfolding remaining
remaining-le done more [] grows = omega arith
remaining-le done more (e ∷ es) grows =
    let ih = remaining-le done more es grows in let g = grows e.0 in ground (arith, ih, g)

-- A ready request that is completed afterwards makes them fewer.
remaining-lt :
    (g : DependencyGraph) (done more : List String) (es : Dict SpawnRequest) (req : SpawnRequest)
    (reqs : List SpawnRequest)
    → Each (λ k r. r.name ≡ k) es
    → ((n : String) → contains n done ≡ true → contains n more ≡ true)
    → ready_nodes g done es ≡ req ∷ reqs
    → contains req.name more ≡ true
    → remaining more es < remaining done es
unfolding remaining ready_nodes
remaining-lt g done more [] req reqs keyed grows e now = absurd (ground arith)
remaining-lt g done more ((k, r) ∷ es) req reqs (same, keyed) grows e now =
    let le = remaining-le done more es grows in
    elim (Bool-cases (not (contains k done) && all_satisfied done (depends_on g k))) [
      | inl ready ↦
          let is : r ≡ req = ground (arith, ready, e) in
          let completed : contains k more ≡ true =
            subst (λ n. contains n more ≡ true) (ap (λ q. q.name) (sym is) ∙ same) now in
          let not_yet : contains k done ≡ false = ground (arith, ready) in
          ground (arith, le, completed, not_yet)
      | inr waits ↦
          let later : ready_nodes g done es ≡ req ∷ reqs = ground (arith, waits, e) in
          let ih = remaining-lt g done more es req reqs keyed grows later now in
          let g = grows k in ground (arith, ih, g)
    ]

module _ (arrive : ℕ → List SpawnRequest → List SpawnRequest) (ran : ℕ → SpawnRequest → Run) where
  -- All that were started end.
  abbrev pub ArrivesAll : Type 1
  ArrivesAll =
      (P : SpawnRequest → Type 0) (round : ℕ) (reqs : List SpawnRequest)
      → All P (arrive round reqs)
      → All P reqs

  rounds_end :
      (g : DependencyGraph)
      → ArrivesAll
      → Each (λ k req. req.name ≡ k) g.nodes
      → (left round : ℕ) (p : Progress) → remaining p.done g.nodes < left
      → (rounds arrive ran left round g p).result.failed ≡ []
      → get_ready g (rounds arrive ran left round g p).done ≡ []
  unfolding rounds get_ready note_runs
  rounds_end g arrives keyed zero round p few ok = absurd (omega arith)
  rounds_end g arrives keyed (suc left) round p few ok = elim (List-cases (get_ready g p.done)) [
    | inl none_ready ↦ rw (rounds, none_ready) none_ready
    | inr (req, reqs, e) ↦
        let next = note_runs (ran round) (arrive round (req ∷ reqs)) p in
        elim (List-cases next.result.failed) [
          | inl fine ↦
              let same : rounds arrive ran (suc left) round g p
                  ≡ rounds arrive ran left (suc round) g next =
                rw (rounds, e, fine) refl in
              let (before, all, more) =
                note_runs-done (ran round) (arrive round (req ∷ reqs)) p fine in
              let now = arrives (λ r. contains r.name next.done ≡ true) round (req ∷ reqs) all in
              let fewer = remaining-lt g p.done next.done g.nodes req reqs keyed more e now.0 in
              subst (λ q. get_ready g q.done ≡ []) (sym same)
                (rounds_end g arrives keyed left (suc round) next (omega (arith, fewer, few))
                  (ap (λ q. q.result.failed) (sym same) ∙ ok))
          | inr (name, names, stopped) ↦
              let same : rounds arrive ran (suc left) round g p ≡ next =
                rw (rounds, e, stopped) refl in
              let k : name ∷ names ≡ [] = sym stopped ∙ ap (λ q. q.result.failed) (sym same) ∙ ok in
              absurd (ground arith)
        ]
  ]

remaining-length : (done : List String) (es : Dict SpawnRequest) → remaining done es ≤ length es
unfolding remaining
remaining-length done [] = omega arith
remaining-length done (e ∷ es) = let ih = remaining-length done es in ground (arith, ih)

waits :
    (done deps : List String)
    → all_satisfied done deps ≡ false
    → Any (λ dep. contains dep done ≡ false) deps
unfolding all_satisfied
waits done [] e = absurd (ground arith)
waits done (dep ∷ deps) e = elim (Bool-cases (contains dep done)) [
  | inl there ↦ inr (waits done deps (ground (arith, there, e)))
  | inr missing ↦ inl missing
]

-- The node is completed, or it depends on a name that is not.
abbrev pub IsSettled : DependencyGraph → List String → String → Type 0
IsSettled g done name =
    (contains name done ≡ true) ⊎ Any (λ dep. contains dep done ≡ false) (depends_on g name)

ready_nodes-IsSettled :
    (g : DependencyGraph) (done : List String) (es : Dict SpawnRequest)
    → ready_nodes g done es ≡ []
    → All (λ e. IsSettled g done e.0) es
unfolding ready_nodes
ready_nodes-IsSettled g done [] h = tt
ready_nodes-IsSettled g done (e ∷ es) h = elim (Bool-cases (contains e.0 done)) [
  | inl there ↦ (inl there, ready_nodes-IsSettled g done es (ground (arith, there, h)))
  | inr new ↦ elim (Bool-cases (all_satisfied done (depends_on g e.0))) [
    | inl ready ↦ absurd (ground (arith, new, ready, h))
    | inr stuck ↦ (
      inr (waits done (depends_on g e.0) stuck),
      ready_nodes-IsSettled g done es (ground (arith, new, stuck, h)),
    )
  ]
]

-- Where every agent that a wave starts ends, ExecuteWithDependencies comes to its end within as many
-- rounds as there are nodes and one more, and when its failed list is empty, then each node of the graph
-- is completed or depends on a name that is not completed.
pub execute_with_dependencies_end :
    (arrive : ℕ → List SpawnRequest → List SpawnRequest) (ran : ℕ → SpawnRequest → Run)
    (ns : List (SpawnRequest × List String))
    → ArrivesAll arrive ran
    → (execute_with_dependencies arrive ran (built ns)).result.failed ≡ []
    → All
        (λ e. IsSettled (built ns) (execute_with_dependencies arrive ran (built ns)).done e.0)
        (built ns).nodes
unfolding execute_with_dependencies get_ready
execute_with_dependencies_end arrive ran ns arrives ok =
    let n = remaining-length [] (built ns).nodes in
    let done = (execute_with_dependencies arrive ran (built ns)).done in
    ready_nodes-IsSettled (built ns) done (built ns).nodes (
      rounds_end arrive ran (built ns) arrives (built-Each ns) (suc (length (built ns).nodes)) 0
        start_progress (omega (arith, n)) ok)
