-- ===== src/Subagent/Parallel/Order.antt =====
-- An agent runs only after those that it depends on.
use syntor.Common.{
  ℕ, zero, suc, ◌≡◌, ◌⊎◌, inl, inr, refl, sym, subst, String, true, not, ◌&&◌, List, [], ◌∷◌, none,
  some, length, contains, All, All-mono, arith, Bool-cases, List-cases,
}
use syntor.Common.Dict.{Dict, Each, Each-insert}
use syntor.Subagent.Lifecycle.{SpawnRequest}
use syntor.Subagent.Parallel.{
  DependencyGraph, new_dependency_graph, add_node, depends_on, all_satisfied, ready_nodes,
  get_ready, Run, erred, ended, Progress, note_run, note_runs, rounds, start_progress,
  execute_with_dependencies,
}

-- Each name, newest first, has all its dependencies among the older ones.
abbrev pub InOrder : DependencyGraph → List String → Type 0
InOrder g [] = Unit
InOrder g (name ∷ older) =
    All (λ dep. contains dep older ≡ true) (depends_on g name) × InOrder g older

all_satisfied-All :
    (done deps : List String)
    → all_satisfied done deps ≡ true
    → All (λ dep. contains dep done ≡ true) deps
unfolding all_satisfied
all_satisfied-All done [] h = tt
all_satisfied-All done (dep ∷ deps) h =
    let rest : all_satisfied done deps ≡ true = ground (arith, h) in
    (ground (arith, h), all_satisfied-All done deps rest)

all_satisfied-cons :
    (name : String) (done deps : List String)
    → all_satisfied done deps ≡ true
    → all_satisfied (name ∷ done) deps ≡ true
unfolding all_satisfied contains
all_satisfied-cons name done [] h = refl
all_satisfied-cons name done (dep ∷ deps) h =
    let ih = all_satisfied-cons name done deps in ground (arith, h, ih)

-- The dependencies of the request are all among the names.
abbrev IsSatisfied : DependencyGraph → List String → SpawnRequest → Type 0
IsSatisfied g done req = all_satisfied done (depends_on g req.name) ≡ true

ready_nodes-IsSatisfied :
    (g : DependencyGraph) (done : List String) (es : Dict SpawnRequest)
    → Each (λ k req. req.name ≡ k) es
    → All (IsSatisfied g done) (ready_nodes g done es)
unfolding ready_nodes
ready_nodes-IsSatisfied g done [] keyed = tt
ready_nodes-IsSatisfied g done ((k, req) ∷ es) (same, keyed) =
    let ih = ready_nodes-IsSatisfied g done es keyed in
    elim (Bool-cases (not (contains k done) && all_satisfied done (depends_on g k))) [
      | inl ready ↦
          let satisfied : all_satisfied done (depends_on g k) ≡ true = ground (arith, ready) in
          rw ready
            (subst (λ n. all_satisfied done (depends_on g n) ≡ true) (sym same) satisfied, ih)
      | inr waits ↦ rw waits ih
    ]

-- A run leaves the names as they were, or adds that of its request.
note_run-cases :
    (name : String) (run : Run) (p : Progress)
    → ((note_run name run p).done ≡ p.done) ⊎ ((note_run name run p).done ≡ name ∷ p.done)
unfolding note_run
note_run-cases name erred p = inl refl
note_run-cases name (ended id status none) p = inr refl
note_run-cases name (ended id status (some r)) p = elim (Bool-cases r.success) [
  | inl s ↦ inr (rw s refl)
  | inr f ↦ inl (rw f refl)
]

note_runs-InOrder :
    (g : DependencyGraph) (ran : SpawnRequest → Run) (reqs : List SpawnRequest) (p : Progress)
    → All (IsSatisfied g p.done) reqs
    → InOrder g p.done
    → InOrder g (note_runs ran reqs p).done
unfolding note_runs
note_runs-InOrder g ran [] p satisfied order = order
note_runs-InOrder g ran (req ∷ reqs) p (first, satisfied) order =
    let next = note_run req.name (ran req) p in
    elim (note_run-cases req.name (ran req) p) [
      | inl same ↦
          note_runs-InOrder g ran reqs next
            (subst (λ d. All (IsSatisfied g d) reqs) (sym same) satisfied)
            (subst (InOrder g) (sym same) order)
      | inr more ↦
          note_runs-InOrder g ran reqs next
            (subst (λ d. All (IsSatisfied g d) reqs) (sym more)
              (All-mono (IsSatisfied g p.done) (IsSatisfied g (req.name ∷ p.done)) reqs
                (λ r h. all_satisfied-cons req.name p.done (depends_on g r.name) h) satisfied))
            (subst (InOrder g) (sym more)
              (all_satisfied-All p.done (depends_on g req.name) first, order))
    ]

module _ (arrive : ℕ → List SpawnRequest → List SpawnRequest) (ran : ℕ → SpawnRequest → Run) where
  -- Only those that were started end.
  abbrev pub ArrivesOf : Type 1
  ArrivesOf =
      (P : SpawnRequest → Type 0) (round : ℕ) (reqs : List SpawnRequest)
      → All P reqs
      → All P (arrive round reqs)

  rounds-InOrder :
      (g : DependencyGraph)
      → ArrivesOf
      → Each (λ k req. req.name ≡ k) g.nodes
      → (left round : ℕ) (p : Progress) → InOrder g p.done
      → InOrder g (rounds arrive ran left round g p).done
  unfolding rounds get_ready
  rounds-InOrder g arrives keyed zero round p order = order
  rounds-InOrder g arrives keyed (suc left) round p order = elim (List-cases (get_ready g p.done)) [
    | inl none_ready ↦ rw (rounds, none_ready) order
    | inr (req, reqs, e) ↦
        let next = note_runs (ran round) (arrive round (req ∷ reqs)) p in
        let satisfied =
          subst (All (IsSatisfied g p.done)) e (ready_nodes-IsSatisfied g p.done g.nodes keyed) in
        let after =
          note_runs-InOrder g (ran round) (arrive round (req ∷ reqs)) p
            (arrives (IsSatisfied g p.done) round (req ∷ reqs) satisfied) order in
        elim (List-cases next.result.failed) [
          | inl ok ↦ rw (rounds, e, ok) (rounds-InOrder g arrives keyed left (suc round) next after)
          | inr (name, names, stopped) ↦ rw (rounds, e, stopped) after
        ]
  ]

-- Nodes added one after another to a new graph.
unfoldable pub built : List (SpawnRequest × List String) → DependencyGraph
unfolding new_dependency_graph
built [] = new_dependency_graph
built (n ∷ ns) = add_node n.0 n.1 (built ns)

pub built-Each :
    (ns : List (SpawnRequest × List String)) → Each (λ k req. req.name ≡ k) (built ns).nodes
unfolding built add_node
built-Each [] = tt
built-Each ((req, deps) ∷ ns) =
    Each-insert (λ k req. req.name ≡ k) (built ns).nodes req.name req refl (built-Each ns)

-- In any graph built by AddNode, and whatever the agents of a wave return and in whatever order
-- they end, the names are completed in an order in which each follows all that it depends on.
pub execute_with_dependencies-InOrder :
    (arrive : ℕ → List SpawnRequest → List SpawnRequest) (ran : ℕ → SpawnRequest → Run)
    (ns : List (SpawnRequest × List String))
    → ArrivesOf arrive ran
    → InOrder (built ns) (execute_with_dependencies arrive ran (built ns)).done
unfolding execute_with_dependencies
execute_with_dependencies-InOrder arrive ran ns arrives =
    rounds-InOrder arrive ran (built ns) arrives (built-Each ns) (suc (length (built ns).nodes)) 0
      start_progress tt
