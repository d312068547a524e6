-- ===== src/Subagent/Parallel.antt =====
-- DependencyGraph and ExecuteWithDependencies of pkg/subagent/parallel.go.
-- The agents of a wave run at the same time: `arrive` is the order in which they end in a round,
-- and `ran` what SpawnAndWait returns for each. The map of completed names is the list of them,
-- newest first.
pub mod Order
pub mod Ending
pub mod Pool
mod Tests
use syntor.Common.{
  ℕ, zero, suc, String, Bool, true, false, not, ◌&&◌, List, [], ◌∷◌, ◌++◌, Option, none, some,
  if◌then◌else◌, length, contains,
}
use syntor.Common.Dict.{Dict, lookup, insert}
use syntor.Subagent.Lifecycle.{SpawnRequest, Result, Status}

pub record DependencyGraph : Type 0 where
  pub nodes : Dict SpawnRequest
  pub dependencies : Dict (List String)

-- NewDependencyGraph
unfoldable pub new_dependency_graph : DependencyGraph
new_dependency_graph = record { nodes = []; dependencies = [] }

-- AddNode
unfoldable pub add_node : SpawnRequest → List String → DependencyGraph → DependencyGraph
add_node req depends_on g = record {
  nodes = insert req.name req g.nodes;
  dependencies = insert req.name depends_on g.dependencies;
}

-- `g.dependencies[name]`
unfoldable pub names_or_nil : Option (List String) → List String
names_or_nil none = []
names_or_nil (some names) = names

unfoldable pub depends_on : DependencyGraph → String → List String
unfolding names_or_nil
depends_on g name = names_or_nil (lookup name g.dependencies)

-- The loop of GetReady over a node's dependencies
unfoldable pub all_satisfied : List String → List String → Bool
all_satisfied done [] = true
all_satisfied done (dep ∷ deps) = contains dep done && all_satisfied done deps

-- The loop of GetReady over the nodes
unfoldable pub ready_nodes : DependencyGraph → List String → Dict SpawnRequest → List SpawnRequest
ready_nodes g done [] = []
ready_nodes g done (e ∷ es) =
    let rest = ready_nodes g done es in
    if not (contains e.0 done) && all_satisfied done (depends_on g e.0) then e.1 ∷ rest else rest

-- GetReady
unfoldable pub get_ready : DependencyGraph → List String → List SpawnRequest
unfolding ready_nodes
get_ready g done = ready_nodes g done g.nodes

-- What SpawnAndWait returns: an error, or the agent's identifier, status and result
pub data Run : Type 0 where
  erred : Run
  ended : String → Status → Option Result → Run

pub record ParallelResult : Type 0 where
  pub results : Dict (Option Result)
  pub completed : List String
  pub failed : List String

-- The result, and the names completed
pub record Progress : Type 0 where
  pub result : ParallelResult
  pub done : List String

abbrev fails : String → Progress → Progress
fails name p = record p { result = record p.result { failed = p.result.failed ++ name ∷ [] } }

-- What a goroutine notes at its end
unfoldable pub note_run : String → Run → Progress → Progress
note_run name erred p = fails name p
note_run name (ended id status none) p = record {
  result = record p.result {
    results = insert id none p.result.results;
    completed = p.result.completed ++ id ∷ [];
  };
  done = name ∷ p.done;
}
note_run name (ended id status (some r)) p =
    let noted = insert id (some r) p.result.results in
    if r.success
    then record {
      result = record p.result { results = noted; completed = p.result.completed ++ id ∷ [] };
      done = name ∷ p.done;
    }
    else record p {
      result = record p.result { results = noted; failed = p.result.failed ++ name ∷ [] };
    }

unfoldable pub note_runs : (SpawnRequest → Run) → List SpawnRequest → Progress → Progress
note_runs ran [] p = p
note_runs ran (req ∷ reqs) p = note_runs ran reqs (note_run req.name (ran req) p)

abbrev pub start_progress : Progress
start_progress = record { result = record { results = []; completed = []; failed = [] }; done = [] }

module _ (arrive : ℕ → List SpawnRequest → List SpawnRequest) (ran : ℕ → SpawnRequest → Run) where
  -- The loop, with so many rounds at most, and the number of the round
  unfoldable pub rounds : ℕ → ℕ → DependencyGraph → Progress → Progress
  rounds zero round g p = p
  rounds (suc left) round g p = elim (get_ready g p.done) [
    | [] ↦ p
    | req ∷ reqs ↦
        let next = note_runs (ran round) (arrive round (req ∷ reqs)) p in
        let rest = rounds left (suc round) g next in
        elim next.result.failed [ [] ↦ rest | name ∷ names ↦ next ]
  ]

  -- ExecuteWithDependencies
  unfoldable pub execute_with_dependencies : DependencyGraph → Progress
  unfolding rounds
  execute_with_dependencies g = rounds (suc (length g.nodes)) 0 g start_progress
