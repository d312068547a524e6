-- ===== src/Subagent/Parallel/Tests.antt =====
-- Runs of agents that depend on each other.
use syntor.Common.Dict.{insert, lookup}
use syntor.Common.{All, false, none, ℕ, ◌≡◌, refl, String, true, List, [], ◌∷◌, some, contains}
use syntor.Subagent.Lifecycle.{SpawnRequest, completed, failed}
use syntor.Subagent.Parallel.{
  get_ready, Run, ended, execute_with_dependencies, add_node, all_satisfied, depends_on, note_run,
  note_runs,
}
use syntor.Subagent.Parallel.Order.{InOrder, built, execute_with_dependencies-InOrder}
use mathlib.Core.List.{Perm, filter_map}
use mathlib.Core.List.Perm
use syntor.Subagent.Parallel.Pool.{
  failed_id, completed_id, taken, execute_all, execute_all_lem, work, is_failed, note_worker_result,
}
use syntor.Subagent.Parallel.Ending.{IsSettled, execute_with_dependencies_end}

abbrev named : String → SpawnRequest
named name = record {
  name = name;
  agent_type = "doc";
  task = "";
  trust_level = 0;
  timeout = 0;
  max_retries = 0;
}

abbrev diamond : List (SpawnRequest × List String)
diamond =
    (named "d", "b" ∷ "c" ∷ [])
    ∷ (named "b", "a" ∷ [])
    ∷ (named "c", "a" ∷ [])
    ∷ (named "a", [])
    ∷ []

abbrev works : ℕ → SpawnRequest → Run
works round req = ended req.name completed (some (record { success = true; output = "" }))

abbrev as_started : ℕ → List SpawnRequest → List SpawnRequest
as_started round reqs = reqs

-- Two nodes that depend on each other: nothing runs, nothing fails.
circle_ends :
    (execute_with_dependencies as_started works
      (built ((named "a", "b" ∷ []) ∷ (named "b", "a" ∷ []) ∷ []))).result
    ≡ record { results = []; completed = []; failed = [] }
unfolding execute_with_dependencies get_ready built add_node insert contains all_satisfied
    depends_on lookup
circle_ends = refl

execute_with_dependencies-InOrder_example :
    InOrder (built diamond) (execute_with_dependencies as_started works (built diamond)).done
execute_with_dependencies-InOrder_example =
    execute_with_dependencies-InOrder as_started works diamond (λ P round reqs h. h)

execute_with_dependencies_end_example :
    All
      (λ e.
        IsSettled
          (built diamond)
          (execute_with_dependencies as_started works (built diamond)).done
          e.0)
      (built diamond).nodes
unfolding execute_with_dependencies get_ready built add_node insert contains all_satisfied
    depends_on lookup note_runs note_run
execute_with_dependencies_end_example =
    execute_with_dependencies_end as_started works diamond (λ P round reqs h. h) refl

-- The second result comes first.
abbrev second_first : List (SpawnRequest × Run) → List (SpawnRequest × Run)
second_first [] = []
second_first (x ∷ []) = x ∷ []
second_first (x ∷ y ∷ zs) = y ∷ x ∷ zs

-- Twice the same request, of which the second fails without a result, and one with a bad result.
abbrev three : List (SpawnRequest × Run)
three =
    (named "a", ended "id-1" completed (some (record { success = true; output = "" })))
    ∷ (named "a", ended "id-2" failed none)
    ∷ (named "c", ended "id-3" failed (some (record { success = false; output = "" })))
    ∷ []

-- The agent that has failed without a result is among the completed ones.
execute_three :
    ((execute_all second_first 2 three).failed ≡ "id-3" ∷ [])
    × ((execute_all second_first 2 three).completed ≡ "id-2" ∷ "id-1" ∷ [])
unfolding execute_all work is_failed note_worker_result
execute_three = (refl, refl)

execute_all_lem_example :
    Perm (execute_all second_first 2 three).failed (filter_map failed_id (taken 2 three))
    × Perm (execute_all second_first 2 three).completed (filter_map completed_id (taken 2 three))
execute_all_lem_example = execute_all_lem second_first 2 three (
    Perm.swap (named "a", ended "id-1" completed (some (record { success = true; output = "" })))
      (named "a", ended "id-2" failed none)
      ((named "c", ended "id-3" failed (some (record { success = false; output = "" }))) ∷ []))
