-- ===== src/Subagent/Parallel/Pool.antt =====
-- ExecuteAll of pkg/subagent/parallel.go, its workers and its collection of their results. A worker
-- takes requests until the closed channel is empty, so one worker is enough for all of them, and
-- `arrive` is the order in which the results come in. A context that is done is a run that erred.
use syntor.Common.{
  ℕ, zero, suc, ◌≡◌, ◌⊎◌, refl, ap, inl, inr, sym, ◌∙◌, String, Bool, true, false, not, ◌||◌, List,
  [], ◌∷◌, ◌++◌, Option, none, some, ltb, ◌==◌, if◌then◌else◌, length, arith, Bool-cases,
}
use mathlib.Core.List.Perm
use mathlib.Core.List.{
  Perm, filter_map, append_assoc, append-nil, filter_map-cons-none, filter_map-cons-some,
}
use syntor.Common.Dict.{insert}
use syntor.Subagent.Lifecycle.{SpawnRequest, Result}
use syntor.Subagent.Parallel.{Run, erred, ended, ParallelResult}

-- workerResult; whether there is an error
pub record WorkerResult : Type 0 where
  pub id : String
  pub result : Option Result
  pub err : Bool

-- What a worker sends for a request
unfoldable pub work : SpawnRequest → Run → WorkerResult
work req erred = record { id = req.name; result = none; err = true }
work req (ended id status r) = record { id = id; result = r; err = false }

-- `wr.result != nil && !wr.result.Success`
unfoldable pub is_unsuccessful : Option Result → Bool
is_unsuccessful none = false
is_unsuccessful (some r) = not r.success

unfoldable pub is_failed : WorkerResult → Bool
unfolding is_unsuccessful
is_failed wr = wr.err || is_unsuccessful wr.result

unfoldable pub note_worker_result : WorkerResult → ParallelResult → ParallelResult
note_worker_result wr p =
    let noted = insert wr.id wr.result p.results in
    if is_failed wr
    then record p { results = noted; failed = p.failed ++ wr.id ∷ [] }
    else record p { results = noted; completed = p.completed ++ wr.id ∷ [] }

-- The loop over the results of the requests, in the order in which they arrive
unfoldable pub collect_results : List (SpawnRequest × Run) → ParallelResult → ParallelResult
collect_results [] p = p
collect_results ((req, run) ∷ runs) p = collect_results runs (note_worker_result (work req run) p)

unfoldable pub worker_count : ℕ → List (SpawnRequest × Run) → ℕ
worker_count max_workers runs = if ltb (length runs) max_workers then length runs else max_workers

-- ExecuteAll of the requests, each with what its run returns
unfoldable pub execute_all :
    (List (SpawnRequest × Run) → List (SpawnRequest × Run))
    → ℕ
    → List (SpawnRequest × Run)
    → ParallelResult
unfolding collect_results worker_count
execute_all arrive max_workers runs =
    let empty : ParallelResult = record { results = []; completed = []; failed = [] } in
    if worker_count max_workers runs == 0 then empty else collect_results (arrive runs) empty

-- What a run is reported as: an error, or an unsuccessful result, makes it a failed one. The agent's
-- status is not looked at: an agent that has failed without a result is a completed one.
abbrev pub failed_id : SpawnRequest × Run → Option String
failed_id (req, erred) = some req.name
failed_id (req, ended id status none) = none
failed_id (req, ended id status (some r)) = if r.success then none else some id

abbrev pub completed_id : SpawnRequest × Run → Option String
completed_id (req, erred) = none
completed_id (req, ended id status none) = some id
completed_id (req, ended id status (some r)) = if r.success then some id else none

work-cases :
    (req : SpawnRequest) (run : Run)
    → ((is_failed (work req run) ≡ true)
        × (failed_id (req, run) ≡ some (work req run).id)
        × (completed_id (req, run) ≡ none))
      ⊎ ((is_failed (work req run) ≡ false)
          × (failed_id (req, run) ≡ none)
          × (completed_id (req, run) ≡ some (work req run).id))
unfolding is_failed work
work-cases req erred = inl (refl, refl, refl)
work-cases req (ended id status none) = inr (refl, refl, refl)
work-cases req (ended id status (some r)) = elim (Bool-cases r.success) [
  | inl good ↦ inr (rw good refl, rw good refl, rw good refl)
  | inr bad ↦ inl (rw bad refl, rw bad refl, rw bad refl)
]

-- What a result adds to the two lists.
note_worker_result-cases :
    (wr : WorkerResult) (p : ParallelResult)
    → (is_failed wr ≡ true
        → ((note_worker_result wr p).failed ≡ p.failed ++ wr.id ∷ [])
          × ((note_worker_result wr p).completed ≡ p.completed))
      × (is_failed wr ≡ false
          → ((note_worker_result wr p).failed ≡ p.failed)
            × ((note_worker_result wr p).completed ≡ p.completed ++ wr.id ∷ []))
unfolding note_worker_result
note_worker_result-cases wr p = (λ f. (rw f refl, rw f refl), λ f. (rw f refl, rw f refl))

-- A list that grew by one, then by the rest.
grown :
    (xs before now : List String) (x : String)
    → now ≡ before ++ x ∷ []
    → now ++ xs ≡ before ++ x ∷ xs
grown xs before now x e = ap (λ l. l ++ xs) e ∙ append_assoc before (x ∷ []) xs

collect_lists :
    (runs : List (SpawnRequest × Run)) (p : ParallelResult)
    → ((collect_results runs p).failed ≡ p.failed ++ filter_map failed_id runs)
      × ((collect_results runs p).completed ≡ p.completed ++ filter_map completed_id runs)
unfolding collect_results filter_map
collect_lists [] p = (sym (append-nil p.failed), sym (append-nil p.completed))
collect_lists ((req, run) ∷ runs) p =
    let wr = work req run in
    let next = note_worker_result wr p in
    let ih = collect_lists runs next in
    let fs = filter_map failed_id runs in
    let cs = filter_map completed_id runs in
    elim (work-cases req run) [
      | inl (f, is, is_not) ↦
          let (failed, completed) = (note_worker_result-cases wr p).0 f in
          (
            ih.0
                ∙ grown fs p.failed next.failed wr.id failed
                ∙ ap (λ l. p.failed ++ l) (sym (filter_map-cons-some failed_id (req, run) runs is)),
            ih.1
                ∙ ap (λ l. l ++ cs) completed
                ∙ ap (λ l. p.completed ++ l)
                    (sym (filter_map-cons-none completed_id (req, run) runs is_not)),
          )
      | inr (f, is_not, is) ↦
          let (failed, completed) = (note_worker_result-cases wr p).1 f in
          (
            ih.0
                ∙ ap (λ l. l ++ fs) failed
                ∙ ap (λ l. p.failed ++ l)
                    (sym (filter_map-cons-none failed_id (req, run) runs is_not)),
            ih.1
                ∙ grown cs p.completed next.completed wr.id completed
                ∙ ap (λ l. p.completed ++ l)
                    (sym (filter_map-cons-some completed_id (req, run) runs is)),
          )
    ]

-- The runs that are taken: all, or none where there may be no worker.
abbrev pub taken : ℕ → List (SpawnRequest × Run) → List (SpawnRequest × Run)
taken zero runs = []
taken (suc k) runs = runs

worker_count-cases :
    (max_workers : ℕ) (runs : List (SpawnRequest × Run))
    → ((worker_count max_workers runs == 0) ≡ true) × (taken max_workers runs ≡ [])
      ⊎ ((worker_count max_workers runs == 0) ≡ false) × (taken max_workers runs ≡ runs)
unfolding worker_count
worker_count-cases zero [] = inl (refl, refl)
worker_count-cases zero (run ∷ runs) = inl (ground arith, refl)
worker_count-cases (suc k) [] = inl (ground arith, refl)
worker_count-cases (suc k) (run ∷ runs) = inr (ground arith, refl)

-- In whatever order the results come in, ExecuteAll with a limit of at least one worker reports each
-- request once, up to order: the failed list holds the names of the requests whose run returned an
-- error and the identifiers of the agents whose result is no success; the completed list holds the
-- identifiers of all the other agents, also of those that have failed and have no result. With a
-- limit of no workers both lists are empty.
pub execute_all_lem :
    (arrive : List (SpawnRequest × Run) → List (SpawnRequest × Run)) (max_workers : ℕ)
    (runs : List (SpawnRequest × Run))
    → Perm (arrive runs) runs
    → Perm
        (execute_all arrive max_workers runs).failed
        (filter_map failed_id (taken max_workers runs))
      × Perm
          (execute_all arrive max_workers runs).completed
          (filter_map completed_id (taken max_workers runs))
unfolding execute_all filter_map
execute_all_lem arrive max_workers runs all =
    let empty : ParallelResult = record { results = []; completed = []; failed = [] } in
    let lists = collect_lists (arrive runs) empty in
    elim (worker_count-cases max_workers runs) [
      | inl (stopped, nothing) ↦ rw (stopped, nothing) (Perm.rfl, Perm.rfl)
      | inr (works, all_taken) ↦
          rw (works, all_taken, lists.0, lists.1)
            (Perm.filter_map failed_id all, Perm.filter_map completed_id all)
    ]
