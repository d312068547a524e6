-- ===== src/Subagent/Lifecycle.antt =====
-- The life of a sub-agent in pkg/subagent/manager.go: Spawn, execute with its retries, Cancel,
-- Cleanup. The executor's answers are a function of the attempt, as is whether the context is done
-- in the wait after it; an executor that returns neither a result nor an error would stop the
-- program. The context, the bus and the events of a spawned agent are left out.
pub mod Retries
pub mod Ends
mod Tests
use syntor.Common.{
  ℕ, zero, suc, ◌+◌, String, str_append, str_eq, Bool, true, false, ◌&&◌, ◌||◌, List, [], ◌∷◌, ◌++◌,
  Option, none, some, ltb, ◌==◌, if◌then◌else◌,
}
use syntor.Common.Dict.{Dict, lookup, insert}
use syntor.Subagent.Trust.{Manager, TrustRecord, finish_execution}

pub data Status : Type 0 where
  pending running waiting completed failed cancelled : Status

-- The part of Result that the manager reads, and its output.
pub record Result : Type 0 where
  pub success : Bool
  pub output : String

pub record SubAgent : Type 0 where
  pub id : String
  pub name : String
  pub agent_type : String
  pub trust_level : ℕ
  pub timeout : ℕ
  pub max_retries : ℕ
  pub status : Status
  pub created_at : ℕ
  pub started_at : Option ℕ
  pub completed_at : Option ℕ
  pub task : String
  pub result : Option Result
  pub success_count : ℕ
  pub failure_count : ℕ

pub record SpawnRequest : Type 0 where
  pub name : String
  pub agent_type : String
  pub task : String
  pub trust_level : ℕ
  pub timeout : ℕ
  pub max_retries : ℕ

-- The level of the tracker's record, or that of the request
unfoldable pub level_or : ℕ → Option TrustRecord → ℕ
level_or level none = level
level_or level (some r) = r.current_trust

-- Spawn, with the new identifier and the default timeout
unfoldable pub spawn : String → ℕ → ℕ → SpawnRequest → Manager → SubAgent
unfolding level_or
spawn id now default_timeout req m = record {
  id = id;
  name = req.name;
  agent_type = req.agent_type;
  trust_level = level_or req.trust_level (lookup req.agent_type m.trust_tracker);
  timeout = if req.timeout == 0 then default_timeout else req.timeout;
  max_retries = req.max_retries;
  status = pending;
  created_at = now;
  started_at = none;
  completed_at = none;
  task = req.task;
  result = none;
  success_count = 0;
  failure_count = 0;
}

-- What Execute of the executor returns: a result, or an error with or without one.
pub data Answer : Type 0 where
  returned : Result → Answer
  erred : String → Option Result → Answer

unfoldable pub result_of : Answer → Option Result
result_of (returned r) = some r
result_of (erred err r) = r

unfoldable pub error_of : Answer → Option String
error_of (returned r) = none
error_of (erred err r) = some err

-- `err == nil && result.Success`
unfoldable pub is_success : Answer → Bool
is_success (returned r) = r.success
is_success (erred err r) = false

-- The variables of the loop, and the calls of the executor
pub record Tries : Type 0 where
  pub result : Option Result
  pub err : Option String
  pub calls : ℕ

abbrev pub no_tries : Tries
no_tries = record { result = none; err = none; calls = 0 }

module _ (answer : ℕ → Answer) (is_done : ℕ → Bool) where
  -- The wait before the next attempt: `break` leaves the select, not the loop.
  unfoldable pub wait : ℕ → ℕ → Tries → Tries
  wait zero attempt t = t
  wait (suc left) attempt t =
      if is_done attempt then record t { err = some "context canceled" } else t

  -- An attempt
  unfoldable pub attempt_once : ℕ → Tries → Tries
  attempt_once attempt t = record {
    result = result_of (answer attempt);
    err = error_of (answer attempt);
    calls = suc t.calls;
  }

  -- The loop, with the number of attempts left
  unfoldable pub attempts : ℕ → ℕ → Tries → Tries
  unfolding wait attempt_once
  attempts zero attempt t = t
  attempts (suc left) attempt t =
      let tried = attempt_once attempt t in
      let rest = attempts left (suc attempt) (wait left attempt tried) in
      if is_success (answer attempt) then tried else rest

-- The start of execute
unfoldable pub start_agent : ℕ → SubAgent → SubAgent
start_agent now agent = record agent { status = running; started_at = some now }

-- `err != nil || (result != nil && !result.Success)`
unfoldable pub has_failed : Tries → Bool
has_failed t = elim t.err [
  | some err ↦ true
  | none ↦ elim t.result [ none ↦ false | some r ↦ if r.success then false else true ]
]

-- The end of execute, with what it records for the agent's type
unfoldable pub end_agent : ℕ → Tries → SubAgent → Manager → SubAgent × Manager
end_agent now t agent m =
    let ended = record agent { completed_at = some now; result = t.result } in
    if has_failed t
    then (
      record ended { status = failed; failure_count = ended.failure_count + 1 },
      finish_execution agent.agent_type false now m,
    )
    else (
      record ended { status = completed; success_count = ended.success_count + 1 },
      finish_execution agent.agent_type true now m,
    )

-- execute: `meanwhile` is what other callers do to the agent between the start and the end.
unfoldable pub execute_agent :
    (ℕ → Answer)
    → (ℕ → Bool)
    → (SubAgent → SubAgent)
    → ℕ
    → ℕ
    → SubAgent
    → Manager
    → SubAgent × Manager
unfolding start_agent attempts end_agent
execute_agent answer is_done meanwhile start now agent m =
    let tries = attempts answer is_done (suc agent.max_retries) 0 no_tries in
    end_agent now tries (meanwhile (start_agent start agent)) m

-- The states that Cancel accepts
unfoldable pub is_cancellable : Status → Bool
is_cancellable pending = true
is_cancellable running = true
is_cancellable waiting = true
is_cancellable completed = false
is_cancellable failed = false
is_cancellable cancelled = false

-- Cancel of an agent that is there, with whether it is accepted
unfoldable pub cancel_agent : ℕ → SubAgent → SubAgent × Bool
unfolding is_cancellable
cancel_agent now agent =
    if is_cancellable agent.status
    then (record agent { status = cancelled; completed_at = some now }, true)
    else (agent, false)

-- The end states that Wait and Cleanup look for
unfoldable pub is_ended : Status → Bool
is_ended completed = true
is_ended failed = true
is_ended cancelled = true
is_ended pending = false
is_ended running = false
is_ended waiting = false

-- The tests of Cleanup: ended, and completed before the cutoff
unfoldable pub is_stale : ℕ → ℕ → SubAgent → Bool
unfolding is_ended
is_stale now max_age agent = elim agent.completed_at [
  | none ↦ false
  | some at ↦ is_ended agent.status && ltb (at + max_age) now
]

-- Cleanup, with the number of agents removed
unfoldable pub cleanup_agents : ℕ → ℕ → Dict SubAgent → Dict SubAgent × ℕ
unfolding is_stale
cleanup_agents now max_age [] = ([], 0)
cleanup_agents now max_age (e ∷ es) =
    let (kept, removed) = cleanup_agents now max_age es in
    if is_stale now max_age e.1 then (kept, suc removed) else (e ∷ kept, removed)
