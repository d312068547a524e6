-- ===== src/Subagent/Lifecycle/Tests.antt =====
-- Runs of a sub-agent.
use syntor.Common.{ℕ, zero, suc, ◌≡◌, refl, Bool, true, none, arith}
use syntor.Subagent.Trust.{Manager, default_promotion_criteria, new_manager}
use syntor.Subagent.Lifecycle.{
  Answer, returned, erred, SubAgent, SpawnRequest, completed, no_tries, attempts, is_success,
  result_of, spawn, execute_agent, cancel_agent, error_of, has_failed,
}
use syntor.Subagent.Lifecycle.Retries.{IsLast}
use syntor.Subagent.Lifecycle.Ends.{EndsWith, execute_agent_lem}

abbrev request : SpawnRequest
request = record {
  name = "docs";
  agent_type = "doc";
  task = "write";
  trust_level = 0;
  timeout = 0;
  max_retries = 2;
}

abbrev trust : Manager
trust = new_manager default_promotion_criteria true

abbrev doc_agent : SubAgent
doc_agent = spawn "1" 5 600 request trust

-- Two errors and then a result
abbrev third_works : ℕ → Answer
third_works zero = erred "busy" none
third_works (suc zero) = erred "busy" none
third_works (suc (suc n)) = returned (record { success = true; output = "done" })

abbrev always_done : ℕ → Bool
always_done attempt = true

abbrev cancels : SubAgent → SubAgent
cancels agent = (cancel_agent 7 agent).0

-- The context is done after the first attempt, and the agent is cancelled: it completes.
cancelled_completes :
    (execute_agent third_works always_done cancels 6 9 doc_agent trust).0.status ≡ completed
unfolding execute_agent has_failed is_success spawn error_of result_of
cancelled_completes = refl

cancels_type : (a : SubAgent) → (cancels a).agent_type ≡ a.agent_type
unfolding cancel_agent
cancels_type a = ground arith

execute_agent_lem_example :
    (last : ℕ) × IsLast third_works always_done 0 3 last
    × ((attempts third_works always_done 3 0 no_tries).calls ≡ suc last)
    × EndsWith
        (is_success (third_works last))
        (result_of (third_works last))
        "doc"
        9
        trust
        (execute_agent third_works always_done cancels 6 9 doc_agent trust)
unfolding spawn
execute_agent_lem_example =
    execute_agent_lem third_works always_done cancels 6 9 doc_agent trust cancels_type
