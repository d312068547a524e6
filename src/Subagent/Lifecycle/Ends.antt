-- ===== src/Subagent/Lifecycle/Ends.antt =====
-- How an execution ends, and what Cleanup removes.
use syntor.Common.{
  ℕ, suc, ◌+◌, ◌≡◌, inl, inr, refl, subst, String, Bool, true, false, Option, some, if◌then◌else◌,
  arith, Bool-cases, [], ◌∷◌, length,
}
use syntor.Common.Dict.{Dict, Each}
use syntor.Subagent.Trust.{Manager, finish_execution}
use syntor.Subagent.Lifecycle.{
  Answer, returned, erred, Result, SubAgent, completed, failed, Tries, result_of, error_of,
  is_success, no_tries, attempts, has_failed, start_agent, end_agent, execute_agent, is_stale,
  cleanup_agents,
}
use syntor.Subagent.Lifecycle.Retries.{IsLast, attempts-TriedLast}

-- The loop's variables after an answer tell a success from a failure.
has_failed_of :
    (a : Answer) (t : Tries)
    → t.result ≡ result_of a
    → t.err ≡ error_of a
    → has_failed t ≡ (if is_success a then false else true)
unfolding has_failed result_of error_of is_success
has_failed_of (returned r) t result err = rw (has_failed, err, result) refl
has_failed_of (erred e r) t result err = rw (has_failed, err) refl

-- What the end makes of the agent and of its type's trust.
abbrev pub EndsWith : Bool → Option Result → String → ℕ → Manager → SubAgent × Manager → Type 0
EndsWith success result agent_type now m (agent, trust) =
    (agent.result ≡ result)
    × (agent.status ≡ (if success then completed else failed))
    × (agent.completed_at ≡ some now)
    × (trust ≡ finish_execution agent_type success now m)

end_agent-EndsWith :
    (success : Bool) (now : ℕ) (t : Tries) (agent : SubAgent) (m : Manager)
    → has_failed t ≡ (if success then false else true)
    → EndsWith success t.result agent.agent_type now m (end_agent now t agent m)
unfolding end_agent
end_agent-EndsWith true now t agent m h = rw (end_agent, h) (refl, refl, refl, refl)
end_agent-EndsWith false now t agent m h = rw (end_agent, h) (refl, refl, refl, refl)

-- Whatever other callers do meanwhile, Cancel included, and whether or not the context is done, the
-- executor is called until its first success and at most once more than the retries; the agent
-- then is completed or failed, with the last answer's result, as that answer was a success or not,
-- and so is the execution recorded for its type.
pub execute_agent_lem :
    (answer : ℕ → Answer) (is_done : ℕ → Bool) (meanwhile : SubAgent → SubAgent) (start now : ℕ)
    (agent : SubAgent) (m : Manager)
    → ((a : SubAgent) → (meanwhile a).agent_type ≡ a.agent_type)
    → (last : ℕ) × IsLast answer is_done 0 (suc agent.max_retries) last
      × ((attempts answer is_done (suc agent.max_retries) 0 no_tries).calls ≡ suc last)
      × EndsWith
          (is_success (answer last))
          (result_of (answer last))
          agent.agent_type
          now
          m
          (execute_agent answer is_done meanwhile start now agent m)
unfolding execute_agent start_agent
execute_agent_lem answer is_done meanwhile start now agent m same =
    let tries = attempts answer is_done (suc agent.max_retries) 0 no_tries in
    let (last, is_last, result, err, calls) =
      attempts-TriedLast answer is_done agent.max_retries 0 no_tries in
    let after = meanwhile (start_agent start agent) in
    let end =
      end_agent-EndsWith (is_success (answer last)) now tries after m
        (has_failed_of (answer last) tries result err) in
    (
      last,
      is_last,
      omega (arith, calls),
      subst
          (λ t.
            EndsWith (is_success (answer last)) (result_of (answer last)) t now m
              (end_agent now tries after m))
          (same (start_agent start agent))
          (subst
            (λ r.
              EndsWith (is_success (answer last)) r after.agent_type now m
                (end_agent now tries after m))
            result end),
    )

-- Cleanup removes the agents that ended longer ago than the age, and only those: a found one
-- that it leaves is not stale, and the rest is counted.
cleanup_agents_kept :
    (now max_age : ℕ) (agents : Dict SubAgent)
    → Each (λ id a. is_stale now max_age a ≡ false) (cleanup_agents now max_age agents).0
      × (length (cleanup_agents now max_age agents).0 + (cleanup_agents now max_age agents).1
          ≡ length agents)
unfolding cleanup_agents
cleanup_agents_kept now max_age [] = (tt, omega arith)
cleanup_agents_kept now max_age (e ∷ es) =
    let (each, n) = cleanup_agents_kept now max_age es in
    elim (Bool-cases (is_stale now max_age e.1)) [
      | inl s ↦ rw s (each, omega (arith, n))
      | inr k ↦ rw k ((k, each), omega (arith, n))
    ]
