-- ===== src/Subagent/Trust/Tests.antt =====
-- Trust histories at concrete inputs.
use syntor.Common.{ℕ, ◌≡◌, refl, true, false, List, [], ◌∷◌, none, some}
use syntor.Common.Dict.{lookup}
use syntor.Subagent.Trust.{
  PromotionCriteria, TrustRecord, Manager, default_promotion_criteria, new_manager, get_trust_level,
}
use syntor.Subagent.Trust.Agents.{Event, executes, overrides, promotes, run, history}
use syntor.Subagent.Trust.Refinement.{run-history}
use syntor.Subagent.Trust.Earning.{top_stays}

abbrev criteria : PromotionCriteria
criteria = default_promotion_criteria

abbrev events : List Event
events =
    executes "coder" true 1 ∷ promotes "coder" ∷ overrides "coder" ∷ executes "writer" false 4 ∷ []

run-history_example :
    lookup "coder" (run (new_manager criteria true) events).trust_tracker
    ≡ history criteria true "coder" none events
unfolding new_manager lookup
run-history_example = run-history (new_manager criteria true) "coder" events

abbrev seasoned : ℕ → ℕ → TrustRecord
seasoned trust times = record {
  agent_type = "coder";
  consecutive_successes = 7;
  total_successes = 9;
  total_failures = 1;
  user_overrides = times;
  last_execution = some 3;
  current_trust = trust;
}

abbrev knowing : TrustRecord → Manager
knowing r = record {
  promotion_criteria = criteria;
  auto_promote = true;
  trust_tracker = ("coder", r) ∷ [];
  events = [];
}

abbrev failing : List Event
failing = executes "coder" false 5 ∷ executes "coder" false 6 ∷ executes "coder" true 7 ∷ []

top_stays_example : get_trust_level "coder" (run (knowing (seasoned 2 0)) failing) ≡ 2
unfolding lookup
top_stays_example =
    top_stays (knowing (seasoned 2 0)) "coder" (seasoned 2 0) failing refl refl (tt, (tt, (tt, tt)))
