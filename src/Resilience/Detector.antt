-- ===== src/Resilience/Detector.antt =====
-- The failure detector of pkg/resilience/recovery.go.
-- `time.Since(t) < d` is written `now < t + d`. The map of heartbeats is an association list: Go's
-- order of iteration over it is any order, and nothing proved of the result depends on it.
pub mod Failures
mod Tests
use syntor.Common.{
  ℕ, ◌+◌, String, Bool, true, false, List, [], ◌∷◌, map, Option, none, some, ltb, leb, ◌==◌,
  if◌then◌else◌,
}
use syntor.Common.Dict.{Dict, lookup, insert, delete}

pub record FailureDetector : Type 0 where
  pub heartbeat_interval : ℕ
  pub failure_threshold : ℕ
  pub last_heartbeats : Dict ℕ
  pub on_failure : Bool

-- NewFailureDetector
unfoldable pub new_failure_detector : ℕ → ℕ → Bool → FailureDetector
new_failure_detector interval threshold on_failure = record {
  heartbeat_interval = if interval == 0 then 10_000_000_000 else interval;
  failure_threshold = if threshold == 0 then 30_000_000_000 else threshold;
  last_heartbeats = [];
  on_failure = on_failure;
}

unfoldable pub record_heartbeat : String → ℕ → FailureDetector → FailureDetector
record_heartbeat agent now fd = record fd { last_heartbeats = insert agent now fd.last_heartbeats }

unfoldable pub is_alive : String → ℕ → FailureDetector → Bool
is_alive agent now fd = elim (lookup agent fd.last_heartbeats) [
  | none ↦ false
  | some last ↦ ltb now (last + fd.failure_threshold)
]

unfoldable pub remove_agent : String → FailureDetector → FailureDetector
remove_agent agent fd = record fd { last_heartbeats = delete agent fd.last_heartbeats }

-- The loop of CheckFailures.
unfoldable pub failed_in : ℕ → ℕ → Dict ℕ → List String
failed_in now threshold [] = []
failed_in now threshold ((agent, last) ∷ m) =
    let rest = failed_in now threshold m in
    if leb (last + threshold) now then agent ∷ rest else rest

-- CheckFailures: the agents that it returns, and those that the callback is told of.
unfoldable pub check_failures : ℕ → FailureDetector → List String × List String
unfolding failed_in
check_failures now fd =
    let failed = failed_in now fd.failure_threshold fd.last_heartbeats in
    (failed, if fd.on_failure then failed else [])

-- GetTrackedAgents
unfoldable pub get_tracked_agents : FailureDetector → List String
get_tracked_agents fd = map (λ e. e.0) fd.last_heartbeats
