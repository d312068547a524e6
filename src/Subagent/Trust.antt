-- ===== src/Subagent/Trust.antt =====
-- The trust of agent types in pkg/subagent/manager.go.
-- The tracker is the manager's `trustTracker`; the mutex makes each operation one step. Emitted
-- events are a list. A level is a number from 0 on.
pub mod Agents
pub mod Refinement
pub mod Earning
pub mod Promotion
mod Tests
use syntor.Common.{
  ℕ, ◌+◌, ◌-◌, String, Bool, true, false, ◌&&◌, List, [], ◌∷◌, ◌++◌, Option, none, some, ltb, leb,
  ◌==◌, if◌then◌else◌,
}
use syntor.Common.Dict.{Dict, lookup, insert}

-- Level0Visible, Level1Trusted, Level2Background
abbrev pub level0_visible : ℕ
level0_visible = 0

abbrev pub level1_trusted : ℕ
level1_trusted = 1

abbrev pub level2_background : ℕ
level2_background = 2

pub record PromotionCriteria : Type 0 where
  pub min_success_count : ℕ
  pub max_failure_count : ℕ
  pub no_user_intervention : Bool
  pub low_risk_only : Bool

-- DefaultPromotionCriteria
abbrev pub default_promotion_criteria : PromotionCriteria
default_promotion_criteria = record {
  min_success_count = 5;
  max_failure_count = 0;
  no_user_intervention = true;
  low_risk_only = true;
}

pub record TrustRecord : Type 0 where
  pub agent_type : String
  pub consecutive_successes : ℕ
  pub total_successes : ℕ
  pub total_failures : ℕ
  pub user_overrides : ℕ
  pub last_execution : Option ℕ
  pub current_trust : ℕ

pub data Emitted : Type 0 where
  promoted demoted : String → ℕ → Emitted

-- What the manager keeps for trust.
pub record Manager : Type 0 where
  pub promotion_criteria : PromotionCriteria
  pub auto_promote : Bool
  pub trust_tracker : Dict TrustRecord
  pub events : List Emitted

-- NewManager
unfoldable pub new_manager : PromotionCriteria → Bool → Manager
new_manager criteria auto = record {
  promotion_criteria = criteria;
  auto_promote = auto;
  trust_tracker = [];
  events = [];
}

unfoldable pub fresh_record : String → TrustRecord
fresh_record agent_type = record {
  agent_type = agent_type;
  consecutive_successes = 0;
  total_successes = 0;
  total_failures = 0;
  user_overrides = 0;
  last_execution = none;
  current_trust = level0_visible;
}

-- The record of the agent type, or the one that is made for it.
unfoldable pub record_or_fresh : String → Manager → TrustRecord
unfolding fresh_record lookup
record_or_fresh agent_type m = elim (lookup agent_type m.trust_tracker) [
  | none ↦ fresh_record agent_type
  | some r ↦ r
]

-- The write through the pointer to the record.
unfoldable pub store : String → TrustRecord → Manager → Manager
store agent_type r m = record m { trust_tracker = insert agent_type r m.trust_tracker }

unfoldable pub emit : Emitted → Manager → Manager
emit event m = record m { events = m.events ++ event ∷ [] }

-- The record after an execution.
unfoldable pub counted : Bool → ℕ → TrustRecord → TrustRecord
counted true now r = record r {
  last_execution = some now;
  consecutive_successes = r.consecutive_successes + 1;
  total_successes = r.total_successes + 1;
}
counted false now r = record r {
  last_execution = some now;
  consecutive_successes = 0;
  total_failures = r.total_failures + 1;
}

unfoldable pub record_execution : String → Bool → ℕ → Manager → Manager
unfolding counted record_or_fresh store
record_execution agent_type success now m =
    store agent_type (counted success now (record_or_fresh agent_type m)) m

-- The rest of checkPromotion, with a record below the highest level.
unfoldable pub promote_record : String → TrustRecord → Manager → Manager
unfolding store emit
promote_record agent_type r m =
    let lower = record r { current_trust = r.current_trust - 1 } in
    let higher = record r { current_trust = r.current_trust + 1 } in
    if leb 2 r.total_failures
    then if ltb level0_visible r.current_trust
      then emit (demoted agent_type lower.current_trust) (store agent_type lower m)
      else m
    else if leb m.promotion_criteria.min_success_count r.consecutive_successes
        && r.user_overrides == 0
    then emit (promoted agent_type higher.current_trust) (store agent_type higher m)
    else m

unfoldable pub check_promotion : String → Manager → Manager
unfolding promote_record
check_promotion agent_type m = elim (lookup agent_type m.trust_tracker) [
  | none ↦ m
  | some r ↦ if leb level2_background r.current_trust then m else promote_record agent_type r m
]

unfoldable pub record_user_override : String → Manager → Manager
unfolding store
record_user_override agent_type m = elim (lookup agent_type m.trust_tracker) [
  | none ↦ m
  | some r ↦
      store agent_type
        (record r { user_overrides = r.user_overrides + 1; consecutive_successes = 0 }) m
]

unfoldable pub demote : String → Manager → Manager
unfolding store emit
demote agent_type m = elim (lookup agent_type m.trust_tracker) [
  | none ↦ m
  | some r ↦
      let lower = record r { current_trust = r.current_trust - 1 } in
      if leb r.current_trust level0_visible
      then m
      else emit (demoted agent_type lower.current_trust) (store agent_type lower m)
]

-- Promote; `false` is the error `already at maximum trust level`, and the record is made also then.
unfoldable pub promote : String → Manager → Manager × Bool
unfolding record_or_fresh store emit
promote agent_type m =
    let r = record_or_fresh agent_type m in
    let higher = record r { current_trust = r.current_trust + 1 } in
    if leb level2_background r.current_trust
    then (store agent_type r m, false)
    else (emit (promoted agent_type higher.current_trust) (store agent_type higher m), true)

unfoldable pub get_trust_level : String → Manager → ℕ
get_trust_level agent_type m = elim (lookup agent_type m.trust_tracker) [
  | none ↦ level0_visible
  | some r ↦ r.current_trust
]

-- The tail of execute: the result is recorded, and after a success the promotion is checked.
unfoldable pub finish_execution : String → Bool → ℕ → Manager → Manager
unfolding record_execution check_promotion
finish_execution agent_type false now m = record_execution agent_type false now m
finish_execution agent_type true now m =
    let recorded = record_execution agent_type true now m in
    if m.auto_promote then check_promotion agent_type recorded else recorded
