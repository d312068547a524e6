-- ===== src/Subagent/Trust/Agents.antt =====
-- The trust of one agent type, told apart from the rest of the manager.
use syntor.Common.{
  ℕ, ◌+◌, ◌-◌, ◌≡◌, ap, inl, inr, String, str_eq, Bool, true, false, ◌&&◌, List, [], ◌∷◌, Option,
  none, some, leb, ◌==◌, if◌then◌else◌, arith, eq_iff, Option-cases, Bool-cases,
}
use syntor.Common.Dict.{lookup, lookup-insert}
use syntor.Subagent.Trust.{
  PromotionCriteria, TrustRecord, Manager, fresh_record, store, emit, counted, record_execution,
  promote_record, check_promotion, record_user_override, demote, promote, finish_execution,
  level2_background,
}

-- An execution that ends, a user's override, and the two forced changes.
pub data Event : Type 0 where
  executes : String → Bool → ℕ → Event
  overrides demotes promotes : String → Event

unfoldable pub step : Manager → Event → Manager
unfolding finish_execution record_user_override demote promote
step m (executes agent success now) = finish_execution agent success now m
step m (overrides agent) = record_user_override agent m
step m (demotes agent) = demote agent m
step m (promotes agent) = (promote agent m).0

unfoldable pub run : Manager → List Event → Manager
unfolding step
run m [] = m
run m (e ∷ es) = run (step m e) es

-- What one agent type's record becomes.
abbrev pub raised : PromotionCriteria → TrustRecord → TrustRecord
raised criteria r =
    if leb level2_background r.current_trust
    then r
    else if leb 2 r.total_failures
    then record r { current_trust = r.current_trust - 1 }
    else if leb criteria.min_success_count r.consecutive_successes && r.user_overrides == 0
    then record r { current_trust = r.current_trust + 1 }
    else r

abbrev pub or_fresh : String → Option TrustRecord → TrustRecord
or_fresh agent none = fresh_record agent
or_fresh agent (some r) = r

abbrev pub executed : PromotionCriteria → Bool → Bool → ℕ → TrustRecord → TrustRecord
executed criteria auto success now r =
    let after = counted success now r in if success && auto then raised criteria after else after

abbrev pub overridden : Option TrustRecord → Option TrustRecord
overridden none = none
overridden (some r) =
    some (record r { user_overrides = r.user_overrides + 1; consecutive_successes = 0 })

abbrev pub lowered : Option TrustRecord → Option TrustRecord
lowered none = none
lowered (some r) = some (record r { current_trust = r.current_trust - 1 })

abbrev pub lifted : TrustRecord → TrustRecord
lifted r =
    if leb level2_background r.current_trust
    then r
    else record r { current_trust = r.current_trust + 1 }

abbrev pub next :
    PromotionCriteria → Bool → String → Option TrustRecord → Event → Option TrustRecord
next criteria auto agent o (executes other success now) =
    if str_eq other agent then some (executed criteria auto success now (or_fresh agent o)) else o
next criteria auto agent o (overrides other) = if str_eq other agent then overridden o else o
next criteria auto agent o (demotes other) = if str_eq other agent then lowered o else o
next criteria auto agent o (promotes other) =
    if str_eq other agent then some (lifted (or_fresh agent o)) else o

abbrev pub history :
    PromotionCriteria → Bool → String → Option TrustRecord → List Event → Option TrustRecord
history criteria auto agent o [] = o
history criteria auto agent o (e ∷ es) =
    history criteria auto agent (next criteria auto agent o e) es

-- The next record of an agent type that has one.
abbrev pub raise_some : PromotionCriteria → Option TrustRecord → Option TrustRecord
raise_some criteria none = none
raise_some criteria (some r) = some (raised criteria r)

-- Names that agree have the same record.
pub same_record :
    (m : Manager) (agent other : String)
    → str_eq other agent ≡ true
    → lookup other m.trust_tracker ≡ lookup agent m.trust_tracker
same_record m agent other e =
    let p : other ≡ agent = ground (arith, eq_iff other agent) in
    ap (λ a. lookup a m.trust_tracker) p

pub lookup-store :
    (m : Manager) (agent other : String) (r : TrustRecord)
    → lookup agent (store other r m).trust_tracker
      ≡ (if str_eq other agent then some r else lookup agent m.trust_tracker)
unfolding store
lookup-store m agent other r = lookup-insert m.trust_tracker other r agent

check_promotion-kept :
    (m : Manager) (agent : String)
    → ((check_promotion agent m).promotion_criteria ≡ m.promotion_criteria)
      × ((check_promotion agent m).auto_promote ≡ m.auto_promote)
unfolding check_promotion promote_record store emit
check_promotion-kept m agent = ground arith

pub step-kept :
    (m : Manager) (e : Event)
    → ((step m e).promotion_criteria ≡ m.promotion_criteria)
      × ((step m e).auto_promote ≡ m.auto_promote)
unfolding step record_execution store emit
step-kept m (executes agent true now) =
    ground (arith, check_promotion-kept (record_execution agent true now m) agent)
step-kept m (executes agent false now) = ground arith
step-kept m (overrides agent) = ground arith
step-kept m (demotes agent) = ground arith
step-kept m (promotes agent) = ground arith

lookup-promote_record :
    (m : Manager) (agent other : String) (r : TrustRecord)
    → lookup other m.trust_tracker ≡ some r
    → leb level2_background r.current_trust ≡ false
    → lookup agent (promote_record other r m).trust_tracker ≡ (
        if str_eq other agent
        then some (raised m.promotion_criteria r)
        else lookup agent m.trust_tracker)
unfolding promote_record emit
lookup-promote_record m agent other r there low =
    let lower = lookup-store m agent other (record r { current_trust = r.current_trust - 1 }) in
    let higher = lookup-store m agent other (record r { current_trust = r.current_trust + 1 }) in
    let same = same_record m agent other in ground (arith, lower, higher, same)

pub lookup-check_promotion :
    (m : Manager) (agent other : String)
    → lookup agent (check_promotion other m).trust_tracker ≡ (
        if str_eq other agent
        then raise_some m.promotion_criteria (lookup agent m.trust_tracker)
        else lookup agent m.trust_tracker)
unfolding check_promotion
lookup-check_promotion m agent other =
    let same = same_record m agent other in
    elim (Option-cases (lookup other m.trust_tracker)) [
      | inl gone ↦ ground (arith, same)
      | inr (r, there) ↦ elim (Bool-cases (leb level2_background r.current_trust)) [
        | inl high ↦ ground (arith, same)
        | inr low ↦ ground (arith, same, lookup-promote_record m agent other r there low)
      ]
    ]
