-- ===== src/Subagent/Trust/Refinement.antt =====
-- The manager's trust tracker keeps, for each agent type, the history of that type alone.
use syntor.Common.{
  ℕ, ◌+◌, ◌-◌, ◌≡◌, refl, ap, inl, inr, String, str_eq, Bool, true, false, List, [], ◌∷◌, some, leb,
  if◌then◌else◌, arith, eq_iff, Option-cases, Bool-cases,
}
use syntor.Common.Dict.{lookup}
use syntor.Subagent.Trust.{
  Manager, fresh_record, record_or_fresh, store, emit, counted, record_execution,
  record_user_override, demote, promote, level0_visible,
}
use syntor.Subagent.Trust.Agents.{
  Event, executes, overrides, demotes, promotes, step, run, or_fresh, overridden, lowered, lifted,
  next, history, same_record, lookup-store, step-kept, lookup-check_promotion,
}

lookup-record_execution :
    (m : Manager) (agent other : String) (success : Bool) (now : ℕ)
    → lookup agent (record_execution other success now m).trust_tracker ≡ (
        if str_eq other agent
        then some (counted success now (or_fresh agent (lookup agent m.trust_tracker)))
        else lookup agent m.trust_tracker)
unfolding record_execution record_or_fresh fresh_record
lookup-record_execution m agent other success now =
    let same = same_record m agent other in
    let kept = lookup-store m agent other (counted success now (record_or_fresh other m)) in
    let name = eq_iff other agent in
    elim (Option-cases (lookup other m.trust_tracker)) [
      | inl gone ↦ ground (arith, same, kept, name)
      | inr (r, there) ↦ ground (arith, same, kept, name)
    ]

lookup-promote :
    (m : Manager) (agent other : String)
    → lookup agent (promote other m).0.trust_tracker ≡ (
        if str_eq other agent
        then some (lifted (or_fresh agent (lookup agent m.trust_tracker)))
        else lookup agent m.trust_tracker)
unfolding promote record_or_fresh fresh_record emit
lookup-promote m agent other =
    let same = same_record m agent other in
    let r = record_or_fresh other m in
    let kept = lookup-store m agent other r in
    let higher = lookup-store m agent other (record r { current_trust = r.current_trust + 1 }) in
    let name = eq_iff other agent in
    elim (Option-cases (lookup other m.trust_tracker)) [
      | inl gone ↦ ground (arith, same, kept, higher, name)
      | inr (r', there) ↦ ground (arith, same, kept, higher, name)
    ]

lookup-demote :
    (m : Manager) (agent other : String)
    → lookup agent (demote other m).trust_tracker ≡ (
        if str_eq other agent
        then lowered (lookup agent m.trust_tracker)
        else lookup agent m.trust_tracker)
unfolding demote emit
lookup-demote m agent other =
    let same = same_record m agent other in
    elim (Option-cases (lookup other m.trust_tracker)) [
      | inl gone ↦ ground (arith, same)
      | inr (r, there) ↦
          let lower = record r { current_trust = r.current_trust - 1 } in
          elim (Bool-cases (leb r.current_trust level0_visible)) [
            | inl zero_already ↦
                let z : r.current_trust - 1 ≡ r.current_trust = ground arith in
                let r_same : lower ≡ r = ap (λ n. record r { current_trust = n }) z in
                ground (arith, same, r_same)
            | inr above ↦ ground (arith, same, lookup-store m agent other lower)
          ]
    ]

lookup-override :
    (m : Manager) (agent other : String)
    → lookup agent (record_user_override other m).trust_tracker ≡ (
        if str_eq other agent
        then overridden (lookup agent m.trust_tracker)
        else lookup agent m.trust_tracker)
unfolding record_user_override
lookup-override m agent other =
    let same = same_record m agent other in
    elim (Option-cases (lookup other m.trust_tracker)) [
      | inl gone ↦ ground (arith, same)
      | inr (r, there) ↦
          let after = record r {
            user_overrides = r.user_overrides + 1;
            consecutive_successes = 0;
          } in
          ground (arith, same, lookup-store m agent other after)
    ]

record_execution-kept :
    (m : Manager) (agent : String) (now : ℕ)
    → (record_execution agent true now m).promotion_criteria ≡ m.promotion_criteria
unfolding record_execution store
record_execution-kept m agent now = refl

lookup-step :
    (m : Manager) (agent : String) (e : Event)
    → lookup agent (step m e).trust_tracker
      ≡ next m.promotion_criteria m.auto_promote agent (lookup agent m.trust_tracker) e
unfolding step
lookup-step m agent (executes other false now) =
    ground (arith, lookup-record_execution m agent other false now)
lookup-step m agent (executes other true now) =
    let recorded = lookup-record_execution m agent other true now in
    let checked = lookup-check_promotion (record_execution other true now m) agent other in
    let criteria = record_execution-kept m other now in ground (arith, recorded, checked, criteria)
lookup-step m agent (overrides other) = lookup-override m agent other
lookup-step m agent (demotes other) = lookup-demote m agent other
lookup-step m agent (promotes other) = lookup-promote m agent other

-- The trust of an agent type is a matter of its own events: after any history of the manager, its
-- record is the one that the events of that type alone lead to, those of other types changing
-- nothing.
pub run-history :
    (m : Manager) (agent : String) (es : List Event)
    → lookup agent (run m es).trust_tracker
      ≡ history m.promotion_criteria m.auto_promote agent (lookup agent m.trust_tracker) es
unfolding run
run-history m agent [] = refl
run-history m agent (e ∷ es) =
    let (c, a) = step-kept m e in
    let ih = run-history (step m e) agent es in
    let l = lookup-step m agent e in ground (arith, c, a, ih, l)
