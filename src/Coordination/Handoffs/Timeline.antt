-- ===== src/Coordination/Handoffs/Timeline.antt =====
-- The timeline over any history of the executor.
use syntor.Common.{
  ℕ, ◌-◌, ◌≤◌, ◌≡◌, inl, inr, String, false, ◌||◌, List, [], ◌∷◌, ◌++◌, ltb, ◌==◌, if◌then◌else◌,
  length, drop, length-append, length-drop, arith, Option-cases, Bool-cases, ap, subst, sym, ◌∙◌,
}
use syntor.Common.Dict.{lookup}
use syntor.Coordination.Handoffs.{
  Executor, TimelineEvent, new_executor, add_timeline_event, start_handoff, complete_handoff,
  fail_handoff, cancel_handoff, set_status, HandoffState, completed, failed, error, get_timeline,
  cleanup_old_handoffs, is_active,
}

pub data Event : Type 0 where
  starts : String → String → String → ℕ → Event
  completes fails : String → String → ℕ → Event
  cancels : String → ℕ → Event
  cleans : ℕ → ℕ → Event

unfoldable pub step : Executor → Event → Executor
unfolding start_handoff complete_handoff fail_handoff cancel_handoff cleanup_old_handoffs
step e (starts id target task now) = start_handoff id target task now e
step e (completes id target now) = complete_handoff id target now e
step e (fails id target now) = fail_handoff id target now e
step e (cancels id now) = (cancel_handoff id now e).0
step e (cleans max_age now) = (cleanup_old_handoffs max_age now e).0

unfoldable pub run : Executor → List Event → Executor
unfolding step
run e [] = e
run e (event ∷ events) = run (step e event) events

abbrev pub IsBounded : Executor → Type 0
IsBounded e = length e.timeline ≤ 1000

¬ltb→le : (a b : ℕ) → ltb a b ≡ false → b ≤ a
¬ltb→le a b e = ground arith

trimmed_le :
    (all : List TimelineEvent)
    → length all ≤ 1001
    → length (if ltb 1000 (length all) then drop 100 all else all) ≤ 1000
trimmed_le all h = elim (Bool-cases (ltb 1000 (length all))) [
  | inl more ↦ rw more (omega (arith, length-drop 100 all))
  | inr few ↦ rw few (¬ltb→le 1000 (length all) few)
]

add_timeline_event-IsBounded :
    (event : TimelineEvent) (e : Executor) → IsBounded e → IsBounded (add_timeline_event event e)
unfolding add_timeline_event
add_timeline_event-IsBounded event e b =
    trimmed_le (e.timeline ++ event ∷ []) (omega (arith, length-append e.timeline (event ∷ [])))

set_status_timeline :
    (id : String) (e : Executor) (state : HandoffState) (now : ℕ)
    → (set_status id state now e).timeline ≡ e.timeline
unfolding set_status
set_status_timeline id e state now = ground arith

set_status-IsBounded :
    (id : String) (e : Executor) (state : HandoffState) (now : ℕ)
    → IsBounded e
    → IsBounded (set_status id state now e)
set_status-IsBounded id e state now b = rw (set_status_timeline id e state now) b

cancel_handoff-IsBounded :
    (id : String) (now : ℕ) (e : Executor) → IsBounded e → IsBounded (cancel_handoff id now e).0
unfolding cancel_handoff
cancel_handoff-IsBounded id now e b = elim (Option-cases (lookup id e.active_handoffs)) [
  | inl gone ↦
      let same : (cancel_handoff id now e).0 ≡ e = ground arith in subst IsBounded (sym same) b
  | inr (h, there) ↦ elim (Bool-cases (is_active h.status)) [
    | inr inactive ↦
        let same : (cancel_handoff id now e).0 ≡ e = ground arith in subst IsBounded (sym same) b
    | inl active ↦
        let event : TimelineEvent = record {
          time = now;
          agent = h.to_agent;
          event_type = error;
          message = "Handoff cancelled";
        } in
        let cancelled : (cancel_handoff id now e).0
            ≡ add_timeline_event event (set_status id failed now e) =
          ground arith in
        subst IsBounded (sym cancelled) (
          add_timeline_event-IsBounded event (set_status id failed now e)
            (set_status-IsBounded id e failed now b))
  ]
]

step-IsBounded : (e : Executor) (event : Event) → IsBounded e → IsBounded (step e event)
unfolding step start_handoff complete_handoff fail_handoff cancel_handoff cleanup_old_handoffs
step-IsBounded e (starts id target task now) b =
    add_timeline_event-IsBounded _
      (record e { active_handoffs = (start_handoff id target task now e).active_handoffs }) b
step-IsBounded e (completes id target now) b =
    add_timeline_event-IsBounded _ (set_status id completed now e)
      (set_status-IsBounded id e completed now b)
step-IsBounded e (fails id target now) b =
    add_timeline_event-IsBounded _ (set_status id failed now e)
      (set_status-IsBounded id e failed now b)
step-IsBounded e (cancels id now) b = cancel_handoff-IsBounded id now e b
step-IsBounded e (cleans max_age now) b = b

run-IsBounded : (e : Executor) (events : List Event) → IsBounded e → IsBounded (run e events)
unfolding run
run-IsBounded e [] b = b
run-IsBounded e (event ∷ events) b = run-IsBounded (step e event) events (step-IsBounded e event b)

abbrev wanted : ℕ → ℕ → ℕ
wanted limit n = if limit == 0 || ltb n limit then n else limit

wanted_le : (limit n : ℕ) → n - (n - wanted limit n) ≡ wanted limit n
wanted_le limit n = ground arith

length-get_timeline :
    (limit : ℕ) (e : Executor) → length (get_timeline limit e) ≡ wanted limit (length e.timeline)
unfolding get_timeline
length-get_timeline limit e =
    let n = length e.timeline in length-drop (n - wanted limit n) e.timeline ∙ wanted_le limit n

-- After any history of a new executor the timeline has at most 1000 events, and GetTimeline with a
-- limit gives the newest ones: as many as the limit, or all of them if the limit is 0 or more than
-- there are, with the older ones left out.
pub run-new_timeline :
    (events : List Event) (limit : ℕ)
    → let e = run new_executor events in
      (length e.timeline ≤ 1000)
      × (length (get_timeline limit e)
          ≡ (if limit == 0 || ltb (length e.timeline) limit then length e.timeline else limit))
      × (get_timeline limit e ≡ drop (length e.timeline - length (get_timeline limit e)) e.timeline)
unfolding new_executor get_timeline
run-new_timeline events limit =
    let e = run new_executor events in
    let l = length-get_timeline limit e in
    (
      run-IsBounded new_executor events (omega arith),
      l,
      ap (λ k. drop (length e.timeline - k) e.timeline) (sym l),
    )
