-- ===== src/Resilience/Detector/Failures.antt =====
-- What the failure detector reports, against the history of heartbeats.
use syntor.Common.{
  ℕ, ◌+◌, ◌≡◌, refl, ◌∙◌, ap, ap₂, String, str_eq, Bool, false, List, [], ◌∷◌, Option, none, some,
  ltb, leb, if◌then◌else◌, contains, eq_iff, arith,
}
use syntor.Common.Dict.{
  Dict, lookup, IsMap, lookup-insert, lookup-delete, insert-IsMap, delete-IsMap,
}
use syntor.Resilience.Detector.{
  FailureDetector, new_failure_detector, record_heartbeat, is_alive, remove_agent, failed_in,
  check_failures,
}

pub data Event : Type 0 where
  beats : String → ℕ → Event
  leaves : String → Event

unfoldable pub step : FailureDetector → Event → FailureDetector
unfolding record_heartbeat remove_agent
step fd (beats agent now) = record_heartbeat agent now fd
step fd (leaves agent) = remove_agent agent fd

unfoldable pub run : FailureDetector → List Event → FailureDetector
unfolding step
run fd [] = fd
run fd (e ∷ es) = run (step fd e) es

-- When the agent was last heard of, `before` being what was known before the events.
abbrev pub last_beat : String → Option ℕ → List Event → Option ℕ
last_beat agent before [] = before
last_beat agent before (beats other now ∷ es) =
    last_beat agent (if str_eq other agent then some now else before) es
last_beat agent before (leaves other ∷ es) =
    last_beat agent (if str_eq other agent then none else before) es

abbrev pub is_recent : ℕ → ℕ → Option ℕ → Bool
is_recent threshold now none = false
is_recent threshold now (some last) = ltb now (last + threshold)

abbrev pub is_overdue : ℕ → ℕ → Option ℕ → Bool
is_overdue threshold now none = false
is_overdue threshold now (some last) = leb (last + threshold) now

lookup-step :
    (agent : String) (fd : FailureDetector) (e : Event) (es : List Event)
    → last_beat agent (lookup agent (step fd e).last_heartbeats) es
      ≡ last_beat agent (lookup agent fd.last_heartbeats) (e ∷ es)
unfolding step
lookup-step agent fd (beats other now) es = rw (lookup-insert fd.last_heartbeats other now agent)
lookup-step agent fd (leaves other) es = rw (lookup-delete fd.last_heartbeats other agent)

step-kept :
    (fd : FailureDetector) (e : Event)
    → IsMap fd.last_heartbeats
    → IsMap (step fd e).last_heartbeats
      × ((step fd e).failure_threshold ≡ fd.failure_threshold)
      × ((step fd e).on_failure ≡ fd.on_failure)
unfolding step
step-kept fd (beats agent now) m = (insert-IsMap fd.last_heartbeats agent now m, refl, refl)
step-kept fd (leaves agent) m = (delete-IsMap fd.last_heartbeats agent m, refl, refl)

run-kept :
    (agent : String) (fd : FailureDetector) (es : List Event)
    → IsMap fd.last_heartbeats
    → IsMap (run fd es).last_heartbeats
      × ((run fd es).failure_threshold ≡ fd.failure_threshold)
      × ((run fd es).on_failure ≡ fd.on_failure)
      × (lookup agent (run fd es).last_heartbeats
          ≡ last_beat agent (lookup agent fd.last_heartbeats) es)
unfolding run
run-kept agent fd [] m = (m, refl, refl, refl)
run-kept agent fd (e ∷ es) m =
    let (m', t, c) = step-kept fd e m in
    let (m'', t', c', l) = run-kept agent (step fd e) es m' in
    (m'', t' ∙ t, c' ∙ c, l ∙ lookup-step agent fd e es)

contains-failed_in :
    (agent : String) (now threshold : ℕ) (m : Dict ℕ)
    → IsMap m
    → contains agent (failed_in now threshold m) ≡ is_overdue threshold now (lookup agent m)
unfolding failed_in lookup contains
contains-failed_in agent now threshold [] h = refl
contains-failed_in agent now threshold ((other, last) ∷ m) h =
    ground (arith, eq_iff other agent, contains-failed_in agent now threshold m h.1)

is_alive_lem :
    (agent : String) (now : ℕ) (fd : FailureDetector)
    → is_alive agent now fd ≡ is_recent fd.failure_threshold now (lookup agent fd.last_heartbeats)
unfolding is_alive
is_alive_lem agent now fd = ground arith

-- After any heartbeats and removals in a new detector, IsAlive says of an agent whether it was last
-- heard of less than the failure threshold ago, and was heard of since it was last removed; and
-- CheckFailures returns exactly the agents that were heard of since their last removal, but not
-- within the failure threshold. The callback, if there is one, is told of those it returns.
pub check_failures_lem :
    (agent : String) (interval threshold now : ℕ) (on_failure : Bool) (es : List Event)
    → let start = new_failure_detector interval threshold on_failure in
      let fd = run start es in
      (is_alive agent now fd ≡ is_recent start.failure_threshold now (last_beat agent none es))
      × (contains agent (check_failures now fd).0
          ≡ is_overdue start.failure_threshold now (last_beat agent none es))
      × ((check_failures now fd).1 ≡ (if on_failure then (check_failures now fd).0 else []))
unfolding new_failure_detector check_failures lookup
check_failures_lem agent interval threshold now on_failure es =
    let start = new_failure_detector interval threshold on_failure in
    let (m, t, c, l) = run-kept agent start es tt in
    let m' = contains-failed_in agent now _ (run start es).last_heartbeats m in
    (
      is_alive_lem agent now (run start es) ∙ ap₂ (λ k last. is_recent k now last) t l,
      m' ∙ ap₂ (λ k last. is_overdue k now last) t l,
      ap (λ b. if b then (check_failures now (run start es)).0 else []) c,
    )
