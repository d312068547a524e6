-- ===== src/Coordination/Handoffs/Tests.antt =====
-- Handoffs at concrete inputs.
use syntor.Common.{◌≡◌, refl, inr, List, [], ◌∷◌, none, some, map}
use syntor.Common.Dict.{lookup, insert}
use syntor.Coordination.Handoffs.{
  Executor, HandoffStatus, executing, completed, started, error, new_executor, complete_handoff,
  cancel_handoff, get_timeline,
}
use syntor.Coordination.Handoffs.Timeline.{Event, starts, cancels, cleans, run}
use syntor.Coordination.Handoffs.Cancelling.{cancel_handoff_lem}

abbrev history : List Event
history =
    starts "a" "coder" "fix" 1 ∷ starts "b" "writer" "note" 2 ∷ cancels "a" 3 ∷ cleans 5 9 ∷ []

history_newest :
    map (λ event. event.event_type) (get_timeline 2 (run new_executor history))
    ≡ started ∷ error ∷ []
unfolding new_executor run get_timeline lookup insert
history_newest = refl

abbrev handoff : HandoffStatus
handoff = record {
  id = "a";
  to_agent = "coder";
  task = "fix";
  status = executing;
  start_time = 1;
  end_time = none;
}

abbrev working : Executor
working = record { active_handoffs = ("a", handoff) ∷ []; timeline = [] }

cancel_handoff_lem_example :
    lookup "a" (complete_handoff "a" "coder" 7 (cancel_handoff "a" 4 working).0).active_handoffs
    ≡ some (record handoff { status = completed; end_time = some 7 })
unfolding lookup
cancel_handoff_lem_example = (((cancel_handoff_lem "a" 4 7 working).0 handoff refl).0 (inr refl)).2
