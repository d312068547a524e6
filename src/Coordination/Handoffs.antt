-- ===== src/Coordination/Handoffs.antt =====
-- The handoffs and the timeline of pkg/coordination/executor.go.
-- The mutex makes each of these steps one step. Execute takes several: it starts a handoff, and
-- later completes or fails it through the pointer that it kept, whose entry a cleanup may have
-- removed from the map in between. The inference itself, and the fields that no step reads, are
-- not modelled.
pub mod Timeline
pub mod Cancelling
mod Tests
use syntor.Common.{
  ℕ, ◌+◌, ◌-◌, String, str_append, Bool, true, false, ◌||◌, List, [], ◌∷◌, ◌++◌, Option, none, some,
  ltb, leb, ◌==◌, if◌then◌else◌, length, drop,
}
use syntor.Common.Dict.{Dict, lookup, insert}

pub data HandoffState : Type 0 where
  pending executing completed failed : HandoffState

pub record HandoffStatus : Type 0 where
  pub id : String
  pub to_agent : String
  pub task : String
  pub status : HandoffState
  pub start_time : ℕ
  pub end_time : Option ℕ

pub data EventType : Type 0 where
  started done handed_off error info : EventType

pub record TimelineEvent : Type 0 where
  pub time : ℕ
  pub agent : String
  pub event_type : EventType
  pub message : String

pub record Executor : Type 0 where
  pub active_handoffs : Dict HandoffStatus
  pub timeline : List TimelineEvent

-- NewExecutor
unfoldable pub new_executor : Executor
new_executor = record { active_handoffs = []; timeline = [] }

-- addTimelineEvent
unfoldable pub add_timeline_event : TimelineEvent → Executor → Executor
add_timeline_event event e =
    let all = e.timeline ++ event ∷ [] in
    record e { timeline = if ltb 1000 (length all) then drop 100 all else all }

-- The head of Execute.
unfoldable pub start_handoff : String → String → String → ℕ → Executor → Executor
unfolding add_timeline_event
start_handoff id target task now e =
    add_timeline_event
      (record {
        time = now;
        agent = target;
        event_type = started;
        message = str_append "Handoff to " (str_append target " started");
      })
      (record e {
        active_handoffs =
            insert id
              (record {
                id = id;
                to_agent = target;
                task = task;
                status = executing;
                start_time = now;
                end_time = none;
              })
              e.active_handoffs;
      })

-- A write through the pointer to a handoff's status.
unfoldable pub set_status : String → HandoffState → ℕ → Executor → Executor
set_status id state now e = elim (lookup id e.active_handoffs) [
  | none ↦ e
  | some h ↦ record e {
    active_handoffs =
        insert id (record h { status = state; end_time = some now }) e.active_handoffs;
  }
]

-- The end of Execute, after the inference.
unfoldable pub complete_handoff : String → String → ℕ → Executor → Executor
unfolding set_status add_timeline_event
complete_handoff id target now e =
    add_timeline_event
      (record {
        time = now;
        agent = target;
        event_type = done;
        message = str_append "Handoff to " (str_append target " completed");
      })
      (set_status id completed now e)

-- failHandoff
unfoldable pub fail_handoff : String → String → ℕ → Executor → Executor
unfolding set_status add_timeline_event
fail_handoff id target now e =
    add_timeline_event
      (record {
        time = now;
        agent = target;
        event_type = error;
        message = str_append "Handoff to " (str_append target " failed");
      })
      (set_status id failed now e)

pub data CancelError : Type 0 where
  handoff_not_found already_completed : CancelError

abbrev pub is_active : HandoffState → Bool
is_active pending = true
is_active executing = true
is_active completed = false
is_active failed = false

unfoldable pub cancel_handoff : String → ℕ → Executor → Executor × Option CancelError
unfolding set_status add_timeline_event
cancel_handoff id now e = elim (lookup id e.active_handoffs) [
  | none ↦ (e, some handoff_not_found)
  | some h ↦
      if is_active h.status
      then (
        add_timeline_event
            (record {
              time = now;
              agent = h.to_agent;
              event_type = error;
              message = "Handoff cancelled";
            })
            (set_status id failed now e),
        none,
      )
      else (e, some already_completed)
]

-- GetTimeline
unfoldable pub get_timeline : ℕ → Executor → List TimelineEvent
get_timeline limit e =
    let n = length e.timeline in
    let wanted = if limit == 0 || ltb n limit then n else limit in drop (n - wanted) e.timeline

unfoldable pub is_old : ℕ → ℕ → Option ℕ → Bool
is_old max_age now none = false
is_old max_age now (some ended) = ltb (ended + max_age) now

-- The loop of CleanupOldHandoffs, and how many it removed.
unfoldable pub remove_old : ℕ → ℕ → Dict HandoffStatus → Dict HandoffStatus × ℕ
unfolding is_old
remove_old max_age now [] = ([], 0)
remove_old max_age now (h ∷ rest) =
    let (kept, removed) = remove_old max_age now rest in
    if is_old max_age now h.1.end_time then (kept, removed + 1) else (h ∷ kept, removed)

unfoldable pub cleanup_old_handoffs : ℕ → ℕ → Executor → Executor × ℕ
unfolding remove_old
cleanup_old_handoffs max_age now e =
    let (kept, removed) = remove_old max_age now e.active_handoffs in
    (record e { active_handoffs = kept }, removed)
