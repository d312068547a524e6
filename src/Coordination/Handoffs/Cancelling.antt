-- ===== src/Coordination/Handoffs/Cancelling.antt =====
-- Cancelling a handoff, and what its execution does afterwards.
use syntor.Common.{ℕ, ◌≡◌, ◌⊎◌, String, true, none, some, arith, eq_refl}
use syntor.Common.Dict.{lookup, lookup-insert}
use syntor.Coordination.Handoffs.{
  Executor, HandoffStatus, HandoffState, pending, executing, completed, failed, add_timeline_event,
  set_status, complete_handoff, fail_handoff, cancel_handoff, is_active, handoff_not_found,
  already_completed,
}

lookup-set_status :
    (id : String) (state : HandoffState) (now : ℕ) (e : Executor) (h : HandoffStatus)
    → lookup id e.active_handoffs ≡ some h
    → lookup id (set_status id state now e).active_handoffs
      ≡ some (record h { status = state; end_time = some now })
unfolding set_status
lookup-set_status id state now e h there =
    let after = record h { status = state; end_time = some now } in
    ground (arith, lookup-insert e.active_handoffs id after id, eq_refl id)

-- Cancelling a handoff that is pending or executing is accepted, and makes it failed at that time;
-- cancelling one that is completed or failed, or that the executor does not know, is refused with
-- the error for that and changes nothing. But the execution of a cancelled handoff goes on: if it
-- then succeeds the handoff is completed after all, and if it then fails the time of the failure
-- replaces that of the cancelling.
pub cancel_handoff_lem :
    (id : String) (now later : ℕ) (e : Executor)
    → ((h : HandoffStatus)
        → lookup id e.active_handoffs ≡ some h
        → ((h.status ≡ pending) ⊎ (h.status ≡ executing)
            → let (e', err) = cancel_handoff id now e in
              (err ≡ none)
              × (lookup id e'.active_handoffs
                  ≡ some (record h { status = failed; end_time = some now }))
              × (lookup id (complete_handoff id h.to_agent later e').active_handoffs
                  ≡ some (record h { status = completed; end_time = some later }))
              × (lookup id (fail_handoff id h.to_agent later e').active_handoffs
                  ≡ some (record h { status = failed; end_time = some later })))
          × ((h.status ≡ completed) ⊎ (h.status ≡ failed)
              → cancel_handoff id now e ≡ (e, some already_completed)))
      × (lookup id e.active_handoffs ≡ none → cancel_handoff id now e ≡ (e, some handoff_not_found))
unfolding cancel_handoff complete_handoff fail_handoff add_timeline_event
cancel_handoff_lem id now later e = (
  λ h there. (
    λ active.
        let is_on : is_active h.status ≡ true = ground arith in
        let e' = (cancel_handoff id now e).0 in
        let cancelled : lookup id e'.active_handoffs
            ≡ some (record h { status = failed; end_time = some now }) =
          ground (arith, lookup-set_status id failed now e h there) in
        let end = λ (state : HandoffState).
          lookup-set_status id state later e' (record h { status = failed; end_time = some now })
            cancelled in
        (ground (arith, is_on), cancelled, end completed, end failed),
    λ inactive. ground arith,
  ),
  λ gone. ground arith,
)
