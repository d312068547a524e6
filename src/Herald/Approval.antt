-- ===== src/Herald/Approval.antt =====
-- The local approval workflow of pkg/herald/approval.go.
-- The caller keeps the pointer that it submits, and the handler writes to it: an operation returns
-- the request as that pointer shows it afterwards. The callback is a function of the request, and
-- does not call the handler back. The zero time is `none`.
pub mod Lifecycle
pub mod Polling
mod Tests
use syntor.Common.{
  ℕ, ◌+◌, String, Bool, true, false, List, [], ◌∷◌, Option, none, some, ltb, if◌then◌else◌,
}
use syntor.Common.Dict.{Dict, lookup, insert, delete}

pub data ApprovalStatus : Type 0 where
  pending approved denied expired : ApprovalStatus

-- The fields that the workflow reads and writes.
pub record ApprovalRequest : Type 0 where
  pub id : String
  pub operation : String
  pub status : ApprovalStatus
  pub created_at : Option ℕ
  pub expires_at : Option ℕ
  pub responded_at : Option ℕ
  pub reason : String

pub record ApprovalHandler : Type 0 where
  pub requests : Dict ApprovalRequest
  pub callback : Option (ApprovalRequest → Bool × String)
  pub auto_approve : Bool

-- NewApprovalHandler
unfoldable pub new_approval_handler : Option (ApprovalRequest → Bool × String) → ApprovalHandler
new_approval_handler callback = record { requests = []; callback = callback; auto_approve = false }

-- NewAutoApprovalHandler
unfoldable pub new_auto_approval_handler : ApprovalHandler
new_auto_approval_handler = record { requests = []; callback = none; auto_approve = true }

-- 5 * time.Minute
abbrev pub five_minutes : ℕ
five_minutes = 300_000_000_000

abbrev pub expiry_or : ℕ → Option ℕ → ℕ
expiry_or default none = default
expiry_or default (some t) = t

-- What Submit makes of the request, at time `now`.
unfoldable pub submitted : ApprovalRequest → ℕ → ApprovalRequest
submitted req now = record req {
  created_at = some now;
  expires_at = some (expiry_or (now + five_minutes) req.expires_at);
  status = pending;
}

unfoldable pub submit : ApprovalRequest → ℕ → ApprovalHandler → ApprovalHandler
unfolding submitted
submit req now h = record h { requests = insert req.id (submitted req now) h.requests }

-- `time.Now().After(req.ExpiresAt)`
unfoldable pub is_past : Option ℕ → ℕ → Bool
is_past none now = true
is_past (some t) now = ltb t now

-- A request is answered: its status is set and it leaves the map.
unfoldable pub settle :
    String → ApprovalRequest → ApprovalHandler → ApprovalHandler × Option ApprovalRequest
settle id req h = (record h { requests = delete id h.requests }, some req)

unfoldable pub verdict : Bool → ApprovalStatus
verdict true = approved
verdict false = denied

-- The callback's answer.
unfoldable pub called_back :
    String
    → ApprovalRequest
    → Option (ApprovalRequest → Bool × String)
    → ℕ
    → ApprovalHandler
    → ApprovalHandler × Option ApprovalRequest
unfolding settle verdict
called_back id req none done h = (h, some req)
called_back id req (some ask) done h =
    let (agreed, why) = ask req in
    settle id (record req { responded_at = some done; reason = why; status = verdict agreed }) h

-- Process, with the request that the map has.
unfoldable pub process_request :
    String → ApprovalRequest → ℕ → ℕ → ApprovalHandler → ApprovalHandler × Option ApprovalRequest
unfolding is_past settle called_back
process_request id req now done h =
    if is_past req.expires_at now
    then settle id (record req { status = expired }) h
    else if h.auto_approve
    then settle id (record req { status = approved; responded_at = some done }) h
    else called_back id req h.callback done h

-- Process looks at the clock at `now`, and again at `done`; `none` is the error `not found`.
unfoldable pub process : String → ℕ → ℕ → ApprovalHandler → ApprovalHandler × Option ApprovalRequest
unfolding process_request
process id now done h = elim (lookup id h.requests) [
  | none ↦ (h, none)
  | some req ↦ process_request id req now done h
]

unfoldable pub get : String → ApprovalHandler → Option ApprovalRequest
get id h = lookup id h.requests

unfoldable pub is_pending : ApprovalStatus → Bool
is_pending pending = true
is_pending approved = false
is_pending denied = false
is_pending expired = false

-- The loop of ListPending.
unfoldable pub pending_in : Dict ApprovalRequest → List ApprovalRequest
unfolding is_pending
pending_in [] = []
pending_in (e ∷ rest) =
    let others = pending_in rest in if is_pending e.1.status then e.1 ∷ others else others

unfoldable pub list_pending : ApprovalHandler → List ApprovalRequest
unfolding pending_in
list_pending h = pending_in h.requests

-- The bodies of Approve and Deny, which differ in the status.
unfoldable pub respond :
    ApprovalStatus
    → String
    → String
    → ℕ
    → ApprovalHandler
    → ApprovalHandler × Option ApprovalRequest
unfolding settle
respond status id why now h = elim (lookup id h.requests) [
  | none ↦ (h, none)
  | some req ↦ settle id (record req { status = status; reason = why; responded_at = some now }) h
]

unfoldable pub approve :
    String → String → ℕ → ApprovalHandler → ApprovalHandler × Option ApprovalRequest
unfolding respond
approve id why now h = respond approved id why now h

unfoldable pub deny :
    String → String → ℕ → ApprovalHandler → ApprovalHandler × Option ApprovalRequest
unfolding respond
deny id why now h = respond denied id why now h

unfoldable pub clear : ApprovalHandler → ApprovalHandler
clear h = record h { requests = [] }

-- What a poll of WaitForApproval meets: the context is done, GetApproval fails, or it answers.
pub data Poll : Type 0 where
  done : Poll
  failed : Poll
  answered : ApprovalRequest → Poll

pub data Waited : Type 0 where
  granted : ApprovalRequest → Waited
  refused : ApprovalRequest → String → Waited
  context_done request_failed still_waiting : Waited

-- WaitForApproval, on the polls that come.
unfoldable pub wait_for_approval : List Poll → Waited
wait_for_approval [] = still_waiting
wait_for_approval (done ∷ polls) = context_done
wait_for_approval (failed ∷ polls) = request_failed
wait_for_approval (answered req ∷ polls) =
    let later = wait_for_approval polls in
    elim req.status [
      | pending ↦ later
      | approved ↦ granted req
      | denied ↦ refused req req.reason
      | expired ↦ refused req "approval request expired"
    ]
