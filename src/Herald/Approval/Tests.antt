-- ===== src/Herald/Approval/Tests.antt =====
-- Runs of the approval handler, and its theorems at concrete inputs.
use syntor.Common.{
  ◌≡◌, ◌≢◌, refl, String, Bool, true, false, List, [], ◌∷◌, none, some, arith, eq_iff, map,
}
use syntor.Common.Dict.{lookup, insert, delete}
use syntor.Herald.Approval.{
  ApprovalRequest, ApprovalHandler, pending, approved, denied, process, list_pending,
}
use syntor.Herald.Approval.Lifecycle.{Event, submits, denies, run, IsUnknown, process_once}

abbrev request : String → ApprovalRequest
request id = record {
  id = id;
  operation = "write";
  status = denied;
  created_at = none;
  expires_at = none;
  responded_at = none;
  reason = "";
}

abbrev agree : ApprovalRequest → Bool × String
agree req = (true, "fine")

abbrev handler : ApprovalHandler
handler = record { requests = []; callback = some agree; auto_approve = false }

abbrev history : List Event
history = submits (request "a") 5 ∷ submits (request "b") 6 ∷ denies "b" "no" 7 ∷ []

-- The one request that is not answered is listed, with its status set.
history_pending : map (λ r. r.status) (list_pending (run handler history)) ≡ pending ∷ []
unfolding run list_pending lookup insert delete
history_pending = refl

abbrev answer : ApprovalRequest
answer = record (request "a") {
  status = approved;
  created_at = some 5;
  expires_at = some 300_000_000_005;
  responded_at = some 9;
  reason = "fine";
}

approved≢pending : approved ≢ pending
approved≢pending e = absurd (ground arith)

c≢a : (request "c").id ≢ "a"
c≢a e = absurd (ground (arith, eq_iff "c" "a"))

process_once_example :
    IsUnknown "a" (run (process "a" 8 9 (run handler history)).0 (submits (request "c") 10 ∷ []))
unfolding run process lookup insert delete
process_once_example =
    (process_once handler history (submits (request "c") 10 ∷ []) "a" 8 9 answer refl refl).1
      approved≢pending (c≢a, tt)
