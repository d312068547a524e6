-- ===== src/Herald/Approval/Polling.antt =====
-- How waiting for an approval ends.
use syntor.Common.{◌≡◌, refl, List, [], ◌∷◌, ◌++◌, arith, All}
use syntor.Herald.Approval.{
  ApprovalRequest, pending, approved, denied, expired, Poll, done, failed, answered, granted,
  refused, context_done, request_failed, still_waiting, wait_for_approval,
}

-- The poll finds the request undecided.
abbrev pub IsUndecided : Poll → Type 0
IsUndecided poll = (req : ApprovalRequest) × (poll ≡ answered req) × (req.status ≡ pending)

-- However many polls find the request undecided, WaitForApproval goes on, and the polls after them
-- decide: an approved request is returned without an error, a denied one with its reason, an
-- expired one with the error that says so, and the end of the context or a failed poll ends the
-- wait with its error.
pub wait_for_approval_lem :
    (before after : List Poll) (req : ApprovalRequest)
    → All IsUndecided before
    → (wait_for_approval before ≡ still_waiting)
      × (req.status ≡ approved → wait_for_approval (before ++ answered req ∷ after) ≡ granted req)
      × (req.status ≡ denied
          → wait_for_approval (before ++ answered req ∷ after) ≡ refused req req.reason)
      × (req.status ≡ expired
          → wait_for_approval (before ++ answered req ∷ after)
            ≡ refused req "approval request expired")
      × (wait_for_approval (before ++ done ∷ after) ≡ context_done)
      × (wait_for_approval (before ++ failed ∷ after) ≡ request_failed)
unfolding wait_for_approval
wait_for_approval_lem [] after req h = (refl, ground arith, ground arith, ground arith, refl, refl)
wait_for_approval_lem (poll ∷ before) after req ((r, e, p), h) =
    let ih = wait_for_approval_lem before after req h in ground (arith, ih)
