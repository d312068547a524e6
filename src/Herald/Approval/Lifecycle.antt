-- ===== src/Herald/Approval/Lifecycle.antt =====
-- A request from Submit to its answer, over any history of the handler.
use syntor.Common.{
  ℕ, ◌+◌, ◌≤◌, ◌≡◌, ◌≢◌, ◌⊎◌, inl, inr, refl, sym, ap, subst, ◌∙◌, String, Bool, true, false, List,
  [], ◌∷◌, none, some, map, arith, eq_iff, eq_refl, Option-cases, Bool-cases, All,
}
use syntor.Common.Dict.{
  Dict, lookup, insert, delete, IsMap, lookup-insert, lookup-delete, insert-IsMap, delete-IsMap,
  Each, Each-insert, Each-delete, Each-lookup,
}
use syntor.Herald.Approval.{
  ApprovalRequest, ApprovalHandler, pending, approved, expired, submitted, submit, process,
  process_request, called_back, settle, is_past, verdict, expiry_or, five_minutes, get,
  list_pending, pending_in, respond, approve, deny, clear, is_pending,
}

pub data Event : Type 0 where
  submits : ApprovalRequest → ℕ → Event
  processes : String → ℕ → ℕ → Event
  approves denies : String → String → ℕ → Event
  clears : Event

unfoldable pub step : ApprovalHandler → Event → ApprovalHandler
unfolding submit process approve deny clear
step h (submits req now) = submit req now h
step h (processes id now at) = (process id now at h).0
step h (approves id why now) = (approve id why now h).0
step h (denies id why now) = (deny id why now h).0
step h clears = clear h

unfoldable pub run : ApprovalHandler → List Event → ApprovalHandler
unfolding step
run h [] = h
run h (e ∷ es) = run (step h e) es

-- What Process makes of a request, whose answer is at hand or not.
process_request_cases :
    (h : ApprovalHandler) (id : String) (req : ApprovalRequest) (now at : ℕ)
    → (process_request id req now at h ≡ (h, some req))
      ⊎ ((answered : ApprovalRequest) × (process_request id req now at h ≡ settle id answered h)
          × (answered.status ≢ pending)
          × (answered.status ≡ approved
              → (is_past req.expires_at now ≡ false)
                × ((h.auto_approve ≡ true)
                    ⊎ ((ask : ApprovalRequest → Bool × String) × (h.callback ≡ some ask)
                        × ((ask req).0 ≡ true)))))
unfolding process_request called_back verdict
process_request_cases h id req now at = elim (Bool-cases (is_past req.expires_at now)) [
  | inl late ↦ inr (record req { status = expired }, ground arith, ground arith, ground arith)
  | inr early ↦ elim (Bool-cases h.auto_approve) [
    | inl auto ↦ inr (
      record req { status = approved; responded_at = some at },
      ground arith,
      ground arith,
      λ e. (early, inl auto),
    )
    | inr manual ↦ elim (Option-cases h.callback) [
      | inl nobody ↦ inl (ground arith)
      | inr (ask, there) ↦
          let why = (ask req).1 in
          inr (
            record req { responded_at = some at; reason = why; status = verdict (ask req).0 },
            ground arith,
            elim (Bool-cases (ask req).0) [ inl y ↦ ground arith | inr n ↦ ground arith ],
            λ e. (early, inr (ask, there, ground arith)),
          )
    ]
  ]
]

-- The map changes in one of four ways.
step_cases :
    (h : ApprovalHandler) (e : Event)
    → ((step h e).requests ≡ h.requests)
      ⊎ ((step h e).requests ≡ [])
      ⊎ ((id : String) × ((step h e).requests ≡ delete id h.requests))
      ⊎ ((req : ApprovalRequest) × (now : ℕ) × (e ≡ submits req now)
          × ((step h e).requests ≡ insert req.id (submitted req now) h.requests))
unfolding step settle respond
step_cases h (submits req now) = inr (inr (inr (req, now, refl, refl)))
step_cases h (processes id now at) = elim (Option-cases (lookup id h.requests)) [
  | inl gone ↦ inl (ground arith)
  | inr (req, there) ↦ elim (process_request_cases h id req now at) [
    | inl same ↦ inl (ground arith)
    | inr (answered, e, ne, why) ↦ inr (inr (inl (id, ground arith)))
  ]
]
step_cases h (approves id why now) = elim (Option-cases (lookup id h.requests)) [
  | inl gone ↦ inl (ground arith)
  | inr (req, there) ↦ inr (inr (inl (id, ground arith)))
]
step_cases h (denies id why now) = elim (Option-cases (lookup id h.requests)) [
  | inl gone ↦ inl (ground arith)
  | inr (req, there) ↦ inr (inr (inl (id, ground arith)))
]
step_cases h clears = inr (inl refl)

-- The requests of the map stand under their ids, wait for an answer, and have an expiry.
abbrev pub IsWaiting : String → ApprovalRequest → Type 0
IsWaiting id req = (req.id ≡ id) × (req.status ≡ pending) × ((t : ℕ) × (req.expires_at ≡ some t))

-- The event submits no request with the id.
abbrev pub IsOther : String → Event → Type 0
IsOther id (submits req now) = req.id ≢ id
IsOther id (processes other now at) = Unit
IsOther id (approves other why now) = Unit
IsOther id (denies other why now) = Unit
IsOther id clears = Unit

abbrev Waiting : ApprovalHandler → Type 0
Waiting h = IsMap h.requests × Each IsWaiting h.requests

step-Waiting : (h : ApprovalHandler) (e : Event) → Waiting h → Waiting (step h e)
unfolding submitted
step-Waiting h e (m, w) = elim (step_cases h e) [
  | inl same ↦ subst (λ d. IsMap d × Each IsWaiting d) (sym same) (m, w)
  | inr (inl cleared) ↦ subst (λ d. IsMap d × Each IsWaiting d) (sym cleared) (tt, tt)
  | inr (inr (inl (id, gone))) ↦
      subst (λ d. IsMap d × Each IsWaiting d) (sym gone)
        (delete-IsMap h.requests id m, Each-delete IsWaiting h.requests id w)
  | inr (inr (inr (req, now, e', added))) ↦
      subst (λ d. IsMap d × Each IsWaiting d) (sym added)
        (
          insert-IsMap h.requests req.id (submitted req now) m,
          Each-insert IsWaiting h.requests req.id (submitted req now)
              (refl, refl, (expiry_or (now + five_minutes) req.expires_at, refl)) w,
        )
]

run-Waiting : (h : ApprovalHandler) (es : List Event) → Waiting h → Waiting (run h es)
unfolding run
run-Waiting h [] w = w
run-Waiting h (e ∷ es) w = run-Waiting (step h e) es (step-Waiting h e w)

-- An id that is gone stays gone.
step-gone :
    (h : ApprovalHandler) (id : String) (e : Event)
    → IsOther id e
    → lookup id h.requests ≡ none
    → lookup id (step h e).requests ≡ none
unfolding lookup
step-gone h id e other gone = elim (step_cases h e) [
  | inl same ↦ ap (lookup id) same ∙ gone
  | inr (inl cleared) ↦ ap (lookup id) cleared
  | inr (inr (inl (id', left))) ↦
      ap (lookup id) left ∙ ground (arith, lookup-delete h.requests id' id)
  | inr (inr (inr (req, now, e', added))) ↦
      let ne : req.id ≢ id = subst (IsOther id) e' other in
      ap (lookup id) added
      ∙ ground (arith, lookup-insert h.requests req.id (submitted req now) id, eq_iff req.id id)
]

run-gone :
    (h : ApprovalHandler) (id : String) (es : List Event)
    → All (IsOther id) es
    → lookup id h.requests ≡ none
    → lookup id (run h es).requests ≡ none
unfolding run
run-gone h id [] other gone = gone
run-gone h id (e ∷ es) (o, os) gone = run-gone (step h e) id es os (step-gone h id e o gone)

pending_in-values : (m : Dict ApprovalRequest) → Each IsWaiting m → pending_in m ≡ map (λ e. e.1) m
unfolding pending_in is_pending
pending_in-values [] w = refl
pending_in-values (e ∷ rest) (w, ws) = ground (arith, pending_in-values rest ws)

-- After any history of a handler that begins with no requests, every request that Get finds stands
-- under its own id, is pending, and has a time at which it expires; and ListPending gives the
-- requests of the map, all of them.
pub run-Waiting_lem :
    (start : ApprovalHandler) (events : List Event) (id : String) (req : ApprovalRequest)
    → start.requests ≡ []
    → (get id (run start events) ≡ some req
        → (req.id ≡ id) × (req.status ≡ pending) × ((t : ℕ) × (req.expires_at ≡ some t)))
      × (list_pending (run start events) ≡ map (λ e. e.1) (run start events).requests)
unfolding get list_pending
run-Waiting_lem start events id req none_yet =
    let (m, w) =
      run-Waiting start events (subst (λ d. IsMap d × Each IsWaiting d) (sym none_yet) (tt, tt)) in
    (
      λ found. Each-lookup IsWaiting (run start events).requests id req w found,
      pending_in-values (run start events).requests w,
    )

-- No operation finds a request with the id.
abbrev pub IsUnknown : String → ApprovalHandler → Type 0
IsUnknown id h =
    (get id h ≡ none)
    × ((now at : ℕ) → (process id now at h).1 ≡ none)
    × ((why : String) (now : ℕ)
        → ((approve id why now h).1 ≡ none) × ((deny id why now h).1 ≡ none))

IsUnknown-gone : (id : String) (h : ApprovalHandler) → lookup id h.requests ≡ none → IsUnknown id h
unfolding get process approve deny respond
IsUnknown-gone id h gone = (gone, λ now at. ground arith, λ why now. (ground arith, ground arith))

-- After any history of a handler that begins with no requests, suppose that Process returns a
-- request for an id. It is approved only if it had not expired at that time, and the handler
-- approves by itself or its callback agreed. And once it is no longer pending it is settled: after
-- whatever happens next, unless a request with the id is submitted again, Get finds nothing under
-- the id, and Process, Approve and Deny answer that there is no such request.
pub process_once :
    (start : ApprovalHandler) (events later : List Event) (id : String) (now at : ℕ)
    (answer : ApprovalRequest)
    → start.requests ≡ []
    → let h = run start events in
      (process id now at h).1 ≡ some answer
      → (answer.status ≡ approved
          → (req : ApprovalRequest) × (t : ℕ) × (get id h ≡ some req)
            × (req.expires_at ≡ some t)
            × (now ≤ t)
            × ((h.auto_approve ≡ true)
                ⊎ ((ask : ApprovalRequest → Bool × String) × (h.callback ≡ some ask)
                    × ((ask req).0 ≡ true))))
        × (answer.status ≢ pending
            → All (IsOther id) later
            → IsUnknown id (run (process id now at h).0 later))
unfolding get process settle
process_once start events later id now at answer none_yet e =
    let h = run start events in
    let (m, w) =
      run-Waiting start events (subst (λ d. IsMap d × Each IsWaiting d) (sym none_yet) (tt, tt)) in
    elim (Option-cases (lookup id h.requests)) [
      | inl gone ↦ absurd (ground arith)
      | inr (req, there) ↦
          let (same_id, waits, (t, expiry)) = Each-lookup IsWaiting h.requests id req w there in
          elim (process_request_cases h id req now at) [
            | inl same ↦
                let as_it_was : answer.status ≡ pending = ground arith in
                (λ yes. absurd (ground arith), λ ne. absurd (ne as_it_was))
            | inr (settled, e', ne, why) ↦ (
              λ yes.
                  let (early, by) = why (ground arith) in (req, t, there, expiry, ground arith, by),
              λ _ others. IsUnknown-gone id (run (process id now at h).0 later) (
                  run-gone (process id now at h).0 id later others
                    (ground (arith, lookup-delete h.requests id id, eq_refl id))),
            )
          ]
    ]
