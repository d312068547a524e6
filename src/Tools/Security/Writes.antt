-- ===== src/Tools/Security/Writes.antt =====
-- The security manager as the checker of the executor.
use syntor.Common.{
  ◌≢◌, eq_iff, str_eq, starts_with, ℕ, ◌≡◌, ◌⊎◌, inl, inr, refl, sym, ap, subst, ◌∙◌, String, Bool,
  true, false, List, [], ◌∷◌, Option, none, some, All, Any, All-mono, arith, Bool-cases,
  Option-cases, some-inj,
}
use syntor.Common.Dict.{Dict, lookup}
use syntor.Tools.{Value, string_value, ToolCall, ApprovalRequest, SecurityChecker, ExecuteOptions}
use syntor.Tools.Registry.{get_definition}
use syntor.Tools.Executor.{Executor, execute_single, request_of, requests, check_approvals}
use syntor.Tools.Executor.Gates.{execute_single_gates}
use syntor.Tools.Security.{Library}
use syntor.Tools.Security.Paths.{
  PathValidator, expand_home, is_outside, validate_path, validate_path-IsAccepted,
}
use syntor.Tools.Security.Manager.{
  Manager, is_listed, check_path, check_call, requires_approval_of, checker_of,
}

check_approvals_checked :
    {Params : Type 0} {Output : Type 0} {World : Type 0} (e : Executor Params Output World)
    (checker : SecurityChecker Params) (now : ℕ) (plan_mode : Bool) (calls : List (ToolCall Params))
    → e.security_checker ≡ some checker
    → check_approvals e now plan_mode calls ≡ requests checker e now plan_mode calls
unfolding check_approvals
check_approvals_checked {Params} e checker now plan_mode calls h = by_checker e.security_checker h
  where
    by_checker :
        (o : Option (SecurityChecker Params))
        → o ≡ some checker
        → elim o [ none ↦ [] | some c ↦ requests c e now plan_mode calls ]
          ≡ requests checker e now plan_mode calls
    by_checker none k = absurd (ground arith)
    by_checker (some c) k = ap (λ c. requests c e now plan_mode calls) (some-inj k)

module _ (lib : Library) where
  outside_refused :
      (v : PathValidator) (path p a : String)
      → expand_home lib path ≡ some p
      → lib.abs p ≡ some a
      → is_outside lib v a ≡ true
      → (err : String) × (validate_path lib v path true ≡ some err)
  outside_refused v path p a e f out = elim (Option-cases (validate_path lib v path true)) [
    | inr (err, h) ↦ (err, h)
    | inl h ↦
        let accepted = validate_path-IsAccepted lib v path true h in
        let same_p : accepted.expanded ≡ p = some-inj (sym accepted.is_expanded ∙ e) in
        let same_a : accepted.abs_path ≡ a =
          some-inj (sym accepted.is_abs ∙ ap lib.abs same_p ∙ f) in
        let inside : is_outside lib v a ≡ false =
          subst (λ a. is_outside lib v a ≡ false) same_a (accepted.inside refl) in
        absurd (ground (arith, out, inside))
  ]

  is_outside-set :
      (v : PathValidator) (a dir : String)
      → v.working_dir ≢ ""
      → lib.abs v.working_dir ≡ some dir
      → starts_with a dir ≡ false
      → is_outside lib v a ≡ true
  unfolding is_outside
  is_outside-set v a dir set at outside =
      let named : str_eq v.working_dir "" ≡ false = ground (arith, eq_iff v.working_dir "", set) in
      rw (at, outside, named) refl

  check_call_write :
      (m : Manager) (call : ToolCall (Dict Value))
      → (call.name ≡ "write_file") ⊎ (call.name ≡ "edit_file")
      → check_call lib m call
        ≡ check_path lib m "file_path" true (lookup "file_path" call.parameters)
  unfolding check_call
  check_call_write m call (inl e) = rw (check_call, e) refl
  check_call_write m call (inr e) = rw (check_call, e) refl

  module _ {Output : Type 0} {World : Type 0} (show_duration : ℕ → String)
      (output_of : String → Output) (opts : ExecuteOptions) where
    -- With the security manager as its checker, and a working directory that is set and has an
    -- absolute form, the executor changes nothing on a call to write or edit a file whose absolute
    -- path does not begin with the text of that form, and reports no success.
    pub execute_single-checker_of :
        (m : Manager) (e : Executor (Dict Value) Output World) (call : ToolCall (Dict Value))
        (w : World) (path p a dir : String)
        → e.security_checker ≡ some (checker_of lib m)
        → (call.name ≡ "write_file") ⊎ (call.name ≡ "edit_file")
        → lookup "file_path" call.parameters ≡ some (string_value path)
        → expand_home lib path ≡ some p
        → lib.abs p ≡ some a
        → m.path_validator.working_dir ≢ ""
        → lib.abs m.path_validator.working_dir ≡ some dir
        → starts_with a dir ≡ false
        → ((execute_single show_duration output_of opts e call w).1 ≡ w)
          × ((execute_single show_duration output_of opts e call w).0.success ≡ false)
    unfolding checker_of check_path
    execute_single-checker_of m e call w path p a dir checker writes there expanded absolute set at
          outside =
        elim (execute_single_gates show_duration output_of opts e call w) [
          | inl (code, message, why, error, success, output, same) ↦ (same, success)
          | inr (tool, passes, same) ↦
              let out = is_outside-set m.path_validator a dir set at outside in
              let (err, refused) =
                outside_refused m.path_validator path p a expanded absolute out in
              let l : check_path lib m "file_path" true (lookup "file_path" call.parameters)
                  ≡ some err =
                rw (check_path, there) refused in
              let f : none ≡ some err =
                sym (passes.secure (checker_of lib m) checker)
                ∙ check_call_write m call writes
                ∙ l in
              absurd (ground arith)
        ]

  module _ {Output : Type 0} {World : Type 0} where
    requests_later :
        (P : ApprovalRequest (Dict Value) → Type 0) (m : Manager)
        (e : Executor (Dict Value) Output World) (now : ℕ) (call : ToolCall (Dict Value))
        (calls : List (ToolCall (Dict Value)))
        → Any P (requests (checker_of lib m) e now true calls)
        → Any P (requests (checker_of lib m) e now true (call ∷ calls))
    unfolding requests checker_of
    requests_later P m e now call calls h =
        elim (Bool-cases
          (requires_approval_of lib m call (get_definition call.name e.registry) true)) [
            | inl r ↦ rw r (inr h)
            | inr r ↦ rw r h
          ]

    requests_now :
        (m : Manager) (e : Executor (Dict Value) Output World) (now : ℕ)
        (call : ToolCall (Dict Value)) (calls : List (ToolCall (Dict Value)))
        → is_listed (lookup call.name m.approval_required) ≡ true
        → Any (λ r. r.tool_call ≡ call) (requests (checker_of lib m) e now true (call ∷ calls))
    unfolding requests checker_of requires_approval_of request_of
    requests_now m e now call calls listed = rw listed (inl refl)

    requests-plan_mode :
        (m : Manager) (e : Executor (Dict Value) Output World) (now : ℕ)
        (calls : List (ToolCall (Dict Value)))
        → All
            (λ c.
              is_listed (lookup c.name m.approval_required) ≡ true
              → Any (λ r. r.tool_call ≡ c) (requests (checker_of lib m) e now true calls))
            calls
    requests-plan_mode m e now [] = tt
    requests-plan_mode m e now (call ∷ calls) = (
      requests_now m e now call calls,
      All-mono
          (λ c.
            is_listed (lookup c.name m.approval_required) ≡ true
            → Any (λ r. r.tool_call ≡ c) (requests (checker_of lib m) e now true calls))
          (λ c.
            is_listed (lookup c.name m.approval_required) ≡ true
            → Any (λ r. r.tool_call ≡ c) (requests (checker_of lib m) e now true (call ∷ calls)))
          calls (λ c h listed. requests_later (λ r. r.tool_call ≡ c) m e now call calls (h listed))
          (requests-plan_mode m e now calls),
    )

    -- In plan mode, with the security manager as the executor's checker, each call of a tool on
    -- the manager's list is among the requests for approval.
    pub check_approvals-plan_mode :
        (m : Manager) (e : Executor (Dict Value) Output World) (now : ℕ)
        (calls : List (ToolCall (Dict Value)))
        → e.security_checker ≡ some (checker_of lib m)
        → All
            (λ c.
              is_listed (lookup c.name m.approval_required) ≡ true
              → Any (λ r. r.tool_call ≡ c) (check_approvals e now true calls))
            calls
    check_approvals-plan_mode m e now calls checker =
        let same : check_approvals e now true calls ≡ requests (checker_of lib m) e now true calls =
          check_approvals_checked e (checker_of lib m) now true calls checker in
        subst
          (λ rs.
            All
              (λ c.
                is_listed (lookup c.name m.approval_required) ≡ true
                → Any (λ r. r.tool_call ≡ c) rs)
              calls)
          (sym same) (requests-plan_mode m e now calls)
