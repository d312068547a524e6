-- ===== src/Tools/Executor/Gates.antt =====
-- ExecuteSingle: what a call must pass before its tool runs, and the errors.
use syntor.Common.{
  Bool-cases, true, ◌≢◌, ◌==◌, sym, subst, ◌∙◌, some-inj, arith, ℕ, ◌≡◌, ◌⊎◌, inl, inr, refl, ap,
  String, str_append, false, none, some, if◌then◌else◌, Option-cases,
}
use syntor.Tools.{ToolCall, ToolResult, Tool, ExecuteOptions, SecurityChecker}
use syntor.Tools.Registry.{get_tool, get_definition}
use syntor.Tools.Executor.{
  Executor, error_of, empty_result, run_tool, violation, dry_result, refused, execute_single,
}
use syntor.Tools.Executor.Results.{Reports, told, ReportsOutcome, ReportsOutcome-add_outcome}

-- Why a call is refused: the code of the first gate that it fails, and the message.
pub data IsRefused {Params : Type 0} {Output : Type 0} {World : Type 0}
    (e : Executor Params Output World) (call : ToolCall Params) : String → String → Type 0 where
  unknown :
      get_tool call.name e.registry ≡ none
      → IsRefused e call "TOOL_NOT_FOUND" (str_append "Unknown tool: " call.name)
  invalid :
      (tool : Tool Params Output World) (err : String)
      → get_tool call.name e.registry ≡ some tool
      → tool.validate call.parameters ≡ some err
      → IsRefused e call "INVALID_PARAMS" err
  insecure :
      (tool : Tool Params Output World) (checker : SecurityChecker Params) (err : String)
      → get_tool call.name e.registry ≡ some tool
      → tool.validate call.parameters ≡ none
      → e.security_checker ≡ some checker
      → checker.check call (get_definition call.name e.registry) ≡ some err
      → IsRefused e call "SECURITY_VIOLATION" err

-- The call passes every gate, with the tool of its name.
pub record Passes {Params : Type 0} {Output : Type 0} {World : Type 0}
    (e : Executor Params Output World) (call : ToolCall Params) (tool : Tool Params Output World)
    : Type 0 where
  pub registered : get_tool call.name e.registry ≡ some tool
  pub valid : tool.validate call.parameters ≡ none
  pub secure :
      (checker : SecurityChecker Params)
      → e.security_checker ≡ some checker
      → checker.check call (get_definition call.name e.registry) ≡ none

-- The gate of the security checker.
violation-cases :
    {Params : Type 0} {Output : Type 0} {World : Type 0} (e : Executor Params Output World)
    (call : ToolCall Params)
    → ((violation e call ≡ none)
        × ((checker : SecurityChecker Params)
            → e.security_checker ≡ some checker
            → checker.check call (get_definition call.name e.registry) ≡ none))
      ⊎ ((err : String) × (checker : SecurityChecker Params) × (violation e call ≡ some err)
          × (e.security_checker ≡ some checker)
          × (checker.check call (get_definition call.name e.registry) ≡ some err))
unfolding violation
violation-cases e call = elim (Option-cases e.security_checker) [
  | inl unchecked ↦
      inl (rw (violation, unchecked) refl, λ checker h. absurd (ground (arith, unchecked, h)))
  | inr (checker, there) ↦
      elim (Option-cases (checker.check call (get_definition call.name e.registry))) [
        | inl fine ↦ inl (
          rw (violation, there) fine,
          λ other h.
              subst (λ c. c.check call (get_definition call.name e.registry) ≡ none)
                (some-inj (sym there ∙ h)) fine,
        )
        | inr (err, bad) ↦ inr (err, checker, rw (violation, there) bad, there, bad)
      ]
]

module _ {Params : Type 0} {Output : Type 0} {World : Type 0} (show_duration : ℕ → String)
    (output_of : String → Output) (opts : ExecuteOptions) where
  abbrev single : Executor Params Output World → ToolCall Params → World → ToolResult Output × World
  single = execute_single show_duration output_of opts

  -- What a dry run leaves.
  abbrev pub DryRuns : Executor Params Output World → ToolCall Params → World → Type 0
  DryRuns e call w =
      Reports call (single e call w).0 true (some (output_of "[DRY RUN] Would execute tool")) none
        false
      × ((single e call w).1 ≡ w)

  -- What the run of a tool leaves; the call's own timeout is used unless it is 0.
  abbrev pub Runs :
      Executor Params Output World → Tool Params Output World → ToolCall Params → World → Type 0
  Runs e tool call w =
      (timeout : ℕ) × ((opts.timeout ≡ 0) × (timeout ≡ e.default_timeout)
        ⊎ (opts.timeout ≢ 0) × (timeout ≡ opts.timeout))
      × ReportsOutcome (show_duration timeout) call (tool.execute timeout call.parameters w).0
          (single e call w).0
      × ((single e call w).1 ≡ (tool.execute timeout call.parameters w).1)

  -- What a refused call leaves.
  abbrev pub Refuses : Executor Params Output World → ToolCall Params → World → Type 0
  Refuses e call w =
      (code message : String) × IsRefused e call code message
      × ((single e call w).0.error ≡ told code message)
      × ((single e call w).0.success ≡ false)
      × ((single e call w).0.output ≡ none)
      × ((single e call w).1 ≡ w)

  Refuses-refused :
      (e : Executor Params Output World) (call : ToolCall Params) (w : World)
      (code message : String)
      → IsRefused e call code message
      → single e call w ≡ (refused call code message, w)
      → Refuses e call w
  unfolding refused empty_result error_of
  Refuses-refused e call w code message why same = (
    code,
    message,
    why,
    ap (λ r. r.0.error) same,
    ap (λ r. r.0.success) same,
    ap (λ r. r.0.output) same,
    ap (λ r. r.1) same,
  )

  DryRuns-dry :
      (e : Executor Params Output World) (call : ToolCall Params) (w : World)
      → single e call w ≡ (dry_result output_of call, w)
      → DryRuns e call w
  unfolding dry_result empty_result
  DryRuns-dry e call w same = (
    record {
      of_call = ap (λ r. r.0.call_id) same;
      of_tool = ap (λ r. r.0.tool_name) same;
      has_success = ap (λ r. r.0.success) same;
      has_output = ap (λ r. r.0.output) same;
      has_error = ap (λ r. r.0.error) same;
      has_truncated = ap (λ r. r.0.truncated) same;
    },
    ap (λ r. r.1) same,
  )

  timeout-cases :
      (e : Executor Params Output World)
      → let timeout = if opts.timeout == 0 then e.default_timeout else opts.timeout in
        (opts.timeout ≡ 0) × (timeout ≡ e.default_timeout)
        ⊎ (opts.timeout ≢ 0) × (timeout ≡ opts.timeout)
  timeout-cases e = ground arith

  Runs-run_tool :
      (e : Executor Params Output World) (tool : Tool Params Output World) (call : ToolCall Params)
      (w : World)
      → single e call w ≡ run_tool show_duration output_of opts e tool call w
      → Runs e tool call w
  unfolding run_tool
  Runs-run_tool e tool call w same =
      let timeout = if opts.timeout == 0 then e.default_timeout else opts.timeout in
      let o = (tool.execute timeout call.parameters w).0 in
      (
        timeout,
        timeout-cases e,
        subst (ReportsOutcome (show_duration timeout) call o) (sym (ap (λ r. r.0) same))
            (ReportsOutcome-add_outcome (show_duration timeout) call o),
        ap (λ r. r.1) same,
      )

  -- A call either fails a gate, and then its result is no success, with no output and the error of
  -- the first gate that it fails, and nothing has changed; or it passes them all: then a dry run
  -- succeeds with its text as the output and nothing changed, and any other run executes the tool,
  -- with the timeout of the options or the default for 0, leaves the world as the tool does, and
  -- reports the tool's result, or no success with the error of a timeout or of the execution.
  -- Where the tool returns no result the call has neither success nor error.
  pub execute_single_gates :
      (e : Executor Params Output World) (call : ToolCall Params) (w : World)
      → Refuses e call w
        ⊎ ((tool : Tool Params Output World) × Passes e call tool
            × ((opts.dry_run ≡ true) × DryRuns e call w
                ⊎ (opts.dry_run ≡ false) × Runs e tool call w))
  unfolding execute_single
  execute_single_gates e call w = elim (Option-cases (get_tool call.name e.registry)) [
    | inl a ↦ inl (
        Refuses-refused e call w "TOOL_NOT_FOUND" (str_append "Unknown tool: " call.name)
          (unknown a) (rw (execute_single, a) refl))
    | inr (tool, a) ↦ elim (Option-cases (tool.validate call.parameters)) [
      | inr (err, b) ↦ inl (
          Refuses-refused e call w "INVALID_PARAMS" err (invalid tool err a b)
            (rw (execute_single, a, b) refl))
      | inl b ↦ elim (violation-cases e call) [
        | inr (err, checker, c, there, bad) ↦ inl (
            Refuses-refused e call w "SECURITY_VIOLATION" err
              (insecure tool checker err a b there bad) (rw (execute_single, a, b, c) refl))
        | inl (c, secure) ↦ inr (
          tool,
          record { registered = a; valid = b; secure = secure },
          elim (Bool-cases opts.dry_run) [
            | inl dry ↦ inl (dry, DryRuns-dry e call w (rw (execute_single, a, b, c, dry) refl))
            | inr real ↦
                inr (real, Runs-run_tool e tool call w (rw (execute_single, a, b, c, real) refl))
          ],
        )
      ]
    ]
  ]
