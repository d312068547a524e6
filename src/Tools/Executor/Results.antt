-- ===== src/Tools/Executor/Results.antt =====
-- The result of a call that was let through.
use syntor.Common.{Bool, true, Option, ◌≡◌, refl, String, str_append, false, none, some}
use syntor.Tools.{ToolCall, ToolError, ToolResult, Outcome, failed, returned}
use syntor.Tools.Executor.{error_of, failure_of, add_outcome, empty_result}

-- The result's fields, for a call that was let through.
pub record Reports {Params : Type 0} {Output : Type 0} (call : ToolCall Params)
    (r : ToolResult Output) (success : Bool) (output : Option Output) (error : Option ToolError)
    (truncated : Bool) : Type 0 where
  pub of_call : r.call_id ≡ call.id
  pub of_tool : r.tool_name ≡ call.name
  pub has_success : r.success ≡ success
  pub has_output : r.output ≡ output
  pub has_error : r.error ≡ error
  pub has_truncated : r.truncated ≡ truncated

abbrev pub told : String → String → Option ToolError
told code message = some record { code = code; message = message; details = "" }

-- What the result of a tool's run is, by what the tool returned.
abbrev pub ReportsOutcome :
    {Params : Type 0} {Output : Type 0}
    → String
    → ToolCall Params
    → Outcome Output
    → ToolResult Output
    → Type 0
ReportsOutcome timeout call (failed true message) r =
    Reports call r false none
      (told "TIMEOUT" (str_append "Tool execution timed out after " timeout)) false
ReportsOutcome timeout call (failed false message) r =
    Reports call r false none (told "EXECUTION_ERROR" message) false
ReportsOutcome timeout call (returned none) r = Reports call r false none none false
ReportsOutcome timeout call (returned (some s)) r =
    Reports call r s.success s.output s.error s.truncated

pub ReportsOutcome-add_outcome :
    {Params : Type 0} {Output : Type 0} (timeout : String) (call : ToolCall Params)
    (o : Outcome Output)
    → ReportsOutcome timeout call o (add_outcome timeout o (empty_result call.id call.name))
unfolding add_outcome empty_result failure_of error_of
ReportsOutcome-add_outcome timeout call (failed true message) = record {
  of_call = refl;
  of_tool = refl;
  has_success = refl;
  has_output = refl;
  has_error = refl;
  has_truncated = refl;
}
ReportsOutcome-add_outcome timeout call (failed false message) = record {
  of_call = refl;
  of_tool = refl;
  has_success = refl;
  has_output = refl;
  has_error = refl;
  has_truncated = refl;
}
ReportsOutcome-add_outcome timeout call (returned none) = record {
  of_call = refl;
  of_tool = refl;
  has_success = refl;
  has_output = refl;
  has_error = refl;
  has_truncated = refl;
}
ReportsOutcome-add_outcome timeout call (returned (some s)) = record {
  of_call = refl;
  of_tool = refl;
  has_success = refl;
  has_output = refl;
  has_error = refl;
  has_truncated = refl;
}
