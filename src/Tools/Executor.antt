-- ===== src/Tools/Executor.antt =====
-- Executor of pkg/tools/executor.go.
-- `show_duration` is the text of a duration. The goroutines of ExecuteBatch are the order in which
-- they run, each tool as a whole; the semaphore only delays them.
pub mod Results
pub mod Gates
mod Assignment
mod Categories
pub mod Batches
pub mod Safety
mod Tests
use syntor.Common.{
  ℕ, zero, suc, ◌*◌, String, str_append, str_eq, Bool, true, false, ◌||◌, List, [], ◌∷◌, ◌++◌,
  Option, none, some, ltb, ◌==◌, if◌then◌else◌, length, replicate,
}
use syntor.Tools.{
  ToolCall, ToolError, ToolResult, ToolDefinition, Tool, Outcome, failed, returned, ExecuteOptions,
  SecurityChecker, ApprovalRequest, RiskLevel, risk_medium, risk_high,
}
use syntor.Tools.Registry.{Registry, get_tool, get_definition}

pub record Executor (Params Output World : Type 0) : Type 0 where
  pub registry : Registry Params Output World
  pub security_checker : Option (SecurityChecker Params)
  pub max_concurrent : ℕ
  pub default_timeout : ℕ

-- NewExecutor; a minute is the number of units in one.
unfoldable pub new_executor :
    {Params : Type 0} {Output : Type 0} {World : Type 0}
    → ℕ
    → Registry Params Output World
    → Option (SecurityChecker Params)
    → Executor Params Output World
new_executor minute registry checker = record {
  registry = registry;
  security_checker = checker;
  max_concurrent = 5;
  default_timeout = 2 * minute;
}

-- `modifyingTools[call.Name]`
unfoldable pub is_modifying : String → Bool
is_modifying name = str_eq name "write_file" || str_eq name "edit_file" || str_eq name "bash"

-- The result before a tool has run: no success, no output and no error.
unfoldable pub empty_result : {Output : Type 0} → String → String → ToolResult Output
empty_result call_id name = record {
  call_id = call_id;
  tool_name = name;
  success = false;
  output = none;
  error = none;
  truncated = false;
}

-- `&ToolError{Code: code, Message: message}`
unfoldable pub error_of : String → String → Option ToolError
error_of code message = some record { code = code; message = message; details = "" }

-- The code of a failed Execute
unfoldable pub failure_of : Bool → String → String → Option ToolError
unfolding error_of
failure_of true message timeout =
    error_of "TIMEOUT" (str_append "Tool execution timed out after " timeout)
failure_of false message timeout = error_of "EXECUTION_ERROR" message

-- What the outcome of Execute adds to the result
unfoldable pub add_outcome :
    {Output : Type 0} → String → Outcome Output → ToolResult Output → ToolResult Output
unfolding failure_of
add_outcome timeout (failed late message) result = record result {
  error = failure_of late message timeout;
}
add_outcome timeout (returned none) result = result
add_outcome timeout (returned (some r)) result = record result {
  success = r.success;
  output = r.output;
  error = r.error;
  truncated = r.truncated;
}

-- The loop of categorizeCalls from an index on, one of the two lists each
unfoldable pub parallel_calls :
    {Params : Type 0} → ℕ → List (ToolCall Params) → List (ℕ × ToolCall Params)
parallel_calls i [] = []
parallel_calls i (call ∷ calls) =
    let rest = parallel_calls (suc i) calls in
    if is_modifying call.name then rest else (i, call) ∷ rest

unfoldable pub sequential_calls :
    {Params : Type 0} → ℕ → List (ToolCall Params) → List (ℕ × ToolCall Params)
sequential_calls i [] = []
sequential_calls i (call ∷ calls) =
    let rest = sequential_calls (suc i) calls in
    if is_modifying call.name then (i, call) ∷ rest else rest

-- `results[index] = result`
unfoldable pub set_result : {A : Type 0} → ℕ → A → List A → List A
set_result i r [] = []
set_result zero r (x ∷ xs) = r ∷ xs
set_result (suc i) r (x ∷ xs) = x ∷ set_result i r xs

unfoldable pub set_results : {A : Type 0} → List (ℕ × A) → List A → List A
set_results [] xs = xs
set_results (r ∷ rs) xs = set_results rs (set_result r.0 r.1 xs)

-- The security check; `none` is no checker or no error.
unfoldable pub violation :
    {Params : Type 0} {Output : Type 0} {World : Type 0}
    → Executor Params Output World
    → ToolCall Params
    → Option String
violation e call = elim e.security_checker [
  | none ↦ none
  | some checker ↦ checker.check call (get_definition call.name e.registry)
]

-- The dry run
unfoldable pub dry_result :
    {Params : Type 0} {Output : Type 0} → (String → Output) → ToolCall Params → ToolResult Output
dry_result output_of call = record (empty_result call.id call.name) {
  success = true;
  output = some (output_of "[DRY RUN] Would execute tool");
}

-- A result with an error
unfoldable pub refused :
    {Params : Type 0} {Output : Type 0} → ToolCall Params → String → String → ToolResult Output
refused call code message = record (empty_result call.id call.name) {
  error = error_of code message;
}

-- The request of CheckApprovals for a call
unfoldable pub request_of : {Params : Type 0} → ℕ → ToolCall Params → ApprovalRequest Params
request_of now call = record {
  id = call.id;
  tool_call = call;
  reason = str_append "Tool " (str_append call.name " requires approval");
  risk = if str_eq call.name "bash" then risk_high else risk_medium;
  requested_at = now;
}

module _ {Params : Type 0} {Output : Type 0} {World : Type 0} (show_duration : ℕ → String)
    (output_of : String → Output) (opts : ExecuteOptions) where
  -- The execution of a tool, with its timeout
  unfoldable pub run_tool :
      Executor Params Output World
      → Tool Params Output World
      → ToolCall Params
      → World
      → ToolResult Output × World
  run_tool e tool call w =
      let timeout = if opts.timeout == 0 then e.default_timeout else opts.timeout in
      let (outcome, after) = tool.execute timeout call.parameters w in
      (add_outcome (show_duration timeout) outcome (empty_result call.id call.name), after)

  -- ExecuteSingle
  unfoldable pub execute_single :
      Executor Params Output World → ToolCall Params → World → ToolResult Output × World
  execute_single e call w = elim (get_tool call.name e.registry) [
    | none ↦ (refused call "TOOL_NOT_FOUND" (str_append "Unknown tool: " call.name), w)
    | some tool ↦ elim (tool.validate call.parameters) [
      | some err ↦ (refused call "INVALID_PARAMS" err, w)
      | none ↦ elim (violation e call) [
        | some err ↦ (refused call "SECURITY_VIOLATION" err, w)
        | none ↦ if opts.dry_run then (dry_result output_of call, w) else run_tool e tool call w
      ]
    ]
  ]

  -- Calls run one after another, each result with the index of its call
  unfoldable pub run_calls :
      Executor Params Output World
      → List (ℕ × ToolCall Params)
      → World
      → List (ℕ × ToolResult Output) × World
  run_calls e [] w = ([], w)
  run_calls e (c ∷ cs) w =
      let (r, v) = execute_single e c.1 w in let (rs, u) = run_calls e cs v in ((c.0, r) ∷ rs, u)

  -- ExecuteBatch, with the parallel calls in the order in which they run
  unfoldable pub execute_batch :
      Executor Params Output World
      → List (ToolCall Params)
      → List (ℕ × ToolCall Params)
      → World
      → List (ToolResult Output) × World
  execute_batch e calls order w =
      let results = replicate (length calls) (empty_result "" "") in
      let (parallel, v) = run_calls e order w in
      let (sequential, u) = run_calls e (sequential_calls 0 calls) v in
      (set_results sequential (set_results parallel results), u)

module _ {Params : Type 0} {Output : Type 0} {World : Type 0} where
  -- The loop of CheckApprovals
  unfoldable pub requests :
      SecurityChecker Params
      → Executor Params Output World
      → ℕ
      → Bool
      → List (ToolCall Params)
      → List (ApprovalRequest Params)
  requests checker e now plan_mode [] = []
  requests checker e now plan_mode (call ∷ calls) =
      let rest = requests checker e now plan_mode calls in
      if checker.requires_approval call (get_definition call.name e.registry) plan_mode
      then request_of now call ∷ rest
      else rest

  -- CheckApprovals
  unfoldable pub check_approvals :
      Executor Params Output World
      → ℕ
      → Bool
      → List (ToolCall Params)
      → List (ApprovalRequest Params)
  check_approvals e now plan_mode calls = elim e.security_checker [
    | none ↦ []
    | some checker ↦ requests checker e now plan_mode calls
  ]

  -- SetMaxConcurrent
  unfoldable pub set_max_concurrent :
      ℕ → Executor Params Output World → Executor Params Output World
  set_max_concurrent n e = record e { max_concurrent = if ltb 0 n then n else e.max_concurrent }

  -- SetDefaultTimeout
  unfoldable pub set_default_timeout :
      ℕ → Executor Params Output World → Executor Params Output World
  set_default_timeout d e = record e { default_timeout = if ltb 0 d then d else e.default_timeout }
