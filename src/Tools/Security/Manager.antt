-- ===== src/Tools/Security/Manager.antt =====
-- Manager of pkg/tools/security/manager.go, with the CommandValidator of validator.go.
use syntor.Common.{
  String, str_append, str_eq, Bool, true, false, not, ◌&&◌, ◌||◌, List, [], ◌∷◌, ◌++◌, Option, none,
  some, starts_with, if◌then◌else◌,
}
use syntor.Common.Dict.{Dict, lookup, insert, delete}
use syntor.Tools.{
  Value, string_value, other_value, ToolCall, ToolDefinition, SecurityChecker, RiskLevel, risk_low,
  risk_medium, risk_high,
}
use syntor.Tools.Security.{Library}
use syntor.Tools.Security.AutoAllow.{text_of}
use syntor.Tools.Security.Paths.{
  PathValidator, new_path_validator, set_working_dir, contains_text, validate_path,
}

-- The denied patterns are the texts of regular expressions.
pub record CommandValidator : Type 0 where
  pub allowed_commands : List String
  pub denied_patterns : List String
  pub denied_commands : List String

-- AddAllowedCommand
unfoldable pub add_allowed_command : String → CommandValidator → CommandValidator
add_allowed_command command cv = record cv {
  allowed_commands = cv.allowed_commands ++ command ∷ [];
}

-- The loop over the denied commands: the first that is contained
unfoldable pub first_contained : String → List String → Option String
first_contained command [] = none
first_contained command (denied ∷ rest) =
    let later = first_contained command rest in
    if contains_text command denied then some denied else later

-- The list of IsReadOnlyCommand
abbrev pub read_only_commands : List String
read_only_commands =
    "ls" ∷ "cat" ∷ "head" ∷ "tail" ∷ "less" ∷ "more" ∷ "file" ∷ "stat" ∷ "wc" ∷ "find" ∷ "grep"
    ∷ "rg" ∷ "fd" ∷ "ag" ∷ "pwd" ∷ "tree" ∷ "git status" ∷ "git log" ∷ "git diff" ∷ "git show"
    ∷ "git branch" ∷ "docker ps" ∷ "docker images" ∷ "docker logs" ∷ "echo" ∷ "printf" ∷ "date"
    ∷ "whoami" ∷ "env" ∷ "which" ∷ "type" ∷ []

-- The loop of IsReadOnlyCommand
unfoldable pub begins_read_only : String → String → List String → Bool
begins_read_only base command [] = false
begins_read_only base command (ro ∷ rest) =
    str_eq base ro || starts_with command (str_append ro " ") || begins_read_only base command rest

pub record Manager : Type 0 where
  pub path_validator : PathValidator
  pub command_validator : CommandValidator
  pub plan_mode : Bool
  pub approval_required : Dict Bool

-- NewManager, given the commands' validator
unfoldable pub new_manager : CommandValidator → String → Manager
unfolding new_path_validator
new_manager cv working_dir = record {
  path_validator = new_path_validator working_dir;
  command_validator = cv;
  plan_mode = false;
  approval_required = ("write_file", true) ∷ ("edit_file", true) ∷ ("bash", true) ∷ [];
}

-- SetPlanMode, SetWorkingDir, AddApprovalRequired and RemoveApprovalRequired
unfoldable pub set_plan_mode : Bool → Manager → Manager
set_plan_mode enabled m = record m { plan_mode = enabled }

unfoldable pub set_manager_dir : String → Manager → Manager
unfolding set_working_dir
set_manager_dir dir m = record m { path_validator = set_working_dir dir m.path_validator }

unfoldable pub add_approval_required : String → Manager → Manager
add_approval_required name m = record m { approval_required = insert name true m.approval_required }

unfoldable pub remove_approval_required : String → Manager → Manager
remove_approval_required name m = record m { approval_required = delete name m.approval_required }

-- `def != nil && def.Security.RequireApproval`
unfoldable pub is_required_by : Option ToolDefinition → Bool
is_required_by none = false
is_required_by (some def) = def.security.require_approval

-- `required, ok := approvalRequired[name]; ok && required`
unfoldable pub is_listed : Option Bool → Bool
is_listed none = false
is_listed (some required) = required

module _ (lib : Library) where
  -- The loop over the denied patterns
  unfoldable pub matches_pattern : String → List String → Bool
  matches_pattern command [] = false
  matches_pattern command (p ∷ ps) = lib.match_string p command || matches_pattern command ps

  -- ValidateCommand
  unfoldable pub validate_command : CommandValidator → String → Option String
  validate_command cv command =
      let command = lib.trim_space command in
      if str_eq command ""
      then some "empty command"
      else elim (first_contained command cv.denied_commands) [
        | some denied ↦ some (str_append "command denied: contains '" (str_append denied "'"))
        | none ↦
            if matches_pattern command cv.denied_patterns
            then some "command denied: matches dangerous pattern"
            else none
      ]

  -- IsReadOnlyCommand
  unfoldable pub is_read_only_command : String → Bool
  is_read_only_command command = elim (lib.fields command) [
    | [] ↦ false
    | base ∷ rest ↦ begins_read_only base command read_only_commands
  ]

  -- A parameter that must be there: checkReadFile, checkWriteFile, checkEditFile and
  -- checkListDirectory
  unfoldable pub check_path : Manager → String → Bool → Option Value → Option String
  check_path m key write (some (string_value path)) = validate_path lib m.path_validator path write
  check_path m key write (some other_value) =
      some (str_append "missing " (str_append key " parameter"))
  check_path m key write none = some (str_append "missing " (str_append key " parameter"))

  -- checkGlob and checkGrep
  unfoldable pub check_search : Manager → Option Value → Option String
  check_search m (some (string_value path)) =
      if str_eq path "" then none else validate_path lib m.path_validator path false
  check_search m (some other_value) = none
  check_search m none = none

  -- checkBash
  unfoldable pub check_bash : Manager → Option Value → Option String
  check_bash m (some (string_value command)) = validate_command m.command_validator command
  check_bash m (some other_value) = some "missing command parameter"
  check_bash m none = some "missing command parameter"

  -- Check
  unfoldable pub check_call : Manager → ToolCall (Dict Value) → Option String
  check_call m call =
      if str_eq call.name "read_file"
      then check_path m "file_path" false (lookup "file_path" call.parameters)
      else if str_eq call.name "write_file"
      then check_path m "file_path" true (lookup "file_path" call.parameters)
      else if str_eq call.name "edit_file"
      then check_path m "file_path" true (lookup "file_path" call.parameters)
      else if str_eq call.name "bash"
      then check_bash m (lookup "command" call.parameters)
      else if str_eq call.name "glob"
      then check_search m (lookup "path" call.parameters)
      else if str_eq call.name "grep"
      then check_search m (lookup "path" call.parameters)
      else if str_eq call.name "list_directory"
      then check_path m "path" false (lookup "path" call.parameters)
      else none

  -- The last test of RequiresApproval
  unfoldable pub is_writing_command : Option Value → Bool
  is_writing_command (some (string_value command)) = not (is_read_only_command command)
  is_writing_command (some other_value) = false
  is_writing_command none = false

  -- RequiresApproval
  unfoldable pub requires_approval_of :
      Manager → ToolCall (Dict Value) → Option ToolDefinition → Bool → Bool
  requires_approval_of m call def plan_mode =
      (plan_mode && is_listed (lookup call.name m.approval_required))
      || is_required_by def
      || (str_eq call.name "bash" && is_writing_command (lookup "command" call.parameters))

  -- The manager as the checker of the executor
  unfoldable pub checker_of : Manager → SecurityChecker (Dict Value)
  checker_of m = record {
    check = λ call def. check_call m call;
    requires_approval = requires_approval_of m;
  }

pub record SecurityReport : Type 0 where
  pub tool_name : String
  pub allowed : Bool
  pub reason : String
  pub risk_level : RiskLevel
  pub requires_approval : Bool

module _ (lib : Library) where
  -- The risk of an allowed call
  unfoldable pub risk_of : ToolCall (Dict Value) → RiskLevel
  risk_of call =
      if str_eq call.name "bash"
      then (if is_read_only_command lib (text_of (lookup "command" call.parameters))
          then risk_low
          else risk_high)
      else if str_eq call.name "write_file" || str_eq call.name "edit_file"
      then risk_medium
      else if str_eq call.name "read_file"
          || str_eq call.name "glob"
          || str_eq call.name "grep"
          || str_eq call.name "list_directory"
      then risk_low
      else risk_medium

  -- Analyze
  unfoldable pub analyze : Manager → ToolCall (Dict Value) → Option ToolDefinition → SecurityReport
  analyze m call def = elim (check_call lib m call) [
    | some err ↦ record {
      tool_name = call.name;
      allowed = false;
      reason = err;
      risk_level = risk_high;
      requires_approval = false;
    }
    | none ↦ record {
      tool_name = call.name;
      allowed = true;
      reason = "";
      risk_level = risk_of call;
      requires_approval = requires_approval_of lib m call def m.plan_mode;
    }
  ]
