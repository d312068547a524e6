-- ===== src/Tools/Security/Tests.antt =====
-- Runs of the security packages, with every path absolute and clean and no patterns.
use syntor.Common.{
  arith, eq_iff, ℕ, ◌≡◌, ◌↔◌, refl, inl, String, str_eq, true, false, List, [], ◌∷◌, none, some,
  if◌then◌else◌, Any,
}
use syntor.Common.Dict.{Dict, lookup, insert}
use syntor.Tools.{Value, string_value, ToolCall, ExecuteOptions}
use syntor.Tools.Registry.{new_registry}
use syntor.Tools.Executor.{Executor, execute_single}
use syntor.Tools.Security.{Library}
use syntor.Tools.Security.AutoAllow.{
  AutoAllowRule, tool_rule, default_rules, restrict_rules, evaluate_call, check_command,
  check_path_param, extract_path_param, find_rule, is_rule_of, matches_command_prefix, merge_rules,
  refusal_of, rules_by_tool, tighten,
}
use syntor.Tools.Security.Restriction.{evaluate_call-restrict_rules}
use syntor.Tools.Security.Paths.{
  PathValidator, validate_path, check_abs, expand_home, is_denied_name, is_denied_path, is_outside,
  is_traversal,
}
use syntor.Tools.Security.Manager.{
  Manager, is_read_only_command, is_listed, check_call, requires_approval_of, checker_of,
  begins_read_only, is_required_by,
}
use syntor.Tools.Security.Acceptance.{Permits, validate_path_iff}
use syntor.Tools.Security.Writes.{execute_single-checker_of}

-- A pattern is a star, which matches anything, or matches itself.
abbrev lib : Library
lib = record {
  glob_match = λ pattern name. if str_eq pattern "*" then true else str_eq pattern name;
  base_name = λ path. path;
  abs = λ path. some path;
  clean = λ path. path;
  join = λ a b. b;
  user_home_dir = some "/home";
  trim_space = λ s. s;
  fields = λ s. s ∷ [];
  match_string = λ pattern s. false;
}

abbrev command : String → Dict Value
command s = ("command", string_value s) ∷ []

abbrev project : List AutoAllowRule
project = tool_rule "read_file" ∷ record (tool_rule "bash") { deny_commands = "cat" ∷ [] } ∷ []

abbrev no_pushes : List AutoAllowRule
no_pushes = record (tool_rule "bash") { deny_commands = "git push" ∷ [] } ∷ tool_rule "*" ∷ []

-- The global rules refuse a push, by their first rule for bash.
no_pushes_global : (evaluate_call lib no_pushes "bash" (command "git push")).0 ≡ false
unfolding evaluate_call find_rule is_rule_of refusal_of check_path_param extract_path_param
    check_command lookup matches_command_prefix
no_pushes_global = refl

-- A project that lists only the later rule for every tool makes the policy allow it.
no_pushes_project :
    (evaluate_call lib
      (restrict_rules no_pushes (tool_rule "*" ∷ []))
      "bash"
      (command "git push")).0
    ≡ true
unfolding evaluate_call restrict_rules find_rule merge_rules lookup rules_by_tool insert is_rule_of
    tighten refusal_of check_path_param extract_path_param check_command matches_command_prefix
no_pushes_project = refl

-- A command behind an allowed one is allowed with it.
default_compound : (evaluate_call lib default_rules "bash" (command "ls ; sudo reboot")).0 ≡ true
unfolding evaluate_call find_rule is_rule_of refusal_of check_path_param extract_path_param
    check_command lookup matches_command_prefix
default_compound = refl

compound_read_only : is_read_only_command lib "ls ; sudo reboot" ≡ true
unfolding is_read_only_command begins_read_only
compound_read_only = refl

evaluate_call-restrict_rules_example :
    (g : AutoAllowRule) × Any (λ x. x ≡ g) default_rules
    × Any (λ x. x.tool ≡ g.tool) project
    × ((evaluate_call lib (g ∷ []) "bash" (command "git log -3")).0 ≡ true)
unfolding evaluate_call restrict_rules find_rule merge_rules lookup rules_by_tool insert is_rule_of
    tighten refusal_of check_path_param extract_path_param check_command matches_command_prefix
evaluate_call-restrict_rules_example =
    evaluate_call-restrict_rules lib default_rules project "bash" (command "git log -3") refl

abbrev work_dir : PathValidator
work_dir = record {
  working_dir = "/work";
  denied_paths = "/etc/shadow" ∷ [];
  denied_names = "/work/.env" ∷ [];
  allowed_paths = "/etc/shadow" ∷ [];
}

-- A directory whose name only begins with that of the working directory is written to.
sibling_written : validate_path lib work_dir "/work-old/a.txt" true ≡ none
unfolding validate_path expand_home check_abs is_traversal is_denied_path is_denied_name is_outside
sibling_written = refl

-- An allowed path is denied all the same.
allowed_denied :
    validate_path lib work_dir "/etc/shadow" false ≡ some "access to path denied: /etc/shadow"
unfolding validate_path expand_home check_abs is_traversal is_denied_path
allowed_denied = refl

validate_path_iff_example :
    (validate_path lib work_dir "/work/a.txt" true ≡ none) ↔ Permits lib work_dir "/work/a.txt" true
validate_path_iff_example = validate_path_iff lib work_dir "/work/a.txt" true (λ p a e. refl)

abbrev manager : Manager
manager = record {
  path_validator = work_dir;
  command_validator = record {
    allowed_commands = [];
    denied_patterns = [];
    denied_commands = "sudo" ∷ [];
  };
  plan_mode = false;
  approval_required = ("write_file", true) ∷ ("edit_file", true) ∷ ("bash", true) ∷ [];
}

abbrev secured : Executor (Dict Value) ℕ ℕ
unfolding new_registry
secured = record {
  registry = new_registry (Dict Value) ℕ ℕ;
  security_checker = some (checker_of lib manager);
  max_concurrent = 5;
  default_timeout = 120;
}

abbrev write_outside : ToolCall (Dict Value)
write_outside = record {
  id = "1";
  name = "write_file";
  parameters = ("file_path", string_value "/tmp/a.txt") ∷ [];
}

-- Outside of plan mode, a tool on the list needs no approval, and an unknown tool is neither
-- refused nor asked for.
write_unasked : requires_approval_of lib manager write_outside none false ≡ false
unfolding requires_approval_of is_required_by
write_unasked = refl

unknown_unasked :
    (check_call lib manager (record write_outside { name = "deploy" }) ≡ none)
    × (requires_approval_of lib manager (record write_outside { name = "deploy" }) none true
        ≡ false)
unfolding check_call requires_approval_of is_listed lookup is_required_by
unknown_unasked = (refl, refl)

abbrev options : ExecuteOptions
options = record {
  require_approval = false;
  working_dir = "";
  timeout = 0;
  dry_run = false;
  plan_mode = false;
}

execute_single-checker_of_example :
    ((execute_single (λ d. "") (λ s. 0) options secured write_outside 7).1 ≡ 7)
    × ((execute_single (λ d. "") (λ s. 0) options secured write_outside 7).0.success ≡ false)
unfolding secured lookup expand_home is_outside
execute_single-checker_of_example =
    execute_single-checker_of lib (λ d. "") (λ s. 0) options manager secured write_outside 7
      "/tmp/a.txt" "/tmp/a.txt" "/tmp/a.txt" "/work" refl (inl refl) refl refl refl
      (λ e. ground (arith, eq_iff "/work" "")) refl refl
