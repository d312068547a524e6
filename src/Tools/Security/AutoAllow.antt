-- ===== src/Tools/Security/AutoAllow.antt =====
-- pkg/tools/security/autoallow.go. The permissions files are given as what loadRulesFile returns.
use syntor.Common.{
  String, str_append, str_eq, Bool, true, false, not, ◌&&◌, ◌||◌, List, [], ◌∷◌, ◌++◌, Option, none,
  some, starts_with, if◌then◌else◌,
}
use syntor.Common.Dict.{Dict, lookup, insert}
use syntor.Tools.{Value, string_value, other_value}
use syntor.Tools.Security.{Library}

pub record AutoAllowRule : Type 0 where
  pub tool : String
  pub path_patterns : List String
  pub deny_patterns : List String
  pub commands : List String
  pub deny_commands : List String

-- A rule of a tool's name alone
abbrev pub tool_rule : String → AutoAllowRule
tool_rule name = record {
  tool = name;
  path_patterns = [];
  deny_patterns = [];
  commands = [];
  deny_commands = [];
}

-- defaultRules
abbrev pub default_rules : List AutoAllowRule
default_rules =
    tool_rule "read_file"
    ∷ tool_rule "glob"
    ∷ tool_rule "grep"
    ∷ tool_rule "list_directory"
    ∷ record (tool_rule "bash") {
      commands = "git status" ∷ "git diff" ∷ "git log" ∷ "ls" ∷ "pwd" ∷ "cat" ∷ [];
      deny_commands = "git push" ∷ "git reset" ∷ "rm -rf" ∷ "sudo" ∷ [];
    }
    ∷ []

-- The loop of restrictRules that builds the map of the project's rules
unfoldable pub rules_by_tool : List AutoAllowRule → Dict AutoAllowRule → Dict AutoAllowRule
rules_by_tool [] m = m
rules_by_tool (r ∷ rs) m = rules_by_tool rs (insert r.tool r m)

-- A global rule with the deny patterns of the project's
unfoldable pub tighten : AutoAllowRule → AutoAllowRule → AutoAllowRule
tighten g pr = record g {
  deny_patterns = g.deny_patterns ++ pr.deny_patterns;
  deny_commands = g.deny_commands ++ pr.deny_commands;
}

-- The loop of restrictRules that merges
unfoldable pub merge_rules : List AutoAllowRule → Dict AutoAllowRule → List AutoAllowRule
merge_rules [] m = []
merge_rules (g ∷ gs) m =
    let rest = merge_rules gs m in
    elim (lookup g.tool m) [ none ↦ rest | some pr ↦ tighten g pr ∷ rest ]

-- restrictRules
unfoldable pub restrict_rules : List AutoAllowRule → List AutoAllowRule → List AutoAllowRule
restrict_rules global project = merge_rules global (rules_by_tool project [])

-- LoadAutoAllowPolicy, with whether there is a home directory and the two files' rules
unfoldable pub load_auto_allow_policy :
    Bool → Option (List AutoAllowRule) → Option (List AutoAllowRule) → List AutoAllowRule
load_auto_allow_policy false global project = default_rules
load_auto_allow_policy true none none = default_rules
load_auto_allow_policy true (some global) none = global
load_auto_allow_policy true none (some project) = restrict_rules default_rules project
load_auto_allow_policy true (some global) (some project) = restrict_rules global project

-- `params[key].(string)`, with the empty text where that fails
unfoldable pub text_of : Option Value → String
text_of (some (string_value s)) = s
text_of (some other_value) = ""
text_of none = ""

-- extractPathParam
unfoldable pub extract_path_param : String → Dict Value → String
unfolding text_of
extract_path_param name params =
    if str_eq name "read_file" || str_eq name "write_file" || str_eq name "edit_file"
    then text_of (lookup "file_path" params)
    else if str_eq name "glob" || str_eq name "grep" || str_eq name "list_directory"
    then text_of (lookup "path" params)
    else ""

abbrev pub is_nil : List String → Bool
is_nil [] = true
is_nil (x ∷ xs) = false

-- The loop of matchesCommandPrefix
unfoldable pub begins_with_any : String → List String → Bool
begins_with_any trimmed [] = false
begins_with_any trimmed (p ∷ ps) =
    str_eq trimmed p
    || starts_with trimmed (str_append p " ")
    || starts_with trimmed (str_append p "\t")
    || begins_with_any trimmed ps

module _ (lib : Library) where
  -- matchesAny
  unfoldable pub matches_any : String → List String → Bool
  matches_any value [] = false
  matches_any value (p ∷ ps) =
      lib.glob_match p value || lib.glob_match p (lib.base_name value) || matches_any value ps

  -- matchesCommandPrefix
  unfoldable pub matches_command_prefix : String → List String → Bool
  unfolding begins_with_any
  matches_command_prefix cmd prefixes = begins_with_any (lib.trim_space cmd) prefixes

  -- The tests of findRule
  unfoldable pub is_rule_of : String → AutoAllowRule → Bool
  is_rule_of name r = str_eq r.tool name || lib.glob_match r.tool name

  -- findRule
  unfoldable pub find_rule : List AutoAllowRule → String → Option AutoAllowRule
  find_rule [] name = none
  find_rule (r ∷ rs) name =
      let later = find_rule rs name in if is_rule_of name r then some r else later

  -- The check of the path
  unfoldable pub check_path_param : AutoAllowRule → String → Option String
  check_path_param rule path =
      if str_eq path ""
      then none
      else if matches_any path rule.deny_patterns
      then some (str_append "path matches deny pattern: " path)
      else if not (is_nil rule.path_patterns) && not (matches_any path rule.path_patterns)
      then some (str_append "path does not match any allow pattern: " path)
      else none

  -- The check of the command
  unfoldable pub check_command : AutoAllowRule → String → Option String
  check_command rule cmd =
      if str_eq cmd ""
      then some "empty bash command"
      else if matches_command_prefix cmd rule.deny_commands
      then some (str_append "command matches deny prefix: " cmd)
      else if not (is_nil rule.commands) && not (matches_command_prefix cmd rule.commands)
      then some (str_append "command does not match any allowed prefix: " cmd)
      else none

  -- Evaluate under the rule that findRule found: `none` is allowed, a reason is not.
  unfoldable pub refusal_of : AutoAllowRule → String → Dict Value → Option String
  refusal_of rule name params = elim (check_path_param rule (extract_path_param name params)) [
    | some reason ↦ some reason
    | none ↦
        if str_eq name "bash" then check_command rule (text_of (lookup "command" params)) else none
  ]

  -- Evaluate
  unfoldable pub evaluate_call : List AutoAllowRule → String → Dict Value → Bool × String
  evaluate_call rules name params = elim (find_rule rules name) [
    | none ↦ (false, str_append "no auto-allow rule for tool: " name)
    | some rule ↦ elim (refusal_of rule name params) [
      | some reason ↦ (false, reason)
      | none ↦ (true, str_append "auto-allowed by rule for tool: " name)
    ]
  ]
