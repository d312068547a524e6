-- ===== src/Subagent/Context.antt =====
-- The contexts of pkg/subagent/context.go, their builders and their validator.
-- A path is its bytes; `filepath.Abs` is the parameter `abs`, with `none` for its error. The
-- errors of the validator are constructors. `Variables` and the inbox are not modelled: no check
-- reads them.
pub mod Grants
mod Tests
use syntor.Common.{
  ℕ, ◌+◌, String, str_eq, Bool, true, false, not, ◌&&◌, ◌||◌, List, [], ◌∷◌, ◌++◌, Option, none,
  some, ◌==◌, if◌then◌else◌, contains,
}

pub record Constraints : Type 0 where
  pub max_tokens : ℕ
  pub max_tool_calls : ℕ
  pub allowed_paths : List (List ℕ)
  pub denied_paths : List (List ℕ)
  pub allow_bash : Bool
  pub allow_network : Bool
  pub require_approval : Bool

pub record Message : Type 0 where
  pub role : String
  pub content : String

pub record Context : Type 0 where
  pub session_id : String
  pub working_dir : List ℕ
  pub messages : List Message
  pub allowed_tools : List String
  pub constraints : Constraints

abbrev pub no_constraints : Constraints
no_constraints = record {
  max_tokens = 0;
  max_tool_calls = 0;
  allowed_paths = [];
  denied_paths = [];
  allow_bash = false;
  allow_network = false;
  require_approval = false;
}

-- NewContextBuilder; a builder is the context that it builds, and Build returns that.
abbrev pub new_context_builder : Context
new_context_builder = record {
  session_id = "";
  working_dir = [];
  messages = [];
  allowed_tools = [];
  constraints = no_constraints;
}

unfoldable pub with_session_id : String → Context → Context
with_session_id id c = record c { session_id = id }

unfoldable pub with_working_dir : List ℕ → Context → Context
with_working_dir dir c = record c { working_dir = dir }

unfoldable pub with_tools : List String → Context → Context
with_tools tools c = record c { allowed_tools = tools }

abbrev pub read_only_tools : List String
read_only_tools = "read_file" ∷ "list_directory" ∷ "glob" ∷ "grep" ∷ []

unfoldable pub with_read_only_tools : Context → Context
with_read_only_tools c = record c { allowed_tools = read_only_tools }

unfoldable pub with_write_tools : Context → Context
with_write_tools c = record c { allowed_tools = c.allowed_tools ++ "write_file" ∷ "edit_file" ∷ [] }

unfoldable pub with_bash_tool : Context → Context
with_bash_tool c = record c {
  allowed_tools = c.allowed_tools ++ "bash" ∷ [];
  constraints = record c.constraints { allow_bash = true };
}

unfoldable pub with_constraints : Constraints → Context → Context
with_constraints k c = record c { constraints = k }

unfoldable pub with_max_tokens : ℕ → Context → Context
with_max_tokens max c = record c { constraints = record c.constraints { max_tokens = max } }

unfoldable pub with_max_tool_calls : ℕ → Context → Context
with_max_tool_calls max c = record c { constraints = record c.constraints { max_tool_calls = max } }

unfoldable pub with_allowed_paths : List (List ℕ) → Context → Context
with_allowed_paths paths c = record c {
  constraints = record c.constraints { allowed_paths = paths };
}

unfoldable pub with_denied_paths : List (List ℕ) → Context → Context
with_denied_paths paths c = record c { constraints = record c.constraints { denied_paths = paths } }

unfoldable pub with_network_access : Context → Context
with_network_access c = record c { constraints = record c.constraints { allow_network = true } }

unfoldable pub with_approval_required : Context → Context
with_approval_required c = record c {
  constraints = record c.constraints { require_approval = true };
}

unfoldable pub with_message : String → String → Context → Context
with_message role content c = record c {
  messages = c.messages ++ record { role = role; content = content } ∷ [];
}

-- InheritFrom, of a parent or of none.
unfoldable pub inherit_from : Option Context → Context
inherit_from none = new_context_builder
inherit_from (some parent) = record new_context_builder {
  session_id = parent.session_id;
  working_dir = parent.working_dir;
  allowed_tools = parent.allowed_tools;
  constraints = parent.constraints;
}

unfoldable pub restricted_context : String → List ℕ → Context
unfolding with_session_id with_working_dir with_read_only_tools with_max_tokens with_max_tool_calls
    with_allowed_paths with_approval_required
restricted_context id dir = with_approval_required (
    with_allowed_paths (dir ∷ []) (
      with_max_tool_calls 10 (
        with_max_tokens 4096
          (with_read_only_tools (with_working_dir dir (with_session_id id new_context_builder))))))

unfoldable pub trusted_context : String → List ℕ → Context
unfolding with_session_id with_working_dir with_read_only_tools with_write_tools with_bash_tool
    with_max_tokens with_max_tool_calls with_allowed_paths
trusted_context id dir = with_allowed_paths (dir ∷ []) (
    with_max_tool_calls 50 (
      with_max_tokens 16_384 (
        with_bash_tool (
          with_write_tools (
            with_read_only_tools
              (with_working_dir dir (with_session_id id new_context_builder)))))))

pub data Refusal : Type 0 where
  tool_not_allowed : String → Refusal
  invalid_path path_is_denied path_not_allowed : List ℕ → Refusal
  bash_not_allowed network_not_allowed : Refusal

abbrev pub is_empty {ℓ} : {A : Type ℓ} → List A → Bool
is_empty [] = true
is_empty (a ∷ rest) = false

-- ContextValidator.ValidateTool; `none` is success.
unfoldable pub validate_tool : Context → String → Option Refusal
unfolding contains
validate_tool c name =
    if is_empty c.allowed_tools
    then none
    else if contains name c.allowed_tools
    then none
    else some (tool_not_allowed name)

-- strings.HasPrefix
unfoldable pub has_prefix : List ℕ → List ℕ → Bool
has_prefix path [] = true
has_prefix [] (y ∷ prefix) = false
has_prefix (x ∷ path) (y ∷ prefix) = x == y && has_prefix path prefix

-- The loops over the denied and the allowed paths.
unfoldable pub has_any_prefix : List ℕ → List (List ℕ) → Bool
unfolding has_prefix
has_any_prefix path [] = false
has_any_prefix path (p ∷ ps) = has_prefix path p || has_any_prefix path ps

module _ (abs : List ℕ → Option (List ℕ)) where
  -- ContextValidator.ValidatePath
  unfoldable pub validate_path : Context → List ℕ → Option Refusal
  unfolding has_any_prefix
  validate_path c path = elim (abs path) [
    | none ↦ some (invalid_path path)
    | some abs_path ↦
        if has_any_prefix abs_path c.constraints.denied_paths
        then some (path_is_denied path)
        else if not (is_empty c.constraints.allowed_paths)
            && not (has_any_prefix abs_path c.constraints.allowed_paths)
        then some (path_not_allowed path)
        else none
  ]

unfoldable pub validate_bash : Context → Option Refusal
validate_bash c = if c.constraints.allow_bash then none else some bash_not_allowed

unfoldable pub validate_network : Context → Option Refusal
validate_network c = if c.constraints.allow_network then none else some network_not_allowed
