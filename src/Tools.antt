-- ===== src/Tools.antt =====
-- pkg/tools: calls, results, definitions, and the tools themselves.
-- A tool is a value of the interface Tool. What tools act on (files, processes) is a state `World`;
-- Execute takes the timeout and gives the world after it. Parameters are the type `Params`, but in
-- the security packages, which read texts in them. Measured durations are left out of results.
pub mod Registry
pub mod Executor
pub mod Security
use syntor.Common.{ℕ, String, Bool, true, false, List, [], Option, none}

-- A value of a parameter: a text, or anything else.
pub data Value : Type 0 where
  string_value : String → Value
  other_value : Value

pub record ToolCall (Params : Type 0) : Type 0 where
  pub id : String
  pub name : String
  pub parameters : Params

pub record ToolError : Type 0 where
  pub code : String
  pub message : String
  pub details : String

pub record ToolResult (Output : Type 0) : Type 0 where
  pub call_id : String
  pub tool_name : String
  pub success : Bool
  pub output : Option Output
  pub error : Option ToolError
  pub truncated : Bool

pub data RiskLevel : Type 0 where
  risk_low : RiskLevel
  risk_medium : RiskLevel
  risk_high : RiskLevel
  risk_critical : RiskLevel

pub record ApprovalRequest (Params : Type 0) : Type 0 where
  pub id : String
  pub tool_call : ToolCall Params
  pub reason : String
  pub risk : RiskLevel
  pub requested_at : ℕ

-- What Execute returns: an error, with whether the deadline of its context has passed, or a
-- result, which may be nil.
pub data Outcome (Output : Type 0) : Type 0 where
  failed : Bool → String → Outcome Output
  returned : Option (ToolResult Output) → Outcome Output

pub record Tool (Params Output World : Type 0) : Type 0 where
  pub tool_name : String
  pub description : String
  pub validate : Params → Option String
  pub execute : ℕ → Params → World → Outcome Output × World

pub data ToolCategory : Type 0 where
  filesystem : ToolCategory
  shell : ToolCategory
  search : ToolCategory
  agent : ToolCategory

pub record ToolParameter : Type 0 where
  pub name : String
  pub type_name : String
  pub description : String
  pub required : Bool
  pub default : Option Value
  pub enum : List String
  pub validation : String

pub record ToolReturnSpec : Type 0 where
  pub type_name : String
  pub description : String

pub record ToolSecuritySpec : Type 0 where
  pub require_approval : Bool
  pub allowed_paths : List String
  pub denied_paths : List String
  pub sandbox : Bool
  pub max_execution_time : String
  pub allowlist : List String
  pub denylist : List String

pub record ToolDefinition : Type 0 where
  pub name : String
  pub description : String
  pub version : String
  pub category : ToolCategory
  pub parameters : List ToolParameter
  pub returns : ToolReturnSpec
  pub security : ToolSecuritySpec

pub record ExecuteOptions : Type 0 where
  pub require_approval : Bool
  pub working_dir : String
  pub timeout : ℕ
  pub dry_run : Bool
  pub plan_mode : Bool

-- The interface SecurityChecker; an error is its text.
pub record SecurityChecker (Params : Type 0) : Type 0 where
  pub check : ToolCall Params → Option ToolDefinition → Option String
  pub requires_approval : ToolCall Params → Option ToolDefinition → Bool → Bool
