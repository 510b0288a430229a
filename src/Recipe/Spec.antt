-- ===== src/Recipe/Spec.antt =====
-- recipe/spec.go: the specification that a file is parsed into, and the errors of the checks.
-- The options of middlewares are left out, since only their resolver reads them.
use blades.Common.{ℕ, String, Bool, List, Option}
pub use blades.Common.{ℤ, pos, negsuc}

-- The dynamic types that `validateParamType` tells apart; a number of any of Go's numeric types is
-- `number_value`.
pub data Value : Type 0 where
  string_value : String → Value
  number_value : ℤ → Value
  boolean_value : Bool → Value
  other_value : ℕ → Value

abbrev pub sequential : String
sequential = "sequential"

abbrev pub parallel : String
parallel = "parallel"

abbrev pub loop : String
loop = "loop"

abbrev pub tool : String
tool = "tool"

abbrev pub parameter_string : String
parameter_string = "string"

abbrev pub parameter_number : String
parameter_number = "number"

abbrev pub parameter_boolean : String
parameter_boolean = "boolean"

abbrev pub parameter_select : String
parameter_select = "select"

abbrev pub parameter_required : String
parameter_required = "required"

abbrev pub parameter_optional : String
parameter_optional = "optional"

abbrev pub strategy_summarize : String
strategy_summarize = "summarize"

abbrev pub strategy_window : String
strategy_window = "window"

pub record ContextSpec : Type 0 where
  pub strategy : String
  pub max_tokens : ℤ
  pub max_messages : ℤ
  pub keep_recent : ℤ
  pub batch_size : ℤ
  pub model : String

pub record MiddlewareSpec : Type 0 where
  pub name : String

-- A nil default is `none`.
pub record ParameterSpec : Type 0 where
  pub name : String
  pub type_name : String
  pub default : Option Value
  pub required : String
  pub options : List String

pub record SubAgentSpec : Type 0 where
  pub name : String
  pub description : String
  pub prompt : String
  pub model : String
  pub instruction : String
  pub parameters : List ParameterSpec
  pub tools : List String
  pub output_key : String
  pub max_iterations : ℤ
  pub context : Option ContextSpec
  pub middlewares : List MiddlewareSpec

pub record AgentSpec : Type 0 where
  pub version : String
  pub name : String
  pub description : String
  pub prompt : String
  pub model : String
  pub instruction : String
  pub parameters : List ParameterSpec
  pub sub_agents : List SubAgentSpec
  pub execution : String
  pub tools : List String
  pub output_key : String
  pub max_iterations : ℤ
  pub context : Option ContextSpec
  pub middlewares : List MiddlewareSpec

-- The prefix of an error's text.
pub data Scope : Type 0 where
  default_value : Scope
  recipe : String → Scope
  sub_agent : String → Scope

-- An error for each text of the source.
pub data SpecError : Type 0 where
  spec_required version_required name_required instruction_required model_required : SpecError
  execution_required tool_model_required : SpecError
  invalid_execution output_key_unsupported max_iterations_unsupported : String → SpecError
  wrapped : Scope → SpecError → SpecError
  in_context : SpecError → SpecError
  middleware_unnamed : Scope → ℕ → SpecError
  duplicate_middleware tool_unnamed duplicate_tool : Scope → String → SpecError
  strategy_required max_tokens_negative : SpecError
  unknown_strategy : String → SpecError
  parameter_unnamed : SpecError
  duplicate_parameter type_required options_required : String → SpecError
  invalid_type invalid_required : String → String → SpecError
  not_string not_number not_boolean not_select_string : Scope → String → SpecError
  not_an_option : Scope → String → String → SpecError
  required_missing : Scope → String → SpecError
  sub_agent_unnamed : ℕ → SpecError
  sub_agent_instruction : String → SpecError
  duplicate_sub_agent tool_conflict sub_output_key sub_model_required : String → SpecError
