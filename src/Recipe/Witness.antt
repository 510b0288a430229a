-- ===== src/Recipe/Witness.antt =====
-- The theorems on recipes, at small inputs, and runs of the checks.
use blades.Common.{
  ◌≢◌, Result, apply_options, String, ◌≡◌, ◌↔◌, refl, List, [], ◌∷◌, some, none, ok, err, All,
}
use blades.Common.StringMap.{insert, get_or, lookup}
use blades.Context.Summary.{Compressor, Summarizer, new_compressor, with_max_tokens, compress}
use blades.Recipe.Context.{build_context_compressor, build_summary, summary_options, summarizing}
use blades.Recipe.Context.Ends.{compress-build_context_compressor}
use blades.Recipe.Spec.{
  ContextSpec, SpecError, negsuc, pos, string_value, number_value, Value, ParameterSpec,
  SubAgentSpec, AgentSpec, recipe, duplicate_parameter, wrapped, tool_conflict, required_missing,
}
use blades.Recipe.Parameters.{
  contains, check_select, validate_param_type, check_default, validate_parameter, parameters_loop,
  validate_parameters, check_value, validate_param_values, resolve_params,
}
use blades.Recipe.Validate.{
  middlewares_loop, validate_middlewares, validate_context_spec, tools_loop, validate_tool_names,
  validate_sub_agent, check_fields, check_mode, check_sub_agent, sub_agents_loop, validate,
  validate_params,
}
use blades.Recipe.Correct.Names.{IsDistinct, tool_set, HasNames, validate_tool_names_iff}
use blades.Recipe.Correct.Parameters.{IsParameter, parameter_names, validate_parameters_iff}
use blades.Recipe.Correct.Values.{
  IsGiven, validate_param_values_iff, validate_param_values-resolve_params,
}
use blades.Recipe.Correct.Whole.{IsRecipe, validate-IsRecipe}

abbrev style : ParameterSpec
style = record {
  name = "style";
  type_name = "select";
  default = some (string_value "short");
  required = "optional";
  options = "short" ∷ "long" ∷ [];
}

abbrev count_of : ParameterSpec
count_of = record {
  name = "count";
  type_name = "number";
  default = none;
  required = "required";
  options = [];
}

abbrev declared : List ParameterSpec
declared = style ∷ count_of ∷ []

abbrev given : List (String × Value)
given = ("count", number_value (pos 3)) ∷ []

abbrev reviewer : SubAgentSpec
reviewer = record {
  name = "reviewer";
  description = "";
  prompt = "";
  model = "";
  instruction = "Review";
  parameters = [];
  tools = [];
  output_key = "";
  max_iterations = pos 0;
  context = none;
  middlewares = [];
}

abbrev review : AgentSpec
review = record {
  version = "1.0";
  name = "review";
  description = "";
  prompt = "";
  model = "m";
  instruction = "Lead";
  parameters = declared;
  sub_agents = reviewer ∷ [];
  execution = "tool";
  tools = "search" ∷ [];
  output_key = "";
  max_iterations = pos 0;
  context = none;
  middlewares = [];
}

abbrev conflicting : AgentSpec
conflicting = record review { tools = "reviewer" ∷ [] }

program : Unit {0}
unfolding contains check_select validate_param_type check_default validate_parameter parameters_loop
    validate_parameters check_value validate_param_values middlewares_loop validate_middlewares
    validate_context_spec tools_loop validate_tool_names validate_sub_agent check_fields check_mode
    check_sub_agent sub_agents_loop validate validate_params insert get_or lookup
program = tt

review_test : validate (some review) ≡ ok tt
unfolding program
review_test = refl

conflicting_test :
    validate (some conflicting) ≡ err (wrapped (recipe "review") (tool_conflict "reviewer"))
unfolding program
conflicting_test = refl

duplicate_test : validate_parameters (style ∷ style ∷ []) ≡ err (duplicate_parameter "style")
unfolding program
duplicate_test = refl

missing_test : validate_params (some review) [] ≡ err (required_missing (recipe "review") "count")
unfolding program
missing_test = refl

declared_valid : validate_parameters declared ≡ ok tt
unfolding program
declared_valid = refl

validate-IsRecipe_example : (validate (some review) ≡ ok tt) ↔ IsRecipe review
validate-IsRecipe_example = validate-IsRecipe review

validate_parameters_iff_test :
    (validate_parameters declared ≡ ok tt)
    ↔ (All IsParameter declared × IsDistinct (parameter_names declared))
validate_parameters_iff_test = validate_parameters_iff declared

validate_param_values_iff_test :
    (validate_param_values (recipe "review") declared given ≡ ok tt)
    ↔ All (λ p. IsGiven p (lookup p.name given)) declared
validate_param_values_iff_test =
    validate_param_values_iff (recipe "review") declared given
      ((validate_parameters_iff declared).0 declared_valid).0

validate_param_values-resolve_params_example :
    validate_param_values (recipe "review") declared (resolve_params declared given)
    ≡ validate_param_values (recipe "review") declared given
validate_param_values-resolve_params_example =
    validate_param_values-resolve_params (recipe "review") declared given declared_valid (tt, tt)

validate_tool_names_iff_test :
    (validate_tool_names (recipe "r") ("a" ∷ "b" ∷ []) ≡ ok (tool_set [] ("a" ∷ "b" ∷ [])))
    ↔ HasNames ("a" ∷ "b" ∷ [])
validate_tool_names_iff_test = validate_tool_names_iff (recipe "r") ("a" ∷ "b" ∷ [])

-- A context that asks for batches of no messages gets the default.
abbrev shrinking : ContextSpec
shrinking = record {
  strategy = "summarize";
  max_tokens = pos 100;
  max_messages = pos 0;
  keep_recent = negsuc 4;
  batch_size = pos 0;
  model = "";
}

abbrev resolver : String → Result SpecError Summarizer
resolver name = ok (λ instruction batch. ok name)

abbrev built : Compressor
built = record {
  max_tokens = 100;
  counter = λ messages. 200;
  summarizer = λ instruction batch. ok "m";
  keep_recent = 10;
  batch_size = pos 20;
  instruction = "Summarize";
}

built_run :
    build_context_compressor resolver (λ messages. 200) "Summarize" (some shrinking) "m"
    ≡ ok (some (summarizing built))
unfolding build_context_compressor build_summary summary_options new_compressor with_max_tokens
    apply_options
built_run = refl

compress-build_context_compressor_test :
    compress built "v" (record { id = "s"; state = []; history = [] }) [] ≢ none
compress-build_context_compressor_test =
    compress-build_context_compressor resolver (λ messages. 200) "Summarize" (some shrinking) "m"
      built built_run "v" (record { id = "s"; state = []; history = [] }) []
