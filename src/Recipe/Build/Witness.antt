-- ===== src/Recipe/Build/Witness.antt =====
-- The construction of agents from recipes, at small inputs.
use blades.Common.{
  ℕ, ◌+◌, String, ◌≡◌, refl, true, false, List, [], ◌∷◌, none, some, ok, err, Result, pos,
  apply_options,
}
use blades.Common.StringMap.{insert, get_or, lookup}
use blades.Agent.Loop.{Provider}
use blades.Agent.New.{
  new_agent, with_model, with_description, with_instruction, with_output_key, with_tools,
  with_max_iterations, with_context,
}
use blades.Recipe.Spec.{SubAgentSpec, AgentSpec}
use blades.Recipe.Parameters.{
  contains, check_select, validate_param_type, check_default, validate_parameter, parameters_loop,
  validate_parameters, check_value, validate_param_values, resolve_params, store_defaults,
  store_values,
}
use blades.Recipe.Validate.{
  middlewares_loop, validate_middlewares, validate_context_spec, tools_loop, validate_tool_names,
  validate_sub_agent, check_fields, check_mode, check_sub_agent, sub_agents_loop, validate,
  validate_params,
}
use blades.Recipe.Build.{
  BuildOptions, Templates, BuildError, tool_registry_required, Built, loop_flow, each, resolve_with,
  agent_options, build_single_agent, build_named, build_sub_agent, build_sub_agents,
  build_tool_agent, build_flow, build_agent, build,
}
use blades.Recipe.Build.Errors.{FailsOutside}
use blades.Recipe.Build.Checked.{build-FailsOutside}

program : Unit {0}
unfolding insert get_or lookup contains check_select validate_param_type check_default
    validate_parameter parameters_loop validate_parameters check_value validate_param_values
    resolve_params store_defaults store_values middlewares_loop validate_middlewares
    validate_context_spec tools_loop validate_tool_names validate_sub_agent check_fields check_mode
    check_sub_agent sub_agents_loop validate validate_params each resolve_with agent_options
    build_single_agent build_named build_sub_agent build_sub_agents build_tool_agent build_flow
    build_agent build new_agent with_model with_description with_instruction with_output_key
    with_tools with_max_iterations with_context apply_options
program = tt

abbrev writer : SubAgentSpec
writer = record {
  name = "writer";
  description = "";
  prompt = "";
  model = "";
  instruction = "Write";
  parameters = [];
  tools = [];
  output_key = "draft";
  max_iterations = pos 0;
  context = none;
  middlewares = [];
}

abbrev book : List String → AgentSpec
book tools = record {
  version = "1";
  name = "book";
  description = "a loop";
  prompt = "";
  model = "m";
  instruction = "";
  parameters = [];
  sub_agents = record writer { tools = tools } ∷ [];
  execution = "loop";
  tools = [];
  output_key = "";
  max_iterations = pos 3;
  context = none;
  middlewares = [];
}

abbrev plain : Templates
plain = record {
  render_template = λ text params. ok text;
  render_preserving = λ text params. ok text;
  has_actions = λ text. false;
}

abbrev silent : Provider ℕ
silent = record {
  generate = λ n messages. (n + 1, ok none);
  new_streaming = λ n messages. (n + 1, []);
}

abbrev options : BuildOptions ℕ String
options = record {
  model_registry = some (λ name. ok silent);
  tool_registry = none;
  middleware_registry = none;
  params = [];
  context_enabled = some true;
}

abbrev flow_name : Result BuildError (Built ℕ String × String) → String
flow_name (ok (loop_flow name text n subs, prompt)) = name
flow_name _ = "other"

builds_loop : flow_name (build plain options (book [])) ≡ "book"
unfolding program
builds_loop = refl

no_registry : build plain options (book ("clock" ∷ [])) ≡ err tool_registry_required
unfolding program
no_registry = refl

book_valid : validate (some (book ("clock" ∷ []))) ≡ ok tt
unfolding program
book_valid = refl

build-FailsOutside_example : FailsOutside (build plain options (book ("clock" ∷ [])))
build-FailsOutside_example = build-FailsOutside plain options (book ("clock" ∷ [])) book_valid
