-- ===== src/Recipe/Build.antt =====
-- recipe/builder.go, with the prompts of recipe/prompt.go: an agent is built from a recipe. The
-- registries and the engine of templates are parameters.
use blades.Common.{
  ℕ, zero, suc, String, str_eq, Bool, true, false, not, List, [], ◌∷◌, ◌++◌, Option, none, some,
  Result, ok, err, ◌>>=◌, if◌then◌else◌, apply_options,
}
use blades.Agent.Tools.{Tool}
use blades.Agent.Loop.{Provider, Agent}
use blades.Agent.New.{
  AgentConfig, NewError, with_model, with_description, with_instruction, with_output_key,
  with_tools, with_max_iterations, with_context, new_agent,
}
use blades.Recipe.Spec.{
  ℤ, pos, negsuc, Value, sequential, parallel, loop, tool, MiddlewareSpec, SubAgentSpec, AgentSpec,
  Scope, recipe, sub_agent, SpecError,
}
use blades.Recipe.Parameters.{validate_param_values, resolve_params}
use blades.Recipe.Validate.{validate, validate_params, no_sub_agents}
pub mod Options
pub mod Errors
pub mod Checked
mod Witness

-- `buildOptions`; what is nil is `none`.
pub record BuildOptions (M W : Type 0) : Type 0 where
  pub model_registry : Option (String → Result String (Provider M))
  pub tool_registry : Option (String → Result String Tool)
  pub middleware_registry : Option (MiddlewareSpec → Result String W)
  pub params : List (String × Value)
  pub context_enabled : Option Bool

abbrev pub Params : Type 0
Params = List (String × Value)

-- `renderTemplate`, `renderTemplatePreservingUnknown` and `hasTemplateActions`.
pub record Templates : Type 0 where
  pub render_template : String → Params → Result String String
  pub render_preserving : String → Params → Result String String
  pub has_actions : String → Bool

pub data BuildError : Type 0 where
  invalid : SpecError → BuildError
  model_registry_required tool_registry_required middleware_registry_required : BuildError
  unresolved template_failed : String → BuildError
  not_new : NewError → BuildError
  unsupported_execution sub_agent_without_model : String → BuildError

-- An agent that `NewAgent` has made, with its middlewares and the prompt that its messages get.
pub record BuiltAgent (M W : Type 0) : Type 0 where
  pub config : AgentConfig M
  pub agent : Agent M
  pub middlewares : List W
  pub prompt : String

-- What `Build` makes: one agent, a flow, or an agent with other agents as tools. The names are
-- those of the configurations of the package flow.
pub data Built (M W : Type 0) : Type 0 where
  single : BuiltAgent M W → Built M W
  sequential_flow parallel_flow : String → String → List (BuiltAgent M W) → Built M W
  loop_flow : String → String → ℤ → List (BuiltAgent M W) → Built M W
  agent_with_tools : BuiltAgent M W → List (BuiltAgent M W) → Built M W

-- A loop that stops at the first error.
unfoldable pub each :
    {A B : Type 0} → (A → Result BuildError B) → List A → Result BuildError (List B)
each f [] = ok []
each f (a ∷ rest) = f a >>= λ b. each f rest >>= λ bs. ok (b ∷ bs)

abbrev pub as_error : {E A : Type 0} → (E → BuildError) → Result E A → Result BuildError A
as_error f (err e) = err (f e)
as_error f (ok a) = ok a

unfoldable pub resolve_with :
    {A B : Type 0} → BuildError → Option (A → Result String B) → List A → Result BuildError (List B)
unfolding each
resolve_with nil registry [] = ok []
resolve_with nil none (a ∷ rest) = err nil
resolve_with nil (some resolve) (a ∷ rest) = each (λ a. as_error unresolved (resolve a)) (a ∷ rest)

-- The prompt of a recipe, and of a sub-agent, whose unknown keys are kept.
abbrev pub build_prompt : Templates → String → Params → Result BuildError String
build_prompt t prompt params =
    if str_eq prompt "" then ok "" else as_error template_failed (t.render_template prompt params)

abbrev pub build_user_prompt : Templates → String → Params → Result BuildError String
build_user_prompt t prompt params =
    if str_eq prompt ""
    then ok ""
    else as_error template_failed (
        if t.has_actions prompt
        then t.render_preserving prompt params
        else t.render_template prompt params)

abbrev pub sub_instruction : Templates → String → Params → Result BuildError String
sub_instruction t instruction params =
    if t.has_actions instruction
    then as_error template_failed (t.render_preserving instruction params)
    else ok instruction

abbrev pub AgentOption : Type 0 → Type 0
AgentOption M = AgentConfig M → AgentConfig M

module _ {M : Type 0} where
  abbrev pub unless_empty : String → (String → AgentOption M) → List (AgentOption M)
  unless_empty text option = if str_eq text "" then [] else option text ∷ []

  abbrev pub if_positive : ℤ → List (AgentOption M)
  if_positive (pos zero) = []
  if_positive (pos (suc n)) = with_max_iterations (suc n) ∷ []
  if_positive (negsuc n) = []

  abbrev pub if_enabled : Option Bool → List (AgentOption M)
  if_enabled none = []
  if_enabled (some enabled) = with_context enabled ∷ []

  abbrev pub if_any : List Tool → List (AgentOption M)
  if_any [] = []
  if_any (t ∷ tools) = with_tools (t ∷ tools) ∷ []

  -- `agentOpts`
  unfoldable pub agent_options :
      Provider M → String → String → String → ℤ → Option Bool → List Tool → List (AgentOption M)
  agent_options model description instruction output_key max_iterations context tools =
      (with_model model ∷ [])
      ++ unless_empty description with_description
      ++ (with_instruction instruction ∷ [])
      ++ unless_empty output_key with_output_key
      ++ if_positive max_iterations
      ++ if_enabled context
      ++ if_any tools

module _ {M W : Type 0} where
  abbrev pub made :
      List W
      → String
      → Result NewError (AgentConfig M × Agent M)
      → Result BuildError (BuiltAgent M W)
  made middlewares prompt (err error) = err (not_new error)
  made middlewares prompt (ok (config, agent)) =
      ok (record { config = config; agent = agent; middlewares = middlewares; prompt = prompt })

module _ {M W : Type 0} (t : Templates) (o : BuildOptions M W)
    (resolve_model : String → Result String (Provider M)) where
  -- The end of the two functions that build an agent from the recipe itself.
  abbrev pub finish_agent :
      AgentSpec → Provider M → String → List Tool → Result BuildError (BuiltAgent M W)
  finish_agent spec model instruction tools =
      resolve_with middleware_registry_required o.middleware_registry spec.middlewares >>= λ mws.
      made mws "" (
        new_agent spec.name (
          agent_options model spec.description instruction spec.output_key spec.max_iterations
            o.context_enabled tools))

  -- `buildSingleAgent`
  unfoldable pub build_single_agent : AgentSpec → Params → Result BuildError (BuiltAgent M W)
  unfolding resolve_with agent_options new_agent
  build_single_agent spec params = as_error unresolved (resolve_model spec.model) >>= λ model.
      as_error template_failed (t.render_template spec.instruction params) >>= λ instruction.
      resolve_with tool_registry_required o.tool_registry spec.tools >>= λ tools.
      finish_agent spec model instruction tools

  abbrev pub model_name_of : SubAgentSpec → String → String
  model_name_of sub parent_model = if str_eq sub.model "" then parent_model else sub.model

  unfoldable pub build_named : String → SubAgentSpec → Params → Result BuildError (BuiltAgent M W)
  unfolding resolve_with agent_options new_agent
  build_named name sub params =
      let sub_params = resolve_params sub.parameters params in
      as_error unresolved (resolve_model name) >>= λ model.
      as_error invalid (validate_param_values (sub_agent sub.name) sub.parameters sub_params)
      >>= λ _. sub_instruction t sub.instruction sub_params >>= λ instruction.
          resolve_with tool_registry_required o.tool_registry sub.tools >>= λ tools.
          resolve_with middleware_registry_required o.middleware_registry sub.middlewares >>= λ mws.
          made mws "" (
            new_agent sub.name (
              agent_options model sub.description instruction sub.output_key sub.max_iterations
                o.context_enabled tools))
          >>= λ built. build_user_prompt t sub.prompt sub_params >>= λ prompt.
              ok (record built { prompt = prompt })

  -- `buildSubAgent`
  unfoldable pub build_sub_agent :
      String → Params → SubAgentSpec → Result BuildError (BuiltAgent M W)
  unfolding build_named
  build_sub_agent parent_model params sub =
      if str_eq (model_name_of sub parent_model) ""
      then err (sub_agent_without_model sub.name)
      else build_named (model_name_of sub parent_model) sub params

  unfoldable pub build_sub_agents : AgentSpec → Params → Result BuildError (List (BuiltAgent M W))
  unfolding each build_sub_agent
  build_sub_agents spec params = each (build_sub_agent spec.model params) spec.sub_agents

  -- `buildToolAgent`; the tools of the sub-agents are kept apart from the others.
  unfoldable pub build_tool_agent : AgentSpec → Params → Result BuildError (Built M W)
  unfolding build_sub_agents resolve_with agent_options new_agent
  build_tool_agent spec params = as_error unresolved (resolve_model spec.model) >>= λ model.
      build_sub_agents spec params >>= λ subs.
      resolve_with tool_registry_required o.tool_registry spec.tools >>= λ tools.
      as_error template_failed (t.render_template spec.instruction params) >>= λ instruction.
      finish_agent spec model instruction tools >>= λ agent. ok (agent_with_tools agent subs)

  -- The switch on the execution mode.
  unfoldable pub build_flow : AgentSpec → Params → Result BuildError (Built M W)
  unfolding build_sub_agents build_tool_agent
  build_flow spec params =
      if str_eq spec.execution sequential
      then (build_sub_agents spec params >>= λ subs.
          ok (sequential_flow spec.name spec.description subs))
      else if str_eq spec.execution parallel
      then (build_sub_agents spec params >>= λ subs.
          ok (parallel_flow spec.name spec.description subs))
      else if str_eq spec.execution loop
      then (build_sub_agents spec params >>= λ subs.
          ok (loop_flow spec.name spec.description spec.max_iterations subs))
      else if str_eq spec.execution tool
      then build_tool_agent spec params
      else err (unsupported_execution spec.execution)

  unfoldable pub build_agent : AgentSpec → Params → Result BuildError (Built M W)
  unfolding build_flow build_single_agent
  build_agent spec params =
      if no_sub_agents spec.sub_agents
      then (build_single_agent spec params >>= λ agent. ok (single agent))
      else build_flow spec params

module _ {M W : Type 0} (t : Templates) (o : BuildOptions M W) where
  abbrev pub with_registry :
      Option (String → Result String (Provider M))
      → AgentSpec
      → Result BuildError (Built M W × String)
  with_registry none spec = err model_registry_required
  with_registry (some resolve_model) spec =
      let params = resolve_params spec.parameters o.params in
      as_error invalid (validate_params (some spec) params) >>= λ _.
      build_agent t o resolve_model spec params >>= λ built.
      build_prompt t spec.prompt params >>= λ prompt. ok (built, prompt)

  -- `Build`: what is built, and the prompt that is put before its runs.
  unfoldable pub build : AgentSpec → Result BuildError (Built M W × String)
  unfolding build_agent
  build spec = as_error invalid (validate (some spec)) >>= λ _. with_registry o.model_registry spec
