-- ===== src/Recipe/Correct/Whole.antt =====
-- What `Validate` accepts.
use blades.Common.{
  ℕ, suc, String, eq_iff, ◌≡◌, ◌≢◌, ◌↔◌, ◌⊎◌, refl, Bool, true, false, List, [], ◌∷◌, Option, none,
  some, ok, err, arith, All,
}
use blades.Common.StringMap.{insert, get_or}
use blades.Recipe.Spec.{
  ContextSpec, ParameterSpec, SubAgentSpec, AgentSpec, Scope, sub_agent, recipe, SpecError,
}
use blades.Recipe.Validate.{
  is_negative, is_positive, is_flow, no_sub_agents, validate_context_spec, validate_tool_names,
  validate_sub_agent, check_fields, check_mode, check_sub_agent, sub_agents_loop, validate,
}
use blades.Recipe.Correct.Names.{
  IsDistinct, IsFresh, HasNames, middleware_names, tool_set, unseen_insert_iff, nothing_seen,
  absent_iff, tools_loop-cases, validate_middlewares_iff, validate_tool_names_iff,
}
use blades.Recipe.Correct.Parameters.{IsParameter, parameter_names, validate_parameters_iff}

abbrev pub IsContext : Option ContextSpec → Type 0
IsContext none = Unit {0}
IsContext (some spec) =
    ((spec.strategy ≡ "summarize") ⊎ (spec.strategy ≡ "window"))
    × (is_negative spec.max_tokens ≡ false)

validate_context_spec_iff :
    (context : Option ContextSpec) → (validate_context_spec context ≡ ok tt) ↔ IsContext context
unfolding validate_context_spec
validate_context_spec_iff none = (λ e. tt, λ h. refl)
validate_context_spec_iff (some spec) =
    ground (arith, eq_iff spec.strategy "summarize", eq_iff spec.strategy "window")

abbrev pub HasParameters : List ParameterSpec → Type 0
HasParameters params = All IsParameter params × IsDistinct (parameter_names params)

-- A sub-agent by itself.
pub record IsSubAgent (sub : SubAgentSpec) : Type 0 where
  pub named : sub.name ≢ ""
  pub instructed : sub.instruction ≢ ""
  pub parameters : HasParameters sub.parameters
  pub tools : HasNames sub.tools
  pub context : IsContext sub.context
  pub middlewares : HasNames (middleware_names sub.middlewares)

tools_checked :
    (scope : Scope) (names : List String)
    → (validate_tool_names scope names ≡ ok (tool_set [] names))
      ⊎ ((e : SpecError) × (validate_tool_names scope names ≡ err e))
unfolding validate_tool_names
tools_checked scope names = tools_loop-cases scope [] names

validate_sub_agent_iff :
    (sub : SubAgentSpec) (i : ℕ) → (validate_sub_agent sub i ≡ ok tt) ↔ IsSubAgent sub
unfolding validate_sub_agent
validate_sub_agent_iff sub i = ground (
  arith,
  eq_iff sub.name "",
  eq_iff sub.instruction "",
  validate_parameters_iff sub.parameters,
  validate_tool_names_iff (sub_agent sub.name) sub.tools,
  tools_checked (sub_agent sub.name) sub.tools,
  validate_context_spec_iff sub.context,
  validate_middlewares_iff (sub_agent sub.name) sub.middlewares,
)

abbrev pub IsFlow : AgentSpec → Type 0
IsFlow spec =
    (spec.execution ≡ "sequential") ⊎ ((spec.execution ≡ "parallel") ⊎ (spec.execution ≡ "loop"))

is_flow_iff : (spec : AgentSpec) → (is_flow spec ≡ true) ↔ IsFlow spec
is_flow_iff spec = ground (
  arith,
  eq_iff spec.execution "sequential",
  eq_iff spec.execution "parallel",
  eq_iff spec.execution "loop",
)

no_sub_agents_iff : (subs : List SubAgentSpec) → (no_sub_agents subs ≡ true) ↔ (subs ≡ [])
no_sub_agents_iff [] = ground arith
no_sub_agents_iff (sub ∷ subs) = ground arith

-- The fields that `Validate` requires.
pub record HasFields (spec : AgentSpec) : Type 0 where
  pub versioned : spec.version ≢ ""
  pub named : spec.name ≢ ""
  pub instructed : (spec.instruction ≢ "") ⊎ IsFlow spec
  pub modelled : (spec.sub_agents ≢ []) ⊎ (spec.model ≢ "")
  pub mode_set : (spec.sub_agents ≡ []) ⊎ (spec.execution ≢ "")
  pub mode_known : (spec.execution ≡ "") ⊎ (IsFlow spec ⊎ (spec.execution ≡ "tool"))
  pub tool_modelled : (spec.execution ≢ "tool") ⊎ (spec.model ≢ "")

check_fields_iff : (spec : AgentSpec) → (check_fields spec ≡ ok tt) ↔ HasFields spec
unfolding check_fields
check_fields_iff spec = ground (
  arith,
  eq_iff spec.version "",
  eq_iff spec.name "",
  eq_iff spec.instruction "",
  eq_iff spec.model "",
  eq_iff spec.execution "",
  eq_iff spec.execution "tool",
  is_flow_iff spec,
  no_sub_agents_iff spec.sub_agents,
)

-- A flow stores no output, and only a loop bounds its iterations.
pub record FitsMode (spec : AgentSpec) : Type 0 where
  pub no_output : IsFlow spec → spec.output_key ≡ ""
  pub no_bound :
      (spec.execution ≡ "sequential") ⊎ (spec.execution ≡ "parallel")
      → is_positive spec.max_iterations ≡ false

check_mode_iff : (spec : AgentSpec) → (check_mode spec ≡ ok tt) ↔ FitsMode spec
unfolding check_mode
check_mode_iff spec = ground (
  arith,
  eq_iff spec.execution "sequential",
  eq_iff spec.execution "parallel",
  eq_iff spec.execution "loop",
  eq_iff spec.output_key "",
)

-- A sub-agent in its recipe.
pub record FitsRecipe (spec : AgentSpec) (sub : SubAgentSpec) : Type 0 where
  pub no_conflict : spec.execution ≡ "tool" → All (λ t. t ≢ sub.name) spec.tools
  pub no_output : spec.execution ≡ "tool" → sub.output_key ≡ ""
  pub has_model : IsFlow spec → (spec.model ≢ "") ⊎ (sub.model ≢ "")

in_no_set : (n : String) → get_or false n [] ≡ false
unfolding get_or
in_no_set n = refl

check_sub_agent_iff :
    (spec : AgentSpec) (sub : SubAgentSpec)
    → (check_sub_agent spec (tool_set [] spec.tools) sub ≡ ok tt) ↔ FitsRecipe spec sub
unfolding check_sub_agent
check_sub_agent_iff spec sub = ground (
  arith,
  eq_iff spec.execution "tool",
  eq_iff sub.output_key "",
  eq_iff spec.model "",
  eq_iff sub.model "",
  is_flow_iff spec,
  absent_iff sub.name [] spec.tools,
  in_no_set sub.name,
)

abbrev pub sub_names : List SubAgentSpec → List String
sub_names [] = []
sub_names (sub ∷ subs) = sub.name ∷ sub_names subs

abbrev pub HasSubAgents : AgentSpec → List SubAgentSpec → Type 0
HasSubAgents spec subs =
    All (λ sub. IsSubAgent sub × FitsRecipe spec sub) subs × IsDistinct (sub_names subs)

sub_agents_loop_iff :
    (spec : AgentSpec) (seen : List (String × Bool)) (i : ℕ) (subs : List SubAgentSpec)
    → (sub_agents_loop spec (tool_set [] spec.tools) seen i subs ≡ ok tt)
      ↔ (HasSubAgents spec subs × IsFresh seen (sub_names subs))
unfolding sub_agents_loop
sub_agents_loop_iff spec seen i [] = (λ e. ((tt, tt), tt), λ h. refl)
sub_agents_loop_iff spec seen i (sub ∷ subs) = ground (
  arith,
  validate_sub_agent_iff sub i,
  check_sub_agent_iff spec sub,
  sub_agents_loop_iff spec (insert sub.name true seen) (suc i) subs,
  unseen_insert_iff sub.name seen (sub_names subs),
)

-- A recipe that can be built.
pub record IsRecipe (spec : AgentSpec) : Type 0 where
  pub fields : HasFields spec
  pub mode : FitsMode spec
  pub parameters : HasParameters spec.parameters
  pub context : IsContext spec.context
  pub middlewares : HasNames (middleware_names spec.middlewares)
  pub tools : HasNames spec.tools
  pub sub_agents : HasSubAgents spec spec.sub_agents

-- `Validate` accepts exactly the recipes whose fields suit each other and the execution mode, with
-- well-formed parameters, contexts, tools, middlewares and sub-agents, and different names.
pub validate-IsRecipe : (spec : AgentSpec) → (validate (some spec) ≡ ok tt) ↔ IsRecipe spec
unfolding validate
validate-IsRecipe spec = ground (
  arith,
  check_fields_iff spec,
  check_mode_iff spec,
  validate_parameters_iff spec.parameters,
  validate_context_spec_iff spec.context,
  validate_middlewares_iff (recipe spec.name) spec.middlewares,
  validate_tool_names_iff (recipe spec.name) spec.tools,
  tools_checked (recipe spec.name) spec.tools,
  sub_agents_loop_iff spec [] 0 spec.sub_agents,
  nothing_seen (sub_names spec.sub_agents),
)
