-- ===== src/Recipe/Validate.antt =====
-- recipe/validate.go: `Validate` and the checks of middlewares, contexts, tools and sub-agents.
use blades.Common.{
  ℕ, zero, suc, String, str_eq, Bool, true, false, not, ◌&&◌, ◌||◌, List, [], ◌∷◌, Option, none,
  some, Result, ok, err, guard, ◌>>◌, ◌>>=◌, if◌then◌else◌,
}
use blades.Common.StringMap.{insert, get_or}
use blades.Recipe.Spec.{
  ℤ, pos, negsuc, Value, sequential, parallel, loop, tool, strategy_summarize, strategy_window,
  ContextSpec, MiddlewareSpec, SubAgentSpec, AgentSpec, Scope, recipe, sub_agent, SpecError,
  spec_required, version_required, name_required, instruction_required, model_required,
  execution_required, tool_model_required, invalid_execution, output_key_unsupported,
  max_iterations_unsupported, wrapped, in_context, middleware_unnamed, duplicate_middleware,
  tool_unnamed, duplicate_tool, strategy_required, max_tokens_negative, unknown_strategy,
  sub_agent_unnamed, sub_agent_instruction, duplicate_sub_agent, tool_conflict, sub_output_key,
  sub_model_required,
}
use blades.Recipe.Parameters.{validate_parameters, validate_param_values}

abbrev pub Checked : Type 0
Checked = Result SpecError (Unit {0})

-- `fmt.Errorf("…: %w", err)`
abbrev pub wrap : (SpecError → SpecError) → Checked → Checked
wrap f (err error) = err (f error)
wrap f (ok _) = ok tt

unfoldable pub middlewares_loop : Scope → List (String × Bool) → ℕ → List MiddlewareSpec → Checked
middlewares_loop scope seen i [] = ok tt
middlewares_loop scope seen i (mw ∷ specs) = do
  guard (not (str_eq mw.name "")) (middleware_unnamed scope i)
  guard (not (get_or false mw.name seen)) (duplicate_middleware scope mw.name)
  middlewares_loop scope (insert mw.name true seen) (suc i) specs

unfoldable pub validate_middlewares : Scope → List MiddlewareSpec → Checked
validate_middlewares scope specs = middlewares_loop scope [] 0 specs

abbrev pub is_negative : ℤ → Bool
is_negative (pos _) = false
is_negative (negsuc _) = true

abbrev pub is_positive : ℤ → Bool
is_positive (pos zero) = false
is_positive (pos (suc _)) = true
is_positive (negsuc _) = false

unfoldable pub validate_context_spec : Option ContextSpec → Checked
validate_context_spec none = ok tt
validate_context_spec (some spec) =
    if str_eq spec.strategy strategy_summarize || str_eq spec.strategy strategy_window
    then guard (not (is_negative spec.max_tokens)) max_tokens_negative
    else if str_eq spec.strategy ""
    then err strategy_required
    else err (unknown_strategy spec.strategy)

-- The names that have been seen are returned.
unfoldable pub tools_loop :
    Scope → List (String × Bool) → List String → Result SpecError (List (String × Bool))
tools_loop scope seen [] = ok seen
tools_loop scope seen (t ∷ names) = guard (not (str_eq t "")) (tool_unnamed scope t) >>= λ _.
    guard (not (get_or false t seen)) (duplicate_tool scope t) >>= λ _.
    tools_loop scope (insert t true seen) names

unfoldable pub validate_tool_names : Scope → List String → Result SpecError (List (String × Bool))
validate_tool_names scope names = tools_loop scope [] names

unfoldable pub validate_sub_agent : SubAgentSpec → ℕ → Checked
validate_sub_agent sub index = do
  guard (not (str_eq sub.name "")) (sub_agent_unnamed index)
  guard (not (str_eq sub.instruction "")) (sub_agent_instruction sub.name)
  wrap (wrapped (sub_agent sub.name)) (validate_parameters sub.parameters)
  validate_tool_names (sub_agent sub.name) sub.tools >>= λ _. ok tt
  wrap (λ e. wrapped (sub_agent sub.name) (in_context e)) (validate_context_spec sub.context)
  validate_middlewares (sub_agent sub.name) sub.middlewares

abbrev pub no_sub_agents : List SubAgentSpec → Bool
no_sub_agents [] = true
no_sub_agents (_ ∷ _) = false

-- `spec.Execution` is sequential, parallel or loop.
abbrev pub is_flow : AgentSpec → Bool
is_flow spec =
    str_eq spec.execution sequential
    || (str_eq spec.execution parallel || str_eq spec.execution loop)

-- The tests on the fields, down to the model of the tool mode.
unfoldable pub check_fields : AgentSpec → Checked
check_fields spec = do
  guard (not (str_eq spec.version "")) version_required
  guard (not (str_eq spec.name "")) name_required
  guard (not (str_eq spec.instruction "") || is_flow spec) instruction_required
  guard (not (no_sub_agents spec.sub_agents && str_eq spec.model "")) model_required
  guard (not (not (no_sub_agents spec.sub_agents) && str_eq spec.execution "")) execution_required
  guard (str_eq spec.execution "" || (is_flow spec || str_eq spec.execution tool))
      (invalid_execution spec.execution)
  guard (not (str_eq spec.execution tool && str_eq spec.model "")) tool_model_required

-- The tests on the fields that a mode does not support.
unfoldable pub check_mode : AgentSpec → Checked
check_mode spec =
    let both = str_eq spec.execution sequential || str_eq spec.execution parallel in
    do
      guard (not (both && not (str_eq spec.output_key ""))) (output_key_unsupported spec.name)
      guard (not (both && is_positive spec.max_iterations)) (max_iterations_unsupported spec.name)
      guard (not (str_eq spec.execution loop && not (str_eq spec.output_key "")))
          (output_key_unsupported spec.name)

-- What the body of the loop tests of a sub-agent beside the names seen so far.
unfoldable pub check_sub_agent : AgentSpec → List (String × Bool) → SubAgentSpec → Checked
check_sub_agent spec tool_names sub = do
  guard (not (str_eq spec.execution tool && get_or false sub.name tool_names))
      (tool_conflict sub.name)
  guard (not (str_eq spec.execution tool && not (str_eq sub.output_key "")))
      (sub_output_key sub.name)
  guard (not (is_flow spec && (str_eq spec.model "" && str_eq sub.model "")))
      (sub_model_required sub.name)

unfoldable pub sub_agents_loop :
    AgentSpec → List (String × Bool) → List (String × Bool) → ℕ → List SubAgentSpec → Checked
sub_agents_loop spec tool_names sub_names i [] = ok tt
sub_agents_loop spec tool_names sub_names i (sub ∷ subs) = do
  wrap (wrapped (recipe spec.name)) (validate_sub_agent sub i)
  guard (not (get_or false sub.name sub_names))
      (wrapped (recipe spec.name) (duplicate_sub_agent sub.name))
  wrap (wrapped (recipe spec.name)) (check_sub_agent spec tool_names sub)
  sub_agents_loop spec tool_names (insert sub.name true sub_names) (suc i) subs

-- `Validate`; a nil pointer is `none`.
unfoldable pub validate : Option AgentSpec → Checked
validate none = err spec_required
validate (some spec) = do
  check_fields spec
  check_mode spec
  wrap (wrapped (recipe spec.name)) (validate_parameters spec.parameters)
  wrap (λ e. wrapped (recipe spec.name) (in_context e)) (validate_context_spec spec.context)
  validate_middlewares (recipe spec.name) spec.middlewares
  validate_tool_names (recipe spec.name) spec.tools >>= λ tool_names.
      sub_agents_loop spec tool_names [] 0 spec.sub_agents

unfoldable pub validate_params : Option AgentSpec → List (String × Value) → Checked
validate_params none params = err spec_required
validate_params (some spec) params = validate_param_values (recipe spec.name) spec.parameters params
