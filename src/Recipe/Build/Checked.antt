-- ===== src/Recipe/Build/Checked.antt =====
-- The construction of an agent from a recipe that `Validate` accepts.
use blades.Common.{
  String, str_eq, eq_iff, ◌≡◌, ◌≢◌, ◌⊎◌, inl, inr, false, Bool-cases, [], Option, none, some,
  Result, ok, arith, All, All-map,
}
use blades.Agent.Loop.{Provider}
use blades.Recipe.Spec.{SubAgentSpec, AgentSpec, recipe}
use blades.Recipe.Parameters.{resolve_params}
use blades.Recipe.Validate.{validate, validate_params, no_sub_agents}
use blades.Recipe.Correct.Whole.{IsRecipe, IsFlow, FitsRecipe, IsSubAgent, validate-IsRecipe}
use blades.Recipe.Build.{
  BuildOptions, Params, Templates, build_flow, build_agent, with_registry, build,
}
use blades.Recipe.Build.Options.{validate_param_values-FailsByValue}
use blades.Recipe.Build.Errors.{
  FailsOutside, HasModel, bind-FailsOutside, checked-FailsOutside, prompt-FailsOutside,
  if-FailsOutside, build_single_agent-FailsOutside, build_sub_agents-FailsOutside,
  build_tool_agent-FailsOutside,
}

-- One of the four modes is set.
unknown_mode :
    (spec : AgentSpec)
    → IsFlow spec ⊎ (spec.execution ≡ "tool")
    → str_eq spec.execution "sequential" ≡ false
    → str_eq spec.execution "parallel" ≡ false
    → str_eq spec.execution "loop" ≡ false
    → str_eq spec.execution "tool" ≡ false
    → ⊥
unknown_mode spec known a b c d = absurd (
    ground (
      arith,
      known,
      a,
      b,
      c,
      d,
      eq_iff spec.execution "sequential",
      eq_iff spec.execution "parallel",
      eq_iff spec.execution "loop",
      eq_iff spec.execution "tool",
    ))

known_mode :
    (spec : AgentSpec)
    → IsRecipe spec
    → no_sub_agents spec.sub_agents ≡ false
    → IsFlow spec ⊎ (spec.execution ≡ "tool")
known_mode spec is_recipe several = by_modes is_recipe.fields.mode_set is_recipe.fields.mode_known
  where
    by_modes :
        (spec.sub_agents ≡ []) ⊎ (spec.execution ≢ "")
        → (spec.execution ≡ "") ⊎ (IsFlow spec ⊎ (spec.execution ≡ "tool"))
        → IsFlow spec ⊎ (spec.execution ≡ "tool")
    by_modes (inl alone) known = absurd (cc)
    by_modes (inr set) (inl unset) = absurd (set unset)
    by_modes (inr set) (inr known) = known

module _ {M W : Type 0} (t : Templates) (o : BuildOptions M W)
    (resolve_model : String → Result String (Provider M)) where
  build_flow-FailsOutside :
      (spec : AgentSpec) (params : Params)
      → All (HasModel t o resolve_model spec) spec.sub_agents
      → IsFlow spec ⊎ (spec.execution ≡ "tool")
      → FailsOutside (build_flow t o resolve_model spec params)
  unfolding build_flow
  build_flow-FailsOutside spec params models known =
      if-FailsOutside (str_eq spec.execution "sequential") _ _
        (λ yes.
          bind-FailsOutside _ _ (build_sub_agents-FailsOutside t o resolve_model spec params models)
            (λ subs. tt))
        (λ not_sequential.
          if-FailsOutside (str_eq spec.execution "parallel") _ _
            (λ yes.
              bind-FailsOutside _ _
                (build_sub_agents-FailsOutside t o resolve_model spec params models) (λ subs. tt))
            (λ not_parallel.
              if-FailsOutside (str_eq spec.execution "loop") _ _
                (λ yes.
                  bind-FailsOutside _ _
                    (build_sub_agents-FailsOutside t o resolve_model spec params models)
                    (λ subs. tt))
                (λ not_loop.
                  if-FailsOutside (str_eq spec.execution "tool") _ _
                    (λ yes. build_tool_agent-FailsOutside t o resolve_model spec params models)
                    (λ not_tool.
                      unknown_mode spec known not_sequential not_parallel not_loop not_tool))))

  build_agent-FailsOutside :
      (spec : AgentSpec) (params : Params)
      → IsRecipe spec
      → FailsOutside (build_agent t o resolve_model spec params)
  unfolding build_agent
  build_agent-FailsOutside spec params is_recipe =
      if-FailsOutside (no_sub_agents spec.sub_agents) _ _
        (λ alone.
          bind-FailsOutside _ _ (build_single_agent-FailsOutside t o resolve_model spec params)
            (λ agent. tt))
        (λ several.
          build_flow-FailsOutside spec params (models several) (known_mode spec is_recipe several))
    where
      has_model :
          (sub : SubAgentSpec)
          → IsFlow spec ⊎ (spec.execution ≡ "tool")
          → FitsRecipe spec sub
          → HasModel t o resolve_model spec sub
      has_model sub known fits same = elim (Bool-cases (str_eq sub.model "")) [
        | inr own ↦ absurd (ground (arith, own, eq_iff sub.model "", rw own at same))
        | inl none_own ↦ by_mode known ((eq_iff sub.model "").0 none_own) (rw none_own at same)
      ]
        where
          by_model : sub.model ≡ "" → (spec.model ≢ "") ⊎ (sub.model ≢ "") → spec.model ≡ "" → ⊥
          by_model empty (inl given) none_given = given none_given
          by_model empty (inr given) none_given = given empty

          by_tool :
              spec.execution ≡ "tool"
              → (spec.execution ≢ "tool") ⊎ (spec.model ≢ "")
              → spec.model ≡ ""
              → ⊥
          by_tool mode (inl other) none_given = other mode
          by_tool mode (inr given) none_given = given none_given

          by_mode : IsFlow spec ⊎ (spec.execution ≡ "tool") → sub.model ≡ "" → spec.model ≡ "" → ⊥
          by_mode (inl flow) empty none_given = by_model empty (fits.has_model flow) none_given
          by_mode (inr mode) empty none_given =
              by_tool mode is_recipe.fields.tool_modelled none_given

      models :
          no_sub_agents spec.sub_agents ≡ false
          → All (HasModel t o resolve_model spec) spec.sub_agents
      models several =
          All-map (λ sub. IsSubAgent sub × FitsRecipe spec sub) (HasModel t o resolve_model spec)
            spec.sub_agents (λ sub fits. has_model sub (known_mode spec is_recipe several) fits.1)
            is_recipe.sub_agents.0

module _ {M W : Type 0} (t : Templates) (o : BuildOptions M W) where
  -- Of a recipe that `Validate` accepts, `Build` makes an agent, or it fails because a value for a
  -- parameter is missing or wrong, a registry is missing or fails, or a template fails: it never
  -- finds the execution mode unsupported, nor a sub-agent or an agent without a model, nor another
  -- fault of the recipe.
  pub build-FailsOutside :
      (spec : AgentSpec) → validate (some spec) ≡ ok tt → FailsOutside (build t o spec)
  unfolding build validate_params
  build-FailsOutside spec valid = rw (build, valid) (by_registry o.model_registry)
    where
      by_registry :
          (registry : Option (String → Result String (Provider M)))
          → FailsOutside (with_registry t o registry spec)
      by_registry none = tt
      by_registry (some resolve_model) =
          let params = resolve_params spec.parameters o.params in
          bind-FailsOutside _ _
            (checked-FailsOutside (validate_params (some spec) params)
              (validate_param_values-FailsByValue (recipe spec.name) spec.parameters params))
            (λ checked.
              bind-FailsOutside _ _
                (build_agent-FailsOutside t o resolve_model spec params
                  ((validate-IsRecipe spec).0 valid))
                (λ built.
                  bind-FailsOutside _ _ (prompt-FailsOutside t spec.prompt params) (λ prompt. tt)))
