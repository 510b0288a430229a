-- ===== src/Recipe/Build/Errors.antt =====
-- What the construction of an agent from a checked recipe can fail with.
use blades.Common.{
  String, str_eq, eq_iff, ◌≡◌, ◌≢◌, inl, inr, refl, Bool, true, false, Bool-cases, List, [], ◌∷◌,
  Option, none, some, Result, ok, err, ◌>>=◌, if◌then◌else◌, All, All-map,
}
use blades.Agent.Tools.{Tool}
use blades.Agent.Loop.{Provider, Agent}
use blades.Agent.New.{AgentConfig, NewError}
use blades.Recipe.Spec.{SubAgentSpec, AgentSpec, SpecError, sub_agent}
use blades.Recipe.Build.Options.{
  IsValueError, FailsByValue, validate_param_values-FailsByValue, IsMade, new_agent-IsMade,
}
use blades.Recipe.Parameters.{resolve_params}
use blades.Recipe.Build.{
  BuildOptions, Params, Templates, BuildError, invalid, model_registry_required,
  tool_registry_required, middleware_registry_required, unresolved, template_failed, not_new,
  unsupported_execution, sub_agent_without_model, each, as_error, resolve_with, build_prompt,
  build_user_prompt, sub_instruction, made, finish_agent, build_single_agent, model_name_of,
  build_named, build_sub_agent, build_sub_agents, build_tool_agent,
}

-- A value for a parameter is missing or wrong, a registry is missing or has no such name, or a
-- template fails.
abbrev pub IsOutside : BuildError → Type 0
IsOutside (unsupported_execution mode) = ⊥
IsOutside (sub_agent_without_model name) = ⊥
IsOutside (invalid error) = IsValueError error
IsOutside model_registry_required = Unit
IsOutside tool_registry_required = Unit
IsOutside middleware_registry_required = Unit
IsOutside (unresolved error) = Unit
IsOutside (template_failed error) = Unit
IsOutside (not_new error) = ⊥

-- A result, or such an error.
abbrev pub FailsOutside : {A : Type 0} → Result BuildError A → Type 0
FailsOutside (ok a) = Unit
FailsOutside (err error) = IsOutside error

pub bind-FailsOutside :
    {A B : Type 0} (r : Result BuildError A) (f : A → Result BuildError B)
    → FailsOutside r
    → ((a : A) → FailsOutside (f a))
    → FailsOutside (r >>= f)
bind-FailsOutside (err error) f h g = h
bind-FailsOutside (ok a) f h g = g a

pub as_error-FailsOutside :
    {E A : Type 0} (f : E → BuildError) (r : Result E A)
    → ((e : E) → IsOutside (f e))
    → FailsOutside (as_error f r)
as_error-FailsOutside f (err e) h = h e
as_error-FailsOutside f (ok a) h = tt

each-FailsOutside :
    {A B : Type 0} (f : A → Result BuildError B) (xs : List A)
    → All (λ a. FailsOutside (f a)) xs
    → FailsOutside (each f xs)
unfolding each
each-FailsOutside f [] h = tt
each-FailsOutside f (a ∷ xs) (now, h) =
    bind-FailsOutside (f a) (λ b. each f xs >>= λ bs. ok (b ∷ bs)) now
      (λ b. bind-FailsOutside (each f xs) (λ bs. ok (b ∷ bs)) (each-FailsOutside f xs h) (λ bs. tt))

always : {A : Type 0} {P : A → Type 0} (xs : List A) → ((a : A) → P a) → All P xs
always [] h = tt
always (a ∷ xs) h = (h a, always xs h)

resolve_with-FailsOutside :
    {A B : Type 0} (nil : BuildError) (registry : Option (A → Result String B)) (xs : List A)
    → IsOutside nil
    → FailsOutside (resolve_with nil registry xs)
unfolding resolve_with
resolve_with-FailsOutside nil registry [] h = tt
resolve_with-FailsOutside nil none (a ∷ xs) h = h
resolve_with-FailsOutside nil (some resolve) (a ∷ xs) h =
    each-FailsOutside (λ a. as_error unresolved (resolve a)) (a ∷ xs)
      (always (a ∷ xs) (λ a. as_error-FailsOutside unresolved (resolve a) (λ e. tt)))

made-FailsOutside :
    {M W : Type 0} (mws : List W) (prompt : String) (r : Result NewError (AgentConfig M × Agent M))
    → IsMade r
    → FailsOutside (made mws prompt r)
made-FailsOutside mws prompt (err error) h = h
made-FailsOutside mws prompt (ok (config, agent)) h = tt

pub checked-FailsOutside :
    (r : Result SpecError (Unit {0})) → FailsByValue r → FailsOutside (as_error invalid r)
checked-FailsOutside (ok a) h = tt
checked-FailsOutside (err error) h = h

pub prompt-FailsOutside :
    (t : Templates) (prompt : String) (params : Params)
    → FailsOutside (build_prompt t prompt params)
prompt-FailsOutside t prompt params = elim (Bool-cases (str_eq prompt "")) [
  | inl empty ↦ rw empty tt
  | inr full ↦
      rw full (as_error-FailsOutside template_failed (t.render_template prompt params) (λ e. tt))
]

user_prompt-FailsOutside :
    (t : Templates) (prompt : String) (params : Params)
    → FailsOutside (build_user_prompt t prompt params)
user_prompt-FailsOutside t prompt params = elim (Bool-cases (str_eq prompt "")) [
  | inl empty ↦ rw empty tt
  | inr full ↦ rw full (as_error-FailsOutside template_failed _ (λ e. tt))
]

sub_instruction-FailsOutside :
    (t : Templates) (instruction : String) (params : Params)
    → FailsOutside (sub_instruction t instruction params)
sub_instruction-FailsOutside t instruction params = elim (Bool-cases (t.has_actions instruction)) [
  | inl acts ↦
      rw acts
        (as_error-FailsOutside template_failed (t.render_preserving instruction params) (λ e. tt))
  | inr plain ↦ rw plain tt
]

pub if-FailsOutside :
    {A : Type 0} (b : Bool) (x y : Result BuildError A)
    → (b ≡ true → FailsOutside x)
    → (b ≡ false → FailsOutside y)
    → FailsOutside (if b then x else y)
if-FailsOutside true x y h g = h refl
if-FailsOutside false x y h g = g refl

module _ {M W : Type 0} (t : Templates) (o : BuildOptions M W)
    (resolve_model : String → Result String (Provider M)) where
  finish_agent-FailsOutside :
      (spec : AgentSpec) (model : Provider M) (instruction : String) (tools : List Tool)
      → FailsOutside (finish_agent t o resolve_model spec model instruction tools)
  finish_agent-FailsOutside spec model instruction tools =
      bind-FailsOutside _ _
        (resolve_with-FailsOutside middleware_registry_required o.middleware_registry
          spec.middlewares tt)
        (λ mws. made-FailsOutside mws "" _ (
          new_agent-IsMade M spec.name model spec.description instruction spec.output_key
            spec.max_iterations o.context_enabled tools))

  pub build_single_agent-FailsOutside :
      (spec : AgentSpec) (params : Params)
      → FailsOutside (build_single_agent t o resolve_model spec params)
  unfolding build_single_agent
  build_single_agent-FailsOutside spec params =
      bind-FailsOutside _ _ (as_error-FailsOutside unresolved (resolve_model spec.model) (λ e. tt))
        (λ model.
          bind-FailsOutside _ _
            (as_error-FailsOutside template_failed (t.render_template spec.instruction params)
              (λ e. tt))
            (λ instruction.
              bind-FailsOutside _ _
                (resolve_with-FailsOutside tool_registry_required o.tool_registry spec.tools tt)
                (λ tools. finish_agent-FailsOutside spec model instruction tools)))

  build_named-FailsOutside :
      (name : String) (sub : SubAgentSpec) (params : Params)
      → FailsOutside (build_named t o resolve_model name sub params)
  unfolding build_named
  build_named-FailsOutside name sub params =
      let sub_params = resolve_params sub.parameters params in
      bind-FailsOutside _ _ (as_error-FailsOutside unresolved (resolve_model name) (λ e. tt))
        (λ model.
          bind-FailsOutside _ _
            (checked-FailsOutside _
              (validate_param_values-FailsByValue (sub_agent sub.name) sub.parameters sub_params))
            (λ checked.
              bind-FailsOutside _ _ (sub_instruction-FailsOutside t sub.instruction sub_params)
                (λ instruction.
                  bind-FailsOutside _ _
                    (resolve_with-FailsOutside tool_registry_required o.tool_registry sub.tools tt)
                    (λ tools.
                      bind-FailsOutside _ _
                        (resolve_with-FailsOutside middleware_registry_required
                          o.middleware_registry sub.middlewares tt)
                        (λ mws.
                          bind-FailsOutside _ _
                            (made-FailsOutside mws "" _ (
                              new_agent-IsMade M sub.name model sub.description instruction
                                sub.output_key sub.max_iterations o.context_enabled tools))
                            (λ built.
                              bind-FailsOutside _ _
                                (user_prompt-FailsOutside t sub.prompt sub_params)
                                (λ prompt. tt)))))))

  -- A sub-agent has a model of its own or the recipe's.
  abbrev pub HasModel : AgentSpec → SubAgentSpec → Type 0
  HasModel spec sub = model_name_of t o resolve_model sub spec.model ≢ ""

  pub build_sub_agents-FailsOutside :
      (spec : AgentSpec) (params : Params)
      → All (HasModel spec) spec.sub_agents
      → FailsOutside (build_sub_agents t o resolve_model spec params)
  unfolding build_sub_agents build_sub_agent
  build_sub_agents-FailsOutside spec params models =
      each-FailsOutside (build_sub_agent t o resolve_model spec.model params) spec.sub_agents (
        All-map (HasModel spec)
          (λ sub. FailsOutside (build_sub_agent t o resolve_model spec.model params sub))
          spec.sub_agents by_model models)
    where
      by_model :
          (sub : SubAgentSpec)
          → HasModel spec sub
          → FailsOutside (build_sub_agent t o resolve_model spec.model params sub)
      by_model sub model =
          elim (Bool-cases (str_eq (model_name_of t o resolve_model sub spec.model) "")) [
            | inl none_given ↦
                absurd (
                  model ((eq_iff (model_name_of t o resolve_model sub spec.model) "").0 none_given))
            | inr given ↦
                rw (build_sub_agent, given)
                  (build_named-FailsOutside (model_name_of t o resolve_model sub spec.model) sub
                    params)
          ]

  pub build_tool_agent-FailsOutside :
      (spec : AgentSpec) (params : Params)
      → All (HasModel spec) spec.sub_agents
      → FailsOutside (build_tool_agent t o resolve_model spec params)
  unfolding build_tool_agent
  build_tool_agent-FailsOutside spec params models =
      bind-FailsOutside _ _ (as_error-FailsOutside unresolved (resolve_model spec.model) (λ e. tt))
        (λ model. bind-FailsOutside _ _ (build_sub_agents-FailsOutside spec params models) (λ subs.
          bind-FailsOutside _ _
            (resolve_with-FailsOutside tool_registry_required o.tool_registry spec.tools tt)
            (λ tools.
              bind-FailsOutside _ _
                (as_error-FailsOutside template_failed (t.render_template spec.instruction params)
                  (λ e. tt))
                (λ instruction.
                  bind-FailsOutside _ _ (finish_agent-FailsOutside spec model instruction tools)
                    (λ agent. tt)))))
