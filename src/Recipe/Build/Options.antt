-- ===== src/Recipe/Build/Options.antt =====
-- The errors of the values for parameters, and the model in the options of NewAgent.
use blades.Common.{
  String, str_eq, ◌≡◌, refl, ◌∙◌, Bool, true, false, not, Bool-cases, inl, inr, List, [], ◌∷◌, ◌++◌,
  Option, none, some, ℤ, pos, negsuc, zero, suc, Result, ok, err, guard, ◌>>◌, if◌then◌else◌, All,
  All-append, apply_options,
}
use blades.Common.StringMap.{lookup}
use blades.Agent.Tools.{Tool}
use blades.Agent.Loop.{Provider}
use blades.Agent.New.{
  AgentConfig, NewError, with_model, with_description, with_instruction, with_output_key,
  with_tools, with_max_iterations, with_context, initial, require_model, new_agent,
}
use blades.Recipe.Spec.{
  Value, string_value, number_value, boolean_value, other_value, ParameterSpec, Scope, SpecError,
  not_string, not_number, not_boolean, not_select_string, not_an_option, required_missing,
  parameter_string, parameter_number, parameter_boolean, parameter_select, parameter_required,
}
use blades.Recipe.Parameters.{
  contains, is_string, is_number, is_boolean, check_select, validate_param_type, check_value,
  validate_param_values,
}
use blades.Recipe.Build.{unless_empty, if_positive, if_enabled, if_any, agent_options}

-- A value has the wrong type, is none of the options, or is missing.
abbrev pub IsValueError : SpecError → Type 0
IsValueError (not_string scope name) = Unit
IsValueError (not_number scope name) = Unit
IsValueError (not_boolean scope name) = Unit
IsValueError (not_select_string scope name) = Unit
IsValueError (not_an_option scope name s) = Unit
IsValueError (required_missing scope name) = Unit
IsValueError _ = ⊥

abbrev pub FailsByValue : {A : Type 0} → Result SpecError A → Type 0
FailsByValue (ok a) = Unit
FailsByValue (err error) = IsValueError error

guard-FailsByValue :
    (b : Bool) (error : SpecError) → IsValueError error → FailsByValue (guard b error)
guard-FailsByValue true error h = tt
guard-FailsByValue false error h = h

then-FailsByValue :
    (r s : Result SpecError (Unit {0})) → FailsByValue r → FailsByValue s → FailsByValue (r >> s)
then-FailsByValue (ok a) s h g = g
then-FailsByValue (err error) s h g = h

if-FailsByValue :
    (b : Bool) (r s : Result SpecError (Unit {0}))
    → FailsByValue r
    → FailsByValue s
    → FailsByValue (if b then r else s)
if-FailsByValue true r s h g = h
if-FailsByValue false r s h g = g

check_select-FailsByValue :
    (scope : Scope) (p : ParameterSpec) (val : Value) → FailsByValue (check_select scope p val)
unfolding check_select
check_select-FailsByValue scope p (string_value s) =
    guard-FailsByValue (contains p.options s) (not_an_option scope p.name s) tt
check_select-FailsByValue scope p (number_value _) = tt
check_select-FailsByValue scope p (boolean_value _) = tt
check_select-FailsByValue scope p (other_value _) = tt

validate_param_type-FailsByValue :
    (scope : Scope) (p : ParameterSpec) (val : Value)
    → FailsByValue (validate_param_type scope p val)
unfolding validate_param_type
validate_param_type-FailsByValue scope p val =
    if-FailsByValue (str_eq p.type_name parameter_string) _ _
      (guard-FailsByValue (is_string val) _ tt)
      (if-FailsByValue (str_eq p.type_name parameter_number) _ _
        (guard-FailsByValue (is_number val) _ tt)
        (if-FailsByValue (str_eq p.type_name parameter_boolean) _ _
          (guard-FailsByValue (is_boolean val) _ tt)
          (if-FailsByValue (str_eq p.type_name parameter_select) _ _
            (check_select-FailsByValue scope p val) tt)))

check_value-FailsByValue :
    (scope : Scope) (p : ParameterSpec) (val : Option Value)
    → FailsByValue (check_value scope p val)
unfolding check_value
check_value-FailsByValue scope p (some val) = validate_param_type-FailsByValue scope p val
check_value-FailsByValue scope p none = by_default p.default
  where
    by_default :
        (default : Option Value)
        → FailsByValue (elim default as (λ _. Result SpecError (Unit {0})) [
          | some _ ↦ ok tt
          | none ↦
              guard (not (str_eq p.required parameter_required)) (required_missing scope p.name)
        ])
    by_default (some val) = tt
    by_default none = guard-FailsByValue (not (str_eq p.required parameter_required)) _ tt

pub validate_param_values-FailsByValue :
    (scope : Scope) (specs : List ParameterSpec) (params : List (String × Value))
    → FailsByValue (validate_param_values scope specs params)
unfolding validate_param_values
validate_param_values-FailsByValue scope [] params = tt
validate_param_values-FailsByValue scope (p ∷ specs) params =
    then-FailsByValue _ _ (check_value-FailsByValue scope p (lookup p.name params))
      (validate_param_values-FailsByValue scope specs params)

-- `NewAgent` makes an agent.
abbrev pub IsMade : {A : Type 0} → Result NewError A → Type 0
IsMade (ok a) = Unit
IsMade (err error) = ⊥

module _ (M : Type 0) where
  abbrev KeepsModel : (AgentConfig M → AgentConfig M) → Type 0
  KeepsModel option = (a : AgentConfig M) → (option a).model ≡ a.model

  apply_options-KeepsModel :
      (opts : List (AgentConfig M → AgentConfig M)) (a : AgentConfig M)
      → All KeepsModel opts
      → (apply_options opts a).model ≡ a.model
  unfolding apply_options
  apply_options-KeepsModel [] a h = refl
  apply_options-KeepsModel (option ∷ opts) a (keeps, h) =
      apply_options-KeepsModel opts (option a) h ∙ keeps a

  unless_empty-KeepsModel :
      (text : String) (option : String → AgentConfig M → AgentConfig M)
      → KeepsModel (option text)
      → All KeepsModel (unless_empty text option)
  unless_empty-KeepsModel text option keeps = elim (Bool-cases (str_eq text "")) [
    | inl empty ↦ rw empty tt
    | inr full ↦ rw full (keeps, tt)
  ]

  if_positive-KeepsModel : (n : ℤ) → All KeepsModel (if_positive {M = M} n)
  unfolding with_max_iterations
  if_positive-KeepsModel (pos zero) = tt
  if_positive-KeepsModel (pos (suc n)) = ((λ a. refl), tt)
  if_positive-KeepsModel (negsuc n) = tt

  if_enabled-KeepsModel : (context : Option Bool) → All KeepsModel (if_enabled {M = M} context)
  unfolding with_context
  if_enabled-KeepsModel none = tt
  if_enabled-KeepsModel (some enabled) = ((λ a. refl), tt)

  if_any-KeepsModel : (tools : List Tool) → All KeepsModel (if_any {M = M} tools)
  unfolding with_tools
  if_any-KeepsModel [] = tt
  if_any-KeepsModel (t ∷ tools) = ((λ a. refl), tt)

  agent_options-model :
      (model : Provider M) (description instruction output_key : String) (max_iterations : ℤ)
      (context : Option Bool) (tools : List Tool) (a : AgentConfig M)
      → (apply_options
          (agent_options model description instruction output_key max_iterations context tools)
          a).model
        ≡ some model
  unfolding apply_options agent_options with_model with_description with_instruction with_output_key
  agent_options-model model description instruction output_key max_iterations context tools a =
      apply_options-KeepsModel tail (with_model model a) (
        All-append KeepsModel _ (if_any tools)
          (All-append KeepsModel _ (if_enabled context)
            (All-append KeepsModel _ (if_positive max_iterations)
              (All-append KeepsModel _ (unless_empty output_key with_output_key)
                (All-append KeepsModel (unless_empty description with_description)
                  (with_instruction instruction ∷ [])
                  (unless_empty-KeepsModel description with_description (λ a. refl))
                  ((λ a. refl), tt))
                (unless_empty-KeepsModel output_key with_output_key (λ a. refl)))
              (if_positive-KeepsModel max_iterations))
            (if_enabled-KeepsModel context))
          (if_any-KeepsModel tools))
    where
      tail : List (AgentConfig M → AgentConfig M)
      tail =
          unless_empty description with_description
          ++ (with_instruction instruction ∷ [])
          ++ unless_empty output_key with_output_key
          ++ if_positive max_iterations
          ++ if_enabled context
          ++ if_any tools

  require_model-IsMade :
      (a : AgentConfig M) (provider : Option (Provider M)) (model : Provider M)
      → provider ≡ some model
      → IsMade (require_model a provider)
  require_model-IsMade a none model e = absurd (cc)
  require_model-IsMade a (some given) model e = tt

  pub new_agent-IsMade :
      (name : String) (model : Provider M) (description instruction output_key : String)
      (max_iterations : ℤ) (context : Option Bool) (tools : List Tool)
      → IsMade (
          new_agent name
            (agent_options model description instruction output_key max_iterations context tools))
  unfolding new_agent
  new_agent-IsMade name model description instruction output_key max_iterations context tools =
      require_model-IsMade _ _ model (
        agent_options-model model description instruction output_key max_iterations context tools
          (initial name))
