-- ===== src/Recipe/Parameters.antt =====
-- recipe/validate.go: the checks of parameters and of the values given for them.
use blades.Common.{
  String, str_eq, Bool, true, false, not, ◌&&◌, ◌||◌, List, [], ◌∷◌, Option, none, some, Result, ok,
  err, guard, ◌>>◌, if◌then◌else◌,
}
use blades.Common.StringMap.{insert, get_or, lookup}
use blades.Recipe.Spec.{
  Value, string_value, number_value, boolean_value, parameter_string, parameter_number,
  parameter_boolean, parameter_select, parameter_required, parameter_optional, ParameterSpec, Scope,
  default_value, SpecError, parameter_unnamed, duplicate_parameter, type_required, options_required,
  invalid_type, invalid_required, not_string, not_number, not_boolean, not_select_string,
  not_an_option, required_missing,
}

-- `slices.Contains(options, s)`
unfoldable pub contains : List String → String → Bool
contains [] s = false
contains (option ∷ options) s = if str_eq option s then true else contains options s

abbrev pub is_string : Value → Bool
is_string (string_value _) = true
is_string _ = false

abbrev pub is_number : Value → Bool
is_number (number_value _) = true
is_number _ = false

abbrev pub is_boolean : Value → Bool
is_boolean (boolean_value _) = true
is_boolean _ = false

unfoldable pub check_select : Scope → ParameterSpec → Value → Result SpecError (Unit {0})
unfolding contains
check_select scope p (string_value s) = guard (contains p.options s) (not_an_option scope p.name s)
check_select scope p _ = err (not_select_string scope p.name)

-- The `switch` on the type's name; a name that is none of the four passes.
unfoldable pub validate_param_type : Scope → ParameterSpec → Value → Result SpecError (Unit {0})
unfolding check_select
validate_param_type scope p val =
    if str_eq p.type_name parameter_string
    then guard (is_string val) (not_string scope p.name)
    else if str_eq p.type_name parameter_number
    then guard (is_number val) (not_number scope p.name)
    else if str_eq p.type_name parameter_boolean
    then guard (is_boolean val) (not_boolean scope p.name)
    else if str_eq p.type_name parameter_select
    then check_select scope p val
    else ok tt

abbrev pub is_type_name : String → Bool
is_type_name name =
    str_eq name parameter_string
    || (str_eq name parameter_number
        || (str_eq name parameter_boolean || str_eq name parameter_select))

abbrev pub is_requirement : String → Bool
is_requirement name =
    str_eq name "" || (str_eq name parameter_required || str_eq name parameter_optional)

abbrev pub is_nil : List String → Bool
is_nil [] = true
is_nil (_ ∷ _) = false

unfoldable pub check_default : ParameterSpec → Option Value → Result SpecError (Unit {0})
unfolding validate_param_type
check_default p none = ok tt
check_default p (some val) = validate_param_type default_value p val

-- What the body of the loop tests once the name is known to be new.
unfoldable pub validate_parameter : ParameterSpec → Result SpecError (Unit {0})
unfolding check_default
validate_parameter p = do
  guard (not (str_eq p.type_name "")) (type_required p.name)
  guard (is_type_name p.type_name) (invalid_type p.name p.type_name)
  guard (is_requirement p.required) (invalid_required p.name p.required)
  guard (not (str_eq p.type_name parameter_select && is_nil p.options)) (options_required p.name)
  check_default p p.default

unfoldable pub parameters_loop :
    List (String × Bool) → List ParameterSpec → Result SpecError (Unit {0})
parameters_loop seen [] = ok tt
parameters_loop seen (p ∷ params) = do
  guard (not (str_eq p.name "")) parameter_unnamed
  guard (not (get_or false p.name seen)) (duplicate_parameter p.name)
  validate_parameter p
  parameters_loop (insert p.name true seen) params

unfoldable pub validate_parameters : List ParameterSpec → Result SpecError (Unit {0})
validate_parameters params = parameters_loop [] params

-- One round of the loop of `validateParamValues`, with the value that the map has.
unfoldable pub check_value : Scope → ParameterSpec → Option Value → Result SpecError (Unit {0})
unfolding validate_param_type
check_value scope p (some val) = validate_param_type scope p val
check_value scope p none = elim p.default [
  | some _ ↦ ok tt
  | none ↦ guard (not (str_eq p.required parameter_required)) (required_missing scope p.name)
]

unfoldable pub validate_param_values :
    Scope → List ParameterSpec → List (String × Value) → Result SpecError (Unit {0})
unfolding check_value
validate_param_values scope [] params = ok tt
validate_param_values scope (p ∷ specs) params = do
  check_value scope p (lookup p.name params)
  validate_param_values scope specs params

-- The two loops of `resolveParams` in recipe/template.go: the defaults, and the user's values.
unfoldable pub store_defaults : List ParameterSpec → List (String × Value) → List (String × Value)
store_defaults [] merged = merged
store_defaults (p ∷ params) merged =
    store_defaults params (elim p.default [ none ↦ merged | some val ↦ insert p.name val merged ])

unfoldable pub store_values : List (String × Value) → List (String × Value) → List (String × Value)
store_values [] merged = merged
store_values ((key, val) ∷ user_params) merged = store_values user_params (insert key val merged)

unfoldable pub resolve_params : List ParameterSpec → List (String × Value) → List (String × Value)
unfolding store_defaults store_values
resolve_params params user_params = store_values user_params (store_defaults params [])
