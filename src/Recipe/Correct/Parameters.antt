-- ===== src/Recipe/Correct/Parameters.antt =====
-- What `validateParamType` and `validateParameters` accept.
use blades.Common.{
  String, str_eq, eq_iff, ◌≡◌, ◌≢◌, ◌↔◌, ◌⊎◌, refl, Bool, true, false, Bool-cases, List, [], ◌∷◌,
  Option, none, some, ok, inl, inr, arith, All, In, here, there,
}
use blades.Common.StringMap.{insert}
use blades.Recipe.Spec.{
  Value, string_value, number_value, boolean_value, other_value, ParameterSpec, Scope,
  default_value,
}
use blades.Recipe.Parameters.{
  contains, check_select, validate_param_type, is_nil, check_default, validate_parameter,
  parameters_loop, validate_parameters,
}
use blades.Recipe.Correct.Names.{IsDistinct, IsFresh, unseen_insert_iff, nothing_seen}

-- The value suits the type of the parameter.
abbrev pub HasType : ParameterSpec → Value → Type 0
HasType p (string_value s) = (p.type_name ≡ "string") ⊎ ((p.type_name ≡ "select") × In s p.options)
HasType p (number_value n) = p.type_name ≡ "number"
HasType p (boolean_value b) = p.type_name ≡ "boolean"
HasType p (other_value n) = ⊥

In-tail : {x y : String} {xs : List String} → x ≢ y → In y (x ∷ xs) → In y xs
In-tail ne here = absurd (ne refl)
In-tail ne (there m) = m

contains_iff : (options : List String) (s : String) → (contains options s ≡ true) ↔ In s options
unfolding contains
contains_iff [] s = (λ e. cc, λ m. elim m [ ])
contains_iff (option ∷ options) s = elim (Bool-cases (str_eq option s)) [
  | inl same ↦ rw (same, (eq_iff option s).0 same) (λ e. here, λ m. refl)
  | inr other ↦ rw other (
    λ e. there ((contains_iff options s).0 e),
    λ m. (contains_iff options s).1 (In-tail (λ e. ground (arith, eq_iff option s)) m),
  )
]

abbrev Differ : String → String → Type 0
Differ a b = a ≢ b

unequal : (a b : String) → str_eq a b ≡ false → Differ a b
unequal a b h e = ground (arith, eq_iff a b)

-- The names of the types differ.
apart :
    Differ "string" "number"
    × (Differ "string" "boolean"
        × (Differ "string" "select"
            × (Differ "number" "boolean" × (Differ "number" "select" × Differ "boolean" "select"))))
apart = (
  unequal "string" "number" refl,
  (
    unequal "string" "boolean" refl,
    (
      unequal "string" "select" refl,
      (
        unequal "number" "boolean" refl,
        (unequal "number" "select" refl, unequal "boolean" "select" refl),
      ),
    ),
  ),
)

not_blank : Differ "string" "" × (Differ "number" "" × (Differ "boolean" "" × Differ "select" ""))
not_blank = (
  unequal "string" "" refl,
  (unequal "number" "" refl, (unequal "boolean" "" refl, unequal "select" "" refl)),
)

type_tests :
    (name : String)
    → ((str_eq name "string" ≡ true) ↔ (name ≡ "string"))
      × (((str_eq name "number" ≡ true) ↔ (name ≡ "number"))
          × (((str_eq name "boolean" ≡ true) ↔ (name ≡ "boolean"))
              × ((str_eq name "select" ≡ true) ↔ (name ≡ "select"))))
type_tests name =
    (eq_iff name "string", (eq_iff name "number", (eq_iff name "boolean", eq_iff name "select")))

abbrev pub IsTypeName : String → Type 0
IsTypeName name = (name ≡ "string") ⊎ ((name ≡ "number") ⊎ ((name ≡ "boolean") ⊎ (name ≡ "select")))

pub validate_param_type_iff :
    (scope : Scope) (p : ParameterSpec) (val : Value)
    → IsTypeName p.type_name
    → (validate_param_type scope p val ≡ ok tt) ↔ HasType p val
unfolding validate_param_type check_select
validate_param_type_iff scope p (string_value s) known =
    ground (arith, type_tests p.type_name, apart, contains_iff p.options s)
validate_param_type_iff scope p (number_value n) known =
    ground (arith, type_tests p.type_name, apart)
validate_param_type_iff scope p (boolean_value b) known =
    ground (arith, type_tests p.type_name, apart)
validate_param_type_iff scope p (other_value n) known =
    ground (arith, type_tests p.type_name, apart)

abbrev pub IsDefault : ParameterSpec → Option Value → Type 0
IsDefault p none = Unit {0}
IsDefault p (some val) = HasType p val

-- A parameter that a specification may declare.
pub record IsParameter (p : ParameterSpec) : Type 0 where
  pub named : p.name ≢ ""
  pub typed : IsTypeName p.type_name
  pub requirement : (p.required ≡ "") ⊎ ((p.required ≡ "required") ⊎ (p.required ≡ "optional"))
  pub has_options : p.type_name ≡ "select" → p.options ≢ []
  pub default_typed : IsDefault p p.default

is_nil_iff : (options : List String) → (is_nil options ≡ true) ↔ (options ≡ [])
is_nil_iff [] = ground arith
is_nil_iff (x ∷ options) = ground arith

check_default_iff :
    (p : ParameterSpec) (default : Option Value)
    → IsTypeName p.type_name
    → (check_default p default ≡ ok tt) ↔ IsDefault p default
unfolding check_default
check_default_iff p none known = (λ e. tt, λ h. refl)
check_default_iff p (some val) known = validate_param_type_iff default_value p val known

abbrev pub parameter_names : List ParameterSpec → List String
parameter_names [] = []
parameter_names (p ∷ params) = p.name ∷ parameter_names params

validate_parameter_iff :
    (p : ParameterSpec) → p.name ≢ "" → (validate_parameter p ≡ ok tt) ↔ IsParameter p
unfolding validate_parameter
validate_parameter_iff p named = ground (
  arith,
  type_tests p.type_name,
  apart,
  not_blank,
  eq_iff p.type_name "",
  eq_iff p.required "",
  eq_iff p.required "required",
  eq_iff p.required "optional",
  is_nil_iff p.options,
  check_default_iff p p.default,
)

parameters_loop_iff :
    (seen : List (String × Bool)) (params : List ParameterSpec)
    → (parameters_loop seen params ≡ ok tt) ↔ (
        (All IsParameter params × IsDistinct (parameter_names params))
        × IsFresh seen (parameter_names params))
unfolding parameters_loop
parameters_loop_iff seen [] = (λ e. ((tt, tt), tt), λ h. refl)
parameters_loop_iff seen (p ∷ params) = ground (
  arith,
  eq_iff p.name "",
  validate_parameter_iff p,
  parameters_loop_iff (insert p.name true seen) params,
  unseen_insert_iff p.name seen (parameter_names params),
)

-- `validateParameters` accepts exactly the parameters that may be declared, with different names.
pub validate_parameters_iff :
    (params : List ParameterSpec)
    → (validate_parameters params ≡ ok tt)
      ↔ (All IsParameter params × IsDistinct (parameter_names params))
unfolding validate_parameters
validate_parameters_iff params =
    ground (arith, parameters_loop_iff [] params, nothing_seen (parameter_names params))
