-- ===== src/Recipe/Correct/Values.antt =====
-- What `validateParamValues` accepts, and what it does with the values that `resolveParams` fills in.
use blades.Common.{
  String, eq_iff, eq_refl, ◌≡◌, ◌≢◌, ◌↔◌, ◌⊎◌, ◌∙◌, refl, ap, subst, Option-cases, List, [], ◌∷◌,
  Option, none, some, ok, inl, inr, arith, All, All-In, In, here, there,
}
use blades.Common.StringMap.{keys, insert, lookup, lookup-insert}
use blades.Recipe.Spec.{Value, ParameterSpec, Scope}
use blades.Recipe.Parameters.{
  check_value, validate_param_values, validate_parameters, store_defaults, store_values,
  resolve_params,
}
use blades.Recipe.Correct.Names.{IsDistinct}
use blades.Recipe.Correct.Parameters.{
  HasType, IsDefault, IsTypeName, IsParameter, parameter_names, validate_param_type_iff,
  validate_parameters_iff,
}

-- The value for a parameter suits it, or there is none and it may be missing.
abbrev pub IsGiven : ParameterSpec → Option Value → Type 0
IsGiven p none = (p.default ≢ none) ⊎ (p.required ≢ "required")
IsGiven p (some val) = HasType p val

check_value_iff :
    (scope : Scope) (p : ParameterSpec) (given : Option Value)
    → IsTypeName p.type_name
    → (check_value scope p given ≡ ok tt) ↔ IsGiven p given
unfolding check_value
check_value_iff scope p none known = ground (arith, eq_iff p.required "required")
check_value_iff scope p (some val) known = validate_param_type_iff scope p val known

-- `validateParamValues` accepts exactly the values in which each parameter has a value that suits
-- it, or has none and has a default or is not required.
pub validate_param_values_iff :
    (scope : Scope) (specs : List ParameterSpec) (params : List (String × Value))
    → All IsParameter specs
    → (validate_param_values scope specs params ≡ ok tt)
      ↔ All (λ p. IsGiven p (lookup p.name params)) specs
unfolding validate_param_values
validate_param_values_iff scope [] params h = (λ e. tt, λ h. refl)
validate_param_values_iff scope (p ∷ specs) params h = ground (
  arith,
  check_value_iff scope p (lookup p.name params) h.0.typed,
  validate_param_values_iff scope specs params h.1,
)

missing :
    (key : String) (m : List (String × Value)) → All (λ n. key ≢ n) (keys m) → lookup key m ≡ none
unfolding lookup
missing key [] h = refl
missing key ((name, val) ∷ m) h = ground (arith, eq_iff name key, missing key m h.1, h.0)

store_values-lookup :
    (key : String) (values merged : List (String × Value))
    → IsDistinct (keys values)
    → lookup key (store_values values merged)
      ≡ elim (lookup key values) [ some val ↦ some val | none ↦ lookup key merged ]
unfolding store_values lookup
store_values-lookup key [] merged h = refl
store_values-lookup key ((name, val) ∷ values) merged h = ground (
  arith,
  store_values-lookup key values (insert name val merged) h.1,
  lookup-insert name key val merged,
  missing name values h.0,
  eq_iff name key,
)

store_defaults-lookup :
    (key : String) (specs : List ParameterSpec) (merged : List (String × Value))
    → All (λ n. key ≢ n) (parameter_names specs)
    → lookup key (store_defaults specs merged) ≡ lookup key merged
unfolding store_defaults
store_defaults-lookup key [] merged h = refl
store_defaults-lookup key (p ∷ specs) merged h = elim (Option-cases p.default) [
  | inl nil ↦ rw nil (store_defaults-lookup key specs merged h.1)
  | inr (val, e) ↦
      rw (e, store_defaults-lookup key specs (insert p.name val merged) h.1)
        (ground (arith, lookup-insert p.name key val merged, eq_iff p.name key, h.0))
]

In-names :
    {p : ParameterSpec} (specs : List ParameterSpec)
    → In p specs
    → In p.name (parameter_names specs)
In-names [] m = elim m [ ]
In-names (q ∷ specs) here = here
In-names (q ∷ specs) (there m) = there (In-names specs m)

-- The default of a declared parameter is stored under its name.
default_stored :
    (p : ParameterSpec) (specs : List ParameterSpec) (merged : List (String × Value))
    → IsDistinct (parameter_names specs)
    → In p specs
    → lookup p.name merged ≡ none
    → lookup p.name (store_defaults specs merged) ≡ p.default
unfolding store_defaults
default_stored p [] merged h m free = elim m [ ]
default_stored p (q ∷ specs) merged h here free = elim (Option-cases q.default) [
  | inl nil ↦ rw (nil, store_defaults-lookup q.name specs merged h.0) free
  | inr (val, e) ↦
      rw
        (
          e,
          store_defaults-lookup q.name specs (insert q.name val merged) h.0,
          lookup-insert q.name q.name val merged,
          eq_refl q.name,
        )
        refl
]
default_stored p (q ∷ specs) merged h (there m) free =
    let other : q.name ≢ p.name =
      All-In (λ n. q.name ≢ n) (parameter_names specs) h.0 (In-names specs m) in
    elim (Option-cases q.default) [
      | inl nil ↦ rw nil (default_stored p specs merged h.1 m free)
      | inr (val, e) ↦ rw e (
          default_stored p specs (insert q.name val merged) h.1 m
            (ground (arith, lookup-insert q.name p.name val merged, eq_iff q.name p.name)))
    ]

abbrev given_or : Option Value → Option Value → Option Value
given_or (some val) default = some val
given_or none default = default

-- For one parameter the check of the resolved values is that of the user's.
check_resolved :
    (scope : Scope) (p : ParameterSpec) (given : Option Value)
    → IsParameter p
    → check_value scope p (given_or given p.default) ≡ check_value scope p given
unfolding check_value
check_resolved scope p (some val) h = refl
check_resolved scope p none h = elim (Option-cases p.default) [
  | inl nil ↦ ap (check_value scope p) nil
  | inr (val, e) ↦
      rw (e, check_value)
        ((validate_param_type_iff scope p val h.typed).1 (subst (IsDefault p) e h.default_typed))
]

same_checks :
    (scope : Scope) (specs : List ParameterSpec) (params others : List (String × Value))
    → ((p : ParameterSpec)
        → In p specs
        → check_value scope p (lookup p.name params) ≡ check_value scope p (lookup p.name others))
    → validate_param_values scope specs params ≡ validate_param_values scope specs others
unfolding validate_param_values
same_checks scope [] params others h = refl
same_checks scope (p ∷ specs) params others h =
    rw (h p here, same_checks scope specs params others (λ q m. h q (there m))) refl

nothing_stored : (key : String) → lookup {V = Value} key [] ≡ none
unfolding lookup
nothing_stored key = refl

store_values-given :
    (key : String) (values merged : List (String × Value))
    → IsDistinct (keys values)
    → lookup key (store_values values merged) ≡ given_or (lookup key values) (lookup key merged)
store_values-given key values merged h = ground (arith, store_values-lookup key values merged h)

lookup_resolved :
    (p : ParameterSpec) (specs : List ParameterSpec) (user_params : List (String × Value))
    → IsDistinct (keys user_params)
    → IsDistinct (parameter_names specs)
    → In p specs
    → lookup p.name (resolve_params specs user_params)
      ≡ given_or (lookup p.name user_params) p.default
unfolding resolve_params
lookup_resolved p specs user_params distinct names m =
    store_values-given p.name user_params (store_defaults specs []) distinct
    ∙ ap (given_or (lookup p.name user_params))
        (default_stored p specs [] names m (nothing_stored p.name))

-- With parameters that `Validate` accepts, the check that `Build` makes of the values merged with
-- the defaults has the answer that the check of the user's values alone has.
pub validate_param_values-resolve_params :
    (scope : Scope) (specs : List ParameterSpec) (user_params : List (String × Value))
    → validate_parameters specs ≡ ok tt
    → IsDistinct (keys user_params)
    → validate_param_values scope specs (resolve_params specs user_params)
      ≡ validate_param_values scope specs user_params
validate_param_values-resolve_params scope specs user_params valid distinct =
    let (declared, names) = (validate_parameters_iff specs).0 valid in
    same_checks scope specs (resolve_params specs user_params) user_params (λ p m.
      ap (check_value scope p) (lookup_resolved p specs user_params distinct names m)
      ∙ check_resolved scope p (lookup p.name user_params) (All-In IsParameter specs declared m))
