-- ===== src/Recipe/Correct/Names.antt =====
-- The loops over names that must not be empty and not come twice: tools and middlewares.
use blades.Common.{
  ℕ, suc, String, eq_iff, ◌≡◌, ◌≢◌, ◌↔◌, refl, Bool, true, false, List, [], ◌∷◌, ok, err, ◌⊎◌, inl,
  arith, All,
}
use blades.Common.StringMap.{insert, get_or, get_or-insert}
use blades.Recipe.Spec.{MiddlewareSpec, Scope, SpecError}
use blades.Recipe.Validate.{middlewares_loop, validate_middlewares, tools_loop, validate_tool_names}

-- No name comes twice.
abbrev pub IsDistinct : List String → Type 0
IsDistinct [] = Unit {0}
IsDistinct (n ∷ names) = All (λ m. n ≢ m) names × IsDistinct names

-- The names are not among those seen.
abbrev pub IsFresh : List (String × Bool) → List String → Type 0
IsFresh seen names = All (λ n. get_or false n seen ≡ false) names

abbrev pub IsNamed : String → Type 0
IsNamed name = name ≢ ""

pub unseen_insert_iff :
    (n : String) (seen : List (String × Bool)) (names : List String)
    → IsFresh (insert n true seen) names ↔ (IsFresh seen names × All (λ m. n ≢ m) names)
unseen_insert_iff n seen [] = (λ h. (tt, tt), λ h. tt)
unseen_insert_iff n seen (m ∷ names) =
    ground (arith, unseen_insert_iff n seen names, get_or-insert false n m true seen, eq_iff n m)

pub nothing_seen : (names : List String) → IsFresh [] names
unfolding get_or
nothing_seen [] = tt
nothing_seen (n ∷ names) = (refl, nothing_seen names)

-- The names in a list that must have names, all different.
abbrev pub HasNames : List String → Type 0
HasNames names = All IsNamed names × IsDistinct names

abbrev pub middleware_names : List MiddlewareSpec → List String
middleware_names [] = []
middleware_names (mw ∷ specs) = mw.name ∷ middleware_names specs

middlewares_loop_iff :
    (scope : Scope) (seen : List (String × Bool)) (i : ℕ) (specs : List MiddlewareSpec)
    → (middlewares_loop scope seen i specs ≡ ok tt)
      ↔ (HasNames (middleware_names specs) × IsFresh seen (middleware_names specs))
unfolding middlewares_loop
middlewares_loop_iff scope seen i [] = (λ e. ((tt, tt), tt), λ h. refl)
middlewares_loop_iff scope seen i (mw ∷ specs) = ground (
  arith,
  eq_iff mw.name "",
  middlewares_loop_iff scope (insert mw.name true seen) (suc i) specs,
  unseen_insert_iff mw.name seen (middleware_names specs),
)

pub validate_middlewares_iff :
    (scope : Scope) (specs : List MiddlewareSpec)
    → (validate_middlewares scope specs ≡ ok tt) ↔ HasNames (middleware_names specs)
unfolding validate_middlewares
validate_middlewares_iff scope specs =
    ground (arith, middlewares_loop_iff scope [] 0 specs, nothing_seen (middleware_names specs))

-- The set that the loop over tools returns.
abbrev pub tool_set : List (String × Bool) → List String → List (String × Bool)
tool_set seen [] = seen
tool_set seen (t ∷ names) = tool_set (insert t true seen) names

tools_loop_iff :
    (scope : Scope) (seen : List (String × Bool)) (names : List String)
    → (tools_loop scope seen names ≡ ok (tool_set seen names))
      ↔ (HasNames names × IsFresh seen names)
unfolding tools_loop
tools_loop_iff scope seen [] = (λ e. ((tt, tt), tt), λ h. refl)
tools_loop_iff scope seen (t ∷ names) = ground (
  arith,
  eq_iff t "",
  tools_loop_iff scope (insert t true seen) names,
  unseen_insert_iff t seen names,
)

-- The loop returns that set or an error.
pub tools_loop-cases :
    (scope : Scope) (seen : List (String × Bool)) (names : List String)
    → (tools_loop scope seen names ≡ ok (tool_set seen names))
      ⊎ ((e : SpecError) × (tools_loop scope seen names ≡ err e))
unfolding tools_loop
tools_loop-cases scope seen [] = inl refl
tools_loop-cases scope seen (t ∷ names) =
    ground (arith, tools_loop-cases scope (insert t true seen) names)

pub absent_iff :
    (n : String) (seen : List (String × Bool)) (names : List String)
    → (get_or false n (tool_set seen names) ≡ false)
      ↔ ((get_or false n seen ≡ false) × All (λ t. t ≢ n) names)
absent_iff n seen [] = (λ h. (h, tt), λ h. h.0)
absent_iff n seen (t ∷ names) =
    ground (
      arith,
      absent_iff n (insert t true seen) names,
      get_or-insert false t n true seen,
      eq_iff t n,
    )

-- The tools of an agent or a sub-agent are accepted exactly if they have names, all different; the
-- set that is returned is that of the names.
pub validate_tool_names_iff :
    (scope : Scope) (names : List String)
    → (validate_tool_names scope names ≡ ok (tool_set [] names)) ↔ HasNames names
unfolding validate_tool_names
validate_tool_names_iff scope names =
    ground (arith, tools_loop_iff scope [] names, nothing_seen names)
