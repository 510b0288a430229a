-- ===== src/Graph/Cycle/Fuel.antt =====
-- `ensureAcyclic` ends: the recursion of `visit` is at most as deep as there are keys of `edges`
-- that were not entered yet.
use blades.Common.{
  ℕ, zero, suc, ◌+◌, ◌≤◌, ◌<◌, String, eq_iff, ◌≡◌, ◌≢◌, ◌⊎◌, refl, List, [], ◌∷◌, none, inl, inr,
  arith, length,
}
use blades.Common.StringMap.{get_or, get_or-insert}
use blades.Graph.Types.{Handler, ConditionalEdge, Graph}
use blades.Graph.Build.{out_edges}
use blades.Graph.Cycle.{
  NodeState, unvisited, visiting, visited, Walk, Outcome, done, cycle, out_of_fuel, state_of,
  and_then, enter, leave, visit_edges, visit, visit_all, start_walk, verdict, ensure_acyclic,
}

abbrev open_one : NodeState → ℕ
open_one unvisited = 1
open_one visiting = 0
open_one visited = 0

-- A walk goes on: what was entered stays so.
abbrev Grows : Walk → Walk → Type 0
Grows w w' = (n : String) → open_one (state_of w' n) ≤ open_one (state_of w n)

Grows-trans : (w w' w'' : Walk) → Grows w w' → Grows w' w'' → Grows w w''
Grows-trans w w' w'' h k n = omega (arith, h n, k n)

enter-Grows : (w : Walk) (node : String) → Grows w (enter node w)
enter-Grows w node n = ground (arith, get_or-insert unvisited node n visiting w.states)

leave-Grows : (w : Walk) (node : String) → Grows w (leave node w)
leave-Grows w node n = ground (arith, get_or-insert unvisited node n visited w.states)

module _ {ℓ} {B : Type ℓ} where
  -- The number of keys that are not yet entered.
  abbrev open_keys : Walk → List (String × B) → ℕ
  open_keys w [] = 0
  open_keys w ((k, _) ∷ m) = open_one (state_of w k) + open_keys w m

  open_keys-le_length : (w : Walk) (m : List (String × B)) → open_keys w m ≤ length m
  open_keys-le_length w [] = omega arith
  open_keys-le_length w ((k, b) ∷ m) = ground (arith, open_keys-le_length w m)

  open_keys-Grows :
      (w w' : Walk) (m : List (String × B)) → Grows w w' → open_keys w' m ≤ open_keys w m
  open_keys-Grows w w' [] h = omega arith
  open_keys-Grows w w' ((k, b) ∷ m) h = omega (arith, h k, open_keys-Grows w w' m h)

  -- Entering an unvisited node that has a key closes at least one.
  open_keys-enter :
      (w : Walk) (node : String) (m : List (String × B)) (d : B)
      → state_of w node ≡ unvisited
      → (get_or d node m ≡ d) ⊎ (suc (open_keys (enter node w) m) ≤ open_keys w m)
  unfolding get_or
  open_keys-enter w node [] d u = inl refl
  open_keys-enter w node ((k, b) ∷ m) d u = ground (
    arith,
    open_keys-enter w node m d u,
    open_keys-Grows w (enter node w) m (enter-Grows w node),
    enter-Grows w node k,
    eq_iff k node,
    eq_iff node k,
    get_or-insert unvisited node k visiting w.states,
  )

-- The fuel lasted, and the walk went on from `w`.
abbrev Lasts : Walk → Outcome → Type 0
Lasts w (done w') = Grows w w'
Lasts w (cycle _) = Unit
Lasts w out_of_fuel = ⊥

and_then-Lasts :
    (w₀ w : Walk) (o : Outcome) (f : Walk → Outcome)
    → Grows w₀ w
    → Lasts w o
    → ((w' : Walk) → Grows w₀ w' → Lasts w₀ (f w'))
    → Lasts w₀ (and_then o f)
and_then-Lasts w₀ w (done w') f g h k = k w' (Grows-trans w₀ w w' g h)
and_then-Lasts w₀ w (cycle c) f g h k = tt
and_then-Lasts w₀ w out_of_fuel f g h k = h

Lasts-weaken : (w w' : Walk) (o : Outcome) → Grows w w' → Lasts w' o → Lasts w o
Lasts-weaken w w' (done v) g h = Grows-trans w w' v g h
Lasts-weaken w w' (cycle c) g h = tt
Lasts-weaken w w' out_of_fuel g h = h

module _ {V : Type 0} where
  visit_edges-Lasts :
      (rec : String → Walk → Outcome) (edges : List (ConditionalEdge V)) (w₀ w : Walk)
      → ((n : String) (w' : Walk) → Grows w₀ w' → state_of w' n ≡ unvisited → Lasts w' (rec n w'))
      → Grows w₀ w
      → Lasts w₀ (visit_edges rec edges w)
  unfolding visit_edges
  visit_edges-Lasts rec [] w₀ w h g = g
  visit_edges-Lasts rec (edge ∷ edges) w₀ w h g =
      at (state_of w edge.to) refl (λ w' g'. visit_edges-Lasts rec edges w₀ w' h g')
    where
      at :
          (s : NodeState)
          → state_of w edge.to ≡ s
          → ((w' : Walk) → Grows w₀ w' → Lasts w₀ (visit_edges rec edges w'))
          → Lasts w₀ (visit_edges rec (edge ∷ edges) w)
      at visiting e k = rw (e, visit_edges) tt
      at visited e k = rw (e, visit_edges) (k w g)
      at unvisited e k =
          rw (e, visit_edges)
            (and_then-Lasts w₀ w (rec edge.to w) (visit_edges rec edges) g (h edge.to w g e) k)

  visit-Lasts :
      (g : Graph V) (fuel : ℕ) (node : String) (w : Walk)
      → state_of w node ≡ unvisited
      → open_keys w g.edges < fuel
      → Lasts w (visit g fuel node w)
  unfolding visit visit_edges out_edges
  visit-Lasts g zero node w u h = elim h [ ]
  visit-Lasts g (suc fuel) node w u h =
      and_then-Lasts w (enter node w) (visit_edges (visit g fuel) (out_edges g node) (enter node w))
        (λ w'. done (leave node w')) (enter-Grows w node)
        (elim (open_keys-enter w node g.edges [] u) [
          | inl no_edges ↦ rw (no_edges, visit_edges) (λ n. omega arith)
          | inr closed ↦
              visit_edges-Lasts (visit g fuel) (out_edges g node) (enter node w) (enter node w)
                (λ n w' g' u'.
                  visit-Lasts g fuel n w' u'
                    (omega (arith, open_keys-Grows (enter node w) w' g.edges g')))
                (λ n. omega arith)
        ])
        (λ w' g'. Grows-trans w w' (leave node w') g' (leave-Grows w' node))

  visit_all-Lasts :
      (g : Graph V) (fuel : ℕ) (nodes : List (String × Handler V)) (w : Walk)
      → length g.edges < fuel
      → Lasts w (visit_all g fuel nodes w)
  unfolding visit_all
  visit_all-Lasts g fuel [] w h = λ n. omega arith
  visit_all-Lasts g fuel ((name, handler) ∷ nodes) w h =
      at (state_of w name) refl (λ w'. visit_all-Lasts g fuel nodes w' h)
    where
      at :
          (s : NodeState)
          → state_of w name ≡ s
          → ((w' : Walk) → Lasts w' (visit_all g fuel nodes w'))
          → Lasts w (visit_all g fuel ((name, handler) ∷ nodes) w)
      at visiting e k = rw (e, visit_all) (k w)
      at visited e k = rw (e, visit_all) (k w)
      at unvisited e k =
          rw (e, visit_all)
            (and_then-Lasts w w (visit g fuel name w) (visit_all g fuel nodes) (λ n. omega arith)
              (visit-Lasts g fuel name w e (omega (arith, open_keys-le_length w g.edges)))
              (λ w' g'. Lasts-weaken w w' (visit_all g fuel nodes w') g' (k w')))

verdict-ne-none : (w : Walk) (o : Outcome) → Lasts w o → verdict o ≢ none
verdict-ne-none w (done w') h = λ e. cc
verdict-ne-none w (cycle c) h = λ e. cc
verdict-ne-none w out_of_fuel h = absurd h

-- The search for cycles always ends with an answer, whatever the graph.
pub ensure_acyclic-ne-none : {V : Type 0} (g : Graph V) → ensure_acyclic g ≢ none
unfolding ensure_acyclic
ensure_acyclic-ne-none g =
    verdict-ne-none start_walk (visit_all g (suc (length g.edges)) g.nodes start_walk)
      (visit_all-Lasts g (suc (length g.edges)) g.nodes start_walk (omega arith))
