-- ===== src/Graph/Cycle/Sound.antt =====
-- An accepted graph has no cycle: every node that the search has left is accessible.
use mathlib.Core.WellFounded.{Acc}
use blades.Common.{
  ℕ, zero, suc, String, str_eq, eq_iff, ◌≡◌, refl, Bool-cases, List, [], ◌∷◌, some, inl, inr, ok,
  arith, length, map, All, All-In, All-map, In, ◌≢◌, ◌∙◌,
}
use blades.Common.StringMap.{get_or, get_or-insert}
use blades.Graph.Types.{Handler, ConditionalEdge, Graph}
use blades.Graph.Build.{out_edges, targets}
use blades.Graph.Edges.{Route, Successor, not-Route-Acc}
use blades.Graph.Cycle.{
  NodeState, unvisited, visiting, visited, Walk, Outcome, done, cycle, out_of_fuel, state_of,
  and_then, enter, leave, visit_edges, visit, visit_all, start_walk, verdict, ensure_acyclic,
}
use blades.Graph.Cycle.Path.{Restores, visit-Restores}

abbrev Keeps : Walk → Walk → Type 0
Keeps w w' = (n : String) → state_of w n ≡ visited → state_of w' n ≡ visited

enter-Keeps : (w : Walk) (node : String) → state_of w node ≡ unvisited → Keeps w (enter node w)
enter-Keeps w node u n h =
    ground (arith, get_or-insert unvisited node n visiting w.states, eq_iff node n)

leave-Keeps : (w : Walk) (node : String) → Keeps w (leave node w)
leave-Keeps w node n h = ground (arith, get_or-insert unvisited node n visited w.states)

module _ {V : Type 0} (g : Graph V) where
  -- What was left is accessible.
  abbrev IsSound : Walk → Type 0
  IsSound w = (n : String) → state_of w n ≡ visited → Acc (Successor g) n

  enter-IsSound : (w : Walk) (node : String) → IsSound w → IsSound (enter node w)
  enter-IsSound w node s n h =
      s n (ground (arith, get_or-insert unvisited node n visiting w.states))

  leave-IsSound :
      (w : Walk) (node : String)
      → IsSound w
      → All (λ n. state_of w n ≡ visited) (targets (out_edges g node))
      → IsSound (leave node w)
  leave-IsSound w node s all n h = elim (Bool-cases (str_eq node n)) [
    | inl same ↦
        rw (← (eq_iff node n).0 same)
          (Acc.intro node (λ m e. s m (All-In (λ k. state_of w k ≡ visited) _ all e)))
    | inr other ↦ s n (ground (arith, get_or-insert unvisited node n visited w.states))
  ]

  -- If the walk goes through, it ends sound, with `names` among the nodes that were left.
  abbrev Ends : Walk → List String → Outcome → Type 0
  Ends w names (done w') = IsSound w' × Keeps w w' × All (λ n. state_of w' n ≡ visited) names
  Ends w names (cycle _) = Unit
  Ends w names out_of_fuel = Unit

  and_then-Ends :
      (w₀ w : Walk) (o : Outcome) (f : Walk → Outcome) (first names : List String)
      → Keeps w₀ w
      → Ends w first o
      → ((w' : Walk)
          → IsSound w'
          → Keeps w₀ w'
          → All (λ n. state_of w' n ≡ visited) first
          → Ends w₀ names (f w'))
      → Ends w₀ names (and_then o f)
  and_then-Ends w₀ w (done w') f first names k h next = next w' h.0 (λ n e. h.1 n (k n e)) h.2
  and_then-Ends w₀ w (cycle c) f first names k h next = tt
  and_then-Ends w₀ w out_of_fuel f first names k h next = tt

  Ends-cons :
      (w : Walk) (name : String) (names : List String) (o : Outcome)
      → state_of w name ≡ visited
      → Ends w names o
      → Ends w (name ∷ names) o
  Ends-cons w name names (done w') v h = (h.0, h.1, (h.1 name v, h.2))
  Ends-cons w name names (cycle c) v h = tt
  Ends-cons w name names out_of_fuel v h = tt

  Ends-Keeps :
      (w w' : Walk) (names : List String) (o : Outcome)
      → Keeps w w'
      → Ends w' names o
      → Ends w names o
  Ends-Keeps w w' names (done v) k h = (h.0, (λ n e. h.1 n (k n e)), h.2)
  Ends-Keeps w w' names (cycle c) k h = tt
  Ends-Keeps w w' names out_of_fuel k h = tt

  visit_edges-Ends :
      (rec : String → Walk → Outcome) (edges : List (ConditionalEdge V)) (w : Walk)
      → ((n : String) (w' : Walk)
          → state_of w' n ≡ unvisited
          → IsSound w'
          → Ends w' (n ∷ []) (rec n w'))
      → IsSound w
      → Ends w (targets edges) (visit_edges rec edges w)
  unfolding visit_edges
  visit_edges-Ends rec [] w h s = (s, (λ n e. e), tt)
  visit_edges-Ends rec (edge ∷ edges) w h s =
      at (state_of w edge.to) refl (λ w' s'. visit_edges-Ends rec edges w' h s')
    where
      at :
          (c : NodeState)
          → state_of w edge.to ≡ c
          → ((w' : Walk) → IsSound w' → Ends w' (targets edges) (visit_edges rec edges w'))
          → Ends w (targets (edge ∷ edges)) (visit_edges rec (edge ∷ edges) w)
      at visiting e k = rw (e, visit_edges) tt
      at visited e k =
          rw (e, visit_edges)
            (Ends-cons w edge.to (targets edges) (visit_edges rec edges w) e (k w s))
      at unvisited e k =
          rw (e, visit_edges)
            (and_then-Ends w w (rec edge.to w) (visit_edges rec edges) (edge.to ∷ [])
              (targets (edge ∷ edges)) (λ n v. v) (h edge.to w e s)
              (λ w' s' kept here'.
                Ends-Keeps w w' (targets (edge ∷ edges)) (visit_edges rec edges w') kept (
                  Ends-cons w' edge.to (targets edges) (visit_edges rec edges w') here'.0
                    (k w' s'))))

  visit-Ends :
      (fuel : ℕ) (node : String) (w : Walk)
      → state_of w node ≡ unvisited
      → IsSound w
      → Ends w (node ∷ []) (visit g fuel node w)
  unfolding visit
  visit-Ends zero node w u s = tt
  visit-Ends (suc fuel) node w u s =
      and_then-Ends w (enter node w) (visit_edges (visit g fuel) (out_edges g node) (enter node w))
        (λ w'. done (leave node w')) (targets (out_edges g node)) (node ∷ []) (enter-Keeps w node u)
        (visit_edges-Ends (visit g fuel) (out_edges g node) (enter node w) (visit-Ends fuel)
          (enter-IsSound w node s))
        (λ w' s' kept all. (
          leave-IsSound w' node s' all,
          (λ n e. leave-Keeps w' node n (kept n e)),
          (
            ground (arith, get_or-insert unvisited node node visited w'.states, eq_iff node node),
            tt,
          ),
        ))

  -- Between two calls of `visit` from the outer loop no node is being visited.
  abbrev IsIdle : Walk → Type 0
  IsIdle w = (w.stack ≡ []) × ((n : String) → state_of w n ≢ visiting)

  visit-IsIdle :
      (fuel : ℕ) (name : String) (w : Walk)
      → IsIdle w
      → (w' : Walk) → visit g fuel name w ≡ done w'
      → IsIdle w'
  visit-IsIdle fuel name w idle w' e =
      let r : Restores g w (done w') =
        rw e at (visit-Restores g fuel name w (rw idle.0 tt) (λ n v. absurd (idle.1 n v))) in
      (r.0 ∙ idle.0, λ n v. idle.1 n (r.1 n v))

  visit_all-Ends :
      (fuel : ℕ) (nodes : List (String × Handler V)) (w : Walk)
      → IsSound w
      → IsIdle w
      → Ends w (map (λ e. e.0) nodes) (visit_all g fuel nodes w)
  unfolding visit_all
  visit_all-Ends fuel [] w s idle = (s, (λ n e. e), tt)
  visit_all-Ends fuel ((name, handler) ∷ nodes) w s idle =
      at (state_of w name) refl (λ w' s' idle'. visit_all-Ends fuel nodes w' s' idle')
    where
      names : List String
      names = map (λ e. e.0) nodes

      at :
          (c : NodeState)
          → state_of w name ≡ c
          → ((w' : Walk) → IsSound w' → IsIdle w' → Ends w' names (visit_all g fuel nodes w'))
          → Ends w (name ∷ names) (visit_all g fuel ((name, handler) ∷ nodes) w)
      at visiting e k = absurd (idle.1 name e)
      at visited e k =
          rw (e, visit_all) (Ends-cons w name names (visit_all g fuel nodes w) e (k w s idle))
      at unvisited e k =
          rw (e, visit_all) (after (visit g fuel name w) refl (visit-Ends fuel name w e s))
        where
          after :
              (o : Outcome)
              → visit g fuel name w ≡ o
              → Ends w (name ∷ []) o
              → Ends w (name ∷ names) (and_then o (visit_all g fuel nodes))
          after (done w') q h = Ends-Keeps w w' (name ∷ names) (visit_all g fuel nodes w') h.1 (
              Ends-cons w' name names (visit_all g fuel nodes w') h.2.0
                (k w' h.0 (visit-IsIdle fuel name w idle w' q)))
          after (cycle c) q h = tt
          after out_of_fuel q h = tt

  verdict-ok :
      (w : Walk) (names : List String) (o : Outcome)
      → Ends w names o
      → verdict o ≡ some (ok tt)
      → All (λ n. Acc (Successor g) n) names
  verdict-ok w names (done w') h q =
      All-map (λ n. state_of w' n ≡ visited) (λ n. Acc (Successor g) n) names h.0 h.2
  verdict-ok w names (cycle c) h q = cc
  verdict-ok w names out_of_fuel h q = cc

  -- In a graph that the search accepts no route leads from a node back to it.
  pub ensure_acyclic-not-Route :
      (n : String) → ensure_acyclic g ≡ some (ok tt) → In n (map (λ e. e.0) g.nodes) → ¬ Route g n n
  unfolding ensure_acyclic get_or
  ensure_acyclic-not-Route n q m =
      let names = map (λ (e : String × Handler V). e.0) g.nodes in
      not-Route-Acc g n (
        All-In (λ k. Acc (Successor g) k) names
          (verdict-ok start_walk names (visit_all g (suc (length g.edges)) g.nodes start_walk)
            (visit_all-Ends (suc (length g.edges)) g.nodes start_walk (λ k e. cc) (refl, λ k e. cc))
            q)
          m)
