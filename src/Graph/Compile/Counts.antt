-- ===== src/Graph/Compile/Counts.antt =====
-- The dependency counts of `NewExecutor` are the numbers of edges that lead to the nodes.
use blades.Common.{
  ℕ, ◌+◌, String, str_eq, eq_iff, ◌≡◌, refl, true, List, [], ◌∷◌, arith, if◌then◌else◌, Bool-cases,
  inl, inr,
}
use blades.Common.StringMap.{get_or, insert, has_key, get_or-insert}
use blades.Graph.Types.{ConditionalEdge, Graph}
use blades.Graph.Compile.{
  NodeInfo, count_targets, dependency_counts, node_info, build_infos, new_executor,
}

module _ {V : Type 0} where
  -- The edges of one node that lead to `n`.
  abbrev pub count_to : String → List (ConditionalEdge V) → ℕ
  count_to n [] = 0
  count_to n (edge ∷ edges) = (if str_eq edge.to n then 1 else 0) + count_to n edges

  -- The edges of the graph that lead to `n`.
  abbrev pub in_degree : String → List (String × List (ConditionalEdge V)) → ℕ
  in_degree n [] = 0
  in_degree n ((_, edges) ∷ rest) = count_to n edges + in_degree n rest

  count_targets-get :
      (n : String) (edges : List (ConditionalEdge V)) (counts : List (String × ℕ))
      → get_or 0 n (count_targets edges counts) ≡ get_or 0 n counts + count_to n edges
  unfolding count_targets
  count_targets-get n [] counts = omega arith
  count_targets-get n (edge ∷ edges) counts = ground (
    arith,
    count_targets-get n edges (insert edge.to (get_or 0 edge.to counts + 1) counts),
    get_or-insert 0 edge.to n (get_or 0 edge.to counts + 1) counts,
    eq_iff edge.to n,
  )

  dependency_counts-get :
      (n : String) (m : List (String × List (ConditionalEdge V))) (counts : List (String × ℕ))
      → get_or 0 n (dependency_counts m counts) ≡ get_or 0 n counts + in_degree n m
  unfolding dependency_counts
  dependency_counts-get n [] counts = omega arith
  dependency_counts-get n ((from, edges) ∷ m) counts = omega (
    arith,
    dependency_counts-get n m (count_targets edges counts),
    count_targets-get n edges counts,
  )

  pub dependency_counts-eq-in_degree :
      (n : String) (m : List (String × List (ConditionalEdge V)))
      → get_or 0 n (dependency_counts m []) ≡ in_degree n m
  unfolding get_or
  dependency_counts-eq-in_degree n m = omega (arith, dependency_counts-get n m [])

  pub build_infos-get :
      {H : Type 0} (g : Graph V) (counts : List (String × ℕ)) (d : NodeInfo V) (n : String)
      (nodes : List (String × H))
      → has_key n nodes ≡ true
      → get_or d n (build_infos g counts nodes) ≡ node_info g counts n
  unfolding build_infos get_or has_key
  build_infos-get g counts d n [] h = cc
  build_infos-get g counts d n ((name, x) ∷ nodes) h = elim (Bool-cases (str_eq name n)) [
    | inl same ↦ rw same (rw ((eq_iff name n).0 same) refl)
    | inr other ↦ rw other (build_infos-get g counts d n nodes (rw other at h))
  ]

  -- The executor of a graph knows, of every node, the number of edges that lead to it.
  pub dependencies-new_executor :
      (g : Graph V) (d : NodeInfo V) (n : String)
      → has_key n g.nodes ≡ true
      → (get_or d n (new_executor g).node_infos).dependencies ≡ in_degree n g.edges
  unfolding new_executor node_info
  dependencies-new_executor g d n h =
      rw (build_infos-get g (dependency_counts g.edges []) d n g.nodes h)
        (dependency_counts-eq-in_degree n g.edges)
