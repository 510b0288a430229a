-- ===== src/Graph/Compile.antt =====
-- `Compile` of graph/graph.go and `NewExecutor` of graph/executor.go.
pub mod Correct
pub mod Counts
use blades.Common.{ℕ, ◌+◌, String, str_eq, Bool, List, [], ◌∷◌, Option, none, some, Result, ok, err}
use blades.Common.StringMap.{insert, get_or}
use blades.Graph.Types.{ConditionalEdge, Graph, GraphError}
use blades.Graph.Build.{out_edges}
use blades.Graph.Check.{has_conditional, validate, validate_structure}
use blades.Graph.Cycle.{ensure_acyclic}
use blades.Graph.Reach.{ensure_reachable}

module _ (V : Type 0) where
  pub record NodeInfo : Type 0 where
    pub out_edges : List (ConditionalEdge V)
    pub unconditional_dests : List String
    pub dependencies : ℕ
    pub is_finish : Bool
    pub has_conditions : Bool

  -- The field `checkpointer` is passed where it is used.
  pub record Executor : Type 0 where
    pub graph : Graph V
    pub node_infos : List (String × NodeInfo)

-- A check that may run out of fuel, and then the rest.
infixl 5 ◌>>?◌
abbrev pub ◌>>?◌ {ℓ} :
    {A : Type ℓ}
    → Option (Result GraphError (Unit {0}))
    → Option (Result GraphError A)
    → Option (Result GraphError A)
none >>? k = none
some (err e) >>? k = some (err e)
some (ok _) >>? k = k

module _ {V : Type 0} where
  -- The inner loop over the edges of one node, `dependencyCounts[edge.to]++`.
  unfoldable pub count_targets : List (ConditionalEdge V) → List (String × ℕ) → List (String × ℕ)
  count_targets [] counts = counts
  count_targets (edge ∷ edges) counts =
      count_targets edges (insert edge.to (get_or 0 edge.to counts + 1) counts)

  unfoldable pub dependency_counts :
      List (String × List (ConditionalEdge V)) → List (String × ℕ) → List (String × ℕ)
  unfolding count_targets
  dependency_counts [] counts = counts
  dependency_counts ((_, edges) ∷ rest) counts = dependency_counts rest (count_targets edges counts)

  unfoldable pub unconditional_dests : List (ConditionalEdge V) → List String
  unconditional_dests [] = []
  unconditional_dests (edge ∷ edges) = elim edge.condition [
    | none ↦ edge.to ∷ unconditional_dests edges
    | some _ ↦ unconditional_dests edges
  ]

  unfoldable pub node_info : Graph V → List (String × ℕ) → String → NodeInfo V
  unfolding out_edges has_conditional unconditional_dests
  node_info g counts name =
      let edges = out_edges g name in
      record {
        out_edges = edges;
        unconditional_dests = unconditional_dests edges;
        dependencies = get_or 0 name counts;
        is_finish = str_eq name g.finish_point;
        has_conditions = has_conditional edges;
      }

  unfoldable pub build_infos :
      {H : Type 0} → Graph V → List (String × ℕ) → List (String × H) → List (String × NodeInfo V)
  unfolding node_info
  build_infos g counts [] = []
  build_infos g counts ((name, _) ∷ nodes) =
      (name, node_info g counts name) ∷ build_infos g counts nodes

  unfoldable pub new_executor : Graph V → Executor V
  unfolding dependency_counts build_infos
  new_executor g = record {
    graph = g;
    node_infos = build_infos g (dependency_counts g.edges []) g.nodes;
  }

  -- The four checks, in their order; the outer `none` is a check that ran out of fuel.
  unfoldable pub compile : Graph V → Option (Result GraphError (Executor V))
  compile g =
      some (validate g)
      >>? (ensure_acyclic g
          >>? (ensure_reachable g >>? (some (validate_structure g) >>? some (ok (new_executor g)))))
