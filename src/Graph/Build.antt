-- ===== src/Graph/Build.antt =====
-- The builder methods of graph/graph.go and the options.
use blades.Common.{
  map, String, Bool, true, List, [], ◌∷◌, ◌++◌, Option, none, some, if◌then◌else◌, apply_options,
}
use blades.Common.StringMap.{has_key, insert, get_or}
use blades.Graph.Types.{Handler, Middleware, EdgeCondition, ConditionalEdge, Graph}

module _ {V : Type 0} where
  unfoldable pub with_parallel : Bool → Graph V → Graph V
  with_parallel enabled g = record g { parallel = enabled }

  unfoldable pub with_middleware : List (Middleware V) → Graph V → Graph V
  with_middleware ms g = record g { middlewares = ms }

  unfoldable pub with_edge_condition :
      Option (EdgeCondition V) → ConditionalEdge V → ConditionalEdge V
  with_edge_condition condition edge = record edge { condition = condition }

  -- A nil option is skipped.
  apply_graph_options : List (Option (Graph V → Graph V)) → Graph V → Graph V
  apply_graph_options [] g = g
  apply_graph_options (none ∷ opts) g = apply_graph_options opts g
  apply_graph_options (some opt ∷ opts) g = apply_graph_options opts (opt g)

  unfoldable pub new : List (Option (Graph V → Graph V)) → Graph V
  unfolding apply_graph_options
  new opts = apply_graph_options opts (record {
    nodes = [];
    edges = [];
    entry_point = "";
    finish_point = "";
    parallel = true;
    middlewares = [];
  })

  unfoldable pub add_node : String → Handler V → Graph V → Graph V
  add_node name handler g =
      if has_key name g.nodes then g else record g { nodes = insert name handler g.nodes }

  -- `g.edges[node]`, nil where the node has none
  unfoldable pub out_edges : Graph V → String → List (ConditionalEdge V)
  unfolding get_or
  out_edges g node = get_or [] node g.edges

  abbrev pub targets : List (ConditionalEdge V) → List String
  targets edges = map (λ edge. edge.to) edges

  unfoldable pub add_edge :
      String → String → List (ConditionalEdge V → ConditionalEdge V) → Graph V → Graph V
  unfolding apply_options
  add_edge from to opts g =
      let edge = apply_options opts (record { to = to; condition = none }) in
      record g { edges = insert from (out_edges g from ++ edge ∷ []) g.edges }

  unfoldable pub set_entry_point : String → Graph V → Graph V
  set_entry_point start g = record g { entry_point = start }

  unfoldable pub set_finish_point : String → Graph V → Graph V
  set_finish_point end g = record g { finish_point = end }
