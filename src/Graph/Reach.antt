-- ===== src/Graph/Reach.antt =====
-- `ensureReachable` of graph/graph.go: a breadth-first search from the entry node. Each round
-- takes one name from the queue, so one more round than there are edges, and one, is enough.
pub mod Fuel
pub mod Correct
use blades.Common.{
  ℕ, zero, suc, ◌+◌, String, str_eq, Bool, true, false, List, [], ◌∷◌, ◌++◌, Option, none, some,
  if◌then◌else◌, Result, ok, err, length,
}
use blades.Common.StringMap.{insert, get_or}
use blades.Graph.Types.{ConditionalEdge, Graph, GraphError, finish_not_reachable}
use blades.Graph.Build.{out_edges, targets}

module _ {V : Type 0} where
  abbrev pub edge_count : List (String × List (ConditionalEdge V)) → ℕ
  edge_count [] = 0
  edge_count ((_, edges) ∷ rest) = length edges + edge_count rest

  -- The loop over the queue. `none`: the fuel ran out.
  unfoldable pub search_from :
      Graph V → ℕ → List String → List (String × Bool) → Option (Result GraphError (Unit {0}))
  search_from g zero queue seen = none
  search_from g (suc fuel) [] seen = some (err (finish_not_reachable g.finish_point))
  search_from g (suc fuel) (node ∷ queue) seen = elim (get_or false node seen) [
    | true ↦ search_from g fuel queue seen
    | false ↦ elim (str_eq node g.finish_point) [
      | true ↦ some (ok tt)
      | false ↦ search_from g fuel (queue ++ targets (out_edges g node)) (insert node true seen)
    ]
  ]

  unfoldable pub ensure_reachable : Graph V → Option (Result GraphError (Unit {0}))
  ensure_reachable g =
      if str_eq g.entry_point g.finish_point
      then some (ok tt)
      else search_from g (suc (suc (edge_count g.edges))) (g.entry_point ∷ []) []
