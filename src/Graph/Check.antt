-- ===== src/Graph/Check.antt =====
-- `validate` and `validateStructure` of graph/graph.go.
pub mod Correct
use blades.Common.{
  String, str_eq, Bool, true, false, not, ◌&&◌, ◌||◌, List, [], ◌∷◌, none, some, Result, ok, ◌>>◌,
  guard,
}
use blades.Common.StringMap.{has_key}
use blades.Graph.Types.{
  Handler, ConditionalEdge, Graph, GraphError, entry_not_set, finish_not_set, start_not_found,
  end_not_found, edge_from_unknown, edge_to_unknown, finish_has_edges, no_outgoing, mixed_edges,
}
use blades.Graph.Build.{out_edges}

abbrev pub is_empty {ℓ} : {A : Type ℓ} → List A → Bool
is_empty [] = true
is_empty (_ ∷ _) = false

module _ {V : Type 0} where
  unfoldable pub check_targets :
      List (String × Handler V) → List (ConditionalEdge V) → Result GraphError (Unit {0})
  check_targets nodes [] = ok tt
  check_targets nodes (edge ∷ edges) = do
    guard (has_key edge.to nodes) (edge_to_unknown edge.to)
    check_targets nodes edges

  unfoldable pub check_edges :
      List (String × Handler V)
      → List (String × List (ConditionalEdge V))
      → Result GraphError (Unit {0})
  check_edges nodes [] = ok tt
  check_edges nodes ((from, edges) ∷ rest) = do
    guard (has_key from nodes) (edge_from_unknown from)
    check_targets nodes edges
    check_edges nodes rest

  unfoldable pub validate : Graph V → Result GraphError (Unit {0})
  validate g = do
    guard (not (str_eq g.entry_point "")) entry_not_set
    guard (not (str_eq g.finish_point "")) finish_not_set
    guard (has_key g.entry_point g.nodes) (start_not_found g.entry_point)
    guard (has_key g.finish_point g.nodes) (end_not_found g.finish_point)
    check_edges g.nodes g.edges

  unfoldable pub check_outgoing : Graph V → List (String × Handler V) → Result GraphError (Unit {0})
  check_outgoing g [] = ok tt
  check_outgoing g ((name, _) ∷ nodes) = do
    guard (str_eq name g.finish_point || not (is_empty (out_edges g name))) (no_outgoing name)
    check_outgoing g nodes

  -- The two flags of the inner loop.
  unfoldable pub has_conditional : List (ConditionalEdge V) → Bool
  has_conditional [] = false
  has_conditional (edge ∷ edges) = elim edge.condition [
    | none ↦ has_conditional edges
    | some _ ↦ true
  ]

  unfoldable pub has_unconditional : List (ConditionalEdge V) → Bool
  has_unconditional [] = false
  has_unconditional (edge ∷ edges) = elim edge.condition [
    | none ↦ true
    | some _ ↦ has_unconditional edges
  ]

  unfoldable pub check_mixed :
      List (String × List (ConditionalEdge V)) → Result GraphError (Unit {0})
  check_mixed [] = ok tt
  check_mixed ((from, edges) ∷ rest) = do
    guard (not (has_conditional edges && has_unconditional edges)) (mixed_edges from)
    check_mixed rest

  unfoldable pub validate_structure : Graph V → Result GraphError (Unit {0})
  validate_structure g = do
    guard (is_empty (out_edges g g.finish_point)) (finish_has_edges g.finish_point)
    check_outgoing g g.nodes
    check_mixed g.edges
