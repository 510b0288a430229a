-- ===== src/Graph/Reach/Fuel.antt =====
-- `ensureReachable` ends: a round takes a name from the queue, and the edges of a node are queued
-- once, when it is first seen.
use blades.Common.{
  ℕ, zero, suc, ◌+◌, ◌≤◌, ◌<◌, String, str_eq, eq_iff, ◌≡◌, ◌≢◌, refl, Bool, true, false,
  Bool-cases, List, [], ◌∷◌, ◌++◌, none, inl, inr, arith, length, length-append, if◌then◌else◌,
}
use blades.Common.StringMap.{get_or, insert, get_or-insert}
use blades.Graph.Types.{ConditionalEdge, Graph}
use blades.Graph.Build.{out_edges, targets}
use blades.Graph.Reach.{edge_count, search_from, ensure_reachable}

module _ {V : Type 0} where
  -- The edges that may still be queued.
  abbrev open_edges : List (String × Bool) → List (String × List (ConditionalEdge V)) → ℕ
  open_edges seen [] = 0
  open_edges seen ((k, edges) ∷ m) =
      (if get_or false k seen then 0 else length edges) + open_edges seen m

  open_edges-le : (m : List (String × List (ConditionalEdge V))) → open_edges [] m ≤ edge_count m
  unfolding get_or
  open_edges-le [] = omega arith
  open_edges-le ((k, edges) ∷ m) = omega (arith, open_edges-le m)

  open_edges_mono :
      (seen : List (String × Bool)) (node : String) (m : List (String × List (ConditionalEdge V)))
      → open_edges (insert node true seen) m ≤ open_edges seen m
  open_edges_mono seen node [] = omega arith
  open_edges_mono seen node ((k, edges) ∷ m) =
      ground (arith, open_edges_mono seen node m, get_or-insert false node k true seen)

  open_edges-insert :
      (seen : List (String × Bool)) (node : String) (m : List (String × List (ConditionalEdge V)))
      → get_or false node seen ≡ false
      → length (get_or [] node m) + open_edges (insert node true seen) m ≤ open_edges seen m
  unfolding get_or
  open_edges-insert seen node [] new = omega arith
  open_edges-insert seen node ((k, edges) ∷ m) new = ground (
    arith,
    open_edges-insert seen node m new,
    open_edges_mono seen node m,
    get_or-insert false node k true seen,
    eq_iff k node,
    eq_iff node k,
  )

  length-targets : (edges : List (ConditionalEdge V)) → length (targets edges) ≡ length edges
  length-targets [] = refl
  length-targets (edge ∷ edges) = omega (arith, length-targets edges)

  search_from-ne-none :
      (g : Graph V) (fuel : ℕ) (queue : List String) (seen : List (String × Bool))
      → length queue + open_edges seen g.edges < fuel
      → search_from g fuel queue seen ≢ none
  unfolding search_from out_edges
  search_from-ne-none g zero queue seen h = elim h [ ]
  search_from-ne-none g (suc fuel) [] seen h = λ e. cc
  search_from-ne-none g (suc fuel) (node ∷ queue) seen h =
      elim (Bool-cases (get_or false node seen)) [
        | inl old ↦ rw (old, search_from) (search_from-ne-none g fuel queue seen (omega arith))
        | inr new ↦ elim (Bool-cases (str_eq node g.finish_point)) [
          | inl found ↦ rw (new, found, search_from) (λ e. cc)
          | inr other ↦
              let edges = get_or [] node g.edges in
              rw (new, other, search_from)
                (search_from-ne-none g fuel (queue ++ targets edges) (insert node true seen) (
                  omega (
                    arith,
                    open_edges-insert seen node g.edges new,
                    length-append queue (targets edges),
                    length-targets edges,
                  )))
        ]
      ]

  -- The search for the finish node always ends with an answer, whatever the graph.
  pub ensure_reachable-ne-none : (g : Graph V) → ensure_reachable g ≢ none
  unfolding ensure_reachable
  ensure_reachable-ne-none g = elim (Bool-cases (str_eq g.entry_point g.finish_point)) [
    | inl same ↦ rw same (λ e. cc)
    | inr other ↦ rw other (
        search_from-ne-none g (suc (suc (edge_count g.edges))) (g.entry_point ∷ []) []
          (omega (arith, open_edges-le g.edges)))
  ]
