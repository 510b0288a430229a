-- ===== src/Graph/Task/Start.antt =====
-- A fresh run starts with the invariant, if the graph is valid.
use blades.Common.{
  ℕ, ltb, String, str_eq, eq_iff, ◌≡◌, refl, true, false, Bool-cases, List, [], ◌∷◌, inl, inr,
  arith, if◌then◌else◌, ◌&&◌, All,
}
use blades.Common.StringMap.{get_or, insert, has_key, get_or-insert}
use blades.Graph.Types.{State, Handler, ConditionalEdge, Graph}
use blades.Graph.Check.Correct.{HasKnownEnds, IsValid}
use blades.Graph.Compile.{new_executor, build_infos, node_info, dependency_counts}
use blades.Graph.Compile.Counts.{count_to, in_degree, dependency_counts-eq-in_degree}
use blades.Graph.Task.State.{prepare_remaining}
use blades.Graph.Task.Sums.{unreported-none}
use blades.Graph.Task.Invariant.{Holds}
use blades.Graph.Task.Run.{start}

module _ {V : Type 0} where
  count_to-unknown :
      (n : String) (nodes : List (String × Handler V)) (edges : List (ConditionalEdge V))
      → has_key n nodes ≡ false
      → All (λ e. has_key e.to nodes ≡ true) edges
      → count_to n edges ≡ 0
  count_to-unknown n nodes [] u h = refl
  count_to-unknown n nodes (edge ∷ edges) u h = elim (Bool-cases (str_eq edge.to n)) [
    | inl same ↦ let e = rw ((eq_iff edge.to n).0 same) at h.0 in cc
    | inr other ↦ rw other (omega (arith, count_to-unknown n nodes edges u h.1))
  ]

  -- No edge of a valid graph leads to a name that is no node.
  in_degree-unknown :
      (n : String) (nodes : List (String × Handler V))
      (edges : List (String × List (ConditionalEdge V)))
      → has_key n nodes ≡ false
      → All (HasKnownEnds nodes) edges
      → in_degree n edges ≡ 0
  in_degree-unknown n nodes [] u h = refl
  in_degree-unknown n nodes ((from, es) ∷ edges) u h =
      omega (arith, count_to-unknown n nodes es u h.0.1, in_degree-unknown n nodes edges u h.1)

  prepare_remaining-get :
      (g : Graph V) (counts remaining : List (String × ℕ)) (n : String)
      (nodes : List (String × Handler V))
      → get_or 0 n (prepare_remaining (build_infos g counts nodes) remaining) ≡ (
          if has_key n nodes && ltb 0 (get_or 0 n counts)
          then get_or 0 n counts
          else get_or 0 n remaining)
  unfolding prepare_remaining build_infos node_info has_key
  prepare_remaining-get g counts remaining n [] = refl
  prepare_remaining-get g counts remaining n ((name, x) ∷ nodes) = ground (
    arith,
    prepare_remaining-get g counts
        (if ltb 0 (get_or 0 name counts)
          then insert name (get_or 0 name counts) remaining
          else remaining)
        n nodes,
    get_or-insert 0 name n (get_or 0 name counts) remaining,
    eq_iff name n,
  )

  pub start-Holds :
      (g : Graph V) (state : State V) (checkpointer : _) (id n : String)
      → IsValid g
      → Holds g (start (new_executor g) state checkpointer id).task 0 0 0 0 n
  unfolding start new_executor get_or
  start-Holds g state checkpointer id n v =
      let counts = dependency_counts g.edges [] in
      let remaining = prepare_remaining-get g counts [] n g.nodes in
      let degree = dependency_counts-eq-in_degree n g.edges in
      elim (Bool-cases (has_key n g.nodes)) [
        | inl known ↦
            ground (arith, unreported-none n g.edges, remaining, degree, eq_iff g.entry_point n)
        | inr unknown ↦ ground (
          arith,
          unreported-none n g.edges,
          in_degree-unknown n g.nodes g.edges unknown v.ends_known,
          eq_iff g.entry_point n,
        )
      ]
