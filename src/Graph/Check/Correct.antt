-- ===== src/Graph/Check/Correct.antt =====
-- What `validate` and `validateStructure` accept, without reference to the order of their tests.
use blades.Common.{
  String, str_eq, eq_iff, ◌≡◌, ◌≢◌, ◌⊎◌, ◌↔◌, refl, true, false, List, [], ◌∷◌, none, inl, inr, ok,
  arith, All, In, here, there, Bool-cases,
}
use blades.Common.StringMap.{has_key, get_or}
use blades.Graph.Types.{Handler, ConditionalEdge, Graph}
use blades.Graph.Build.{out_edges, targets}
use blades.Graph.Edges.{Edge}
use blades.Graph.Check.{
  is_empty, check_targets, check_edges, validate, check_outgoing, has_conditional,
  has_unconditional, check_mixed, validate_structure,
}

is_empty_iff {ℓ} : {A : Type ℓ} (xs : List A) → (is_empty xs ≡ true) ↔ (xs ≡ [])
is_empty_iff [] = ground arith
is_empty_iff (x ∷ xs) = ground arith

module _ {V : Type 0} where
  abbrev pub HasKnownEnds : List (String × Handler V) → String × List (ConditionalEdge V) → Type 0
  HasKnownEnds nodes entry =
      (has_key entry.0 nodes ≡ true) × All (λ e. has_key e.to nodes ≡ true) entry.1

  -- The entry and the finish are nodes with a name, and every edge joins two nodes.
  pub record IsValid (g : Graph V) : Type 0 where
    pub entry_set : g.entry_point ≢ ""
    pub finish_set : g.finish_point ≢ ""
    pub entry_known : has_key g.entry_point g.nodes ≡ true
    pub finish_known : has_key g.finish_point g.nodes ≡ true
    pub ends_known : All (HasKnownEnds g.nodes) g.edges

  check_targets_iff :
      (nodes : List (String × Handler V)) (edges : List (ConditionalEdge V))
      → (check_targets nodes edges ≡ ok tt) ↔ All (λ e. has_key e.to nodes ≡ true) edges
  unfolding check_targets
  check_targets_iff nodes [] = (λ e. tt, λ h. refl)
  check_targets_iff nodes (edge ∷ edges) = ground (arith, check_targets_iff nodes edges)

  check_edges_iff :
      (nodes : List (String × Handler V)) (edges : List (String × List (ConditionalEdge V)))
      → (check_edges nodes edges ≡ ok tt) ↔ All (HasKnownEnds nodes) edges
  unfolding check_edges
  check_edges_iff nodes [] = (λ e. tt, λ h. refl)
  check_edges_iff nodes ((from, edges) ∷ rest) =
      ground (arith, check_targets_iff nodes edges, check_edges_iff nodes rest)

  -- `validate` returns nil exactly for the graphs that are valid.
  pub validate_iff : (g : Graph V) → (validate g ≡ ok tt) ↔ IsValid g
  unfolding validate
  validate_iff g =
      ground
        (arith, eq_iff g.entry_point "", eq_iff g.finish_point "", check_edges_iff g.nodes g.edges)

  -- All edges of a node carry a condition, or none does.
  abbrev pub IsUnmixed : String × List (ConditionalEdge V) → Type 0
  IsUnmixed entry = All (λ e. e.condition ≡ none) entry.1 ⊎ All (λ e. e.condition ≢ none) entry.1

  -- The finish node is last, every other node goes on, and no node mixes its edges.
  pub record IsStructured (g : Graph V) : Type 0 where
    pub finish_last : out_edges g g.finish_point ≡ []
    pub goes_on : All (λ n. (n.0 ≡ g.finish_point) ⊎ (out_edges g n.0 ≢ [])) g.nodes
    pub unmixed : All IsUnmixed g.edges

  no_conditional :
      (edges : List (ConditionalEdge V))
      → (has_conditional edges ≡ false) ↔ All (λ e. e.condition ≡ none) edges
  unfolding has_conditional
  no_conditional [] = (λ e. tt, λ h. refl)
  no_conditional (edge ∷ edges) = ground (arith, no_conditional edges)

  no_unconditional :
      (edges : List (ConditionalEdge V))
      → (has_unconditional edges ≡ false) ↔ All (λ e. e.condition ≢ none) edges
  unfolding has_unconditional
  no_unconditional [] = (λ e. tt, λ h. refl)
  no_unconditional (edge ∷ edges) = ground (arith, no_unconditional edges)

  check_mixed_iff :
      (edges : List (String × List (ConditionalEdge V)))
      → (check_mixed edges ≡ ok tt) ↔ All IsUnmixed edges
  unfolding check_mixed
  check_mixed_iff [] = (λ e. tt, λ h. refl)
  check_mixed_iff ((from, edges) ∷ rest) =
      ground (arith, no_conditional edges, no_unconditional edges, check_mixed_iff rest)

  check_outgoing_iff :
      (g : Graph V) (nodes : List (String × Handler V))
      → (check_outgoing g nodes ≡ ok tt)
        ↔ All (λ n. (n.0 ≡ g.finish_point) ⊎ (out_edges g n.0 ≢ [])) nodes
  unfolding check_outgoing
  check_outgoing_iff g [] = (λ e. tt, λ h. refl)
  check_outgoing_iff g ((name, h) ∷ nodes) = ground (
    arith,
    eq_iff name g.finish_point,
    is_empty_iff (out_edges g name),
    check_outgoing_iff g nodes,
  )

  -- `validateStructure` returns nil exactly for the graphs that are structured.
  pub validate_structure_iff : (g : Graph V) → (validate_structure g ≡ ok tt) ↔ IsStructured g
  unfolding validate_structure
  validate_structure_iff g = ground (
    arith,
    is_empty_iff (out_edges g g.finish_point),
    check_outgoing_iff g g.nodes,
    check_mixed_iff g.edges,
  )

  target_known :
      (nodes : List (String × Handler V)) (edges : List (ConditionalEdge V)) (b : String)
      → All (λ e. has_key e.to nodes ≡ true) edges
      → In b (targets edges)
      → has_key b nodes ≡ true
  target_known nodes [] b h m = elim m [ ]
  target_known nodes (edge ∷ edges) b h here = h.0
  target_known nodes (edge ∷ edges) b h (there m) = target_known nodes edges b h.1 m

  Edge-known :
      (nodes : List (String × Handler V)) (m : List (String × List (ConditionalEdge V)))
      (a b : String)
      → All (HasKnownEnds nodes) m
      → In b (targets (get_or [] a m))
      → (has_key a nodes ≡ true) × (has_key b nodes ≡ true)
  unfolding get_or
  Edge-known nodes [] a b h e = elim e [ ]
  Edge-known nodes ((from, edges) ∷ m) a b h e = elim (Bool-cases (str_eq from a)) [
    | inl same ↦
        (rw ((eq_iff from a).0 same) at h.0.0, target_known nodes edges b h.0.1 (rw same at e))
    | inr other ↦ Edge-known nodes m a b h.1 (rw other at e)
  ]

  -- A valid graph has edges between nodes only.
  pub Edge-IsValid :
      (g : Graph V) (a b : String)
      → IsValid g
      → Edge g a b
      → (has_key a g.nodes ≡ true) × (has_key b g.nodes ≡ true)
  unfolding out_edges
  Edge-IsValid g a b v e = Edge-known g.nodes g.edges a b v.ends_known e
