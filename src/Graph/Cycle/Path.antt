-- ===== src/Graph/Cycle/Path.antt =====
-- What the search keeps on its stack is a chain of edges, so a cycle that it reports is one.
use blades.Common.{
  ℕ, zero, suc, String, str_eq, eq_iff, eq_refl, ◌≡◌, refl, ◌∙◌, ap, Bool-cases, false, List, [],
  ◌∷◌, ◌++◌, some, inl, inr, arith, err, length, All, All-intro, In, here, there, In-append_left,
  In-append_right,
}
use blades.Common.StringMap.{get_or, get_or-insert}
use blades.Graph.Types.{Handler, ConditionalEdge, Graph, GraphError, cycle_found}
use blades.Graph.Build.{out_edges, targets}
use blades.Graph.Edges.{Edge, IsChain, IsCycle}
use blades.Graph.Cycle.{
  NodeState, unvisited, visiting, visited, Walk, Outcome, done, cycle, out_of_fuel, state_of,
  and_then, enter, leave, index_of, cycle_start, cycle_path, drop_last, visit_edges, visit,
  visit_all, start_walk, verdict, ensure_acyclic,
}

drop_last-snoc : (xs : List String) (x : String) → drop_last (xs ++ x ∷ []) ≡ xs
unfolding drop_last
drop_last-snoc [] x = refl
drop_last-snoc (y ∷ []) x = refl
drop_last-snoc (y ∷ z ∷ xs) x = ap (λ l. y ∷ l) (drop_last-snoc (z ∷ xs) x)

index_of-In : (x : String) (xs : List String) → In x xs → (i : ℕ) × (index_of x xs ≡ some i)
unfolding index_of
index_of-In x [] m = elim m [ ]
index_of-In x (y ∷ xs) here = (0, rw (eq_refl y))
index_of-In x (y ∷ xs) (there m) = elim (Bool-cases (str_eq y x)) [
  | inl same ↦ (0, rw same)
  | inr other ↦ let (i, e) = index_of-In x xs m in (suc i, rw (other, e))
]

cycle_path-head : (x : String) (xs : List String) → cycle_path x (x ∷ xs) ≡ x ∷ xs ++ x ∷ []
unfolding cycle_path cycle_start index_of
cycle_path-head x xs = ground (arith, eq_iff x x)

cycle_path-tail :
    (x y : String) (xs : List String)
    → str_eq y x ≡ false
    → In x xs
    → cycle_path x (y ∷ xs) ≡ cycle_path x xs
unfolding cycle_path cycle_start index_of
cycle_path-tail x y xs other m = let (i, e) = index_of-In x xs m in ground arith

In-tail : (y x : String) (xs : List String) → str_eq y x ≡ false → In x (y ∷ xs) → In x xs
In-tail y x xs other here = ground (arith, eq_iff x x)
In-tail y x xs other (there m) = m

-- Leaving a node takes it off the nodes that are being visited.
leave_visiting :
    (w w' : Walk) (node n : String)
    → ((k : String) → state_of w' k ≡ visiting → state_of (enter node w) k ≡ visiting)
    → state_of (leave node w') n ≡ visiting
    → state_of w n ≡ visiting
leave_visiting w w' node n h e = ground (
  arith,
  h n,
  get_or-insert unvisited node n visited w'.states,
  get_or-insert unvisited node n visiting w.states,
  eq_iff node n,
)

module _ {V : Type 0} (g : Graph V) where
  IsChain-tail : (x : String) (xs : List String) → IsChain g (x ∷ xs) → IsChain g xs
  IsChain-tail x [] h = tt
  IsChain-tail x (y ∷ xs) h = h.1

  IsChain-snoc :
      (xs : List String) (a b : String)
      → IsChain g (xs ++ a ∷ [])
      → Edge g a b
      → IsChain g ((xs ++ a ∷ []) ++ b ∷ [])
  IsChain-snoc [] a b h e = (e, tt)
  IsChain-snoc (x ∷ []) a b h e = (h.0, (e, tt))
  IsChain-snoc (x ∷ y ∷ xs) a b h e = (h.0, IsChain-snoc (y ∷ xs) a b h.1 e)

  cycle_path-IsCycle :
      (xs : List String) (a next : String)
      → IsChain g (xs ++ a ∷ [])
      → Edge g a next
      → In next (xs ++ a ∷ [])
      → IsCycle g (cycle_path next (xs ++ a ∷ []))
  cycle_path-IsCycle [] a next h e (there m) = elim m [ ]
  cycle_path-IsCycle [] a next h e here =
      rw (cycle_path-head a []) (record { start = a; middle = []; closed = refl; chain = (e, tt) })
  cycle_path-IsCycle (x ∷ xs) a next h e m = elim (Bool-cases (str_eq x next)) [
    | inl same ↦
        let at : x ≡ next = (eq_iff x next).0 same in
        rw (← at) (
          rw (cycle_path-head x (xs ++ a ∷ [])) (record {
            start = x;
            middle = xs ++ a ∷ [];
            closed = refl;
            chain = IsChain-snoc (x ∷ xs) a x h (rw (← at) at e);
          }))
    | inr other ↦
        let later : In next (xs ++ a ∷ []) = In-tail x next (xs ++ a ∷ []) other m in
        rw (cycle_path-tail next x (xs ++ a ∷ []) other later)
          (cycle_path-IsCycle xs a next (IsChain-tail x (xs ++ a ∷ []) h) e later)
  ]

  -- Every node that is being visited is on the stack.
  abbrev pub IsTracked : Walk → Type 0
  IsTracked w = (n : String) → state_of w n ≡ visiting → In n w.stack

  -- The nodes that are being visited, and the stack, are as before; or a cycle was found.
  abbrev pub Restores : Walk → Outcome → Type 0
  Restores w (done w') =
      (w'.stack ≡ w.stack) × ((n : String) → state_of w' n ≡ visiting → state_of w n ≡ visiting)
  Restores w (cycle c) = IsCycle g c
  Restores w out_of_fuel = Unit

  and_then-Restores :
      (w : Walk) (o : Outcome) (f : Walk → Outcome)
      → Restores w o
      → ((w' : Walk) → Restores w (done w') → Restores w (f w'))
      → Restores w (and_then o f)
  and_then-Restores w (done w') f h k = k w' h
  and_then-Restores w (cycle c) f h k = h
  and_then-Restores w out_of_fuel f h k = h

  Restores-trans : (w w' : Walk) (o : Outcome) → Restores w (done w') → Restores w' o → Restores w o
  Restores-trans w w' (done v) h k = (k.0 ∙ h.0, λ n e. h.1 n (k.1 n e))
  Restores-trans w w' (cycle c) h k = k
  Restores-trans w w' out_of_fuel h k = k

  pub IsTracked-Restores : (w w' : Walk) → Restores w (done w') → IsTracked w → IsTracked w'
  IsTracked-Restores w w' h t n e = rw h.0 (t n (h.1 n e))

  enter-IsTracked : (w : Walk) (node : String) → IsTracked w → IsTracked (enter node w)
  enter-IsTracked w node t n e = elim (Bool-cases (str_eq node n)) [
    | inl same ↦ rw ((eq_iff node n).0 same) (In-append_right w.stack (n ∷ []) here)
    | inr other ↦
        In-append_left w.stack (node ∷ [])
          (t n (ground (arith, get_or-insert unvisited node n visiting w.states)))
  ]

  -- Leaving the node that was entered, from a walk that came back to it.
  leave-Restores :
      (w w' : Walk) (node : String)
      → Restores (enter node w) (done w')
      → Restores w (done (leave node w'))
  leave-Restores w w' node h =
      (ap drop_last h.0 ∙ drop_last-snoc w.stack node, λ n e. leave_visiting w w' node n h.1 e)

  -- The premise of a visit: the stack and the node are a chain.
  visit_edges-Restores :
      (rec : String → Walk → Outcome) (cur : String) (pre : List String)
      (edges : List (ConditionalEdge V)) (w : Walk)
      → ((n : String) (w' : Walk)
          → IsChain g (w'.stack ++ n ∷ [])
          → IsTracked w'
          → Restores w' (rec n w'))
      → IsChain g (pre ++ cur ∷ [])
      → w.stack ≡ pre ++ cur ∷ []
      → IsTracked w
      → All (Edge g cur) (targets edges)
      → Restores w (visit_edges rec edges w)
  unfolding visit_edges
  visit_edges-Restores rec cur pre [] w h c at t es = (refl, λ n e. e)
  visit_edges-Restores rec cur pre (edge ∷ edges) w h c at t es =
      by_state (state_of w edge.to) refl
        (λ w' at' t'. visit_edges-Restores rec cur pre edges w' h c at' t' es.1)
    where
      by_state :
          (s : NodeState)
          → state_of w edge.to ≡ s
          → ((w' : Walk)
              → w'.stack ≡ pre ++ cur ∷ []
              → IsTracked w'
              → Restores w' (visit_edges rec edges w'))
          → Restores w (visit_edges rec (edge ∷ edges) w)
      by_state visiting e k =
          rw (e, visit_edges)
            (rw at (cycle_path-IsCycle pre cur edge.to c es.0 (rw at at (t edge.to e))))
      by_state visited e k = rw (e, visit_edges) (k w at t)
      by_state unvisited e k =
          rw (e, visit_edges)
            (and_then-Restores w (rec edge.to w) (visit_edges rec edges)
              (h edge.to w (rw at (IsChain-snoc pre cur edge.to c es.0)) t)
              (λ w' r.
                Restores-trans w w' (visit_edges rec edges w') r
                  (k w' (r.0 ∙ at) (IsTracked-Restores w w' r t))))

  pub visit-Restores :
      (fuel : ℕ) (node : String) (w : Walk)
      → IsChain g (w.stack ++ node ∷ [])
      → IsTracked w
      → Restores w (visit g fuel node w)
  unfolding visit
  visit-Restores zero node w c t = tt
  visit-Restores (suc fuel) node w c t =
      finish (visit_edges (visit g fuel) (out_edges g node) (enter node w)) (
        visit_edges-Restores (visit g fuel) node w.stack (out_edges g node) (enter node w)
          (visit-Restores fuel) c refl (enter-IsTracked w node t)
          (All-intro (Edge g node) (targets (out_edges g node)) (λ a m. m)))
    where
      finish :
          (o : Outcome)
          → Restores (enter node w) o
          → Restores w (and_then o (λ w'. done (leave node w')))
      finish (done w') h = leave-Restores w w' node h
      finish (cycle c') h = h
      finish out_of_fuel h = h

  visit_all-Restores :
      (fuel : ℕ) (nodes : List (String × Handler V)) (w : Walk)
      → w.stack ≡ []
      → IsTracked w
      → Restores w (visit_all g fuel nodes w)
  unfolding visit_all
  visit_all-Restores fuel [] w top t = (refl, λ n e. e)
  visit_all-Restores fuel ((name, handler) ∷ nodes) w top t =
      by_state (state_of w name) refl (λ w' top' t'. visit_all-Restores fuel nodes w' top' t')
    where
      by_state :
          (s : NodeState)
          → state_of w name ≡ s
          → ((w' : Walk) → w'.stack ≡ [] → IsTracked w' → Restores w' (visit_all g fuel nodes w'))
          → Restores w (visit_all g fuel ((name, handler) ∷ nodes) w)
      by_state visiting e k = rw (e, visit_all) (k w top t)
      by_state visited e k = rw (e, visit_all) (k w top t)
      by_state unvisited e k =
          rw (e, visit_all)
            (and_then-Restores w (visit g fuel name w) (visit_all g fuel nodes)
              (visit-Restores fuel name w (rw top tt) t)
              (λ w' r.
                Restores-trans w w' (visit_all g fuel nodes w') r
                  (k w' (r.0 ∙ top) (IsTracked-Restores w w' r t))))

  start-IsTracked : IsTracked start_walk
  unfolding get_or
  start-IsTracked n e = cc

  verdict-IsCycle :
      (w : Walk) (o : Outcome) (e : GraphError)
      → Restores w o
      → verdict o ≡ some (err e)
      → (c : List String) × (e ≡ cycle_found c) × IsCycle g c
  verdict-IsCycle w (done w') e h q = cc
  verdict-IsCycle w (cycle c) e h q = (c, cc, h)
  verdict-IsCycle w out_of_fuel e h q = cc

  -- When the search rejects a graph, the names in its error are a closed walk along the edges of
  -- the graph.
  pub ensure_acyclic-IsCycle :
      (e : GraphError)
      → ensure_acyclic g ≡ some (err e)
      → (c : List String) × (e ≡ cycle_found c) × IsCycle g c
  unfolding ensure_acyclic
  ensure_acyclic-IsCycle e q =
      verdict-IsCycle start_walk (visit_all g (suc (length g.edges)) g.nodes start_walk) e
        (visit_all-Restores (suc (length g.edges)) g.nodes start_walk refl start-IsTracked) q
