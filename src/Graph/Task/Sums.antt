-- ===== src/Graph/Task/Sums.antt =====
-- Counting a name in the places of a run: the queue, the goroutines, their calls and the log, and
-- the edges that have not reported.
use blades.Common.{
  ℕ, ◌+◌, ◌≤◌, String, str_eq, eq_iff, ◌≡◌, ◌≢◌, refl, Bool, true, false, List, [], ◌∷◌, ◌++◌, inl,
  inr, ◌⊎◌, Bool-cases, Option-cases, ◌||◌, arith, if◌then◌else◌, In, here, there,
}
use blades.Common.StringMap.{get_or, insert, get_or-insert, has_key}
use blades.Graph.Types.{State, Handler, ConditionalEdge, Graph}
use blades.Graph.Build.{out_edges, targets}
use blades.Graph.Compile.{
  node_info, build_infos, unconditional_dests, new_executor, dependency_counts,
}
use blades.Graph.Compile.Counts.{count_to, in_degree, build_infos-get}
use blades.Graph.Task.State.{nil_info, info_of}
use blades.Graph.Task.Satisfy.{
  Call, satisfy, fail_with, skip_calls, condition_calls, activate_calls, process_outgoing,
}
use blades.Graph.Task.Run.{Worker, starting, running, calling}

-- 1 if the names are equal.
abbrev pub hit : String → String → ℕ
hit a n = if str_eq a n then 1 else 0

abbrev pub occurrences : String → List String → ℕ
occurrences n [] = 0
occurrences n (a ∷ names) = hit a n + occurrences n names

pub occurrences-append :
    (n : String) (xs ys : List String)
    → occurrences n (xs ++ ys) ≡ occurrences n xs + occurrences n ys
occurrences-append n [] ys = omega arith
occurrences-append n (x ∷ xs) ys = omega (arith, occurrences-append n xs ys)

-- The calls for `n`.
abbrev pub call_hit : String → Call → ℕ
call_hit n (satisfy from to activated) = hit to n
call_hit n (fail_with error) = 0

abbrev pub calls_for : String → List Call → ℕ
calls_for n [] = 0
calls_for n (call ∷ calls) = call_hit n call + calls_for n calls

pub calls_for-append :
    (n : String) (xs ys : List Call) → calls_for n (xs ++ ys) ≡ calls_for n xs + calls_for n ys
calls_for-append n [] ys = omega arith
calls_for-append n (x ∷ xs) ys = omega (arith, calls_for-append n xs ys)

module _ {V : Type 0} where
  abbrev pub starting_one : String → Worker V → ℕ
  starting_one n (starting m s) = hit m n
  starting_one n (running m s) = 0
  starting_one n (calling m calls) = 0

  abbrev pub running_one : String → Worker V → ℕ
  running_one n (starting m s) = 0
  running_one n (running m s) = hit m n
  running_one n (calling m calls) = 0

  abbrev pub pending_one : String → Worker V → ℕ
  pending_one n (starting m s) = 0
  pending_one n (running m s) = 0
  pending_one n (calling m calls) = calls_for n calls

  abbrev pub total : (Worker V → ℕ) → List (Worker V) → ℕ
  total f [] = 0
  total f (w ∷ ws) = f w + total f ws

  pub total-append :
      (f : Worker V → ℕ) (xs ys : List (Worker V)) → total f (xs ++ ys) ≡ total f xs + total f ys
  total-append f [] ys = omega arith
  total-append f (x ∷ xs) ys = omega (arith, total-append f xs ys)

  -- The edges to `n` from nodes that are not visited.
  abbrev pub unreported :
      List (String × Bool) → String → List (String × List (ConditionalEdge V)) → ℕ
  unreported visited n [] = 0
  unreported visited n ((from, edges) ∷ rest) =
      (if get_or false from visited then 0 else count_to n edges) + unreported visited n rest

  pub unreported_mono :
      (visited : List (String × Bool)) (m n : String)
      (edges : List (String × List (ConditionalEdge V)))
      → unreported (insert m true visited) n edges ≤ unreported visited n edges
  unreported_mono visited m n [] = omega arith
  unreported_mono visited m n ((from, es) ∷ rest) =
      ground (arith, unreported_mono visited m n rest, get_or-insert false m from true visited)

  -- A visit takes the node's own edges off the unreported ones.
  pub unreported-visit :
      (visited : List (String × Bool)) (m n : String)
      (edges : List (String × List (ConditionalEdge V)))
      → get_or false m visited ≡ false
      → unreported (insert m true visited) n edges + count_to n (get_or [] m edges)
        ≤ unreported visited n edges
  unfolding get_or
  unreported-visit visited m n [] new = omega arith
  unreported-visit visited m n ((from, es) ∷ rest) new = ground (
    arith,
    unreported-visit visited m n rest new,
    unreported_mono visited m n rest,
    get_or-insert false m from true visited,
    eq_iff from m,
    eq_iff m from,
  )

  pub unreported-none :
      (n : String) (edges : List (String × List (ConditionalEdge V)))
      → unreported [] n edges ≡ in_degree n edges
  unfolding get_or
  unreported-none n [] = refl
  unreported-none n ((from, es) ∷ rest) = omega (arith, unreported-none n rest)

  count_to-In :
      (n : String) (edges : List (ConditionalEdge V)) → In n (targets edges) → count_to n edges ≢ 0
  count_to-In n [] m = elim m [ ]
  count_to-In n (edge ∷ edges) here = ground (arith, eq_iff n n)
  count_to-In n (edge ∷ edges) (there m) = ground (arith, count_to-In n edges m)

  -- With no unreported edge to `n`, every predecessor of `n` is visited.
  pub unreported-zero :
      (visited : List (String × Bool)) (a n : String)
      (edges : List (String × List (ConditionalEdge V)))
      → unreported visited n edges ≡ 0
      → In n (targets (get_or [] a edges))
      → get_or false a visited ≡ true
  unfolding get_or
  unreported-zero visited a n [] z m = elim m [ ]
  unreported-zero visited a n ((from, es) ∷ rest) z m = elim (Bool-cases (str_eq from a)) [
    | inl same ↦ ground (arith, count_to-In n es (rw same at m), eq_iff from a)
    | inr other ↦ unreported-zero visited a n rest (omega arith) (rw other at m)
  ]

  -- The calls of a node are for the targets of its edges, each at most once for each edge.
  pub skip_calls-for :
      (n from : String) (edges : List (ConditionalEdge V))
      → calls_for n (skip_calls from edges) ≡ count_to n edges
  unfolding skip_calls
  skip_calls-for n from [] = refl
  skip_calls-for n from (edge ∷ edges) = omega (arith, skip_calls-for n from edges)

  condition_calls-for :
      (n node : String) (s : State V) (matched : Bool) (edges : List (ConditionalEdge V))
      → calls_for n (condition_calls node s matched edges) ≤ count_to n edges
  unfolding condition_calls
  condition_calls-for n node s matched [] = ground arith
  condition_calls-for n node s matched (edge ∷ edges) = elim (Option-cases edge.condition) [
    | inl missing ↦ rw (missing, condition_calls) (omega arith)
    | inr (condition, given) ↦
        rw (given, condition_calls)
          (omega (arith, condition_calls-for n node s (matched || condition s) edges))
  ]

  activate_calls-for :
      (n node : String) (edges : List (ConditionalEdge V))
      → calls_for n (activate_calls node (unconditional_dests edges)) ≤ count_to n edges
  unfolding activate_calls unconditional_dests
  activate_calls-for n node [] = omega arith
  activate_calls-for n node (edge ∷ edges) = ground (arith, activate_calls-for n node edges)

  build_infos-missing :
      (g : Graph V) (counts : List (String × ℕ)) (n : String) (nodes : List (String × Handler V))
      → has_key n nodes ≡ false
      → get_or nil_info n (build_infos g counts nodes) ≡ nil_info
  unfolding build_infos get_or has_key
  build_infos-missing g counts n [] h = refl
  build_infos-missing g counts n ((name, x) ∷ nodes) h =
      ground (arith, build_infos-missing g counts n nodes)

  -- What an executor knows of a node: its edges, if it is a node of the graph.
  pub info_of-new_executor :
      (g : Graph V) (n : String)
      → (info_of (new_executor g) n ≡ node_info g (dependency_counts g.edges []) n)
        ⊎ (info_of (new_executor g) n ≡ nil_info)
  unfolding new_executor
  info_of-new_executor g n = elim (Bool-cases (has_key n g.nodes)) [
    | inl known ↦ inl (build_infos-get g (dependency_counts g.edges []) nil_info n g.nodes known)
    | inr unknown ↦ inr (build_infos-missing g (dependency_counts g.edges []) n g.nodes unknown)
  ]

  -- The calls behind a handler that returned, whatever it returned.
  pub process_outgoing-for :
      (g : Graph V) (n node : String) (s : State V)
      → calls_for n (process_outgoing node (info_of (new_executor g) node) s)
        ≤ count_to n (out_edges g node)
  unfolding process_outgoing node_info
  process_outgoing-for g n node s = elim (info_of-new_executor g node) [
    | inl known ↦ rw known (
        ground (
          arith,
          condition_calls-for n node s false (out_edges g node),
          activate_calls-for n node (out_edges g node),
        ))
    | inr unknown ↦ rw unknown (omega arith)
  ]

  pub skip_calls-info_of :
      (g : Graph V) (n node : String)
      → calls_for n (skip_calls node (info_of (new_executor g) node).out_edges)
        ≤ count_to n (out_edges g node)
  unfolding node_info
  skip_calls-info_of g n node = elim (info_of-new_executor g node) [
    | inl known ↦ rw known (omega (arith, skip_calls-for n node (out_edges g node)))
    | inr unknown ↦ rw unknown (omega (arith, skip_calls-for n node []))
  ]
