-- ===== src/Graph/Cycle.antt =====
-- `ensureAcyclic` of graph/graph.go: a depth-first search with three colours. The recursion of
-- `visit` goes by fuel, which is enough at one more than the number of keys of `edges`.
pub mod Fuel
pub mod Sound
pub mod Path
use mathlib.Core.Option
use blades.Common.{
  ℕ, zero, suc, String, str_eq, List, [], ◌∷◌, ◌++◌, Option, none, some, if◌then◌else◌, Result, ok,
  err, length, drop,
}
use blades.Common.StringMap.{insert, get_or}
use blades.Graph.Types.{Handler, ConditionalEdge, Graph, GraphError, cycle_found}
use blades.Graph.Build.{out_edges}

pub data NodeState : Type 0 where
  unvisited visiting visited : NodeState

-- The captured variables `states` and `stack`.
pub record Walk : Type 0 where
  pub states : List (String × NodeState)
  pub stack : List String

pub data Outcome : Type 0 where
  done : Walk → Outcome
  cycle : List String → Outcome
  out_of_fuel : Outcome

abbrev pub state_of : Walk → String → NodeState
state_of w name = get_or unvisited name w.states

abbrev pub and_then : Outcome → (Walk → Outcome) → Outcome
and_then (done w) f = f w
and_then (cycle c) f = cycle c
and_then out_of_fuel f = out_of_fuel

-- The index of the first `next` in the stack; the variable `cycleStart` is 0 if there is none.
unfoldable pub index_of : String → List String → Option ℕ
index_of next [] = none
index_of next (name ∷ names) =
    if str_eq name next then some 0 else Option.map suc (index_of next names)

unfoldable pub cycle_start : String → List String → ℕ
unfolding index_of
cycle_start next stack = elim (index_of next stack) [ none ↦ 0 | some i ↦ i ]

unfoldable pub cycle_path : String → List String → List String
unfolding cycle_start
cycle_path next stack = drop (cycle_start next stack) stack ++ next ∷ []

-- `stack[:len(stack)-1]`
unfoldable pub drop_last : List String → List String
drop_last [] = []
drop_last (x ∷ []) = []
drop_last (x ∷ y ∷ xs) = x ∷ drop_last (y ∷ xs)

abbrev pub enter : String → Walk → Walk
enter node w = record { states = insert node visiting w.states; stack = w.stack ++ node ∷ [] }

abbrev pub leave : String → Walk → Walk
leave node w = record { states = insert node visited w.states; stack = drop_last w.stack }

abbrev pub start_walk : Walk
start_walk = record { states = []; stack = [] }

-- `none`: the fuel ran out.
abbrev pub verdict : Outcome → Option (Result GraphError (Unit {0}))
verdict (done w) = some (ok tt)
verdict (cycle c) = some (err (cycle_found c))
verdict out_of_fuel = none

module _ {V : Type 0} where
  -- The loop over the outgoing edges; `rec` is the recursive call of `visit`.
  unfoldable pub visit_edges : (String → Walk → Outcome) → List (ConditionalEdge V) → Walk → Outcome
  visit_edges rec [] w = done w
  visit_edges rec (edge ∷ edges) w = elim (state_of w edge.to) [
    | visiting ↦ cycle (cycle_path edge.to w.stack)
    | unvisited ↦ and_then (rec edge.to w) (visit_edges rec edges)
    | visited ↦ visit_edges rec edges w
  ]

  unfoldable pub visit : Graph V → ℕ → String → Walk → Outcome
  visit g zero node w = out_of_fuel
  visit g (suc fuel) node w =
      and_then (visit_edges (visit g fuel) (out_edges g node) (enter node w))
        (λ w'. done (leave node w'))

  unfoldable pub visit_all : Graph V → ℕ → List (String × Handler V) → Walk → Outcome
  visit_all g fuel [] w = done w
  visit_all g fuel ((name, _) ∷ nodes) w = elim (state_of w name) [
    | unvisited ↦ and_then (visit g fuel name w) (visit_all g fuel nodes)
    | _ ↦ visit_all g fuel nodes w
  ]

  unfoldable pub ensure_acyclic : Graph V → Option (Result GraphError (Unit {0}))
  ensure_acyclic g = verdict (visit_all g (suc (length g.edges)) g.nodes start_walk)
