-- ===== src/Graph/Task/Satisfy.antt =====
-- `satisfy` and `processOutgoing` of graph/task.go. `satisfy` releases the mutex before it calls
-- itself on the edges of a skipped node, so a goroutine holds a list of the calls that it has
-- still to make, and each call is one section under the mutex.
use blades.Common.{
  ◌+◌, ◌-◌, String, Bool, true, false, List, [], ◌∷◌, ◌++◌, none, some, ltb, ◌==◌, ◌||◌, not, ◌&&◌,
  if◌then◌else◌,
}
use blades.Common.StringMap.{insert, get_or, delete}
use blades.Graph.Types.{State, ConditionalEdge, GraphError, missing_condition, no_condition_matched}
use blades.Graph.Compile.{NodeInfo, Executor}
use blades.Graph.Task.State.{Task, info_of, is_visited}

-- A call that a goroutine has still to make.
pub data Call : Type 0 where
  satisfy : (from to : String) (activated : Bool) → Call
  fail_with : GraphError → Call

unfoldable pub activate_calls : String → List String → List Call
activate_calls node [] = []
activate_calls node (dest ∷ dests) = satisfy node dest true ∷ activate_calls node dests

module _ {V : Type 0} where
  -- `for _, edge := range info.outEdges { t.satisfy(to, edge.to, false) }`
  unfoldable pub skip_calls : String → List (ConditionalEdge V) → List Call
  skip_calls from [] = []
  skip_calls from (edge ∷ edges) = satisfy from edge.to false ∷ skip_calls from edges

  -- All predecessors have reported, and the node neither ran nor runs: it is skipped if none of
  -- them activated it, and ready otherwise.
  unfoldable pub settle : Executor V → String → Task V → Task V × List Call
  unfolding skip_calls
  settle e to t =
      if get_or 0 to t.received == 0
      then (
        record t {
          visited = insert to true t.visited;
          progress = true;
          received = delete to t.received;
        },
        skip_calls to (info_of e to).out_edges,
      )
      else (record t { ready = t.ready ++ to ∷ [] }, [])

  abbrev pub receive : String → Bool → Task V → Task V
  receive to activated t = record t {
    received = if activated then insert to (get_or 0 to t.received + 1) t.received else t.received;
    remaining =
        if ltb 0 (get_or 0 to t.remaining)
        then insert to (get_or 0 to t.remaining - 1) t.remaining
        else t.remaining;
  }

  -- The section of one call, and the calls that follow it.
  unfoldable pub satisfy_section : Executor V → String → Bool → Task V → Task V × List Call
  unfolding settle
  satisfy_section e to activated t =
      if is_visited t to || ((info_of e to).dependencies == 0)
      then (t, [])
      else let t' = receive to activated t in
        if (get_or 0 to t'.remaining == 0)
          && (not (is_visited t' to) && not (get_or false to t'.in_flight))
        then settle e to t'
        else (t', [])

  -- The loop over the conditional edges; `matched` is the variable of the source.
  unfoldable pub condition_calls : String → State V → Bool → List (ConditionalEdge V) → List Call
  condition_calls node state matched [] =
      if matched then [] else fail_with (no_condition_matched node) ∷ []
  condition_calls node state matched (edge ∷ edges) = elim edge.condition [
    | none ↦ fail_with (missing_condition node edge.to) ∷ []
    | some condition ↦
        satisfy node edge.to (condition state)
        ∷ condition_calls node state (matched || condition state) edges
  ]

  -- The calls of `processOutgoing`, in their order.
  unfoldable pub process_outgoing : String → NodeInfo V → State V → List Call
  unfolding condition_calls activate_calls
  process_outgoing node info state =
      if info.has_conditions
      then condition_calls node state false info.out_edges
      else activate_calls node info.unconditional_dests
