-- ===== src/Graph/Task/Execute.antt =====
-- `executeNode` and `nodeDone` of graph/task.go.
use blades.Common.{
  String, Bool, true, false, List, [], ◌∷◌, Option, none, some, if◌then◌else◌, Result, ok, err,
}
use blades.Common.StringMap.{insert, delete, lookup}
use blades.Graph.Types.{State, Handler, Middleware, Graph, GraphError, execute_failed}
use blades.Graph.Compile.{Executor}
use blades.Graph.Task.State.{Task, info_of, fail}
use blades.Graph.Task.Satisfy.{Call, process_outgoing}

abbrev pub is_some {ℓ} : {A : Type ℓ} → Option A → Bool
is_some none = false
is_some (some _) = true

module _ {V : Type 0} where
  -- `ChainMiddlewares`: the first middleware is outermost.
  unfoldable pub chain_middlewares : List (Middleware V) → Middleware V
  chain_middlewares [] next = next
  chain_middlewares (mw ∷ mws) next = mw (chain_middlewares mws next)

  -- The handler of a node; a name that is no node has the nil handler, which this model lets fail.
  unfoldable pub handler_of : GraphError → Graph V → String → Handler V
  unfolding chain_middlewares
  handler_of missing g node = elim (lookup node g.nodes) [
    | none ↦ λ s. err missing
    | some handler ↦ chain_middlewares g.middlewares handler
  ]

  -- `for key, value := range state { t.state.Store(key, value) }`
  unfoldable pub store_all : State V → State V → State V
  store_all [] state = state
  store_all ((key, value) ∷ rest) state = store_all rest (insert key value state)

  -- The section behind a handler that returned: the task, and the calls that follow.
  unfoldable pub complete : Executor V → String → State V → Task V → Task V × List Call
  unfolding store_all
  complete e node output t =
      let info = info_of e node in
      (
        record t {
          state = store_all output t.state;
          visited = insert node true t.visited;
          progress = true;
          finished = if info.is_finish then true else t.finished;
        },
        if info.is_finish then [] else process_outgoing node info output,
      )

  -- What follows a handler's result.
  unfoldable pub after_handler :
      Executor V → String → Result GraphError (State V) → Task V → Task V × List Call
  unfolding complete fail
  after_handler e node (ok output) t = complete e node output t
  after_handler e node (err error) t = (fail (execute_failed node error) t, [])

  unfoldable pub node_done : String → Task V → Task V
  node_done node t = record t { in_flight = delete node t.in_flight }
