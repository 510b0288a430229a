-- ===== src/Graph/Task/Safety.antt =====
-- What the invariant says of every run of a valid graph, whatever the order of its sections.
use blades.Common.{◌≤◌, String, Bool, true, ◌≡◌, ◌≢◌, arith}
use blades.Graph.Types.{State, Graph, GraphError}
use blades.Graph.Build.{out_edges}
use blades.Graph.Edges.{Edge}
use blades.Graph.Check.Correct.{IsValid}
use blades.Graph.Compile.{new_executor}
use blades.Graph.Task.State.{is_visited}
use blades.Graph.Task.Sums.{occurrences, unreported-zero}
use blades.Graph.Task.Join.{Reach-Holds}
use blades.Graph.Task.Start.{start-Holds}
use blades.Graph.Task.Run.{Run, start, Reach}

module _ {V : Type 0} (missing : GraphError) (g : Graph V) (state : State V) (checkpointer : Bool)
    (id : String) (r : Run V) where
  -- In every run of a valid graph the handler of a node is called at most once.
  pub handler_once :
      (n : String)
      → IsValid g
      → Reach missing (new_executor g) (start (new_executor g) state checkpointer id) r
      → occurrences n r.log ≤ 1
  unfolding start
  handler_once n v reached =
      let h = Reach-Holds g missing reached (λ m. start-Holds g state checkpointer id m v) n in
      omega (arith, h.once)

  -- When the handler of a node other than the entry has been called, every predecessor of the
  -- node has been visited: its own handler returned, or it was skipped.
  pub handler_joined :
      (a n : String)
      → IsValid g
      → Reach missing (new_executor g) (start (new_executor g) state checkpointer id) r
      → occurrences n r.log ≢ 0
      → n ≢ g.entry_point
      → Edge g a n
      → is_visited r.task a ≡ true
  unfolding start out_edges
  handler_joined a n v reached called other edge =
      let h = Reach-Holds g missing reached (λ m. start-Holds g state checkpointer id m v) n in
      unreported-zero r.task.visited a n g.edges (ground (arith, h)) edge
