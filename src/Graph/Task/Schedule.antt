-- ===== src/Graph/Task/Schedule.antt =====
-- `emitCheckpointIfIdle`, `checkTermination` and `scheduleNext` of graph/task.go.
use blades.Common.{
  ℕ, String, Bool, true, false, List, [], ◌∷◌, Option, none, some, ◌||◌, if◌then◌else◌, Result, ok,
  err,
}
use blades.Common.StringMap.{insert}
use blades.Graph.Types.{State, GraphError, finish_not_reachable, checkpoint_save_failed}
use blades.Graph.Check.{is_empty}
use blades.Graph.Compile.{Executor}
use blades.Graph.Task.State.{Task, is_visited, fail, should_checkpoint}
use blades.Graph.Task.Execute.{is_some}

module _ (V : Type 0) where
  -- graph/checkpoint.go
  pub record Checkpoint : Type 0 where
    pub id : String
    pub received : List (String × ℕ)
    pub visited : List (String × Bool)
    pub state : State V

  -- What a round of `scheduleNext` does: it waits or gives up, passes over a node that ran, or
  -- starts a goroutine with a snapshot of the state.
  pub data Scheduled : Type 0 where
    idle skipped : Scheduled
    launched : String → State V → Scheduled

module _ {V : Type 0} where
  abbrev pub checkpoint_of : Task V → Checkpoint V
  checkpoint_of t = record {
    id = t.checkpoint_id;
    received = t.received;
    visited = t.visited;
    state = t.state;
  }

  -- The answer of `Save` is a parameter: `none` is success.
  unfoldable pub emit_checkpoint : (Checkpoint V → Option GraphError) → Task V → Task V
  emit_checkpoint save t =
      if should_checkpoint t
      then elim (save (checkpoint_of t)) [
        | none ↦ record t { progress = false }
        | some error ↦ fail (checkpoint_save_failed error) (record t { progress = false })
      ]
      else t

  -- `none`: go on. The result is read when the goroutines have ended.
  unfoldable pub check_termination : Task V → Option (Result GraphError (State V))
  check_termination t = elim t.error [
    | some error ↦ some (err error)
    | none ↦ if t.finished then some (ok t.state) else none
  ]

  -- The section that finds the queue empty.
  unfoldable pub no_ready : Executor V → Task V → Task V
  no_ready e t =
      if is_some t.error || t.finished
      then t
      else if is_empty t.in_flight
      then fail (finish_not_reachable e.graph.finish_point) t
      else t

  unfoldable pub take_ready : String → List String → Task V → Task V × Scheduled V
  take_ready node ready t = if is_visited t node then (record t { ready = ready }, skipped) else (
    record t { ready = ready; in_flight = insert node true t.in_flight },
    launched node t.state,
  )

  unfoldable pub from_queue : Executor V → List String → Task V → Task V × Scheduled V
  unfolding take_ready no_ready
  from_queue e [] t = (no_ready e t, idle)
  from_queue e (node ∷ ready) t = take_ready node ready t

  unfoldable pub schedule_next : Executor V → Task V → Task V × Scheduled V
  unfolding from_queue
  schedule_next e t = if should_checkpoint t then (t, idle) else from_queue e t.ready t
