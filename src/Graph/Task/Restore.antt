-- ===== src/Graph/Task/Restore.antt =====
-- `restoreCheckpoint` of graph/task.go, with `rebuildRemainingLocked` and `rebuildReadyLocked`.
use blades.Common.{
  ℕ, ◌-◌, String, Bool, false, List, [], ◌∷◌, none, ltb, ◌==◌, ◌||◌, ◌&&◌, not, if◌then◌else◌,
}
use blades.Common.StringMap.{insert, get_or, has_key}
use blades.Graph.Types.{State, ConditionalEdge}
use blades.Graph.Compile.{NodeInfo, Executor, count_targets}
use blades.Graph.Task.State.{Task, is_visited}
use blades.Graph.Task.Schedule.{Checkpoint}

module _ {V : Type 0} where
  -- The keys of the checkpoint that the task's state lacks.
  unfoldable pub fill_state : State V → State V → State V
  fill_state [] state = state
  fill_state ((key, value) ∷ rest) state =
      fill_state rest (if has_key key state then state else insert key value state)

  -- The satisfied predecessors, from the visited nodes.
  unfoldable pub count_satisfied :
      List (String × Bool)
      → List (String × List (ConditionalEdge V))
      → List (String × ℕ)
      → List (String × ℕ)
  unfolding count_targets
  count_satisfied visited [] satisfied = satisfied
  count_satisfied visited ((from, edges) ∷ rest) satisfied =
      count_satisfied visited rest
        (if get_or false from visited then count_targets edges satisfied else satisfied)

  unfoldable pub rebuild_remaining :
      List (String × ℕ) → List (String × NodeInfo V) → List (String × ℕ) → List (String × ℕ)
  rebuild_remaining satisfied [] remaining = remaining
  rebuild_remaining satisfied ((name, info) ∷ infos) remaining =
      let left = info.dependencies - get_or 0 name satisfied in
      rebuild_remaining satisfied infos
        (if ltb 0 left then insert name left remaining else remaining)

  -- The test of the loop of `rebuildReadyLocked`, with its two `continue`s.
  unfoldable pub is_ready : Task V → String → NodeInfo V → Bool
  is_ready t name info =
      if (info.dependencies == 0) && not (is_visited t name)
      then ltb 0 (get_or 0 name t.received)
      else if is_visited t name || ltb 0 (get_or 0 name t.remaining)
      then false
      else not (get_or 0 name t.received == 0)

  unfoldable pub rebuild_ready : Task V → List (String × NodeInfo V) → List String
  unfolding is_ready
  rebuild_ready t [] = []
  rebuild_ready t ((name, info) ∷ infos) =
      if is_ready t name info then name ∷ rebuild_ready t infos else rebuild_ready t infos

  -- The maps of a checkpoint are not nil.
  unfoldable pub restore_checkpoint : Executor V → Checkpoint V → Task V → Task V
  unfolding fill_state count_satisfied rebuild_remaining rebuild_ready
  restore_checkpoint e cp t =
      let t₁ = record t {
        received = cp.received;
        visited = cp.visited;
        in_flight = [];
        state = fill_state cp.state t.state;
      } in
      let t₂ = record t₁ {
        remaining = rebuild_remaining (count_satisfied cp.visited e.graph.edges []) e.node_infos [];
      } in
      record t₂ {
        ready = rebuild_ready t₂ e.node_infos;
        finished = is_visited t₂ e.graph.finish_point;
        error = none;
        progress = false;
      }
