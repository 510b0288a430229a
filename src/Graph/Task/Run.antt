-- ===== src/Graph/Task/Run.antt =====
-- `run` and `executeAsync` of graph/task.go as steps: the main loop and the goroutines take their
-- sections in any order. The main loop of the source takes its two sections in turn, and in serial
-- mode a goroutine runs to its end before the next round, so the runs of the source are among
-- these. `log` records the nodes whose handlers were called.
use blades.Common.{String, Bool, ◌≡◌, List, [], ◌∷◌, ◌++◌, Option, ◌||◌, if◌then◌else◌}
use blades.Graph.Types.{State, GraphError}
use blades.Graph.Compile.{Executor}
use blades.Graph.Task.State.{Task, new_task, prepare_entry, fail}
use blades.Graph.Task.Satisfy.{Call, satisfy, fail_with, satisfy_section}
use blades.Graph.Task.Execute.{is_some, handler_of, after_handler, node_done}
use blades.Graph.Task.Schedule.{Checkpoint, Scheduled, launched, emit_checkpoint, schedule_next}

-- A goroutine: before the test for an early end, in its handler, or at its calls.
pub data Worker (V : Type 0) : Type 0 where
  starting running : String → State V → Worker V
  calling : String → List Call → Worker V

module _ (V : Type 0) where
  pub record Run : Type 0 where
    pub task : Task V
    pub workers : List (Worker V)
    pub log : List String

  -- What a section of a goroutine leaves: the task, the goroutine if it goes on, and the handler
  -- that it called.
  pub record Turn : Type 0 where
    pub task : Task V
    pub next : List (Worker V)
    pub called : List String

module _ {V : Type 0} where
  abbrev pub go_on : String → Task V × List Call → List Call → Turn V
  go_on node (t, new) calls = record {
    task = t;
    next = calling node (new ++ calls) ∷ [];
    called = [];
  }

  unfoldable pub start_turn : String → State V → Task V → Turn V
  start_turn node s t =
      if is_some t.error || t.finished
      then record { task = t; next = calling node [] ∷ []; called = [] }
      else record { task = t; next = running node s ∷ []; called = node ∷ [] }

  unfoldable pub call_turn : Executor V → String → List Call → Task V → Turn V
  unfolding node_done fail
  call_turn e node [] t = record { task = node_done node t; next = []; called = [] }
  call_turn e node (satisfy from to activated ∷ calls) t =
      go_on node (satisfy_section e to activated t) calls
  call_turn e node (fail_with error ∷ calls) t = go_on node (fail error t, []) calls

  -- One section of a goroutine.
  unfoldable pub turn : GraphError → Executor V → Worker V → Task V → Turn V
  unfolding start_turn call_turn
  turn missing e (starting node s) t = start_turn node s t
  turn missing e (running node s) t =
      go_on node (after_handler e node (handler_of missing e.graph node s) t) []
  turn missing e (calling node calls) t = call_turn e node calls t

  abbrev pub launch : Run V → Task V × Scheduled V → Run V
  launch r (t, launched node s) = record r { task = t; workers = starting node s ∷ r.workers }
  launch r (t, _) = record r { task = t }

  abbrev pub after_turn : Run V → List (Worker V) → List (Worker V) → Turn V → Run V
  after_turn r before after u = record {
    task = u.task;
    workers = before ++ (u.next ++ after);
    log = r.log ++ u.called;
  }

  pub data Step (missing : GraphError) (e : Executor V) (r : Run V) : Run V → Type 0 where
    emit :
        (save : Checkpoint V → Option GraphError)
        → Step missing e r (record r { task = emit_checkpoint save r.task })
    schedule : Step missing e r (launch r (schedule_next e r.task))
    work :
        (before after : List (Worker V)) (w : Worker V)
        → r.workers ≡ before ++ w ∷ after
        → Step missing e r (after_turn r before after (turn missing e w r.task))

  -- A fresh run of `Execute`.
  unfoldable pub start : Executor V → State V → Bool → String → Run V
  unfolding new_task prepare_entry
  start e state checkpointer checkpoint_id = record {
    task = prepare_entry e (new_task state checkpointer checkpoint_id);
    workers = [];
    log = [];
  }

  pub data Reach (missing : GraphError) (e : Executor V) (r : Run V) : Run V → Type 0 where
    here : Reach missing e r r
    next : {s u : Run V} → Reach missing e r s → Step missing e s u → Reach missing e r u
