-- ===== src/Graph/Task/State.antt =====
-- The fields of a task, `newTask`, `prepareEntry` and `fail`.
use blades.Common.{
  ℕ, ◌+◌, String, str_eq, Bool, false, not, ◌&&◌, List, [], ◌∷◌, ◌++◌, Option, none, some, ltb,
  if◌then◌else◌,
}
use blades.Common.StringMap.{insert, get_or}
use blades.Graph.Types.{State, GraphError}
use blades.Graph.Check.{is_empty}
use blades.Graph.Compile.{NodeInfo, Executor}

module _ (V : Type 0) where
  -- `checkpointer` says that one is configured; the condition variable and the wait group are left
  -- out, since a step that would wait is not taken.
  pub record Task : Type 0 where
    pub state : State V
    pub ready : List String
    pub remaining : List (String × ℕ)
    pub received : List (String × ℕ)
    pub in_flight : List (String × Bool)
    pub visited : List (String × Bool)
    pub checkpointer : Bool
    pub checkpoint_id : String
    pub progress : Bool
    pub finished : Bool
    pub error : Option GraphError

module _ {V : Type 0} where
  -- The zero `nodeInfo`. The source would dereference a nil pointer at a name that is no node.
  abbrev pub nil_info : NodeInfo V
  nil_info = record {
    out_edges = [];
    unconditional_dests = [];
    dependencies = 0;
    is_finish = false;
    has_conditions = false;
  }

  -- `t.executor.nodeInfos[name]`
  abbrev pub info_of : Executor V → String → NodeInfo V
  info_of e name = get_or nil_info name e.node_infos

  abbrev pub is_visited : Task V → String → Bool
  is_visited t name = get_or false name t.visited

  unfoldable pub new_task : State V → Bool → String → Task V
  new_task state checkpointer checkpoint_id = record {
    state = state;
    ready = [];
    remaining = [];
    received = [];
    in_flight = [];
    visited = [];
    checkpointer = checkpointer;
    checkpoint_id = checkpoint_id;
    progress = false;
    finished = false;
    error = none;
  }

  -- The loop of `prepareEntry` over the node infos.
  unfoldable pub prepare_remaining :
      List (String × NodeInfo V) → List (String × ℕ) → List (String × ℕ)
  prepare_remaining [] remaining = remaining
  prepare_remaining ((name, info) ∷ infos) remaining =
      prepare_remaining infos
        (if ltb 0 info.dependencies then insert name info.dependencies remaining else remaining)

  unfoldable pub prepare_entry : Executor V → Task V → Task V
  prepare_entry e t =
      let entry = e.graph.entry_point in
      record t {
        remaining = prepare_remaining e.node_infos t.remaining;
        received = insert entry (get_or 0 entry t.received + 1) t.received;
        ready = t.ready ++ entry ∷ [];
      }

  -- The first error stays.
  unfoldable pub fail : GraphError → Task V → Task V
  fail error t = elim t.error [ none ↦ record t { error = some error } | some _ ↦ t ]

  unfoldable pub should_checkpoint : Task V → Bool
  should_checkpoint t =
      t.checkpointer && (not (str_eq t.checkpoint_id "") && (t.progress && is_empty t.in_flight))
