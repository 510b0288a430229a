-- ===== src/Graph/Types.antt =====
-- The data of graph/graph.go, graph/state.go and graph/middleware.go.
use blades.Common.{String, Bool, List, Option, Result}

-- The errors of the package; `external` is an error of a handler or of a checkpointer.
pub data GraphError : Type 0 where
  entry_not_set finish_not_set : GraphError
  start_not_found end_not_found : String → GraphError
  edge_from_unknown edge_to_unknown : String → GraphError
  finish_has_edges no_outgoing mixed_edges : String → GraphError
  finish_not_reachable : String → GraphError
  cycle_found : List String → GraphError
  external : String → GraphError
  no_checkpointer : GraphError
  checkpoint_load_failed checkpoint_save_failed : GraphError → GraphError
  execute_failed : String → GraphError → GraphError
  missing_condition : String → String → GraphError
  no_condition_matched : String → GraphError

module _ (V : Type 0) where
  -- `type State map[string]any`
  abbrev pub State : Type 0
  State = List (String × V)

  abbrev pub Handler : Type 0
  Handler = State → Result GraphError State

  abbrev pub Middleware : Type 0
  Middleware = Handler → Handler

  abbrev pub EdgeCondition : Type 0
  EdgeCondition = State → Bool

  pub record ConditionalEdge : Type 0 where
    pub to : String
    pub condition : Option EdgeCondition

  pub record Graph : Type 0 where
    pub nodes : List (String × Handler)
    pub edges : List (String × List ConditionalEdge)
    pub entry_point : String
    pub finish_point : String
    pub parallel : Bool
    pub middlewares : List Middleware
