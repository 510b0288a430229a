-- ===== src/Flow/Sequential.antt =====
-- flow/sequential.go: the sub-agents one after another.
use blades.Common.{String, List, [], ◌∷◌, if◌then◌else◌}
use blades.Flow.{Behaviour, passing, is_stopped}

pub record SequentialConfig (M : Type 0) : Type 0 where
  pub name : String
  pub description : String
  pub sub_agents : List (Behaviour M)

module _ {M : Type 0} where
  -- The loop over the sub-agents.
  unfoldable pub run_sub_agents : List (Behaviour M) → Behaviour M
  run_sub_agents [] wants input r = r
  run_sub_agents (agent ∷ agents) wants input r =
      let r' = agent (passing wants) input r in
      let rest = run_sub_agents agents wants input r' in
      if is_stopped (passing wants) r r' then r' else rest

  unfoldable pub new_sequential_agent : SequentialConfig M → Behaviour M
  unfolding run_sub_agents
  new_sequential_agent config = run_sub_agents config.sub_agents
