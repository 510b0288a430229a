-- ===== src/Flow/Routing.antt =====
-- flow/routing.go: a root agent that may hand over to one of its targets. The root agent is built by
-- `NewAgent`, as in Agent/New; `strings.TrimSpace` of the names is a parameter.
use blades.Common.{
  String, str_eq, Bool, true, false, not, ◌&&◌, List, [], ◌∷◌, Option, none, some, if◌then◌else◌,
}
use blades.Common.StringMap.{insert, lookup, has_key}
use blades.Message.{Any, text_value, Message, text}
use blades.Agent.Tools.{target_not_found}
use blades.Agent.Loop.{Event, message, failure, Run, emit}
use blades.Flow.{Consumer, Behaviour, last_message}

-- `handoff.ActionHandoffToAgent` of internal/handoff/handoff.go
abbrev pub action_handoff_to_agent : String
action_handoff_to_agent = "handoff_to_agent"

module _ {M : Type 0} where
  -- The loop that fills `targets`; a later agent takes the place of an earlier one of its name.
  unfoldable pub collect_targets :
      (String → String)
      → List (String × Behaviour M)
      → List (String × Behaviour M)
      → List (String × Behaviour M)
  collect_targets trim_space [] targets = targets
  collect_targets trim_space ((name, agent) ∷ agents) targets =
      collect_targets trim_space agents (insert (trim_space name) agent targets)

-- The loop over the root agent goes on after a message without a handoff.
abbrev pub hands_off : Event → Bool
hands_off (message m) = has_key action_handoff_to_agent m.actions
hands_off (failure error) = false

abbrev pub fails : Event → Bool
fails (message m) = false
fails (failure error) = true

abbrev pub last_event : List Event → Option Event
last_event [] = none
last_event (e ∷ []) = some e
last_event (e ∷ f ∷ events) = last_event (f ∷ events)

abbrev pub routing_wants : Consumer
routing_wants events = elim (last_event events) [
  | none ↦ true
  | some e ↦ not (fails e) && not (hands_off e)
]

abbrev pub as_name : Option Any → String
as_name (some (text_value name)) = name
as_name _ = ""

-- `targetAgent`: the empty name if no message hands over.
abbrev pub target_of : Option Event → String
target_of (some (message m)) = as_name (lookup action_handoff_to_agent m.actions)
target_of _ = ""

module _ {M : Type 0} (targets : List (String × Behaviour M)) where
  -- The root agent's events are not those of the flow.
  abbrev pub apart : Run M → Run M
  apart r = record r { events = [] }

  abbrev pub rejoin : Run M → Run M → Run M
  rejoin r routed = record routed { events = r.events }

  -- No target: the root agent's last message, or an error.
  abbrev pub answer_last : Option Message → String → Run M → Run M
  answer_last (some m) name r =
      if str_eq (text m) "" then emit (failure (target_not_found name)) r else emit (message m) r
  answer_last none name r = emit (failure (target_not_found name)) r

  unfoldable pub dispatch : List Event → Behaviour M
  dispatch events wants invocation r = elim (lookup (target_of (last_event events)) targets) [
    | some agent ↦ agent wants invocation r
    | none ↦ answer_last (last_message events) (target_of (last_event events)) r
  ]

  abbrev pub after_root : Option Event → List Event → Behaviour M
  after_root (some (failure error)) events wants invocation r = emit (failure error) r
  after_root (some (message m)) events wants invocation r = dispatch events wants invocation r
  after_root none events wants invocation r = dispatch events wants invocation r

  -- `RoutingAgent.Run`
  unfoldable pub route : Behaviour M → Behaviour M
  unfolding dispatch
  route root wants invocation r =
      let routed = root routing_wants invocation (apart r) in
      after_root (last_event routed.events) routed.events wants invocation (rejoin r routed)
