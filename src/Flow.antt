-- ===== src/Flow.antt =====
-- The package flow: agents that run other agents. An agent is a generator, as in Agent/Loop: a
-- function of the consumer, the invocation and the state of the run. A flow hands its sub-agents a
-- consumer of its own, which is the body of its `range` loop. `Clone` copies an invocation, so an
-- invocation is passed as a value; the flag that clones share belongs to the state.
pub mod Generator
pub mod Laws
pub mod Agents
pub mod Bounds
pub mod Sequential
pub mod Loop
pub mod Routing
pub mod Routed
pub mod Parallel
pub mod Middleware
pub mod Retrying
pub mod Runner
pub mod Outcome
mod Witness
mod RunnerWitness
use blades.Common.{
  ℕ, ◌+◌, Bool, true, false, not, ◌&&◌, List, [], ◌∷◌, Option, none, some, length, drop, ltb,
}
use blades.Message.{Message}
use blades.Agent.Loop.{Event, message, failure, Invocation, Run}

abbrev pub Consumer : Type 0
Consumer = List Event → Bool

-- `blades.Agent`, as far as flows use it.
abbrev pub Behaviour : Type 0 → Type 0
Behaviour M = Consumer → Invocation → Run M → Run M

-- `for message, err = range … { if err != nil { yield(nil, err); return } if !yield(message, nil)
-- { return } }`: the loop goes on after a message that the outer consumer wants.
abbrev pub ends_failed : List Event → Bool
ends_failed [] = false
ends_failed (message m ∷ []) = false
ends_failed (failure error ∷ []) = true
ends_failed (e ∷ f ∷ events) = ends_failed (f ∷ events)

abbrev pub passing : Consumer → Consumer
passing wants events = not (ends_failed events) && wants events

module _ {M : Type 0} where
  -- What a sub-agent has yielded.
  abbrev pub yielded : Run M → Run M → List Event
  yielded before after = drop (length before.events) after.events

  -- The body of the loop has returned: something was yielded, and the consumer stopped.
  abbrev pub is_stopped : Consumer → Run M → Run M → Bool
  is_stopped consumer before after =
      ltb (length before.events) (length after.events) && not (consumer after.events)

-- The variable `message` after the loop.
abbrev pub last_message : List Event → Option Message
last_message [] = none
last_message (message m ∷ []) = some m
last_message (failure error ∷ []) = none
last_message (e ∷ f ∷ events) = last_message (f ∷ events)
