-- ===== src/Flow/Loop.antt =====
-- flow/loop.go: the sub-agents again and again.
use blades.Common.{
  ℕ, zero, suc, ℤ, pos, negsuc, String, Bool, true, false, List, [], ◌∷◌, Option, none, some,
  Result, ok, err, if◌then◌else◌,
}
use blades.Common.StringMap.{lookup}
use blades.Message.{Any, bool_value, Message}
use blades.Agent.Tools.{AgentError, loop_escalated}
use blades.Agent.Loop.{Event, message, failure, Invocation, Run, emit, action_loop_exit}
use blades.Flow.{Consumer, Behaviour, passing, yielded, is_stopped, last_message}

pub record LoopState : Type 0 where
  pub iteration : ℕ
  pub input : Option Message
  pub output : Option Message

abbrev pub LoopCondition : Type 0
LoopCondition = LoopState → Result AgentError Bool

-- A nil condition is `none`.
pub record LoopConfig (M : Type 0) : Type 0 where
  pub name : String
  pub description : String
  pub max_iterations : ℤ
  pub condition : Option LoopCondition
  pub sub_agents : List (Behaviour M)

-- `exitRequested` and `escalated`.
pub record Signals : Type 0 where
  pub exit_requested : Bool
  pub escalated : Bool

abbrev pub read_signal : Option Any → Signals → Signals
read_signal (some (bool_value escalated)) s = record {
  exit_requested = true;
  escalated = escalated;
}
read_signal _ s = s

-- The test at the end of the loop over a sub-agent's messages.
unfoldable pub read_signals : List Event → Signals → Signals
read_signals [] s = s
read_signals (message m ∷ events) s =
    read_signals events (read_signal (lookup action_loop_exit m.actions) s)
read_signals (failure error ∷ events) s = read_signals events s

-- The variables of an iteration; `cut`: the generator has returned.
pub record Pass (M : Type 0) : Type 0 where
  pub run : Run M
  pub signals : Signals
  pub output : Option Message
  pub cut : Bool

-- What follows an iteration.
pub data Outcome (M : Type 0) : Type 0 where
  returns : Run M → Outcome M
  continues : Run M → Outcome M

-- `NewLoopAgent`: no positive number of iterations means 10.
unfoldable pub max_rounds : ℤ → ℕ
max_rounds (pos zero) = 10
max_rounds (pos (suc n)) = suc n
max_rounds (negsuc n) = 10

module _ {M : Type 0} where
  unfoldable pub sub_loop : List (Behaviour M) → Consumer → Invocation → Pass M → Pass M
  unfolding read_signals
  sub_loop [] wants input p = p
  sub_loop (agent ∷ agents) wants input p =
      let r = agent (passing wants) input p.run in
      let next = sub_loop agents wants input (record p {
        run = r;
        signals = read_signals (yielded p.run r) p.signals;
        output = last_message (yielded p.run r);
      }) in
      if is_stopped (passing wants) p.run r then record p { run = r; cut = true } else next

  abbrev pub by_condition : Result AgentError Bool → Run M → Outcome M
  by_condition (err error) r = returns (emit (failure error) r)
  by_condition (ok false) r = returns r
  by_condition (ok true) r = continues r

  abbrev pub by_signals : Signals → Run M → Outcome M
  by_signals s r =
      if s.exit_requested
      then (if s.escalated then returns (emit (failure loop_escalated) r) else returns r)
      else continues r

  abbrev pub decide : Option LoopCondition → LoopState → Signals → Run M → Outcome M
  decide (some condition) state s r = by_condition (condition state) r
  decide none state s r = by_signals s r

  -- The variables at the start of an iteration.
  abbrev pub begin_pass : Option Message → Run M → Pass M
  begin_pass output r = record {
    run = r;
    signals = record { exit_requested = false; escalated = false };
    output = output;
    cut = false;
  }

  -- `state.Input` is set with every sub-agent.
  abbrev pub state_input : List (Behaviour M) → Invocation → Option Message
  state_input [] input = none
  state_input (agent ∷ agents) input = input.message

  -- One iteration; `output` is that of the iteration before.
  unfoldable pub iterate :
      LoopConfig M → Consumer → Invocation → ℕ → Option Message → Run M → Pass M × Outcome M
  unfolding sub_loop
  iterate config wants input i output r =
      let p = sub_loop config.sub_agents wants input (begin_pass output r) in
      (
        p,
        if p.cut
            then returns p.run
            else decide config.condition
                (record {
                  iteration = i;
                  input = state_input config.sub_agents input;
                  output = p.output;
                })
                p.signals p.run,
      )

  -- The loop, by the iterations that are left.
  unfoldable pub iterations :
      LoopConfig M → Consumer → Invocation → ℕ → ℕ → Option Message → Run M → Run M
  iterations config wants input zero i output r = r
  iterations config wants input (suc left) i output r =
      elim ((iterate config wants input i output r).1) [
        | returns r' ↦ r'
        | continues r' ↦
            iterations config wants input left (suc i)
              (iterate config wants input i output r).0.output r'
      ]

  unfoldable pub new_loop_agent : LoopConfig M → Behaviour M
  unfolding iterations
  new_loop_agent config wants input r =
      iterations config wants input (max_rounds config.max_iterations) 0 none r
