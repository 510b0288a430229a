-- ===== src/Flow/Witness.antt =====
-- The theorems on flows, at small inputs, and runs of the flows.
use blades.Common.{
  inl, inr, subst, str_eq, Bool-cases, ℕ, ◌+◌, ◌*◌, ◌≤◌, ◌<◌, String, ◌≡◌, refl, Bool, true, false,
  List, [], ◌∷◌, ◌++◌, some, none, ok, pos, map, arith,
}
use blades.Common.StringMap.{insert, lookup, has_key}
use blades.Message.{
  bool_value, text_value, Message, assistant, completed, raw, user_message, new_message_parts, text,
  write_texts, trim_newline,
}
use blades.Agent.Tools.{no_final_response, target_not_found}
use blades.Agent.Loop.{Event, message, failure, Invocation, Run, Agent, handle}
use blades.Flow.{Consumer, Behaviour, passing, yielded}
use blades.Flow.Generator.{Shows, IsGenerator}
use blades.Flow.Sequential.{run_sub_agents, new_sequential_agent}
use blades.Flow.Loop.{
  LoopConfig, read_signals, sub_loop, iterate, iterations, max_rounds, new_loop_agent,
}
use blades.Flow.Routing.{apart, rejoin, routing_wants, collect_targets, dispatch, route}
use blades.Flow.Routed.{cut, Streams, choice, hands, Routes, route-Routes}
use blades.Flow.Laws.{new_sequential_agent-Shows, new_loop_agent-Shows, route-Shows}
use blades.Flow.Bounds.{IsBounded, new_loop_agent-le}
use blades.Flow.Agents.{handle-IsGenerator}
use blades.Flow.Parallel.{
  until_failure, Channel, Queues, spawn, Takes, here, there, send, receive, Moves, none_yet,
  then_step, only, queue_of, total,
}
use blades.Flow.Parallel.Order.{spawn-journey}
use blades.Flow.Parallel.Ends.{Stuck, Leaks, spawn-le, spawn-delivers, spawn-blocked}

program : Unit {0}
unfolding insert lookup has_key user_message new_message_parts text write_texts trim_newline
    run_sub_agents new_sequential_agent read_signals sub_loop iterate iterations max_rounds
    new_loop_agent collect_targets dispatch route until_failure spawn only queue_of total
program = tt

abbrev says : String → Message
says word = record (user_message "m" (raw word ∷ [])) { role = assistant; status = completed }

-- An agent that says one word, and counts.
abbrev speaker : String → Behaviour ℕ
speaker word wants input r = record r {
  provider = r.provider + 1;
  events = r.events ++ message (says word) ∷ [];
}

abbrev leaver : Bool → Behaviour ℕ
leaver escalated wants input r = record r {
  provider = r.provider + 1;
  events =
      r.events
      ++ message (record (says "bye") { actions = ("loop_exit", bool_value escalated) ∷ [] }) ∷ [];
}

abbrev broken : Behaviour ℕ
broken wants input r = record r {
  provider = r.provider + 1;
  events = r.events ++ failure no_final_response ∷ [];
}

abbrev invoked : Invocation
invoked = record {
  id = "i";
  resume = false;
  stream = false;
  has_session = true;
  refuses = λ m. none;
  message = some (user_message "q" (raw "time?" ∷ []));
  ephemeral_messages = [];
  tools = [];
}

abbrev fresh : Run ℕ
fresh = record {
  session = record { id = "s"; state = []; history = [] };
  provider = 0;
  events = [];
}

abbrev keen : Consumer
keen events = true

-- A consumer that wants one event.
abbrev easily_bored : Consumer
easily_bored events = false

abbrev loop_of : List (Behaviour ℕ) → LoopConfig ℕ
loop_of agents = record {
  name = "loop";
  description = "";
  max_iterations = pos 3;
  condition = none;
  sub_agents = agents;
}

runs_three_times : (new_loop_agent (loop_of (speaker "a" ∷ [])) keen invoked fresh).provider ≡ 3
unfolding program
runs_three_times = refl

-- The rest of the sub-agents of the iteration runs too.
leaves_after_iteration :
    (new_loop_agent (loop_of (leaver false ∷ speaker "b" ∷ [])) keen invoked fresh).provider ≡ 2
unfolding program
leaves_after_iteration = refl

escalates :
    yielded fresh (new_loop_agent (loop_of (leaver true ∷ [])) easily_bored invoked fresh)
    ≡ message (record (says "bye") { actions = ("loop_exit", bool_value true) ∷ [] }) ∷ []
unfolding program
escalates = refl

stops_at_error :
    (new_loop_agent (loop_of (broken ∷ speaker "b" ∷ [])) keen invoked fresh).events
    ≡ failure no_final_response ∷ []
unfolding program
stops_at_error = refl

speaker-IsGenerator : (word : String) → IsGenerator (speaker word)
speaker-IsGenerator word = record {
  keeps = λ wants input r. record { shown = _ ∷ []; split = refl; allowed = tt };
}

speaker-IsBounded : (word : String) → IsBounded (λ n. n) 1 (speaker word)
speaker-IsBounded word = record { raises = λ wants input r. omega arith }

sequence_shows : Shows (passing easily_bored) fresh (
    new_sequential_agent
      (record { name = "all"; description = ""; sub_agents = speaker "a" ∷ speaker "b" ∷ [] })
      easily_bored
      invoked
      fresh)
sequence_shows =
    new_sequential_agent-Shows _ easily_bored invoked fresh
      (speaker-IsGenerator "a", (speaker-IsGenerator "b", tt))

new_loop_agent-Shows_example :
    Shows
      (passing keen)
      fresh
      (new_loop_agent (loop_of (speaker "a" ∷ speaker "b" ∷ [])) keen invoked fresh)
new_loop_agent-Shows_example =
    new_loop_agent-Shows (loop_of (speaker "a" ∷ speaker "b" ∷ [])) keen invoked fresh
      (speaker-IsGenerator "a", (speaker-IsGenerator "b", tt))

new_loop_agent-le_example :
    (new_loop_agent (loop_of (speaker "a" ∷ speaker "b" ∷ [])) keen invoked fresh).provider
    ≤ 0 + max_rounds (pos 3) * (2 * 1)
new_loop_agent-le_example =
    new_loop_agent-le (λ n. n) 1 (loop_of (speaker "a" ∷ speaker "b" ∷ [])) keen invoked fresh
      (speaker-IsBounded "a", (speaker-IsBounded "b", tt))

-- The root agent hands over to a target that is there.
abbrev to_target : String → Behaviour ℕ
to_target name wants input r = record r {
  events =
      r.events
      ++ message (record (says "see") { actions = ("handoff_to_agent", text_value name) ∷ [] })
        ∷ [];
}

abbrev targets : List (String × Behaviour ℕ)
targets = ("maths", speaker "42") ∷ []

collects : collect_targets (λ name. name) targets [] ≡ targets
unfolding program
collects = refl

routes : (route targets (to_target "maths") keen invoked fresh).events ≡ message (says "42") ∷ []
unfolding program
routes = refl

says_itself :
    (route targets (to_target "art") keen invoked fresh).events
    ≡ message (record (says "see") { actions = ("handoff_to_agent", text_value "art") ∷ [] }) ∷ []
unfolding program
says_itself = refl

abbrev mute : Behaviour ℕ
mute wants input r = r

finds_none : (route targets mute keen invoked fresh).events ≡ failure (target_not_found "") ∷ []
unfolding program
finds_none = refl

-- Routing to targets is a generator, also where the name leads to one.
maths-IsGenerator :
    (name : String) (agent : Behaviour ℕ) → lookup name targets ≡ some agent → IsGenerator agent
unfolding lookup
maths-IsGenerator name agent found = elim (Bool-cases (str_eq "maths" name)) [
  | inl same ↦ subst IsGenerator (cc (rw same at found)) (speaker-IsGenerator "42")
  | inr other ↦ absurd (cc (rw other at found))
]

route-Shows_test :
    Shows easily_bored fresh (route targets (to_target "maths") easily_bored invoked fresh)
route-Shows_test =
    route-Shows targets (to_target "maths") easily_bored invoked fresh maths-IsGenerator

-- A root agent that says two words, hands over, and would say more.
abbrev handing : Message
handing = record (says "see") { actions = ("handoff_to_agent", text_value "maths") ∷ [] }

abbrev root_events : List Event
root_events =
    message (says "well") ∷ message handing ∷ message (says "late") ∷ failure no_final_response ∷ []

abbrev root_agent : Behaviour ℕ
root_agent wants input r = record r {
  provider = r.provider + 1;
  events = r.events ++ cut wants r.events root_events;
}

root_agent-Streams : Streams root_agent invoked root_events
root_agent-Streams = record { yields = λ wants r. refl }

route-Routes_example :
    Routes targets easily_bored invoked
      (rejoin targets fresh (root_agent routing_wants invoked (apart targets fresh)))
      (choice none root_events)
      (route targets root_agent easily_bored invoked fresh)
route-Routes_example =
    route-Routes targets root_agent easily_bored invoked fresh root_events root_agent-Streams

chooses : choice none root_events ≡ hands handing
unfolding program choice
chooses = refl

hands_over : (route targets root_agent easily_bored invoked fresh).events ≡ message (says "42") ∷ []
unfolding program cut
hands_over = refl

abbrev silent : Agent ℕ
silent = record {
  name = "silent";
  output_key = "";
  max_iterations = 2;
  use_context = false;
  model = record {
    generate = λ n messages. (n + 1, ok none);
    new_streaming = λ n messages. (n + 1, []);
  };
}

handle-IsGenerator_example : IsGenerator (λ wants inv r. handle wants none silent inv r)
handle-IsGenerator_example = handle-IsGenerator none silent

-- One sub-agent with two events, of which the consumer has received one.
abbrev two_events : List (List Event)
two_events = (message (says "a") ∷ message (says "b") ∷ []) ∷ []

abbrev one_sent : Channel
one_sent = record {
  queues = (message (says "b") ∷ []) ∷ [];
  channel = (0, message (says "a")) ∷ [];
  received = [];
  reading = true;
}

abbrev one_received : Channel
one_received = record one_sent { channel = []; received = (0, message (says "a")) ∷ [] }

two-Moves : Moves keen 2 (spawn two_events) one_received
unfolding program
two-Moves = then_step (then_step none_yet (send here (omega arith))) (receive refl refl)

spawn-journey_example :
    only 0 one_received.received ++ only 0 one_received.channel ++ queue_of 0 one_received.queues
    ≡ until_failure (queue_of 0 two_events)
spawn-journey_example = spawn-journey keen 0 2 two_events one_received two-Moves

launch_le_test : 2 ≤ total (map until_failure two_events) * 2
launch_le_test = spawn-le keen 2 two_events one_received two-Moves

abbrev one_event : List (List Event)
one_event = (message (says "a") ∷ []) ∷ []

abbrev all_received : Channel
all_received = record {
  queues = [] ∷ [];
  channel = [];
  received = (0, message (says "a")) ∷ [];
  reading = true;
}

delivered : Moves keen 2 (spawn one_event) all_received
unfolding program
delivered = then_step (then_step none_yet (send here (omega arith))) (receive refl refl)

Takes-none : {i : ℕ} {e : Event} {rest : Queues} → Takes ([] ∷ []) i e rest → ⊥
Takes-none (there takes) = elim takes [ ]

all_received-Stuck : Stuck keen all_received
unfolding Stuck
all_received-Stuck _ (send takes room) = Takes-none takes
all_received-Stuck _ (receive reads next) = absurd (cc)

spawn-delivers_example : only 0 all_received.received ≡ until_failure (queue_of 0 one_event)
spawn-delivers_example =
    spawn-delivers keen 2 one_event all_received delivered refl all_received-Stuck 0

-- A sub-agent with ten events, whose consumer stops after the first.
abbrev word : Event
word = message (says "a")

abbrev nine : List Event
nine = word ∷ word ∷ word ∷ word ∷ word ∷ word ∷ word ∷ word ∷ word ∷ []

abbrev left_early : Channel
left_early = record { queues = nine ∷ []; channel = []; received = (0, word) ∷ []; reading = false }

leaving : Moves easily_bored 2 (spawn ((word ∷ nine) ∷ [])) left_early
unfolding program
leaving = then_step (then_step none_yet (send here (omega arith))) (receive refl refl)

left_early-Leaks : Leaks left_early
unfolding Leaks program
left_early-Leaks = (refl, omega arith)

spawn-blocked_example : 0 < total left_early.queues
spawn-blocked_example =
    spawn-blocked easily_bored 2 0 ((word ∷ nine) ∷ []) left_early left_early leaving
      left_early-Leaks none_yet
