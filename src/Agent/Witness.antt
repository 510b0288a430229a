-- ===== src/Agent/Witness.antt =====
-- The theorems on agents, at small inputs, and runs of the loop.
use blades.Common.{
  length, apply_options, err, ℕ, suc, zero, ◌+◌, ◌≤◌, String, ◌≡◌, refl, Bool, true, false, List,
  [], ◌∷◌, some, none, ok,
}
use blades.Common.StringMap.{insert, has_key, lookup}
use blades.Message.{
  bool_value, text_value, Message, text_part, tool_part, ToolPart, tool, assistant, completed, raw,
  user_message, new_message_parts, merge_actions, copy_actions, text, write_texts, trim_newline,
}
use blades.Context.Session.{history, append, set_state}
use blades.Agent.Tools.{response, Tool, handle_tools, execute_part, execute_parts, execute_tools}
use blades.Agent.Loop.{
  Invocation, Event, Provider, Agent, Run, save_output_state, tool_round, finish_round,
  generate_round, stream_loop, stream_end, ask, round, rounds, handle,
}
use blades.Agent.Calls.{IsCounter, handle-le_max_iterations}
use blades.Agent.New.{
  model_provider_required, with_model, with_output_key, with_max_iterations, initial, new_agent,
  commit,
}
use blades.Agent.Commit.{commit_all, commit_all-le_one}
use blades.Agent.Answered.{AllAnswer, execute_tools-AllAnswer}

abbrev clock : Tool
clock = record { name = "clock"; handle = λ request. (response "noon", []) }

abbrev leave : Tool
leave = record {
  name = "leave";
  handle = λ request. (response "bye", ("loop_exit", bool_value true) ∷ []);
}

abbrev calls : String → ToolPart
calls name = record { id = "c1"; name = name; request = "{}"; response = ""; completed = false }

abbrev asks_for : String → Message
asks_for name = record (user_message "m" []) {
  role = tool;
  parts = text_part "wait" ∷ tool_part (calls name) ∷ [];
  author = "helper";
}

abbrev says : String → Message
says word = record (user_message "m" (raw word ∷ [])) {
  role = assistant;
  author = "helper";
  status = completed;
}

-- A model that asks for a tool at its first calls, by their number.
abbrev scripted : (ℕ → Message) → Provider ℕ
scripted script = record {
  generate = λ n messages. (n + 1, ok (some (script n)));
  new_streaming = λ n messages. (n + 1, ok (some (script n)) ∷ []);
}

abbrev helper : (ℕ → Message) → Agent ℕ
helper script = record {
  name = "helper";
  output_key = "said";
  max_iterations = 2;
  use_context = false;
  model = scripted script;
}

abbrev invoked : Invocation
invoked = record {
  id = "i";
  resume = false;
  stream = false;
  has_session = true;
  refuses = λ m. none;
  message = some (user_message "q" (raw "time?" ∷ []));
  ephemeral_messages = [];
  tools = clock ∷ leave ∷ [];
}

abbrev fresh : Run ℕ
fresh = record {
  session = record { id = "s"; state = []; history = [] };
  provider = 0;
  events = [];
}

abbrev always : String → ℕ → Message
always name n = asks_for name

abbrev then_says : ℕ → Message
then_says zero = asks_for "clock"
then_says (suc n) = says "noon"

abbrev keen : List Event → Bool
keen events = true

program : Unit {0}
unfolding insert has_key lookup user_message new_message_parts merge_actions copy_actions history
    append set_state handle_tools execute_part execute_parts execute_tools save_output_state
    tool_round finish_round generate_round stream_loop stream_end ask round rounds handle text
    write_texts trim_newline
program = tt

-- The number of calls, the error of the last round, and what is left in the session.
called_twice : (handle keen none (helper (always "clock")) invoked fresh).provider ≡ 2
unfolding program
called_twice = refl

leaves_at_once : (handle keen none (helper (always "leave")) invoked fresh).provider ≡ 1
unfolding program
leaves_at_once = refl

output_saved :
    lookup "said" (handle keen none (helper then_says) invoked fresh).session.state
    ≡ some (text_value "noon")
unfolding program
output_saved = refl

helper-IsCounter : IsCounter (helper (always "clock")) (λ n. n)
helper-IsCounter = record { generated = λ s messages. refl; streamed = λ s messages. refl }

handle-le_max_iterations_example :
    (handle keen none (helper (always "clock")) invoked fresh).provider ≤ 0 + 2
handle-le_max_iterations_example =
    handle-le_max_iterations keen none (helper (always "clock")) (λ n. n) helper-IsCounter invoked
      fresh

abbrev answered : Message
answered = record (asks_for "clock") {
  parts =
      text_part "wait"
      ∷ tool_part (record (calls "clock") { response = "noon"; completed = true })
      ∷ [];
}

answered_run : execute_tools (clock ∷ []) (asks_for "clock") ≡ ok answered
unfolding program
answered_run = refl

execute_tools-AllAnswer_example : AllAnswer (asks_for "clock").parts answered.parts
execute_tools-AllAnswer_example =
    execute_tools-AllAnswer (clock ∷ []) (asks_for "clock") answered answered_run

abbrev clones : List Invocation
clones = invoked ∷ invoked ∷ record invoked { resume = true } ∷ []

appended_once : length (commit_all clones false fresh.session).1.history ≡ 1
unfolding program commit commit_all
appended_once = refl

commit_all-le_one_example : length (commit_all clones false fresh.session).1.history ≤ 0 + 1
commit_all-le_one_example = commit_all-le_one clones fresh.session

-- An agent that is built with options, and one that has no model.
built_test :
    new_agent "helper"
      (with_model (scripted then_says) ∷ with_output_key "said" ∷ with_max_iterations 2 ∷ [])
    ≡ ok (
      record (initial "helper") {
        model = some (scripted then_says);
        output_key = "said";
        max_iterations = 2;
      },
      helper then_says,
    )
unfolding new_agent with_model with_output_key with_max_iterations apply_options
built_test = refl

no_model_test : new_agent {M = ℕ} "helper" [] ≡ err model_provider_required
unfolding new_agent apply_options
no_model_test = refl
