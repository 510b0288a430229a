-- ===== src/Flow/Runner.antt =====
-- runner.go, and the agent as a tool of tool.go.
use blades.Common.{
  String, Bool, true, false, not, List, [], ◌∷◌, Option, none, some, Result, err, ok, apply_options,
}
use blades.Message.{Message, text, user_message, raw}
use blades.Context.Session.{Session, new_session}
use blades.Agent.Tools.{AgentError, no_final_response}
use blades.Agent.Loop.{Event, Invocation, Run}
use blades.Flow.{Consumer, Behaviour, passing, ends_failed, last_message}
use blades.Flow.Middleware.{final_error}

pub record RunOptions : Type 0 where
  pub session : Session
  pub refuses : Message → Option AgentError
  pub resume : Bool
  pub invocation_id : String

unfoldable pub with_session : Session → (Message → Option AgentError) → RunOptions → RunOptions
with_session session refuses o = record o { session = session; refuses = refuses }

unfoldable pub with_resume : Bool → RunOptions → RunOptions
with_resume resume o = record o { resume = resume }

unfoldable pub with_invocation_id : String → RunOptions → RunOptions
with_invocation_id id o = record o { invocation_id = id }

-- The options of a run, with what the session's `Append` refuses; the session and the identifier of the defaults are arguments.
unfoldable pub run_options : Session → String → List (RunOptions → RunOptions) → RunOptions
unfolding apply_options
run_options session id opts =
    apply_options opts
      (record { session = session; refuses = λ m. none; resume = false; invocation_id = id })

-- `buildInvocation`; the tools are set by the agent.
unfoldable pub build_invocation : Message → Bool → RunOptions → Invocation
build_invocation m stream o = record {
  id = o.invocation_id;
  resume = o.resume;
  stream = stream;
  has_session = true;
  message = some m;
  ephemeral_messages = [];
  tools = [];
  refuses = o.refuses;
}

-- The consumer of a loop that leaves at an error.
abbrev pub until_error : Consumer
until_error events = not (ends_failed events)

-- `output` and `err` after the loop.
abbrev pub final_output : Option AgentError → Option Message → Result AgentError Message
final_output (some error) last = err error
final_output none none = err no_final_response
final_output none (some m) = ok m

unfoldable pub result_of : List Event → Result AgentError Message
result_of events = final_output (final_error events) (last_message events)

abbrev pub tool_text : Result AgentError Message → Result AgentError String
tool_text (err error) = err error
tool_text (ok m) = ok (text m)

-- `msg.Author` is the calling agent, if there is one.
abbrev pub attributed : Option String → Message → Message
attributed none m = m
attributed (some caller) m = record m { author = caller }

abbrev pub delegation : Message → Invocation
delegation m = record {
  id = "";
  resume = false;
  stream = false;
  has_session = false;
  message = some m;
  ephemeral_messages = [];
  tools = [];
  refuses = λ m. none;
}

module _ {M : Type 0} where
  -- What the run starts with.
  abbrev pub begin : Session → M → Run M
  begin session provider = record { session = session; provider = provider; events = [] }

  -- `Runner.Run`
  unfoldable pub run_agent :
      Behaviour M → Message → RunOptions → M → Run M × Result AgentError Message
  unfolding build_invocation result_of
  run_agent root m o provider =
      let r = root until_error (build_invocation m false o) (begin o.session provider) in
      (r, result_of r.events)

  -- `Runner.RunStream`
  unfoldable pub run_stream : Behaviour M → Message → RunOptions → Consumer → M → Run M
  unfolding build_invocation
  run_stream root m o wants provider =
      root (passing wants) (build_invocation m true o) (begin o.session provider)

  -- `agentTool.Handle`: the agent runs in a session of its own, whose identifier is an argument.
  unfoldable pub handle_agent :
      Behaviour M → Option String → String → String → String → M → M × Result AgentError String
  unfolding user_message new_session result_of
  handle_agent agent caller session_id message_id input provider =
      let m = attributed caller (user_message message_id (raw input ∷ [])) in
      let r = agent until_error (delegation m) (begin (new_session session_id []) provider) in
      (r.provider, tool_text (result_of r.events))
