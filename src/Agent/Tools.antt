-- ===== src/Agent/Tools.antt =====
-- `handleTools` and `executeTools` of agent.go. The goroutines of `executeTools` write to different
-- parts; they are run in the order of the parts, which makes a difference only where two tools set
-- the same action.
use Prim.Native.String as Native
use blades.Common.{String, str_eq, true, List, [], ◌∷◌, Result, ok, err, if◌then◌else◌, ◌>>=◌}
use blades.Message.{
  Actions, Message, Part, text_part, file_part, data_part, tool_part, ToolPart, merge_actions,
}

-- The errors that a generator of the agent yields.
pub data AgentError : Type 0 where
  no_final_response max_iterations_exceeded loop_escalated interrupted_run : AgentError
  target_not_found : String → AgentError
  provider_error history_error cancelled : String → AgentError

-- What a call of a tool comes to; `interrupted`: an error of the context.
pub data ToolAnswer : Type 0 where
  response : String → ToolAnswer
  failed : String → ToolAnswer
  interrupted : String → ToolAnswer

-- A tool answers a request, and may set actions.
pub record Tool : Type 0 where
  pub name : String
  pub handle : String → ToolAnswer × Actions

abbrev with_response : ToolPart → String → ToolPart
with_response part text = record part { response = text }

abbrev pub answer_part : ToolPart → ToolAnswer × Actions → Result AgentError (ToolPart × Actions)
answer_part part (response text, actions) = ok (record part { response = text }, actions)
answer_part part (failed text, actions) =
    ok (record part { response = Native.◌++◌ "Tool error: " text }, actions)
answer_part part (interrupted text, actions) = err (cancelled text)

unfoldable pub handle_tools : List Tool → ToolPart → Result AgentError (ToolPart × Actions)
handle_tools [] part = ok (
  record part {
    response = Native.◌++◌ "Tool error: agent: tool " (Native.◌++◌ part.name " not found");
  },
  [],
)
handle_tools (tool ∷ tools) part =
    if str_eq tool.name part.name
    then answer_part part (tool.handle part.request)
    else handle_tools tools part

abbrev pub complete : ToolPart → ToolPart
complete part = record part { completed = true }

-- The work on one part; a part that is complete is left as it is.
unfoldable pub execute_part : List Tool → Part → Result AgentError (Part × Actions)
unfolding handle_tools
execute_part tools (tool_part part) =
    if part.completed
    then ok (tool_part part, [])
    else handle_tools tools part >>= λ answered. ok (tool_part (complete (answered.0)), answered.1)
execute_part tools (text_part text) = ok (text_part text, [])
execute_part tools (file_part file) = ok (file_part file, [])
execute_part tools (data_part bytes) = ok (data_part bytes, [])

unfoldable pub execute_parts :
    List Tool → List Part → Actions → Result AgentError (List Part × Actions)
unfolding execute_part
execute_parts tools [] actions = ok ([], actions)
execute_parts tools (part ∷ parts) actions = execute_part tools part >>= λ first.
    execute_parts tools parts (merge_actions actions (first.1)) >>= λ rest.
    ok ((first.0) ∷ (rest.0), rest.1)

unfoldable pub execute_tools : List Tool → Message → Result AgentError Message
unfolding execute_parts
execute_tools tools message = execute_parts tools message.parts message.actions >>= λ done.
    ok (record message { parts = done.0; actions = done.1 })
