-- ===== src/Agent/Loop.antt =====
-- `handle` of agent.go: the loop that asks the model. A generator is a function from a state to the
-- state after it, with the list of what it yielded; the consumer's answer to a yield is a parameter.
-- The model, the session's compressor and the tools are parameters: a model has a state of a type
-- `M`, so that its answers may change.
use blades.Common.{
  ℕ, zero, suc, String, str_eq, Bool, true, false, not, ◌&&◌, ◌||◌, List, [], ◌∷◌, ◌++◌, Option,
  none, some, Result, ok, err, if◌then◌else◌, ◌==◌,
}
use blades.Common.StringMap.{has_key}
use blades.Message.{Message, assistant, tool, completed, text, text_value}
use blades.Context.Session.{Session, ContextCompressor, history, append, set_state}
use blades.Agent.Tools.{
  AgentError, no_final_response, max_iterations_exceeded, history_error, Tool, execute_tools,
}

-- `tools.ActionLoopExit` of tools/actions.go
abbrev pub action_loop_exit : String
action_loop_exit = "loop_exit"

abbrev pub is_assistant : Message → Bool
is_assistant m = elim m.role [ assistant ↦ true | _ ↦ false ]

abbrev pub is_tool : Message → Bool
is_tool m = elim m.role [ tool ↦ true | _ ↦ false ]

abbrev pub is_completed : Message → Bool
is_completed m = elim m.status [ completed ↦ true | _ ↦ false ]

-- `Message` is left out of the list if it is nil. `has_session`: `Session` is not nil, and then it
-- is the session of the context. The instruction and the schemas go to the model as they are.
-- `refuses`: the error of the session's `Append` for a message; the session of `NewSession` has none.
pub record Invocation : Type 0 where
  pub id : String
  pub resume : Bool
  pub stream : Bool
  pub has_session : Bool
  pub message : Option Message
  pub ephemeral_messages : List Message
  pub tools : List Tool
  pub refuses : Message → Option AgentError

pub data Event : Type 0 where
  message : Message → Event
  failure : AgentError → Event

-- An answer without a message is `none`.
abbrev pub Answer : Type 0
Answer = Result AgentError (Option Message)

pub record Provider (M : Type 0) : Type 0 where
  pub generate : M → List Message → M × Answer
  pub new_streaming : M → List Message → M × List Answer

pub record Agent (M : Type 0) : Type 0 where
  pub name : String
  pub output_key : String
  pub max_iterations : ℕ
  pub use_context : Bool
  pub model : Provider M

pub record Run (M : Type 0) : Type 0 where
  pub session : Session
  pub provider : M
  pub events : List Event

-- How a round of the loop ends: the generator returns, or goes on with the tools' answers.
pub data Round (M : Type 0) : Type 0 where
  stopped : Run M → Round M
  again : Message → Run M → Round M

-- How the loop over a stream ends: the generator returns, or the stream ended with a last message.
pub data Streamed (M : Type 0) : Type 0 where
  cut : Run M → Streamed M
  ended : Option Message → Run M → Streamed M

abbrev pub to_list : Option Message → List Message
to_list none = []
to_list (some m) = m ∷ []

abbrev pub with_ephemeral : Invocation → ℕ → List Message → List Message
with_ephemeral inv i messages = if i == 0 then messages ++ inv.ephemeral_messages else messages

module _ {M : Type 0} where
  abbrev pub emit : Event → Run M → Run M
  emit event r = record r { events = r.events ++ event ∷ [] }

  abbrev pub fail : AgentError → Run M → Round M
  fail error r = stopped (emit (failure error) r)

  -- The author, and the invocation's identifier.
  abbrev pub stamp : Agent M → Invocation → Message → Message
  stamp a inv m = record m {
    author = if str_eq m.author "" then a.name else m.author;
    invocation_id = inv.id;
  }

  unfoldable pub save_output_state : Agent M → Invocation → Message → Run M → Run M
  unfolding set_state
  save_output_state a inv m r =
      if not (str_eq a.output_key "") && (inv.has_session && (is_assistant m && is_completed m))
      then record r { session = set_state a.output_key (text_value (text m)) r.session }
      else r

  abbrev pub persist : Message → Run M → Run M
  persist m r = record r { session = append m r.session }

  abbrev pub load_history : Agent M → Invocation → Bool
  load_history a inv = a.use_context || inv.resume

module _ {M : Type 0} (wants : List Event → Bool) where
  -- The end of a round whose message calls for tools.
  unfoldable pub tool_round : Invocation → Message → Run M → Round M
  tool_round inv m r = elim (execute_tools inv.tools m) [
    | err error ↦ fail error r
    | ok answered ↦
        let r' = emit (message answered) r in
        if not (wants r'.events) then stopped r' else elim (inv.refuses answered) [
          | some error ↦ fail error r'
          | none ↦
              if has_key action_loop_exit answered.actions
              then stopped (persist answered r')
              else again answered (persist answered r')
        ]
  ]

  abbrev pub store_final : Option AgentError → Message → Run M → Round M
  store_final (some error) m r = fail error r
  store_final none m r = stopped (persist m r)

  unfoldable pub finish_round : Invocation → Message → Run M → Round M
  unfolding tool_round
  finish_round inv m r = if is_tool m then tool_round inv m r else store_final (inv.refuses m) m r

  -- The answer of `Generate`.
  unfoldable pub generate_round : Agent M → Invocation → Answer → Run M → Round M
  unfolding finish_round save_output_state
  generate_round a inv (err error) r = fail error r
  generate_round a inv (ok none) r = fail no_final_response r
  generate_round a inv (ok (some m)) r =
      let final = stamp a inv m in
      if is_assistant final
      then (let r' = emit (message final) (save_output_state a inv final r) in
          if wants r'.events then finish_round inv final r' else stopped r')
      else finish_round inv final r

  -- The loop over the stream; `last` is the variable `finalMessage`.
  unfoldable pub stream_loop :
      Agent M → Invocation → Option Message → List Answer → Run M → Streamed M
  unfolding save_output_state
  stream_loop a inv last [] r = ended last r
  stream_loop a inv last (err error ∷ answers) r = cut (emit (failure error) r)
  stream_loop a inv last (ok none ∷ answers) r = cut (emit (failure no_final_response) r)
  stream_loop a inv last (ok (some m) ∷ answers) r =
      let final = stamp a inv m in
      let r' = emit (message final) (save_output_state a inv final r) in
      let passed = stream_loop a inv (some final) answers r in
      let yielded = stream_loop a inv (some final) answers r' in
      if is_tool final && is_completed final
      then passed
      else if wants r'.events
      then yielded
      else cut r'

  unfoldable pub stream_end : Invocation → Streamed M → Round M
  unfolding finish_round
  stream_end inv (cut r) = stopped r
  stream_end inv (ended none r) = fail no_final_response r
  stream_end inv (ended (some m) r) =
      if is_completed m then finish_round inv m r else fail no_final_response r

  -- The model is asked.
  unfoldable pub ask : Agent M → Invocation → List Message → Run M → Round M
  unfolding generate_round stream_loop stream_end
  ask a inv messages r =
      if inv.stream
      then (let (provider, answers) = a.model.new_streaming r.provider messages in
          stream_end inv (stream_loop a inv none answers (record r { provider = provider })))
      else let (provider, answer) = a.model.generate r.provider messages in
        generate_round a inv answer (record r { provider = provider })

module _ {M : Type 0} (wants : List Event → Bool) (compressor : Option ContextCompressor) where
  -- One round of the loop.
  unfoldable pub round : Agent M → Invocation → ℕ → List Message → Run M → Round M
  unfolding ask
  round a inv i local r =
      if load_history a inv
      then elim (history compressor r.session) [
        | err error ↦ fail (history_error error) r
        | ok (session, messages) ↦
            ask wants a inv (with_ephemeral inv i messages) (record r { session = session })
      ]
      else ask wants a inv (with_ephemeral inv i local) r

  -- The loop, by the number of rounds that are left.
  unfoldable pub rounds : Agent M → Invocation → ℕ → ℕ → List Message → Run M → Run M
  rounds a inv zero i local r = emit (failure max_iterations_exceeded) r
  rounds a inv (suc left) i local r = elim (round a inv i local r) [
    | stopped r' ↦ r'
    | again answered r' ↦
        rounds a inv left (suc i) (if load_history a inv then local else local ++ answered ∷ []) r'
  ]

  unfoldable pub handle : Agent M → Invocation → Run M → Run M
  handle a inv r = rounds a inv a.max_iterations 0 (to_list inv.message) r
