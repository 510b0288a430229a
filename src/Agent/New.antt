-- ===== src/Agent/New.antt =====
-- agent.go: the options of an agent, `NewAgent`, and what `Run` does before it enters the loop. Skills
-- and schemas are left out. The resolver of tools, the provider of instructions and the templates
-- are parameters.
use blades.Common.{
  ℕ, String, str_eq, Bool, true, false, List, [], ◌∷◌, ◌++◌, Option, none, some, Result, ok, err,
  if◌then◌else◌, ◌>>=◌, apply_options,
}
use blades.Message.{Any, Message, raw, system_message, merge_parts}
use blades.Context.Session.{Session, ContextCompressor, append}
use blades.Agent.Tools.{Tool, AgentError}
use blades.Agent.Loop.{Provider, Agent, Invocation, Event, failure, Run, emit, handle}

-- The fields that the options set; a nil model, resolver or provider is `none`.
pub record AgentConfig (M : Type 0) : Type 0 where
  pub name : String
  pub description : String
  pub instruction : String
  pub instruction_provider : Option (Result AgentError String)
  pub output_key : String
  pub max_iterations : ℕ
  pub model : Option (Provider M)
  pub tools : List Tool
  pub tools_resolver : Option (Result AgentError (List Tool))
  pub use_context : Bool

pub data NewError : Type 0 where
  model_provider_required : NewError

abbrev pub provide :
    Option (Result AgentError String) → Option Message → Result AgentError (Option Message)
provide none instruction = ok instruction
provide (some (err error)) instruction = err error
provide (some (ok text)) instruction =
    ok (merge_parts (some (system_message "" (raw text ∷ []))) instruction)

module _ {M : Type 0} where
  unfoldable pub with_model : Provider M → AgentConfig M → AgentConfig M
  with_model model a = record a { model = some model }

  unfoldable pub with_description : String → AgentConfig M → AgentConfig M
  with_description text a = record a { description = text }

  unfoldable pub with_instruction : String → AgentConfig M → AgentConfig M
  with_instruction text a = record a { instruction = text }

  unfoldable pub with_instruction_provider :
      Result AgentError String → AgentConfig M → AgentConfig M
  with_instruction_provider provider a = record a { instruction_provider = some provider }

  unfoldable pub with_output_key : String → AgentConfig M → AgentConfig M
  with_output_key key a = record a { output_key = key }

  unfoldable pub with_tools : List Tool → AgentConfig M → AgentConfig M
  with_tools tools a = record a { tools = tools }

  unfoldable pub with_tools_resolver : Result AgentError (List Tool) → AgentConfig M → AgentConfig M
  with_tools_resolver resolver a = record a { tools_resolver = some resolver }

  unfoldable pub with_max_iterations : ℕ → AgentConfig M → AgentConfig M
  with_max_iterations n a = record a { max_iterations = n }

  unfoldable pub with_context : Bool → AgentConfig M → AgentConfig M
  with_context enabled a = record a { use_context = enabled }

  abbrev pub initial : String → AgentConfig M
  initial name = record {
    name = name;
    description = "";
    instruction = "";
    instruction_provider = none;
    output_key = "";
    max_iterations = 10;
    model = none;
    tools = [];
    tools_resolver = none;
    use_context = false;
  }

  abbrev pub require_model :
      AgentConfig M → Option (Provider M) → Result NewError (AgentConfig M × Agent M)
  require_model a none = err model_provider_required
  require_model a (some model) = ok (
    a,
    record {
      name = a.name;
      output_key = a.output_key;
      max_iterations = a.max_iterations;
      use_context = a.use_context;
      model = model;
    },
  )

  -- The configuration, and the part of it that the loop reads.
  unfoldable pub new_agent :
      String → List (AgentConfig M → AgentConfig M) → Result NewError (AgentConfig M × Agent M)
  unfolding apply_options
  new_agent name opts = let a = apply_options opts (initial name) in require_model a a.model

  unfoldable pub resolve_tools : AgentConfig M → Result AgentError (List Tool)
  resolve_tools a = elim a.tools_resolver [
    | none ↦ ok a.tools
    | some answer ↦ answer >>= λ resolved. ok (a.tools ++ resolved)
  ]

  -- The instruction that goes to the model. `render` runs the template on the session's state.
  unfoldable pub prepare_instruction :
      (String → List (String × Any) → Result AgentError String)
      → AgentConfig M
      → Invocation
      → Session
      → Option Message
      → Result AgentError (Option Message)
  unfolding merge_parts system_message
  prepare_instruction render a inv session given =
      provide a.instruction_provider given >>= λ instruction.
      (if str_eq a.instruction ""
        then ok instruction
        else provide
            (some
              (if inv.has_session then render a.instruction session.state else ok a.instruction))
            instruction)

  unfoldable pub prepare_invocation :
      (String → List (String × Any) → Result AgentError String)
      → AgentConfig M
      → Invocation
      → Session
      → Option Message
      → Result AgentError (Invocation × Option Message)
  unfolding resolve_tools prepare_instruction
  prepare_invocation render a inv session given = resolve_tools a >>= λ resolved.
      prepare_instruction render a inv session given >>= λ instruction.
      ok (record inv { tools = inv.tools ++ resolved }, instruction)

-- The author and the invocation's identifier, where they are not set.
abbrev pub sign : Invocation → Message → Message
sign inv m = record m {
  author = if str_eq m.author "" then "user" else m.author;
  invocation_id = if str_eq m.invocation_id "" then inv.id else m.invocation_id;
}

abbrev pub append_to : Option AgentError → Message → Session → Session
append_to (some error) m s = s
append_to none m s = append m s

-- The test of `Resume`, of the message, and of the flag. The flag stays set if `Append` fails.
abbrev pub commit_message : Bool → Option Message → Invocation → Bool → Session → Bool × Session
commit_message true m inv committed s = (committed, s)
commit_message false none inv committed s = (committed, s)
commit_message false (some m) inv true s = (true, s)
commit_message false (some m) inv false s =
    (true, append_to (inv.refuses (sign inv m)) (sign inv m) s)

-- The user's message is appended once; `committed` is the flag that all clones share.
unfoldable pub commit : Invocation → Bool → Session → Bool × Session
unfolding append
commit inv committed s = commit_message inv.resume inv.message inv committed s

-- The error of `Append` in that step.
abbrev pub refusal : Bool → Option Message → Invocation → Bool → Option AgentError
refusal false (some m) inv false = inv.refuses (sign inv m)
refusal _ _ inv committed = none

abbrev pub sign_message : Option Message → Invocation → Bool → Option Message
sign_message none inv committed = none
sign_message (some m) inv committed = some (if committed then m else sign inv m)

-- The message that is appended is signed in place, so the loop has it signed.
abbrev pub sign_invocation : Invocation → Bool → Invocation
sign_invocation inv committed =
    if inv.resume then inv else record inv { message = sign_message inv.message inv committed }

-- `Run`, in a session: the flag and the state after it.
unfoldable pub run :
    {M : Type 0}
    → (List Event → Bool)
    → Option ContextCompressor
    → (String → List (String × Any) → Result AgentError String)
    → AgentConfig M × Agent M
    → Invocation
    → Option Message
    → Bool
    → Run M
    → Bool × Run M
unfolding commit prepare_invocation handle
run wants compressor render (config, a) inv given committed r =
    elim (prepare_invocation render config inv r.session given) [
      | err error ↦ (committed, emit (failure error) r)
      | ok (prepared, instruction) ↦
          let (committed', session) = commit prepared committed r.session in
          let r' = record r { session = session } in
          elim (refusal prepared.resume prepared.message prepared committed) [
            | some error ↦ (committed', emit (failure error) r')
            | none ↦ (committed', handle wants compressor a (sign_invocation prepared committed) r')
          ]
    ]
