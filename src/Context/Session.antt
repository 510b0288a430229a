-- ===== src/Context/Session.antt =====
-- session.go and state.go: the session kept in memory. The random identifier is an argument, and
-- the context compressor is passed where the history is read.
use blades.Common.{String, List, [], ◌∷◌, ◌++◌, apply_options, Option, some, none, Result, ok}
use blades.Common.StringMap.{insert}
use blades.Message.{Any, Message}

pub record Session : Type 0 where
  pub id : String
  pub state : List (String × Any)
  pub history : List Message

unfoldable pub new_session : String → List (Session → Session) → Session
unfolding apply_options
new_session id opts = apply_options opts (record { id = id; state = []; history = [] })

unfoldable pub set_state : String → Any → Session → Session
set_state key value s = record s { state = insert key value s.state }

unfoldable pub append : Message → Session → Session
append message s = record s { history = s.history ++ message ∷ [] }

-- A compressor may store its progress in the session, so it returns one.
abbrev pub ContextCompressor : Type 0
ContextCompressor = Session → List Message → Result String (Session × List Message)

unfoldable pub history : Option ContextCompressor → Session → Result String (Session × List Message)
history none s = ok (s, s.history)
history (some compressor) s = compressor s s.history

unfoldable pub ensure_session : Option Session → String → Session
unfolding new_session
ensure_session (some s) id = s
ensure_session none id = new_session id []
