-- ===== src/Cli/Persistence.antt =====
-- cmd/blades/internal/session/session.go: how a history is put into the form of the file, and read
-- from it. A nil message, which the source passes over, is none of a history's messages here.
use blades.Common.{ℕ, String, str_eq, Bool, false, List, [], ◌∷◌, Result, err, ok, if◌then◌else◌}
use blades.Message.{
  Role, Status, TokenUsage, Actions, Part, text_part, file_part, data_part, tool_part, Message,
}

pub record PersistedPart : Type 0 where
  pub type : String
  pub text : String
  pub name : String
  pub uri : String
  pub mime_type : String
  pub bytes : List ℕ
  pub id : String
  pub request : String
  pub response : String
  pub completed : Bool

pub record PersistedMessage : Type 0 where
  pub id : String
  pub role : Role
  pub author : String
  pub invocation_id : String
  pub status : Status
  pub finish_reason : String
  pub token_usage : TokenUsage
  pub actions : Actions
  pub metadata : Actions
  pub parts : List PersistedPart

-- A part without fields.
abbrev empty_part : String → PersistedPart
empty_part type = record {
  type = type;
  text = "";
  name = "";
  uri = "";
  mime_type = "";
  bytes = [];
  id = "";
  request = "";
  response = "";
  completed = false;
}

abbrev pub make_persisted_part : Part → PersistedPart
make_persisted_part (text_part text) = record (empty_part "text") { text = text }
make_persisted_part (file_part v) = record (empty_part "file") {
  name = v.name;
  uri = v.uri;
  mime_type = v.mime_type;
}
make_persisted_part (data_part v) = record (empty_part "data") {
  name = v.name;
  bytes = v.bytes;
  mime_type = v.mime_type;
}
make_persisted_part (tool_part v) = record (empty_part "tool") {
  id = v.id;
  name = v.name;
  request = v.request;
  response = v.response;
  completed = v.completed;
}

unfoldable pub make_persisted_parts : List Part → List PersistedPart
make_persisted_parts [] = []
make_persisted_parts (part ∷ parts) = make_persisted_part part ∷ make_persisted_parts parts

unfoldable pub make_persisted_history : List Message → List PersistedMessage
unfolding make_persisted_parts
make_persisted_history [] = []
make_persisted_history (message ∷ history) =
    record {
      id = message.id;
      role = message.role;
      author = message.author;
      invocation_id = message.invocation_id;
      status = message.status;
      finish_reason = message.finish_reason;
      token_usage = message.token_usage;
      actions = message.actions;
      metadata = message.metadata;
      parts = make_persisted_parts message.parts;
    }
    ∷ make_persisted_history history

-- The `switch` on the type; the error is that of an unknown type.
unfoldable pub restore_part : PersistedPart → Result String Part
restore_part part =
    if str_eq part.type "text"
    then ok (text_part part.text)
    else if str_eq part.type "file"
    then ok (file_part (record { name = part.name; uri = part.uri; mime_type = part.mime_type }))
    else if str_eq part.type "data"
    then ok
        (data_part (record { name = part.name; bytes = part.bytes; mime_type = part.mime_type }))
    else if str_eq part.type "tool"
    then ok (
        tool_part (record {
          id = part.id;
          name = part.name;
          request = part.request;
          response = part.response;
          completed = part.completed;
        }))
    else err part.type

unfoldable pub restore_parts : List PersistedPart → Result String (List Part)
unfolding restore_part
restore_parts [] = ok []
restore_parts (part ∷ parts) = elim (restore_part part) [
  | err type ↦ err type
  | ok restored ↦ elim (restore_parts parts) [
    | err type ↦ err type
    | ok rest ↦ ok (restored ∷ rest)
  ]
]

unfoldable pub restore_history : List PersistedMessage → Result String (List Message)
unfolding restore_parts
restore_history [] = ok []
restore_history (message ∷ history) = elim (restore_parts message.parts) [
  | err type ↦ err type
  | ok parts ↦ elim (restore_history history) [
    | err type ↦ err type
    | ok rest ↦ ok (
        record {
          id = message.id;
          role = message.role;
          parts = parts;
          author = message.author;
          invocation_id = message.invocation_id;
          status = message.status;
          finish_reason = message.finish_reason;
          token_usage = message.token_usage;
          actions = message.actions;
          metadata = message.metadata;
        }
        ∷ rest)
  ]
]
