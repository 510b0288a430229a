-- ===== src/Message.antt =====
-- message.go: messages, their parts, and the operations on them. Identifiers that the source
-- draws at random are arguments.
pub mod Text
pub mod Merge
mod Witness
use Prim.Native.Char.{code}
use Prim.Native.String as Native
use blades.Common.{
  ℕ, String, str_eq, Bool, true, false, List, [], ◌∷◌, ◌++◌, Option, none, some, if◌then◌else◌,
  ◌==◌,
}
use blades.Common.StringMap.{insert, has_key}

pub data Role : Type 0 where
  user system assistant tool : Role

pub data Status : Type 0 where
  unset in_progress incomplete completed : Status

-- The dynamic types that the code tests for in a value of type `any`.
pub data Any : Type 0 where
  bool_value : Bool → Any
  text_value : String → Any
  int_value : ℕ → Any
  other_value : ℕ → Any

pub record ToolPart : Type 0 where
  pub id : String
  pub name : String
  pub request : String
  pub response : String
  pub completed : Bool

pub record FilePart : Type 0 where
  pub name : String
  pub uri : String
  pub mime_type : String

pub record DataPart : Type 0 where
  pub name : String
  pub bytes : List ℕ
  pub mime_type : String

pub data Part : Type 0 where
  text_part : String → Part
  file_part : FilePart → Part
  data_part : DataPart → Part
  tool_part : ToolPart → Part

abbrev pub Actions : Type 0
Actions = List (String × Any)

pub record TokenUsage : Type 0 where
  pub input_tokens : ℕ
  pub output_tokens : ℕ
  pub total_tokens : ℕ

pub record Message : Type 0 where
  pub id : String
  pub role : Role
  pub parts : List Part
  pub author : String
  pub invocation_id : String
  pub status : Status
  pub finish_reason : String
  pub token_usage : TokenUsage
  pub actions : Actions
  pub metadata : Actions

abbrev pub newline : String
newline = "\n"

-- The loop of `Text` over the parts; `buf` is the builder.
unfoldable pub write_texts : List Part → String → String
write_texts [] buf = buf
write_texts (text_part text ∷ parts) buf =
    write_texts parts (Native.◌++◌ (Native.◌++◌ buf text) newline)
write_texts (_ ∷ parts) buf = write_texts parts buf

-- `strings.TrimSuffix(s, "\n")`
unfoldable pub trim_newline : String → String
trim_newline Native.[] = Native.[]
trim_newline (Native.◌∷◌ c Native.[]) = if code c == 10 then "" else Native.◌∷◌ c Native.[]
trim_newline (Native.◌∷◌ c (Native.◌∷◌ d s)) = Native.◌∷◌ c (trim_newline (Native.◌∷◌ d s))

unfoldable pub text : Message → String
unfolding write_texts trim_newline
text m = trim_newline (write_texts m.parts "")

-- The first file part.
unfoldable pub first_file : List Part → Option FilePart
first_file [] = none
first_file (file_part file ∷ parts) = some file
first_file (_ ∷ parts) = first_file parts

unfoldable pub first_data : List Part → Option DataPart
first_data [] = none
first_data (data_part bytes ∷ parts) = some bytes
first_data (_ ∷ parts) = first_data parts

-- The inputs that `NewMessageParts` accepts, and any other.
pub data Input : Type 0 where
  raw : String → Input
  part : Part → Input
  unknown : Any → Input

unfoldable pub new_message_parts : List Input → List Part
new_message_parts [] = []
new_message_parts (raw s ∷ inputs) = text_part s ∷ new_message_parts inputs
new_message_parts (part p ∷ inputs) = p ∷ new_message_parts inputs
new_message_parts (unknown _ ∷ inputs) = new_message_parts inputs

abbrev pub blank : String → Role → String → List Part → Message
blank id role author parts = record {
  id = id;
  role = role;
  parts = parts;
  author = author;
  invocation_id = "";
  status = unset;
  finish_reason = "";
  token_usage = record { input_tokens = 0; output_tokens = 0; total_tokens = 0 };
  actions = [];
  metadata = [];
}

unfoldable pub user_message : String → List Input → Message
unfolding new_message_parts
user_message id inputs = blank id user "user" (new_message_parts inputs)

unfoldable pub system_message : String → List Input → Message
unfolding new_message_parts
system_message id inputs = blank id system "" (new_message_parts inputs)

unfoldable pub assistant_message : String → List Input → Message
unfolding new_message_parts
assistant_message id inputs = blank id assistant "" (new_message_parts inputs)

-- A nil message is `none`.
unfoldable pub merge_parts : Option Message → Option Message → Option Message
merge_parts none extra = extra
merge_parts (some base) none = some base
merge_parts (some base) (some extra) = some (record base { parts = base.parts ++ extra.parts })

-- One of the two loops of `MergeActions`.
unfoldable pub copy_actions : Actions → Actions → Actions
copy_actions [] actions = actions
copy_actions ((key, value) ∷ rest) actions = copy_actions rest (insert key value actions)

unfoldable pub merge_actions : Actions → Actions → Actions
unfolding copy_actions
merge_actions base extra = copy_actions extra (copy_actions base [])

-- The set of the identifiers of `extra`, without the empty one.
unfoldable pub id_set : List Message → List (String × Unit {0}) → List (String × Unit {0})
id_set [] sets = sets
id_set (m ∷ extra) sets = id_set extra (if str_eq m.id "" then sets else insert m.id tt sets)

unfoldable pub filter_base : List (String × Unit {0}) → List Message → List Message
filter_base sets [] = []
filter_base sets (m ∷ base) =
    if has_key m.id sets then filter_base sets base else m ∷ filter_base sets base

unfoldable pub append_messages : List Message → List Message → List Message
unfolding id_set filter_base
append_messages base extra = filter_base (id_set extra []) base ++ extra
