-- ===== src/Context/Summary.antt =====
-- context/summary/summary.go. The model that writes the summaries is a parameter: it answers an
-- instruction and a batch of messages. The loop goes by fuel.
pub mod Ends
pub mod Recent
use Prim.Native.String as Native
use blades.Common.{
  ℕ, zero, suc, ◌+◌, ◌-◌, min, String, str_eq, Bool, true, false, List, [], ◌∷◌, Option, none, some,
  ℤ, pos, negsuc, ltb, leb, ◌==◌, ◌||◌, if◌then◌else◌, length, drop, take, Result, ok, err,
  apply_options,
}
use blades.Common.StringMap.{insert, lookup}
use blades.Message.{Any, int_value, text_value, Message, raw, assistant_message}
use blades.Context.Session.{Session, set_state}
use blades.Context.Window.{Counter}

-- `summarizer.Generate`: the text of the answer, or an error.
abbrev pub Summarizer : Type 0
Summarizer = String → List Message → Result String String

-- The budget and the number of recent messages are not negative.
pub record Compressor : Type 0 where
  pub max_tokens : ℕ
  pub counter : Counter
  pub summarizer : Summarizer
  pub keep_recent : ℕ
  pub batch_size : ℤ
  pub instruction : String

unfoldable pub with_max_tokens : ℕ → Compressor → Compressor
with_max_tokens tokens c = record c { max_tokens = tokens }

unfoldable pub with_token_counter : Counter → Compressor → Compressor
with_token_counter counter c = record c { counter = counter }

unfoldable pub with_keep_recent : ℕ → Compressor → Compressor
with_keep_recent n c = record c { keep_recent = n }

unfoldable pub with_batch_size : ℤ → Compressor → Compressor
with_batch_size n c = record c { batch_size = n }

unfoldable pub new_compressor :
    String → Counter → Summarizer → List (Compressor → Compressor) → Compressor
unfolding apply_options
new_compressor instruction counter model opts = apply_options opts (record {
  max_tokens = 0;
  counter = counter;
  summarizer = model;
  keep_recent = 10;
  batch_size = pos 20;
  instruction = instruction;
})

-- The summary message takes the identifier `id`.
unfoldable pub build_working_view : String → String → ℕ → List Message → List Message
build_working_view id summary offset messages =
    if (offset == 0) || str_eq summary ""
    then messages
    else assistant_message id (raw summary ∷ []) ∷ drop offset messages

unfoldable pub extend_summary : Compressor → String → List Message → Result String String
extend_summary c existing batch =
    c.summarizer
      (if str_eq existing ""
        then c.instruction
        else Native.◌++◌ c.instruction (Native.◌++◌ "\n\nExisting summary:\n" existing))
      batch

-- The variables of the loop.
pub record Progress : Type 0 where
  pub offset : ℕ
  pub summary : String

abbrev pub view : String → List Message → Progress → List Message
view id messages p = build_working_view id p.summary p.offset messages

abbrev pub boundary : Compressor → List Message → ℕ
boundary c messages = length messages - c.keep_recent

abbrev pub size : ℤ → ℕ
size (pos n) = n
size (negsuc n) = 0

abbrev pub is_below_zero : ℤ → Bool
is_below_zero (pos n) = false
is_below_zero (negsuc n) = true

abbrev pub batch_end : Compressor → List Message → ℕ → ℕ
batch_end c messages offset = min (offset + size c.batch_size) (boundary c messages)

-- `messages[offset:end]`
abbrev pub slice : List Message → ℕ → ℕ → List Message
slice messages offset end = take (end - offset) (drop offset messages)

abbrev pub summarization_failed : String → String
summarization_failed error = Native.◌++◌ "context manager: summarization failed: " error

-- The loop; `none`: it does not return, since the fuel ran out, or since the end of the batch is
-- before its start, where the slice panics. The working view is computed from the other variables.
unfoldable pub compress_loop :
    Compressor → String → List Message → ℕ → Progress → Option (Result String Progress)
compress_loop c id messages zero p = none
compress_loop c id messages (suc fuel) p =
    elim (ltb c.max_tokens (c.counter (view id messages p))) [
      | false ↦ some (ok p)
      | true ↦ elim (leb (boundary c messages) p.offset) [
        | true ↦ some (ok p)
        | false ↦ elim (is_below_zero c.batch_size) [
          | true ↦ none
          | false ↦
              elim (extend_summary c p.summary
                (slice messages p.offset (batch_end c messages p.offset))) [
                  | err error ↦ some (err (summarization_failed error))
                  | ok summary ↦
                      compress_loop c id messages fuel
                        (record { offset = batch_end c messages p.offset; summary = summary })
                ]
        ]
      ]
    ]

abbrev pub offset_key : String
offset_key = "__summary_offset__"

abbrev pub content_key : String
content_key = "__summary_content__"

-- The type assertions on the values of the session's state.
abbrev pub as_int : Option Any → ℕ
as_int (some (int_value n)) = n
as_int _ = 0

abbrev pub as_text : Option Any → String
as_text (some (text_value s)) = s
as_text _ = ""

-- The persisted state, or a fresh one if the history is shorter than the offset.
unfoldable pub read_progress : Session → List Message → Progress
read_progress s messages =
    let offset = as_int (lookup offset_key s.state) in
    if ltb (length messages) offset
    then record { offset = 0; summary = "" }
    else record { offset = offset; summary = as_text (lookup content_key s.state) }

unfoldable pub write_progress : Progress → Session → Session
unfolding set_state
write_progress p s =
    set_state content_key (text_value p.summary) (set_state offset_key (int_value p.offset) s)

abbrev pub finish :
    String
    → Session
    → List Message
    → Option (Result String Progress)
    → Option (Result String (Session × List Message))
finish id s messages none = none
finish id s messages (some (err error)) = some (err error)
finish id s messages (some (ok p)) = some (ok (write_progress p s, view id messages p))

-- `Compress` in a session. One round more than there are messages is enough.
unfoldable pub compress :
    Compressor → String → Session → List Message → Option (Result String (Session × List Message))
compress c id s [] = some (ok (s, []))
compress c id s (m ∷ rest) =
    let messages = m ∷ rest in
    elim (c.max_tokens == 0) [
      | true ↦ some (ok (s, messages))
      | false ↦
          finish id s messages
            (compress_loop c id messages (suc (length messages)) (read_progress s messages))
    ]
