-- ===== src/Message/Witness.antt =====
-- The theorems on messages, at small inputs, and runs of the operations.
use blades.Common.{◌≡◌, refl, true, [], ◌∷◌, ◌++◌, some, none}
use blades.Common.StringMap.{lookup, insert, has_key}
use blades.Message.{
  bool_value, text_value, int_value, Actions, Message, raw, part, unknown, file_part, FilePart,
  user_message, assistant_message, text, merge_parts, merge_actions, append_messages, first_file,
  first_data, new_message_parts, write_texts, trim_newline, copy_actions, id_set, filter_base,
}
use blades.Message.Text.{texts, join, text-eq-join}
use blades.Message.Merge.{last_value, kept, holds_id, merge_actions-lookup, append_messages-eq-kept}

abbrev photo : FilePart
photo = record { name = "photo"; uri = "file:///p.png"; mime_type = "image/png" }

abbrev question : Message
question = user_message "m1" (raw "see" ∷ part (file_part photo) ∷ raw "this" ∷ [])

abbrev answer : Message
answer = assistant_message "m2" (raw "seen" ∷ unknown (int_value 3) ∷ [])

abbrev second_answer : Message
second_answer = assistant_message "m2" (raw "seen again" ∷ [])

abbrev before : Actions
before = ("handoff", text_value "a") ∷ ("loop_exit", bool_value true) ∷ []

abbrev after : Actions
after = ("handoff", text_value "b") ∷ []

program : Unit {0}
unfolding new_message_parts write_texts trim_newline copy_actions id_set filter_base last_value kept
    holds_id lookup insert has_key first_file first_data
program = tt

text_test : text question ≡ "see\nthis"
unfolding program text user_message
text_test = refl

first_file_test : first_file question.parts ≡ some photo
unfolding program user_message
first_file_test = refl

first_data_test : first_data question.parts ≡ none
unfolding program user_message
first_data_test = refl

merge_parts_test : merge_parts none (some question) ≡ some question
unfolding merge_parts
merge_parts_test = refl

append_messages_test :
    append_messages (question ∷ answer ∷ []) (second_answer ∷ []) ≡ question ∷ second_answer ∷ []
unfolding program append_messages user_message assistant_message
append_messages_test = refl

text-eq-join_example : text question ≡ join (texts question.parts)
text-eq-join_example = text-eq-join question

merge_actions-lookup_test : lookup "handoff" (merge_actions before after) ≡ some (text_value "b")
unfolding program
merge_actions-lookup_test = merge_actions-lookup "handoff" before after

append_messages-eq-kept_example :
    append_messages (question ∷ answer ∷ []) (second_answer ∷ [])
    ≡ kept (second_answer ∷ []) (question ∷ answer ∷ []) ++ second_answer ∷ []
append_messages-eq-kept_example =
    append_messages-eq-kept (question ∷ answer ∷ []) (second_answer ∷ [])
