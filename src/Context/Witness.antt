-- ===== src/Context/Witness.antt =====
-- The theorems on contexts, at small inputs.
use blades.Common.{
  ◌≤◌, ◌+◌, ◌≡◌, ◌⊎◌, refl, List, [], ◌∷◌, ◌++◌, some, none, ok, err, arith, pos, negsuc, length,
}
use blades.Common.StringMap.{lookup, insert}
use blades.Message.{Message, raw, user_message, new_message_parts, assistant_message}
use blades.Context.Counter.{count, count_parts, count_part, len, count-append}
use blades.Context.Session.{Session, set_state}
use blades.Context.Window as Window
use blades.Context.Window.Laws.{
  IsAdditive, IsRecent, compress-IsRecent, compress-le_max_messages, compress-le_max_tokens,
}
use blades.Context.Summary.{
  Compressor, Progress, Summarizer, build_working_view, extend_summary, compress_loop,
  read_progress, write_progress, compress, view,
}
use blades.Context.Summary.Ends.{compress_loop-none}
use blades.Context.Summary.Recent.{IsWorkingView, compress-IsWorkingView, compress-again}

abbrev one : Message
one = user_message "1" (raw "first" ∷ [])

abbrev two : Message
two = user_message "2" (raw "second" ∷ [])

abbrev three : Message
three = user_message "3" (raw "third" ∷ [])

abbrev history : List Message
history = one ∷ two ∷ three ∷ []

abbrev shared : Session
shared = record { id = "s"; state = []; history = [] }

abbrev windowed : Window.Compressor
windowed = record { max_messages = 2; max_tokens = 6; counter = count }

abbrev model : Summarizer
model = λ instruction batch. ok "short"

abbrev summarizing : Compressor
summarizing = record {
  max_tokens = 13;
  counter = count;
  summarizer = model;
  keep_recent = 1;
  batch_size = pos 1;
  instruction = "Summarize";
}

abbrev stuck : Compressor
stuck = record {
  max_tokens = 13;
  counter = count;
  summarizer = model;
  keep_recent = 1;
  batch_size = pos 0;
  instruction = "Summarize";
}

program : Unit {0}
unfolding new_message_parts user_message assistant_message len count_part count_parts count lookup
    insert build_working_view extend_summary compress_loop read_progress write_progress compress
    set_state
program = tt

count-IsAdditive : IsAdditive count
count-IsAdditive m rest = count-append (m ∷ []) rest

count_append_test : count (history ++ history) ≡ count history + count history
count_append_test = count-append history history

compress-IsRecent_example : IsRecent history (Window.compress windowed history)
compress-IsRecent_example = compress-IsRecent windowed history

compress-le_max_messages_test : length (Window.compress windowed history) ≤ 2
compress-le_max_messages_test = compress-le_max_messages windowed history (omega arith)

compress-le_max_tokens_example :
    (count (Window.compress windowed history) ≤ 6) ⊎ (length (Window.compress windowed history) ≤ 1)
compress-le_max_tokens_example =
    compress-le_max_tokens windowed history (omega arith) count-IsAdditive

compress_loop-none_example :
    compress_loop stuck "v" history 100 (record { offset = 0; summary = "" }) ≡ none
unfolding program
compress_loop-none_example =
    compress_loop-none stuck "v" history 100 "" refl (omega arith) (omega arith)
      (λ instruction batch. ("short", refl))

abbrev summarized : Session × List Message
summarized =
    let p : Progress = record { offset = 2; summary = "short" } in
    (write_progress p shared, view "v" history p)

summarized_run : compress summarizing "v" shared history ≡ some (ok summarized)
unfolding program
summarized_run = refl

-- With a batch size of -1 the first fold panics.
panics : compress (record summarizing { batch_size = negsuc 0 }) "v" shared history ≡ none
unfolding program
panics = refl

compress-IsWorkingView_example : IsWorkingView summarizing "v" shared history summarized
compress-IsWorkingView_example =
    compress-IsWorkingView summarizing "v" shared history summarized (omega arith) summarized_run

compress-again_example :
    (s' : Session) × (compress
        (record summarizing { summarizer = λ instruction batch. err "offline" })
        "v"
        summarized.0
        history
      ≡ some (ok (s', summarized.1)))
compress-again_example =
    compress-again summarizing "v" shared history summarized (λ instruction batch. err "offline")
      (omega arith) summarized_run
