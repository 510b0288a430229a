-- ===== src/Context/Summary/Ends.antt =====
-- The loop of `Compress` ends if batches are not empty, and need not end if they are.
use blades.Common.{
  ℕ, ℤ, pos, negsuc, zero, suc, ◌-◌, ◌<◌, String, ◌≡◌, ◌≢◌, refl, ap, true, false, Bool-cases, List,
  [], ◌∷◌, Option, none, some, inl, inr, ltb, leb, ◌==◌, length, Result, ok, err, arith,
}
use blades.Message.{Message}
use blades.Context.Session.{Session}
use blades.Context.Summary.{
  Compressor, summarization_failed, Progress, size, is_below_zero, view, boundary, batch_end, slice,
  build_working_view, extend_summary, compress_loop, read_progress, finish, compress,
}

not_below : (n : ℤ) → 0 < size n → is_below_zero n ≡ false
not_below (pos n) h = refl
not_below (negsuc n) h = elim h [ ]

compress_loop-ne-none :
    (c : Compressor) (id : String) (messages : List Message) (fuel : ℕ) (p : Progress)
    → 0 < size c.batch_size
    → boundary c messages - p.offset < fuel
    → compress_loop c id messages fuel p ≢ none
unfolding compress_loop
compress_loop-ne-none c id messages zero p h lt = elim lt [ ]
compress_loop-ne-none c id messages (suc fuel) p h lt =
    elim (Bool-cases (ltb c.max_tokens (c.counter (view id messages p)))) [
      | inr fits ↦ rw (fits, compress_loop) (λ e. cc)
      | inl over ↦ elim (Bool-cases (leb (boundary c messages) p.offset)) [
        | inl all_done ↦ rw (over, all_done, compress_loop) (λ e. cc)
        | inr some_left ↦
            rw (over, some_left, not_below c.batch_size h, compress_loop)
              (by_answer
                (extend_summary c p.summary
                  (slice messages p.offset (batch_end c messages p.offset)))
                (λ summary.
                  compress_loop-ne-none c id messages fuel
                    (record { offset = batch_end c messages p.offset; summary = summary }) h
                    (ground arith)))
      ]
    ]
  where
    by_answer :
        (answer : Result String String)
        → ((summary : String)
            → compress_loop c id messages fuel
                (record { offset = batch_end c messages p.offset; summary = summary })
              ≢ none)
        → elim answer as (λ _. Option (Result String Progress)) [
          | err error ↦ some (err (summarization_failed error))
          | ok summary ↦
              compress_loop c id messages fuel
                (record { offset = batch_end c messages p.offset; summary = summary })
        ]
          ≢ none
    by_answer (err error) k = λ e. cc
    by_answer (ok summary) k = k summary

finish-ne-none :
    (id : String) (s : Session) (messages : List Message) (r : Option (Result String Progress))
    → r ≢ none
    → finish id s messages r ≢ none
finish-ne-none id s messages none h = λ e. h refl
finish-ne-none id s messages (some (err error)) h = λ e. cc
finish-ne-none id s messages (some (ok p)) h = λ e. cc

pub compress-ne-none :
    (c : Compressor) (id : String) (s : Session) (messages : List Message)
    → 0 < size c.batch_size
    → compress c id s messages ≢ none
unfolding compress
compress-ne-none c id s [] h = λ e. cc
compress-ne-none c id s (m ∷ rest) h = elim (Bool-cases (c.max_tokens == 0)) [
  | inl unlimited ↦ rw (unlimited, compress) (λ e. cc)
  | inr limited ↦
      rw (limited, compress)
        (finish-ne-none id s (m ∷ rest)
          (compress_loop c id (m ∷ rest) (suc (length (m ∷ rest))) (read_progress s (m ∷ rest)))
          (compress_loop-ne-none c id (m ∷ rest) (suc (length (m ∷ rest)))
            (read_progress s (m ∷ rest)) h (ground arith)))
]

-- The model answers every question.
abbrev pub IsAnswering : Compressor → Type 0
IsAnswering c =
    (instruction : String) (batch : List Message)
    → (summary : String) × (c.summarizer instruction batch ≡ ok summary)

extend_summary-IsAnswering :
    (c : Compressor) (existing : String) (batch : List Message)
    → IsAnswering c
    → (summary : String) × (extend_summary c existing batch ≡ ok summary)
unfolding extend_summary
extend_summary-IsAnswering c existing batch answers = answers _ batch

first_view :
    (id summary : String) (messages : List Message)
    → view id messages (record { offset = 0; summary = summary }) ≡ messages
unfolding build_working_view
first_view id summary messages = refl

-- With a batch size of 0, from the first message on (offset 0), no number of rounds ends the loop, if the history
-- is over the budget, some message can be folded, and the model always answers.
pub compress_loop-none :
    (c : Compressor) (id : String) (messages : List Message) (fuel : ℕ) (summary : String)
    → c.batch_size ≡ pos 0
    → c.max_tokens < c.counter messages
    → c.keep_recent < length messages
    → IsAnswering c
    → compress_loop c id messages fuel (record { offset = 0; summary = summary }) ≡ none
unfolding compress_loop
compress_loop-none c id messages zero summary empty over more answers = refl
compress_loop-none c id messages (suc fuel) summary empty over more answers =
    let over_budget : ltb c.max_tokens (c.counter messages) ≡ true = ground arith in
    let some_left : leb (boundary c messages) 0 ≡ false = ground arith in
    let no_step : batch_end c messages 0 ≡ 0 = rw empty (ground arith) in
    let sized : is_below_zero c.batch_size ≡ false = ap is_below_zero empty in
    let (answer, e) = extend_summary-IsAnswering c summary (slice messages 0 0) answers in
    rw
      (
        compress_loop,
        first_view id summary messages,
        over_budget,
        some_left,
        sized,
        no_step,
        e,
        no_step,
      )
      (compress_loop-none c id messages fuel answer empty over more answers)
