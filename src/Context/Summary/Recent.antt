-- ===== src/Context/Summary/Recent.antt =====
-- What `Compress` leaves when it succeeds.
use blades.Common.{
  ℕ, zero, suc, ◌≤◌, ◌<◌, ◌⊎◌, String, ◌≡◌, refl, true, false, Bool-cases, List, [], ◌∷◌, Option,
  none, some, inl, inr, ltb, leb, sym, ap, ◌∙◌, ◌==◌, length, Result, ok, err, arith, subst,
}
use blades.Message.{Message, int_value, text_value}
use blades.Context.Session.{Session, set_state}
use blades.Common.StringMap.{lookup, insert, lookup-insert}
use blades.Context.Summary.{
  Compressor, summarization_failed, Summarizer, Progress, is_below_zero, view, boundary, batch_end,
  slice, build_working_view, extend_summary, compress_loop, read_progress, write_progress, finish,
  compress, offset_key, content_key,
}

-- The view is within the budget, or only the recent messages are left outside the summary; and
-- no message among the recent ones has been folded into the summary.
unfoldable pub IsCompressed : Compressor → String → List Message → Progress → Progress → Type 0
IsCompressed c id messages p q =
    ((c.counter (view id messages q) ≤ c.max_tokens) ⊎ (boundary c messages ≤ q.offset))
    × ((q.offset ≤ p.offset) ⊎ (q.offset ≤ boundary c messages))

compress_loop-IsCompressed :
    (c : Compressor) (id : String) (messages : List Message) (fuel : ℕ) (p q : Progress)
    → compress_loop c id messages fuel p ≡ some (ok q)
    → IsCompressed c id messages p q
unfolding compress_loop IsCompressed
compress_loop-IsCompressed c id messages zero p q = λ e. cc
compress_loop-IsCompressed c id messages (suc fuel) p q =
    elim (Bool-cases (ltb c.max_tokens (c.counter (view id messages p)))) [
      | inr fits ↦ rw (fits, compress_loop) (λ e. kept_as_is (inl (ground arith)) (same e))
      | inl over ↦ elim (Bool-cases (leb (boundary c messages) p.offset)) [
        | inl all_done ↦
            rw (over, all_done, compress_loop) (λ e. kept_as_is (inr (ground arith)) (same e))
        | inr some_left ↦ elim (Bool-cases (is_below_zero c.batch_size)) [
          | inl negative ↦ rw (over, some_left, negative, compress_loop) (λ e. cc)
          | inr sized ↦
              rw (over, some_left, sized, compress_loop)
                (by_answer
                  (extend_summary c p.summary
                    (slice messages p.offset (batch_end c messages p.offset)))
                  (λ summary e.
                    let ih =
                      compress_loop-IsCompressed c id messages fuel
                        (record { offset = batch_end c messages p.offset; summary = summary }) q
                        e in
                    (ih.0, ground (arith, ih.1))))
        ]
      ]
    ]
  where
    same : ◌≡◌ {A = Option (Result String Progress)} (some (ok p)) (some (ok q)) → p ≡ q
    same e = cc

    kept_as_is :
        (c.counter (view id messages p) ≤ c.max_tokens) ⊎ (boundary c messages ≤ p.offset)
        → p ≡ q
        → IsCompressed c id messages p q
    kept_as_is h e = subst (λ r. IsCompressed c id messages p r) e (h, inl (ground arith))

    by_answer :
        (answer : Result String String)
        → ((summary : String)
            → compress_loop c id messages fuel
                (record { offset = batch_end c messages p.offset; summary = summary })
              ≡ some (ok q)
            → IsCompressed c id messages p q)
        → elim answer as (λ _. Option (Result String Progress)) [
          | err error ↦ some (err (summarization_failed error))
          | ok summary ↦
              compress_loop c id messages fuel
                (record { offset = batch_end c messages p.offset; summary = summary })
        ]
          ≡ some (ok q)
        → IsCompressed c id messages p q
    by_answer (err error) k e = cc
    by_answer (ok summary) k e = k summary e

read_progress-le :
    (s : Session) (messages : List Message) → (read_progress s messages).offset ≤ length messages
unfolding read_progress
read_progress-le s messages = ground (arith, read_progress)

stored_offset :
    (s : Session) (q : Progress)
    → lookup offset_key (write_progress q s).state ≡ some (int_value q.offset)
unfolding write_progress set_state
stored_offset s q =
    lookup-insert content_key offset_key (text_value q.summary)
      (insert offset_key (int_value q.offset) s.state)
    ∙ lookup-insert offset_key offset_key (int_value q.offset) s.state

stored_content :
    (s : Session) (q : Progress)
    → lookup content_key (write_progress q s).state ≡ some (text_value q.summary)
unfolding write_progress set_state
stored_content s q =
    lookup-insert content_key content_key (text_value q.summary)
      (insert offset_key (int_value q.offset) s.state)

read_progress-write_progress :
    (s : Session) (messages : List Message) (q : Progress)
    → q.offset ≤ length messages
    → read_progress (write_progress q s) messages ≡ q
unfolding read_progress
read_progress-write_progress s messages q h =
    let fits : ltb (length messages) q.offset ≡ false = ground arith in
    rw (stored_offset s q, stored_content s q, fits) refl

-- A history that `Compress` has compressed is within the budget or has nothing left to fold, so
-- the loop ends at once.
settled :
    (c : Compressor) (id : String) (messages : List Message) (fuel : ℕ) (p q : Progress)
    → IsCompressed c id messages p q
    → compress_loop c id messages (suc fuel) q ≡ some (ok q)
unfolding compress_loop IsCompressed
settled c id messages fuel p q (done, kept) =
    elim (Bool-cases (ltb c.max_tokens (c.counter (view id messages q)))) [
      | inr fits ↦ rw (fits, compress_loop) refl
      | inl over ↦
          let all_done : leb (boundary c messages) q.offset ≡ true = ground arith in
          rw (over, all_done, compress_loop) refl
    ]

-- What the caller has: the new progress is in the session, and the result is its view.
unfoldable pub IsWorkingView :
    Compressor → String → Session → List Message → Session × List Message → Type 0
IsWorkingView c id s messages (s', result) =
    IsCompressed c id messages (read_progress s messages) (read_progress s' messages)
    × (result ≡ view id messages (read_progress s' messages))

bounded :
    (c : Compressor) (id : String) (s : Session) (messages : List Message) (q : Progress)
    → IsCompressed c id messages (read_progress s messages) q
    → q.offset ≤ length messages
unfolding IsCompressed
bounded c id s messages q (done, kept) = ground (arith, read_progress-le s messages, kept)

finish-IsWorkingView :
    (c : Compressor) (id : String) (s : Session) (messages : List Message)
    (end : Option (Result String Progress)) (r : Session × List Message)
    → ((q : Progress) → end ≡ some (ok q) → IsCompressed c id messages (read_progress s messages) q)
    → finish id s messages end ≡ some (ok r)
    → IsWorkingView c id s messages r
unfolding IsWorkingView
finish-IsWorkingView c id s messages none r h = λ e. cc
finish-IsWorkingView c id s messages (some (err error)) r h = λ e. cc
finish-IsWorkingView c id s messages (some (ok q)) r h = λ e.
    let stored = read_progress-write_progress s messages q (bounded c id s messages q (h q refl)) in
    subst (λ r. IsWorkingView c id s messages r) (same e)
      (rw stored (h q refl), ap (view id messages) (sym stored))
  where
    same :
        ◌≡◌ {A = Option (Result String (Session × List Message))}
          (some (ok (write_progress q s, view id messages q)))
          (some (ok r))
        → (write_progress q s, view id messages q) ≡ r
    same e = cc

nothing : (c : Compressor) (id : String) (s : Session) → IsWorkingView c id s [] (s, [])
unfolding IsWorkingView IsCompressed build_working_view
nothing c id s =
    let start : (read_progress s []).offset ≡ 0 = ground (arith, read_progress-le s []) in
    ((inr (ground arith), inl (ground arith)), rw start refl)

-- When `Compress` succeeds with a budget, the result is the working view of the progress it has
-- stored in the session; that view is within the budget, or all but the `keepRecent` last messages
-- have been folded; and no fold reached beyond them.
pub compress-IsWorkingView :
    (c : Compressor) (id : String) (s : Session) (messages : List Message)
    (r : Session × List Message)
    → 0 < c.max_tokens
    → compress c id s messages ≡ some (ok r)
    → IsWorkingView c id s messages r
unfolding compress
compress-IsWorkingView c id s [] r limited =
    λ e. subst (λ r. IsWorkingView c id s [] r) (same e) (nothing c id s)
  where
    same :
        ◌≡◌ {A = Option (Result String (Session × List Message))} (some (ok (s, []))) (some (ok r))
        → (s, []) ≡ r
    same e = cc
compress-IsWorkingView c id s (m ∷ rest) r limited =
    let set : (c.max_tokens == 0) ≡ false = ground arith in
    rw (set, compress)
      (finish-IsWorkingView c id s (m ∷ rest)
        (compress_loop c id (m ∷ rest) (suc (length (m ∷ rest))) (read_progress s (m ∷ rest))) r
        (compress_loop-IsCompressed c id (m ∷ rest) (suc (length (m ∷ rest)))
          (read_progress s (m ∷ rest))))

again_from :
    (c : Compressor) (id : String) (s : Session) (messages : List Message)
    (r : Session × List Message) (later : Summarizer)
    → 0 < c.max_tokens
    → IsWorkingView c id s messages r
    → (s' : Session) × (compress (record c { summarizer = later }) id r.0 messages
        ≡ some (ok (s', r.1)))
unfolding compress IsWorkingView build_working_view IsCompressed
again_from c id s [] r later limited (h, shown) =
    let start : (read_progress r.0 []).offset ≡ 0 = ground (arith, read_progress-le r.0 []) in
    (r.0, rw shown (rw start refl))
again_from c id s (m ∷ rest) r later limited (h, shown) =
    let set : (c.max_tokens == 0) ≡ false = ground arith in
    let messages = m ∷ rest in
    let q = read_progress r.0 messages in
    (
      write_progress q r.0,
      rw
          (
            set,
            compress,
            settled (record c { summarizer = later }) id messages (length messages)
                (read_progress s messages) q h,
            shown,
          )
          refl,
    )

-- After `Compress` has succeeded with a budget, the same history is compressed to the same view
-- again, whatever the model answers by then.
pub compress-again :
    (c : Compressor) (id : String) (s : Session) (messages : List Message)
    (r : Session × List Message) (later : Summarizer)
    → 0 < c.max_tokens
    → compress c id s messages ≡ some (ok r)
    → (s' : Session) × (compress (record c { summarizer = later }) id r.0 messages
        ≡ some (ok (s', r.1)))
compress-again c id s messages r later limited e =
    again_from c id s messages r later limited (compress-IsWorkingView c id s messages r limited e)
