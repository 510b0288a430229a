-- ===== src/Context/Window/Laws.antt =====
-- What is left of the messages: a suffix, within the limits, and never nothing.
use blades.Common.{
  ℕ, ◌+◌, ◌-◌, ◌≤◌, ◌<◌, ◌≡◌, ◌≢◌, ◌⊎◌, refl, sym, ap, ◌∙◌, true, Bool-cases, List, [], ◌∷◌, ◌++◌,
  inl, inr, ltb, arith, length, take, take-append-drop, length-drop, ◌&&◌, append_assoc,
}
use blades.Message.{Message}
use blades.Context.Window.{Counter, Compressor, drop_front, keep_recent, keep_tokens, compress}

-- A counter that sums over the messages.
abbrev pub IsAdditive : Counter → Type 0
IsAdditive counter =
    (m : Message) (rest : List Message) → counter (m ∷ rest) ≡ counter (m ∷ []) + counter rest

-- `result` is an end of `messages`, and something is left if there was something.
pub record IsRecent (messages result : List Message) : Type 0 where
  pub dropped : List Message
  pub split : messages ≡ dropped ++ result
  pub some_left : (messages ≡ []) ⊎ (result ≢ [])

drop_front-IsRecent :
    (c : Compressor) (messages : List Message) (total : ℕ)
    → IsRecent messages (drop_front c messages total)
unfolding drop_front
drop_front-IsRecent c [] total = record { dropped = []; split = refl; some_left = inl refl }
drop_front-IsRecent c (m ∷ []) total = record {
  dropped = [];
  split = refl;
  some_left = inr (λ e. cc);
}
drop_front-IsRecent c (m ∷ n ∷ rest) total = elim (Bool-cases (ltb c.max_tokens total)) [
  | inl over ↦
      let ih = drop_front-IsRecent c (n ∷ rest) (total - c.counter (m ∷ [])) in
      rw over (record {
        dropped = m ∷ ih.dropped;
        split = ap (λ l. m ∷ l) ih.split;
        some_left = ground (arith, ih.some_left);
      })
  | inr fits ↦ rw fits (record { dropped = []; split = refl; some_left = inr (λ e. cc) })
]

nil_or_not : (messages : List Message) → (messages ≡ []) ⊎ (messages ≢ [])
nil_or_not [] = inl refl
nil_or_not (m ∷ messages) = inr (λ e. cc)

above :
    (messages : List Message) (n : ℕ)
    → (ltb 0 n && ltb n (length messages)) ≡ true
    → (0 < n) × (n < length messages)
above messages n h = ground arith

keep_recent-IsRecent :
    (c : Compressor) (messages : List Message) → IsRecent messages (keep_recent c messages)
unfolding keep_recent
keep_recent-IsRecent c messages =
    elim (Bool-cases (ltb 0 c.max_messages && ltb c.max_messages (length messages))) [
      | inl over ↦ rw over (record {
        dropped = take (length messages - c.max_messages) messages;
        split = sym (take-append-drop (length messages - c.max_messages) messages);
        some_left = inr (λ e. omega (
          arith,
          above messages c.max_messages over,
          ap length e,
          length-drop (length messages - c.max_messages) messages,
        ));
      })
      | inr fits ↦ rw fits (record { dropped = []; split = refl; some_left = nil_or_not messages })
    ]

keep_tokens-IsRecent :
    (c : Compressor) (messages : List Message) → IsRecent messages (keep_tokens c messages)
unfolding keep_tokens
keep_tokens-IsRecent c messages = elim (Bool-cases (ltb 0 c.max_tokens)) [
  | inl limited ↦ rw limited (drop_front-IsRecent c messages (c.counter messages))
  | inr unlimited ↦
      rw unlimited (record { dropped = []; split = refl; some_left = nil_or_not messages })
]

IsRecent-trans : (xs ys zs : List Message) → IsRecent xs ys → IsRecent ys zs → IsRecent xs zs
IsRecent-trans xs ys zs p q = record {
  dropped = p.dropped ++ q.dropped;
  split = p.split ∙ (ap (λ l. p.dropped ++ l) q.split ∙ sym (append_assoc p.dropped q.dropped zs));
  some_left = elim p.some_left [
    | inl none_given ↦ inl none_given
    | inr some_kept ↦ elim q.some_left [
      | inl none_kept ↦ absurd (some_kept none_kept)
      | inr some_left ↦ inr some_left
    ]
  ];
}

-- Whatever the limits and the counter, `Compress` returns an end of the list, unchanged and in
-- order, and it returns something if it was given something.
pub compress-IsRecent :
    (c : Compressor) (messages : List Message) → IsRecent messages (compress c messages)
unfolding compress
compress-IsRecent c [] = record { dropped = []; split = refl; some_left = inl refl }
compress-IsRecent c (m ∷ messages) =
    IsRecent-trans (m ∷ messages) (keep_recent c (m ∷ messages))
      (keep_tokens c (keep_recent c (m ∷ messages))) (keep_recent-IsRecent c (m ∷ messages))
      (keep_tokens-IsRecent c (keep_recent c (m ∷ messages)))

drop_front_le :
    (c : Compressor) (messages : List Message)
    → (total : ℕ) → length (drop_front c messages total) ≤ length messages
unfolding drop_front
drop_front_le c [] total = omega arith
drop_front_le c (m ∷ []) total = omega arith
drop_front_le c (m ∷ n ∷ rest) total =
    ground (arith, drop_front_le c (n ∷ rest) (total - c.counter (m ∷ [])))

keep_recent_le :
    (c : Compressor) (messages : List Message)
    → 0 < c.max_messages
    → length (keep_recent c messages) ≤ c.max_messages
unfolding keep_recent
keep_recent_le c messages h =
    ground (arith, length-drop (length messages - c.max_messages) messages)

-- With a limit on their number, no more messages than that are returned.
pub compress-le_max_messages :
    (c : Compressor) (messages : List Message)
    → 0 < c.max_messages
    → length (compress c messages) ≤ c.max_messages
unfolding compress keep_tokens
compress-le_max_messages c [] h = omega arith
compress-le_max_messages c (m ∷ messages) h =
    let kept = keep_recent c (m ∷ messages) in
    ground (arith, keep_recent_le c (m ∷ messages) h, drop_front_le c kept (c.counter kept))

drop_front-within :
    (c : Compressor) (messages : List Message)
    → IsAdditive c.counter
    → (c.counter (drop_front c messages (c.counter messages)) ≤ c.max_tokens)
      ⊎ (length (drop_front c messages (c.counter messages)) ≤ 1)
unfolding drop_front
drop_front-within c [] additive = inr (omega arith)
drop_front-within c (m ∷ []) additive = inr (omega arith)
drop_front-within c (m ∷ n ∷ rest) additive =
    let less : c.counter (m ∷ n ∷ rest) - c.counter (m ∷ []) ≡ c.counter (n ∷ rest) =
      omega (arith, additive m (n ∷ rest)) in
    elim (Bool-cases (ltb c.max_tokens (c.counter (m ∷ n ∷ rest)))) [
      | inl over ↦ rw (over, less) (drop_front-within c (n ∷ rest) additive)
      | inr fits ↦ rw fits (inl (ground arith))
    ]

-- With a limit on tokens and a counter that sums over the messages, what is returned counts no
-- more than the limit, or is a single message.
pub compress-le_max_tokens :
    (c : Compressor) (messages : List Message)
    → 0 < c.max_tokens
    → IsAdditive c.counter
    → (c.counter (compress c messages) ≤ c.max_tokens) ⊎ (length (compress c messages) ≤ 1)
unfolding compress keep_tokens
compress-le_max_tokens c [] h additive = inr (omega arith)
compress-le_max_tokens c (m ∷ messages) h additive = elim (Bool-cases (ltb 0 c.max_tokens)) [
  | inl limited ↦ rw limited (drop_front-within c (keep_recent c (m ∷ messages)) additive)
  | inr unlimited ↦ absurd (ground arith)
]
