-- ===== src/Context/Window.antt =====
-- context/window/window.go. The counter is a parameter, as in the source.
pub mod Laws
use blades.Common.{
  ℕ, ◌+◌, ◌-◌, Bool, true, false, List, [], ◌∷◌, Option, none, some, ltb, ◌&&◌, if◌then◌else◌,
  length, drop, apply_options,
}
use blades.Message.{Message}

abbrev pub Counter : Type 0
Counter = List Message → ℕ

-- Limits are natural numbers; the source treats a negative one as 0.
pub record Compressor : Type 0 where
  pub max_messages : ℕ
  pub max_tokens : ℕ
  pub counter : Counter

unfoldable pub with_max_messages : ℕ → Compressor → Compressor
with_max_messages n c = record c { max_messages = n }

unfoldable pub with_max_tokens : ℕ → Compressor → Compressor
with_max_tokens tokens c = record c { max_tokens = tokens }

unfoldable pub with_token_counter : Counter → Compressor → Compressor
with_token_counter counter c = record c { counter = counter }

-- The default counter is an argument.
unfoldable pub new_compressor : Counter → List (Compressor → Compressor) → Compressor
unfolding apply_options
new_compressor default opts =
    apply_options opts (record { max_messages = 100; max_tokens = 0; counter = default })

-- The loop over the front of the list. Where the source's `total` would fall below 0, the loop
-- ends in both: neither a negative number nor 0 is above the limit.
unfoldable pub drop_front : Compressor → List Message → ℕ → List Message
drop_front c [] total = []
drop_front c (m ∷ []) total = m ∷ []
drop_front c (m ∷ n ∷ rest) total =
    if ltb c.max_tokens total
    then drop_front c (n ∷ rest) (total - c.counter (m ∷ []))
    else m ∷ n ∷ rest

unfoldable pub keep_recent : Compressor → List Message → List Message
keep_recent c messages =
    if ltb 0 c.max_messages && ltb c.max_messages (length messages)
    then drop (length messages - c.max_messages) messages
    else messages

unfoldable pub keep_tokens : Compressor → List Message → List Message
unfolding drop_front
keep_tokens c result = if ltb 0 c.max_tokens then drop_front c result (c.counter result) else result

unfoldable pub compress : Compressor → List Message → List Message
unfolding keep_recent keep_tokens
compress c [] = []
compress c (m ∷ messages) = keep_tokens c (keep_recent c (m ∷ messages))
