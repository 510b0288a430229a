-- ===== src/Recipe/Context/Ends.antt =====
-- The compressors that recipes build.
use blades.Common.{
  zero, suc, ◌<◌, String, str_eq, ◌≡◌, ◌≢◌, subst, Bool-cases, List, ◌++◌, Option, none, some,
  Result, ok, err, inl, inr, arith, apply_options,
}
use blades.Message.{Message}
use blades.Context.Session.{Session}
use blades.Context.Summary as Summary
use blades.Context.Summary.Ends.{compress-ne-none}
use blades.Context.Window as Window
use blades.Recipe.Spec.{ℤ, pos, negsuc, ContextSpec, SpecError, strategy_summarize, strategy_window}
use blades.Recipe.Context.{
  ContextCompressor, summarizing, when_positive, summary_options, model_name, build_summary,
  build_context_compressor,
}

abbrev IsAdvancing : Summary.Compressor → Type 0
IsAdvancing c = 0 < Summary.size c.batch_size

tokens_kept :
    (n : ℤ) (rest : List (Summary.Compressor → Summary.Compressor)) (c : Summary.Compressor)
    → ((c : Summary.Compressor) → IsAdvancing c → IsAdvancing (apply_options rest c))
    → IsAdvancing c
    → IsAdvancing (apply_options (when_positive n Summary.with_max_tokens ++ rest) c)
unfolding apply_options Summary.with_max_tokens
tokens_kept (pos zero) rest c k h = k c h
tokens_kept (pos (suc n)) rest c k h = k (Summary.with_max_tokens (suc n) c) h
tokens_kept (negsuc n) rest c k h = k c h

recent_kept :
    (n : ℤ) (rest : List (Summary.Compressor → Summary.Compressor)) (c : Summary.Compressor)
    → ((c : Summary.Compressor) → IsAdvancing c → IsAdvancing (apply_options rest c))
    → IsAdvancing c
    → IsAdvancing (apply_options (when_positive n Summary.with_keep_recent ++ rest) c)
unfolding apply_options Summary.with_keep_recent
recent_kept (pos zero) rest c k h = k c h
recent_kept (pos (suc n)) rest c k h = k (Summary.with_keep_recent (suc n) c) h
recent_kept (negsuc n) rest c k h = k c h

batch_set :
    (n : ℤ) (c : Summary.Compressor)
    → IsAdvancing c
    → IsAdvancing (apply_options (when_positive n (λ n. Summary.with_batch_size (pos n))) c)
unfolding apply_options Summary.with_batch_size
batch_set (pos zero) c h = h
batch_set (pos (suc n)) c h = omega arith
batch_set (negsuc n) c h = h

new_compressor-IsAdvancing :
    (instruction : String) (counter : Window.Counter) (model : Summary.Summarizer)
    (spec : ContextSpec)
    → IsAdvancing (Summary.new_compressor instruction counter model (summary_options spec))
unfolding Summary.new_compressor summary_options
new_compressor-IsAdvancing instruction counter model spec =
    tokens_kept spec.max_tokens _ _
      (λ c h. recent_kept spec.keep_recent _ c (λ c h. batch_set spec.batch_size c h) h)
      (omega arith)

abbrev BuildsAdvancing : Result SpecError (Option ContextCompressor) → Type 0
BuildsAdvancing (ok (some (summarizing c))) = IsAdvancing c
BuildsAdvancing _ = Unit {0}

module _ (resolve : String → Result SpecError Summary.Summarizer) (counter : Window.Counter)
    (instruction : String) where
  by_model :
      (spec : ContextSpec) (answer : Result SpecError Summary.Summarizer)
      → BuildsAdvancing (build_summary resolve counter instruction spec answer)
  unfolding build_summary
  by_model spec (err error) = tt
  by_model spec (ok model) = new_compressor-IsAdvancing instruction counter model spec

  build_context_compressor-BuildsAdvancing :
      (spec : Option ContextSpec) (fallback : String)
      → BuildsAdvancing (build_context_compressor resolve counter instruction spec fallback)
  unfolding build_context_compressor
  build_context_compressor-BuildsAdvancing none fallback = tt
  build_context_compressor-BuildsAdvancing (some spec) fallback =
      elim (Bool-cases (str_eq spec.strategy strategy_summarize)) [
        | inl summarize ↦
            rw summarize
              (by_model spec (resolve (model_name resolve counter instruction spec fallback)))
        | inr other ↦ elim (Bool-cases (str_eq spec.strategy strategy_window)) [
          | inl window ↦ rw (other, window) tt
          | inr unknown ↦ rw (other, unknown) tt
        ]
      ]

  -- `Compress` of a compressor that a recipe's context builds returns a view or an error, whatever
  -- the numbers in the recipe are.
  pub compress-build_context_compressor :
      (spec : Option ContextSpec) (fallback : String) (c : Summary.Compressor)
      → build_context_compressor resolve counter instruction spec fallback
        ≡ ok (some (summarizing c))
      → (id : String) (s : Session) (messages : List Message)
      → Summary.compress c id s messages ≢ none
  compress-build_context_compressor spec fallback c built id s messages =
      compress-ne-none c id s messages
        (subst BuildsAdvancing built (build_context_compressor-BuildsAdvancing spec fallback))
