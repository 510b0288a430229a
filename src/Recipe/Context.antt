-- ===== src/Recipe/Context.antt =====
-- recipe/context.go: the compressor that a recipe's context asks for. The resolver of models and
-- the default counter and instruction are parameters.
pub mod Ends
use blades.Common.{
  ℕ, zero, suc, String, str_eq, List, [], ◌∷◌, ◌++◌, Option, none, some, Result, ok, err,
  if◌then◌else◌, ◌>>=◌,
}
use blades.Context.Summary as Summary
use blades.Context.Window as Window
use blades.Recipe.Spec.{
  ℤ, pos, negsuc, ContextSpec, strategy_summarize, strategy_window, SpecError, in_context,
  unknown_strategy, AgentSpec,
}

-- `blades.ContextCompressor`: one of the two kinds.
pub data ContextCompressor : Type 0 where
  summarizing : Summary.Compressor → ContextCompressor
  windowing : Window.Compressor → ContextCompressor

-- `if n > 0 { opts = append(opts, option(n)) }`
abbrev pub when_positive : {A : Type 0} → ℤ → (ℕ → A → A) → List (A → A)
when_positive (pos zero) option = []
when_positive (pos (suc n)) option = option (suc n) ∷ []
when_positive (negsuc n) option = []

unfoldable pub summary_options : ContextSpec → List (Summary.Compressor → Summary.Compressor)
summary_options spec =
    when_positive spec.max_tokens Summary.with_max_tokens
    ++ (when_positive spec.keep_recent Summary.with_keep_recent
        ++ when_positive spec.batch_size (λ n. Summary.with_batch_size (pos n)))

unfoldable pub window_options : ContextSpec → List (Window.Compressor → Window.Compressor)
window_options spec =
    when_positive spec.max_tokens Window.with_max_tokens
    ++ when_positive spec.max_messages Window.with_max_messages

module _ (resolve : String → Result SpecError Summary.Summarizer) (counter : Window.Counter)
    (instruction : String) where
  abbrev pub model_name : ContextSpec → String → String
  model_name spec fallback = if str_eq spec.model "" then fallback else spec.model

  -- The case of the strategy that summarizes, with the resolver's answer.
  unfoldable pub build_summary :
      ContextSpec
      → Result SpecError Summary.Summarizer
      → Result SpecError (Option ContextCompressor)
  unfolding summary_options
  build_summary spec (err error) = err (in_context error)
  build_summary spec (ok model) =
      ok (
        some
          (summarizing (Summary.new_compressor instruction counter model (summary_options spec))))

  unfoldable pub build_context_compressor :
      Option ContextSpec → String → Result SpecError (Option ContextCompressor)
  unfolding build_summary window_options
  build_context_compressor none fallback = ok none
  build_context_compressor (some spec) fallback =
      if str_eq spec.strategy strategy_summarize
      then build_summary spec (resolve (model_name spec fallback))
      else if str_eq spec.strategy strategy_window
      then ok (some (windowing (Window.new_compressor counter (window_options spec))))
      else err (unknown_strategy spec.strategy)
