-- ===== src/Flow/RunnerWitness.antt =====
-- The theorems on the runner and the middlewares, at small inputs, and runs of them.
use blades.Common.{
  ℕ, ◌+◌, String, ◌≡◌, refl, ap, subst, true, false, [], ◌∷◌, ◌++◌, Option, some, none, ok, err,
  apply_options, ◌==◌,
}
use blades.Message.{
  Message, assistant, completed, raw, user_message, new_message_parts, text, write_texts,
  trim_newline,
}
use blades.Context.Session.{new_session}
use blades.Agent.Tools.{AgentError, no_final_response, interrupted_run}
use blades.Agent.Loop.{message, failure}
use blades.Flow.{Behaviour}
use blades.Flow.Generator.{IsGenerator}
use blades.Flow.Middleware.{
  Tries, last_try, tries_again, Retry, IsRetry, attempt, retry, confirm, chain_handlers,
}
use blades.Flow.Retrying.{retry-IsGenerator}
use blades.Flow.Runner.{
  RunOptions, with_resume, with_session, with_invocation_id, run_options, build_invocation,
  result_of, run_agent, run_stream, handle_agent,
}
use blades.Flow.Outcome.{Outcome, run_agent-Outcome}

program : Unit {0}
unfolding user_message new_message_parts new_session text write_texts trim_newline apply_options
    attempt retry confirm chain_handlers with_resume with_session with_invocation_id run_options
    build_invocation result_of run_agent run_stream handle_agent
program = tt

abbrev says : String → Message
says word = record (user_message "m" (raw word ∷ [])) { role = assistant; status = completed }

-- An agent that fails the first time.
abbrev shaky : Behaviour ℕ
shaky wants input r = record r {
  provider = r.provider + 1;
  events =
      r.events
      ++ (elim (r.provider == 0) [
        | true ↦ failure no_final_response
        | false ↦ message (says "done")
      ])
        ∷ [];
}

shaky-IsGenerator : IsGenerator shaky
shaky-IsGenerator = record {
  keeps = λ wants input r. record { shown = _ ∷ []; split = refl; allowed = tt };
}

abbrev again :
    {S : Type 0} → (S → S × Option AgentError) → S × Option AgentError → S × Option AgentError
again tried (s, none) = (s, none)
again tried (s, some error) = tried s

-- Two attempts.
abbrev twice : {S : Type 0} → Retry S
twice tried s = again tried (tried s)

twice-IsRetry : {S : Type 0} → IsRetry (twice {S = S})
twice-IsRetry {S} = record { tries = λ tried s. by_first tried s (tried s) refl }
  where
    by_first :
        (tried : S → S × Option AgentError) (s : S) (r : S × Option AgentError)
        → tried s ≡ r
        → Tries tried s (again tried r)
    by_first tried s (s', none) same = subst (Tries tried s) same last_try
    by_first tried s (s', some error) same =
        tries_again (ap (λ r. r.1) same)
          (subst (λ t. Tries tried (tried s).0 (tried t)) (ap (λ r. r.0) same) last_try)

abbrev options : RunOptions
options = run_options (new_session "s" []) "i" (with_resume true ∷ with_invocation_id "j" ∷ [])

options_test : options ≡ record {
  session = new_session "s" [];
  refuses = λ m. none;
  resume = true;
  invocation_id = "j";
}
unfolding program
options_test = refl

retry-IsGenerator_example : IsGenerator (retry twice shaky)
retry-IsGenerator_example = retry-IsGenerator twice shaky twice-IsRetry shaky-IsGenerator

retried : (run_agent (retry twice shaky) (says "go") options 0).1 ≡ ok (says "done")
unfolding program
retried = refl

tried_once : (run_agent shaky (says "go") options 0).1 ≡ err no_final_response
unfolding program
tried_once = refl

run_agent-Outcome_example :
    Outcome
      (run_agent shaky (says "go") options 0).0.events
      (run_agent shaky (says "go") options 0).1
run_agent-Outcome_example = run_agent-Outcome shaky (says "go") options 0 shaky-IsGenerator

-- The agent is not asked.
refused : (run_agent (confirm (λ m. ok false) shaky) (says "go") options 0).0.provider ≡ 0
unfolding program
refused = refl

refused_with :
    (run_agent (confirm (λ m. ok false) shaky) (says "go") options 0).1 ≡ err interrupted_run
unfolding program
refused_with = refl

as_tool : handle_agent (retry twice shaky) (some "caller") "s" "m" "go" 0 ≡ (2, ok "done")
unfolding program
as_tool = refl

-- The first middleware is the outermost.
outermost_first :
    (run_agent
      (chain_handlers (confirm (λ m. ok false) ∷ retry twice ∷ []) shaky)
      (says "go")
      options
      0).1
    ≡ err interrupted_run
unfolding program
outermost_first = refl
