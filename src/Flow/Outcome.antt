-- ===== src/Flow/Outcome.antt =====
-- What a run of the runner returns.
use blades.Common.{◌≡◌, refl, true, false, List, [], ◌∷◌, ◌++◌, map, Result, err, ok, arith}
use blades.Message.{Message}
use blades.Agent.Tools.{AgentError, no_final_response}
use blades.Agent.Loop.{Event, message, failure}
use blades.Flow.{Behaviour, ends_failed}
use blades.Flow.Generator.{Allowed, IsGenerator}
use blades.Flow.Runner.{RunOptions, until_error, result_of, begin, build_invocation, run_agent}

-- Messages alone, of which the last is the result; messages and an error, which is the result; or
-- nothing.
pub data Outcome : List Event → Result AgentError Message → Type 0 where
  answered :
      (before : List Message) (m : Message) → Outcome (map message before ++ message m ∷ []) (ok m)
  broken :
      (before : List Message) (error : AgentError)
      → Outcome (map message before ++ failure error ∷ []) (err error)
  silent : Outcome [] (err no_final_response)

ends_failed-failure :
    (past : List Event) (error : AgentError) → ends_failed (past ++ failure error ∷ []) ≡ true
ends_failed-failure [] error = refl
ends_failed-failure (message m ∷ []) error = refl
ends_failed-failure (failure e ∷ []) error = refl
ends_failed-failure (x ∷ f ∷ past) error = ends_failed-failure (f ∷ past) error

Outcome-later :
    (m : Message) (events : List Event) (result : Result AgentError Message)
    → (events ≡ [] → ⊥)
    → Outcome events result
    → Outcome (message m ∷ events) result
Outcome-later m _ _ some_event (answered before last) = answered (m ∷ before) last
Outcome-later m _ _ some_event (broken before error) = broken (m ∷ before) error
Outcome-later m _ _ some_event silent = absurd (some_event refl)

Outcome-cons :
    (m : Message) (e : Event) (events : List Event) (result : Result AgentError Message)
    → Outcome (e ∷ events) result
    → Outcome (message m ∷ e ∷ events) result
Outcome-cons m e events result outcome = Outcome-later m (e ∷ events) result (λ same. cc) outcome

result_of-Outcome :
    (past events : List Event) → Allowed until_error past events → Outcome events (result_of events)
unfolding result_of
result_of-Outcome past [] a = silent
result_of-Outcome past (message m ∷ []) a = answered [] m
result_of-Outcome past (failure error ∷ []) a = broken [] error
result_of-Outcome past (failure error ∷ f ∷ events) (more, a) =
    absurd (ground (arith, more, ends_failed-failure past error))
result_of-Outcome past (message m ∷ f ∷ events) (more, a) =
    Outcome-cons m f events (result_of (f ∷ events))
      (result_of-Outcome (past ++ message m ∷ []) (f ∷ events) a)

-- A run of an agent that is a generator ends in one of three ways: it has yielded messages alone,
-- and returns the last; it has yielded messages and then an error, and returns the error; or it has
-- yielded nothing, and returns that there is no response.
pub run_agent-Outcome :
    {M : Type 0} (root : Behaviour M) (m : Message) (o : RunOptions) (provider : M)
    → IsGenerator root
    → Outcome (run_agent root m o provider).0.events (run_agent root m o provider).1
unfolding run_agent
run_agent-Outcome root m o provider g =
    let shows = g.keeps until_error (build_invocation m false o) (begin o.session provider) in
    rw shows.split (result_of-Outcome [] shows.shown shows.allowed)
