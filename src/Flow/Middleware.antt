-- ===== src/Flow/Middleware.antt =====
-- middleware.go and middleware/: handlers around handlers. `retry.Retry` of the package
-- github.com/go-kratos/kit is a parameter: a function that calls an attempt.
use blades.Common.{Bool, true, false, List, [], ◌∷◌, ◌++◌, Option, none, some, Result, err, ok, ◌≡◌}
use blades.Message.{Message}
use blades.Agent.Tools.{AgentError, interrupted_run}
use blades.Agent.Loop.{Event, message, failure, Invocation, Run, emit}
use blades.Flow.{Consumer, Behaviour, passing, yielded}

module _ {M : Type 0} where
  -- `ChainMiddlewares`; the loop runs from the last to the first.
  unfoldable pub chain_handlers : List (Behaviour M → Behaviour M) → Behaviour M → Behaviour M
  chain_handlers [] next = next
  chain_handlers (mw ∷ mws) next = mw (chain_handlers mws next)

  abbrev pub decided : Result AgentError Bool → Behaviour M → Behaviour M
  decided (err error) next wants inv r = emit (failure error) r
  decided (ok false) next wants inv r = emit (failure interrupted_run) r
  decided (ok true) next wants inv r = next wants inv r

  -- `Confirm`; the callback has the invocation's message.
  unfoldable pub confirm : (Option Message → Result AgentError Bool) → Behaviour M → Behaviour M
  confirm allows next wants inv r = decided (allows inv.message) next wants inv r

-- The error at the end of what was yielded, which an attempt returns and does not yield.
abbrev pub final_error : List Event → Option AgentError
final_error [] = none
final_error (message m ∷ []) = none
final_error (failure error ∷ []) = some error
final_error (e ∷ f ∷ events) = final_error (f ∷ events)

abbrev pub without_error : List Event → List Event
without_error [] = []
without_error (message m ∷ []) = message m ∷ []
without_error (failure error ∷ []) = []
without_error (e ∷ f ∷ events) = e ∷ without_error (f ∷ events)

-- `Retry.Do`: it calls the attempt again only after an error, and ends with the result of the last
-- call, or with an error of its own, such as that of a context.
pub data Tries {S E : Type 0} (attempt : S → S × Option E) : S → S × Option E → Type 0 where
  last_try : {s : S} → Tries attempt s (attempt s)
  gives_up : {s : S} {error : E} → Tries attempt s (s, some error)
  tries_again :
      {s : S} {error : E} {end : S × Option E}
      → (attempt s).1 ≡ some error
      → Tries attempt (attempt s).0 end
      → Tries attempt s end

abbrev pub Retry : Type 0 → Type 0
Retry S = (S → S × Option AgentError) → S → S × Option AgentError

pub record IsRetry {S : Type 0} (do_retry : Retry S) : Type 0 where
  pub tries : (attempt : S → S × Option AgentError) (s : S) → Tries attempt s (do_retry attempt s)

module _ {M : Type 0} where
  -- The function that is tried: messages go to the consumer, an error ends it.
  unfoldable pub attempt : Behaviour M → Consumer → Invocation → Run M → Run M × Option AgentError
  attempt next wants inv r =
      let r' = next (passing wants) inv r in
      (record r' { events = r.events ++ without_error (yielded r r') }, final_error (yielded r r'))

  abbrev pub after_tries : Run M × Option AgentError → Run M
  after_tries (r, none) = r
  after_tries (r, some error) = emit (failure error) r

  -- `Retry`
  unfoldable pub retry : Retry (Run M) → Behaviour M → Behaviour M
  unfolding attempt
  retry do_retry next wants inv r = after_tries (do_retry (attempt next wants inv) r)
