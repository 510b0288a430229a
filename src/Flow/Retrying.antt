-- ===== src/Flow/Retrying.antt =====
-- Retries keep to the protocol of generators.
use blades.Common.{
  ◌≡◌, inl, inr, refl, ap, ◌∙◌, subst, true, List, [], ◌∷◌, ◌++◌, Option, none, some, length, drop,
  append_assoc, arith,
}
use blades.Agent.Tools.{AgentError}
use blades.Agent.Loop.{Event, message, failure, Invocation, Run, emit}
use blades.Flow.{Consumer, Behaviour, passing, yielded}
use blades.Flow.Generator.{
  Allowed, MayGoOn, Allowed-passing, Shows, Live, IsGenerator, Live-refl, join_shows, Shows-emit,
  Live-trans,
}
use blades.Flow.Middleware.{
  final_error, without_error, Tries, last_try, gives_up, tries_again, Retry, IsRetry, attempt,
  after_tries, retry,
}

drop-append : {A : Type 0} (xs ys : List A) → drop (length xs) (xs ++ ys) ≡ ys
drop-append [] ys = refl
drop-append (x ∷ xs) ys = drop-append xs ys

without_error-none :
    (events : List Event) → final_error events ≡ none → without_error events ≡ events
without_error-none [] h = refl
without_error-none (message m ∷ []) h = refl
without_error-none (failure error ∷ []) h = absurd (cc)
without_error-none (e ∷ f ∷ events) h = ap (λ l. e ∷ l) (without_error-none (f ∷ events) h)

module _ (wants : Consumer) where
  -- The events before an error were all wanted.
  abbrev Wanted : List Event → List Event → Type 0
  Wanted past events = Allowed wants past events × MayGoOn wants past events

  Wanted-cons :
      (past : List Event) (e : Event) (events : List Event)
      → wants (past ++ e ∷ []) ≡ true
      → Wanted (past ++ e ∷ []) events
      → Wanted past (e ∷ events)
  Wanted-cons past e [] more h = (tt, inr more)
  Wanted-cons past e (f ∷ events) more (allowed, inl nothing) = absurd (cc)
  Wanted-cons past e (f ∷ events) more (allowed, inr goes) =
      ((more, allowed), inr (rw (append_assoc past (e ∷ []) (f ∷ events)) at goes))

  Wanted-without_error :
      (past events : List Event) (error : AgentError)
      → Allowed (passing wants) past events
      → final_error events ≡ some error
      → Wanted past (without_error events)
  Wanted-without_error past [] error a h = absurd (cc)
  Wanted-without_error past (message m ∷ []) error a h = absurd (cc)
  Wanted-without_error past (failure e ∷ []) error a h = (tt, inl refl)
  Wanted-without_error past (e ∷ f ∷ events) error (passed, a) h =
      Wanted-cons past e (without_error (f ∷ events)) (ground (arith, passed))
        (Wanted-without_error (past ++ e ∷ []) (f ∷ events) error a h)

module _ {M : Type 0} (wants : Consumer) where
  -- What the tries leave: after an error more may follow.
  abbrev TryShows : Run M → Run M × Option AgentError → Type 0
  TryShows r (s, none) = Shows wants r s
  TryShows r (s, some error) = Live wants r s

  TryShows-join :
      (r s : Run M) (end : Run M × Option AgentError)
      → Live wants r s
      → TryShows s end
      → TryShows r end
  TryShows-join r s (t, none) live next = join_shows wants r s t live next
  TryShows-join r s (t, some error) live next = Live-trans wants r s t live next

  attempt-TryShows :
      (next : Behaviour M) (inv : Invocation) (s : Run M)
      → IsGenerator next
      → TryShows s (attempt next wants inv s)
  unfolding attempt
  attempt-TryShows next inv s g = rw shown_is (by_error (final_error shows.shown) refl)
    where
      after : Run M
      after = next (passing wants) inv s

      shows : Shows (passing wants) s after
      shows = g.keeps (passing wants) inv s

      shown_is : yielded s after ≡ shows.shown
      shown_is = ap (drop (length s.events)) shows.split ∙ drop-append s.events shows.shown

      by_error :
          (error : Option AgentError)
          → final_error shows.shown ≡ error
          → TryShows s (record after { events = s.events ++ without_error shows.shown }, error)
      by_error none h = record {
        shown = shows.shown;
        split = ap (λ l. s.events ++ l) (without_error-none shows.shown h);
        allowed = Allowed-passing wants s.events shows.shown shows.allowed;
      }
      by_error (some error) h =
          let (allowed, goes) =
            Wanted-without_error wants s.events shows.shown error shows.allowed h in
          record {
            shows = record { shown = without_error shows.shown; split = refl; allowed = allowed };
            goes_on = goes;
          }

  Tries-TryShows :
      (next : Behaviour M) (inv : Invocation) (s : Run M) (end : Run M × Option AgentError)
      → IsGenerator next
      → Tries (attempt next wants inv) s end
      → TryShows s end
  Tries-TryShows next inv s _ g last_try = attempt-TryShows next inv s g
  Tries-TryShows next inv s _ g (gives_up {error = error}) = Live-refl wants s
  Tries-TryShows next inv s end g (tries_again {error = error} failed tries) =
      let tried = attempt next wants inv s in
      TryShows-join s tried.0 end
        (subst (λ e. TryShows s (tried.0, e)) failed (attempt-TryShows next inv s g))
        (Tries-TryShows next inv tried.0 end g tries)

-- Retry around a generator is a generator, whatever errors are tried again and how often: nothing
-- is yielded after the consumer has stopped, by any attempt.
pub retry-IsGenerator :
    {M : Type 0} (do_retry : Retry (Run M)) (next : Behaviour M)
    → IsRetry do_retry
    → IsGenerator next
    → IsGenerator (retry do_retry next)
unfolding retry
retry-IsGenerator {M} do_retry next lawful g = record {
  keeps = λ wants inv r. by_end wants r (do_retry (attempt next wants inv) r) (
      Tries-TryShows wants next inv r (do_retry (attempt next wants inv) r) g
        (lawful.tries (attempt next wants inv) r));
}
  where
    by_end :
        (wants : Consumer) (r : Run M) (end : Run M × Option AgentError)
        → TryShows wants r end
        → Shows wants r (after_tries end)
    by_end wants r (s, none) shows = shows
    by_end wants r (s, some error) live =
        join_shows wants r s (emit (failure error) s) live (Shows-emit wants s (failure error))
