-- ===== src/Flow/Parallel/Order.antt =====
-- The channel neither loses nor reorders the results of a worker.
use blades.Common.{
  ℕ, zero, suc, ◌≡◌, inl, inr, refl, ap, ◌∙◌, Bool-cases, List, [], ◌∷◌, ◌++◌, length, map, ◌==◌,
  arith, append_assoc,
}
use blades.Agent.Loop.{Event}
use blades.Flow.{Consumer}
use blades.Flow.Parallel.{
  until_failure, Queues, Channel, spawn, Takes, here, there, Move, send, receive, Moves, none_yet,
  then_step, queue_of, only,
}

only-append : (i : ℕ) (xs ys : List (ℕ × Event)) → only i (xs ++ ys) ≡ only i xs ++ only i ys
unfolding only
only-append i [] ys = refl
only-append i ((j, e) ∷ xs) ys = elim (Bool-cases (i == j)) [
  | inl same ↦ rw (same, only-append i xs ys) refl
  | inr apart ↦ rw (apart, only-append i xs ys) refl
]

suc-eq : (i j : ℕ) → (suc i == suc j) ≡ (i == j)
suc-eq i j = ground arith

-- A worker that sends moves the head of its queue, and no other queue changes.
only-Takes :
    (i j : ℕ) (e : Event) (queues rest : Queues)
    → Takes queues j e rest
    → only i ((j, e) ∷ []) ++ queue_of i rest ≡ queue_of i queues
unfolding only queue_of
only-Takes zero zero e _ _ here = refl
only-Takes (suc i) zero e _ _ here = ground arith
only-Takes zero (suc j) e _ _ (there takes) = ground arith
only-Takes (suc i) (suc j) e _ _ (there {queues = queues} {rest} takes) =
    rw (suc-eq i j) (only-Takes i j e queues rest takes)

pub length-Takes :
    (j : ℕ) (e : Event) (queues rest : Queues) → Takes queues j e rest → length rest ≡ length queues
length-Takes zero e _ _ here = refl
length-Takes (suc j) e _ _ (there {queues = queues} {rest} takes) =
    ap suc (length-Takes j e queues rest takes)

-- What is received, in the channel and not yet sent.
abbrev journey : ℕ → Channel → List Event
journey i s = only i s.received ++ only i s.channel ++ queue_of i s.queues

Move-journey :
    (wants : Consumer) (i : ℕ) (s t : Channel) → Move wants s t → journey i t ≡ journey i s
Move-journey wants i s _ (send {i = j} {e} {rest} takes room) =
    rw
      (
        only-append i s.channel ((j, e) ∷ []),
        ← append_assoc (only i s.received) (only i s.channel) (only i ((j, e) ∷ [])),
        append_assoc (only i s.received ++ only i s.channel) (only i ((j, e) ∷ []))
            (queue_of i rest),
        only-Takes i j e s.queues rest takes,
      )
      refl
Move-journey wants i s _ (receive {i = j} {e} {channel} reads next) =
    rw
      (
        next,
        only-append i s.received ((j, e) ∷ []),
        only-append i ((j, e) ∷ []) channel,
        append_assoc (only i s.received) (only i ((j, e) ∷ [])) (only i channel),
      )
      refl

Moves-journey :
    (wants : Consumer) (i n : ℕ) (s t : Channel) → Moves wants n s t → journey i t ≡ journey i s
Moves-journey wants i _ s _ none_yet = refl
Moves-journey wants i _ s u (then_step {n = n} {t = t} steps step) =
    Move-journey wants i t u step ∙ Moves-journey wants i n s t steps

queue_of-spawn :
    (i : ℕ) (streams : List (List Event))
    → queue_of i (map until_failure streams) ≡ until_failure (queue_of i streams)
unfolding queue_of until_failure
queue_of-spawn i [] = refl
queue_of-spawn zero (events ∷ streams) = refl
queue_of-spawn (suc i) (events ∷ streams) = queue_of-spawn i streams

-- At each moment of a run, what the consumer has received of a sub-agent, what of it is in the
-- channel and what its goroutine has yet to send are, in this order, the sub-agent's events up to
-- its first error.
pub spawn-journey :
    (wants : Consumer) (i n : ℕ) (streams : List (List Event)) (s : Channel)
    → Moves wants n (spawn streams) s
    → only i s.received ++ only i s.channel ++ queue_of i s.queues
      ≡ until_failure (queue_of i streams)
unfolding spawn only
spawn-journey wants i n streams s steps =
    Moves-journey wants i n (spawn streams) s steps ∙ queue_of-spawn i streams
