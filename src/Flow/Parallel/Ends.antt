-- ===== src/Flow/Parallel/Ends.antt =====
-- How the runs of a parallel flow end.
use blades.Common.{
  ℕ, zero, suc, ◌+◌, ◌*◌, ◌≤◌, ◌<◌, ◌≡◌, ◌⊎◌, inl, inr, refl, ap, true, false, List, [], ◌∷◌,
  length, map, arith, length-append, append-nil,
}
use blades.Agent.Loop.{Event}
use blades.Flow.{Consumer}
use blades.Flow.Parallel.{
  until_failure, Queues, capacity, Channel, spawn, Takes, here, there, Move, send, receive, Moves,
  none_yet, then_step, queue_of, only, total,
}
use blades.Flow.Parallel.Order.{length-Takes, spawn-journey}

total-Takes :
    (j : ℕ) (e : Event) (queues rest : Queues)
    → Takes queues j e rest
    → total queues ≡ suc (total rest)
unfolding total
total-Takes zero e _ _ here = omega arith
total-Takes (suc j) e _ _ (there {queue = queue} {queues} {rest} takes) =
    omega (arith, total-Takes j e queues rest takes)

-- What is left to do.
abbrev measure : Channel → ℕ
measure s = total s.queues * 2 + length s.channel

Move-measure : (wants : Consumer) (s t : Channel) → Move wants s t → measure s ≡ suc (measure t)
Move-measure wants s _ (send {i = j} {e} {rest} takes room) =
    omega (arith, total-Takes j e s.queues rest takes, length-append s.channel ((j, e) ∷ []))
Move-measure wants s _ (receive {i = j} {e} {channel} reads next) = rw next (omega arith)

Moves-measure :
    (wants : Consumer) (n : ℕ) (s t : Channel) → Moves wants n s t → measure s ≡ n + measure t
Moves-measure wants _ s _ none_yet = omega arith
Moves-measure wants _ s u (then_step {n = n} {t = t} steps step) =
    omega (arith, Moves-measure wants n s t steps, Move-measure wants t u step)

-- The channel has no more results than it has room for.
Fits : Channel → Type 0
Fits s = length s.channel ≤ capacity s.queues

Move-Fits : (wants : Consumer) (s t : Channel) → Move wants s t → Fits s → Fits t
unfolding Fits
Move-Fits wants s _ (send {i = j} {e} {rest} takes room) fits =
    omega (arith, room, length-Takes j e s.queues rest takes, length-append s.channel ((j, e) ∷ []))
Move-Fits wants s _ (receive {i = j} {e} {channel} reads next) fits =
    omega (arith, fits, ap length next)

Nat-cases : (n : ℕ) → (n ≡ 0) ⊎ (0 < n)
Nat-cases zero = inl refl
Nat-cases (suc n) = inr (omega arith)

-- A queue that is not empty can be taken from.
data Ready (queues : Queues) : Type 0 where
  ready : {i : ℕ} {e : Event} {rest : Queues} → Takes queues i e rest → Ready queues

total-Ready : (queues : Queues) → 0 < total queues → Ready queues
unfolding total
total-Ready [] some_left = absurd (omega (arith, some_left))
total-Ready ((e ∷ queue) ∷ queues) some_left = ready here
total-Ready ([] ∷ queues) some_left = elim (total-Ready queues (omega (arith, some_left))) [
  | ready takes ↦ ready (there takes)
]

Ready-or-sent : (queues : Queues) → Ready queues ⊎ (total queues ≡ 0)
unfolding total
Ready-or-sent queues = elim (Nat-cases (total queues)) [
  | inl none_left ↦ inr none_left
  | inr some_left ↦ inl (total-Ready queues some_left)
]

-- No worker and no consumer can go on.
unfoldable pub Stuck : Consumer → Channel → Type 0
Stuck wants s = (t : Channel) → Move wants s t → ⊥

Takes-length :
    (i : ℕ) (e : Event) (queues rest : Queues) → Takes queues i e rest → 0 < length queues
Takes-length zero e _ _ here = omega arith
Takes-length (suc i) e _ _ (there takes) = omega arith

Stuck-empty :
    (wants : Consumer) (s : Channel)
    → s.reading ≡ true
    → Stuck wants s
    → (s.channel ≡ []) × (total s.queues ≡ 0)
unfolding Stuck
Stuck-empty wants s reads stuck = by_channel s.channel refl
  where
    by_queues : s.channel ≡ [] → Ready s.queues ⊎ (total s.queues ≡ 0) → total s.queues ≡ 0
    by_queues empty (inr all_sent) = all_sent
    by_queues empty (inl (ready {i = i} {e} {rest} takes)) = absurd (
        stuck _ (send takes (omega (arith, ap length empty, Takes-length i e s.queues rest takes))))

    by_channel :
        (channel : List (ℕ × Event)) → s.channel ≡ channel → (s.channel ≡ []) × (total s.queues ≡ 0)
    by_channel ((i, e) ∷ channel) next = absurd (stuck _ (receive reads next))
    by_channel [] empty = (empty, by_queues empty (Ready-or-sent s.queues))

queue_of-sent : (i : ℕ) (queues : Queues) → total queues ≡ 0 → queue_of i queues ≡ []
unfolding queue_of total
queue_of-sent i [] sent = refl
queue_of-sent zero ([] ∷ queues) sent = refl
queue_of-sent zero ((e ∷ queue) ∷ queues) sent = absurd (omega (arith, sent))
queue_of-sent (suc i) (queue ∷ queues) sent = queue_of-sent i queues (omega (arith, sent))

-- However the goroutines and the consumer take turns, a run has at most two steps for each event
-- that the sub-agents yield up to their first error.
pub spawn-le :
    (wants : Consumer) (n : ℕ) (streams : List (List Event)) (s : Channel)
    → Moves wants n (spawn streams) s
    → n ≤ total (map until_failure streams) * 2
unfolding spawn
spawn-le wants n streams s steps = omega (arith, Moves-measure wants n (spawn streams) s steps)

-- A run that cannot go on, and whose consumer has not stopped, has delivered all: the consumer has
-- received, for each sub-agent, its events up to its first error in their order.
pub spawn-delivers :
    (wants : Consumer) (n : ℕ) (streams : List (List Event)) (s : Channel)
    → Moves wants n (spawn streams) s
    → s.reading ≡ true
    → Stuck wants s
    → (i : ℕ) → only i s.received ≡ until_failure (queue_of i streams)
unfolding only
spawn-delivers wants n streams s steps reads stuck i =
    let (empty, sent) = Stuck-empty wants s reads stuck in
    (rw
      (
        empty,
        queue_of-sent i s.queues sent,
        append-nil (only i s.received),
        append-nil (only i s.received),
      )
      at (spawn-journey wants i n streams s steps))

Moves-Fits : (wants : Consumer) (n : ℕ) (s t : Channel) → Moves wants n s t → Fits s → Fits t
Moves-Fits wants _ s _ none_yet fits = fits
Moves-Fits wants _ s u (then_step {n = n} {t = t} steps step) fits =
    Move-Fits wants t u step (Moves-Fits wants n s t steps fits)

-- The consumer has stopped, and what is not received is more than the channel has room for.
unfoldable pub Leaks : Channel → Type 0
Leaks s = (s.reading ≡ false) × (capacity s.queues < length s.channel + total s.queues)

Move-Leaks : (wants : Consumer) (s t : Channel) → Move wants s t → Leaks s → Leaks t
unfolding Leaks
Move-Leaks wants s _ (send {i = j} {e} {rest} takes room) (left, more) = (
  left,
  omega (
    arith,
    more,
    total-Takes j e s.queues rest takes,
    length-Takes j e s.queues rest takes,
    length-append s.channel ((j, e) ∷ []),
  ),
)
Move-Leaks wants s _ (receive {i = j} {e} {channel} reads next) (left, more) = absurd (cc)

Moves-Leaks : (wants : Consumer) (n : ℕ) (s t : Channel) → Moves wants n s t → Leaks s → Leaks t
Moves-Leaks wants _ s _ none_yet leaks = leaks
Moves-Leaks wants _ s u (then_step {n = n} {t = t} steps step) leaks =
    Move-Leaks wants t u step (Moves-Leaks wants n s t steps leaks)

-- If the consumer has stopped, and what it has not received does not fit into the channel, then at
-- no later moment have the goroutines sent all their results: `eg.Wait` does not return.
pub spawn-blocked :
    (wants : Consumer) (n m : ℕ) (streams : List (List Event)) (s t : Channel)
    → Moves wants n (spawn streams) s
    → Leaks s
    → Moves wants m s t
    → 0 < total t.queues
unfolding spawn Leaks Fits
spawn-blocked wants n m streams s t before leaks after = omega (
  arith,
  (Moves-Leaks wants m s t after leaks).1,
  Moves-Fits wants m s t after (Moves-Fits wants n (spawn streams) s before (omega arith)),
)
