-- ===== src/Flow/Parallel.antt =====
-- flow/parallel.go: the sub-agents at once, as a step relation. A worker is the goroutine of a
-- sub-agent, and its queue is what it has yet to send; the channel holds results with the number of
-- their worker; the consumer is the loop that reads it. What a sub-agent yields is a parameter,
-- whether or not it looks at the context that the flow cancels.
use blades.Common.{
  ℕ, zero, suc, ◌+◌, ◌*◌, ◌<◌, ◌≡◌, refl, Bool, true, false, List, [], ◌∷◌, ◌++◌, length, map, ◌==◌,
  if◌then◌else◌,
}
use blades.Agent.Loop.{Event, message, failure}
use blades.Flow.{Consumer}
pub mod Order
pub mod Ends

-- A goroutine stops after it has sent an error.
unfoldable pub until_failure : List Event → List Event
until_failure [] = []
until_failure (message m ∷ events) = message m ∷ until_failure events
until_failure (failure error ∷ events) = failure error ∷ []

abbrev pub Queues : Type 0
Queues = List (List Event)

-- `make(chan result, len(p.config.SubAgents)*8)`
abbrev pub capacity : Queues → ℕ
capacity queues = length queues * 8

-- `reading`: the loop over the channel has not been left.
pub record Channel : Type 0 where
  pub queues : Queues
  pub channel : List (ℕ × Event)
  pub received : List (ℕ × Event)
  pub reading : Bool

unfoldable pub spawn : List (List Event) → Channel
unfolding until_failure
spawn streams = record {
  queues = map until_failure streams;
  channel = [];
  received = [];
  reading = true;
}

-- A worker takes the first event of its queue.
pub data Takes : Queues → ℕ → Event → Queues → Type 0 where
  here :
      {e : Event} {queue : List Event} {queues : Queues}
      → Takes ((e ∷ queue) ∷ queues) 0 e (queue ∷ queues)
  there :
      {i : ℕ} {e : Event} {queue : List Event} {queues rest : Queues}
      → Takes queues i e rest
      → Takes (queue ∷ queues) (suc i) e (queue ∷ rest)

-- A send waits for room in the channel; a receive hands the event to `yield`.
pub data Move (wants : Consumer) : Channel → Channel → Type 0 where
  send :
      {s : Channel} {i : ℕ} {e : Event} {rest : Queues}
      → Takes s.queues i e rest
      → length s.channel < capacity s.queues
      → Move wants s (record s { queues = rest; channel = s.channel ++ (i, e) ∷ [] })
  receive :
      {s : Channel} {i : ℕ} {e : Event} {channel : List (ℕ × Event)}
      → s.reading ≡ true
      → s.channel ≡ (i, e) ∷ channel
      → Move wants s (record s {
        channel = channel;
        received = s.received ++ (i, e) ∷ [];
        reading = wants (map (λ r. r.1) s.received ++ e ∷ []);
      })

-- Runs, by their number of steps.
pub data Moves (wants : Consumer) : ℕ → Channel → Channel → Type 0 where
  none_yet : {s : Channel} → Moves wants 0 s s
  then_step :
      {n : ℕ} {s t u : Channel} → Moves wants n s t → Move wants t u → Moves wants (suc n) s u

-- What worker `i` has yet to send.
unfoldable pub queue_of : ℕ → Queues → List Event
queue_of i [] = []
queue_of zero (queue ∷ queues) = queue
queue_of (suc i) (queue ∷ queues) = queue_of i queues

-- The results of worker `i`.
unfoldable pub only : ℕ → List (ℕ × Event) → List Event
only i [] = []
only i ((j, e) ∷ results) = if i == j then e ∷ only i results else only i results

unfoldable pub total : Queues → ℕ
total [] = 0
total (queue ∷ queues) = length queue + total queues
