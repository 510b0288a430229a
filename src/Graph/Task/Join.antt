-- ===== src/Graph/Task/Join.antt =====
-- Every run keeps the invariant. So a handler is called at most once for each node, and only when
-- all predecessors of the node have been visited.
use blades.Common.{
  ℕ, ◌+◌, String, ◌≡◌, ◌||◌, refl, sym, ap, Bool-cases, List, [], ◌∷◌, ◌++◌, Option, Option-cases,
  inl, inr, arith,
}
use blades.Graph.Types.{Graph, GraphError}
use blades.Graph.Compile.{new_executor}
use blades.Graph.Task.State.{Task, is_visited, fail, should_checkpoint}
use blades.Graph.Task.Satisfy.{Call, satisfy, fail_with, satisfy_section}
use blades.Graph.Task.Execute.{is_some, handler_of, after_handler, node_done}
use blades.Graph.Task.Schedule.{
  Checkpoint, emit_checkpoint, checkpoint_of, no_ready, take_ready, from_queue, schedule_next,
}
use blades.Graph.Task.Sums.{
  hit, occurrences, occurrences-append, calls_for, calls_for-append, starting_one, running_one,
  pending_one, total, total-append,
}
use blades.Graph.Task.Invariant.{Holds, HoldsAll, satisfy-Holds, fail-Holds, after_handler-Holds}
use blades.Graph.Task.Run.{
  Worker, starting, running, calling, Run, Turn, go_on, start_turn, call_turn, turn, launch,
  after_turn, Step, emit, schedule, work, Reach, here, next,
}

module _ {V : Type 0} (g : Graph V) (missing : GraphError) where
  Holds-cast :
      (t : Task V) (n : String) (s u p l s' u' p' l' : ℕ)
      → Holds g t s u p l n
      → s ≡ s'
      → u ≡ u'
      → p ≡ p'
      → l ≡ l'
      → Holds g t s' u' p' l' n
  Holds-cast t n s u p l s' u' p' l' h es eu ep el = ground arith

  -- The invariant of a run, with the counts of its goroutines.
  abbrev pub RunHolds : Run V → Type 0
  RunHolds r =
      HoldsAll g r.task (λ n. total (starting_one n) r.workers)
        (λ n. total (running_one n) r.workers) (λ n. total (pending_one n) r.workers)
        (λ n. occurrences n r.log)

  emit-Holds :
      (save : Checkpoint V → Option GraphError) (t : Task V) (n : String) (s u p l : ℕ)
      → Holds g t s u p l n
      → Holds g (emit_checkpoint save t) s u p l n
  unfolding emit_checkpoint fail
  emit-Holds save t n s u p l h = elim (Bool-cases (should_checkpoint t)) [
    | inl due ↦ elim (Option-cases (save (checkpoint_of t))) [
      | inl saved ↦ rw (due, saved) (ground arith)
      | inr (error, failed) ↦ rw (due, failed) (ground arith)
    ]
    | inr not_due ↦ rw not_due h
  ]

  no_ready-Holds :
      (t : Task V) (n : String) (s u p l : ℕ)
      → Holds g t s u p l n
      → Holds g (no_ready (new_executor g) t) s u p l n
  unfolding no_ready fail
  no_ready-Holds t n s u p l h = ground arith

  take_ready-Holds :
      (r : Run V) (node : String) (ready : List String)
      → r.task.ready ≡ node ∷ ready
      → RunHolds r
      → RunHolds (launch r (take_ready node ready r.task))
  unfolding take_ready
  take_ready-Holds r node ready q h n = elim (Bool-cases (is_visited r.task node)) [
    | inl old ↦ rw old (ground (arith, h n))
    | inr new ↦ rw new (ground (arith, h n))
  ]

  from_queue-Holds :
      (r : Run V) (ready : List String)
      → r.task.ready ≡ ready
      → RunHolds r
      → RunHolds (launch r (from_queue (new_executor g) ready r.task))
  unfolding from_queue
  from_queue-Holds r [] q h = λ n. no_ready-Holds r.task n _ _ _ _ (h n)
  from_queue-Holds r (node ∷ ready) q h = take_ready-Holds r node ready q h

  schedule-Holds :
      (r : Run V) → RunHolds r → RunHolds (launch r (schedule_next (new_executor g) r.task))
  unfolding schedule_next
  schedule-Holds r h = elim (Bool-cases (should_checkpoint r.task)) [
    | inl due ↦ rw due h
    | inr not_due ↦ rw not_due (from_queue-Holds r r.task.ready refl h)
  ]

  -- One section of a goroutine, beside other goroutines with the counts `s`, `u` and `p`.
  TurnHolds : (s u p l : String → ℕ) → Turn V → Type 0
  TurnHolds s u p l turned =
      HoldsAll g turned.task (λ n. s n + total (starting_one n) turned.next)
        (λ n. u n + total (running_one n) turned.next)
        (λ n. p n + total (pending_one n) turned.next) (λ n. l n + occurrences n turned.called)

  go_on-Holds :
      (node : String) (t : Task V) (new calls : List Call) (s u p l : String → ℕ)
      → HoldsAll g t s u (λ n. (p n + calls_for n calls) + calls_for n new) l
      → TurnHolds s u p l (go_on node (t, new) calls)
  unfolding TurnHolds
  go_on-Holds node t new calls s u p l h n =
      Holds-cast t n _ _ _ _ _ _ _ _ (h n) (omega arith) (omega arith)
        (omega (arith, calls_for-append n new calls)) (omega arith)

  turn-Holds :
      (w : Worker V) (t : Task V) (s u p l : String → ℕ)
      → HoldsAll g t
          (λ n. s n + starting_one n w)
          (λ n. u n + running_one n w)
          (λ n. p n + pending_one n w)
          l
      → TurnHolds s u p l (turn missing (new_executor g) w t)
  unfolding turn start_turn call_turn new_executor TurnHolds node_done
  turn-Holds (starting node state) t s u p l h n =
      elim (Bool-cases (is_some t.error || t.finished)) [
        | inl over ↦ rw over (ground (arith, h n))
        | inr goes ↦ rw goes (ground (arith, h n))
      ]
  turn-Holds (running node state) t s u p l h n =
      let result = handler_of missing g node state in
      let k = after_handler-Holds g t node result s u p l (λ m.
        Holds-cast t m _ _ _ _ (s m) (u m + hit node m) (p m) (l m) (h m) (omega arith)
          (omega arith) (omega arith) (omega arith)) in
      go_on-Holds node (after_handler (new_executor g) node result t).0
        (after_handler (new_executor g) node result t).1 [] s u p l
        (λ m.
          Holds-cast _ m _ _ _ _ _ _ _ _ (k m) (omega arith) (omega arith) (omega arith)
            (omega arith))
        n
  turn-Holds (calling node []) t s u p l h n = ground (arith, h n)
  turn-Holds (calling node (satisfy from to activated ∷ calls)) t s u p l h n =
      let q : String → ℕ = λ m. p m + calls_for m calls in
      let k = satisfy-Holds g t to activated s u q l (λ m.
        Holds-cast t m _ _ _ _ (s m) (u m) (q m + hit to m) (l m) (h m) (omega arith) (omega arith)
          (omega arith) (omega arith)) in
      go_on-Holds node (satisfy_section (new_executor g) to activated t).0
        (satisfy_section (new_executor g) to activated t).1 calls s u p l k n
  turn-Holds (calling node (fail_with error ∷ calls)) t s u p l h n =
      go_on-Holds node (fail error t) [] calls s u p l
        (λ m. fail-Holds g t error m _ _ _ _ (
          Holds-cast t m _ _ _ _ (s m) (u m) (p m + calls_for m calls + 0) (l m) (h m) (omega arith)
            (omega arith) (omega arith) (omega arith)))
        n

  work-Holds :
      (r : Run V) (before after : List (Worker V)) (w : Worker V)
      → r.workers ≡ before ++ w ∷ after
      → RunHolds r
      → RunHolds (after_turn r before after (turn missing (new_executor g) w r.task))
  unfolding TurnHolds
  work-Holds r before after w q h n =
      let rest : (Worker V → ℕ) → ℕ = λ f. total f before + total f after in
      let split : (f : Worker V → ℕ) → total f r.workers ≡ rest f + f w =
        λ f. omega (arith, ap (total f) q, total-append f before (w ∷ after)) in
      let turned = turn missing (new_executor g) w r.task in
      let join : (f : Worker V → ℕ)
          → rest f + total f turned.next ≡ total f (before ++ (turned.next ++ after)) =
        λ f.
          omega (
            arith,
            total-append f before (turned.next ++ after),
            total-append f turned.next after,
          ) in
      let k =
        turn-Holds w r.task (λ m. rest (starting_one m)) (λ m. rest (running_one m))
          (λ m. rest (pending_one m)) (λ m. occurrences m r.log)
          (λ m.
            Holds-cast r.task m _ _ _ _ _ _ _ _ (h m) (split (starting_one m))
              (split (running_one m)) (split (pending_one m)) refl) in
      Holds-cast _ n _ _ _ _ _ _ _ _ (k n) (join (starting_one n)) (join (running_one n))
        (join (pending_one n)) (sym (occurrences-append n r.log turned.called))

  Step-Holds : {r u : Run V} → Step missing (new_executor g) r u → RunHolds r → RunHolds u
  Step-Holds {r} (emit save) h = λ n. emit-Holds save r.task n _ _ _ _ (h n)
  Step-Holds {r} schedule h = schedule-Holds r h
  Step-Holds {r} (work before after w q) h = work-Holds r before after w q h

  pub Reach-Holds : {r u : Run V} → Reach missing (new_executor g) r u → RunHolds r → RunHolds u
  Reach-Holds here h = h
  Reach-Holds (next reached step) h = Step-Holds step (Reach-Holds reached h)
