-- ===== src/Graph/Task/Invariant.antt =====
-- The invariant of a run, at each name, and that the sections of the goroutines keep it.
use blades.Common.{
  ℕ, ◌+◌, ◌≤◌, String, str_eq, eq_iff, ◌≡◌, ◌⊎◌, refl, Bool, true, false, [], ◌∷◌, inl, inr, subst,
  Bool-cases, ◌==◌, ◌||◌, ◌&&◌, not, ◌-◌, arith, Result, ok, err,
}
use blades.Common.StringMap.{get_or, get_or-insert}
use blades.Graph.Types.{State, Graph, GraphError}
use blades.Graph.Build.{out_edges}
use blades.Graph.Compile.{new_executor}
use blades.Graph.Task.State.{Task, info_of, is_visited, fail}
use blades.Graph.Task.Satisfy.{settle, receive, satisfy_section}
use blades.Graph.Task.Execute.{complete, after_handler}
use blades.Graph.Task.Sums.{
  hit, occurrences, occurrences-append, calls_for, unreported, unreported-visit, skip_calls-info_of,
  process_outgoing-for,
}

module _ {V : Type 0} (g : Graph V) where
  -- `s` goroutines that start at `n`, `u` that run its handler, `p` calls for `n`, and `l` calls of
  -- its handler so far.
  pub record Holds (t : Task V) (s u p l : ℕ) (n : String) : Type 0 where
    -- The node waits for every edge that did not report.
    pub awaited : unreported t.visited n g.edges + p ≤ get_or 0 n t.remaining
    -- It is scheduled once.
    pub once : occurrences n t.ready + s + l ≤ 1
    pub logged : u ≤ l
    -- It is not visited before its handler returns.
    pub fresh : (occurrences n t.ready + s + u ≡ 0) ⊎ (is_visited t n ≡ false)
    -- It is scheduled when all edges have reported, unless it is the entry.
    pub joined :
        (occurrences n t.ready + s + l ≡ 0) ⊎ ((n ≡ g.entry_point) ⊎ (get_or 0 n t.remaining ≡ 0))
    -- Until the entry is visited there is nothing but the entry.
    pub opened :
        (is_visited t g.entry_point ≡ true)
        ⊎ (((occurrences n t.ready + s + l ≡ 0) ⊎ (n ≡ g.entry_point)) × (p ≡ 0))

  -- Nothing is scheduled at `n`, if it is `to`.
  abbrev IsFree : Task V → (s l : ℕ) → (to n : String) → Type 0
  IsFree t s l to n = (hit to n ≡ 0) ⊎ (occurrences n t.ready + s + l ≡ 0)

  settle-skips :
      (t : Task V) (to n : String) (s u p l : ℕ)
      → is_visited t g.entry_point ≡ true
      → is_visited t to ≡ false
      → IsFree t s l to n
      → Holds t s u p l n
      → (get_or 0 to t.received == 0) ≡ true
      → Holds
          (settle (new_executor g) to t).0
          s
          u
          (p + calls_for n (settle (new_executor g) to t).1)
          l
          n
  unfolding settle out_edges
  settle-skips t to n s u p l entered new free h none_active = rw none_active (
      ground (
        arith,
        eq_iff to n,
        get_or-insert false to n true t.visited,
        get_or-insert false to g.entry_point true t.visited,
        unreported-visit t.visited to n g.edges,
        skip_calls-info_of g n to,
      ))

  settle-readies :
      (t : Task V) (to n : String) (s u p l : ℕ)
      → is_visited t g.entry_point ≡ true
      → is_visited t to ≡ false
      → get_or 0 to t.remaining ≡ 0
      → IsFree t s l to n
      → Holds t s u p l n
      → (get_or 0 to t.received == 0) ≡ false
      → Holds
          (settle (new_executor g) to t).0
          s
          u
          (p + calls_for n (settle (new_executor g) to t).1)
          l
          n
  unfolding settle
  settle-readies t to n s u p l entered new all_in free h some_active =
      rw some_active (ground (arith, eq_iff to n, occurrences-append n t.ready (to ∷ [])))

  settle-Holds :
      (t : Task V) (to n : String) (s u p l : ℕ)
      → is_visited t g.entry_point ≡ true
      → is_visited t to ≡ false
      → get_or 0 to t.remaining ≡ 0
      → IsFree t s l to n
      → Holds t s u p l n
      → Holds
          (settle (new_executor g) to t).0
          s
          u
          (p + calls_for n (settle (new_executor g) to t).1)
          l
          n
  settle-Holds t to n s u p l entered new all_in free h =
      elim (Bool-cases (get_or 0 to t.received == 0)) [
        | inl e ↦ settle-skips t to n s u p l entered new free h e
        | inr e ↦ settle-readies t to n s u p l entered new all_in free h e
      ]

  -- What is known of the node that a call is for, if the node is not visited.
  called_node :
      (t : Task V) (to : String) (s u p l : ℕ)
      → is_visited t to ≡ false
      → Holds t s u (p + hit to to) l to
      → (is_visited t g.entry_point ≡ true)
        × (1 ≤ get_or 0 to t.remaining)
        × (occurrences to t.ready + s + l ≡ 0)
  called_node t to s u p l new k = ground (arith, eq_iff to to, eq_iff to g.entry_point)

  receive-Holds :
      (t : Task V) (to n : String) (activated : Bool) (s u p l : ℕ)
      → 1 ≤ get_or 0 to t.remaining
      → IsFree t s l to n
      → Holds t s u (p + hit to n) l n
      → Holds (receive to activated t) s u p l n
  receive-Holds t to n activated s u p l some_left free h =
      ground (arith, eq_iff to n, get_or-insert 0 to n (get_or 0 to t.remaining - 1) t.remaining)

  -- The invariant at every name, for the counts of the goroutines.
  abbrev pub HoldsAll : Task V → (s u p l : String → ℕ) → Type 0
  HoldsAll t s u p l = (n : String) → Holds t (s n) (u n) (p n) (l n) n

  HoldsAll-IsFree :
      (t : Task V) (to n : String) (s l : String → ℕ)
      → occurrences to t.ready + s to + l to ≡ 0
      → IsFree t (s n) (l n) to n
  HoldsAll-IsFree t to n s l k = elim (Bool-cases (str_eq to n)) [
    | inl same ↦ inr (subst (λ m. occurrences m t.ready + s m + l m ≡ 0) ((eq_iff to n).0 same) k)
    | inr other ↦ inl (rw other refl)
  ]

  -- The node is visited, or has no predecessors.
  satisfy-early :
      (t : Task V) (to n : String) (activated : Bool) (s u p l : ℕ)
      → (is_visited t to || ((info_of (new_executor g) to).dependencies == 0)) ≡ true
      → Holds t s u (p + hit to n) l n
      → Holds
          (satisfy_section (new_executor g) to activated t).0
          s
          u
          (p + calls_for n (satisfy_section (new_executor g) to activated t).1)
          l
          n
  unfolding satisfy_section
  satisfy-early t to n activated s u p l early h = rw early (ground arith)

  satisfy-late :
      (t : Task V) (to : String) (activated : Bool) (s u p l : String → ℕ)
      → (is_visited t to || ((info_of (new_executor g) to).dependencies == 0)) ≡ false
      → HoldsAll t s u (λ n. p n + hit to n) l
      → HoldsAll
          (satisfy_section (new_executor g) to activated t).0
          s
          u
          (λ n. p n + calls_for n (satisfy_section (new_executor g) to activated t).1)
          l
  unfolding satisfy_section
  satisfy-late t to activated s u p l late h n =
      let new : is_visited t to ≡ false = ground arith in
      let (entered, some_left, nothing) = called_node t to (s to) (u to) (p to) (l to) new (h to) in
      let free = HoldsAll-IsFree t to n s l nothing in
      let t' = receive to activated t in
      let k : Holds t' (s n) (u n) (p n) (l n) n =
        receive-Holds t to n activated (s n) (u n) (p n) (l n) some_left free (h n) in
      rw late
        (elim (Bool-cases (
          (get_or 0 to t'.remaining == 0)
          && (not (is_visited t' to) && not (get_or false to t'.in_flight)))) [
            | inl settled ↦
                rw settled
                  (settle-Holds t' to n (s n) (u n) (p n) (l n) entered new (ground arith) free k)
            | inr waits ↦ rw waits (ground arith)
          ])

  -- A goroutine's call for `to` keeps the invariant; the calls that follow it take its place.
  pub satisfy-Holds :
      (t : Task V) (to : String) (activated : Bool) (s u p l : String → ℕ)
      → HoldsAll t s u (λ n. p n + hit to n) l
      → HoldsAll
          (satisfy_section (new_executor g) to activated t).0
          s
          u
          (λ n. p n + calls_for n (satisfy_section (new_executor g) to activated t).1)
          l
  satisfy-Holds t to activated s u p l h =
      elim (Bool-cases (is_visited t to || ((info_of (new_executor g) to).dependencies == 0))) [
        | inl early ↦ λ n. satisfy-early t to n activated (s n) (u n) (p n) (l n) early (h n)
        | inr late ↦ satisfy-late t to activated s u p l late h
      ]

  pub fail-Holds :
      (t : Task V) (error : GraphError) (n : String) (s u p l : ℕ)
      → Holds t s u p l n
      → Holds (fail error t) s u p l n
  unfolding fail
  fail-Holds t error n s u p l h = ground arith

  -- The handler of `m` returned, and the node is visited.
  complete-Holds :
      (t : Task V) (m n : String) (output : State V) (s u p l s' u' p' l' : ℕ)
      → Holds t s (u + hit m n) p l n
      → Holds t s' (u' + hit m m) p' l' m
      → Holds
          (complete (new_executor g) m output t).0
          s
          u
          (p + calls_for n (complete (new_executor g) m output t).1)
          l
          n
  unfolding complete out_edges
  complete-Holds t m n output s u p l s' u' p' l' h k = ground (
    arith,
    eq_iff m n,
    eq_iff m m,
    eq_iff m g.entry_point,
    get_or-insert false m n true t.visited,
    get_or-insert false m g.entry_point true t.visited,
    unreported-visit t.visited m n g.edges,
    process_outgoing-for g n m output,
  )

  pub after_handler-Holds :
      (t : Task V) (m : String) (result : Result GraphError (State V)) (s u p l : String → ℕ)
      → HoldsAll t s (λ n. u n + hit m n) p l
      → HoldsAll
          (after_handler (new_executor g) m result t).0
          s
          u
          (λ n. p n + calls_for n (after_handler (new_executor g) m result t).1)
          l
  unfolding after_handler
  after_handler-Holds t m (ok output) s u p l h n =
      complete-Holds t m n output (s n) (u n) (p n) (l n) (s m) (u m) (p m) (l m) (h n) (h m)
  after_handler-Holds t m (err error) s u p l h n = ground (arith, h n)
