-- ===== src/Graph/Reach/Correct.antt =====
-- `ensureReachable` accepts exactly the graphs in which the finish node can be reached.
use blades.Common.{
  ℕ, zero, suc, String, str_eq, eq_iff, ◌≡◌, ◌⊎◌, ◌↔◌, refl, sym, subst, Bool, true, false,
  Bool-cases, List, [], ◌∷◌, ◌++◌, Option, none, some, inl, inr, ok, err, arith, Result, All,
  All-intro, All-append, In, here, there, In-append_left, In-append_right,
}
use blades.Common.StringMap.{get_or, insert, get_or-insert}
use blades.Graph.Types.{Graph, GraphError}
use blades.Graph.Build.{out_edges, targets}
use blades.Graph.Edges.{Edge, Route, one, more, Route-trans}
use blades.Graph.Reach.{edge_count, search_from, ensure_reachable}
use blades.Graph.Reach.Fuel.{ensure_reachable-ne-none}

module _ {V : Type 0} (g : Graph V) where
  -- `b` is `a`, or a route leads from `a` to it.
  abbrev pub Reaches : String → String → Type 0
  Reaches a b = (a ≡ b) ⊎ Route g a b

  Reaches-step : {a b c : String} → Reaches a b → Edge g b c → Reaches a c
  Reaches-step (inl same) e = inr (rw same (one e))
  Reaches-step (inr r) e = inr (Route-trans g r (one e))

  search_from_sound :
      (fuel : ℕ) (queue : List String) (seen : List (String × Bool))
      → All (Reaches g.entry_point) queue
      → search_from g fuel queue seen ≡ some (ok tt)
      → Reaches g.entry_point g.finish_point
  unfolding search_from
  search_from_sound zero queue seen h e = cc
  search_from_sound (suc fuel) [] seen h e = cc
  search_from_sound (suc fuel) (node ∷ queue) seen h e =
      elim (Bool-cases (get_or false node seen)) [
        | inl old ↦ search_from_sound fuel queue seen h.1 (rw (old, search_from) at e)
        | inr new ↦ elim (Bool-cases (str_eq node g.finish_point)) [
          | inl found ↦
              subst (λ n. Reaches g.entry_point n) ((eq_iff node g.finish_point).0 found) h.0
          | inr other ↦
              search_from_sound fuel (queue ++ targets (out_edges g node)) (insert node true seen)
                (All-append (Reaches g.entry_point) queue (targets (out_edges g node)) h.1 (
                  All-intro (Reaches g.entry_point) (targets (out_edges g node))
                    (λ n m. Reaches-step h.0 m)))
                (rw (new, other, search_from) at e)
        ]
      ]

  -- `n` was seen or waits in the queue.
  abbrev Known : List (String × Bool) → List String → String → Type 0
  Known seen queue n = (get_or false n seen ≡ true) ⊎ In n queue

  -- No seen node is the finish, and an edge from a seen node leads to a known one.
  record IsClosed (seen : List (String × Bool)) (queue : List String) : Type 0 where
    start : Known seen queue g.entry_point
    not_finish : (n : String) → get_or false n seen ≡ true → str_eq n g.finish_point ≡ false
    next : (a b : String) → get_or false a seen ≡ true → Edge g a b → Known seen queue b

  Known-skip :
      (seen : List (String × Bool)) (queue : List String) (node n : String)
      → get_or false node seen ≡ true
      → Known seen (node ∷ queue) n
      → Known seen queue n
  Known-skip seen queue node n old (inl k) = inl k
  Known-skip seen queue node n old (inr here) = inl old
  Known-skip seen queue node n old (inr (there m)) = inr m

  Known-enter :
      (seen : List (String × Bool)) (queue added : List String) (node n : String)
      → Known seen (node ∷ queue) n
      → Known (insert node true seen) (queue ++ added) n
  Known-enter seen queue added node n (inl k) =
      inl (ground (arith, get_or-insert false node n true seen))
  Known-enter seen queue added node n (inr here) =
      inl (ground (arith, get_or-insert false node n true seen, eq_iff node n))
  Known-enter seen queue added node n (inr (there m)) = inr (In-append_left queue added m)

  IsClosed-enter :
      (seen : List (String × Bool)) (queue : List String) (node : String)
      → str_eq node g.finish_point ≡ false
      → IsClosed seen (node ∷ queue)
      → IsClosed (insert node true seen) (queue ++ targets (out_edges g node))
  IsClosed-enter seen queue node other c =
      let added = targets (out_edges g node) in
      record {
        start = Known-enter seen queue added node g.entry_point c.start;
        not_finish = λ n k. elim (Bool-cases (str_eq node n)) [
          | inl same ↦ rw (← (eq_iff node n).0 same) other
          | inr ne ↦ c.not_finish n (ground (arith, get_or-insert false node n true seen))
        ];
        next = λ a b k e. elim (Bool-cases (str_eq node a)) [
          | inl same ↦ inr (In-append_right queue added (rw (sym ((eq_iff node a).0 same)) at e))
          | inr ne ↦
              Known-enter seen queue added node b
                (c.next a b (ground (arith, get_or-insert false node a true seen)) e)
        ];
      }

  Known-Route :
      {a b : String} (seen : List (String × Bool))
      → IsClosed seen []
      → get_or false a seen ≡ true
      → Route g a b
      → get_or false b seen ≡ true
  Known-Route {a} {b} seen c k (one e) = elim (c.next a b k e) [ inl h ↦ h | inr m ↦ elim m [ ] ]
  Known-Route {a} {b} seen c k (more {b = m} e r) = elim (c.next a m k e) [
    | inl h ↦ Known-Route seen c h r
    | inr n ↦ elim n [ ]
  ]

  search_from_complete :
      (fuel : ℕ) (queue : List String) (seen : List (String × Bool)) (error : GraphError)
      → IsClosed seen queue
      → search_from g fuel queue seen ≡ some (err error)
      → ¬ Reaches g.entry_point g.finish_point
  unfolding search_from
  search_from_complete zero queue seen error c e = cc
  search_from_complete (suc fuel) [] seen error c e = elim c.start [
    | inr m ↦ elim m [ ]
    | inl k ↦ λ reaches. elim reaches [
      | inl same ↦ ground (arith, c.not_finish g.entry_point k, eq_iff g.entry_point g.finish_point)
      | inr r ↦ ground (
        arith,
        c.not_finish g.finish_point (Known-Route seen c k r),
        eq_iff g.finish_point g.finish_point,
      )
    ]
  ]
  search_from_complete (suc fuel) (node ∷ queue) seen error c e =
      elim (Bool-cases (get_or false node seen)) [
        | inl old ↦
            search_from_complete fuel queue seen error
              (record {
                start = Known-skip seen queue node g.entry_point old c.start;
                not_finish = c.not_finish;
                next = λ a b k m. Known-skip seen queue node b old (c.next a b k m);
              })
              (rw (old, search_from) at e)
        | inr new ↦ elim (Bool-cases (str_eq node g.finish_point)) [
          | inl found ↦ let q = rw (new, found, search_from) at e in cc
          | inr other ↦
              search_from_complete fuel (queue ++ targets (out_edges g node))
                (insert node true seen) error (IsClosed-enter seen queue node other c)
                (rw (new, other, search_from) at e)
        ]
      ]

  ensure_reachable_sound : ensure_reachable g ≡ some (ok tt) → Reaches g.entry_point g.finish_point
  unfolding ensure_reachable
  ensure_reachable_sound e = elim (Bool-cases (str_eq g.entry_point g.finish_point)) [
    | inl same ↦ inl ((eq_iff g.entry_point g.finish_point).0 same)
    | inr other ↦
        search_from_sound (suc (suc (edge_count g.edges))) (g.entry_point ∷ []) [] (inl refl, tt)
          (rw other at e)
  ]

  start-IsClosed : IsClosed [] (g.entry_point ∷ [])
  unfolding get_or
  start-IsClosed = record { start = inr here; not_finish = λ n k. cc; next = λ a b k e. cc }

  ensure_reachable_complete :
      (error : GraphError)
      → ensure_reachable g ≡ some (err error)
      → ¬ Reaches g.entry_point g.finish_point
  unfolding ensure_reachable
  ensure_reachable_complete error e = elim (Bool-cases (str_eq g.entry_point g.finish_point)) [
    | inl same ↦ let q = rw same at e in cc
    | inr other ↦
        search_from_complete (suc (suc (edge_count g.edges))) (g.entry_point ∷ []) [] error
          start-IsClosed (rw other at e)
  ]

  -- The check accepts a graph exactly when its finish node is its entry node or a route along the
  -- edges leads from the entry node to it.
  pub ensure_reachable_iff :
      (ensure_reachable g ≡ some (ok tt)) ↔ Reaches g.entry_point g.finish_point
  ensure_reachable_iff = (ensure_reachable_sound, λ r. by_answer r (ensure_reachable g) refl)
    where
      by_answer :
          Reaches g.entry_point g.finish_point
          → (o : Option (Result GraphError (Unit {0}))) → ensure_reachable g ≡ o
          → ensure_reachable g ≡ some (ok tt)
      by_answer r none e = absurd (ensure_reachable-ne-none g e)
      by_answer r (some (ok tt)) e = e
      by_answer r (some (err error)) e = absurd (ensure_reachable_complete error e r)
