-- ===== src/Graph/Compile/Correct.antt =====
-- `Compile` succeeds exactly for the graphs that are valid, without cycles, with a finish that can
-- be reached, and structured; and it always answers.
use blades.Common.{
  String, ◌≡◌, ◌≢◌, ◌↔◌, refl, true, Option, none, some, Result, ok, err, List, arith,
}
use blades.Common.StringMap.{has_key, has_key-In}
use blades.Graph.Types.{Graph, GraphError}
use blades.Graph.Edges.{Route, one, more, IsCycle, IsChain-Route}
use blades.Graph.Check.{validate, validate_structure}
use blades.Graph.Check.Correct.{
  IsValid, validate_iff, IsStructured, validate_structure_iff, Edge-IsValid,
}
use blades.Graph.Cycle.{ensure_acyclic}
use blades.Graph.Cycle.Fuel.{ensure_acyclic-ne-none}
use blades.Graph.Cycle.Path.{ensure_acyclic-IsCycle}
use blades.Graph.Cycle.Sound.{ensure_acyclic-not-Route}
use blades.Graph.Reach.{ensure_reachable}
use blades.Graph.Reach.Fuel.{ensure_reachable-ne-none}
use blades.Graph.Reach.Correct.{Reaches, ensure_reachable_iff}
use blades.Graph.Compile.{new_executor, compile}

module _ {V : Type 0} where
  -- No route leads from a node back to it.
  abbrev pub IsAcyclic : Graph V → Type 0
  IsAcyclic g = (n : String) → ¬ Route g n n

  pub record IsCompilable (g : Graph V) : Type 0 where
    pub valid : IsValid g
    pub acyclic : IsAcyclic g
    pub reachable : Reaches g g.entry_point g.finish_point
    pub structured : IsStructured g

  Route-source : (g : Graph V) {a b : String} → IsValid g → Route g a b → has_key a g.nodes ≡ true
  Route-source g {a} v (one {b} e) = (Edge-IsValid g a b v e).0
  Route-source g {a} v (more {b} e r) = (Edge-IsValid g a b v e).0

  IsCycle-Route : (g : Graph V) (c : List String) → IsCycle g c → (n : String) × Route g n n
  IsCycle-Route g c h = (h.start, IsChain-Route g h.start h.start h.middle (rw h.closed at h.chain))

  -- Of the graphs that the checks of the start, the finish and the ends of edges accept, the
  -- depth-first search accepts exactly those without a cycle.
  pub ensure_acyclic_iff :
      (g : Graph V) → IsValid g → (ensure_acyclic g ≡ some (ok tt)) ↔ IsAcyclic g
  ensure_acyclic_iff g v = (
    λ e n r. ensure_acyclic-not-Route g n e (has_key-In n g.nodes (Route-source g v r)) r,
    λ a. by_answer a (ensure_acyclic g) refl,
  )
    where
      by_answer :
          IsAcyclic g
          → (o : Option (Result GraphError (Unit {0}))) → ensure_acyclic g ≡ o
          → ensure_acyclic g ≡ some (ok tt)
      by_answer a none e = absurd (ensure_acyclic-ne-none g e)
      by_answer a (some (ok tt)) e = e
      by_answer a (some (err error)) e =
          let (c, _, closed) = ensure_acyclic-IsCycle g error e in
          let (n, r) = IsCycle-Route g c closed in absurd (a n r)

  compile-checks :
      (g : Graph V)
      → (compile g ≡ some (ok (new_executor g))) ↔ (
          (validate g ≡ ok tt)
          × (ensure_acyclic g ≡ some (ok tt))
          × (ensure_reachable g ≡ some (ok tt))
          × (validate_structure g ≡ ok tt))
  unfolding compile
  compile-checks g = ground arith

  -- `Compile` succeeds, with the executor of the graph, exactly when the graph is valid, has no
  -- cycle, has a finish node that can be reached, and is structured.
  pub compile_iff : (g : Graph V) → (compile g ≡ some (ok (new_executor g))) ↔ IsCompilable g
  compile_iff g = (
    λ e.
        let (v, a, r, s) = (compile-checks g).0 e in
        let valid = (validate_iff g).0 v in
        record {
          valid = valid;
          acyclic = (ensure_acyclic_iff g valid).0 a;
          reachable = (ensure_reachable_iff g).0 r;
          structured = (validate_structure_iff g).0 s;
        },
    λ c. (compile-checks g).1 (
      (validate_iff g).1 c.valid,
      (ensure_acyclic_iff g c.valid).1 c.acyclic,
      (ensure_reachable_iff g).1 c.reachable,
      (validate_structure_iff g).1 c.structured,
    ),
  )

  -- `Compile` ends with an executor or an error, whatever the graph.
  pub compile-ne-none : (g : Graph V) → compile g ≢ none
  unfolding compile
  compile-ne-none g = ground (arith, ensure_acyclic-ne-none g, ensure_reachable-ne-none g)
