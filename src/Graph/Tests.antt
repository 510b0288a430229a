-- ===== src/Graph/Tests.antt =====
-- Runs of the checks on small graphs.
use blades.Common.{ℕ, ◌≡◌, refl, [], ◌∷◌, some, ok, err}
use blades.Graph.Types.{Graph, Handler, cycle_found}
use blades.Common.StringMap.{insert, has_key, get_or}
use blades.Graph.Build.{new, add_node, out_edges, add_edge, set_entry_point, set_finish_point}
use blades.Graph.Check.{
  validate, validate_structure, check_edges, check_targets, check_outgoing, check_mixed,
  has_conditional, has_unconditional,
}
use blades.Graph.Cycle.{ensure_acyclic, visit_all, visit, visit_edges, cycle_path, drop_last}
use blades.Graph.Reach.{ensure_reachable, search_from}

abbrev pub keep : Handler ℕ
keep s = ok s

abbrev pub diamond_nodes : Graph ℕ
diamond_nodes =
    add_node "d" keep (add_node "c" keep (add_node "b" keep (add_node "a" keep (new []))))

abbrev pub diamond : Graph ℕ
diamond = set_entry_point "a" (
    set_finish_point "d" (
      add_edge "a" "b" []
        (add_edge "a" "c" [] (add_edge "b" "d" [] (add_edge "c" "d" [] diamond_nodes)))))

abbrev pub looped : Graph ℕ
looped = add_edge "d" "a" [] diamond

program : Unit {0}
unfolding new add_node add_edge set_entry_point set_finish_point insert has_key get_or out_edges
    validate check_edges check_targets validate_structure check_outgoing check_mixed has_conditional
    has_unconditional ensure_acyclic visit_all visit visit_edges cycle_path drop_last
    ensure_reachable search_from
program = tt

checks : (validate diamond ≡ ok tt) × (validate_structure diamond ≡ ok tt)
unfolding program
checks = (refl, refl)

acyclic : ensure_acyclic diamond ≡ some (ok tt)
unfolding program
acyclic = refl

reachable : ensure_reachable diamond ≡ some (ok tt)
unfolding program
reachable = refl

cyclic : ensure_acyclic looped ≡ some (err (cycle_found ("a" ∷ "c" ∷ "d" ∷ "a" ∷ [])))
unfolding program
cyclic = refl
