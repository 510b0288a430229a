-- ===== src/Graph/Witness.antt =====
-- The theorems about graphs and runs, at small inputs.
use blades.Common.{
  ℕ, ◌≤◌, String, ◌≡◌, ◌≢◌, ◌↔◌, refl, true, false, List, [], ◌∷◌, some, none, ok, err, arith,
  eq_iff, here as first,
}
use blades.Common.StringMap.{insert, has_key, get_or, lookup, delete}
use blades.Graph.Types.{Graph, no_checkpointer, cycle_found}
use blades.Graph.Build.{new, add_node, add_edge, set_entry_point, set_finish_point, out_edges}
use blades.Graph.Edges.{IsCycle}
use blades.Graph.Check.{validate, validate_structure, check_edges, check_targets}
use blades.Graph.Check.Correct.{IsValid, validate_iff, IsStructured, validate_structure_iff}
use blades.Graph.Cycle.{ensure_acyclic, visit_all, visit, visit_edges, cycle_path, drop_last}
use blades.Graph.Cycle.Path.{ensure_acyclic-IsCycle}
use blades.Graph.Reach.{ensure_reachable}
use blades.Graph.Reach.Correct.{Reaches, ensure_reachable_iff}
use blades.Graph.Compile.{compile, new_executor, dependency_counts, build_infos, node_info}
use blades.Graph.Compile.Correct.{
  IsAcyclic, IsCompilable, ensure_acyclic_iff, compile_iff, compile-ne-none,
}
use blades.Graph.Compile.Counts.{dependencies-new_executor}
use blades.Graph.Task.State.{nil_info, is_visited, should_checkpoint, prepare_remaining}
use blades.Graph.Task.Satisfy.{satisfy_section, satisfy, process_outgoing}
use blades.Graph.Task.Execute.{after_handler, handler_of}
use blades.Graph.Task.Schedule.{schedule_next}
use blades.Graph.Task.Run.{
  Worker, Run, starting, running, calling, start, turn, launch, after_turn, Reach, here, next,
  schedule, work,
}
use blades.Graph.Task.Sums.{occurrences}
use blades.Graph.Task.Safety.{handler_once, handler_joined}
use blades.Graph.Tests.{keep, diamond, looped}

program : Unit {0}
unfolding new add_node add_edge set_entry_point set_finish_point insert has_key get_or lookup
    out_edges validate check_edges check_targets ensure_acyclic visit_all visit visit_edges
    cycle_path drop_last dependency_counts build_infos
program = tt

compile_iff_example : (compile diamond ≡ some (ok (new_executor diamond))) ↔ IsCompilable diamond
compile_iff_example = compile_iff diamond

compile-ne-none_example : compile looped ≢ none
compile-ne-none_example = compile-ne-none looped

validate_iff_test : (validate diamond ≡ ok tt) ↔ IsValid diamond
validate_iff_test = validate_iff diamond

validate_structure_iff_example : (validate_structure looped ≡ ok tt) ↔ IsStructured looped
validate_structure_iff_example = validate_structure_iff looped

ensure_reachable_iff_example : (ensure_reachable diamond ≡ some (ok tt)) ↔ Reaches diamond "a" "d"
unfolding program
ensure_reachable_iff_example = ensure_reachable_iff diamond

looped_valid : validate looped ≡ ok tt
unfolding program
looped_valid = refl

ensure_acyclic_iff_example : (ensure_acyclic looped ≡ some (ok tt)) ↔ IsAcyclic looped
ensure_acyclic_iff_example = ensure_acyclic_iff looped ((validate_iff looped).0 looped_valid)

looped_cycle : ensure_acyclic looped ≡ some (err (cycle_found ("a" ∷ "c" ∷ "d" ∷ "a" ∷ [])))
unfolding program
looped_cycle = refl

ensure_acyclic-IsCycle_example :
    (c : List String) × (cycle_found ("a" ∷ "c" ∷ "d" ∷ "a" ∷ []) ≡ cycle_found c)
    × IsCycle looped c
ensure_acyclic-IsCycle_example =
    ensure_acyclic-IsCycle looped (cycle_found ("a" ∷ "c" ∷ "d" ∷ "a" ∷ [])) looped_cycle

dependencies_new_executor_test :
    (get_or nil_info "d" (new_executor diamond).node_infos).dependencies ≡ 2
unfolding program
dependencies_new_executor_test = dependencies-new_executor diamond nil_info "d" refl

-- Two nodes in a row, and a run that calls both handlers.
abbrev line : Graph ℕ
line =
    set_entry_point "a"
      (set_finish_point "b" (add_edge "a" "b" [] (add_node "b" keep (add_node "a" keep (new [])))))

line-IsValid : IsValid line
unfolding program
line-IsValid = (validate_iff line).0 refl

abbrev round : Run ℕ → Run ℕ
round r = launch r (schedule_next (new_executor line) r.task)

abbrev go : Run ℕ → Worker ℕ → Run ℕ
go r w = after_turn r [] [] (turn no_checkpointer (new_executor line) w r.task)

abbrev at_start : Run ℕ
at_start = start (new_executor line) [] false ""

abbrev a_called : Run ℕ
a_called = go (round at_start) (starting "a" [])

abbrev a_returned : Run ℕ
a_returned = go a_called (running "a" [])

abbrev b_ready : Run ℕ
b_ready = go a_returned (calling "a" (satisfy "a" "b" true ∷ []))

abbrev a_done : Run ℕ
a_done = go b_ready (calling "a" [])

abbrev b_called : Run ℕ
b_called = go (round a_done) (starting "b" [])

steps : Unit {0}
unfolding program start schedule_next turn satisfy_section after_handler handler_of process_outgoing
    delete node_info new_executor should_checkpoint prepare_remaining
steps = tt

b_reached : Reach no_checkpointer (new_executor line) at_start b_called
unfolding steps
b_reached =
    next
      (next
        (next
          (next
            (next (next (next here schedule) (work [] [] (starting "a" []) refl))
              (work [] [] (running "a" []) refl))
            (work [] [] (calling "a" (satisfy "a" "b" true ∷ [])) refl))
          (work [] [] (calling "a" []) refl))
        schedule)
      (work [] [] (starting "b" []) refl)

b_in_log : occurrences "b" b_called.log ≢ 0
unfolding steps
b_in_log = let one : occurrences "b" b_called.log ≡ 1 = refl in omega arith

handler_once_example : occurrences "b" b_called.log ≤ 1
handler_once_example =
    handler_once no_checkpointer line [] false "" b_called "b" line-IsValid b_reached

handler_joined_example : is_visited b_called.task "a" ≡ true
unfolding steps
handler_joined_example =
    handler_joined no_checkpointer line [] false "" b_called "a" "b" line-IsValid b_reached b_in_log
      (λ e. ground (arith, eq_iff "b" "a")) first
