-- ===== src/Flow/Laws.antt =====
-- Flows are generators, if their sub-agents are.
use blades.Common.{
  ℕ, zero, suc, ◌≡◌, ◌⊎◌, inl, inr, refl, Bool, true, false, Bool-cases, List, [], ◌∷◌, Option,
  none, some, All, Result, ok, err, if◌then◌else◌, String, str_eq,
}
use blades.Common.StringMap.{lookup}
use blades.Message.{Message, text}
use blades.Agent.Tools.{AgentError, loop_escalated}
use blades.Agent.Loop.{Event, message, failure, Invocation, Run, emit}
use blades.Flow.{Consumer, Behaviour, passing, is_stopped, yielded, last_message}
use blades.Flow.Generator.{
  Shows, Live, IsGenerator, Live-refl, join_shows, Shows-emit, Live-intro, Live-trans,
}
use blades.Flow.Sequential.{SequentialConfig, run_sub_agents, new_sequential_agent}
use blades.Flow.Routing.{
  routing_wants, last_event, target_of, apart, rejoin, answer_last, dispatch, after_root, route,
}
use blades.Flow.Loop.{
  LoopConfig, LoopState, LoopCondition, Signals, Pass, Outcome, returns, continues, sub_loop,
  by_condition, decide, begin_pass, state_input, iterate, iterations, max_rounds, new_loop_agent,
  read_signals,
}

module _ {M : Type 0} where
  run_sub_agents-Shows :
      (agents : List (Behaviour M)) (wants : Consumer) (input : Invocation) (r : Run M)
      → All IsGenerator agents
      → Shows (passing wants) r (run_sub_agents agents wants input r)
  unfolding run_sub_agents
  run_sub_agents-Shows [] wants input r h = (Live-refl (passing wants) r).shows
  run_sub_agents-Shows (agent ∷ agents) wants input r (g, h) =
      let r' = agent (passing wants) input r in
      let shows = g.keeps (passing wants) input r in
      elim (Bool-cases (is_stopped (passing wants) r r')) [
        | inl stops ↦ rw stops shows
        | inr goes ↦ rw goes (
            join_shows (passing wants) r r' (run_sub_agents agents wants input r')
              (Live-intro (passing wants) r r' shows goes)
              (run_sub_agents-Shows agents wants input r' h))
      ]

  -- A sequence of generators is a generator: it yields nothing after its consumer has stopped, nor
  -- after an error of a sub-agent.
  pub new_sequential_agent-Shows :
      (config : SequentialConfig M) (wants : Consumer) (input : Invocation) (r : Run M)
      → All IsGenerator config.sub_agents
      → Shows (passing wants) r (new_sequential_agent config wants input r)
  unfolding new_sequential_agent
  new_sequential_agent-Shows config wants input r h =
      run_sub_agents-Shows config.sub_agents wants input r h

  -- A pass that has returned has shown; one that goes on may show more.
  abbrev PassShows : Consumer → Run M → Pass M → Type 0
  PassShows wants r p =
      Shows (passing wants) r p.run × ((p.cut ≡ true) ⊎ Live (passing wants) r p.run)

  PassShows-join :
      (wants : Consumer) (r s : Run M) (p : Pass M)
      → Live (passing wants) r s
      → PassShows wants s p
      → PassShows wants r p
  PassShows-join wants r s p live (shows, inl cut) =
      (join_shows (passing wants) r s p.run live shows, inl cut)
  PassShows-join wants r s p live (shows, inr more) = (
    join_shows (passing wants) r s p.run live shows,
    inr (Live-trans (passing wants) r s p.run live more),
  )

  Shows-last :
      (wants : Consumer) (r s : Run M) (e : Event)
      → Live (passing wants) r s
      → Shows (passing wants) r (emit e s)
  Shows-last wants r s e live =
      join_shows (passing wants) r s (emit e s) live (Shows-emit (passing wants) s e)

  sub_loop-Shows :
      (agents : List (Behaviour M)) (wants : Consumer) (input : Invocation) (p : Pass M)
      → All IsGenerator agents
      → PassShows wants p.run (sub_loop agents wants input p)
  unfolding sub_loop
  sub_loop-Shows [] wants input p h =
      ((Live-refl (passing wants) p.run).shows, inr (Live-refl (passing wants) p.run))
  sub_loop-Shows (agent ∷ agents) wants input p (g, h) =
      let r = agent (passing wants) input p.run in
      let shows = g.keeps (passing wants) input p.run in
      let next = record p {
        run = r;
        signals = read_signals (yielded p.run r) p.signals;
        output = last_message (yielded p.run r);
      } in
      elim (Bool-cases (is_stopped (passing wants) p.run r)) [
        | inl stops ↦ rw stops (shows, inl refl)
        | inr goes ↦ rw goes (
            PassShows-join wants p.run r (sub_loop agents wants input next)
              (Live-intro (passing wants) p.run r shows goes)
              (sub_loop-Shows agents wants input next h))
      ]

  -- What an iteration leaves.
  abbrev OutcomeShows : Consumer → Run M → Outcome M → Type 0
  OutcomeShows wants r (returns r') = Shows (passing wants) r r'
  OutcomeShows wants r (continues r') = Live (passing wants) r r'

  decide-Shows :
      (condition : Option LoopCondition) (state : LoopState) (s : Signals) (wants : Consumer)
      (r r' : Run M)
      → Live (passing wants) r r'
      → OutcomeShows wants r (decide condition state s r')
  decide-Shows none state s wants r r' live = elim (Bool-cases s.exit_requested) [
    | inl exits ↦ elim (Bool-cases s.escalated) [
      | inl up ↦ rw (exits, up) (Shows-last wants r r' (failure loop_escalated) live)
      | inr stays ↦ rw (exits, stays) live.shows
    ]
    | inr goes ↦ rw goes live
  ]
  decide-Shows (some condition) state s wants r r' live = by_result (condition state)
    where
      by_result : (result : Result AgentError Bool) → OutcomeShows wants r (by_condition result r')
      by_result (err error) = Shows-last wants r r' (failure error) live
      by_result (ok false) = live.shows
      by_result (ok true) = live

  iterate-Shows :
      (config : LoopConfig M) (wants : Consumer) (input : Invocation) (i : ℕ)
      (output : Option Message) (r : Run M)
      → All IsGenerator config.sub_agents
      → OutcomeShows wants r (iterate config wants input i output r).1
  unfolding iterate
  iterate-Shows config wants input i output r h =
      by_pass (sub_loop config.sub_agents wants input (begin_pass output r))
        (sub_loop-Shows config.sub_agents wants input (begin_pass output r) h)
    where
      by_pass :
          (p : Pass M)
          → PassShows wants r p
          → OutcomeShows wants r (
              if p.cut
              then returns p.run
              else decide config.condition
                  (record {
                    iteration = i;
                    input = state_input config.sub_agents input;
                    output = p.output;
                  })
                  p.signals
                  p.run)
      by_pass p (shows, ended) = elim (Bool-cases p.cut) [
        | inl cut ↦ rw cut shows
        | inr uncut ↦ rw uncut (
            decide-Shows config.condition
              (record {
                iteration = i;
                input = state_input config.sub_agents input;
                output = p.output;
              })
              p.signals wants r p.run (live ended uncut))
      ]
        where
          live :
              (p.cut ≡ true) ⊎ Live (passing wants) r p.run
              → p.cut ≡ false
              → Live (passing wants) r p.run
          live (inl cut) uncut = absurd (cc)
          live (inr l) uncut = l

  iterations-Shows :
      (config : LoopConfig M) (wants : Consumer) (input : Invocation) (left i : ℕ)
      (output : Option Message) (r : Run M)
      → All IsGenerator config.sub_agents
      → Shows (passing wants) r (iterations config wants input left i output r)
  unfolding iterations
  iterations-Shows config wants input zero i output r h = (Live-refl (passing wants) r).shows
  iterations-Shows config wants input (suc left) i output r h =
      by_outcome (iterate config wants input i output r).1
        (iterate-Shows config wants input i output r h)
        (λ output r'. iterations-Shows config wants input left (suc i) output r' h)
    where
      by_outcome :
          (o : Outcome M)
          → OutcomeShows wants r o
          → ((output : Option Message) (r' : Run M)
              → Shows (passing wants) r' (iterations config wants input left (suc i) output r'))
          → Shows (passing wants) r (elim o as (λ _. Run M) [
            | returns r' ↦ r'
            | continues r' ↦
                iterations config wants input left
                  (suc i)
                  (iterate config wants input i output r).0.output
                  r'
          ])
      by_outcome (returns r') shows rest = shows
      by_outcome (continues r') live rest =
          let final = (iterate config wants input i output r).0.output in
          join_shows (passing wants) r r' (iterations config wants input left (suc i) final r') live
            (rest final r')

  -- The loop over generators is a generator: it yields nothing after its consumer has stopped, nor
  -- after an error of a sub-agent, of its condition or of an escalation.
  pub new_loop_agent-Shows :
      (config : LoopConfig M) (wants : Consumer) (input : Invocation) (r : Run M)
      → All IsGenerator config.sub_agents
      → Shows (passing wants) r (new_loop_agent config wants input r)
  unfolding new_loop_agent
  new_loop_agent-Shows config wants input r h =
      iterations-Shows config wants input (max_rounds config.max_iterations) 0 none r h

module _ {M : Type 0} (targets : List (String × Behaviour M)) where
  -- The root agent's run touches none of the flow's events.
  answer_last-Shows :
      (last : Option Message) (name : String) (wants : Consumer) (r r' : Run M)
      → Shows wants r (answer_last targets last name (rejoin targets r r'))
  answer_last-Shows none name wants r r' = record { shown = _ ∷ []; split = refl; allowed = tt }
  answer_last-Shows (some m) name wants r r' = elim (Bool-cases (str_eq (text m) "")) [
    | inl empty ↦ rw empty (record { shown = _ ∷ []; split = refl; allowed = tt })
    | inr full ↦ rw full (record { shown = _ ∷ []; split = refl; allowed = tt })
  ]

  dispatch-Shows :
      (events : List Event) (wants : Consumer) (inv : Invocation) (r r' : Run M)
      → ((name : String) (agent : Behaviour M)
          → lookup name targets ≡ some agent
          → IsGenerator agent)
      → Shows wants r (dispatch targets events wants inv (rejoin targets r r'))
  unfolding dispatch
  dispatch-Shows events wants inv r r' h =
      by_target (lookup (target_of (last_event events)) targets) (h (target_of (last_event events)))
    where
      by_target :
          (found : Option (Behaviour M))
          → ((agent : Behaviour M) → found ≡ some agent → IsGenerator agent)
          → Shows wants r (elim found as (λ _. Run M) [
            | some agent ↦ agent wants inv (rejoin targets r r')
            | none ↦
                answer_last targets
                  (last_message events)
                  (target_of (last_event events))
                  (rejoin targets r r')
          ])
      by_target none g =
          answer_last-Shows (last_message events) (target_of (last_event events)) wants r r'
      by_target (some agent) g =
          let shows = (g agent refl).keeps wants inv (rejoin targets r r') in
          record { shown = shows.shown; split = shows.split; allowed = shows.allowed }

  -- Routing to generators is a generator, whatever the root agent does.
  pub route-Shows :
      (root : Behaviour M) (wants : Consumer) (inv : Invocation) (r : Run M)
      → ((name : String) (agent : Behaviour M)
          → lookup name targets ≡ some agent
          → IsGenerator agent)
      → Shows wants r (route targets root wants inv r)
  unfolding route
  route-Shows root wants inv r h =
      by_last (last_event (root routing_wants inv (apart targets r)).events)
    where
      routed : Run M
      routed = root routing_wants inv (apart targets r)

      by_last :
          (last : Option Event)
          → Shows wants r
              (after_root targets last routed.events wants inv (rejoin targets r routed))
      by_last none = dispatch-Shows routed.events wants inv r routed h
      by_last (some (message m)) = dispatch-Shows routed.events wants inv r routed h
      by_last (some (failure error)) = record { shown = _ ∷ []; split = refl; allowed = tt }
