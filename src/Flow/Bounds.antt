-- ===== src/Flow/Bounds.antt =====
-- How much work a flow does: `count` reads a counter, such as that of the model's calls, off the
-- state of the run, and a run of one sub-agent raises it by `most` at most.
use blades.Common.{
  ℕ, zero, suc, ◌+◌, ◌*◌, ◌≤◌, ◌≡◌, inl, inr, Bool, true, false, Bool-cases, List, [], ◌∷◌, Option,
  none, some, refl, All, Result, ok, err, arith, length, if◌then◌else◌,
}
use blades.Message.{Message}
use blades.Agent.Tools.{AgentError}
use blades.Agent.Loop.{Invocation, Run}
use blades.Flow.{Consumer, Behaviour, passing, is_stopped, yielded, last_message}
use blades.Flow.Sequential.{SequentialConfig, run_sub_agents, new_sequential_agent}
use blades.Flow.Loop.{
  LoopConfig, LoopState, LoopCondition, Signals, Pass, Outcome, returns, continues, sub_loop,
  begin_pass, state_input, by_condition, decide, iterate, iterations, max_rounds, new_loop_agent,
  read_signals,
}

module _ {M : Type 0} (count : M → ℕ) (most : ℕ) where
  -- A run of the agent raises the counter by `most` at most.
  pub record IsBounded (agent : Behaviour M) : Type 0 where
    pub raises :
        (wants : Consumer) (input : Invocation) (r : Run M)
        → count (agent wants input r).provider ≤ count r.provider + most

  run_sub_agents-le :
      (agents : List (Behaviour M)) (wants : Consumer) (input : Invocation) (r : Run M)
      → All IsBounded agents
      → count (run_sub_agents agents wants input r).provider
        ≤ count r.provider + length agents * most
  unfolding run_sub_agents
  run_sub_agents-le [] wants input r h = omega arith
  run_sub_agents-le (agent ∷ agents) wants input r (b, h) =
      let r' = agent (passing wants) input r in
      elim (Bool-cases (is_stopped (passing wants) r r')) [
        | inl stops ↦ rw stops (omega (arith, b.raises (passing wants) input r))
        | inr goes ↦ rw goes (
            omega
              (arith, b.raises (passing wants) input r, run_sub_agents-le agents wants input r' h))
      ]

  sub_loop-le :
      (agents : List (Behaviour M)) (wants : Consumer) (input : Invocation) (p : Pass M)
      → All IsBounded agents
      → count (sub_loop agents wants input p).run.provider
        ≤ count p.run.provider + length agents * most
  unfolding sub_loop
  sub_loop-le [] wants input p h = omega arith
  sub_loop-le (agent ∷ agents) wants input p (b, h) =
      let r = agent (passing wants) input p.run in
      let next = record p {
        run = r;
        signals = read_signals (yielded p.run r) p.signals;
        output = last_message (yielded p.run r);
      } in
      elim (Bool-cases (is_stopped (passing wants) p.run r)) [
        | inl stops ↦ rw stops (omega (arith, b.raises (passing wants) input p.run))
        | inr goes ↦ rw goes (
            omega
              (arith, b.raises (passing wants) input p.run, sub_loop-le agents wants input next h))
      ]

  abbrev state_of : Outcome M → Run M
  state_of (returns r) = r
  state_of (continues r) = r

  decide-provider :
      (condition : Option LoopCondition) (state : LoopState) (s : Signals) (r : Run M)
      → (state_of (decide condition state s r)).provider ≡ r.provider
  decide-provider none state s r = ground arith
  decide-provider (some condition) state s r = by_result (condition state)
    where
      by_result :
          (result : Result AgentError Bool)
          → (state_of (by_condition result r)).provider ≡ r.provider
      by_result (err error) = refl
      by_result (ok false) = refl
      by_result (ok true) = refl

  iterate-le :
      (config : LoopConfig M) (wants : Consumer) (input : Invocation) (i : ℕ)
      (output : Option Message) (r : Run M)
      → All IsBounded config.sub_agents
      → count (state_of (iterate config wants input i output r).1).provider
        ≤ count r.provider + length config.sub_agents * most
  unfolding iterate
  iterate-le config wants input i output r h =
      by_pass (sub_loop config.sub_agents wants input (begin_pass output r))
        (sub_loop-le config.sub_agents wants input (begin_pass output r) h)
    where
      by_pass :
          (p : Pass M)
          → count p.run.provider ≤ count r.provider + length config.sub_agents * most
          → count
              (state_of (
                if p.cut
                then returns p.run
                else decide config.condition
                    (record {
                      iteration = i;
                      input = state_input config.sub_agents input;
                      output = p.output;
                    })
                    p.signals
                    p.run)).provider
            ≤ count r.provider + length config.sub_agents * most
      by_pass p h = elim (Bool-cases p.cut) [
        | inl cut ↦ rw cut h
        | inr uncut ↦
            rw
              (
                uncut,
                decide-provider config.condition
                    (record {
                      iteration = i;
                      input = state_input config.sub_agents input;
                      output = p.output;
                    })
                    p.signals p.run,
              )
              h
      ]

  iterations-le :
      (config : LoopConfig M) (wants : Consumer) (input : Invocation) (left i : ℕ)
      (output : Option Message) (r : Run M)
      → All IsBounded config.sub_agents
      → count (iterations config wants input left i output r).provider
        ≤ count r.provider + left * (length config.sub_agents * most)
  unfolding iterations
  iterations-le config wants input zero i output r h = omega arith
  iterations-le config wants input (suc left) i output r h =
      by_outcome (iterate config wants input i output r).1
        (iterate-le config wants input i output r h)
        (λ output r'. iterations-le config wants input left (suc i) output r' h)
    where
      by_outcome :
          (o : Outcome M)
          → count (state_of o).provider ≤ count r.provider + length config.sub_agents * most
          → ((output : Option Message) (r' : Run M)
              → count (iterations config wants input left (suc i) output r').provider
                ≤ count r'.provider + left * (length config.sub_agents * most))
          → count
              (elim o as (λ _. Run M) [
                | returns r' ↦ r'
                | continues r' ↦
                    iterations config wants input left
                      (suc i)
                      (iterate config wants input i output r).0.output
                      r'
              ]).provider
            ≤ count r.provider + suc left * (length config.sub_agents * most)
      by_outcome (returns r') h rest = omega (arith, h)
      by_outcome (continues r') h rest =
          omega (arith, h, rest (iterate config wants input i output r).0.output r')

  -- The loop does at most `max_rounds` times what its sub-agents do one after another, whatever
  -- the condition, the signals and the consumer are.
  pub new_loop_agent-le :
      (config : LoopConfig M) (wants : Consumer) (input : Invocation) (r : Run M)
      → All IsBounded config.sub_agents
      → count (new_loop_agent config wants input r).provider
        ≤ count r.provider + max_rounds config.max_iterations * (length config.sub_agents * most)
  unfolding new_loop_agent
  new_loop_agent-le config wants input r h =
      iterations-le config wants input (max_rounds config.max_iterations) 0 none r h

  -- A sequence of bounded agents is bounded by their number.
  pub new_sequential_agent-le :
      (config : SequentialConfig M) (wants : Consumer) (input : Invocation) (r : Run M)
      → All IsBounded config.sub_agents
      → count (new_sequential_agent config wants input r).provider
        ≤ count r.provider + length config.sub_agents * most
  unfolding new_sequential_agent
  new_sequential_agent-le config wants input r h =
      run_sub_agents-le config.sub_agents wants input r h
