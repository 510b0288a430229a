-- ===== src/Agent/Calls.antt =====
-- How often the loop asks the model.
use blades.Common.{
  ℕ, zero, suc, ◌+◌, ◌≤◌, String, Bool, Bool-cases, if◌then◌else◌, List, [], ◌∷◌, ◌++◌, Option,
  none, some, Result, ok, err, arith, inl, inr, ◌≡◌, refl,
}
use blades.Message.{Message}
use blades.Context.Session.{ContextCompressor, Session, history}
use blades.Agent.Tools.{history_error}
use blades.Agent.Loop.{
  Answer, Invocation, Event, message, stamp, Agent, Run, Round, stopped, again, Streamed, cut,
  ended, emit, fail, save_output_state, tool_round, finish_round, generate_round, stream_loop,
  stream_end, ask, round, rounds, handle, load_history, with_ephemeral, to_list,
}

-- The state of the model counts its calls.
pub record IsCounter {M : Type 0} (a : Agent M) (count : M → ℕ) : Type 0 where
  pub generated :
      (s : M) (messages : List Message) → count (a.model.generate s messages).0 ≡ count s + 1
  pub streamed :
      (s : M) (messages : List Message) → count (a.model.new_streaming s messages).0 ≡ count s + 1

module _ {M : Type 0} (wants : List Event → Bool) (compressor : Option ContextCompressor) where
  abbrev run_of : Round M → Run M
  run_of (stopped r) = r
  run_of (again m r) = r

  abbrev run_of_stream : Streamed M → Run M
  run_of_stream (cut r) = r
  run_of_stream (ended last r) = r

  save_output_state-provider :
      (a : Agent M) (inv : Invocation) (m : Message) (r : Run M)
      → (save_output_state a inv m r).provider ≡ r.provider
  unfolding save_output_state
  save_output_state-provider a inv m r = ground arith

  tool_round-provider :
      (inv : Invocation) (m : Message) (r : Run M)
      → (run_of (tool_round wants inv m r)).provider ≡ r.provider
  unfolding tool_round
  tool_round-provider inv m r = ground arith

  finish_round-provider :
      (inv : Invocation) (m : Message) (r : Run M)
      → (run_of (finish_round wants inv m r)).provider ≡ r.provider
  unfolding finish_round
  finish_round-provider inv m r = ground (arith, tool_round-provider inv m r)

  generate_round-provider :
      (a : Agent M) (inv : Invocation) (answer : Answer) (r : Run M)
      → (run_of (generate_round wants a inv answer r)).provider ≡ r.provider
  unfolding generate_round
  generate_round-provider a inv (err error) r = refl
  generate_round-provider a inv (ok none) r = refl
  generate_round-provider a inv (ok (some m)) r =
      let final = stamp a inv m in
      let r' = emit (message final) (save_output_state a inv final r) in
      ground (
        arith,
        save_output_state-provider a inv final r,
        finish_round-provider inv final r',
        finish_round-provider inv final r,
      )

  stream_loop-provider :
      (a : Agent M) (inv : Invocation) (last : Option Message) (answers : List Answer) (r : Run M)
      → (run_of_stream (stream_loop wants a inv last answers r)).provider ≡ r.provider
  unfolding stream_loop
  stream_loop-provider a inv last [] r = refl
  stream_loop-provider a inv last (err error ∷ answers) r = refl
  stream_loop-provider a inv last (ok none ∷ answers) r = refl
  stream_loop-provider a inv last (ok (some m) ∷ answers) r =
      let final = stamp a inv m in
      let r' = emit (message final) (save_output_state a inv final r) in
      ground (
        arith,
        save_output_state-provider a inv final r,
        stream_loop-provider a inv (some final) answers r,
        stream_loop-provider a inv (some final) answers r',
      )

  stream_end-provider :
      (inv : Invocation) (end : Streamed M)
      → (run_of (stream_end wants inv end)).provider ≡ (run_of_stream end).provider
  unfolding stream_end
  stream_end-provider inv (cut r) = refl
  stream_end-provider inv (ended none r) = refl
  stream_end-provider inv (ended (some m) r) = ground (arith, finish_round-provider inv m r)

  module _ (a : Agent M) (count : M → ℕ) (counts : IsCounter a count) where
    ask-calls :
        (inv : Invocation) (messages : List Message) (r : Run M)
        → count (run_of (ask wants a inv messages r)).provider ≡ count r.provider + 1
    unfolding ask
    ask-calls inv messages r = elim (Bool-cases inv.stream) [
      | inl streaming ↦
          let (provider, answers) = a.model.new_streaming r.provider messages in
          let start = record r { provider = provider } in
          let end = stream_loop wants a inv none answers start in
          rw (streaming, stream_end-provider inv end, stream_loop-provider a inv none answers start)
            (counts.streamed r.provider messages)
      | inr single ↦
          let (provider, answer) = a.model.generate r.provider messages in
          rw (single, generate_round-provider a inv answer (record r { provider = provider }))
            (counts.generated r.provider messages)
    ]

    round-calls :
        (inv : Invocation) (i : ℕ) (local : List Message) (r : Run M)
        → count (run_of (round wants compressor a inv i local r)).provider ≤ count r.provider + 1
    unfolding round
    round-calls inv i local r = elim (Bool-cases (load_history a inv)) [
      | inl loaded ↦ rw (loaded, round) (by_history (history compressor r.session))
      | inr stateless ↦
          rw (stateless, round) (omega (arith, ask-calls inv (with_ephemeral inv i local) r))
    ]
      where
        by_history :
            (loaded : Result String (Session × List Message))
            → count
                (run_of (elim loaded as (λ _. Round M) [
                  | err error ↦ fail (history_error error) r
                  | ok (session, messages) ↦
                      ask wants a inv
                        (with_ephemeral inv i messages)
                        (record r { session = session })
                ])).provider
              ≤ count r.provider + 1
        by_history (err error) = omega arith
        by_history (ok (session, messages)) =
            omega (
              arith,
              ask-calls inv (with_ephemeral inv i messages) (record r { session = session }),
            )

    rounds-calls :
        (inv : Invocation) (left i : ℕ) (local : List Message) (r : Run M)
        → count (rounds wants compressor a inv left i local r).provider ≤ count r.provider + left
    unfolding rounds
    rounds-calls inv zero i local r = omega arith
    rounds-calls inv (suc left) i local r =
        by_round (round wants compressor a inv i local r) (round-calls inv i local r)
          (λ local r. rounds-calls inv left (suc i) local r)
      where
        by_round :
            (end : Round M)
            → count (run_of end).provider ≤ count r.provider + 1
            → ((local : List Message) (r : Run M)
                → count (rounds wants compressor a inv left (suc i) local r).provider
                  ≤ count r.provider + left)
            → count
                (elim end as (λ _. Run M) [
                  | stopped r' ↦ r'
                  | again answered r' ↦
                      rounds wants compressor a inv left
                        (suc i)
                        (if load_history a inv then local else local ++ answered ∷ [])
                        r'
                ]).provider
              ≤ count r.provider + suc left
        by_round (stopped r') h rest = omega (arith, h)
        by_round (again answered r') h rest =
            omega (arith, h, rest (if load_history a inv then local else local ++ answered ∷ []) r')

    -- The loop asks the model at most `maxIterations` times, whatever the model, the tools and the
    -- consumer do.
    pub handle-le_max_iterations :
        (inv : Invocation) (r : Run M)
        → count (handle wants compressor a inv r).provider ≤ count r.provider + a.max_iterations
    unfolding handle
    handle-le_max_iterations inv r = rounds-calls inv a.max_iterations 0 (to_list inv.message) r
