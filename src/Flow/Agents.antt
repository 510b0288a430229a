-- ===== src/Flow/Agents.antt =====
-- The agent of agent.go is a generator that a flow may run.
use blades.Common.{
  ℕ, zero, suc, ◌≡◌, inl, inr, refl, sym, ap, ◌∙◌, true, not, ◌&&◌, Bool-cases, List, [], ◌∷◌, ◌++◌,
  Option, none, some, Result, ok, err, arith, if◌then◌else◌, String, append-nil, subst,
}
use blades.Common.StringMap.{has_key}
use blades.Message.{Message}
use blades.Context.Session.{ContextCompressor, Session, history}
use blades.Agent.Tools.{
  AgentError, history_error, execute_tools, no_final_response, max_iterations_exceeded,
}
use blades.Agent.Loop.{
  Answer, Invocation, Event, message, failure, stamp, Agent, Run, Round, stopped, again, Streamed,
  cut, ended, emit, fail, persist, save_output_state, tool_round, store_final, finish_round,
  generate_round, stream_loop, stream_end, ask, round, rounds, handle, load_history, with_ephemeral,
  to_list, action_loop_exit, is_assistant, is_tool, is_completed,
}
use blades.Flow.{Consumer}
use blades.Flow.Generator.{Shows, Live, IsGenerator, Live-refl, join_shows, Live-trans}

module _ {M : Type 0} (wants : Consumer) where
  -- A state with the same events.
  Live-same : (r s : Run M) → s.events ≡ r.events → Live wants r s
  Live-same r s same = record {
    shows = record { shown = []; split = same ∙ sym (append-nil r.events); allowed = tt };
    goes_on = inl refl;
  }

  Shows-event : (r s : Run M) (e : Event) → s.events ≡ r.events → Shows wants r (emit e s)
  Shows-event r s e same = record {
    shown = e ∷ [];
    split = ap (λ l. l ++ e ∷ []) same;
    allowed = tt;
  }

  Live-event :
      (r s : Run M) (e : Event)
      → s.events ≡ r.events
      → wants (emit e s).events ≡ true
      → Live wants r (emit e s)
  unfolding Shows-event
  Live-event r s e same wanted = record {
    shows = Shows-event r s e same;
    goes_on = inr (subst (λ l. wants (l ++ e ∷ []) ≡ true) same wanted);
  }

  abbrev RoundShows : Run M → Round M → Type 0
  RoundShows r (stopped r') = Shows wants r r'
  RoundShows r (again m r') = Live wants r r'

  abbrev StreamShows : Run M → Streamed M → Type 0
  StreamShows r (cut r') = Shows wants r r'
  StreamShows r (ended last r') = Live wants r r'

  RoundShows-join :
      (r s : Run M) (end : Round M) → Live wants r s → RoundShows s end → RoundShows r end
  RoundShows-join r s (stopped r') live next = join_shows wants r s r' live next
  RoundShows-join r s (again m r') live next = Live-trans wants r s r' live next

  StreamShows-join :
      (r s : Run M) (end : Streamed M) → Live wants r s → StreamShows s end → StreamShows r end
  StreamShows-join r s (cut r') live next = join_shows wants r s r' live next
  StreamShows-join r s (ended last r') live next = Live-trans wants r s r' live next

  save_output_state-events :
      (a : Agent M) (inv : Invocation) (m : Message) (r : Run M)
      → (save_output_state a inv m r).events ≡ r.events
  unfolding save_output_state
  save_output_state-events a inv m r = ground arith

  tool_round-Shows :
      (inv : Invocation) (m : Message) (r : Run M) → RoundShows r (tool_round wants inv m r)
  unfolding tool_round
  tool_round-Shows inv m r = by_answer (execute_tools inv.tools m)
    where
      by_append :
          (answered : Message) (refused : Option AgentError)
          → Live wants r (emit (message answered) r)
          → Live wants r (persist answered (emit (message answered) r))
          → RoundShows r (elim refused as (λ _. Round M) [
            | some error ↦ fail error (emit (message answered) r)
            | none ↦
                if has_key action_loop_exit answered.actions
                then stopped (persist answered (emit (message answered) r))
                else again answered (persist answered (emit (message answered) r))
          ])
      by_append answered (some error) live kept =
          join_shows wants r (emit (message answered) r)
            (emit (failure error) (emit (message answered) r)) live
            (Shows-event (emit (message answered) r) (emit (message answered) r) (failure error)
              refl)
      by_append answered none live kept =
          elim (Bool-cases (has_key action_loop_exit answered.actions)) [
            | inl exits ↦ rw exits kept.shows
            | inr stays ↦ rw stays kept
          ]

      by_answer :
          (result : Result AgentError Message)
          → RoundShows r (elim result as (λ _. Round M) [
            | err error ↦ fail error r
            | ok answered ↦
                let r' = emit (message answered) r in
                if not (wants r'.events) then stopped r' else elim (inv.refuses answered) [
                  | some error ↦ fail error r'
                  | none ↦
                      if has_key action_loop_exit answered.actions
                      then stopped (persist answered r')
                      else again answered (persist answered r')
                ]
          ])
      by_answer (err error) = Shows-event r r (failure error) refl
      by_answer (ok answered) =
          let shows = Shows-event r r (message answered) refl in
          elim (Bool-cases (wants (emit (message answered) r).events)) [
            | inr done ↦ rw done shows
            | inl more ↦
                let live = Live-event r r (message answered) refl more in
                let kept =
                  Live-trans wants r (emit (message answered) r)
                    (persist answered (emit (message answered) r)) live
                    (Live-same (emit (message answered) r)
                      (persist answered (emit (message answered) r)) refl) in
                rw more (by_append answered (inv.refuses answered) live kept)
          ]

  finish_round-Shows :
      (inv : Invocation) (m : Message) (r : Run M) → RoundShows r (finish_round wants inv m r)
  unfolding finish_round
  finish_round-Shows inv m r = elim (Bool-cases (is_tool m)) [
    | inl calls ↦ rw calls (tool_round-Shows inv m r)
    | inr said ↦ rw said (by_append (inv.refuses m))
  ]
    where
      by_append : (refused : Option AgentError) → RoundShows r (store_final wants refused m r)
      by_append (some error) = Shows-event r r (failure error) refl
      by_append none = (Live-same r (persist m r) refl).shows

  generate_round-Shows :
      (a : Agent M) (inv : Invocation) (answer : Answer) (r : Run M)
      → RoundShows r (generate_round wants a inv answer r)
  unfolding generate_round
  generate_round-Shows a inv (err error) r = Shows-event r r (failure error) refl
  generate_round-Shows a inv (ok none) r = Shows-event r r (failure no_final_response) refl
  generate_round-Shows a inv (ok (some m)) r =
      by_saved (save_output_state a inv final r) (save_output_state-events a inv final r)
    where
      final : Message
      final = stamp a inv m

      by_saved :
          (saved : Run M)
          → saved.events ≡ r.events
          → RoundShows r (
              if is_assistant final
              then (let r' = emit (message final) saved in
                  if wants r'.events then finish_round wants inv final r' else stopped r')
              else finish_round wants inv final r)
      by_saved saved same = elim (Bool-cases (is_assistant final)) [
        | inr calls ↦ rw calls (finish_round-Shows inv final r)
        | inl said ↦
            let r' = emit (message final) saved in
            elim (Bool-cases (wants r'.events)) [
              | inr done ↦ rw (said, done) (Shows-event r saved (message final) same)
              | inl more ↦
                  rw (said, more)
                    (RoundShows-join r r' (finish_round wants inv final r')
                      (Live-event r saved (message final) same more)
                      (finish_round-Shows inv final r'))
            ]
      ]

  stream_loop-Shows :
      (a : Agent M) (inv : Invocation) (last : Option Message) (answers : List Answer) (r : Run M)
      → StreamShows r (stream_loop wants a inv last answers r)
  unfolding stream_loop
  stream_loop-Shows a inv last [] r = Live-refl wants r
  stream_loop-Shows a inv last (err error ∷ answers) r = Shows-event r r (failure error) refl
  stream_loop-Shows a inv last (ok none ∷ answers) r =
      Shows-event r r (failure no_final_response) refl
  stream_loop-Shows a inv last (ok (some m) ∷ answers) r =
      let final = stamp a inv m in
      let saved = save_output_state a inv final r in
      let same = save_output_state-events a inv final r in
      elim (Bool-cases (is_tool final && is_completed final)) [
        | inl passed ↦ rw passed (stream_loop-Shows a inv (some final) answers r)
        | inr shown ↦ elim (Bool-cases (wants (emit (message final) saved).events)) [
          | inr done ↦ rw (shown, done) (Shows-event r saved (message final) same)
          | inl more ↦
              rw (shown, more)
                (StreamShows-join r (emit (message final) saved)
                  (stream_loop wants a inv (some final) answers (emit (message final) saved))
                  (Live-event r saved (message final) same more)
                  (stream_loop-Shows a inv (some final) answers (emit (message final) saved)))
        ]
      ]

  stream_end-Shows :
      (inv : Invocation) (end : Streamed M) (r : Run M)
      → StreamShows r end
      → RoundShows r (stream_end wants inv end)
  unfolding stream_end
  stream_end-Shows inv (cut s) r shows = shows
  stream_end-Shows inv (ended none s) r live =
      join_shows wants r s (emit (failure no_final_response) s) live
        (Shows-event s s (failure no_final_response) refl)
  stream_end-Shows inv (ended (some m) s) r live = elim (Bool-cases (is_completed m)) [
    | inl done ↦
        rw done (RoundShows-join r s (finish_round wants inv m s) live (finish_round-Shows inv m s))
    | inr rest ↦ rw rest (
        join_shows wants r s (emit (failure no_final_response) s) live
          (Shows-event s s (failure no_final_response) refl))
  ]

  ask-Shows :
      (a : Agent M) (inv : Invocation) (messages : List Message) (r : Run M)
      → RoundShows r (ask wants a inv messages r)
  unfolding ask
  ask-Shows a inv messages r = elim (Bool-cases inv.stream) [
    | inl streaming ↦
        let (provider, answers) = a.model.new_streaming r.provider messages in
        let begun = record r { provider = provider } in
        let end = stream_loop wants a inv none answers begun in
        rw streaming (
          stream_end-Shows inv end r (
            StreamShows-join r begun end (Live-same r begun refl)
              (stream_loop-Shows a inv none answers begun)))
    | inr single ↦
        let (provider, answer) = a.model.generate r.provider messages in
        let begun = record r { provider = provider } in
        rw single (
          RoundShows-join r begun (generate_round wants a inv answer begun) (Live-same r begun refl)
            (generate_round-Shows a inv answer begun))
  ]

module _ {M : Type 0} (wants : Consumer) (compressor : Option ContextCompressor) (a : Agent M) where
  round-Shows :
      (inv : Invocation) (i : ℕ) (local : List Message) (r : Run M)
      → RoundShows wants r (round wants compressor a inv i local r)
  unfolding round
  round-Shows inv i local r = elim (Bool-cases (load_history a inv)) [
    | inr stateless ↦ rw (stateless, round) (ask-Shows wants a inv (with_ephemeral inv i local) r)
    | inl loaded ↦ rw (loaded, round) (by_history (history compressor r.session))
  ]
    where
      by_history :
          (loaded : Result String (Session × List Message))
          → RoundShows wants r (elim loaded as (λ _. Round M) [
            | err error ↦ fail (history_error error) r
            | ok (session, messages) ↦
                ask wants a inv (with_ephemeral inv i messages) (record r { session = session })
          ])
      by_history (err error) = Shows-event wants r r (failure (history_error error)) refl
      by_history (ok (session, messages)) =
          let begun = record r { session = session } in
          RoundShows-join wants r begun (ask wants a inv (with_ephemeral inv i messages) begun)
            (Live-same wants r begun refl)
            (ask-Shows wants a inv (with_ephemeral inv i messages) begun)

  rounds-Shows :
      (inv : Invocation) (left i : ℕ) (local : List Message) (r : Run M)
      → Shows wants r (rounds wants compressor a inv left i local r)
  unfolding rounds
  rounds-Shows inv zero i local r = Shows-event wants r r (failure max_iterations_exceeded) refl
  rounds-Shows inv (suc left) i local r =
      by_round (round wants compressor a inv i local r) (round-Shows inv i local r)
        (λ local r. rounds-Shows inv left (suc i) local r)
    where
      by_round :
          (end : Round M)
          → RoundShows wants r end
          → ((local : List Message) (s : Run M)
              → Shows wants s (rounds wants compressor a inv left (suc i) local s))
          → Shows wants r (elim end as (λ _. Run M) [
            | stopped r' ↦ r'
            | again answered r' ↦
                rounds wants compressor a inv left
                  (suc i)
                  (if load_history a inv then local else local ++ answered ∷ [])
                  r'
          ])
      by_round (stopped r') shows rest = shows
      by_round (again answered r') live rest =
          let next = if load_history a inv then local else local ++ answered ∷ [] in
          join_shows wants r r' (rounds wants compressor a inv left (suc i) next r') live
            (rest next r')

-- An agent is a generator: whatever the model and the tools answer, it keeps what it has yielded
-- and yields nothing after its consumer has stopped.
pub handle-IsGenerator :
    {M : Type 0} (compressor : Option ContextCompressor) (a : Agent M)
    → IsGenerator (λ wants inv r. handle wants compressor a inv r)
unfolding handle
handle-IsGenerator compressor a = record {
  keeps =
      λ wants inv r. rounds-Shows wants compressor a inv a.max_iterations 0 (to_list inv.message) r;
}
