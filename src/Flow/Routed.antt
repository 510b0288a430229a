-- ===== src/Flow/Routed.antt =====
-- What a run of the routing agent does, from what the root agent would yield to a consumer that
-- never stops.
use blades.Common.{
  ◌≡◌, ◌≢◌, ◌⊎◌, inl, inr, refl, sym, ap, subst, String, str_eq, eq_iff, Bool, true, false, not,
  Bool-cases, List, [], ◌∷◌, ◌++◌, Option, none, some, if◌then◌else◌, arith, append_assoc,
  append-nil,
}
use blades.Common.StringMap.{lookup, has_key}
use blades.Message.{Any, Message, text}
use blades.Agent.Tools.{AgentError, target_not_found}
use blades.Agent.Loop.{Event, message, failure, Invocation, Run, emit}
use blades.Flow.{Consumer, Behaviour, last_message}
use blades.Flow.Routing.{
  action_handoff_to_agent, last_event, routing_wants, as_name, target_of, apart, rejoin,
  answer_last, dispatch, after_root, route,
}

-- What reaches a consumer of the events: it gets the next as long as it wants one.
unfoldable pub cut : Consumer → List Event → List Event → List Event
cut wants past [] = []
cut wants past (e ∷ events) =
    let rest = cut wants (past ++ e ∷ []) events in
    if wants (past ++ e ∷ []) then e ∷ rest else e ∷ []

-- The agent yields the events, whoever its consumer is.
pub record Streams {M : Type 0} (agent : Behaviour M) (input : Invocation) (events : List Event)
    : Type 0 where
  pub yields :
      (wants : Consumer) (r : Run M)
      → (agent wants input r).events ≡ r.events ++ cut wants r.events events

-- The first event that is an error, or a message with a handoff; or the last message.
pub data Choice : Type 0 where
  breaks : AgentError → Choice
  hands : Message → Choice
  ends : Option Message → Choice

unfoldable pub choice : Option Message → List Event → Choice
choice last [] = ends last
choice last (failure error ∷ events) = breaks error
choice last (message m ∷ events) =
    let rest = choice (some m) events in
    if has_key action_handoff_to_agent m.actions then hands m else rest

last_event-snoc : (past : List Event) (e : Event) → last_event (past ++ e ∷ []) ≡ some e
last_event-snoc [] e = refl
last_event-snoc (f ∷ []) e = refl
last_event-snoc (f ∷ g ∷ past) e = last_event-snoc (g ∷ past) e

last_message-snoc :
    (past : List Event) (m : Message) → last_message (past ++ message m ∷ []) ≡ some m
last_message-snoc [] m = refl
last_message-snoc (f ∷ []) m = refl
last_message-snoc (f ∷ g ∷ past) m = last_message-snoc (g ∷ past) m

-- The root agent has not handed over.
abbrev IsQuiet : Option Event → Type 0
IsQuiet none = Unit
IsQuiet (some (message m)) = has_key action_handoff_to_agent m.actions ≡ false
IsQuiet (some (failure error)) = ⊥

-- What the loop over the root agent has read, when it ends.
abbrev Reads : Choice → List Event → Type 0
Reads (breaks error) read = last_event read ≡ some (failure error)
Reads (hands m) read = (last_event read ≡ some (message m)) × (last_message read ≡ some m)
Reads (ends last) read = IsQuiet (last_event read) × (last_message read ≡ last)

cut-Reads :
    (past events : List Event) (last : Option Message)
    → IsQuiet (last_event past)
    → last_message past ≡ last
    → Reads (choice last events) (past ++ cut routing_wants past events)
unfolding cut choice
cut-Reads past [] last quiet same = rw (append-nil past) (quiet, same)
cut-Reads past (failure error ∷ events) last quiet same =
    by_wants (routing_wants (past ++ failure error ∷ [])) unwanted
  where
    unwanted : routing_wants (past ++ failure error ∷ []) ≡ false
    unwanted = rw (routing_wants, last_event-snoc past (failure error)) refl

    by_wants :
        (w : Bool)
        → w ≡ false
        → Reads (breaks error) (
            past
            ++ (if w
                then failure error ∷ cut routing_wants (past ++ failure error ∷ []) events
                else failure error ∷ []))
    by_wants true going = absurd (cc)
    by_wants false going = last_event-snoc past (failure error)
cut-Reads past (message m ∷ events) last quiet same =
    by_key (cut-Reads (past ++ message m ∷ []) events (some m))
      (has_key action_handoff_to_agent m.actions) refl (routing_wants (past ++ message m ∷ []))
      wanted
  where
    wanted :
        routing_wants (past ++ message m ∷ []) ≡ not (has_key action_handoff_to_agent m.actions)
    wanted = rw (routing_wants, last_event-snoc past (message m)) refl

    read_on : List Event
    read_on = cut routing_wants (past ++ message m ∷ []) events

    by_key :
        (IsQuiet (last_event (past ++ message m ∷ []))
          → last_message (past ++ message m ∷ []) ≡ some m
          → Reads (choice (some m) events) ((past ++ message m ∷ []) ++ read_on))
        → (b : Bool) → has_key action_handoff_to_agent m.actions ≡ b
        → (w : Bool) → w ≡ not (has_key action_handoff_to_agent m.actions)
        → Reads
            (if b then hands m else choice (some m) events)
            (past ++ (if w then message m ∷ read_on else message m ∷ []))
    by_key k true handed true going = absurd (ground (arith, handed, going))
    by_key k true handed false going = (last_event-snoc past (message m), last_message-snoc past m)
    by_key k false kept false going = absurd (ground (arith, kept, going))
    by_key k false kept true going =
        subst (Reads (choice (some m) events)) (append_assoc past (message m ∷ []) read_on) (
          k (subst IsQuiet (sym (last_event-snoc past (message m))) kept)
            (last_message-snoc past m))

module _ {M : Type 0} (targets : List (String × Behaviour M)) (wants : Consumer) (inv : Invocation)
    (handed : Run M) where
  -- Without a target the last message of the root agent is the answer, unless it has no text.
  abbrev AnswersLast : Option Message → String → Run M → Type 0
  AnswersLast none name after = after ≡ emit (failure (target_not_found name)) handed
  AnswersLast (some m) name after =
      ((text m ≢ "") × (after ≡ emit (message m) handed))
      ⊎ ((text m ≡ "") × (after ≡ emit (failure (target_not_found name)) handed))

  -- The run is that of the target with the name, which gets the consumer; or there is none.
  abbrev Dispatches : String → Option Message → Run M → Type 0
  Dispatches name last after =
      ((agent : Behaviour M) × (lookup name targets ≡ some agent)
        × (after ≡ agent wants inv handed))
      ⊎ ((lookup name targets ≡ none) × AnswersLast last name after)

  abbrev pub Routes : Choice → Run M → Type 0
  Routes (breaks error) after = after ≡ emit (failure error) handed
  Routes (hands m) after =
      Dispatches (as_name (lookup action_handoff_to_agent m.actions)) (some m) after
  Routes (ends last) after = Dispatches "" last after

  answer_last-AnswersLast :
      (last : Option Message) (name : String)
      → AnswersLast last name (answer_last targets last name handed)
  answer_last-AnswersLast none name = refl
  answer_last-AnswersLast (some m) name = elim (Bool-cases (str_eq (text m) "")) [
    | inl empty ↦ rw empty (inr ((eq_iff (text m) "").0 empty, refl))
    | inr full ↦ rw full (inl ((λ same. ground (arith, full, same, eq_iff (text m) "")), refl))
  ]

  dispatch-Dispatches :
      (read : List Event) (name : String) (last : Option Message)
      → target_of (last_event read) ≡ name
      → last_message read ≡ last
      → Dispatches name last (dispatch targets read wants inv handed)
  unfolding dispatch
  dispatch-Dispatches read name last named same =
      subst (λ n. Dispatches n last (dispatch targets read wants inv handed)) named
        (subst
          (λ l. Dispatches (target_of (last_event read)) l (dispatch targets read wants inv handed))
          same (by_target (lookup (target_of (last_event read)) targets) refl))
    where
      by_target :
          (found : Option (Behaviour M))
          → lookup (target_of (last_event read)) targets ≡ found
          → Dispatches
              (target_of (last_event read))
              (last_message read)
              (elim found as (λ _. Run M) [
                | some agent ↦ agent wants inv handed
                | none ↦
                    answer_last targets (last_message read) (target_of (last_event read)) handed
              ])
      by_target (some agent) here = inl (agent, here, refl)
      by_target none missing =
          inr (missing, answer_last-AnswersLast (last_message read) (target_of (last_event read)))

  lookup-quiet :
      (entries : List (String × Any))
      → has_key action_handoff_to_agent entries ≡ false
      → as_name (lookup action_handoff_to_agent entries) ≡ ""
  unfolding has_key lookup
  lookup-quiet [] quiet = refl
  lookup-quiet ((name, value) ∷ entries) quiet =
      elim (Bool-cases (str_eq name action_handoff_to_agent)) [
        | inl same ↦ absurd (cc (rw same at quiet))
        | inr other ↦ rw other (lookup-quiet entries (rw other at quiet))
      ]

  quiet_target : (last : Option Event) → IsQuiet last → target_of last ≡ ""
  quiet_target none quiet = refl
  quiet_target (some (message m)) quiet = lookup-quiet m.actions quiet
  quiet_target (some (failure error)) quiet = elim quiet [ ]

  after_root-Routes :
      (c : Choice) (read : List Event)
      → Reads c read
      → Routes c (after_root targets (last_event read) read wants inv handed)
  after_root-Routes (breaks error) read broke = rw broke refl
  after_root-Routes (hands m) read (named, same) =
      subst (λ last. Routes (hands m) (after_root targets last read wants inv handed)) (sym named)
        (dispatch-Dispatches read (as_name (lookup action_handoff_to_agent m.actions)) (some m)
          (ap target_of named) same)
  after_root-Routes (ends last) read (quiet, same) = by_last (last_event read) refl quiet
    where
      dispatched : Dispatches "" last (dispatch targets read wants inv handed)
      dispatched = dispatch-Dispatches read "" last (quiet_target (last_event read) quiet) same

      by_last :
          (e : Option Event)
          → last_event read ≡ e
          → IsQuiet e
          → Dispatches "" last (after_root targets e read wants inv handed)
      by_last none is quiet = dispatched
      by_last (some (message m)) is quiet = dispatched
      by_last (some (failure error)) is quiet = elim quiet [ ]

module _ {M : Type 0} (targets : List (String × Behaviour M)) where
  -- The routing agent goes by the first event of the root agent that is an error or a handoff. After
  -- an error it yields that error and nothing else. After a handoff to a target its run is that of
  -- the target, with the consumer of the flow. After a handoff to no target, or if there is none, it
  -- yields the message with the handoff, or the root agent's last, or an error if that has no text.
  -- The root agent's events do not depend on its consumer, but for its stop.
  pub route-Routes :
      (root : Behaviour M) (wants : Consumer) (inv : Invocation) (r : Run M) (events : List Event)
      → Streams root inv events
      → Routes targets wants inv
          (rejoin targets r (root routing_wants inv (apart targets r)))
          (choice none events)
          (route targets root wants inv r)
  unfolding route
  route-Routes root wants inv r events streams =
      after_root-Routes targets wants inv
        (rejoin targets r (root routing_wants inv (apart targets r))) (choice none events)
        (root routing_wants inv (apart targets r)).events
        (subst (Reads (choice none events)) (sym (streams.yields routing_wants (apart targets r)))
          (cut-Reads [] events none tt refl))
