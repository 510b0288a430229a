-- ===== src/Agent/Answered.antt =====
-- What `executeTools` makes of the parts of a message.
use blades.Common.{
  str_eq, ◌≡◌, refl, subst, true, false, Bool-cases, List, [], ◌∷◌, Result, ok, err, inl, inr,
  ◌>>=◌,
}
use blades.Message.{
  Actions, Message, Part, text_part, file_part, data_part, tool_part, ToolPart, merge_actions,
}
use blades.Agent.Tools.{
  AgentError, ToolAnswer, response, failed, interrupted, Tool, answer_part, handle_tools, complete,
  execute_part, execute_parts, execute_tools,
}

-- The call is the same, and is complete.
pub record IsAnswered (p q : ToolPart) : Type 0 where
  pub same_id : q.id ≡ p.id
  pub same_name : q.name ≡ p.name
  pub same_request : q.request ≡ p.request
  pub complete : q.completed ≡ true

-- A call of a tool has been answered, and another part is as it was.
abbrev pub Answers : Part → Part → Type 0
Answers (tool_part p) (tool_part q) = IsAnswered p q
Answers (text_part s) part = part ≡ text_part s
Answers (file_part f) part = part ≡ file_part f
Answers (data_part d) part = part ≡ data_part d
Answers (tool_part p) _ = ⊥

-- Part by part.
abbrev pub AllAnswer : List Part → List Part → Type 0
AllAnswer [] [] = Unit {0}
AllAnswer (p ∷ parts) (q ∷ rest) = Answers p q × AllAnswer parts rest
AllAnswer [] (_ ∷ _) = ⊥
AllAnswer (_ ∷ _) [] = ⊥

abbrev KeepsCall : ToolPart → Result AgentError (ToolPart × Actions) → Type 0
KeepsCall p (ok (q, actions)) = IsAnswered p (complete q)
KeepsCall p (err error) = Unit {0}

answer_part-KeepsCall :
    (p : ToolPart) (answer : ToolAnswer × Actions) → KeepsCall p (answer_part p answer)
answer_part-KeepsCall p (response text, actions) = record {
  same_id = refl;
  same_name = refl;
  same_request = refl;
  complete = refl;
}
answer_part-KeepsCall p (failed text, actions) = record {
  same_id = refl;
  same_name = refl;
  same_request = refl;
  complete = refl;
}
answer_part-KeepsCall p (interrupted text, actions) = tt

handle_tools-KeepsCall : (tools : List Tool) (p : ToolPart) → KeepsCall p (handle_tools tools p)
unfolding handle_tools
handle_tools-KeepsCall [] p = record {
  same_id = refl;
  same_name = refl;
  same_request = refl;
  complete = refl;
}
handle_tools-KeepsCall (tool ∷ tools) p = elim (Bool-cases (str_eq tool.name p.name)) [
  | inl named ↦ rw named (answer_part-KeepsCall p (tool.handle p.request))
  | inr other ↦ rw other (handle_tools-KeepsCall tools p)
]

abbrev PartAnswers : Part → Result AgentError (Part × Actions) → Type 0
PartAnswers p (ok (q, actions)) = Answers p q
PartAnswers p (err error) = Unit {0}

called :
    (p : ToolPart) (answered : Result AgentError (ToolPart × Actions))
    → KeepsCall p answered
    → PartAnswers
        (tool_part p)
        (answered >>= λ answered. ok (tool_part (complete (answered.0)), answered.1))
called p (ok (q, actions)) h = h
called p (err error) h = tt

execute_part_answers : (tools : List Tool) (p : Part) → PartAnswers p (execute_part tools p)
unfolding execute_part
execute_part_answers tools (tool_part p) = elim (Bool-cases p.completed) [
  | inl done ↦
      rw (done, execute_part)
        (record { same_id = refl; same_name = refl; same_request = refl; complete = refl })
  | inr waiting ↦
      let call = record p { completed = false } in
      rw (waiting, execute_part)
        (called call (handle_tools tools call) (handle_tools-KeepsCall tools call))
]
execute_part_answers tools (text_part text) = refl
execute_part_answers tools (file_part file) = refl
execute_part_answers tools (data_part bytes) = refl

abbrev PartsAnswer : List Part → Result AgentError (List Part × Actions) → Type 0
PartsAnswer parts (ok (rest, actions)) = AllAnswer parts rest
PartsAnswer parts (err error) = Unit {0}

joined :
    (p : Part) (parts : List Part) (actions : Actions) (first : Result AgentError (Part × Actions))
    (next : Actions → Result AgentError (List Part × Actions))
    → PartAnswers p first
    → ((actions : Actions) → PartsAnswer parts (next actions))
    → PartsAnswer (p ∷ parts) (
        first >>= λ first.
        next (merge_actions actions (first.1)) >>= λ rest. ok ((first.0) ∷ (rest.0), rest.1))
joined p parts actions (err error) next h k = tt
joined p parts actions (ok (q, set)) next h k =
    second (next (merge_actions actions set)) (k (merge_actions actions set))
  where
    second :
        (rest : Result AgentError (List Part × Actions))
        → PartsAnswer parts rest
        → PartsAnswer (p ∷ parts) (rest >>= λ rest. ok (q ∷ (rest.0), rest.1))
    second (err error) k = tt
    second (ok (rest, actions)) k = (h, k)

execute_parts_answer :
    (tools : List Tool) (parts : List Part) (actions : Actions)
    → PartsAnswer parts (execute_parts tools parts actions)
unfolding execute_parts
execute_parts_answer tools [] actions = tt
execute_parts_answer tools (p ∷ parts) actions =
    joined p parts actions (execute_part tools p) (execute_parts tools parts)
      (execute_part_answers tools p) (execute_parts_answer tools parts)

-- When `executeTools` succeeds, every call in the message is complete, with the same identifier,
-- name and request, in its place, and the other parts are as they were.
pub execute_tools-AllAnswer :
    (tools : List Tool) (m answered : Message)
    → execute_tools tools m ≡ ok answered
    → AllAnswer m.parts answered.parts
unfolding execute_tools
execute_tools-AllAnswer tools m answered =
    by_parts (execute_parts tools m.parts m.actions) (execute_parts_answer tools m.parts m.actions)
  where
    by_parts :
        (done : Result AgentError (List Part × Actions))
        → PartsAnswer m.parts done
        → (done >>= λ done. ok (record m { parts = done.0; actions = done.1 })) ≡ ok answered
        → AllAnswer m.parts answered.parts
    by_parts (err error) h e = cc
    by_parts (ok (parts, actions)) h e = subst (λ r. AllAnswer m.parts r.parts) (same e) h
      where
        same :
            ◌≡◌ {A = Result AgentError Message}
              (ok (record m { parts = parts; actions = actions }))
              (ok answered)
            → record m { parts = parts; actions = actions } ≡ answered
        same e = cc
