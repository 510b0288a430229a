-- ===== src/Cli/Cron/Handler.antt =====
-- newBotHandlerWithExecWorkDir of cmd/blades/internal/cron/service.go: what a job does when it
-- fires. The shell, the agent and the channels are parameters, with a state of a type `W`; logs and
-- timeouts are left out.
use blades.Common.{
  String, str_eq, eq_iff, ◌≡◌, ◌≢◌, refl, ap, Bool-cases, inl, inr, ◌∙◌, Option, none, some, Result,
  err, ok, if◌then◌else◌,
}
use blades.Cli.Cron.{
  Payload, Job, payload_exec, payload_agent_turn, payload_notify, normalize_payload_kind,
}

-- `NotifyFn`
abbrev pub NotifyFn : Type 0 → Type 0
NotifyFn W = W → String → String → W × Option String

-- `exec` has the output and the error of a command, `trigger` is the `TriggerFn`.
pub record World (W : Type 0) : Type 0 where
  pub exec : W → String → W × String × Option String
  pub trigger : W → String → String → W × Result String String
  pub notify : Option (NotifyFn W)

abbrev pub JobResult : Type 0
JobResult = Result (String × String) String

abbrev pub turn_session : Payload → String
turn_session payload = if str_eq payload.session_id "" then "cron" else payload.session_id

module _ {W : Type 0} where
  -- The output goes to the session of the reply, if there are both; an error is only logged.
  abbrev pub forward : Option (NotifyFn W) → String → String → W → W
  forward none target output w = w
  forward (some notify) target output w = if str_eq target "" then w else (notify w target output).0

  abbrev pub sent : String → W × Option String → W × JobResult
  sent text (w, none) = (w, ok text)
  sent text (w, some error) = (w, err ("", error))

  abbrev pub send : Option (NotifyFn W) → String → String → W → W × JobResult
  send none target text w = (w, err ("", "notify handler is nil"))
  send (some notify) target text w = sent text (notify w target text)

module _ {W : Type 0} (world : World W) where
  abbrev pub after_exec : Payload → W × String × Option String → W × JobResult
  after_exec payload (w, output, some error) = (w, err (output, error))
  after_exec payload (w, output, none) =
      (forward world.notify payload.reply_session_id output w, ok output)

  abbrev pub after_trigger : Payload → W × Result String String → W × JobResult
  after_trigger payload (w, err error) = (w, err ("", error))
  after_trigger payload (w, ok reply) =
      (forward world.notify payload.reply_session_id reply w, ok reply)

  -- The case of `PayloadNotify`.
  abbrev pub notify_job : (String → String) → Payload → W → W × JobResult
  notify_job trim_space payload w =
      let text = trim_space payload.message in
      let target = trim_space payload.reply_session_id in
      if str_eq text ""
      then (w, err ("", "notify message is empty"))
      else if str_eq target ""
      then (w, err ("", "notify target session is empty"))
      else send world.notify target text w

  unfoldable pub bot_handler : (String → String) → (String → String) → Job → W → W × JobResult
  unfolding normalize_payload_kind
  bot_handler lower trim_space job w =
      let kind = normalize_payload_kind lower trim_space job.payload.kind in
      if str_eq kind payload_exec
      then after_exec job.payload (world.exec w job.payload.command)
      else if str_eq kind payload_agent_turn
      then after_trigger job.payload
          (world.trigger w (turn_session job.payload) job.payload.message)
      else if str_eq kind payload_notify
      then notify_job trim_space job.payload w
      else (w, err ("", "unknown payload kind"))

module _ {W : Type 0} (world other : World W) where
  after_exec-result :
      (payload : Payload) (r : W × String × Option String)
      → (after_exec world payload r).1 ≡ (after_exec other payload r).1
  after_exec-result payload (w, output, none) = refl
  after_exec-result payload (w, output, some error) = refl

  after_trigger-result :
      (payload : Payload) (r : W × Result String String)
      → (after_trigger world payload r).1 ≡ (after_trigger other payload r).1
  after_trigger-result payload (w, err error) = refl
  after_trigger-result payload (w, ok reply) = refl

  -- The result of a command or an agent's turn does not depend on whether, and how, its output is
  -- sent on to a session.
  pub bot_handler-result :
      (lower trim_space : String → String) (job : Job) (w : W)
      → world.exec ≡ other.exec
      → world.trigger ≡ other.trigger
      → normalize_payload_kind lower trim_space job.payload.kind ≢ payload_notify
      → (bot_handler world lower trim_space job w).1 ≡ (bot_handler other lower trim_space job w).1
  unfolding bot_handler
  bot_handler-result lower trim_space job w same_exec same_trigger no_notify =
      by_kind (normalize_payload_kind lower trim_space job.payload.kind) no_notify
    where
      by_kind :
          (kind : String)
          → kind ≢ payload_notify
          → (if str_eq kind payload_exec
              then after_exec world job.payload (world.exec w job.payload.command)
              else if str_eq kind payload_agent_turn
              then after_trigger world job.payload
                  (world.trigger w (turn_session job.payload) job.payload.message)
              else if str_eq kind payload_notify
              then notify_job world trim_space job.payload w
              else (w, err ("", "unknown payload kind"))).1
            ≡ (if str_eq kind payload_exec
                then after_exec other job.payload (other.exec w job.payload.command)
                else if str_eq kind payload_agent_turn
                then after_trigger other job.payload
                    (other.trigger w (turn_session job.payload) job.payload.message)
                else if str_eq kind payload_notify
                then notify_job other trim_space job.payload w
                else (w, err ("", "unknown payload kind"))).1
      by_kind kind no_notify = elim (Bool-cases (str_eq kind payload_exec)) [
        | inl runs ↦ rw runs (
            after_exec-result job.payload (world.exec w job.payload.command)
            ∙ ap (λ f. (after_exec other job.payload (f w job.payload.command)).1) same_exec)
        | inr no_exec ↦ elim (Bool-cases (str_eq kind payload_agent_turn)) [
          | inl asks ↦
              rw (no_exec, asks)
                (after_trigger-result job.payload
                    (world.trigger w (turn_session job.payload) job.payload.message)
                  ∙ ap
                      (λ f.
                        (after_trigger other job.payload
                          (f w (turn_session job.payload) job.payload.message)).1)
                      same_trigger)
          | inr no_turn ↦ elim (Bool-cases (str_eq kind payload_notify)) [
            | inl tells ↦ absurd (no_notify ((eq_iff kind payload_notify).0 tells))
            | inr unknown ↦ rw (no_exec, no_turn, unknown) refl
          ]
        ]
      ]
