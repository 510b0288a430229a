-- ===== src/Cli/Cron.antt =====
-- cmd/blades/internal/cron: the scheduler's jobs. A time is the number of nanoseconds since the
-- zero time, which is 0; a time before it counts as 0.
use blades.Common.{
  ℕ, zero, suc, ◌+◌, ◌-◌, ◌*◌, ◌≡◌, ◌⊎◌, ◌<◌, ℤ, pos, negsuc, String, str_eq, Bool, true, false,
  not, ◌&&◌, ◌||◌, ◌==◌, ltb, leb, List, [], ◌∷◌, ◌++◌, Option, none, some, Result, err, ok,
  if◌then◌else◌,
}
use Prim.Native.Nat.{◌%◌}
use Prim.Native.String as Native
pub mod Sections
pub mod Store
pub mod Service
pub mod Ticks
pub mod Later
pub mod Wake
pub mod Once
pub mod Saving
pub mod Failing
pub mod Firing
pub mod Reload
pub mod Keeping
pub mod Refired
pub mod Again
pub mod Handler
mod Witness

-- `ScheduleKind` and `PayloadKind` are strings.
abbrev pub schedule_at : String
schedule_at = "at"

abbrev pub schedule_every : String
schedule_every = "every"

abbrev pub schedule_cron : String
schedule_cron = "cron"

abbrev pub payload_exec : String
payload_exec = "exec"

abbrev pub payload_agent_turn : String
payload_agent_turn = "agent_turn"

abbrev pub payload_notify : String
payload_notify = "notify"

pub record Schedule : Type 0 where
  pub kind : String
  pub at : ℕ
  pub every_ms : ℤ
  pub expr : String
  pub tz : String

pub record Payload : Type 0 where
  pub kind : String
  pub command : String
  pub message : String
  pub session_id : String
  pub reply_session_id : String

pub record JobState : Type 0 where
  pub next_run_at : ℕ
  pub last_run_at : ℕ
  pub last_status : String
  pub last_error : String
  pub last_output : String

pub record Job : Type 0 where
  pub id : String
  pub name : String
  pub enabled : Bool
  pub schedule : Schedule
  pub payload : Payload
  pub state : JobState
  pub created_at : ℕ
  pub updated_at : ℕ
  pub delete_after_run : Bool

-- The packages time and robfig/cron: locations, and the next time of an expression in one.
pub record Calendar (L S : Type 0) : Type 0 where
  pub here : L
  pub load_location : String → Option L
  pub parse : String → Option S
  pub next : S → L → ℕ → ℕ

-- `Next` is documented to return a later time, or the zero time if there is none.
pub record IsCalendar {L S : Type 0} (calendar : Calendar L S) : Type 0 where
  pub next-later : (s : S) (l : L) (t : ℕ) → (calendar.next s l t ≡ 0) ⊎ (t < calendar.next s l t)

-- An `int64` by its 64 bits.
abbrev pub two63 : ℕ
two63 = 9223372036854775808

abbrev pub signed : ℕ → ℤ
signed bits = if ltb bits two63 then pos bits else negsuc (two63 + two63 - 1 - bits)

-- `time.Duration(s.EveryMs) * time.Millisecond`, which wraps around, of a positive number.
unfoldable pub milliseconds : ℕ → ℤ
milliseconds n = signed ((n * 1000000) % (two63 + two63))

-- `base.Add`
unfoldable pub add_duration : ℕ → ℤ → ℕ
add_duration base (pos n) = base + n
add_duration base (negsuc n) = base - suc n

abbrev pub every : ℤ → ℕ → ℕ
every (pos zero) base = 0
every (pos (suc n)) base = add_duration base (milliseconds (suc n))
every (negsuc n) base = 0

-- The legacy kind `once`.
abbrev pub normalized_kind : String → String
normalized_kind kind = if str_eq kind "once" then schedule_at else kind

module _ {L S : Type 0} (calendar : Calendar L S) where
  abbrev pub location : String → L
  location tz =
      if str_eq tz ""
      then calendar.here
      else elim (calendar.load_location tz) [ none ↦ calendar.here | some l ↦ l ]

  abbrev pub cron_next : Schedule → ℕ → ℕ
  cron_next s base = if str_eq s.expr "" then 0 else elim (calendar.parse s.expr) [
    | none ↦ 0
    | some sched ↦ calendar.next sched (location s.tz) base
  ]

  -- `computeNextRun`: the zero time if there is no future run.
  unfoldable pub compute_next_run : Schedule → ℕ → ℕ
  unfolding add_duration milliseconds
  compute_next_run s base =
      let kind = normalized_kind s.kind in
      if str_eq kind schedule_at
      then (if not (s.at == 0) && ltb base s.at then s.at else 0)
      else if str_eq kind schedule_every
      then every s.every_ms base
      else if str_eq kind schedule_cron
      then cron_next s base
      else 0

-- `normalizePayloadKind`; `lower` and `trim_space` are those of the package strings.
unfoldable pub normalize_payload_kind : (String → String) → (String → String) → String → String
normalize_payload_kind lower trim_space kind =
    let word = lower (trim_space kind) in
    if str_eq word "shell" || str_eq word "command"
    then payload_exec
    else if str_eq word "message" || str_eq word "agent_message"
    then payload_agent_turn
    else if str_eq word "chat" || (str_eq word "social" || str_eq word "channel_message")
    then payload_notify
    else kind
