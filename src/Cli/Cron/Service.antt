-- ===== src/Cli/Cron/Service.antt =====
-- The operations of cmd/blades/internal/cron/service.go. The readings of the clock, a random
-- identifier and the context are arguments, or left out; the readings that one operation takes in a
-- row for the fields of a job are one argument, and `later` is the reading for the timer.
use blades.Common.{
  ℕ, ◌-◌, String, str_eq, Bool, true, false, not, ◌&&◌, ◌==◌, ltb, List, [], ◌∷◌, ◌++◌, Option,
  none, some, Result, err, ok, if◌then◌else◌, length,
}
use Prim.Native.String as Native
use blades.Common.StringMap.{insert, delete}
use blades.Cli.Cron.{
  Schedule, Payload, Job, Calendar, compute_next_run, normalize_payload_kind, payload_agent_turn,
}
use blades.Cli.Cron.Sections.{next_wake, remove_job_slice, enable_first, has_id}
use blades.Cli.Cron.Store.{StoreFiles, Service, load_locked, save_locked}

pub data CronError : Type 0 where
  load_failed save_failed : String → CronError
  no_future_run : String → CronError
  not_found : String → CronError
  job_failed : String → CronError

abbrev pub set_jobs : List Job → Service → Service
set_jobs jobs s = record s { st = record (s.st) { jobs = jobs } }

-- `armTimerLocked`; the delay is 0 if the time has passed.
unfoldable pub arm_timer : ℕ → Service → Service
unfolding next_wake
arm_timer now s =
    let next = next_wake s.st.jobs in
    record s { timer = if s.running && not (next == 0) then some (next - now) else none }

-- `jobIDSet`
unfoldable pub job_id_set : List Job → List (String × Unit {0}) → List (String × Unit {0})
job_id_set [] ids = ids
job_id_set (j ∷ jobs) ids = job_id_set jobs (insert j.id tt ids)

abbrev pub know : String → Service → Service
know id s = elim s.known_ids [
  | none ↦ s
  | some ids ↦ record s { known_ids = some (insert id tt ids) }
]

abbrev pub unknow : String → Service → Service
unknow id s = elim s.known_ids [
  | none ↦ s
  | some ids ↦ record s { known_ids = some (delete id ids) }
]

-- The session of an agent's turn, if it has none.
abbrev pub with_session : (String → String) → (String → String) → String → Payload → Payload
with_session lower trim_space id payload =
    if str_eq (normalize_payload_kind lower trim_space payload.kind) payload_agent_turn
      && str_eq (trim_space payload.session_id) ""
    then record payload { session_id = Native.◌++◌ "cron:" id }
    else payload

-- The loop of `ListJobs`, before it sorts.
unfoldable pub listed : Bool → List Job → List Job
listed include_disabled [] = []
listed include_disabled (j ∷ jobs) =
    if not include_disabled && not j.enabled
    then listed include_disabled jobs
    else j ∷ listed include_disabled jobs

-- The order of `ListJobs`: a job without a next run comes last.
abbrev pub runs_before : Job → Job → Bool
runs_before a b =
    if a.state.next_run_at == 0
    then false
    else if b.state.next_run_at == 0
    then true
    else ltb a.state.next_run_at b.state.next_run_at

-- The loop of `StaleJobs`, over the jobs that `ListJobs` returns.
unfoldable pub stale : ℕ → List Job → List Job
stale cutoff [] = []
stale cutoff (j ∷ jobs) =
    if not (j.state.last_run_at == 0) && ltb j.state.last_run_at cutoff
    then j ∷ stale cutoff jobs
    else stale cutoff jobs

-- The result of `RunNow`.
abbrev pub outcome : Result (String × String) String → Result CronError String
outcome (ok output) = ok output
outcome (err (output, error)) = err (job_failed error)

-- `Stop`
unfoldable pub stop_service : Service → Service
stop_service s = record s { running = false; timer = none; watching = false }

abbrev pub merge_ids : List Job → Service → Service
merge_ids jobs s = elim s.known_ids [
  | none ↦ s
  | some ids ↦ record s { known_ids = some (job_id_set jobs ids) }
]

abbrev pub reloaded : ℕ → Service × Option String → Service
reloaded now (s, some error) = s
reloaded now (s, none) = arm_timer now (merge_ids s.st.jobs s)

-- What an operation leaves: the files, the service and a result.
abbrev pub Ends : Type 0 → Type 0 → Type 0
Ends D A = D × Service × Result CronError A

-- The call of `loadLocked` at the start of an operation.
abbrev pub loaded : {D A : Type 0} → D → Service × Option String → (Service → Ends D A) → Ends D A
loaded d (s, none) rest = rest s
loaded d (s, some error) rest = (d, s, err (load_failed error))

-- The call of `saveLocked`, and what follows if it succeeds.
abbrev pub saved : {D A : Type 0} → D × Service × Option String → (Service → Service × A) → Ends D A
saved (d, s, none) rest = (d, (rest s).0, ok (rest s).1)
saved (d, s, some error) rest = (d, s, err (save_failed error))

module _ {D B : Type 0} (files : StoreFiles D B) where
  -- `RemoveJob`: whether the job was found.
  unfoldable pub remove_job : String → ℕ → D → Service → Ends D Bool
  unfolding load_locked save_locked arm_timer remove_job_slice
  remove_job id later d s = loaded d (load_locked files d s) (λ s.
      let jobs = remove_job_slice id s.st.jobs in
      if length jobs == length s.st.jobs
      then (d, set_jobs jobs s, ok false)
      else saved (save_locked files d (unknow id (set_jobs jobs s)))
          (λ s. (arm_timer later s, true)))

  -- `ListJobs`; `sort` is `sort.Slice`.
  unfoldable pub list_jobs :
      ((Job → Job → Bool) → List Job → List Job) → Bool → D → Service → Ends D (List Job)
  unfolding load_locked listed
  list_jobs sort include_disabled d s =
      loaded d (load_locked files d s)
        (λ s. (d, s, ok (sort runs_before (listed include_disabled s.st.jobs))))

  abbrev pub stale_of : ℕ → Ends D (List Job) → Service × List Job
  stale_of cutoff (d, s, err error) = (s, [])
  stale_of cutoff (d, s, ok jobs) = (s, stale cutoff jobs)

  -- `StaleJobs`
  unfoldable pub stale_jobs :
      ((Job → Job → Bool) → List Job → List Job) → ℕ → ℕ → D → Service → Service × List Job
  unfolding list_jobs stale
  stale_jobs sort now threshold d s = stale_of (now - threshold) (list_jobs sort false d s)

module _ {L S : Type 0} (calendar : Calendar L S) (lower trim_space : String → String) where
  abbrev pub new_job : String → String → Schedule → Payload → Bool → ℕ → Job
  new_job id name schedule payload delete_after_run now = record {
    id = id;
    name = name;
    enabled = true;
    schedule = schedule;
    payload = with_session lower trim_space id payload;
    state = record {
      next_run_at = compute_next_run calendar schedule now;
      last_run_at = 0;
      last_status = "";
      last_error = "";
      last_output = "";
    };
    created_at = now;
    updated_at = now;
    delete_after_run = delete_after_run;
  }

module _ {L S D B : Type 0} (calendar : Calendar L S) (files : StoreFiles D B) where
  module _ (lower trim_space : String → String) where
    -- `AddJob`
    unfoldable pub add_job :
        String → String → Schedule → Payload → Bool → ℕ → ℕ → D → Service → Ends D Job
    unfolding load_locked save_locked arm_timer
    add_job id name schedule payload delete_after_run now later d s =
        loaded d (load_locked files d s) (λ s.
          let job =
            new_job calendar lower trim_space id name schedule payload delete_after_run now in
          if compute_next_run calendar schedule now == 0
          then (d, s, err (no_future_run schedule.kind))
          else saved (save_locked files d (set_jobs (s.st.jobs ++ job ∷ []) s))
              (λ s. (arm_timer later (know job.id s), job)))

  -- `EnableJob`
  unfoldable pub enable_job : String → Bool → ℕ → ℕ → D → Service → Ends D Bool
  unfolding load_locked save_locked arm_timer enable_first has_id
  enable_job id enable now later d s = loaded d (load_locked files d s) (λ s.
      if has_id id s.st.jobs
      then saved (save_locked files d (set_jobs (enable_first calendar id enable now s.st.jobs) s))
          (λ s. (arm_timer later s, true))
      else (d, s, ok false))
