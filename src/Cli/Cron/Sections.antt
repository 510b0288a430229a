-- ===== src/Cli/Cron/Sections.antt =====
-- What the critical sections of service.go do with the list of jobs. Each of them holds the
-- service's mutex from its start to its end.
use blades.Common.{
  ℕ, String, str_eq, Bool, true, false, not, ◌&&◌, ◌==◌, ltb, leb, List, [], ◌∷◌, Option, none,
  some, Result, err, ok, if◌then◌else◌,
}
use blades.Cli.Cron.{Job, Calendar, compute_next_run, schedule_at}

-- `nextWakeLocked`: the loop with its variable `min`.
abbrev pub sleeps : Job → Bool
sleeps j = j.enabled && not (j.state.next_run_at == 0)

unfoldable pub wake_loop : List Job → ℕ → ℕ
wake_loop [] least = least
wake_loop (j ∷ jobs) least = wake_loop jobs (
    if sleeps j
    then (if least == 0
        then j.state.next_run_at
        else if ltb j.state.next_run_at least
        then j.state.next_run_at
        else least)
    else least)

unfoldable pub next_wake : List Job → ℕ
unfolding wake_loop
next_wake jobs = wake_loop jobs 0

-- The test of `tick`.
abbrev pub is_due : ℕ → Job → Bool
is_due now j = sleeps j && leb j.state.next_run_at now

-- The copies that `tick` hands to its goroutines.
unfoldable pub due : ℕ → List Job → List Job
due now [] = []
due now (j ∷ jobs) = if is_due now j then j ∷ due now jobs else due now jobs

unfoldable pub has_id : String → List Job → Bool
has_id id [] = false
has_id id (j ∷ jobs) = if str_eq j.id id then true else has_id id jobs

abbrev pub plan : ℕ → Job → Job
plan next j = record j { state = record (j.state) { next_run_at = next } }

-- The fields that `execute` sets before it looks at `DeleteAfterRun`.
abbrev pub note : ℕ → ℕ → Result (String × String) String → Job → Job
note start_at later (ok output) j = record j {
  state = record {
    next_run_at = j.state.next_run_at;
    last_run_at = start_at;
    last_status = "ok";
    last_error = "";
    last_output = output;
  };
  updated_at = later;
}
note start_at later (err (output, error)) j = record j {
  state = record {
    next_run_at = j.state.next_run_at;
    last_run_at = start_at;
    last_status = "error";
    last_error = error;
    last_output = output;
  };
  updated_at = later;
}

unfoldable pub remove_job_slice : String → List Job → List Job
remove_job_slice id [] = []
remove_job_slice id (j ∷ jobs) =
    if str_eq j.id id then remove_job_slice id jobs else j ∷ remove_job_slice id jobs

-- The first job with the identifier is changed; the loop breaks there.
unfoldable pub change_first : String → (Job → Job) → List Job → List Job
change_first id f [] = []
change_first id f (j ∷ jobs) = if str_eq j.id id then f j ∷ jobs else j ∷ change_first id f jobs

unfoldable pub first_job : String → List Job → Option Job
first_job id [] = none
first_job id (j ∷ jobs) = if str_eq j.id id then some j else first_job id jobs

module _ {L S : Type 0} (calendar : Calendar L S) where
  -- A one-shot job is disabled, another gets its next time.
  abbrev pub reschedule : ℕ → Job → Job
  reschedule now j =
      if str_eq j.schedule.kind schedule_at
      then plan 0 (record j { enabled = false })
      else plan (compute_next_run calendar j.schedule now) j

  -- The loop of `tick` over the jobs whose identifier is in `dueSet`.
  unfoldable pub advance : ℕ → List Job → List Job → List Job
  advance now fired [] = []
  advance now fired (j ∷ jobs) =
      (if has_id j.id fired then reschedule now j else j) ∷ advance now fired jobs

  -- The section of `execute` after the handler. An output that comes with an error is kept.
  unfoldable pub record_run : String → ℕ → ℕ → Result (String × String) String → List Job → List Job
  unfolding remove_job_slice change_first first_job
  record_run id start_at later result jobs = elim (first_job id jobs) [
    | none ↦ jobs
    | some j ↦
        if j.delete_after_run
        then remove_job_slice id jobs
        else change_first id (λ k. reschedule later (note start_at later result k)) jobs
  ]

  -- `EnableJob`
  unfoldable pub enable_first : String → Bool → ℕ → List Job → List Job
  unfolding change_first
  enable_first id enable now jobs =
      change_first id
        (λ j.
          plan (if enable then compute_next_run calendar j.schedule now else 0)
            (record j { enabled = enable; updated_at = now }))
        jobs
