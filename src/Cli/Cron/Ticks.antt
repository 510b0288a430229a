-- ===== src/Cli/Cron/Ticks.antt =====
-- Runs of jobs in cmd/blades/internal/cron/service.go: RunNow, tick and execute, and the start and
-- the watch of the service. The handler's results are those of a function.
use blades.Common.{
  ℕ, String, true, ◌==◌, List, [], ◌∷◌, none, some, Result, err, ok, if◌then◌else◌, length,
}
use blades.Cli.Cron.{Job, Calendar}
use blades.Cli.Cron.Sections.{due, advance, record_run, first_job}
use blades.Cli.Cron.Store.{no_store, StoreFiles, Service, load_locked, save_locked}
use blades.Cli.Cron.Service.{
  not_found, set_jobs, arm_timer, job_id_set, Ends, loaded, outcome, reloaded,
}

module _ {D B : Type 0} (files : StoreFiles D B) where
  -- The first section of `RunNow`: the copy that is run.
  unfoldable pub find_job : String → D → Service → Ends D Job
  unfolding load_locked first_job
  find_job id d s = loaded d (load_locked files d s) (λ s. elim (first_job id s.st.jobs) [
    | none ↦ (d, s, err (not_found id))
    | some job ↦ (d, s, ok job)
  ])

  -- `Start`: the timer is set, and the file is watched.
  unfoldable pub start_service : ℕ → D → Service → Ends D (Unit {0})
  unfolding load_locked arm_timer job_id_set
  start_service now d s = loaded d (load_locked files d s) (λ s.
      let begun = record s { running = true; known_ids = some (job_id_set s.st.jobs []) } in
      (d, record (arm_timer now begun) { watching = true }, ok tt))

  -- A tick of `watchFile`: the store is read again whatever the file's time is.
  unfoldable pub watch : ℕ → D → Service → Service
  unfolding load_locked arm_timer job_id_set
  watch now d s = reloaded now (load_locked files d (record s { st = no_store }))

module _ {L S D B : Type 0} (calendar : Calendar L S) (files : StoreFiles D B) where
  -- The section of `execute` after the handler, whose result it has; the error of the save is
  -- dropped.
  unfoldable pub finish_run :
      String → ℕ → ℕ → Result (String × String) String → D → Service → D × Service
  unfolding record_run save_locked
  finish_run id start_at later result d s =
      let (d', s', error) =
        save_locked files d (set_jobs (record_run calendar id start_at later result s.st.jobs) s) in
      (d', s')

  -- `RunNow` when no other section comes between its two.
  abbrev pub run_found :
      (Job → Result (String × String) String) → ℕ → ℕ → Ends D Job → Ends D String
  run_found handler start_at later (d, s, err error) = (d, s, err error)
  run_found handler start_at later (d, s, ok job) =
      let (d', s') = finish_run job.id start_at later (handler job) d s in
      (d', s', outcome (handler job))

  unfoldable pub run_now :
      (Job → Result (String × String) String) → String → ℕ → ℕ → D → Service → Ends D String
  unfolding find_job finish_run
  run_now handler id start_at later d s = run_found handler start_at later (find_job files id d s)

  -- The first section of `tick`: the copies of the due jobs; their schedules are moved on before
  -- the mutex is released. An error of the save is only logged.
  unfoldable pub begin_tick : ℕ → D → Service → Ends D (List Job)
  unfolding load_locked save_locked due advance
  begin_tick now d s = loaded d (load_locked files d s) (λ s.
      let fired = due now s.st.jobs in
      let (d', s', error) =
        save_locked files d (set_jobs (advance calendar now fired s.st.jobs) s) in
      if length fired == 0 then (d, s, ok fired) else (d', s', ok fired))

  -- The goroutines of `tick`, one after another in the order of the list.
  unfoldable pub finish_all :
      (Job → Result (String × String) String) → ℕ → List Job → D → Service → D × Service
  unfolding finish_run
  finish_all handler later [] d s = (d, s)
  finish_all handler later (j ∷ fired) d s =
      let (d', s') = finish_run j.id later later (handler j) d s in
      finish_all handler later fired d' s'

  abbrev pub run_due : (Job → Result (String × String) String) → ℕ → Ends D (List Job) → D × Service
  run_due handler later (d, s, err error) = (d, s)
  run_due handler later (d, s, ok fired) =
      let (d', s') = finish_all handler later fired d s in (d', arm_timer later s')

  -- `tick`
  unfoldable pub tick : (Job → Result (String × String) String) → ℕ → ℕ → D → Service → D × Service
  unfolding begin_tick finish_all arm_timer
  tick handler now later d s = run_due handler later (begin_tick now d s)
