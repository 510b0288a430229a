-- ===== src/Cli/Cron/Refired.antt =====
-- A one-shot job that a tick has fired, and saved: no later tick fires it, also if the store is read
-- again in between.
use blades.Common.{
  ℕ, ◌≡◌, ◌≢◌, ◌⊎◌, ap, sym, subst, Bool, true, false, Bool-cases, inl, inr, ◌==◌, String, List, [],
  ◌∷◌, ◌++◌, Option, none, some, Result, ok, err, if◌then◌else◌, length, All, All-append, ◌∙◌,
  arith,
}
use blades.Cli.Files.{found}
use blades.Cli.Cron.{Schedule, Payload, Job, Calendar, compute_next_run}
use blades.Cli.Cron.Sections.{due, has_id, enable_first, record_run}
use blades.Cli.Cron.Store.{Store, StoreFiles, Service, load_locked, save_locked}
use blades.Cli.Cron.Service.{
  no_future_run, Ends, loaded, saved, set_jobs, arm_timer, know, new_job, add_job, enable_job,
  stop_service,
}
use blades.Cli.Cron.Ticks.{finish_run, begin_tick}
use blades.Cli.Cron.Saving.{IsStoreFiles, save_locked-st}
use blades.Cli.Cron.Failing.{Reads}
use blades.Cli.Cron.Firing.{advanced, after_load, after_load-due}
use blades.Cli.Cron.Once.{
  IsOneShot, IsSpent, advance-IsSpent, advance-fired, record_run-IsSpent, enable_first-IsSpent,
  due-spent,
}
use blades.Cli.Cron.Reload.{
  Section, ticked, recorded, watched, started, stopped, armed, found_job, listed_jobs, removed,
  added, switched, Sections, no_section, then_section, Kept, load_locked-All, FileIsSpent,
  FileIsSpent-encode, save_locked-Kept, loaded-Kept, saved-Kept,
}
use blades.Cli.Cron.Keeping.{
  arm_timer-st, know-st, find_job-Kept, list_jobs-Kept, start_service-Kept, watch-Kept,
  remove_job-Kept,
}

-- The file has the service's store.
pub record IsSaved {D B : Type 0} (files : StoreFiles D B) (d : D) (s : Service) : Type 0 where
  pub bytes : B
  pub encoded : files.encode s.st ≡ some bytes
  pub written : files.read_file d ≡ found bytes

module _ {L S D B : Type 0} (calendar : Calendar L S) (files : StoreFiles D B)
    (lawful : IsStoreFiles files) (reads : (st : Store) → Reads files st) (id : String) where
  -- After the load of a tick.
  after_load-Kept :
      (now : ℕ) (d : D) (t : Service)
      → Kept files id d t
      → Kept files id (after_load calendar files now d t).0 (after_load calendar files now d t).1
  after_load-Kept now d t h = elim (Bool-cases (length (due now t.st.jobs) == 0)) [
    | inl idle ↦ rw idle h
    | inr busy ↦ rw busy (
        save_locked-Kept files lawful reads id d (advanced calendar files now d t)
          (advance-IsSpent calendar id now (due now t.st.jobs) t.st.jobs h.memory) h.file)
  ]

  begin_tick-Kept :
      (now : ℕ) (d : D) (s : Service)
      → Kept files id d s
      → Kept files id (begin_tick calendar files now d s).0 (begin_tick calendar files now d s).1
  unfolding begin_tick
  begin_tick-Kept now d s kept =
      loaded-Kept files lawful reads id d s (after_load calendar files now d) kept
        (after_load-Kept now d)

  finish_run-Kept :
      (other : String) (start_at later : ℕ) (result : Result (String × String) String) (d : D)
      (s : Service)
      → Kept files id d s
      → Kept files id
          (finish_run calendar files other start_at later result d s).0
          (finish_run calendar files other start_at later result d s).1
  unfolding finish_run
  finish_run-Kept other start_at later result d s kept =
      save_locked-Kept files lawful reads id d
        (set_jobs (record_run calendar other start_at later result s.st.jobs) s)
        (record_run-IsSpent calendar id other start_at later result s.st.jobs kept.memory) kept.file

  enable_job-Kept :
      (other : String) (enable : Bool) (now later : ℕ) (d : D) (s : Service)
      → (other ≢ id) ⊎ (enable ≡ false)
      → Kept files id d s
      → Kept files id
          (enable_job calendar files other enable now later d s).0
          (enable_job calendar files other enable now later d s).1
  unfolding enable_job
  enable_job-Kept other enable now later d s allowed kept =
      loaded-Kept files lawful reads id d s _ kept by_id
    where
      switch : Service → Service
      switch t = set_jobs (enable_first calendar other enable now t.st.jobs) t

      result : Service → Ends D Bool
      result t =
          if has_id other t.st.jobs
          then saved (save_locked files d (switch t)) (λ s. (arm_timer later s, true))
          else (d, t, ok false)

      by_id : (t : Service) → Kept files id d t → Kept files id (result t).0 (result t).1
      by_id t h = elim (Bool-cases (has_id other t.st.jobs)) [
        | inr absent ↦ rw absent h
        | inl present ↦ rw present (
            saved-Kept files lawful reads id _ _
              (save_locked-Kept files lawful reads id d (switch t)
                (enable_first-IsSpent calendar id other enable now t.st.jobs allowed h.memory)
                h.file)
              (arm_timer-st later))
      ]

  add_job-Kept :
      (lower trim_space : String → String) (other name : String) (schedule : Schedule)
      (payload : Payload) (delete_after_run : Bool) (now later : ℕ) (d : D) (s : Service)
      → other ≢ id
      → Kept files id d s
      → Kept files id
          (add_job calendar files lower trim_space other name schedule payload delete_after_run now
            later d s).0
          (add_job calendar files lower trim_space other name schedule payload delete_after_run now
            later d s).1
  unfolding add_job
  add_job-Kept lower trim_space other name schedule payload delete_after_run now later d s apart
        kept =
      loaded-Kept files lawful reads id d s _ kept by_next
    where
      job : Job
      job = new_job calendar lower trim_space other name schedule payload delete_after_run now

      more : Service → Service
      more t = set_jobs (t.st.jobs ++ job ∷ []) t

      result : Service → Ends D Job
      result t =
          if compute_next_run calendar schedule now == 0
          then (d, t, err (no_future_run schedule.kind))
          else saved (save_locked files d (more t)) (λ s. (arm_timer later (know job.id s), job))

      by_next : (t : Service) → Kept files id d t → Kept files id (result t).0 (result t).1
      by_next t h = elim (Bool-cases (compute_next_run calendar schedule now == 0)) [
        | inl never ↦ rw never h
        | inr future ↦ rw future (
            saved-Kept files lawful reads id _ _
              (save_locked-Kept files lawful reads id d (more t)
                (All-append (IsSpent id) t.st.jobs (job ∷ []) h.memory
                  ((λ same. absurd (apart same)), tt))
                h.file)
              (λ s. arm_timer-st later (know job.id s) ∙ know-st job.id s))
      ]

  Section-Kept :
      (d : D) (s : Service) (d' : D) (s' : Service)
      → Section calendar files id d s d' s'
      → Kept files id d s
      → Kept files id d' s'
  unfolding stop_service
  Section-Kept d s _ _ (ticked now) kept = begin_tick-Kept now d s kept
  Section-Kept d s _ _ (recorded other start_at later result) kept =
      finish_run-Kept other start_at later result d s kept
  Section-Kept d s _ _ (watched now) kept = watch-Kept files lawful reads id now d s kept
  Section-Kept d s _ _ (started now) kept = start_service-Kept files lawful reads id now d s kept
  Section-Kept d s _ _ stopped kept = record { memory = kept.memory; file = kept.file }
  Section-Kept d s _ _ (armed now) kept = record {
    memory = subst (λ st. All (IsSpent id) st.jobs) (sym (arm_timer-st now s)) kept.memory;
    file = kept.file;
  }
  Section-Kept d s _ _ (found_job other) kept = find_job-Kept files lawful reads id other d s kept
  Section-Kept d s _ _ (listed_jobs sort all_jobs) kept =
      list_jobs-Kept files lawful reads id sort all_jobs d s kept
  Section-Kept d s _ _ (removed other later) kept =
      remove_job-Kept files lawful reads id other later d s kept
  Section-Kept d s _ _
        (added lower trim_space other name schedule payload delete_after_run now later apart) kept =
      add_job-Kept lower trim_space other name schedule payload delete_after_run now later d s apart
        kept
  Section-Kept d s _ _ (switched other enable now later allowed) kept =
      enable_job-Kept other enable now later d s allowed kept

  Sections-Kept :
      (d : D) (s : Service) (d' : D) (s' : Service)
      → Sections calendar files id d s d' s'
      → Kept files id d s
      → Kept files id d' s'
  Sections-Kept d s _ _ no_section kept = kept
  Sections-Kept d s d'' s'' (then_section {d' = d'} {s' = s'} before section) kept =
      Section-Kept d' s' d'' s'' section (Sections-Kept d s d' s' before kept)

  none_fires : (jobs : List Job) → (length jobs == 0) ≡ true → has_id id jobs ≡ true → ⊥
  unfolding has_id
  none_fires [] idle fires = absurd (cc)
  none_fires (j ∷ jobs) idle fires = absurd (ground (arith, idle))

  -- The tick that fires the job.
  fired-All :
      (now : ℕ) (d d' : D) (s s' : Service) (fired : List Job)
      → begin_tick calendar files now d s ≡ (d', s', ok fired)
      → has_id id fired ≡ true
      → All (IsOneShot id) (load_locked files d s).0.st.jobs
      → All (IsSpent id) s'.st.jobs
  unfolding begin_tick
  fired-All now d d' s s' fired did fires once = by_load (load_locked files d s) once did
    where
      by_load :
          (r : Service × Option String)
          → All (IsOneShot id) r.0.st.jobs
          → ◌≡◌ {A = Ends D (List Job)}
              (loaded d r (after_load calendar files now d))
              (d', s', ok fired)
          → All (IsSpent id) s'.st.jobs
      by_load (t, some e) once did = absurd (cc (ap (λ r. r.2) did))
      by_load (t, none) once did =
          let fires_due : has_id id (due now t.st.jobs) ≡ true =
            ap (has_id id) (after_load-due calendar files now d d' t s' fired did) ∙ fires in
          elim (Bool-cases (length (due now t.st.jobs) == 0)) [
            | inl idle ↦ absurd (none_fires (due now t.st.jobs) idle fires_due)
            | inr busy ↦
                subst (λ u. All (IsSpent id) u.st.jobs) (ap (λ r. r.1) (rw busy at did))
                  (rw (save_locked-st files d (advanced calendar files now d t))
                    (advance-fired calendar id now (due now t.st.jobs) t.st.jobs fires_due once))
          ]

  -- A tick that finds the job spent.
  spent-due :
      (future : ℕ) (d d' : D) (s s' : Service) (again : List Job)
      → Kept files id d s
      → begin_tick calendar files future d s ≡ (d', s', ok again)
      → has_id id again ≡ false
  unfolding begin_tick
  spent-due future d d' s s' again kept did =
      by_load (load_locked files d s) (load_locked-All files id d s kept) did
    where
      by_load :
          (r : Service × Option String)
          → All (IsSpent id) r.0.st.jobs
          → ◌≡◌ {A = Ends D (List Job)}
              (loaded d r (after_load calendar files future d))
              (d', s', ok again)
          → has_id id again ≡ false
      by_load (t, some e) h did = absurd (cc (ap (λ r. r.2) did))
      by_load (t, none) h did =
          ap (has_id id) (sym (after_load-due calendar files future d d' t s' again did))
          ∙ due-spent calendar id future t.st.jobs h

  -- If a tick fires a one-shot job, and the file then has the service's store, no later tick fires
  -- a job with its identifier, whatever sections the service runs in between, in whatever order,
  -- those that read the file again, and those whose save fails, included; unless `EnableJob` enables
  -- the job, `AddJob` gives its identifier again, or something else writes the file. The decoder
  -- has to read what the encoder writes.
  pub begin_tick-fires_once :
      (now future : ℕ) (d d' d2 d3 : D) (s s' s2 s3 : Service) (fired again : List Job)
      → begin_tick calendar files now d s ≡ (d', s', ok fired)
      → has_id id fired ≡ true
      → All (IsOneShot id) (load_locked files d s).0.st.jobs
      → IsSaved files d' s'
      → Sections calendar files id d' s' d2 s2
      → begin_tick calendar files future d2 s2 ≡ (d3, s3, ok again)
      → has_id id again ≡ false
  begin_tick-fires_once now future d d' d2 d3 s s' s2 s3 fired again did fires once saved_it
        sections did_again =
      spent-due future d2 d3 s2 s3 again
        (Sections-Kept d' s' d2 s2 sections (record { memory = spent; file = in_file })) did_again
    where
      spent : All (IsSpent id) s'.st.jobs
      spent = fired-All now d d' s s' fired did fires once

      in_file : FileIsSpent files id (files.read_file d')
      in_file =
          FileIsSpent-encode files lawful reads id s'.st saved_it.bytes (files.read_file d')
            saved_it.encoded saved_it.written spent
