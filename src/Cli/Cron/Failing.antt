-- ===== src/Cli/Cron/Failing.antt =====
-- A job that could not be saved, and a store that was.
use blades.Common.{
  ℕ, ◌≡◌, ◌≢◌, refl, sym, ap, ◌∙◌, String, Bool, true, false, ◌==◌, Bool-cases, inl, inr, Option,
  none, some, err, [], ◌∷◌, ◌++◌, if◌then◌else◌, arith, subst,
}
use blades.Cli.Files.{found}
use blades.Cli.Cron.{Schedule, Payload, Job, Calendar, compute_next_run}
use blades.Cli.Cron.Store.{
  Store, no_store, StoreFiles, Service, decode_store, forget, load_bytes, load_locked, save_locked,
}
use blades.Cli.Cron.Service.{
  save_failed, no_future_run, Ends, loaded, saved, new_job, add_job, set_jobs, arm_timer, know,
}
use blades.Cli.Cron.Saving.{IsStoreFiles, IsAtomic, save_locked-st, save_locked-IsAtomic}

module _ {L S D B : Type 0} (calendar : Calendar L S) (files : StoreFiles D B)
    (lower trim_space : String → String) where
  -- When `AddJob` fails because its save does, the job that it has not added is the last of the
  -- service's jobs.
  pub add_job-save_failed :
      (id name : String) (schedule : Schedule) (payload : Payload) (delete_after_run : Bool)
      (now later : ℕ) (d d' : D) (s s' : Service) (error : String)
      → add_job calendar files lower trim_space id name schedule payload delete_after_run now later
          d s
        ≡ (d', s', err (save_failed error))
      → s'.st.jobs
        ≡ (load_locked files d s).0.st.jobs
          ++ new_job calendar lower trim_space id name schedule payload delete_after_run now ∷ []
  unfolding add_job
  add_job-save_failed id name schedule payload delete_after_run now later d d' s s' error did =
      by_load (load_locked files d s) did
    where
      job : Job
      job = new_job calendar lower trim_space id name schedule payload delete_after_run now

      by_save :
          (t : Service) (r : D × Service × Option String)
          → r.1.st ≡ (set_jobs (t.st.jobs ++ job ∷ []) t).st
          → ◌≡◌ {A = Ends D Job}
              (saved r (λ s. (arm_timer later (know job.id s), job)))
              (d', s', err (save_failed error))
          → s'.st.jobs ≡ t.st.jobs ++ job ∷ []
      by_save t (d1, s1, none) same did = absurd (cc (ap (λ r. r.2) did))
      by_save t (d1, s1, some e) same did =
          ap (λ s. s.st.jobs) (sym (ap (λ r. r.1) did)) ∙ ap (λ st. st.jobs) same

      by_load :
          (r : Service × Option String)
          → ◌≡◌ {A = Ends D Job}
              (loaded d r (λ s.
                if compute_next_run calendar schedule now == 0
                then (d, s, err (no_future_run schedule.kind))
                else saved
                    (save_locked files d (set_jobs (s.st.jobs ++ job ∷ []) s))
                    (λ s. (arm_timer later (know job.id s), job))))
              (d', s', err (save_failed error))
          → s'.st.jobs ≡ r.0.st.jobs ++ job ∷ []
      by_load (t, some e) did = absurd (cc (ap (λ r. r.2) did))
      by_load (t, none) did = elim (Bool-cases (compute_next_run calendar schedule now == 0)) [
        | inl never ↦ absurd (cc (ap (λ r. r.2) (rw never at did)))
        | inr future ↦
            by_save t (save_locked files d (set_jobs (t.st.jobs ++ job ∷ []) t))
              (save_locked-st files d (set_jobs (t.st.jobs ++ job ∷ []) t)) (rw future at did)
      ]

-- The decoder for the file's name reads what the encoder has written of the store, which is not
-- blank.
pub record Reads {D B : Type 0} (files : StoreFiles D B) (st : Store) : Type 0 where
  pub not_blank : (bytes : B) → files.encode st ≡ some bytes → files.is_blank bytes ≡ false
  pub unmarshal-encode :
      (bytes : B) → files.encode st ≡ some bytes → files.unmarshal bytes no_store ≡ (st, true)

module _ {D B : Type 0} (files : StoreFiles D B) (lawful : IsStoreFiles files) where
  forget-version :
      (mtime : Option ℕ) (s : Service) → s.st.version ≡ 0 → (forget files mtime s).st.version ≡ 0
  forget-version none s zeroed = zeroed
  forget-version (some mtime) s zeroed = elim (Bool-cases (mtime == s.last_mtime)) [
    | inl same ↦ rw same zeroed
    | inr other ↦ rw other refl
  ]

  -- A service that starts after a save has succeeded loads the store that was saved, if the decoder
  -- reads what the encoder has written of it.
  pub load_locked-save_locked :
      (d d' : D) (s s' t : Service)
      → save_locked files d s ≡ (d', s', none)
      → Reads files s.st
      → s.st.version ≢ 0
      → t.st.version ≡ 0
      → (load_locked files d' t).0.st ≡ s.st
  unfolding load_locked decode_store
  load_locked-save_locked d d' s s' t did reads versioned unloaded =
      rw
        (
          load_locked,
          forget-version (files.stat d') t unloaded,
          atomic.2,
          load_bytes,
          reads.not_blank atomic.0 atomic.1,
          decode_store,
          reads.unmarshal-encode atomic.0 atomic.1,
          kept,
        )
        refl
    where
      atomic : (bytes : B) × (files.encode s.st ≡ some bytes) × (files.read_file d' ≡ found bytes)
      atomic = subst (IsAtomic files d s.st) did (save_locked-IsAtomic files lawful d s)

      kept : (s.st.version == 0) ≡ false
      kept = ground (arith, versioned)
