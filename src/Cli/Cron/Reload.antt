-- ===== src/Cli/Cron/Reload.antt =====
-- The sections of service.go with the file, which a section may read again: a one-shot job that a
-- tick has fired, and saved, is fired by no later tick.
use blades.Common.{
  ℕ, ◌≡◌, ◌≢◌, ◌⊎◌, inl, inr, refl, sym, subst, Bool, false, Bool-cases, ◌==◌, String, List, Option,
  none, some, Result, All,
}
use blades.Cli.Files.{Read, found, missing, unreadable}
use blades.Cli.Cron.{Schedule, Payload, Job, Calendar}
use blades.Cli.Cron.Store.{
  Store, StoreFiles, Service, decode_store, forget, decoded, with_version, load_bytes, load_locked,
  save_locked,
}
use blades.Cli.Cron.Service.{
  Ends, loaded, saved, add_job, remove_job, arm_timer, enable_job, list_jobs, stop_service,
}
use blades.Cli.Cron.Ticks.{find_job, start_service, watch, finish_run, begin_tick}
use blades.Cli.Cron.Saving.{IsStoreFiles, IsAtomic, save_locked-st, save_locked-IsAtomic}
use blades.Cli.Cron.Failing.{Reads}
use blades.Cli.Cron.Once.{IsSpent}

module _ {L S D B : Type 0} (calendar : Calendar L S) (files : StoreFiles D B) (id : String) where
  -- The critical sections of the service, each of which holds the mutex; nothing else writes the
  -- file. `RunNow` is `found_job` and `recorded`; `armed` is the end of a tick. `EnableJob` may not
  -- enable the job with the identifier, and a new job has another identifier.
  pub data Section (d : D) (s : Service) : D → Service → Type 0 where
    ticked :
        (now : ℕ)
        → Section d s (begin_tick calendar files now d s).0 (begin_tick calendar files now d s).1
    recorded :
        (other : String) (start_at later : ℕ) (result : Result (String × String) String)
        → Section d s
            (finish_run calendar files other start_at later result d s).0
            (finish_run calendar files other start_at later result d s).1
    watched : (now : ℕ) → Section d s d (watch files now d s)
    started :
        (now : ℕ) → Section d s (start_service files now d s).0 (start_service files now d s).1
    stopped : Section d s d (stop_service s)
    armed : (now : ℕ) → Section d s d (arm_timer now s)
    found_job :
        (other : String) → Section d s (find_job files other d s).0 (find_job files other d s).1
    listed_jobs :
        (sort : (Job → Job → Bool) → List Job → List Job) (all_jobs : Bool)
        → Section d s (list_jobs files sort all_jobs d s).0 (list_jobs files sort all_jobs d s).1
    removed :
        (other : String) (later : ℕ)
        → Section d s (remove_job files other later d s).0 (remove_job files other later d s).1
    added :
        (lower trim_space : String → String) (other name : String) (schedule : Schedule)
        (payload : Payload) (delete_after_run : Bool) (now later : ℕ)
        → other ≢ id
        → Section d s
            (add_job calendar files lower trim_space other name schedule payload delete_after_run
              now later d s).0
            (add_job calendar files lower trim_space other name schedule payload delete_after_run
              now later d s).1
    switched :
        (other : String) (enable : Bool) (now later : ℕ)
        → (other ≢ id) ⊎ (enable ≡ false)
        → Section d s
            (enable_job calendar files other enable now later d s).0
            (enable_job calendar files other enable now later d s).1

  pub data Sections (d : D) (s : Service) : D → Service → Type 0 where
    no_section : Sections d s d s
    then_section :
        {d' d'' : D} {s' s'' : Service}
        → Sections d s d' s'
        → Section d' s' d'' s''
        → Sections d s d'' s''

module _ {D B : Type 0} (files : StoreFiles D B) (id : String) where
  -- What a load makes of the file.
  abbrev pub FileIsSpent : Read B → Type 0
  FileIsSpent missing = Unit
  FileIsSpent (unreadable error) = Unit
  FileIsSpent (found bytes) = All (IsSpent id) (decoded files (decode_store files bytes)).jobs

  -- The job is spent in the service's list and in the file.
  pub record Kept (d : D) (s : Service) : Type 0 where
    pub memory : All (IsSpent id) s.st.jobs
    pub file : FileIsSpent (files.read_file d)

  forget-All :
      (mtime : Option ℕ) (s : Service)
      → All (IsSpent id) s.st.jobs
      → All (IsSpent id) (forget files mtime s).st.jobs
  forget-All none s h = h
  forget-All (some mtime) s h = elim (Bool-cases (mtime == s.last_mtime)) [
    | inl same ↦ rw same h
    | inr other ↦ rw other tt
  ]

  load_bytes-All :
      (r : Read B) (s : Service)
      → FileIsSpent r
      → All (IsSpent id) s.st.jobs
      → All (IsSpent id) (load_bytes files r s).0.st.jobs
  unfolding load_bytes
  load_bytes-All missing s file h = tt
  load_bytes-All (unreadable error) s file h = h
  load_bytes-All (found bytes) s file h = elim (Bool-cases (files.is_blank bytes)) [
    | inl blank ↦ rw (load_bytes, blank) tt
    | inr full ↦ rw (load_bytes, full) file
  ]

  pub load_locked-All :
      (d : D) (s : Service) → Kept d s → All (IsSpent id) (load_locked files d s).0.st.jobs
  unfolding load_locked
  load_locked-All d s kept = elim (Bool-cases ((forget files (files.stat d) s).st.version == 0)) [
    | inl unloaded ↦
        rw (load_locked, unloaded)
          (load_bytes-All (files.read_file d) (forget files (files.stat d) s) kept.file
            (forget-All (files.stat d) s kept.memory))
    | inr current ↦ rw (load_locked, current) (forget-All (files.stat d) s kept.memory)
  ]

module _ {D B : Type 0} (files : StoreFiles D B) where
  pub with_version-jobs : (st : Store) → (with_version files st).jobs ≡ st.jobs
  with_version-jobs st = elim (Bool-cases (st.version == 0)) [
    | inl unversioned ↦ rw unversioned refl
    | inr versioned ↦ rw versioned refl
  ]

module _ {D B : Type 0} (files : StoreFiles D B) (lawful : IsStoreFiles files)
    (reads : (st : Store) → Reads files st) (id : String) where
  -- The file that has the encoded store.
  pub FileIsSpent-encode :
      (st : Store) (bytes : B) (r : Read B)
      → files.encode st ≡ some bytes
      → r ≡ found bytes
      → All (IsSpent id) st.jobs
      → FileIsSpent files id r
  unfolding decode_store
  FileIsSpent-encode st bytes r encoded has h = subst (FileIsSpent files id) (sym has) (
      rw (decode_store, (reads st).unmarshal-encode bytes encoded)
        (subst (All (IsSpent id)) (sym (with_version-jobs files st)) h))

  -- A save that fails leaves the file.
  pub save_locked-Kept :
      (d : D) (s : Service)
      → All (IsSpent id) s.st.jobs
      → FileIsSpent files id (files.read_file d)
      → Kept files id (save_locked files d s).0 (save_locked files d s).1
  save_locked-Kept d s h file =
      by_save (save_locked files d s) (save_locked-st files d s)
        (save_locked-IsAtomic files lawful d s)
    where
      by_save :
          (r : D × Service × Option String)
          → r.1.st ≡ s.st
          → IsAtomic files d s.st r
          → Kept files id r.0 r.1
      by_save (d', s', some error) same atomic = record {
        memory = subst (λ st. All (IsSpent id) st.jobs) (sym same) h;
        file = subst (FileIsSpent files id) (sym atomic) file;
      }
      by_save (d', s', none) same atomic = record {
        memory = subst (λ st. All (IsSpent id) st.jobs) (sym same) h;
        file = FileIsSpent-encode s.st atomic.0 (files.read_file d') atomic.1 atomic.2 h;
      }

  pub loaded-Kept :
      {A : Type 0} (d : D) (s : Service) (rest : Service → Ends D A)
      → Kept files id d s
      → ((t : Service) → Kept files id d t → Kept files id (rest t).0 (rest t).1)
      → Kept files id
          (loaded d (load_locked files d s) rest).0
          (loaded d (load_locked files d s) rest).1
  loaded-Kept {A} d s rest kept go =
      by_load (load_locked files d s) (load_locked-All files id d s kept)
    where
      by_load :
          (r : Service × Option String)
          → All (IsSpent id) r.0.st.jobs
          → Kept files id (loaded {A = A} d r rest).0 (loaded {A = A} d r rest).1
      by_load (t, none) h = go t (record { memory = h; file = kept.file })
      by_load (t, some error) h = record { memory = h; file = kept.file }

  pub saved-Kept :
      {A : Type 0} (r : D × Service × Option String) (rest : Service → Service × A)
      → Kept files id r.0 r.1
      → ((t : Service) → (rest t).0.st ≡ t.st)
      → Kept files id (saved {D = D} {A = A} r rest).0 (saved {D = D} {A = A} r rest).1
  saved-Kept (d, s, none) rest kept same = record {
    memory = subst (λ st. All (IsSpent id) st.jobs) (sym (same s)) kept.memory;
    file = kept.file;
  }
  saved-Kept (d, s, some error) rest kept same = kept
