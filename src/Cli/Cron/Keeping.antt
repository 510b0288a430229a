-- ===== src/Cli/Cron/Keeping.antt =====
-- What the sections of service.go that need no calendar do to a one-shot job that has been fired.
use blades.Common.{
  ℕ, ◌≡◌, refl, sym, subst, Bool, true, false, Bool-cases, inl, inr, ◌==◌, String, List, Option,
  none, some, ok, err, if◌then◌else◌, length, All, ◌∙◌,
}
use blades.Common.StringMap.{insert, delete}
use blades.Cli.Cron.{Job}
use blades.Cli.Cron.Sections.{remove_job_slice, first_job}
use blades.Cli.Cron.Store.{Store, no_store, StoreFiles, Service, load_locked, save_locked}
use blades.Cli.Cron.Service.{
  not_found, Ends, saved, set_jobs, arm_timer, know, unknow, remove_job, list_jobs, merge_ids,
  reloaded, job_id_set,
}
use blades.Cli.Cron.Ticks.{find_job, start_service, watch}
use blades.Cli.Cron.Saving.{IsStoreFiles}
use blades.Cli.Cron.Failing.{Reads}
use blades.Cli.Cron.Once.{IsSpent, remove_job_slice-All}
use blades.Cli.Cron.Reload.{Kept, load_locked-All, save_locked-Kept, loaded-Kept, saved-Kept}

pub arm_timer-st : (now : ℕ) (s : Service) → (arm_timer now s).st ≡ s.st
unfolding arm_timer
arm_timer-st now s = refl

pub know-st : (id : String) (s : Service) → (know id s).st ≡ s.st
know-st id s = by_ids s.known_ids
  where
    by_ids :
        (known : Option (List (String × Unit {0})))
        → (elim known as (λ _. Service) [
          | none ↦ s
          | some ids ↦ record s { known_ids = some (insert id tt ids) }
        ]).st
          ≡ s.st
    by_ids none = refl
    by_ids (some ids) = refl

unknow-st : (id : String) (s : Service) → (unknow id s).st ≡ s.st
unknow-st id s = by_ids s.known_ids
  where
    by_ids :
        (known : Option (List (String × Unit {0})))
        → (elim known as (λ _. Service) [
          | none ↦ s
          | some ids ↦ record s { known_ids = some (delete id ids) }
        ]).st
          ≡ s.st
    by_ids none = refl
    by_ids (some ids) = refl

merge_ids-st : (jobs : List Job) (s : Service) → (merge_ids jobs s).st ≡ s.st
merge_ids-st jobs s = by_ids s.known_ids
  where
    by_ids :
        (known : Option (List (String × Unit {0})))
        → (elim known as (λ _. Service) [
          | none ↦ s
          | some ids ↦ record s { known_ids = some (job_id_set jobs ids) }
        ]).st
          ≡ s.st
    by_ids none = refl
    by_ids (some ids) = refl

module _ {D B : Type 0} (files : StoreFiles D B) (lawful : IsStoreFiles files)
    (reads : (st : Store) → Reads files st) (id : String) where
  pub find_job-Kept :
      (other : String) (d : D) (s : Service)
      → Kept files id d s
      → Kept files id (find_job files other d s).0 (find_job files other d s).1
  unfolding find_job
  find_job-Kept other d s kept =
      loaded-Kept files lawful reads id d s _ kept (λ t h. by_first t h (first_job other t.st.jobs))
    where
      by_first :
          (t : Service)
          → Kept files id d t
          → (first : Option Job)
          → Kept files id
              (elim first as (λ _. Ends D Job) [
                | none ↦ (d, t, err (not_found other))
                | some job ↦ (d, t, ok job)
              ]).0
              (elim first as (λ _. Ends D Job) [
                | none ↦ (d, t, err (not_found other))
                | some job ↦ (d, t, ok job)
              ]).1
      by_first t h none = h
      by_first t h (some job) = h

  pub list_jobs-Kept :
      (sort : (Job → Job → Bool) → List Job → List Job) (all_jobs : Bool) (d : D) (s : Service)
      → Kept files id d s
      → Kept files id (list_jobs files sort all_jobs d s).0 (list_jobs files sort all_jobs d s).1
  unfolding list_jobs
  list_jobs-Kept sort all_jobs d s kept = loaded-Kept files lawful reads id d s _ kept (λ t h. h)

  pub start_service-Kept :
      (now : ℕ) (d : D) (s : Service)
      → Kept files id d s
      → Kept files id (start_service files now d s).0 (start_service files now d s).1
  unfolding start_service arm_timer
  start_service-Kept now d s kept =
      loaded-Kept files lawful reads id d s _ kept
        (λ t h. record { memory = h.memory; file = h.file })

  pub watch-Kept :
      (now : ℕ) (d : D) (s : Service) → Kept files id d s → Kept files id d (watch files now d s)
  unfolding watch
  watch-Kept now d s kept = record {
    memory =
        by_load (load_locked files d emptied)
          (load_locked-All files id d emptied (record { memory = tt; file = kept.file }));
    file = kept.file;
  }
    where
      emptied : Service
      emptied = record s { st = no_store }

      by_load :
          (r : Service × Option String)
          → All (IsSpent id) r.0.st.jobs
          → All (IsSpent id) (reloaded now r).st.jobs
      by_load (t, some error) h = h
      by_load (t, none) h =
          subst (λ st. All (IsSpent id) st.jobs)
            (sym (arm_timer-st now (merge_ids t.st.jobs t) ∙ merge_ids-st t.st.jobs t)) h

  pub remove_job-Kept :
      (other : String) (later : ℕ) (d : D) (s : Service)
      → Kept files id d s
      → Kept files id (remove_job files other later d s).0 (remove_job files other later d s).1
  unfolding remove_job
  remove_job-Kept other later d s kept = loaded-Kept files lawful reads id d s _ kept by_count
    where
      fewer : Service → Service
      fewer t = set_jobs (remove_job_slice other t.st.jobs) t

      result : Service → Ends D Bool
      result t =
          if length (remove_job_slice other t.st.jobs) == length t.st.jobs
          then (d, fewer t, ok false)
          else saved (save_locked files d (unknow other (fewer t))) (λ s. (arm_timer later s, true))

      by_count : (t : Service) → Kept files id d t → Kept files id (result t).0 (result t).1
      by_count t h =
          let rest = remove_job_slice-All (IsSpent id) other t.st.jobs h.memory in
          elim (Bool-cases (length (remove_job_slice other t.st.jobs) == length t.st.jobs)) [
            | inl same ↦ rw same (record { memory = rest; file = h.file })
            | inr shorter ↦ rw shorter (
                saved-Kept files lawful reads id _ _
                  (save_locked-Kept files lawful reads id d (unknow other (fewer t))
                    (subst (λ st. All (IsSpent id) st.jobs) (sym (unknow-st other (fewer t))) rest)
                    h.file)
                  (arm_timer-st later))
          ]
