-- ===== src/Cli/Cron/Firing.antt =====
-- What a tick leaves.
use blades.Common.{
  ℕ, ◌≡◌, refl, ap, subst, String, true, ◌==◌, Bool-cases, inl, inr, Option, none, some, ok, List,
  [], ◌∷◌, length, if◌then◌else◌, All, arith,
}
use blades.Cli.Cron.{Job, Calendar, IsCalendar}
use blades.Cli.Cron.Sections.{due, advance}
use blades.Cli.Cron.Store.{StoreFiles, Service, load_locked, save_locked}
use blades.Cli.Cron.Service.{Ends, loaded, set_jobs}
use blades.Cli.Cron.Ticks.{begin_tick}
use blades.Cli.Cron.Saving.{save_locked-st}
use blades.Cli.Cron.Later.{Fits, due-advance-due}

module _ {L S D B : Type 0} (calendar : Calendar L S) (files : StoreFiles D B) (now : ℕ)
    (d : D) where
  abbrev pub advanced : Service → Service
  advanced t = set_jobs (advance calendar now (due now t.st.jobs) t.st.jobs) t

  -- `tick` after it has loaded the store.
  abbrev pub after_load : Service → Ends D (List Job)
  after_load t =
      let (d1, s1, error) = save_locked files d (advanced t) in
      if length (due now t.st.jobs) == 0
      then (d, t, ok (due now t.st.jobs))
      else (d1, s1, ok (due now t.st.jobs))

module _ {L S D B : Type 0} (calendar : Calendar L S) (files : StoreFiles D B) where
  -- A tick hands out the due jobs.
  pub after_load-due :
      (now : ℕ) (d d' : D) (t s' : Service) (fired : List Job)
      → after_load calendar files now d t ≡ (d', s', ok fired)
      → due now t.st.jobs ≡ fired
  after_load-due now d d' t s' fired did = elim (Bool-cases (length (due now t.st.jobs) == 0)) [
    | inl idle ↦ cc (ap (λ r. r.2) (rw idle at did))
    | inr busy ↦ cc (ap (λ r. r.2) (rw busy at did))
  ]

module _ {L S D B : Type 0} (calendar : Calendar L S) (lawful : IsCalendar calendar)
    (files : StoreFiles D B) where
  -- When a tick releases the mutex and has its due jobs, none of the jobs in the service's list is
  -- due at the time of the tick, if no interval overflows and the calendar's next times are later.
  pub begin_tick-due :
      (now : ℕ) (d d' : D) (s s' : Service) (fired : List Job)
      → begin_tick calendar files now d s ≡ (d', s', ok fired)
      → All (λ j. Fits j.schedule.every_ms) (load_locked files d s).0.st.jobs
      → due now s'.st.jobs ≡ []
  unfolding begin_tick
  begin_tick-due now d d' s s' fired did small = by_load (load_locked files d s) small did
    where
      nothing : (jobs : List Job) → (length jobs == 0) ≡ true → jobs ≡ []
      nothing [] h = refl
      nothing (j ∷ jobs) h = absurd (ground (arith, h))

      by_load :
          (r : Service × Option String)
          → All (λ j. Fits j.schedule.every_ms) r.0.st.jobs
          → ◌≡◌ {A = Ends D (List Job)}
              (loaded d r (after_load calendar files now d))
              (d', s', ok fired)
          → due now s'.st.jobs ≡ []
      by_load (t, some e) small did = absurd (cc (ap (λ r. r.2) did))
      by_load (t, none) small did = elim (Bool-cases (length (due now t.st.jobs) == 0)) [
        | inl idle ↦
            subst (λ u. due now u.st.jobs ≡ []) (ap (λ r. r.1) (rw idle at did))
              (nothing (due now t.st.jobs) idle)
        | inr busy ↦
            subst (λ u. due now u.st.jobs ≡ []) (ap (λ r. r.1) (rw busy at did))
              (rw (save_locked-st files d (advanced calendar files now d t))
                (due-advance-due calendar lawful now t.st.jobs small))
      ]
