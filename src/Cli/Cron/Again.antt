-- ===== src/Cli/Cron/Again.antt =====
-- A second tick at the time of the first.
use blades.Common.{
  ℕ, ◌≡◌, ◌⊎◌, not, if◌then◌else◌, refl, ap, sym, ◌∙◌, Bool-cases, inl, inr, ◌==◌, String, List, [],
  Option, none, some, ok, All,
}
use blades.Cli.Cron.{Job, Calendar, IsCalendar}
use blades.Cli.Cron.Sections.{due}
use blades.Cli.Cron.Store.{
  Store, StoreFiles, Service, decode_store, forget, load_bytes, load_locked,
}
use blades.Cli.Cron.Service.{Ends, loaded}
use blades.Cli.Cron.Ticks.{begin_tick}
use blades.Cli.Cron.Failing.{Reads}
use blades.Cli.Cron.Later.{Fits}
use blades.Cli.Cron.Firing.{after_load, after_load-due, begin_tick-due}
use blades.Cli.Cron.Reload.{with_version-jobs}
use blades.Cli.Cron.Refired.{IsSaved}

module _ {D B : Type 0} (files : StoreFiles D B) (s : Service)
    (reads : (st : Store) → Reads files st) where
  forget-st :
      (mtime : Option ℕ)
      → ((forget files mtime s).st ≡ s.st) ⊎ ((forget files mtime s).st.version ≡ 0)
  forget-st none = inl refl
  forget-st (some mtime) = elim (Bool-cases (mtime == s.last_mtime)) [
    | inl same ↦ rw same (inl refl)
    | inr other ↦ rw other (inr refl)
  ]

  load_bytes-IsSaved :
      (d : D) (t : Service)
      → IsSaved files d s
      → (load_bytes files (files.read_file d) t).0.st.jobs ≡ s.st.jobs
  unfolding load_bytes decode_store
  load_bytes-IsSaved d t saved_it =
      rw
        (
          saved_it.written,
          load_bytes,
          (reads s.st).not_blank saved_it.bytes saved_it.encoded,
          decode_store,
          (reads s.st).unmarshal-encode saved_it.bytes saved_it.encoded,
        )
        (with_version-jobs files s.st)

  -- Whether or not the file is read again, the jobs are those of the service.
  load_locked-IsSaved : (d : D) → IsSaved files d s → (load_locked files d s).0.st.jobs ≡ s.st.jobs
  unfolding load_locked
  load_locked-IsSaved d saved_it =
      by_version (forget files (files.stat d) s) (forget-st (files.stat d))
    where
      by_version :
          (t : Service)
          → (t.st ≡ s.st) ⊎ (t.st.version ≡ 0)
          → (if not (t.st.version == 0)
              then (t, none)
              else load_bytes files (files.read_file d) t).0.st.jobs
            ≡ s.st.jobs
      by_version t (inr unloaded) = rw unloaded (load_bytes-IsSaved d _ saved_it)
      by_version t (inl same) = elim (Bool-cases (t.st.version == 0)) [
        | inl unloaded ↦ rw unloaded (load_bytes-IsSaved d _ saved_it)
        | inr current ↦ rw current (ap (λ st. st.jobs) same)
      ]

module _ {L S D B : Type 0} (calendar : Calendar L S) (lawful : IsCalendar calendar)
    (files : StoreFiles D B) (reads : (st : Store) → Reads files st) where
  -- If the file has the service's store after a tick, a second tick at the same time fires nothing,
  -- whether or not it reads the file again, if no interval overflows, the calendar's next times are
  -- later, and the decoder reads what the encoder writes.
  pub begin_tick-again :
      (now : ℕ) (d d' d'' : D) (s s' s'' : Service) (fired again : List Job)
      → begin_tick calendar files now d s ≡ (d', s', ok fired)
      → All (λ j. Fits j.schedule.every_ms) (load_locked files d s).0.st.jobs
      → IsSaved files d' s'
      → begin_tick calendar files now d' s' ≡ (d'', s'', ok again)
      → again ≡ []
  unfolding begin_tick
  begin_tick-again now d d' d'' s s' s'' fired again did small saved_it did_again =
      by_load (load_locked files d' s') (load_locked-IsSaved files s' reads d' saved_it) did_again
    where
      rests : due now s'.st.jobs ≡ []
      rests = begin_tick-due calendar lawful files now d d' s s' fired did small

      by_load :
          (r : Service × Option String)
          → r.0.st.jobs ≡ s'.st.jobs
          → ◌≡◌ {A = Ends D (List Job)}
              (loaded d' r (after_load calendar files now d'))
              (d'', s'', ok again)
          → again ≡ []
      by_load (t, some e) same did_again = absurd (cc (ap (λ r. r.2) did_again))
      by_load (t, none) same did_again =
          sym (after_load-due calendar files now d' d'' t s'' again did_again)
          ∙ ap (due now) same
          ∙ rests
