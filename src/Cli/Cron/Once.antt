-- ===== src/Cli/Cron/Once.antt =====
-- What the critical sections do to a one-shot job that has been fired.
use blades.Common.{
  ℕ, ◌≡◌, ◌≢◌, ◌⊎◌, inl, inr, refl, Bool, true, false, Bool-cases, String, str_eq, eq_iff, List, [],
  ◌∷◌, Option, none, some, Result, ok, err, sym, ◌∙◌, if◌then◌else◌, arith, All,
}
use blades.Cli.Cron.{Job, Calendar, schedule_at, compute_next_run}
use blades.Cli.Cron.Sections.{
  is_due, due, has_id, reschedule, advance, plan, note, remove_job_slice, change_first, first_job,
  record_run, enable_first,
}

-- A job with the identifier is of the kind `at`.
abbrev pub IsOneShot : String → Job → Type 0
IsOneShot id j = j.id ≡ id → j.schedule.kind ≡ schedule_at

-- And it is disabled.
abbrev pub IsSpent : String → Job → Type 0
IsSpent id j = j.id ≡ id → (j.schedule.kind ≡ schedule_at) × (j.enabled ≡ false)

module _ (P : Job → Type 0) where
  pub change_first-All :
      (id : String) (f : Job → Job) (jobs : List Job)
      → ((j : Job) → P j → P (f j))
      → All P jobs
      → All P (change_first id f jobs)
  unfolding change_first
  change_first-All id f [] g h = tt
  change_first-All id f (j ∷ jobs) g (p, h) = elim (Bool-cases (str_eq j.id id)) [
    | inl same ↦ rw (change_first, same) (g j p, h)
    | inr other ↦ rw (change_first, other) (p, change_first-All id f jobs g h)
  ]

  pub remove_job_slice-All :
      (id : String) (jobs : List Job) → All P jobs → All P (remove_job_slice id jobs)
  unfolding remove_job_slice
  remove_job_slice-All id [] h = tt
  remove_job_slice-All id (j ∷ jobs) (p, h) = elim (Bool-cases (str_eq j.id id)) [
    | inl same ↦ rw (remove_job_slice, same) (remove_job_slice-All id jobs h)
    | inr other ↦ rw (remove_job_slice, other) (p, remove_job_slice-All id jobs h)
  ]

module _ {L S : Type 0} (calendar : Calendar L S) (id : String) where
  reschedule-IsSpent : (now : ℕ) (j : Job) → IsOneShot id j → IsSpent id (reschedule calendar now j)
  reschedule-IsSpent now j once = elim (Bool-cases (str_eq j.schedule.kind schedule_at)) [
    | inl at ↦ rw at (λ same. (once same, refl))
    | inr other ↦
        rw other
          (λ same. absurd (ground (arith, other, once same, eq_iff j.schedule.kind schedule_at)))
  ]

  IsOneShot-spent : (j : Job) → IsSpent id j → IsOneShot id j
  IsOneShot-spent j h same = (h same).0

  pub advance-IsSpent :
      (now : ℕ) (fired jobs : List Job)
      → All (IsSpent id) jobs
      → All (IsSpent id) (advance calendar now fired jobs)
  unfolding advance
  advance-IsSpent now fired [] h = tt
  advance-IsSpent now fired (j ∷ jobs) (p, h) = elim (Bool-cases (has_id j.id fired)) [
    | inl fires ↦
        rw (advance, fires)
          (reschedule-IsSpent now j (IsOneShot-spent j p), advance-IsSpent now fired jobs h)
    | inr stays ↦ rw (advance, stays) (p, advance-IsSpent now fired jobs h)
  ]

  -- The tick that fires the job disables it.
  pub advance-fired :
      (now : ℕ) (fired jobs : List Job)
      → has_id id fired ≡ true
      → All (IsOneShot id) jobs
      → All (IsSpent id) (advance calendar now fired jobs)
  unfolding advance
  advance-fired now fired [] fires h = tt
  advance-fired now fired (j ∷ jobs) fires (p, h) = elim (Bool-cases (has_id j.id fired)) [
    | inl hit ↦ rw (advance, hit) (reschedule-IsSpent now j p, advance-fired now fired jobs fires h)
    | inr missed ↦
        rw (advance, missed)
          ((λ same. absurd (other missed same)), advance-fired now fired jobs fires h)
  ]
    where
      other : has_id j.id fired ≡ false → j.id ≡ id → ⊥
      other missed same = cc

  pub record_run-IsSpent :
      (other : String) (start_at later : ℕ) (result : Result (String × String) String)
      (jobs : List Job)
      → All (IsSpent id) jobs
      → All (IsSpent id) (record_run calendar other start_at later result jobs)
  unfolding record_run
  record_run-IsSpent other start_at later result jobs h = by_first (first_job other jobs)
    where
      noted :
          (j : Job)
          → IsSpent id j
          → IsSpent id (reschedule calendar later (note start_at later result j))
      noted j p = reschedule-IsSpent later (note start_at later result j) (by_result result)
        where
          by_result : (r : Result (String × String) String) → IsOneShot id (note start_at later r j)
          by_result (ok output) = IsOneShot-spent j p
          by_result (err (output, error)) = IsOneShot-spent j p

      by_first :
          (first : Option Job)
          → All (IsSpent id) (elim first as (λ _. List Job) [
            | none ↦ jobs
            | some j ↦
                if j.delete_after_run
                then remove_job_slice other jobs
                else change_first other
                    (λ k. reschedule calendar later (note start_at later result k))
                    jobs
          ])
      by_first none = h
      by_first (some j) = elim (Bool-cases j.delete_after_run) [
        | inl deletes ↦ rw deletes (remove_job_slice-All (IsSpent id) other jobs h)
        | inr keeps ↦ rw keeps (
            change_first-All (IsSpent id) other
              (λ k. reschedule calendar later (note start_at later result k)) jobs noted h)
      ]

  pub enable_first-IsSpent :
      (other : String) (enable : Bool) (now : ℕ) (jobs : List Job)
      → (other ≢ id) ⊎ (enable ≡ false)
      → All (IsSpent id) jobs
      → All (IsSpent id) (enable_first calendar other enable now jobs)
  unfolding enable_first change_first
  enable_first-IsSpent other enable now [] allowed h = tt
  enable_first-IsSpent other enable now (j ∷ jobs) allowed (p, h) =
      elim (Bool-cases (str_eq j.id other)) [
        | inr miss ↦
            rw (enable_first, change_first, miss)
              (p, enable_first-IsSpent other enable now jobs allowed h)
        | inl hit ↦ rw (enable_first, change_first, hit) (by_permission hit allowed, h)
      ]
    where
      by_permission :
          str_eq j.id other ≡ true
          → (other ≢ id) ⊎ (enable ≡ false)
          → IsSpent id (
              plan
                (if enable then compute_next_run calendar j.schedule now else 0)
                (record j { enabled = enable; updated_at = now }))
      by_permission hit (inl apart) =
          λ same. absurd (apart (sym ((eq_iff j.id other).0 hit) ∙ same))
      by_permission hit (inr disables) = λ same. ((p same).0, disables)

  pub due-spent :
      (now : ℕ) (jobs : List Job) → All (IsSpent id) jobs → has_id id (due now jobs) ≡ false
  unfolding due has_id
  due-spent now [] h = refl
  due-spent now (j ∷ jobs) (p, h) = elim (Bool-cases (is_due now j)) [
    | inr rests ↦ rw (due, rests) (due-spent now jobs h)
    | inl runs ↦
        rw (due, runs)
          (elim (Bool-cases (str_eq j.id id)) [
            | inr other ↦ rw other (due-spent now jobs h)
            | inl same ↦ absurd (ground (arith, runs, (p ((eq_iff j.id id).0 same)).1))
          ])
  ]
