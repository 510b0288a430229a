-- ===== src/Cli/Cron/Wake.antt =====
-- When the timer goes off.
use blades.Common.{
  ℕ, ◌≤◌, ◌<◌, ◌≡◌, ◌⊎◌, inl, inr, refl, sym, ◌∙◌, true, ◌==◌, ltb, List, [], ◌∷◌, if◌then◌else◌,
  arith, In, here, there,
}
use blades.Cli.Cron.{Job}
use blades.Cli.Cron.Sections.{sleeps, wake_loop, next_wake}

-- The loop's variable after a job.
abbrev sooner : Job → ℕ → ℕ
sooner j least =
    if sleeps j
    then (if least == 0
        then j.state.next_run_at
        else if ltb j.state.next_run_at least
        then j.state.next_run_at
        else least)
    else least

sooner-le : (j : Job) (least : ℕ) → 0 < least → (0 < sooner j least) × (sooner j least ≤ least)
sooner-le j least set = (ground (arith, set), ground (arith, set))

sooner-le_next :
    (j : Job) (least : ℕ)
    → sleeps j ≡ true
    → (0 < sooner j least) × (sooner j least ≤ j.state.next_run_at)
sooner-le_next j least h = (ground (arith, h), ground (arith, h))

wake_loop-le :
    (jobs : List Job) (least : ℕ)
    → 0 < least
    → (0 < wake_loop jobs least) × (wake_loop jobs least ≤ least)
unfolding wake_loop
wake_loop-le [] least set = (set, omega arith)
wake_loop-le (j ∷ jobs) least set =
    let (more, less) = sooner-le j least set in
    let (still, below) = wake_loop-le jobs (sooner j least) more in
    (still, omega (arith, less, below))

wake_loop-le_next :
    (j : Job) (jobs : List Job) (least : ℕ)
    → In j jobs
    → sleeps j ≡ true
    → (0 < wake_loop jobs least) × (wake_loop jobs least ≤ j.state.next_run_at)
unfolding wake_loop
wake_loop-le_next j [] least i h = elim i [ ]
wake_loop-le_next j (_ ∷ jobs) least here h =
    let (more, less) = sooner-le_next j least h in
    let (still, below) = wake_loop-le jobs (sooner j least) more in
    (still, omega (arith, less, below))
wake_loop-le_next j (k ∷ jobs) least (there i) h = wake_loop-le_next j jobs (sooner k least) i h

-- A job that waits for this time.
pub record Waits (jobs : List Job) (n : ℕ) : Type 0 where
  pub job : Job
  pub waiting : In job jobs
  pub asleep : sleeps job ≡ true
  pub until : job.state.next_run_at ≡ n

sooner-cases :
    (j : Job) (least : ℕ)
    → (sooner j least ≡ least) ⊎ (sleeps j ≡ true) × (sooner j least ≡ j.state.next_run_at)
sooner-cases j least = ground arith

Waits-there : (j : Job) (jobs : List Job) (n : ℕ) → Waits jobs n → Waits (j ∷ jobs) n
Waits-there j jobs n w = record {
  job = w.job;
  waiting = there w.waiting;
  asleep = w.asleep;
  until = w.until;
}

wake_loop-Waits :
    (jobs : List Job) (least : ℕ)
    → (wake_loop jobs least ≡ least) ⊎ Waits jobs (wake_loop jobs least)
unfolding wake_loop
wake_loop-Waits [] least = inl refl
wake_loop-Waits (j ∷ jobs) least = elim (wake_loop-Waits jobs (sooner j least)) [
  | inr w ↦ inr (Waits-there j jobs (wake_loop jobs (sooner j least)) w)
  | inl same ↦ by_job same (sooner-cases j least)
]
  where
    by_job :
        wake_loop jobs (sooner j least) ≡ sooner j least
        → (sooner j least ≡ least) ⊎ (sleeps j ≡ true) × (sooner j least ≡ j.state.next_run_at)
        → (wake_loop jobs (sooner j least) ≡ least)
          ⊎ Waits (j ∷ jobs) (wake_loop jobs (sooner j least))
    by_job same (inl old) = inl (same ∙ old)
    by_job same (inr (asleep, new)) =
        inr (record { job = j; waiting = here; asleep = asleep; until = sym (same ∙ new) })

-- The time is the earliest at which an enabled job with a next run wants to run.
pub record IsEarliest (jobs : List Job) (n : ℕ) : Type 0 where
  pub early : (j : Job) → In j jobs → sleeps j ≡ true → (0 < n) × (n ≤ j.state.next_run_at)
  pub wanted : (n ≡ 0) ⊎ Waits jobs n

-- `nextWakeLocked` gives the earliest of the next runs of the enabled jobs that have one, and the
-- zero time if there is no such job.
pub next_wake-IsEarliest : (jobs : List Job) → IsEarliest jobs (next_wake jobs)
unfolding next_wake
next_wake-IsEarliest jobs = record {
  early = λ j i h. wake_loop-le_next j jobs 0 i h;
  wanted = wake_loop-Waits jobs 0;
}
