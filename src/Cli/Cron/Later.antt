-- ===== src/Cli/Cron/Later.antt =====
-- The next run is later.
use blades.Common.{
  ℕ, zero, suc, ◌+◌, ◌*◌, ◌<◌, ◌≡◌, ◌⊎◌, inl, inr, refl, ℤ, pos, negsuc, str_eq, true, false, not,
  ◌&&◌, Bool-cases, ◌==◌, ltb, List, [], ◌∷◌, Option, none, some, if◌then◌else◌, arith, eq_iff, In,
  here, there, All, All-intro,
}
use Prim.Native.Nat.{◌%◌}
use blades.Cli.Cron.{
  Schedule, Job, Calendar, IsCalendar, milliseconds, add_duration, every, location, cron_next,
  compute_next_run, schedule_at, schedule_every, schedule_cron, normalized_kind, two63,
}
use blades.Cli.Cron.Sections.{is_due, due, has_id, reschedule, advance, plan}

-- No run, or a later one.
abbrev pub IsLater : ℕ → ℕ → Type 0
IsLater base next = (next ≡ 0) ⊎ (base < next)

-- The interval in nanoseconds is below 2 ^ 63.
abbrev pub Fits : ℤ → Type 0
Fits (pos n) = n * 1000000 < two63
Fits (negsuc n) = Unit {0}

mod_fits : (k : ℕ) → k < two63 → k % (two63 + two63) ≡ k
mod_fits k small = omega (arith, small)

ltb_fits : (k : ℕ) → k < two63 → ltb k two63 ≡ true
ltb_fits k small = ground (arith, small)

add_duration-milliseconds :
    (n base : ℕ) → n * 1000000 < two63 → add_duration base (milliseconds n) ≡ base + n * 1000000
unfolding add_duration milliseconds
add_duration-milliseconds n base small =
    rw (mod_fits (n * 1000000) small, ltb_fits (n * 1000000) small) refl

every-IsLater : (ms : ℤ) (base : ℕ) → Fits ms → IsLater base (every ms base)
every-IsLater (pos zero) base small = inl refl
every-IsLater (pos (suc n)) base small =
    inr (omega (arith, add_duration-milliseconds (suc n) base small))
every-IsLater (negsuc n) base small = inl refl

module _ {L S : Type 0} (calendar : Calendar L S) (lawful : IsCalendar calendar) where
  cron_next-IsLater : (s : Schedule) (base : ℕ) → IsLater base (cron_next calendar s base)
  cron_next-IsLater s base = elim (Bool-cases (str_eq s.expr "")) [
    | inl empty ↦ rw empty (inl refl)
    | inr full ↦ rw full (by_parse (calendar.parse s.expr))
  ]
    where
      by_parse :
          (parsed : Option S)
          → IsLater base (elim parsed as (λ _. ℕ) [
            | none ↦ 0
            | some sched ↦ calendar.next sched (location calendar s.tz) base
          ])
      by_parse none = inl refl
      by_parse (some sched) = lawful.next-later sched (location calendar s.tz) base

  at-IsLater : (at base : ℕ) → IsLater base (if not (at == 0) && ltb base at then at else 0)
  at-IsLater at base = ground arith

  -- The next run that `computeNextRun` gives is the zero time or a time after `base`, if the
  -- interval does not overflow and the calendar's next times are later.
  pub compute_next_run-IsLater :
      (s : Schedule) (base : ℕ) → Fits s.every_ms → IsLater base (compute_next_run calendar s base)
  unfolding compute_next_run
  compute_next_run-IsLater s base small =
      elim (Bool-cases (str_eq (normalized_kind s.kind) schedule_at)) [
        | inl at ↦ rw at (at-IsLater s.at base)
        | inr no_at ↦ elim (Bool-cases (str_eq (normalized_kind s.kind) schedule_every)) [
          | inl each ↦ rw (no_at, each) (every-IsLater s.every_ms base small)
          | inr no_every ↦ elim (Bool-cases (str_eq (normalized_kind s.kind) schedule_cron)) [
            | inl cron ↦ rw (no_at, no_every, cron) (cron_next-IsLater s base)
            | inr other ↦ rw (no_at, no_every, other) (inl refl)
          ]
        ]
      ]

  is_due-reschedule :
      (now : ℕ) (j : Job)
      → Fits j.schedule.every_ms
      → is_due now (reschedule calendar now j) ≡ false
  is_due-reschedule now j small = elim (Bool-cases (str_eq j.schedule.kind schedule_at)) [
    | inl once ↦ rw once refl
    | inr again ↦ rw again (
        never_now (compute_next_run calendar j.schedule now)
          (compute_next_run-IsLater j.schedule now small))
  ]
    where
      never_now : (next : ℕ) → IsLater now next → is_due now (plan next j) ≡ false
      never_now next (inl zeroed) = ground (arith, zeroed)
      never_now next (inr later) = ground (arith, later)

  -- Every due job is in the set.
  abbrev Covers : ℕ → List Job → Job → Type 0
  Covers now fired j = is_due now j ≡ true → has_id j.id fired ≡ true

  has_id-due :
      (now : ℕ) (j : Job) (jobs : List Job)
      → In j jobs
      → is_due now j ≡ true
      → has_id j.id (due now jobs) ≡ true
  unfolding due has_id
  has_id-due now j [] i h = elim i [ ]
  has_id-due now j (_ ∷ jobs) here h = rw (due, h) (ground (arith, eq_iff j.id j.id))
  has_id-due now j (k ∷ jobs) (there i) h = elim (Bool-cases (is_due now k)) [
    | inl too ↦ rw (due, too) (ground (arith, has_id-due now j jobs i h))
    | inr other ↦ rw (due, other) (has_id-due now j jobs i h)
  ]

  due-advance :
      (now : ℕ) (fired jobs : List Job)
      → All (λ j. Fits j.schedule.every_ms) jobs
      → All (Covers now fired) jobs
      → due now (advance calendar now fired jobs) ≡ []
  unfolding due advance
  due-advance now fired [] small covers = refl
  due-advance now fired (j ∷ jobs) (fits, small) (covered, covers) =
      elim (Bool-cases (has_id j.id fired)) [
        | inl fires ↦
            rw (due, fires, is_due-reschedule now j fits, due-advance now fired jobs small covers)
              refl
        | inr stays ↦ rw (due, stays, not_due stays, due-advance now fired jobs small covers) refl
      ]
    where
      not_due : has_id j.id fired ≡ false → is_due now j ≡ false
      not_due stays = elim (Bool-cases (is_due now j)) [
        | inl runs ↦ absurd (ground (arith, covered runs, stays))
        | inr rests ↦ rests
      ]

  -- After a tick has moved its due jobs on, no job is due at the time of the tick, if no interval
  -- overflows and the calendar's next times are later.
  pub due-advance-due :
      (now : ℕ) (jobs : List Job)
      → All (λ j. Fits j.schedule.every_ms) jobs
      → due now (advance calendar now (due now jobs) jobs) ≡ []
  due-advance-due now jobs small =
      due-advance now (due now jobs) jobs small
        (All-intro (Covers now (due now jobs)) jobs (λ j i h. has_id-due now j jobs i h))
