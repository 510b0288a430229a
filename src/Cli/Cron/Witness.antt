-- ===== src/Cli/Cron/Witness.antt =====
-- The theorems on scheduled jobs, at small inputs, and runs of the scheduler.
use blades.Common.{
  ℕ, suc, ◌+◌, ◌≡◌, inr, refl, sym, ap, ◌∙◌, pos, String, eq_iff, Bool, true, false, List, [], ◌∷◌,
  ◌++◌, Option, none, some, Result, err, ok, arith, All,
}
use blades.Common.StringMap.{insert}
use blades.Cli.Files.{Read, found, missing}
use blades.Cli.Cron.{
  Schedule, Payload, Job, Calendar, IsCalendar, compute_next_run, add_duration, milliseconds,
  normalize_payload_kind,
}
use blades.Cli.Cron.Sections.{
  wake_loop, next_wake, due, has_id, advance, record_run, remove_job_slice, change_first, first_job,
  enable_first,
}
use blades.Cli.Cron.Store.{
  Store, no_store, StoreFiles, Service, decode_store, load_bytes, load_locked, save_locked,
}
use blades.Cli.Cron.Service.{
  CronError, save_failed, add_job, new_job, arm_timer, remove_job, enable_job, listed, stale,
}
use blades.Cli.Cron.Ticks.{find_job, finish_run, run_now, begin_tick, finish_all, tick, watch}
use blades.Cli.Cron.Later.{Fits, IsLater, compute_next_run-IsLater}
use blades.Cli.Cron.Wake.{next_wake-IsEarliest, IsEarliest}
use blades.Cli.Cron.Reload.{Sections, ticked, recorded, watched, switched, no_section, then_section}
use blades.Cli.Cron.Again.{begin_tick-again}
use blades.Cli.Cron.Refired.{IsSaved, begin_tick-fires_once}
use blades.Cli.Cron.Saving.{IsStoreFiles, IsAtomic, save_locked-IsAtomic}
use blades.Cli.Cron.Failing.{Reads, add_job-save_failed, load_locked-save_locked}
use blades.Cli.Cron.Firing.{begin_tick-due}

-- Every expression is that of every minute.
abbrev minutes : Calendar String ℕ
minutes = record {
  here = "UTC";
  load_location = λ tz. some tz;
  parse = λ expr. some 60000000000;
  next = λ period tz t. t + suc period;
}

minutes-IsCalendar : IsCalendar minutes
minutes-IsCalendar = record { next-later = λ period tz t. inr (omega arith) }

-- A file and a temporary one; the disk may be full.
record Disk : Type 0 where
  file : Option Store
  temp : Option Store
  full : Bool

abbrev as_read : Option Store → Read Store
as_read none = missing
as_read (some st) = found st

abbrev renamed : Bool → Disk → Disk × Option String
renamed true d = (d, some "no space")
renamed false d = (record d { file = d.temp }, none)

abbrev on_disk : StoreFiles Disk Store
on_disk = record {
  stat = λ d. none;
  read_file = λ d. as_read d.file;
  mkdir_all = λ d. (d, none);
  create_temp = λ d. (d, ok "tmp");
  write_temp = λ d name st. (record d { temp = some st }, none);
  close_temp = λ d name. (d, none);
  rename = λ d name. renamed d.full d;
  remove = λ d name. record d { temp = none };
  is_blank = λ st. false;
  unmarshal = λ st out. (st, true);
  fallback = λ st out. (st, true);
  encode = λ st. some st;
}

not_renamed :
    (full : Bool) (d d' : Disk) (error : String)
    → renamed full d ≡ (d', some error)
    → as_read d'.file ≡ as_read d.file
not_renamed true d d' error same = ap (λ r. as_read r.0.file) (sym same)
not_renamed false d d' error same = absurd (cc (ap (λ r. r.1) same))

is_renamed :
    (full : Bool) (d d' : Disk) (st : Store)
    → renamed full d ≡ (d', none)
    → d.temp ≡ some st
    → as_read d'.file ≡ found st
is_renamed true d d' st same temp = absurd (cc (ap (λ r. r.1) same))
is_renamed false d d' st same temp = ap (λ r. as_read r.0.file) (sym same) ∙ ap as_read temp

on_disk-IsStoreFiles : IsStoreFiles on_disk
on_disk-IsStoreFiles = record {
  read_temp = λ d name. d.temp;
  read-mkdir = λ d. refl;
  read-create = λ d. refl;
  read-write = λ d name st. refl;
  read-close = λ d name. refl;
  read-remove = λ d name. refl;
  read-not_renamed = λ d d' name error same. not_renamed d.full d d' error same;
  temp-write = λ d d' name st same. ap (λ r. r.0.temp) (sym same);
  temp-close = λ d name. refl;
  read-rename = λ d d' name st same temp. is_renamed d.full d d' st same temp;
}

program : Unit {0}
unfolding insert compute_next_run add_duration milliseconds normalize_payload_kind wake_loop
    next_wake due has_id advance record_run remove_job_slice change_first first_job enable_first
    decode_store load_bytes load_locked save_locked add_job arm_timer remove_job enable_job listed
    stale find_job finish_run run_now begin_tick finish_all tick watch
program = tt

abbrev once_at : ℕ → Schedule
once_at at = record { kind = "at"; at = at; every_ms = pos 0; expr = ""; tz = "" }

abbrev every_second : Schedule
every_second = record { kind = "every"; at = 0; every_ms = pos 1000; expr = ""; tz = "" }

abbrev command : Payload
command = record {
  kind = "exec";
  command = "true";
  message = "";
  session_id = "";
  reply_session_id = "";
}

abbrev same_text : String → String
same_text s = s

abbrev once_job : Job
once_job = new_job minutes same_text same_text "a" "once" (once_at 50) command false 10

abbrev second_job : Job
second_job = new_job minutes same_text same_text "b" "often" every_second command false 10

abbrev running : Service
running = record {
  st = record { version = 1; jobs = once_job ∷ second_job ∷ [] };
  last_mtime = 0;
  known_ids = some [];
  timer = none;
  watching = true;
  running = true;
}

abbrev good_disk : Disk
good_disk = record { file = none; temp = none; full = false }

abbrev full_disk : Disk
full_disk = record { file = none; temp = none; full = true }

wakes_first : (arm_timer 20 running).timer ≡ some 30
unfolding program
wakes_first = refl

-- The interval of 292 years and 278 days overflows: the next run is earlier.
overflows :
    compute_next_run minutes
      (record every_second { every_ms = pos 9223372036855 })
      10000000000000000000
    ≡ 776627963145448384
unfolding program
overflows = refl

fires_the_first : due 60 running.st.jobs ≡ once_job ∷ []
unfolding program
fires_the_first = refl

compute_next_run-IsLater_example : IsLater 10 (compute_next_run minutes every_second 10)
compute_next_run-IsLater_example =
    compute_next_run-IsLater minutes minutes-IsCalendar every_second 10 (omega arith)

next_wake-IsEarliest_example : IsEarliest running.st.jobs (next_wake running.st.jobs)
next_wake-IsEarliest_example = next_wake-IsEarliest running.st.jobs

save_locked-IsAtomic_example :
    IsAtomic on_disk full_disk running.st (save_locked on_disk full_disk running)
save_locked-IsAtomic_example = save_locked-IsAtomic on_disk on_disk-IsStoreFiles full_disk running

any-Reads : (st : Store) → Reads on_disk st
any-Reads st = record { not_blank = λ bytes same. refl; unmarshal-encode = λ bytes same. cc }

abbrev stored : Disk
stored = record { file = some running.st; temp = some running.st; full = false }

did_save : save_locked on_disk good_disk running ≡ (stored, running, none)
unfolding program
did_save = refl

abbrev begun : Service
begun = record running { st = no_store }

load_locked-save_locked_example : (load_locked on_disk stored begun).0.st ≡ running.st
load_locked-save_locked_example =
    load_locked-save_locked on_disk on_disk-IsStoreFiles good_disk stored running running begun
      did_save (any-Reads running.st) (λ same. absurd (cc same)) refl

abbrev with_third : Service
with_third = record running {
  st = record {
    version = 1;
    jobs =
        once_job
        ∷ second_job
        ∷ new_job minutes same_text same_text "c" "third" (once_at 70) command false 10
        ∷ [];
  };
}

abbrev full_disk_later : Disk
full_disk_later = record { file = none; temp = none; full = true }

could_not_add :
    add_job minutes on_disk same_text same_text "c" "third"
      (once_at 70)
      command
      false
      10
      11
      full_disk
      running
    ≡ (full_disk_later, with_third, err (save_failed "no space"))
unfolding program
could_not_add = refl

add_job-save_failed_example :
    with_third.st.jobs
    ≡ (load_locked on_disk full_disk running).0.st.jobs
      ++ new_job minutes same_text same_text "c" "third" (once_at 70) command false 10 ∷ []
add_job-save_failed_example =
    add_job-save_failed minutes on_disk same_text same_text "c" "third" (once_at 70) command false
      10 11 full_disk full_disk_later running with_third "no space" could_not_add

other_id : second_job.id ≡ "a" → ⊥
other_id same = cc ((eq_iff second_job.id "a").1 same)

once_jobs-IsOneShot : All (λ j. j.id ≡ "a" → j.schedule.kind ≡ "at") running.st.jobs
once_jobs-IsOneShot = ((λ same. refl), ((λ same. absurd (other_id same)), tt))

fires : has_id "a" (due 60 running.st.jobs) ≡ true
unfolding program
fires = refl

abbrev after_tick : Disk × Service × Result CronError (List Job)
after_tick = begin_tick minutes on_disk 60 good_disk running

ticks : after_tick ≡ (after_tick.0, after_tick.1, ok (once_job ∷ []))
unfolding program
ticks = refl

All-fit : All (λ j. Fits j.schedule.every_ms) (load_locked on_disk good_disk running).0.st.jobs
unfolding program
All-fit = (omega arith, (omega arith, tt))

begin_tick-due_test : due 60 after_tick.1.st.jobs ≡ []
begin_tick-due_test =
    begin_tick-due minutes minutes-IsCalendar on_disk 60 good_disk after_tick.0 running after_tick.1
      (once_job ∷ []) ticks All-fit

-- The one-shot job is fired at 60, and the store is read again; then its run ends, the job is
-- switched off, and another tick comes before the last.
loads_once :
    All (λ j. j.id ≡ "a" → j.schedule.kind ≡ "at") (load_locked on_disk good_disk running).0.st.jobs
unfolding program
loads_once = once_jobs-IsOneShot

fired_first : has_id "a" (once_job ∷ []) ≡ true
unfolding program
fired_first = refl

after_tick-IsSaved : IsSaved on_disk after_tick.0 after_tick.1
unfolding program
after_tick-IsSaved = record { bytes = after_tick.1.st; encoded = refl; written = refl }

abbrev reread : Service
reread = watch on_disk 61 after_tick.0 after_tick.1

abbrev ended : Disk × Service
ended = finish_run minutes on_disk "a" 60 62 (ok "done") after_tick.0 reread

abbrev switched_off : Disk × Service × Result CronError Bool
switched_off = enable_job minutes on_disk "a" false 63 64 ended.0 ended.1

abbrev ticked_again : Disk × Service × Result CronError (List Job)
ticked_again = begin_tick minutes on_disk 80 switched_off.0 switched_off.1

sections : Sections minutes on_disk "a" after_tick.0 after_tick.1 ticked_again.0 ticked_again.1
sections =
    then_section
      (then_section
        (then_section (then_section no_section (watched 61)) (recorded "a" 60 62 (ok "done")))
        (switched "a" false 63 64 (inr refl)))
      (ticked 80)

abbrev last_tick : Disk × Service × Result CronError (List Job)
last_tick = begin_tick minutes on_disk 2000000000 ticked_again.0 ticked_again.1

abbrev last_fired : List Job
last_fired = due 2000000000 ticked_again.1.st.jobs

ticks_last : last_tick ≡ (last_tick.0, last_tick.1, ok last_fired)
unfolding program
ticks_last = refl

fires_the_second : has_id "b" last_fired ≡ true
unfolding program
fires_the_second = refl

begin_tick-fires_once_example : has_id "a" last_fired ≡ false
begin_tick-fires_once_example =
    begin_tick-fires_once minutes on_disk on_disk-IsStoreFiles any-Reads "a" 60 2000000000 good_disk
      after_tick.0 ticked_again.0 last_tick.0 running after_tick.1 ticked_again.1 last_tick.1
      (once_job ∷ []) last_fired ticks fired_first loads_once after_tick-IsSaved sections ticks_last

abbrev tick_again : Disk × Service × Result CronError (List Job)
tick_again = begin_tick minutes on_disk 60 after_tick.0 after_tick.1

ticks_again : tick_again ≡ (tick_again.0, tick_again.1, ok (due 60 after_tick.1.st.jobs))
unfolding program
ticks_again = refl

begin_tick-again_example : due 60 after_tick.1.st.jobs ≡ []
begin_tick-again_example =
    begin_tick-again minutes minutes-IsCalendar on_disk any-Reads 60 good_disk after_tick.0
      tick_again.0 running after_tick.1 tick_again.1 (once_job ∷ []) (due 60 after_tick.1.st.jobs)
      ticks All-fit after_tick-IsSaved ticks_again
