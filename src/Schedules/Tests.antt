-- ===== src/Schedules/Tests.antt =====
-- Transactions and calls of src/scheduling on one task, and the theorems applied to them.
use i_ja_for_u.Base.{
  begins_with, ℕ, ◌+◌, ◌-◌, true, false, Option, none, some, [], ◌∷◌, ◌≡◌, ◌≢◌, refl, arith,
}
use i_ja_for_u.Domain.{group, Result, ok, err, conflict, runtime_error}
use i_ja_for_u.Schedules.{
  ScheduleStatus, active, paused, ScheduleTask, ScheduleRun, pending, Tables, find_schedule,
  put_schedule, create_schedule, list_schedules, count_active, count_active_schedules, edited,
  update_schedule, has_session, save_schedule_runtime, find_run, create_schedule_run, has_run_id,
  save_schedule_run, write_run, same_slot, list_recoverable_schedule_runs,
}
use i_ja_for_u.Schedules.Recurrence.{
  Rule, aware, Calendar, occurs_in, drop_chars, all_fit, normalize_rrule, aware_in_timezone,
  build_rule, coalesced_due,
}
use i_ja_for_u.Schedules.Service.{
  Session, owner, Desk, ScheduleSettings, find_member, require_manager, create, update, with_status,
  set_status, Draft,
}
use i_ja_for_u.Schedules.Scheduler.{
  Agenda, dispatch_task, dispatch_tasks, dispatch_due, next_time, next_delay, resume_runs, start,
  run_now,
}
use i_ja_for_u.Schedules.Revisions.{saves_runtime, nothing, then_writes, update_schedule-stale}
use i_ja_for_u.Schedules.Counting.{WithinLimit}
use i_ja_for_u.Schedules.Limit.{no_call, then_call, sets_status, ServiceCalls-WithinLimit}
use i_ja_for_u.Schedules.Runs.{create_schedule_run-once}

program : Unit {0}
unfolding find_schedule put_schedule create_schedule list_schedules count_active
    count_active_schedules update_schedule has_session save_schedule_runtime find_run
    create_schedule_run has_run_id save_schedule_run write_run list_recoverable_schedule_runs
    begins_with occurs_in drop_chars all_fit normalize_rrule aware_in_timezone build_rule
    coalesced_due find_member require_manager create update with_status set_status dispatch_task
    dispatch_tasks dispatch_due next_time next_delay resume_runs start run_now
program = tt

abbrev hour : ℕ
hour = 3600000000

-- A rule with an occurrence at each multiple of an hour.
abbrev hourly : Rule ℕ
hourly = record {
  after = λ t inclusive. some (t + hour);
  before = λ t inclusive. some t;
  between = λ a b inclusive. a ∷ b ∷ [];
}

abbrev calendar : Calendar
calendar = record {
  Local = ℕ;
  strip_upper = λ t. t;
  replace_tzinfo = λ t zone. some t;
  astimezone = λ t zone. some t;
  to_zone_of = λ start t. t;
  at_utc = λ t. t;
  to_utc = λ t. t;
  microsecond_before = λ t. t - 1;
  elapsed = λ a b. b - a;
  rrulestr = λ t start. some hourly;
}

abbrev task : ScheduleTask
task = record {
  id = "a";
  session_id = "s";
  created_by = "u";
  title = "t";
  instruction = "i";
  source_text = "x";
  timezone = "UTC";
  dtstart = 10;
  rrule = "FREQ=HOURLY";
  status = active;
  revision = 1;
  next_run_at = some 20;
  last_run_at = none;
  consecutive_failures = 0;
  created_at = 5;
  updated_at = 5;
}

abbrev tables : Tables
tables = record { sessions = "s" ∷ []; schedules = task ∷ []; runs = [] }

-- The task is paused at its revision 1.
abbrev pausing : ScheduleTask
pausing = record task { status = paused; next_run_at = none }

abbrev paused_tables : Tables
paused_tables = record tables { schedules = edited pausing 30 task ∷ [] }

pauses : update_schedule pausing 1 30 tables ≡ ok (edited pausing 30 task, paused_tables)
unfolding program
pauses = refl

-- The scheduler listed the task before, and writes what it read: the task is active again.
abbrev revived_tables : Tables
revived_tables = record tables {
  schedules =
      (record (edited pausing 30 task) { status = active; next_run_at = some 99; updated_at = 5 })
      ∷ [];
}

revived :
    save_schedule_runtime (record task { next_run_at = some 99 }) paused_tables ≡ ok revived_tables
unfolding program
revived = refl

update_schedule-stale_example :
    update_schedule pausing 1 40 revived_tables ≢ ok (edited pausing 40 task, tables)
update_schedule-stale_example =
    update_schedule-stale pausing (edited pausing 30 task) pausing 1 30 1 40 tables paused_tables
      revived_tables (edited pausing 40 task, tables) pauses
      (then_writes nothing (saves_runtime (record task { next_run_at = some 99 }) revived)) refl
      (omega arith)

abbrev run : ScheduleRun
run = record {
  id = "r1";
  schedule_id = "a";
  session_id = "s";
  scheduled_for = 20;
  status = pending;
  missed_occurrences = 0;
  outbound_id = none;
  error_code = none;
  error_message = none;
  started_at = none;
  completed_at = none;
  created_at = 21;
  updated_at = 21;
}

abbrev again : ScheduleRun
again = record run { id = "r2" }

same_time : same_slot run again ≡ true
same_time = refl

abbrev run_tables : Tables
run_tables = record tables { runs = run ∷ [] }

created_run : create_schedule_run run tables ≡ ok ((run, true), run_tables)
unfolding program
created_run = refl

create_schedule_run-once_example :
    (row : ScheduleRun) × (same_slot row again ≡ true)
    × (create_schedule_run again run_tables ≡ ok ((row, false), run_tables))
create_schedule_run-once_example =
    create_schedule_run-once run again (run, true) tables run_tables run_tables created_run nothing
      same_time

-- A task that is missing: the second constraint fails, and no row is found.
no_task : create_schedule_run (record run { schedule_id = "b" }) tables ≡ err runtime_error
unfolding program
no_task = refl

-- An overdue task is dispatched, and moves on.
abbrev agenda : Agenda
agenda = record { db = tables; published = []; spawned = []; ids = 0 }

abbrev dispatched : Agenda
dispatched = (dispatch_due calendar (λ n. "r") 50 agenda).0

one_run :
    dispatched.published
    ≡ (record run {
      id = "r";
      scheduled_for = 50;
      missed_occurrences = 1;
      created_at = 50;
      updated_at = 50;
    })
      ∷ []
unfolding program
one_run = refl

waits : next_delay 50 dispatched.db ≡ some hour
unfolding program
waits = refl

-- A completed task that is edited becomes active, also where no more active tasks are allowed.
abbrev settings : ScheduleSettings
settings = record { minimum_interval_minutes = 5; max_active_per_session = 1 }

abbrev session : Session
session = record {
  chat_type = group;
  participants = (record { external_user_id = "u"; role = owner }) ∷ [];
}

abbrev full : Desk
full = record {
  db = record {
    sessions = "s" ∷ [];
    schedules =
        task
        ∷ (record task { id = "b"; status = ScheduleStatus.completed; next_run_at = none })
        ∷ [];
    runs = [];
  };
  published = [];
  notified = 0;
}

abbrev draft : Draft
draft = record {
  title = "t";
  instruction = "i";
  source_text = "x";
  timezone = "UTC";
  dtstart = aware 10;
  rrule = "FREQ=HOURLY";
}

abbrev active_after : Result (ScheduleTask × Desk) → Option ℕ
active_after (err e) = none
active_after (ok (t, desk)) = some (count_active_schedules "s" desk.db)

no_room :
    set_status calendar settings (λ s. some session) "b" active (some "u") 1 60 full ≡ err conflict
unfolding program
no_room = refl

over_limit :
    active_after (update calendar settings (λ s. some session) "b" (some "u") 1 draft 60 full)
    ≡ some 2
unfolding program
over_limit = refl

-- A task that was paused after three failures keeps their number when it is made active.
abbrev failing : Desk
failing = record {
  db = record {
    sessions = "s" ∷ [];
    schedules =
        (record task { status = paused; next_run_at = none; consecutive_failures = 3 }) ∷ [];
    runs = [];
  };
  published = [];
  notified = 0;
}

abbrev failures_after : Result (ScheduleTask × Desk) → Option ℕ
failures_after (err e) = none
failures_after (ok (t, desk)) = some t.consecutive_failures

kept_failures :
    failures_after
      (set_status calendar settings (λ s. some session) "a" active (some "u") 1 60 failing)
    ≡ some 3
unfolding program
kept_failures = refl

abbrev desk : Desk
desk = record { db = tables; published = []; notified = 0 }

abbrev paused_desk : Desk
paused_desk = record {
  db = record tables { schedules = edited pausing 60 task ∷ [] };
  published = edited pausing 60 task ∷ [];
  notified = 1;
}

sets_paused :
    set_status calendar settings (λ s. some session) "a" paused (some "u") 1 60 desk
    ≡ ok (edited pausing 60 task, paused_desk)
unfolding program
sets_paused = refl

one_active : WithinLimit settings tables
unfolding count_active_schedules count_active list_schedules
one_active s = ground arith

ServiceCalls-WithinLimit_example : WithinLimit settings paused_desk.db
ServiceCalls-WithinLimit_example =
    ServiceCalls-WithinLimit calendar settings (λ s. some session)
      (then_call no_call
        (sets_status "a" paused (some "u") 1 60 (edited pausing 60 task) sets_paused))
      one_active
