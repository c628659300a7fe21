-- ===== src/Schedules/Scheduler.antt =====
-- src/scheduling/scheduler.py: what the scheduler does when it wakes, when it starts, and when a run
-- is asked for. What a spawned run does is outside.
use i_ja_for_u.Base.{
  ℕ, ◌+◌, ◌-◌, min, String, Bool, true, false, Option, none, some, List, [], ◌∷◌, if◌then◌else◌,
}
use i_ja_for_u.Domain.{IjaError, not_found, Result, ok, err}
use i_ja_for_u.Schedules.{
  ScheduleStatus, ScheduleTask, ScheduleRun, pending, Tables, is_active, is_deleted, get_schedule,
  list_schedules, save_schedule_runtime, create_schedule_run, list_recoverable_schedule_runs,
}
use i_ja_for_u.Schedules.Recurrence.{Calendar, ◌>>=◌, coalesced_due}

-- The tables, the runs that were published, and those that were handed to the chat service, the
-- latest first; the next id is made of `ids`.
pub record Agenda : Type 0 where
  pub db : Tables
  pub published : List ScheduleRun
  pub spawned : List (ScheduleTask × ScheduleRun)
  pub ids : ℕ

abbrev pub new_run : (id : String) → ScheduleTask → (scheduled_for missed now : ℕ) → ScheduleRun
new_run id task scheduled_for missed now = record {
  id = id;
  schedule_id = task.id;
  session_id = task.session_id;
  scheduled_for = scheduled_for;
  status = pending;
  missed_occurrences = missed;
  outbound_id = none;
  error_code = none;
  error_message = none;
  started_at = none;
  completed_at = none;
  created_at = now;
  updated_at = now;
}

-- A run that was created is published and spawned.
abbrev pub hand_over : ScheduleTask → (ScheduleRun × Bool) × Tables → Agenda → Agenda
hand_over task ((run, true), db) agenda = record agenda {
  db = db;
  published = run ∷ agenda.published;
  spawned = (task, run) ∷ agenda.spawned;
  ids = agenda.ids + 1;
}
hand_over task ((run, false), db) agenda = record agenda { db = db; ids = agenda.ids + 1 }

-- The task after its due time: it is completed where there is no next time.
abbrev pub moved_on : ScheduleTask → Option ℕ → (now : ℕ) → ScheduleTask
moved_on task none now = record task {
  next_run_at = none;
  status = ScheduleStatus.completed;
  updated_at = now;
}
moved_on task (some next) now = record task { next_run_at = some next; updated_at = now }

-- A run that was asked for after the task was written.
abbrev pub claimed_by :
    ScheduleTask → Agenda → Result ((ScheduleRun × Bool) × Tables) → Agenda × Option IjaError
claimed_by task agenda (err e) = (record agenda { ids = agenda.ids + 1 }, some e)
claimed_by task agenda (ok claimed) = (hand_over task claimed agenda, none)

module _ (cal : Calendar) (new_id : ℕ → String) where
  abbrev pub claim_due :
      ScheduleTask
      → (scheduled_for missed now : ℕ) → Agenda
      → Result Tables
      → Agenda × Option IjaError
  claim_due task scheduled_for missed now agenda (err e) = (agenda, some e)
  claim_due task scheduled_for missed now agenda (ok db) =
      claimed_by task (record agenda { db = db })
        (create_schedule_run (new_run (new_id agenda.ids) task scheduled_for missed now) db)

  abbrev pub dispatch_found :
      ScheduleTask
      → (now : ℕ) → Agenda
      → Result (Option (ℕ × Option ℕ × ℕ))
      → Agenda × Option IjaError
  dispatch_found task now agenda (err e) = (agenda, some e)
  dispatch_found task now agenda (ok none) = (agenda, none)
  dispatch_found task now agenda (ok (some (scheduled_for, next, missed))) =
      claim_due (moved_on task next now) scheduled_for missed now agenda
        (save_schedule_runtime (moved_on task next now) agenda.db)

  -- One round of the loop in `_dispatch_due`, for a task as it was listed.
  unfoldable pub dispatch_task : (now : ℕ) → ScheduleTask → Agenda → Agenda × Option IjaError
  dispatch_task now task agenda =
      if is_active task.status
      then dispatch_found task now agenda (coalesced_due cal task now)
      else (agenda, none)

  -- An exception ends the loop.
  unfoldable pub dispatch_tasks : (now : ℕ) → List ScheduleTask → Agenda → Agenda × Option IjaError
  dispatch_tasks now [] agenda = (agenda, none)
  dispatch_tasks now (task ∷ tasks) agenda =
      let first = dispatch_task now task agenda in
      let rest = dispatch_tasks now tasks first.0 in
      elim (first.1) [ some e ↦ (first.0, some e) | none ↦ rest ]

  -- `_dispatch_due`, where no other transaction runs in between.
  unfoldable pub dispatch_due : (now : ℕ) → Agenda → Agenda × Option IjaError
  dispatch_due now agenda = dispatch_tasks now (list_schedules none agenda.db.schedules) agenda

  abbrev pub run_found : (now : ℕ) → Agenda → Option ScheduleTask → Result (ScheduleRun × Agenda)
  run_found now agenda none = err not_found
  run_found now agenda (some task) =
      if is_deleted task.status
      then err not_found
      else create_schedule_run (new_run (new_id agenda.ids) task now 0 now) agenda.db >>= λ claimed.
          ok (claimed.0.0, hand_over task claimed agenda)

  unfoldable pub run_now :
      (schedule_id : String) → (now : ℕ) → Agenda → Result (ScheduleRun × Agenda)
  run_now schedule_id now agenda = run_found now agenda (get_schedule schedule_id agenda.db)

abbrev pub resume_run : Option ScheduleTask → ScheduleRun → Agenda → Agenda
resume_run none run agenda = agenda
resume_run (some task) run agenda =
    if is_deleted task.status
    then agenda
    else record agenda { spawned = (task, run) ∷ agenda.spawned }

unfoldable pub resume_runs : List ScheduleRun → Agenda → Agenda
resume_runs [] agenda = agenda
resume_runs (run ∷ runs) agenda =
    resume_runs runs (resume_run (get_schedule run.schedule_id agenda.db) run agenda)

-- `start`: the runs that were not finished are spawned again.
unfoldable pub start : Agenda → Agenda
start agenda = resume_runs (list_recoverable_schedule_runs agenda.db.runs) agenda

-- The earliest next time of the active tasks.
abbrev pub earlier : Option ℕ → Option ℕ → Option ℕ
earlier none y = y
earlier (some a) none = some a
earlier (some a) (some b) = some (min a b)

unfoldable pub next_time : List ScheduleTask → Option ℕ
next_time [] = none
next_time (task ∷ tasks) =
    earlier (if is_active task.status then task.next_run_at else none) (next_time tasks)

-- The microseconds to wait; `none` is to wait for a change.
unfoldable pub next_delay : (now : ℕ) → Tables → Option ℕ
next_delay now db = elim (next_time (list_schedules none db.schedules)) [
  | none ↦ none
  | some t ↦ some (t - now)
]
