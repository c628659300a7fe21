-- ===== src/Schedules.antt =====
-- src/scheduling and the transactions of src/adapters/persistence/repositories/schedule.py. A table
-- is a list of rows, a point in time is a number of microseconds, and a transaction that raises
-- changes nothing.
pub mod Recurrence
pub mod Service
pub mod Scheduler
pub mod Revisions
pub mod Runs
pub mod Counting
pub mod Limit
mod Tests
use text.Mathlib.Text.{◌==◌ as str_eq}
use i_ja_for_u.Base.{
  ℕ, ◌+◌, String, Bool, true, false, not, ◌&&◌, ◌||◌, Option, none, some, List, [], ◌∷◌, ◌++◌, ◌==◌,
  is_some, if◌then◌else◌,
}
use i_ja_for_u.Domain.{IjaError, not_found, conflict, runtime_error, Result, ok, err}

pub data ScheduleStatus : Type 0 where
  active paused completed deleted : ScheduleStatus

pub data ScheduleRunStatus : Type 0 where
  pending running completed failed : ScheduleRunStatus

-- A task, and its row.
pub record ScheduleTask : Type 0 where
  pub id : String
  pub session_id : String
  pub created_by : String
  pub title : String
  pub instruction : String
  pub source_text : String
  pub timezone : String
  pub dtstart : ℕ
  pub rrule : String
  pub status : ScheduleStatus
  pub revision : ℕ
  pub next_run_at : Option ℕ
  pub last_run_at : Option ℕ
  pub consecutive_failures : ℕ
  pub created_at : ℕ
  pub updated_at : ℕ

-- A run, and its row.
pub record ScheduleRun : Type 0 where
  pub id : String
  pub schedule_id : String
  pub session_id : String
  pub scheduled_for : ℕ
  pub status : ScheduleRunStatus
  pub missed_occurrences : ℕ
  pub outbound_id : Option String
  pub error_code : Option String
  pub error_message : Option String
  pub started_at : Option ℕ
  pub completed_at : Option ℕ
  pub created_at : ℕ
  pub updated_at : ℕ

-- The rows of sessions by their ids.
pub record Tables : Type 0 where
  pub sessions : List String
  pub schedules : List ScheduleTask
  pub runs : List ScheduleRun

abbrev pub is_active : ScheduleStatus → Bool
is_active active = true
is_active paused = false
is_active ScheduleStatus.completed = false
is_active deleted = false

abbrev pub is_deleted : ScheduleStatus → Bool
is_deleted deleted = true
is_deleted active = false
is_deleted paused = false
is_deleted ScheduleStatus.completed = false

unfoldable pub find_schedule : String → List ScheduleTask → Option ScheduleTask
find_schedule id [] = none
find_schedule id (row ∷ rows) = if str_eq row.id id then some row else find_schedule id rows

-- The row of an id is written.
unfoldable pub put_schedule : ScheduleTask → List ScheduleTask → List ScheduleTask
put_schedule task [] = []
put_schedule task (row ∷ rows) =
    let later = row ∷ put_schedule task rows in if str_eq row.id task.id then task ∷ rows else later

abbrev pub get_schedule : String → Tables → Option ScheduleTask
get_schedule id db = find_schedule id db.schedules

-- A foreign key to a session.
unfoldable pub has_session : String → List String → Bool
has_session id [] = false
has_session id (row ∷ rows) = str_eq row id || has_session id rows

-- A repeated id and a session that is missing violate a constraint alike.
abbrev pub add_row : ScheduleTask → Tables → Option ScheduleTask → Result Tables
add_row task db none =
    if has_session task.session_id db.sessions
    then ok (record db { schedules = db.schedules ++ task ∷ [] })
    else err conflict
add_row task db (some row) = err conflict

unfoldable pub create_schedule : ScheduleTask → Tables → Result Tables
create_schedule task db = add_row task db (find_schedule task.id db.schedules)

abbrev pub of_session : Option String → ScheduleTask → Bool
of_session none row = true
of_session (some session) row = str_eq row.session_id session

-- The rows of a session; the query also orders them by the time of the last update.
unfoldable pub list_schedules : Option String → List ScheduleTask → List ScheduleTask
list_schedules session [] = []
list_schedules session (row ∷ rows) =
    let rest = list_schedules session rows in
    if of_session session row && not (is_deleted row.status) then row ∷ rest else rest

unfoldable pub count_active : List ScheduleTask → ℕ
count_active [] = 0
count_active (row ∷ rows) = (if is_active row.status then 1 else 0) + count_active rows

unfoldable pub count_active_schedules : String → Tables → ℕ
count_active_schedules session db = count_active (list_schedules (some session) db.schedules)

-- The fields that a user may edit, with the next revision.
abbrev pub edited : ScheduleTask → (now : ℕ) → ScheduleTask → ScheduleTask
edited task now row = record row {
  title = task.title;
  instruction = task.instruction;
  source_text = task.source_text;
  timezone = task.timezone;
  dtstart = task.dtstart;
  rrule = task.rrule;
  status = task.status;
  next_run_at = task.next_run_at;
  revision = row.revision + 1;
  updated_at = now;
}

abbrev pub update_row :
    ScheduleTask
    → (expected_revision now : ℕ) → Tables
    → Option ScheduleTask
    → Result (ScheduleTask × Tables)
update_row task expected now db none = err not_found
update_row task expected now db (some row) =
    if is_deleted row.status
    then err not_found
    else if not (row.revision == expected)
    then err conflict
    else ok (
      edited task now row,
      record db { schedules = put_schedule (edited task now row) db.schedules },
    )

unfoldable pub update_schedule :
    ScheduleTask → (expected_revision now : ℕ) → Tables → Result (ScheduleTask × Tables)
update_schedule task expected now db =
    update_row task expected now db (find_schedule task.id db.schedules)

abbrev pub runtime_of : ScheduleTask → ScheduleTask → ScheduleTask
runtime_of task row = record row {
  status = task.status;
  next_run_at = task.next_run_at;
  last_run_at = task.last_run_at;
  consecutive_failures = task.consecutive_failures;
  updated_at = task.updated_at;
}

abbrev pub write_runtime : ScheduleTask → Tables → Option ScheduleTask → Result Tables
write_runtime task db none = err not_found
write_runtime task db (some row) =
    ok (record db { schedules = put_schedule (runtime_of task row) db.schedules })

-- The scheduler writes what it read and changed, whatever the row says by now.
unfoldable pub save_schedule_runtime : ScheduleTask → Tables → Result Tables
save_schedule_runtime task db = write_runtime task db (find_schedule task.id db.schedules)

-- The unique constraint on the task and the time.
abbrev pub same_slot : ScheduleRun → ScheduleRun → Bool
same_slot a b = str_eq a.schedule_id b.schedule_id && (a.scheduled_for == b.scheduled_for)

unfoldable pub find_run : ScheduleRun → List ScheduleRun → Option ScheduleRun
find_run run [] = none
find_run run (row ∷ rows) = if same_slot row run then some row else find_run run rows

unfoldable pub has_run_id : String → List ScheduleRun → Bool
has_run_id id [] = false
has_run_id id (row ∷ rows) = str_eq row.id id || has_run_id id rows

-- What else the constraints ask of a new run: a new id, and rows for its task and session.
abbrev pub has_keys : ScheduleRun → Tables → Bool
has_keys run db =
    not (has_run_id run.id db.runs)
    && is_some (find_schedule run.schedule_id db.schedules)
    && has_session run.session_id db.sessions

abbrev pub claim :
    ScheduleRun → Tables → Option ScheduleRun → Result ((ScheduleRun × Bool) × Tables)
claim run db none =
    if has_keys run db
    then ok ((run, true), record db { runs = db.runs ++ run ∷ [] })
    else err runtime_error
claim run db (some row) = ok ((row, false), db)

-- The run of a time is created once; the second value says whether this call did. After another
-- violation `scalar_one` finds no row, and raises.
unfoldable pub create_schedule_run : ScheduleRun → Tables → Result ((ScheduleRun × Bool) × Tables)
create_schedule_run run db = claim run db (find_run run db.runs)

abbrev pub result_of : ScheduleRun → ScheduleRun → ScheduleRun
result_of run row = record row {
  status = run.status;
  missed_occurrences = run.missed_occurrences;
  outbound_id = run.outbound_id;
  error_code = run.error_code;
  error_message = run.error_message;
  started_at = run.started_at;
  completed_at = run.completed_at;
  updated_at = run.updated_at;
}

unfoldable pub write_run : ScheduleRun → List ScheduleRun → List ScheduleRun
write_run run [] = []
write_run run (row ∷ rows) =
    let later = row ∷ write_run run rows in
    if str_eq row.id run.id then result_of run row ∷ rows else later

abbrev pub add_run : ScheduleRun → Tables → Option ScheduleRun → Result Tables
add_run run db none =
    if has_keys run db then ok (record db { runs = db.runs ++ run ∷ [] }) else err runtime_error
add_run run db (some row) = err runtime_error

-- The row of the run is written, or added where its time is free.
unfoldable pub save_schedule_run : ScheduleRun → Tables → Result Tables
save_schedule_run run db =
    if has_run_id run.id db.runs
    then ok (record db { runs = write_run run db.runs })
    else add_run run db (find_run run db.runs)

abbrev pub is_recoverable : ScheduleRunStatus → Bool
is_recoverable pending = true
is_recoverable running = true
is_recoverable ScheduleRunStatus.completed = false
is_recoverable failed = false

unfoldable pub list_recoverable_schedule_runs : List ScheduleRun → List ScheduleRun
list_recoverable_schedule_runs [] = []
list_recoverable_schedule_runs (row ∷ rows) =
    let rest = list_recoverable_schedule_runs rows in
    if is_recoverable row.status then row ∷ rest else rest
