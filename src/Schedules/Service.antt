-- ===== src/Schedules/Service.antt =====
-- src/scheduling/service.py, for calls that run one at a time. Each call makes at most one
-- transaction that writes, its last, so a call that raises changes nothing.
use text.Mathlib.Text.{◌==◌ as str_eq}
use i_ja_for_u.Base.{
  ℕ, ◌+◌, String, Bool, true, false, Option, none, some, List, [], ◌∷◌, leb, if◌then◌else◌,
}
use i_ja_for_u.Domain.{
  ChatType, private_, group, not_found, conflict, invalid_input, Result, ok, err,
}
use i_ja_for_u.Schedules.{
  ScheduleStatus, active, paused, deleted, ScheduleTask, Tables, is_active, is_deleted,
  get_schedule, create_schedule, count_active_schedules, update_schedule,
}
use i_ja_for_u.Schedules.Recurrence.{Rule, Datetime, aware, Calendar, ◌>>=◌, build_rule, utc}

pub data ParticipantRole : Type 0 where
  owner admin member : ParticipantRole

pub record Participant : Type 0 where
  pub external_user_id : String
  pub role : ParticipantRole

pub record Session : Type 0 where
  pub chat_type : ChatType
  pub participants : List Participant

pub record ScheduleSettings : Type 0 where
  pub minimum_interval_minutes : ℕ
  pub max_active_per_session : ℕ

-- The tables, the tasks that were published, the latest first, and how often the scheduler was
-- notified.
pub record Desk : Type 0 where
  pub db : Tables
  pub published : List ScheduleTask
  pub notified : ℕ

-- What a user writes of a task.
pub record Draft : Type 0 where
  pub title : String
  pub instruction : String
  pub source_text : String
  pub timezone : String
  pub dtstart : Datetime
  pub rrule : String

unfoldable pub find_member : String → List Participant → Option Participant
find_member actor [] = none
find_member actor (p ∷ ps) =
    if str_eq p.external_user_id actor then some p else find_member actor ps

abbrev pub may_manage : ChatType → ParticipantRole → Bool
may_manage private_ role = true
may_manage group owner = true
may_manage group admin = true
may_manage group member = false

abbrev pub check_member : Session → Option Participant → Result (Unit {0})
check_member session none = err invalid_input
check_member session (some p) =
    if may_manage session.chat_type p.role then ok tt else err invalid_input

abbrev pub check_session : String → Option Session → Result (Unit {0})
check_session actor none = err not_found
check_session actor (some session) = check_member session (find_member actor session.participants)

abbrev pub require_room : (active_count max : ℕ) → Result (Unit {0})
require_room active_count max = if leb max active_count then err conflict else ok tt

abbrev pub require_next : Option ℕ → Result ℕ
require_next none = err invalid_input
require_next (some t) = ok t

abbrev pub existing : Option ScheduleTask → Result ScheduleTask
existing none = err not_found
existing (some task) = if is_deleted task.status then err not_found else ok task

abbrev pub announce : Desk → ScheduleTask → Tables → Desk
announce desk task db = record {
  db = db;
  published = task ∷ desk.published;
  notified = desk.notified + 1;
}

module _ (cal : Calendar) (settings : ScheduleSettings) (sessions : String → Option Session) where
  unfoldable pub require_manager : String → Option String → Result (Unit {0})
  require_manager session_id none = err invalid_input
  require_manager session_id (some actor) = check_session actor (sessions session_id)

  -- `if actor_id is not None: await self.require_manager(...)`
  abbrev pub require_actor : String → Option String → Result (Unit {0})
  require_actor session_id none = ok tt
  require_actor session_id (some actor) = require_manager session_id (some actor)

  -- `rule.after(now.astimezone(start.tzinfo), inc=True)`, as it is stored.
  abbrev pub next_after : cal.Local × String × Rule cal.Local → (now : ℕ) → Option ℕ
  next_after built now = utc cal (built.2.after (cal.to_zone_of built.0 now) true)

  abbrev pub rule_of : Draft → Result (cal.Local × String × Rule cal.Local)
  rule_of d = build_rule cal d.dtstart d.timezone d.rrule settings.minimum_interval_minutes

  abbrev pub created_task :
      (id session_id actor_id : String)
      → Draft
      → (start : ℕ) → (rrule : String) → (next_run now : ℕ) → ScheduleTask
  created_task id session_id actor_id d start rrule next_run now = record {
    id = id;
    session_id = session_id;
    created_by = actor_id;
    title = d.title;
    instruction = d.instruction;
    source_text = d.source_text;
    timezone = d.timezone;
    dtstart = start;
    rrule = rrule;
    status = active;
    revision = 1;
    next_run_at = some next_run;
    last_run_at = none;
    consecutive_failures = 0;
    created_at = now;
    updated_at = now;
  }

  unfoldable pub create :
      (id session_id actor_id : String) → Draft → (now : ℕ) → Desk → Result (ScheduleTask × Desk)
  create id session_id actor_id d now desk = do
    allowed ← require_manager session_id (some actor_id)
    room ← require_room (count_active_schedules session_id desk.db) settings.max_active_per_session
    built ← rule_of d
    next_run ← require_next (next_after built now)
    let task : ScheduleTask =
        created_task id session_id actor_id d (cal.to_utc built.0) built.1 next_run now
    db ← create_schedule task desk.db
    ok (task, announce desk task db)

  -- What `update` makes of the task. One that is not paused becomes active.
  abbrev pub revised :
      ScheduleTask
      → Draft
      → (start : ℕ) → (rrule : String) → (next_run : ℕ) → ScheduleStatus
      → ScheduleTask
  revised task d start rrule next_run paused = record task {
    title = d.title;
    instruction = d.instruction;
    source_text = d.source_text;
    timezone = d.timezone;
    dtstart = start;
    rrule = rrule;
    next_run_at = none;
  }
  revised task d start rrule next_run status = record task {
    title = d.title;
    instruction = d.instruction;
    source_text = d.source_text;
    timezone = d.timezone;
    dtstart = start;
    rrule = rrule;
    status = active;
    next_run_at = some next_run;
  }

  unfoldable pub update :
      (schedule_id : String)
      → (actor_id : Option String) → (expected_revision : ℕ) → Draft
      → (now : ℕ) → Desk
      → Result (ScheduleTask × Desk)
  update schedule_id actor_id expected d now desk = do
    current ← existing (get_schedule schedule_id desk.db)
    allowed ← require_actor current.session_id actor_id
    built ← rule_of d
    next_run ← require_next (next_after built now)
    written ←
        update_schedule (revised current d (cal.to_utc built.0) built.1 next_run current.status)
          expected now desk.db
    ok (written.0, announce desk written.0 written.1)

  -- A task that is made active, or completed where it has no next time.
  abbrev pub activated : ScheduleTask → Option ℕ → ScheduleTask
  activated task none = record task {
    status = ScheduleStatus.completed;
    next_run_at = none;
    consecutive_failures = 0;
  }
  activated task (some next_run) = record task {
    status = active;
    next_run_at = some next_run;
    consecutive_failures = 0;
  }

  abbrev pub require_room_unless : Bool → (active_count max : ℕ) → Result (Unit {0})
  require_room_unless true active_count max = ok tt
  require_room_unless false active_count max = require_room active_count max

  -- What `set_status` makes of the task. The stored time of its start is one of UTC.
  unfoldable pub with_status :
      ScheduleTask → ScheduleStatus → (now : ℕ) → Desk → Result ScheduleTask
  with_status task active now desk = do
    room ←
        require_room_unless (is_active task.status) (count_active_schedules task.session_id desk.db)
          settings.max_active_per_session
    built ←
        build_rule cal (aware task.dtstart) task.timezone task.rrule
          settings.minimum_interval_minutes
    ok (activated task (utc cal (built.2.after (cal.at_utc now) true)))
  with_status task paused now desk = ok (record task { status = paused; next_run_at = none })
  with_status task deleted now desk = ok (record task { status = deleted; next_run_at = none })
  with_status task ScheduleStatus.completed now desk =
      ok (record task { status = ScheduleStatus.completed })

  unfoldable pub set_status :
      (schedule_id : String)
      → ScheduleStatus
      → (actor_id : Option String) → (expected_revision : ℕ) → (now : ℕ) → Desk
      → Result (ScheduleTask × Desk)
  set_status schedule_id status actor_id expected now desk = do
    current ← existing (get_schedule schedule_id desk.db)
    allowed ← require_actor current.session_id actor_id
    changed ← with_status current status now desk
    written ← update_schedule changed expected now desk.db
    ok (written.0, announce desk written.0 written.1)
