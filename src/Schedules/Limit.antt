-- ===== src/Schedules/Limit.antt =====
-- How many tasks src/scheduling/service.py lets a session have that are active.
use text.Mathlib.Text.{◌==◌ as str_eq}
use text.Mathlib.TextEquality.{eq_iff}
use i_ja_for_u.Base.{
  ℕ, ◌<◌, String, Bool, true, false, Option, none, some, ◌≡◌, ◌≢◌, refl, sym, ap, ◌∙◌, subst,
  Bool-cases, inl, inr, ◌⊎◌, arith,
}
use i_ja_for_u.Domain.{ok}
use i_ja_for_u.Schedules.{
  ScheduleStatus, active, paused, deleted, ScheduleTask, Tables, is_active, is_deleted,
  find_schedule, get_schedule, create_schedule, count_active_schedules, update_schedule,
}
use i_ja_for_u.Schedules.Recurrence.{Calendar, aware, build_rule, utc}
use i_ja_for_u.Schedules.Service.{
  next_after, ScheduleSettings, Session, Desk, Draft, require_room, require_room_unless,
  require_next, existing, announce, require_manager, require_actor, rule_of, created_task, create,
  revised, update, activated, with_status, set_status,
}
use i_ja_for_u.Schedules.Revisions.{bind-ok, add_row-ok, ok_injective}
use i_ja_for_u.Schedules.Counting.{
  active_of, active_of-append, WithinLimit, MayEdit, updated-WithinLimit, existing-ok,
  require_room-ok,
}

module _ (cal : Calendar) (settings : ScheduleSettings) (sessions : String → Option Session) where
  activated-id :
      (task : ScheduleTask) (o : Option ℕ) → (activated cal settings sessions task o).id ≡ task.id
  activated-id task none = refl
  activated-id task (some t) = refl

  with_status-MayEdit :
      (task changed : ScheduleTask) (status : ScheduleStatus) (now : ℕ) (desk : Desk)
      → with_status cal settings sessions task status now desk ≡ ok changed
      → (changed.id ≡ task.id) × MayEdit settings desk.db task changed
  unfolding with_status MayEdit
  with_status-MayEdit task changed paused now desk h = (
    sym (ap (λ t. t.id) (ok_injective h)),
    inl (sym (ap (λ t. is_active t.status) (ok_injective h))),
  )
  with_status-MayEdit task changed deleted now desk h = (
    sym (ap (λ t. t.id) (ok_injective h)),
    inl (sym (ap (λ t. is_active t.status) (ok_injective h))),
  )
  with_status-MayEdit task changed ScheduleStatus.completed now desk h = (
    sym (ap (λ t. t.id) (ok_injective h)),
    inl (sym (ap (λ t. is_active t.status) (ok_injective h))),
  )
  with_status-MayEdit task changed active now desk h =
      let (u, room, rest) = bind-ok _ _ changed h in
      let (built, rule, end) =
        bind-ok
          (build_rule cal (aware task.dtstart) task.timezone task.rrule
            settings.minimum_interval_minutes)
          (λ x.
            ok (activated cal settings sessions task (utc cal (x.2.after (cal.at_utc now) true))))
          changed rest in
      (
        sym (ap (λ t. t.id) (ok_injective end))
            ∙ activated-id task (utc cal (built.2.after (cal.at_utc now) true)),
        inr (by_status (is_active task.status) refl u room),
      )
    where
      by_status :
          (b : Bool)
          → is_active task.status ≡ b
          → (u : Unit {0})
          → require_room_unless cal settings sessions b
              (count_active_schedules task.session_id desk.db)
              settings.max_active_per_session
            ≡ ok u
          → (is_active task.status ≡ true)
            ⊎ (count_active_schedules task.session_id desk.db < settings.max_active_per_session)
      by_status true e u k = inl e
      by_status false e u k = inr (require_room-ok settings _ _ u k)

  set_status-WithinLimit :
      (id : String) (status : ScheduleStatus) (actor : Option String) (expected now : ℕ)
      (desk desk' : Desk) (row : ScheduleTask)
      → set_status cal settings sessions id status actor expected now desk ≡ ok (row, desk')
      → WithinLimit settings desk.db
      → WithinLimit settings desk'.db
  unfolding set_status
  set_status-WithinLimit id status actor expected now desk desk' row h within =
      let (current, found, h1) = bind-ok (existing (get_schedule id desk.db)) _ (row, desk') h in
      let (allowed, permitted, h2) =
        bind-ok (require_actor cal settings sessions current.session_id actor) _ (row, desk') h1 in
      let (changed, made, h3) =
        bind-ok (with_status cal settings sessions current status now desk) _ (row, desk') h2 in
      let (written, updated, h4) =
        bind-ok (update_schedule changed expected now desk.db)
          (λ w. ok (w.0, announce desk w.0 w.1)) (row, desk') h3 in
      let (same, may) = with_status-MayEdit current changed status now desk made in
      let read = existing-ok settings (get_schedule id desk.db) current found in
      subst (WithinLimit settings) (ap (λ p. p.1.db) (ok_injective h4)) (
        updated-WithinLimit settings id current changed written.0 expected now desk.db written.1
          read.0 same may updated within)

  created-WithinLimit :
      (db db' : Tables) (task : ScheduleTask)
      → count_active_schedules task.session_id db < settings.max_active_per_session
      → create_schedule task db ≡ ok db'
      → WithinLimit settings db
      → WithinLimit settings db'
  unfolding create_schedule count_active_schedules
  created-WithinLimit db db' task room h within session =
      let put = add_row-ok task db db' (find_schedule task.id db.schedules) h in
      elim (Bool-cases (str_eq task.session_id session)) [
        | inl same ↦ ground (
          arith,
          same,
          ap (active_of session) put,
          active_of-append session db.schedules task,
          subst (λ s. active_of s db.schedules < settings.max_active_per_session)
              ((eq_iff task.session_id session).0 same) room,
        )
        | inr other ↦ ground (
          arith,
          other,
          ap (active_of session) put,
          active_of-append session db.schedules task,
          within session,
        )
      ]

  create-WithinLimit :
      (id session_id actor : String) (d : Draft) (now : ℕ) (desk desk' : Desk) (row : ScheduleTask)
      → create cal settings sessions id session_id actor d now desk ≡ ok (row, desk')
      → WithinLimit settings desk.db
      → WithinLimit settings desk'.db
  unfolding create
  create-WithinLimit id session_id actor d now desk desk' row h within =
      let (allowed, permitted, h1) =
        bind-ok (require_manager cal settings sessions session_id (some actor)) _ (row, desk') h in
      let (u, room, h2) =
        bind-ok
          (require_room (count_active_schedules session_id desk.db) settings.max_active_per_session)
          _ (row, desk') h1 in
      let (built, rule, h3) = bind-ok (rule_of cal settings sessions d) _ (row, desk') h2 in
      let (next, found, h4) =
        bind-ok (require_next (next_after cal settings sessions built now)) _ (row, desk') h3 in
      let task : ScheduleTask =
        created_task cal settings sessions id session_id actor d (cal.to_utc built.0) built.1 next
          now in
      let (db, made, h5) =
        bind-ok (create_schedule task desk.db) (λ x. ok (task, announce desk task x)) (row, desk')
          h4 in
      subst (WithinLimit settings) (ap (λ p. p.1.db) (ok_injective h5))
        (created-WithinLimit desk.db db task (require_room-ok settings _ _ u room) made within)

  revised-MayEdit :
      (current : ScheduleTask) (d : Draft) (start next : ℕ) (rrule : String) (db : Tables)
      (s : ScheduleStatus)
      → current.status ≡ s
      → is_deleted current.status ≡ false
      → current.status ≢ ScheduleStatus.completed
      → ((revised cal settings sessions current d start rrule next s).id ≡ current.id)
        × MayEdit settings db current (revised cal settings sessions current d start rrule next s)
  unfolding MayEdit
  revised-MayEdit current d start next rrule db paused e k n = (refl, inl (ap is_active e))
  revised-MayEdit current d start next rrule db active e k n = (refl, inr (inl (ap is_active e)))
  revised-MayEdit current d start next rrule db deleted e k n =
      absurd (ground (arith, ap is_deleted e, k))
  revised-MayEdit current d start next rrule db ScheduleStatus.completed e k n = absurd (n e)

  update-WithinLimit :
      (id : String) (actor : Option String) (expected now : ℕ) (d : Draft) (desk desk' : Desk)
      (row : ScheduleTask)
      → ((t : ScheduleTask)
          → get_schedule id desk.db ≡ some t
          → t.status ≢ ScheduleStatus.completed)
      → update cal settings sessions id actor expected d now desk ≡ ok (row, desk')
      → WithinLimit settings desk.db
      → WithinLimit settings desk'.db
  unfolding update
  update-WithinLimit id actor expected now d desk desk' row going h within =
      let (current, found, h1) = bind-ok (existing (get_schedule id desk.db)) _ (row, desk') h in
      let (allowed, permitted, h2) =
        bind-ok (require_actor cal settings sessions current.session_id actor) _ (row, desk') h1 in
      let (built, rule, h3) = bind-ok (rule_of cal settings sessions d) _ (row, desk') h2 in
      let (next, later, h4) =
        bind-ok (require_next (next_after cal settings sessions built now)) _ (row, desk') h3 in
      let changed : ScheduleTask =
        revised cal settings sessions current d (cal.to_utc built.0) built.1 next current.status in
      let (written, updated, h5) =
        bind-ok (update_schedule changed expected now desk.db)
          (λ w. ok (w.0, announce desk w.0 w.1)) (row, desk') h4 in
      let read = existing-ok settings (get_schedule id desk.db) current found in
      let (same, may) =
        revised-MayEdit current d (cal.to_utc built.0) next built.1 desk.db current.status refl
          read.1 (going current read.0) in
      subst (WithinLimit settings) (ap (λ p. p.1.db) (ok_injective h5)) (
        updated-WithinLimit settings id current changed written.0 expected now desk.db written.1
          read.0 same may updated within)

  -- A call of the service that succeeds. One that raises changes nothing.
  pub data ServiceCall : Desk → Desk → Type 0 where
    creates :
        {desk desk' : Desk} (id session_id actor : String) (d : Draft) (now : ℕ)
        (row : ScheduleTask)
        → create cal settings sessions id session_id actor d now desk ≡ ok (row, desk')
        → ServiceCall desk desk'
    sets_status :
        {desk desk' : Desk} (id : String) (status : ScheduleStatus) (actor : Option String)
        (expected now : ℕ) (row : ScheduleTask)
        → set_status cal settings sessions id status actor expected now desk ≡ ok (row, desk')
        → ServiceCall desk desk'
    edits :
        {desk desk' : Desk} (id : String) (actor : Option String) (expected now : ℕ) (d : Draft)
        (row : ScheduleTask)
        → ((t : ScheduleTask)
            → get_schedule id desk.db ≡ some t
            → t.status ≢ ScheduleStatus.completed)
        → update cal settings sessions id actor expected d now desk ≡ ok (row, desk')
        → ServiceCall desk desk'

  pub data ServiceCalls (desk : Desk) : Desk → Type 0 where
    no_call : ServiceCalls desk desk
    then_call :
        {desk' desk'' : Desk}
        → ServiceCalls desk desk'
        → ServiceCall desk' desk''
        → ServiceCalls desk desk''

  ServiceCall-WithinLimit :
      {desk desk' : Desk}
      → ServiceCall desk desk'
      → WithinLimit settings desk.db
      → WithinLimit settings desk'.db
  ServiceCall-WithinLimit {desk} {desk'} (creates id session_id actor d now row h) =
      create-WithinLimit id session_id actor d now desk desk' row h
  ServiceCall-WithinLimit {desk} {desk'} (sets_status id status actor expected now row h) =
      set_status-WithinLimit id status actor expected now desk desk' row h
  ServiceCall-WithinLimit {desk} {desk'} (edits id actor expected now d row going h) =
      update-WithinLimit id actor expected now d desk desk' row going h

  -- Where no session has more active tasks than the settings allow: none has after any calls that
  -- create a task, set the status of one, or edit one that is not completed.
  pub ServiceCalls-WithinLimit :
      {desk desk' : Desk}
      → ServiceCalls desk desk'
      → WithinLimit settings desk.db
      → WithinLimit settings desk'.db
  ServiceCalls-WithinLimit no_call within = within
  ServiceCalls-WithinLimit (then_call calls c) within =
      ServiceCall-WithinLimit c (ServiceCalls-WithinLimit calls within)
