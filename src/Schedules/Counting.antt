-- ===== src/Schedules/Counting.antt =====
-- How an edit of one task changes the number of active tasks in src/scheduling.
use text.Mathlib.Text.{◌==◌ as str_eq}
use text.Mathlib.TextEquality.{eq_iff}
use i_ja_for_u.Base.{
  ℕ, ◌+◌, ◌≤◌, ◌<◌, String, true, false, not, ◌&&◌, Option, none, some, List, [], ◌∷◌, ◌++◌, ◌≡◌,
  refl, sym, ap, ◌∙◌, subst, if◌then◌else◌, Bool-cases, some_injective, inl, inr, ◌⊎◌, arith,
}
use i_ja_for_u.Domain.{ok}
use i_ja_for_u.Schedules.{
  ScheduleStatus, active, paused, deleted, ScheduleTask, Tables, is_active, is_deleted,
  find_schedule, put_schedule, get_schedule, of_session, list_schedules, count_active,
  count_active_schedules, edited, update_schedule,
}
use i_ja_for_u.Schedules.Service.{ScheduleSettings, require_room, existing}
use i_ja_for_u.Schedules.Revisions.{update_row-ok, ok_injective, id-find_schedule}

-- What a row adds to the count of a session.
abbrev pub weight : String → ScheduleTask → ℕ
weight session row =
    if of_session (some session) row && not (is_deleted row.status)
    then (if is_active row.status then 1 else 0)
    else 0

abbrev pub active_of : String → List ScheduleTask → ℕ
active_of session rows = count_active (list_schedules (some session) rows)

active_of-cons :
    (session : String) (row : ScheduleTask) (rows : List ScheduleTask)
    → active_of session (row ∷ rows) ≡ weight session row + active_of session rows
unfolding count_active list_schedules
active_of-cons session row rows =
    elim (Bool-cases (of_session (some session) row && not (is_deleted row.status))) [
      | inl listed ↦ rw listed refl
      | inr left_out ↦ rw left_out (omega arith)
    ]

pub active_of-append :
    (session : String) (rows : List ScheduleTask) (task : ScheduleTask)
    → active_of session (rows ++ task ∷ []) ≡ active_of session rows + weight session task
unfolding count_active list_schedules
active_of-append session [] task = omega (arith, active_of-cons session task [])
active_of-append session (row ∷ rows) task = omega (
  arith,
  active_of-cons session row (rows ++ task ∷ []),
  active_of-cons session row rows,
  active_of-append session rows task,
)

active_of-put_schedule :
    (session : String) (rows : List ScheduleTask) (task row : ScheduleTask)
    → find_schedule task.id rows ≡ some row
    → active_of session (put_schedule task rows) + weight session row
      ≡ active_of session rows + weight session task
unfolding find_schedule put_schedule
active_of-put_schedule session [] task row h = absurd (ground arith)
active_of-put_schedule session (r ∷ rows) task row h = elim (Bool-cases (str_eq r.id task.id)) [
  | inl same ↦ rw same (
      omega (
        arith,
        active_of-cons session task rows,
        active_of-cons session r rows,
        ap (weight session) (some_injective (rw same at h)),
      ))
  | inr other ↦ rw other (
      omega (
        arith,
        active_of-cons session r (put_schedule task rows),
        active_of-cons session r rows,
        active_of-put_schedule session rows task row (rw other at h),
      ))
]

module _ (settings : ScheduleSettings) where
  -- No session has more active tasks than the settings allow.
  abbrev pub WithinLimit : Tables → Type 0
  WithinLimit db =
      (session : String) → count_active_schedules session db ≤ settings.max_active_per_session

  -- A task takes the place of a row, and is not active where the row was not, unless there is room.
  unfoldable pub MayReplace : String → Tables → (row task : ScheduleTask) → Type 0
  MayReplace session db row task =
      (weight session task ≤ weight session row)
      ⊎ (count_active_schedules session db < settings.max_active_per_session)

  replaces :
      (session : String) (db db' : Tables) (row task : ScheduleTask)
      → find_schedule task.id db.schedules ≡ some row
      → db'.schedules ≡ put_schedule task db.schedules
      → MayReplace session db row task
      → WithinLimit db
      → count_active_schedules session db' ≤ settings.max_active_per_session
  unfolding count_active_schedules MayReplace
  replaces session db db' row task there put (inl lighter) within = omega (
    arith,
    ap (active_of session) put,
    active_of-put_schedule session db.schedules task row there,
    within session,
  )
  replaces session db db' row task there put (inr room) within = ground (
    arith,
    ap (active_of session) put,
    active_of-put_schedule session db.schedules task row there,
    within session,
  )

  pub active-is_deleted : (s : ScheduleStatus) → is_active s ≡ true → is_deleted s ≡ false
  active-is_deleted active h = refl
  active-is_deleted paused h = refl
  active-is_deleted deleted h = absurd (ground arith)
  active-is_deleted ScheduleStatus.completed h = refl

  -- An edit does not make a task active that was not, unless there is room.
  unfoldable pub MayEdit : Tables → (current changed : ScheduleTask) → Type 0
  MayEdit db current changed =
      (is_active changed.status ≡ false)
      ⊎ ((is_active current.status ≡ true)
          ⊎ (count_active_schedules current.session_id db < settings.max_active_per_session))

  MayEdit-MayReplace :
      (session : String) (db : Tables) (current changed : ScheduleTask) (now : ℕ)
      → MayEdit db current changed
      → MayReplace session db current (edited changed now current)
  unfolding MayEdit MayReplace
  MayEdit-MayReplace session db current changed now (inl idle) = inl (ground (arith, idle))
  MayEdit-MayReplace session db current changed now (inr (inl was)) =
      inl (ground (arith, was, active-is_deleted current.status was))
  MayEdit-MayReplace session db current changed now (inr (inr room)) =
      elim (Bool-cases (str_eq current.session_id session)) [
        | inl same ↦ inr (
            subst (λ s. count_active_schedules s db < settings.max_active_per_session)
              ((eq_iff current.session_id session).0 same) room)
        | inr other ↦ inl (ground (arith, other))
      ]

  -- A successful update of a task that was read.
  pub updated-WithinLimit :
      (id : String) (current changed : ScheduleTask) (row : ScheduleTask) (expected now : ℕ)
      (db db' : Tables)
      → get_schedule id db ≡ some current
      → changed.id ≡ current.id
      → MayEdit db current changed
      → update_schedule changed expected now db ≡ ok (row, db')
      → WithinLimit db
      → WithinLimit db'
  unfolding update_schedule
  updated-WithinLimit id current changed row expected now db db' read same may h within session =
      let own : current.id ≡ id = id-find_schedule id db.schedules current read in
      let there : find_schedule current.id db.schedules ≡ some current =
        ap (λ k. find_schedule k db.schedules) own ∙ read in
      let (old, found, revision, put) =
        update_row-ok changed row expected now db db' (find_schedule changed.id db.schedules) h in
      let is_current : old ≡ current =
        some_injective (sym found ∙ ap (λ k. find_schedule k db.schedules) same ∙ there) in
      replaces session db db' current (edited changed now current) there
        (subst (λ o. db'.schedules ≡ put_schedule (edited changed now o) db.schedules) is_current
          put)
        (MayEdit-MayReplace session db current changed now may) within

  pub existing-ok :
      (o : Option ScheduleTask) (task : ScheduleTask)
      → existing o ≡ ok task
      → (o ≡ some task) × (is_deleted task.status ≡ false)
  existing-ok none task h = absurd (ground arith)
  existing-ok (some t) task h = elim (Bool-cases (is_deleted t.status)) [
    | inl gone ↦ absurd (ground (arith, gone, h))
    | inr there ↦
        let same : t ≡ task = ok_injective (rw there at h) in
        (ap some same, sym (ap (λ x. is_deleted x.status) same) ∙ there)
  ]

  pub require_room-ok : (n max : ℕ) (u : Unit {0}) → require_room n max ≡ ok u → n < max
  require_room-ok n max u h = ground arith
