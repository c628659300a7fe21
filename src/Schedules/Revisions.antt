-- ===== src/Schedules/Revisions.antt =====
-- The revisions of src/adapters/persistence/repositories/schedule.py: an edit that was made from an
-- old revision is refused, whatever happened since.
use text.Mathlib.Text.{◌==◌ as str_eq}
use text.Mathlib.TextEquality.{eq_iff}
use i_ja_for_u.Base.{
  ℕ, Bool, true, false, ◌+◌, ◌≤◌, String, Option, none, some, List, [], ◌∷◌, ◌++◌, ◌≡◌, ◌≢◌, refl,
  sym, ap, ◌∙◌, subst, inl, inr, if◌then◌else◌, ◌==◌, Bool-cases, arith,
}
use i_ja_for_u.Domain.{IjaError, Result, ok, err}
use i_ja_for_u.Schedules.{
  ScheduleTask, ScheduleRun, Tables, find_schedule, put_schedule, create_schedule, edited,
  update_row, add_row, write_runtime, update_schedule, runtime_of, save_schedule_runtime,
  create_schedule_run, claim, find_run, has_run_id, has_session, has_keys, add_run,
  save_schedule_run, is_deleted,
}
use i_ja_for_u.Schedules.Recurrence.{◌>>=◌}

-- One transaction of the repository that writes, with whatever its caller read before.
pub data Write : Tables → Tables → Type 0 where
  creates :
      {db db' : Tables} (task : ScheduleTask) → create_schedule task db ≡ ok db' → Write db db'
  updates :
      {db db' : Tables} (task row : ScheduleTask) (expected now : ℕ)
      → update_schedule task expected now db ≡ ok (row, db')
      → Write db db'
  saves_runtime :
      {db db' : Tables} (task : ScheduleTask)
      → save_schedule_runtime task db ≡ ok db'
      → Write db db'
  creates_run :
      {db db' : Tables} (run : ScheduleRun) (created : ScheduleRun × Bool)
      → create_schedule_run run db ≡ ok (created, db')
      → Write db db'
  saves_run :
      {db db' : Tables} (run : ScheduleRun) → save_schedule_run run db ≡ ok db' → Write db db'

pub data Writes (db : Tables) : Tables → Type 0 where
  nothing : Writes db db
  then_writes : {b c : Tables} → Writes db b → Write b c → Writes db c

-- A row stays, and its revision does not fall.
abbrev Grows : Option ScheduleTask → Option ScheduleTask → Type 0
Grows none o = Unit
Grows (some row) none = ⊥
Grows (some row) (some row') = row.revision ≤ row'.revision

Grows-refl : (o : Option ScheduleTask) → Grows o o
Grows-refl none = tt
Grows-refl (some row) = omega arith

Grows-trans : (a b c : Option ScheduleTask) → Grows a b → Grows b c → Grows a c
Grows-trans none b c h k = tt
Grows-trans (some x) none c h k = absurd h
Grows-trans (some x) (some y) none h k = absurd k
Grows-trans (some x) (some y) (some z) h k = omega arith

pub id-find_schedule :
    (id : String) (rows : List ScheduleTask) (row : ScheduleTask)
    → find_schedule id rows ≡ some row
    → row.id ≡ id
unfolding find_schedule
id-find_schedule id [] row h = absurd (ground arith)
id-find_schedule id (r ∷ rows) row h = ground (arith, eq_iff r.id id, id-find_schedule id rows row)

find_schedule-append :
    (id : String) (rows : List ScheduleTask) (task : ScheduleTask)
    → Grows (find_schedule id rows) (find_schedule id (rows ++ task ∷ []))
unfolding find_schedule
find_schedule-append id [] task = tt
find_schedule-append id (r ∷ rows) task = elim (Bool-cases (str_eq r.id id)) [
  | inl same ↦ rw same (omega arith)
  | inr other ↦ rw other (find_schedule-append id rows task)
]

pub find_schedule-put_schedule :
    (id : String) (rows : List ScheduleTask) (task row : ScheduleTask)
    → find_schedule task.id rows ≡ some row
    → find_schedule id (put_schedule task rows)
      ≡ (if str_eq task.id id then some task else find_schedule id rows)
unfolding find_schedule put_schedule
find_schedule-put_schedule id [] task row h = absurd (ground arith)
find_schedule-put_schedule id (r ∷ rows) task row h = ground (
  arith,
  eq_iff r.id task.id,
  eq_iff r.id id,
  eq_iff task.id id,
  find_schedule-put_schedule id rows task row,
)

put_schedule-Grows :
    (id : String) (rows : List ScheduleTask) (task row : ScheduleTask)
    → find_schedule task.id rows ≡ some row
    → row.revision ≤ task.revision
    → Grows (find_schedule id rows) (find_schedule id (put_schedule task rows))
put_schedule-Grows id rows task row h le =
    subst (Grows (find_schedule id rows)) (sym (find_schedule-put_schedule id rows task row h))
      (elim (Bool-cases (str_eq task.id id)) [
        | inl same ↦
            rw (same, sym (ap (λ k. find_schedule k rows) ((eq_iff task.id id).0 same)) ∙ h) le
        | inr other ↦ rw other (Grows-refl (find_schedule id rows))
      ])

-- A write to the row of a task that keeps its id and does not lower its revision.
written :
    (id key : String) (rows : List ScheduleTask) (row row' : ScheduleTask)
    → find_schedule key rows ≡ some row
    → row'.id ≡ row.id
    → row.revision ≤ row'.revision
    → Grows (find_schedule id rows) (find_schedule id (put_schedule row' rows))
written id key rows row row' h same le =
    put_schedule-Grows id rows row' row
      (ap (λ k. find_schedule k rows) (same ∙ id-find_schedule key rows row h) ∙ h) le

-- What a call that succeeds found on the way.
pub bind-ok :
    {A B : Type 0} (m : Result A) (f : A → Result B) (b : B)
    → (m >>= f) ≡ ok b
    → (a : A) × (m ≡ ok a) × (f a ≡ ok b)
bind-ok (ok a) f b h = (a, refl, h)
bind-ok (err e) f b h = absurd (ground arith)

pub ok_injective : {A : Type 0} {a b : A} → Result.ok a ≡ Result.ok b → a ≡ b
ok_injective {A} {a} e = ap (λ (r : Result A). elim r [ ok x ↦ x | err x ↦ a ]) e

-- What an update that succeeds found and wrote.
pub update_row-ok :
    (task row : ScheduleTask) (expected now : ℕ) (db db' : Tables) (o : Option ScheduleTask)
    → update_row task expected now db o ≡ ok (row, db')
    → (old : ScheduleTask) × (o ≡ some old)
      × (old.revision ≡ expected)
      × (db'.schedules ≡ put_schedule (edited task now old) db.schedules)
update_row-ok task row expected now db db' none h = absurd (ground arith)
update_row-ok task row expected now db db' (some old) h =
    elim (Bool-cases (is_deleted old.status)) [
      | inl gone ↦ absurd (ground (arith, gone, h))
      | inr there ↦ elim (Bool-cases (old.revision == expected)) [
        | inr changed ↦ absurd (ground (arith, there, changed, h))
        | inl same ↦ (
          old,
          refl,
          ground arith,
          sym (ap (λ p. p.1.schedules) (ok_injective (rw (there, same) at h))),
        )
      ]
    ]

-- What a check that succeeds returns.
pub checked_ok :
    {A : Type 0} {a b : A} (passes : Bool) (e : IjaError)
    → (if passes then ok a else err e) ≡ ok b
    → a ≡ b
checked_ok true e h = ok_injective h
checked_ok false e h = absurd (ground arith)

pub add_row-ok :
    (task : ScheduleTask) (db db' : Tables) (o : Option ScheduleTask)
    → add_row task db o ≡ ok db'
    → db'.schedules ≡ db.schedules ++ task ∷ []
add_row-ok task db db' none h =
    sym (ap (λ d. d.schedules) (checked_ok (has_session task.session_id db.sessions) _ h))
add_row-ok task db db' (some row) h = absurd (ground arith)

write_runtime-ok :
    (task : ScheduleTask) (db db' : Tables) (o : Option ScheduleTask)
    → write_runtime task db o ≡ ok db'
    → (row : ScheduleTask) × (o ≡ some row)
      × (db'.schedules ≡ put_schedule (runtime_of task row) db.schedules)
write_runtime-ok task db db' none h = absurd (ground arith)
write_runtime-ok task db db' (some row) h =
    (row, refl, sym (ap (λ d. d.schedules) (ok_injective h)))

same_schedules :
    (run : ScheduleRun) (db db' : Tables) (created : ScheduleRun × Bool)
    → create_schedule_run run db ≡ ok (created, db')
    → db'.schedules ≡ db.schedules
unfolding create_schedule_run
same_schedules run db db' created = by_row (find_run run db.runs)
  where
    by_row :
        (o : Option ScheduleRun) → claim run db o ≡ ok (created, db') → db'.schedules ≡ db.schedules
    by_row none h = sym (ap (λ c. c.1.schedules) (checked_ok (has_keys run db) _ h))
    by_row (some row) h = sym (ap (λ c. c.1.schedules) (ok_injective h))

saved_schedules :
    (run : ScheduleRun) (db db' : Tables)
    → save_schedule_run run db ≡ ok db'
    → db'.schedules ≡ db.schedules
unfolding save_schedule_run
saved_schedules run db db' h = elim (Bool-cases (has_run_id run.id db.runs)) [
  | inl there ↦ sym (ap (λ d. d.schedules) (ok_injective (rw there at h)))
  | inr missing ↦ by_row (find_run run db.runs) (rw missing at h)
]
  where
    by_row : (o : Option ScheduleRun) → add_run run db o ≡ ok db' → db'.schedules ≡ db.schedules
    by_row none k = sym (ap (λ d. d.schedules) (checked_ok (has_keys run db) _ k))
    by_row (some row) k = absurd (ground arith)

Write-Grows :
    (id : String) {db db' : Tables}
    → Write db db'
    → Grows (find_schedule id db.schedules) (find_schedule id db'.schedules)
unfolding create_schedule update_schedule save_schedule_runtime create_schedule_run
Write-Grows id {db} {db'} (creates task h) =
    subst (λ rows. Grows (find_schedule id db.schedules) (find_schedule id rows))
      (sym (add_row-ok task db db' (find_schedule task.id db.schedules) h))
      (find_schedule-append id db.schedules task)
Write-Grows id {db} {db'} (updates task row expected now h) =
    let (old, there, same, put) =
      update_row-ok task row expected now db db' (find_schedule task.id db.schedules) h in
    subst (λ rows. Grows (find_schedule id db.schedules) (find_schedule id rows)) (sym put)
      (written id task.id db.schedules old (edited task now old) there refl (omega arith))
Write-Grows id {db} {db'} (saves_runtime task h) =
    let (row, there, put) = write_runtime-ok task db db' (find_schedule task.id db.schedules) h in
    subst (λ rows. Grows (find_schedule id db.schedules) (find_schedule id rows)) (sym put)
      (written id task.id db.schedules row (runtime_of task row) there refl (omega arith))
Write-Grows id {db} {db'} (creates_run run created h) =
    subst (λ rows. Grows (find_schedule id db.schedules) (find_schedule id rows))
      (sym (same_schedules run db db' created h)) (Grows-refl (find_schedule id db.schedules))
Write-Grows id {db} {db'} (saves_run run h) =
    subst (λ rows. Grows (find_schedule id db.schedules) (find_schedule id rows))
      (sym (saved_schedules run db db' h)) (Grows-refl (find_schedule id db.schedules))

Writes-Grows :
    (id : String) {db db' : Tables}
    → Writes db db'
    → Grows (find_schedule id db.schedules) (find_schedule id db'.schedules)
Writes-Grows id {db} nothing = Grows-refl (find_schedule id db.schedules)
Writes-Grows id {db} {db'} (then_writes {b} ws w) =
    Grows-trans (find_schedule id db.schedules) (find_schedule id b.schedules)
      (find_schedule id db'.schedules) (Writes-Grows id ws) (Write-Grows id w)

Grows-revision :
    (n : ℕ) (o o' : Option ScheduleTask) (row row' : ScheduleTask)
    → Grows o o'
    → o ≡ some row
    → o' ≡ some row'
    → row.revision ≡ n
    → n ≤ row'.revision
Grows-revision n none o' row row' g e e' r = absurd (ground arith)
Grows-revision n (some x) none row row' g e e' r = absurd g
Grows-revision n (some x) (some y) row row' g e e' r = ground arith

there_after :
    (task before : ScheduleTask) (now : ℕ) (rows rows' : List ScheduleTask)
    → find_schedule task.id rows ≡ some before
    → rows' ≡ put_schedule (edited task now before) rows
    → find_schedule task.id rows' ≡ some (edited task now before)
there_after task before now rows rows' there put =
    let same : before.id ≡ task.id = id-find_schedule task.id rows before there in
    ap (find_schedule task.id) put
    ∙ find_schedule-put_schedule task.id rows (edited task now before) before
        (ap (λ k. find_schedule k rows) same ∙ there)
    ∙ rw ((eq_iff before.id task.id).1 same) refl

-- After an update from revision `expected` that succeeded, and whatever transactions of
-- src/adapters/persistence/repositories/schedule.py that write followed, each update of the task from
-- `expected` or an older revision is refused.
pub update_schedule-stale :
    (task row other : ScheduleTask) (expected now expected' now' : ℕ) (db db' db'' : Tables)
    (result : ScheduleTask × Tables)
    → update_schedule task expected now db ≡ ok (row, db')
    → Writes db' db''
    → other.id ≡ task.id
    → expected' ≤ expected
    → update_schedule other expected' now' db'' ≢ ok result
unfolding update_schedule
update_schedule-stale task row other expected now expected' now' db db' db'' result h ws same old
      h' =
    let (before, there, revision, put) =
      update_row-ok task row expected now db db' (find_schedule task.id db.schedules) h in
    let (after, there', revision', put') =
      update_row-ok other result.0 expected' now' db'' result.1
        (find_schedule other.id db''.schedules) h' in
    let now_there : find_schedule task.id db'.schedules ≡ some (edited task now before) =
      there_after task before now db.schedules db'.schedules there put in
    let later : expected + 1 ≤ after.revision =
      Grows-revision (expected + 1) (find_schedule task.id db'.schedules)
        (find_schedule task.id db''.schedules) (edited task now before) after
        (Writes-Grows task.id ws) now_there
        (sym (ap (λ k. find_schedule k db''.schedules) same) ∙ there') (omega arith) in
    absurd (omega arith)
