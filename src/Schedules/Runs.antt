-- ===== src/Schedules/Runs.antt =====
-- The runs of src/adapters/persistence/repositories/schedule.py: a time of a task is claimed once.
use text.Mathlib.TextEquality.{eq_iff}
use i_ja_for_u.Base.{
  ℕ, Bool, true, false, Option, none, some, List, [], ◌∷◌, ◌++◌, ◌≡◌, refl, sym, ap, ◌∙◌, subst,
  is_some, ◌==◌, Bool-cases, Option-cases, inl, inr, arith,
}
use i_ja_for_u.Domain.{ok}
use i_ja_for_u.Schedules.{
  ScheduleTask, ScheduleRun, Tables, find_schedule, create_schedule, update_schedule, update_row,
  save_schedule_runtime, add_row, write_runtime, same_slot, find_run, claim, create_schedule_run,
  write_run, has_run_id, has_session, has_keys, add_run, save_schedule_run, is_deleted,
}
use i_ja_for_u.Schedules.Revisions.{
  Write, creates, updates, saves_runtime, creates_run, saves_run, Writes, nothing, then_writes,
  ok_injective, checked_ok,
}

-- The time of a run has a row.
abbrev pub is_claimed : ScheduleRun → Tables → Bool
is_claimed run db = is_some (find_run run db.runs)

find_run-append :
    (run new : ScheduleRun) (rows : List ScheduleRun)
    → is_some (find_run run rows) ≡ true
    → is_some (find_run run (rows ++ new ∷ [])) ≡ true
unfolding find_run
find_run-append run new [] h = absurd (ground arith)
find_run-append run new (r ∷ rows) h = elim (Bool-cases (same_slot r run)) [
  | inl same ↦ rw same refl
  | inr other ↦ rw other (find_run-append run new rows (rw other at h))
]

find_run-write_run :
    (run new : ScheduleRun) (rows : List ScheduleRun)
    → is_some (find_run run (write_run new rows)) ≡ is_some (find_run run rows)
unfolding find_run write_run
find_run-write_run run new [] = refl
find_run-write_run run new (r ∷ rows) = ground (arith, find_run-write_run run new rows)

find_run-own :
    (run : ScheduleRun) (rows : List ScheduleRun) → is_some (find_run run (rows ++ run ∷ [])) ≡ true
unfolding find_run
find_run-own run [] = ground (arith, eq_iff run.schedule_id run.schedule_id)
find_run-own run (r ∷ rows) = elim (Bool-cases (same_slot r run)) [
  | inl same ↦ rw same refl
  | inr other ↦ rw other (find_run-own run rows)
]

-- Runs of the same time find the same row.
find_run-same_slot :
    (run other : ScheduleRun) (rows : List ScheduleRun)
    → same_slot run other ≡ true
    → find_run run rows ≡ find_run other rows
unfolding find_run
find_run-same_slot run other [] h = refl
find_run-same_slot run other (r ∷ rows) h = ground (
  arith,
  eq_iff run.schedule_id other.schedule_id,
  eq_iff r.schedule_id run.schedule_id,
  eq_iff r.schedule_id other.schedule_id,
  find_run-same_slot run other rows,
)

find_run-slot :
    (run row : ScheduleRun) (rows : List ScheduleRun)
    → find_run run rows ≡ some row
    → same_slot row run ≡ true
unfolding find_run
find_run-slot run row [] h = absurd (ground arith)
find_run-slot run row (r ∷ rows) h = elim (Bool-cases (same_slot r run)) [
  | inl same ↦ ground (arith, same, h)
  | inr other ↦ find_run-slot run row rows (rw other at h)
]

-- Transactions on tasks leave the runs.
add_row-runs :
    (task : ScheduleTask) (db db' : Tables) (o : Option ScheduleTask)
    → add_row task db o ≡ ok db'
    → db'.runs ≡ db.runs
add_row-runs task db db' none h =
    sym (ap (λ d. d.runs) (checked_ok (has_session task.session_id db.sessions) _ h))
add_row-runs task db db' (some row) h = absurd (ground arith)

write_runtime-runs :
    (task : ScheduleTask) (db db' : Tables) (o : Option ScheduleTask)
    → write_runtime task db o ≡ ok db'
    → db'.runs ≡ db.runs
write_runtime-runs task db db' none h = absurd (ground arith)
write_runtime-runs task db db' (some row) h = sym (ap (λ d. d.runs) (ok_injective h))

update_row-runs :
    (task row : ScheduleTask) (expected now : ℕ) (db db' : Tables) (o : Option ScheduleTask)
    → update_row task expected now db o ≡ ok (row, db')
    → db'.runs ≡ db.runs
update_row-runs task row expected now db db' none h = absurd (ground arith)
update_row-runs task row expected now db db' (some old) h =
    elim (Bool-cases (is_deleted old.status)) [
      | inl gone ↦ absurd (ground (arith, gone, h))
      | inr there ↦ elim (Bool-cases (old.revision == expected)) [
        | inr changed ↦ absurd (ground (arith, there, changed, h))
        | inl same ↦ sym (ap (λ p. p.1.runs) (ok_injective (rw (there, same) at h)))
      ]
    ]

claims :
    (run new : ScheduleRun) (created : ScheduleRun × Bool) (db db' : Tables)
    (o : Option ScheduleRun)
    → claim new db o ≡ ok (created, db')
    → is_claimed run db ≡ true
    → is_claimed run db' ≡ true
claims run new created db db' none k h =
    subst (λ d. is_claimed run d ≡ true) (ap (λ c. c.1) (checked_ok (has_keys new db) _ k))
      (find_run-append run new db.runs h)
claims run new created db db' (some row) k h =
    subst (λ d. is_claimed run d ≡ true) (ap (λ c. c.1) (ok_injective k)) h

add_run-claims :
    (run new : ScheduleRun) (db db' : Tables) (o : Option ScheduleRun)
    → add_run new db o ≡ ok db'
    → is_claimed run db ≡ true
    → is_claimed run db' ≡ true
add_run-claims run new db db' none k h =
    subst (λ d. is_claimed run d ≡ true) (checked_ok (has_keys new db) _ k)
      (find_run-append run new db.runs h)
add_run-claims run new db db' (some row) k h = absurd (ground arith)

save_schedule_run-claims :
    (run new : ScheduleRun) (db db' : Tables)
    → save_schedule_run new db ≡ ok db'
    → is_claimed run db ≡ true
    → is_claimed run db' ≡ true
unfolding save_schedule_run
save_schedule_run-claims run new db db' k h = elim (Bool-cases (has_run_id new.id db.runs)) [
  | inl there ↦
      subst (λ d. is_claimed run d ≡ true) (ok_injective (rw there at k))
        (find_run-write_run run new db.runs ∙ h)
  | inr missing ↦ add_run-claims run new db db' (find_run new db.runs) (rw missing at k) h
]

-- A time that has a row keeps it.
Write-claims :
    (run : ScheduleRun) {db db' : Tables}
    → Write db db'
    → is_claimed run db ≡ true
    → is_claimed run db' ≡ true
unfolding create_schedule update_schedule save_schedule_runtime create_schedule_run
Write-claims run {db} {db'} (creates task e) h =
    ap (λ rows. is_some (find_run run rows))
      (add_row-runs task db db' (find_schedule task.id db.schedules) e)
    ∙ h
Write-claims run {db} {db'} (updates task row expected now e) h =
    ap (λ rows. is_some (find_run run rows))
      (update_row-runs task row expected now db db' (find_schedule task.id db.schedules) e)
    ∙ h
Write-claims run {db} {db'} (saves_runtime task e) h =
    ap (λ rows. is_some (find_run run rows))
      (write_runtime-runs task db db' (find_schedule task.id db.schedules) e)
    ∙ h
Write-claims run {db} {db'} (creates_run new created e) h =
    claims run new created db db' (find_run new db.runs) e h
Write-claims run {db} {db'} (saves_run new e) h = save_schedule_run-claims run new db db' e h

Writes-claims :
    (run : ScheduleRun) {db db' : Tables}
    → Writes db db'
    → is_claimed run db ≡ true
    → is_claimed run db' ≡ true
Writes-claims run nothing h = h
Writes-claims run (then_writes ws w) h = Write-claims run w (Writes-claims run ws h)

created_claims :
    (run : ScheduleRun) (created : ScheduleRun × Bool) (db db' : Tables)
    → create_schedule_run run db ≡ ok (created, db')
    → is_claimed run db' ≡ true
unfolding create_schedule_run
created_claims run created db db' = by_row (find_run run db.runs) refl
  where
    by_row :
        (o : Option ScheduleRun)
        → find_run run db.runs ≡ o
        → claim run db o ≡ ok (created, db')
        → is_claimed run db' ≡ true
    by_row none e k =
        subst (λ d. is_claimed run d ≡ true) (ap (λ c. c.1) (checked_ok (has_keys run db) _ k))
          (find_run-own run db.runs)
    by_row (some row) e k =
        subst (λ d. is_claimed run d ≡ true) (ap (λ c. c.1) (ok_injective k)) (ap is_some e)

-- After a call that asked for a run of a task at a time and did not raise, and whatever transactions
-- of src/adapters/persistence/repositories/schedule.py that write followed, another call for that
-- task and time creates nothing: it does not raise, changes no table, and returns the row that is
-- there. The deletion of a session is not among these transactions.
pub create_schedule_run-once :
    (run other : ScheduleRun) (created : ScheduleRun × Bool) (db db₁ db₂ : Tables)
    → create_schedule_run run db ≡ ok (created, db₁)
    → Writes db₁ db₂
    → same_slot run other ≡ true
    → (row : ScheduleRun) × (same_slot row other ≡ true)
      × (create_schedule_run other db₂ ≡ ok ((row, false), db₂))
unfolding create_schedule_run
create_schedule_run-once run other created db db₁ db₂ made ws same =
    elim (Option-cases (find_run other db₂.runs)) [
      | inl missing ↦ absurd (
          ground (
            arith,
            missing,
            find_run-same_slot run other db₂.runs same,
            Writes-claims run ws (created_claims run created db db₁ made),
          ))
      | inr (row, there) ↦ (row, find_run-slot other row db₂.runs there, ap (claim other db₂) there)
    ]
