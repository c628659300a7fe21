-- ===== src/Schedules/Recurrence.antt =====
-- src/scheduling/recurrence.py. `str.strip` and `str.upper`, the times of a time zone and the rules of
-- dateutil are the fields of a calendar. A time that knows its zone is a number where it is stored.
use i_ja_for_u.Base.{
  begins_with, ℕ, zero, suc, ◌-◌, ◌*◌, min, String, Bool, true, false, not, ◌&&◌, ◌||◌, Option,
  none, some, List, [], ◌∷◌, leb, ltb, ◌==◌, if◌then◌else◌, length,
}
use i_ja_for_u.Domain.{invalid_input, Result, ok, err}
use i_ja_for_u.ToolRegistry.{codes}
use i_ja_for_u.Schedules.{ScheduleTask}

-- `rrulebase`: the occurrence after or before a time, or at it if the flag is set. How these compare
-- times, also by the wall clock of one zone, is theirs.
pub record Rule (Local : Type 0) : Type 0 where
  pub after : Local → Bool → Option Local
  pub before : Local → Bool → Option Local
  pub between : Local → Local → Bool → List Local

-- `datetime` with its `tzinfo` or without.
pub data Datetime : Type 0 where
  aware naive : ℕ → Datetime

-- `rrulestr` gives no rule where it raises, and an unknown time zone gives no time. `elapsed` is the
-- difference of two times of one zone in microseconds.
pub record Calendar : Type 1 where
  pub Local : Type 0
  pub strip_upper : String → String
  pub replace_tzinfo : ℕ → String → Option Local
  pub astimezone : ℕ → String → Option Local
  pub to_zone_of : Local → ℕ → Local
  pub at_utc : ℕ → Local
  pub to_utc : Local → ℕ
  pub microsecond_before : Local → Local
  pub elapsed : (first second : Local) → ℕ
  pub rrulestr : String → (dtstart : Local) → Option (Rule Local)

module _ {ℓ κ} {A : Type ℓ} {B : Type κ} where
  infixl 10 ◌>>=◌
  abbrev pub ◌>>=◌ : Result A → (A → Result B) → Result B
  ok a >>= f = f a
  err e >>= f = err e

-- `part in text`
unfoldable pub occurs_in : List ℕ → List ℕ → Bool
occurs_in part [] = begins_with part []
occurs_in part (c ∷ cs) = begins_with part (c ∷ cs) || occurs_in part cs

-- `text[n:]`
unfoldable pub drop_chars : ℕ → String → String
drop_chars zero s = s
drop_chars (suc n) String.[] = ""
drop_chars (suc n) (String.◌∷◌ c s) = drop_chars n s

-- A character of `[A-Z0-9=;,+-]`.
abbrev pub fits_rrule : ℕ → Bool
fits_rrule c =
    (leb b'A' c && leb c b'Z')
    || (leb b'0' c && leb c b'9')
    || (c == b'=')
    || (c == b';')
    || (c == b',')
    || (c == b'+')
    || (c == b'-')

unfoldable pub all_fit : List ℕ → Bool
all_fit [] = true
all_fit (c ∷ cs) = fits_rrule c && all_fit cs

abbrev pub has_text : List ℕ → Bool
has_text [] = false
has_text (c ∷ cs) = true

abbrev pub without_prefix : String → String
without_prefix value =
    if begins_with (codes "RRULE:") (codes value) then drop_chars 6 value else value

module _ (cal : Calendar) where
  -- A text of the allowed characters is not empty and has no line break.
  unfoldable pub normalize_rrule : String → Result String
  normalize_rrule raw =
      let value : String = without_prefix (cal.strip_upper raw) in
      if not (has_text (codes value)) || not (all_fit (codes value))
      then err invalid_input
      else if occurs_in (codes "FREQ=SECONDLY") (codes value)
      then err invalid_input
      else if not (occurs_in (codes "FREQ=") (codes value))
      then err invalid_input
      else ok value

  abbrev pub known_zone : Option cal.Local → Result cal.Local
  known_zone none = err invalid_input
  known_zone (some t) = ok t

  unfoldable pub aware_in_timezone : Datetime → String → Result cal.Local
  aware_in_timezone (naive t) timezone = known_zone (cal.replace_tzinfo t timezone)
  aware_in_timezone (aware t) timezone = known_zone (cal.astimezone t timezone)

  abbrev pub parsed : Option (Rule cal.Local) → Result (Rule cal.Local)
  parsed none = err invalid_input
  parsed (some rule) = ok rule

  abbrev pub is_too_short : ℕ → cal.Local → Option cal.Local → Bool
  is_too_short minimum first none = false
  is_too_short minimum first (some second) = ltb (cal.elapsed first second) (minimum * 60000000)

  abbrev pub checked_rule :
      (minimum_interval_minutes : ℕ)
      → (start : cal.Local) → String
      → Rule cal.Local
      → Option cal.Local
      → Result (cal.Local × String × Rule cal.Local)
  checked_rule minimum start normalized rule none = err invalid_input
  checked_rule minimum start normalized rule (some first) =
      if is_too_short minimum first (rule.after first false)
      then err invalid_input
      else ok (start, normalized, rule)

  unfoldable pub build_rule :
      (dtstart : Datetime)
      → (timezone rrule_text : String) → (minimum_interval_minutes : ℕ)
      → Result (cal.Local × String × Rule cal.Local)
  build_rule dtstart timezone rrule_text minimum = do
    normalized ← normalize_rrule rrule_text
    start ← aware_in_timezone dtstart timezone
    rule ← parsed (cal.rrulestr normalized start)
    checked_rule minimum start normalized rule (rule.after (cal.microsecond_before start) true)

  abbrev pub utc : Option cal.Local → Option ℕ
  utc none = none
  utc (some t) = some (cal.to_utc t)

  unfoldable pub next_occurrence :
      ScheduleTask → (after : Datetime) → (inclusive : Bool) → Result (Option ℕ)
  next_occurrence task after inclusive = do
    built ← build_rule (aware task.dtstart) task.timezone task.rrule 1
    local_after ← aware_in_timezone after task.timezone
    ok (utc (built.2.after local_after inclusive))

  abbrev pub due_of :
      (local_now : cal.Local)
      → Rule cal.Local
      → Result cal.Local
      → Option cal.Local
      → Result (Option (ℕ × Option ℕ × ℕ))
  due_of now rule from none = ok none
  due_of now rule from (some latest) = from >>= λ first. ok (
      some (
        cal.to_utc latest,
        utc (rule.after now false),
        min 10000 (length (rule.between first latest true) - 1),
      ))

  abbrev pub due_at : ScheduleTask → (now next_run : ℕ) → Result (Option (ℕ × Option ℕ × ℕ))
  due_at task now next_run =
      if ltb now next_run
      then ok none
      else build_rule (aware task.dtstart) task.timezone task.rrule 1 >>= λ built.
          aware_in_timezone (aware now) task.timezone >>= λ local_now.
          due_of local_now built.2 (aware_in_timezone (aware next_run) task.timezone)
            (built.2.before local_now true)

  abbrev pub due_if : ScheduleTask → (now : ℕ) → Option ℕ → Result (Option (ℕ × Option ℕ × ℕ))
  due_if task now none = ok none
  due_if task now (some next_run) = due_at task now next_run

  -- The latest time that is due, the next time, and how many times were missed.
  unfoldable pub coalesced_due : ScheduleTask → (now : ℕ) → Result (Option (ℕ × Option ℕ × ℕ))
  coalesced_due task now = due_if task now task.next_run_at
