-- ===== src/GroupParticipation.antt =====
-- src/domain/group_participation.py: the idle backoff of a group chat, and the running average of
-- the time between the messages of others. Counts and waits are natural numbers, so the tests for
-- negative ones have no counterpart. Floating-point numbers are a parameter.
pub mod Intervals
pub mod Backoff
mod Tests
use i_ja_for_u.Base.{
  ℕ, zero, suc, ◌+◌, ◌-◌, ◌*◌, ◌==◌, Bool, true, false, not, Option, none, some, is_some, List, [],
  ◌∷◌, min, leb, if◌then◌else◌, length, get_elem?,
}
use i_ja_for_u.Domain.{Result, ok, err, invalid_input}

abbrev pub idle_backoff_multipliers : List ℕ
idle_backoff_multipliers = 1 ∷ 1 ∷ 2 ∷ 3 ∷ 5 ∷ 8 ∷ []

abbrev pub or_zero : Option ℕ → ℕ
or_zero none = 0
or_zero (some n) = n

-- The index is never out of range.
unfoldable pub calculate_idle_backoff_seconds : (cooldown_seconds idle_streak : ℕ) → ℕ
calculate_idle_backoff_seconds cooldown streak =
    cooldown
    * or_zero
        (get_elem? idle_backoff_multipliers (min streak (length idle_backoff_multipliers - 1)))

pub record ExternalIntervalProjection (F : Type 0) : Type 0 where
  pub observed_seconds : Option F
  pub ewma_seconds : Option F
  pub sample_count : ℕ
  pub last_external_at : ℕ

-- What is stored between two messages.
pub record IntervalState (F : Type 0) : Type 0 where
  pub last_external_at : Option ℕ
  pub ewma_seconds : Option F
  pub sample_count : ℕ

-- `total_seconds` of a number of microseconds, the weighted sum with the weight 0.25 on its first
-- argument, and the test `< 0`.
module _ {F : Type 0} (total_seconds : ℕ → F) (weighted : F → F → F) (is_negative : F → Bool) where
  abbrev pub next_ewma : F → Option F → F
  next_ewma observed none = observed
  next_ewma observed (some current) = weighted observed current

  abbrev pub is_negative_ewma : Option F → Bool
  is_negative_ewma none = false
  is_negative_ewma (some x) = is_negative x

  -- The part of `project_external_interval` after its tests.
  abbrev pub project_from :
      Option ℕ → (external_at : ℕ) → Option F → (count : ℕ) → ExternalIntervalProjection F
  project_from none t ewma count = record {
    observed_seconds = none;
    ewma_seconds = ewma;
    sample_count = count;
    last_external_at = t;
  }
  project_from (some previous) t ewma count =
      if leb t previous
      then record {
        observed_seconds = none;
        ewma_seconds = ewma;
        sample_count = count;
        last_external_at = previous;
      }
      else record {
        observed_seconds = some (total_seconds (t - previous));
        ewma_seconds = some (next_ewma (total_seconds (t - previous)) ewma);
        sample_count = count + 1;
        last_external_at = t;
      }

  unfoldable pub project_external_interval :
      Option ℕ → (external_at : ℕ) → Option F → (count : ℕ) → Result (ExternalIntervalProjection F)
  project_external_interval previous t ewma count =
      if (if count == 0 then is_some ewma else not (is_some ewma))
      then err invalid_input
      else if is_negative_ewma ewma
      then err invalid_input
      else ok (project_from previous t ewma count)

  abbrev pub stored : Result (ExternalIntervalProjection F) → Result (IntervalState F)
  stored (err e) = err e
  stored (ok p) = ok (record {
    last_external_at = some p.last_external_at;
    ewma_seconds = p.ewma_seconds;
    sample_count = p.sample_count;
  })

  -- The projection of one message after the other.
  unfoldable pub observe_one : IntervalState F → ℕ → Result (IntervalState F)
  observe_one s t =
      stored (project_external_interval s.last_external_at t s.ewma_seconds s.sample_count)

  unfoldable pub observe_all : List ℕ → Result (IntervalState F) → Result (IntervalState F)
  observe_all [] r = r
  observe_all (t ∷ ts) (err e) = err e
  observe_all (t ∷ ts) (ok s) = observe_all ts (observe_one s t)
