-- ===== src/GroupParticipation/Backoff.antt =====
-- The bounds of the idle backoff of src/domain/group_participation.py.
use i_ja_for_u.Base.{
  ℕ, zero, suc, ◌*◌, ◌≤◌, min, get_elem?, ◌≡◌, ap, inl, inr, leb, leb→le, Bool-cases, arith,
}
use i_ja_for_u.GroupParticipation.{
  calculate_idle_backoff_seconds, idle_backoff_multipliers, or_zero,
}

abbrev multiplier : ℕ → ℕ
multiplier i = or_zero (get_elem? idle_backoff_multipliers i)

multiplier-step : (i : ℕ) → suc i ≤ 5 → multiplier i ≤ multiplier (suc i)
multiplier-step zero h = omega arith
multiplier-step (suc zero) h = omega arith
multiplier-step (suc (suc zero)) h = omega arith
multiplier-step (suc (suc (suc zero))) h = omega arith
multiplier-step (suc (suc (suc (suc zero)))) h = omega arith
multiplier-step (suc (suc (suc (suc (suc i))))) h = absurd (omega arith)

multiplier-eq : (i j : ℕ) → i ≡ j → multiplier i ≤ multiplier j
multiplier-eq i j e = omega (arith, ap multiplier e)

multiplier_mono : (i j : ℕ) → i ≤ j → j ≤ 5 → multiplier i ≤ multiplier j
multiplier_mono i zero h k = multiplier-eq i zero (omega arith)
multiplier_mono i (suc j) h k = elim (Bool-cases (leb i j)) [
  | inl below ↦
      omega (arith, multiplier_mono i j (leb→le i j below) (omega arith), multiplier-step j k)
  | inr last ↦ multiplier-eq i (suc j) (ground (arith, last))
]

mul_mono : (c a b : ℕ) → a ≤ b → c * a ≤ c * b
mul_mono zero a b h = ground arith
mul_mono (suc c) a b h = ground (arith, mul_mono c a b h)

-- The backoff grows with the streak, and lies between the cooldown and eight times the cooldown.
pub calculate_idle_backoff_seconds-bounds :
    (cooldown streak longer : ℕ)
    → streak ≤ longer
    → (cooldown ≤ calculate_idle_backoff_seconds cooldown streak)
      × (calculate_idle_backoff_seconds cooldown streak
          ≤ calculate_idle_backoff_seconds cooldown longer)
      × (calculate_idle_backoff_seconds cooldown longer ≤ 8 * cooldown)
unfolding calculate_idle_backoff_seconds
calculate_idle_backoff_seconds-bounds cooldown streak longer h = (
  omega (
    arith,
    mul_mono cooldown 1 (multiplier (min streak 5))
        (multiplier_mono 0 (min streak 5) (omega arith) (omega arith)),
  ),
  mul_mono cooldown (multiplier (min streak 5)) (multiplier (min longer 5))
      (multiplier_mono (min streak 5) (min longer 5) (omega arith) (omega arith)),
  omega (
    arith,
    mul_mono cooldown (multiplier (min longer 5)) 8
        (multiplier_mono (min longer 5) 5 (omega arith) (omega arith)),
  ),
)
