-- ===== src/GroupParticipation/Tests.antt =====
-- Runs of src/domain/group_participation.py, with the theorems applied to them.
use i_ja_for_u.Base.{
  ℕ, ◌+◌, ◌*◌, ◌/◌, ◌≤◌, Bool, false, none, some, List, [], ◌∷◌, ◌≡◌, refl, length, arith,
}
use i_ja_for_u.Domain.{ok}
use i_ja_for_u.GroupParticipation.{IntervalState, calculate_idle_backoff_seconds, observe_all}
use i_ja_for_u.GroupParticipation.Backoff.{calculate_idle_backoff_seconds-bounds}
use i_ja_for_u.GroupParticipation.Intervals.{in_order, observe_all-in_order}

calculate_idle_backoff_seconds-bounds_example :
    (60 ≤ calculate_idle_backoff_seconds 60 2)
    × (calculate_idle_backoff_seconds 60 2 ≤ calculate_idle_backoff_seconds 60 9)
    × (calculate_idle_backoff_seconds 60 9 ≤ 8 * 60)
calculate_idle_backoff_seconds-bounds_example =
    calculate_idle_backoff_seconds-bounds 60 2 9 (omega arith)

-- Numbers that stand for the floating-point ones.
abbrev seconds : ℕ → ℕ
seconds d = d

abbrev weighted : ℕ → ℕ → ℕ
weighted x y = (x + 3 * y) / 4

abbrev is_negative : ℕ → Bool
is_negative x = false

-- The second message comes too late.
abbrev arrivals : List ℕ
arrivals = 20 ∷ 15 ∷ 40 ∷ []

observe_all-in_order_example :
    (s : IntervalState ℕ) × ((observe_all seconds weighted is_negative arrivals
          (ok (record { last_external_at = some 10; ewma_seconds = none; sample_count = 0 }))
        ≡ ok s)
      × (observe_all seconds weighted is_negative
            (in_order 10 arrivals)
            (ok (record { last_external_at = some 10; ewma_seconds = none; sample_count = 0 }))
          ≡ ok s)
      × (s.sample_count ≡ 0 + length (in_order 10 arrivals)))
observe_all-in_order_example =
    observe_all-in_order seconds weighted is_negative (λ d. refl) (λ x y p q. refl) arrivals 10 none
      0 (refl, refl)
