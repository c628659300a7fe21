-- ===== src/GroupParticipation/Intervals.antt =====
-- The average of src/domain/group_participation.py against messages that come out of order.
use i_ja_for_u.Base.{
  ℕ, ◌+◌, ◌-◌, ◌==◌, Bool, true, false, not, Option, none, some, is_some, List, [], ◌∷◌, ◌≡◌, refl,
  ap, ◌∙◌, inl, inr, leb, if◌then◌else◌, length, Bool-cases, arith,
}
use i_ja_for_u.Domain.{ok}
use i_ja_for_u.GroupParticipation.{
  IntervalState, project_external_interval, observe_one, observe_all, next_ewma, is_negative_ewma,
}

-- The messages that are later than all before them and than `previous`.
unfoldable pub in_order : ℕ → List ℕ → List ℕ
in_order previous [] = []
in_order previous (t ∷ ts) =
    let rest = in_order t ts in
    let same = in_order previous ts in if leb t previous then same else t ∷ rest

module _ {F : Type 0} (total_seconds : ℕ → F) (weighted : F → F → F) (is_negative : F → Bool)
    (forward : (d : ℕ) → is_negative (total_seconds d) ≡ false)
    (mixes : (x y : F)
      → is_negative x ≡ false
      → is_negative y ≡ false
      → is_negative (weighted x y) ≡ false) where
  -- A state that the tests accept.
  abbrev pub IsSound : IntervalState F → Type 0
  IsSound s =
      ((if s.sample_count == 0 then is_some s.ewma_seconds else not (is_some s.ewma_seconds))
        ≡ false)
      × (is_negative_ewma total_seconds weighted is_negative s.ewma_seconds ≡ false)

  abbrev pub at_time : ℕ → Option F → ℕ → IntervalState F
  at_time t ewma count = record {
    last_external_at = some t;
    ewma_seconds = ewma;
    sample_count = count;
  }

  observe_late :
      (t u : ℕ) (ewma : Option F) (count : ℕ)
      → leb u t ≡ true
      → IsSound (at_time t ewma count)
      → observe_one total_seconds weighted is_negative (at_time t ewma count) u
        ≡ ok (at_time t ewma count)
  unfolding observe_one project_external_interval
  observe_late t u ewma count late (k, n) = ground (arith, late, k, n)

  -- The average that a later message leaves.
  abbrev next : ℕ → ℕ → Option F → Option F
  next t u ewma = some (next_ewma total_seconds weighted is_negative (total_seconds (u - t)) ewma)

  observe_later :
      (t u : ℕ) (ewma : Option F) (count : ℕ)
      → leb u t ≡ false
      → IsSound (at_time t ewma count)
      → observe_one total_seconds weighted is_negative (at_time t ewma count) u
        ≡ ok (at_time u (next t u ewma) (count + 1))
  unfolding observe_one project_external_interval
  observe_later t u ewma count later (k, n) = ground (arith, later, k, n)

  next-IsSound :
      (t u : ℕ) (ewma : Option F) (count : ℕ)
      → IsSound (at_time t ewma count)
      → IsSound (at_time u (next t u ewma) (count + 1))
  next-IsSound t u none count (k, n) = (ground arith, forward (u - t))
  next-IsSound t u (some x) count (k, n) =
      (ground arith, mixes (total_seconds (u - t)) x (forward (u - t)) n)

  -- Where a length of time is not negative, and a weighted sum of numbers that are not negative is
  -- not, and the stored average is not negative and there if and only if there are samples:
  -- whatever messages come, in any order, after a first one, no projection fails; what is stored is
  -- what the messages alone give that are later than all before them, so a message out of order
  -- changes nothing; and there is one sample more for each of them.
  pub observe_all-in_order :
      (ts : List ℕ) (t : ℕ) (ewma : Option F) (count : ℕ)
      → IsSound (at_time t ewma count)
      → (s : IntervalState F) × ((observe_all total_seconds weighted is_negative ts
              (ok (at_time t ewma count))
            ≡ ok s)
          × (observe_all total_seconds weighted is_negative
                (in_order t ts)
                (ok (at_time t ewma count))
              ≡ ok s)
          × (s.sample_count ≡ count + length (in_order t ts)))
  unfolding observe_all in_order
  observe_all-in_order [] t ewma count (k, n) = (at_time t ewma count, (refl, refl, omega arith))
  observe_all-in_order (u ∷ us) t ewma count sound = elim (Bool-cases (leb u t)) [
    | inl late ↦
        let (s, (one, two, three)) = observe_all-in_order us t ewma count sound in
        let stay = observe_late t u ewma count late sound in
        (
          s,
          (
            ap (observe_all total_seconds weighted is_negative us) stay ∙ one,
            rw late two,
            rw late three,
          ),
        )
    | inr later ↦
        let (s, (one, two, three)) =
          observe_all-in_order us u (next t u ewma) (count + 1)
            (next-IsSound t u ewma count sound) in
        let go = observe_later t u ewma count later sound in
        (
          s,
          (
            ap (observe_all total_seconds weighted is_negative us) go ∙ one,
            rw later (ap (observe_all total_seconds weighted is_negative (in_order u us)) go ∙ two),
            rw later (omega (arith, three)),
          ),
        )
  ]
