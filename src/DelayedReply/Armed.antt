-- ===== src/DelayedReply/Armed.antt =====
-- That each batch of plugins/delayed_reply/runtime.py has a timer, and that arming one keeps it so.
use text.Mathlib.Text.{◌==◌ as str_eq}
use text.Mathlib.TextEquality.{eq_iff}
use i_ja_for_u.Base.{
  ℕ, ◌+◌, ◌<◌, String, false, Option, none, some, List, [], ◌∷◌, ◌++◌, ◌==◌, ◌≡◌, ◌≢◌, refl, sym,
  ap, ◌∙◌, subst, inl, inr, Bool-cases, Option-cases, arith,
}
use i_ja_for_u.DelayedReply.{
  PendingBatch, Timer, DelayedReplyPlugin, find_batch, find_timer, remove_timer, cancel, arm_timer,
  or_empty,
}
use i_ja_for_u.DelayedReply.Lookups.{
  find_timer-remove, find_timer-snoc, find_batch-put, Distinct, Distinct-put, cancel-found,
}

-- The timer of a batch is under way, for its key and its generation.
abbrev pub Live : String → PendingBatch → List Timer → Timer → Type 0
Live key b ts t =
    (b.timer ≡ some t.task)
    × (find_timer t.task ts ≡ some t)
    × (t.key ≡ key)
    × (t.generation ≡ b.generation)

-- The batches and timers of a plugin; `n` is the next task.
pub record Armed (bs : List (String × PendingBatch)) (ts : List Timer) (n : ℕ) : Type 0 where
  pub distinct : Distinct bs
  pub fresh : (m : ℕ) (t : Timer) → find_timer m ts ≡ some t → m < n
  pub live :
      (key : String) (b : PendingBatch) → find_batch key bs ≡ some b → (t : Timer) × Live key b ts t

abbrev pub IsArmed : DelayedReplyPlugin → Type 0
IsArmed s = Armed s.batches s.timers s.next_task

pub some-eq : {A : Type 0} {a b : A} → some a ≡ some b → a ≡ b
some-eq {A} {a} e = ap (λ (o : Option A). elim o [ some x ↦ x | none ↦ a ]) e

module _ (bs : List (String × PendingBatch)) (ts : List Timer) (n : ℕ) (h : Armed bs ts n) where
  -- Taking away the timer `m` leaves the timers of the other batches.
  pub remove-Live :
      (m : ℕ) (key : String) (b : PendingBatch)
      → find_batch key bs ≡ some b
      → b.timer ≢ some m
      → (t : Timer) × Live key b (remove_timer m ts) t
  remove-Live m key b found other =
      let (t, (timer, there, same, generation)) = h.live key b found in
      (
        t,
        (
          timer,
          elim (Bool-cases (t.task == m)) [
            | inl e ↦ absurd (other (timer ∙ ap some (ground (arith, e))))
            | inr e ↦ ground (arith, e, there, find_timer-remove t.task m ts)
          ],
          same,
          generation,
        ),
      )

  -- Two batches that wait have different timers.
  keys-eq :
      (key key' : String) (b b' : PendingBatch)
      → find_batch key bs ≡ some b
      → find_batch key' bs ≡ some b'
      → (m : ℕ) → b.timer ≡ some m
      → b'.timer ≡ some m
      → key ≡ key'
  keys-eq key key' b b' found found' m e e' =
      let (t, (timer, there, same, _)) = h.live key b found in
      let (t', (timer', there', same', _)) = h.live key' b' found' in
      let j : t.task ≡ t'.task = some-eq (sym timer ∙ e ∙ sym e' ∙ timer') in
      let k : t ≡ t' = some-eq (sym there ∙ ap (λ i. find_timer i ts) j ∙ there') in
      sym same ∙ ap (λ x. x.key) k ∙ same'

  -- Cancelling the timer of one batch leaves those of the others.
  cancel-Live :
      (o : Option ℕ) (key key' : String) (b' : PendingBatch)
      → o ≡ (or_empty (find_batch key bs)).timer
      → str_eq key key' ≡ false
      → find_batch key' bs ≡ some b'
      → (t : Timer) × Live key' b' (cancel o ts) t
  cancel-Live none key key' b' e other found = h.live key' b' found
  cancel-Live (some m) key key' b' e other found = remove-Live m key' b' found (λ e'.
      elim (Option-cases (find_batch key bs)) [
        | inl missing ↦ absurd (ground (arith, e, missing))
        | inr (b, there) ↦ absurd (
            ground (
              arith,
              other,
              eq_iff key key',
              keys-eq key key' b b' there found m (ground (arith, e, there)) e',
            ))
      ])

pub arm_timer-IsArmed :
    (key : String) (b : PendingBatch) (delay : ℕ) (s : DelayedReplyPlugin)
    → b.timer ≡ (or_empty (find_batch key s.batches)).timer
    → IsArmed s
    → IsArmed (arm_timer key b delay s)
unfolding arm_timer
arm_timer-IsArmed key b delay s e h =
    let new : PendingBatch = record b { generation = b.generation + 1; timer = some s.next_task } in
    let t : Timer = record {
      task = s.next_task;
      key = key;
      generation = b.generation + 1;
      delay = delay;
    } in
    let ts : List Timer = cancel b.timer s.timers in
    record {
      distinct = Distinct-put key new s.batches h.distinct;
      fresh = λ m x found. elim (Option-cases (find_timer m ts)) [
        | inl missing ↦ ground (arith, missing, found, find_timer-snoc m ts t)
        | inr (y, there) ↦ ground (arith, h.fresh m y (cancel-found b.timer s.timers m y there))
      ];
      live = λ key' b' found. elim (Bool-cases (str_eq key key')) [
        | inl same ↦
            let is_new : new ≡ b' =
              some-eq (ground (arith, same, found, find_batch-put key' key new s.batches)) in
            let unused : find_timer s.next_task ts ≡ none =
              elim (Option-cases (find_timer s.next_task ts)) [
                | inl missing ↦ missing
                | inr (y, there) ↦ absurd (
                    ground (
                      arith,
                      h.fresh s.next_task y (cancel-found b.timer s.timers s.next_task y there),
                    ))
              ] in
            subst (λ x. (u : Timer) × Live key' x (ts ++ t ∷ []) u) is_new
              (
                t,
                (
                  refl,
                  ground (arith, unused, find_timer-snoc s.next_task ts t),
                  (eq_iff key key').0 same,
                  refl,
                ),
              )
        | inr other ↦
            let before : find_batch key' s.batches ≡ some b' =
              ground (arith, other, found, find_batch-put key' key new s.batches) in
            let (x, (timer, there, same, generation)) =
              cancel-Live s.batches s.timers s.next_task h b.timer key key' b' e other before in
            (x, (timer, ground (arith, there, find_timer-snoc x.task ts t), same, generation))
      ];
    }
