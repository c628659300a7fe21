-- ===== src/DelayedReply/Lookups.antt =====
-- The look-ups of plugins/delayed_reply/runtime.py in its batches and timers.
use text.Mathlib.Text.{◌==◌ as str_eq}
use text.Mathlib.TextEquality.{eq_iff}
use i_ja_for_u.Base.{
  ℕ, String, Bool, true, false, Option, none, some, List, [], ◌∷◌, ◌++◌, ◌==◌, ◌≡◌, refl, sym, ap,
  ◌∙◌, inl, inr, if◌then◌else◌, Bool-cases, arith,
}
use i_ja_for_u.DelayedReply.{
  PendingBatch, Timer, find_batch, put_batch, pop_batch, find_timer, remove_timer, cancel,
}

pub find_timer-remove :
    (m n : ℕ) (ts : List Timer)
    → find_timer m (remove_timer n ts) ≡ (if m == n then none else find_timer m ts)
unfolding find_timer remove_timer
find_timer-remove m n [] = ground arith
find_timer-remove m n (t ∷ ts) = ground (arith, find_timer-remove m n ts)

pub find_timer-snoc :
    (m : ℕ) (ts : List Timer) (t : Timer)
    → find_timer m (ts ++ t ∷ [])
      ≡ (elim (find_timer m ts) [ none ↦ (if t.task == m then some t else none) | some x ↦ some x ])
unfolding find_timer
find_timer-snoc m [] t = ground arith
find_timer-snoc m (x ∷ ts) t = ground (arith, find_timer-snoc m ts t)

pub find_batch-put :
    (k key : String) (b : PendingBatch) (bs : List (String × PendingBatch))
    → find_batch k (put_batch key b bs) ≡ (if str_eq key k then some b else find_batch k bs)
unfolding find_batch put_batch
find_batch-put k key b [] = ground arith
find_batch-put k key b ((j, c) ∷ bs) =
    ground (arith, eq_iff j key, eq_iff j k, eq_iff key k, find_batch-put k key b bs)

-- Each key stands once.
unfoldable pub Distinct : List (String × PendingBatch) → Type 0
Distinct [] = Unit
Distinct ((k, b) ∷ bs) = (find_batch k bs ≡ none) × Distinct bs

pub find_batch-pop :
    (k key : String) (bs : List (String × PendingBatch))
    → Distinct bs
    → find_batch k (pop_batch key bs) ≡ (if str_eq key k then none else find_batch k bs)
unfolding find_batch pop_batch Distinct
find_batch-pop k key [] d = ground arith
find_batch-pop k key ((j, c) ∷ bs) (missing, d) = elim (Bool-cases (str_eq j key)) [
  | inl same ↦
      let i : j ≡ key = (eq_iff j key).0 same in
      ground (
        arith,
        same,
        missing,
        eq_iff j k,
        eq_iff key k,
        ap (λ x. find_batch x bs) i,
        i,
        at_key missing i,
      )
  | inr other ↦
      ground (arith, other, eq_iff j key, eq_iff j k, eq_iff key k, find_batch-pop k key bs d)
]
  where
    at_key : find_batch j bs ≡ none → j ≡ key → str_eq key k ≡ true → find_batch k bs ≡ none
    at_key m i e = ap (λ x. find_batch x bs) (sym ((eq_iff key k).0 e) ∙ sym i) ∙ m

pub Distinct-put :
    (key : String) (b : PendingBatch) (bs : List (String × PendingBatch))
    → Distinct bs
    → Distinct (put_batch key b bs)
unfolding put_batch Distinct find_batch
Distinct-put key b [] d = (refl, tt)
Distinct-put key b ((j, c) ∷ bs) (missing, d) = by_key (str_eq j key) refl (Distinct-put key b bs d)
  where
    by_key :
        (x : Bool)
        → str_eq j key ≡ x
        → Distinct (put_batch key b bs)
        → Distinct (if x then (j, b) ∷ bs else (j, c) ∷ put_batch key b bs)
    by_key true e rest = (missing, d)
    by_key false e rest =
        (ground (arith, e, missing, eq_iff j key, eq_iff key j, find_batch-put j key b bs), rest)

pub Distinct-pop :
    (key : String) (bs : List (String × PendingBatch)) → Distinct bs → Distinct (pop_batch key bs)
unfolding pop_batch Distinct
Distinct-pop key [] d = tt
Distinct-pop key ((j, c) ∷ bs) (missing, d) = by_key (str_eq j key) (Distinct-pop key bs d)
  where
    by_key :
        (x : Bool)
        → Distinct (pop_batch key bs)
        → Distinct (if x then bs else (j, c) ∷ pop_batch key bs)
    by_key true rest = d
    by_key false rest = (ground (arith, missing, find_batch-pop j key bs d), rest)

pub cancel-found :
    (o : Option ℕ) (ts : List Timer) (j : ℕ) (t : Timer)
    → find_timer j (cancel o ts) ≡ some t
    → find_timer j ts ≡ some t
cancel-found none ts j t e = e
cancel-found (some m) ts j t e = ground (arith, e, find_timer-remove j m ts)
