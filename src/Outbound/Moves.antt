-- ===== src/Outbound/Moves.antt =====
-- The life of one delivery of src/application/outbound.py: the moves of its status, and the
-- invariant that bounds how often it was handed to the channel.
use text.Mathlib.Text.{◌==◌ as str_eq}
use text.Mathlib.TextEquality.{eq_iff}
use text.Mathlib.TextPositions.{eq_refl}
use i_ja_for_u.Base.{
  ℕ, ◌+◌, ◌≤◌, String, Bool, true, Option, none, some, List, [], ◌∷◌, ◌≡◌, refl, sym, ap, ◌∙◌,
  subst, inl, inr, if◌then◌else◌, Bool-cases, arith,
}
use i_ja_for_u.Domain.{
  DeliveryStatus, blocked, prepared, dispatching, sent, failed, dropped, unknown, ok,
  OutboundMessage, DeliveryReceipt,
}
use i_ja_for_u.Outbound.Store.{Store, Codec, write_delivery}
use i_ja_for_u.Outbound.Batches.{transition_delivery_to_prepared}
use i_ja_for_u.Outbound.Status.{
  status_of, status_of-write_delivery, status_of-transition, transition-allowed,
}
use i_ja_for_u.Outbound.Kept.{Prepares}

-- The statuses of a delivery that the channel has answered.
pub data IsFinal : DeliveryStatus → Type 0 where
  sent_final : IsFinal sent
  failed_final : IsFinal failed
  dropped_final : IsFinal dropped
  unknown_final : IsFinal unknown

-- The moves that a delivery can make; `none` is a delivery without a row.
pub data Moves : Option DeliveryStatus → Option DeliveryStatus → Type 0 where
  is_prepared_first : Moves none (some prepared)
  is_blocked_first : Moves none (some blocked)
  is_promoted : Moves (some blocked) (some prepared)
  is_retried : Moves (some failed) (some prepared)
  is_dispatched : Moves (some prepared) (some dispatching)
  is_answered : {st : DeliveryStatus} → IsFinal st → Moves (some dispatching) (some st)

-- A sequence of moves.
pub data Reaches (a : Option DeliveryStatus) : Option DeliveryStatus → Type 0 where
  stays : Reaches a a
  moves : {b c : Option DeliveryStatus} → Reaches a b → Moves b c → Reaches a c

-- How many sends a delivery may still cause without a retry.
abbrev pub credit : Option DeliveryStatus → ℕ
credit none = 1
credit (some prepared) = 1
credit (some blocked) = 1
credit (some _) = 0

-- How often a message was handed to the channel.
unfoldable pub sends_of : String → List String → ℕ
sends_of k [] = 0
sends_of k (id ∷ ids) = (if str_eq id k then 1 else 0) + sends_of k ids

credit-IsFinal : {st : DeliveryStatus} → IsFinal st → credit (some st) ≡ 0
credit-IsFinal sent_final = refl
credit-IsFinal failed_final = refl
credit-IsFinal dropped_final = refl
credit-IsFinal unknown_final = refl

-- `k` is a delivery, `o` the status it had at the start, and `n` counts its retries.
module _ (k : String) (o : Option DeliveryStatus) (n : ℕ) where
  abbrev pub Bounded : Store → List String → Type 0
  Bounded s l = (sends_of k l + credit (status_of k s) ≤ n) × Reaches o (status_of k s)

  -- A delivery with status `st`, about to go on.
  abbrev pub At : DeliveryStatus → String → Store → List String → Type 0
  At st id s l = (status_of id s ≡ some st) × Bounded s l

  -- `dispatching` is saved, and the send is still to be made.
  abbrev pub Armed : String → Store → List String → Type 0
  Armed id s l =
      (status_of id s ≡ some dispatching)
      × (((if str_eq id k then 1 else credit (status_of k s)) + sends_of k l ≤ n)
          × Reaches o (status_of k s))

  -- The status stays.
  pub Bounded-keeps :
      (s s' : Store) (l : List String) → status_of k s' ≡ status_of k s → Bounded s l → Bounded s' l
  Bounded-keeps s s' l e = subst (λ x. (sends_of k l + credit x ≤ n) × Reaches o x) (sym e)

  pub Bounded-le :
      (n' : ℕ) (s : Store) (l : List String)
      → n ≤ n'
      → Bounded s l
      → (sends_of k l + credit (status_of k s) ≤ n') × Reaches o (status_of k s)
  Bounded-le n' s l le (c, p) = (ground (arith, c, le), p)

  -- The status makes a move that gives no credit.
  move-Bounded :
      (s s' : Store) (l : List String) (x y : Option DeliveryStatus)
      → status_of k s ≡ x
      → status_of k s' ≡ y
      → Moves x y
      → credit y ≤ credit x
      → Bounded s l
      → Bounded s' l
  move-Bounded s s' l x y e e' m c (b, r) =
      (ground (arith, e, e', c, b), subst (Reaches o) (sym e') (moves (subst (Reaches o) e r) m))

  pub Bounded-Prepares :
      (s s' : Store) (l : List String)
      → Prepares (status_of k s) (status_of k s')
      → Bounded s l
      → Bounded s' l
  Bounded-Prepares s s' l (inl e) b = Bounded-keeps s s' l e b
  Bounded-Prepares s s' l (inr (e, inl e')) b =
      move-Bounded s s' l none (some prepared) e e' is_prepared_first (ground arith) b
  Bounded-Prepares s s' l (inr (e, inr e')) b =
      move-Bounded s s' l none (some blocked) e e' is_blocked_first (ground arith) b

  -- A save of a receipt for the delivery `m.id`, which has the status `x`.
  save-Bounded :
      (codec : Codec) (m : OutboundMessage) (r : DeliveryReceipt) (s : Store) (l : List String)
      (x : Option DeliveryStatus)
      → status_of m.id s ≡ x
      → Moves x (some r.status)
      → credit (some r.status) ≤ credit x
      → Bounded s l
      → Bounded (write_delivery codec m r s) l
  save-Bounded codec m r s l x e mv c b = elim (Bool-cases (str_eq m.id k)) [
    | inl same ↦
        let i : m.id ≡ k = (eq_iff m.id k).0 same in
        move-Bounded s (write_delivery codec m r s) l x (some r.status)
          (sym (ap (λ j. status_of j s) i) ∙ e)
          (ground (arith, same, status_of-write_delivery codec k m r s)) mv c b
    | inr other ↦
        Bounded-keeps s (write_delivery codec m r s) l
          (ground (arith, other, status_of-write_delivery codec k m r s)) b
  ]

  pub save-At :
      (codec : Codec) (m : OutboundMessage) (r : DeliveryReceipt) (s : Store) (l : List String)
      (x : Option DeliveryStatus)
      → status_of m.id s ≡ x
      → Moves x (some r.status)
      → credit (some r.status) ≤ credit x
      → Bounded s l
      → At r.status m.id (write_delivery codec m r s) l
  save-At codec m r s l x e mv c b = (
    ground (arith, eq_refl m.id, status_of-write_delivery codec m.id m r s),
    save-Bounded codec m r s l x e mv c b,
  )

  -- The answer of the channel, or `unknown` after a restart.
  pub save_final-Bounded :
      (codec : Codec) (m : OutboundMessage) (r : DeliveryReceipt) (s : Store) (l : List String)
      → IsFinal r.status
      → At dispatching m.id s l
      → Bounded (write_delivery codec m r s) l
  save_final-Bounded codec m r s l final (e, b) =
      save-Bounded codec m r s l (some dispatching) e (is_answered final)
        (ground (arith, credit-IsFinal final)) b

  pub save-Armed :
      (codec : Codec) (m : OutboundMessage) (r : DeliveryReceipt) (s : Store) (l : List String)
      → r.status ≡ dispatching
      → At prepared m.id s l
      → Armed m.id (write_delivery codec m r s) l
  save-Armed codec m r s l d (e, (c, p)) =
      let mv : Moves (some prepared) (some r.status) =
        subst (λ st. Moves (some prepared) (some st)) (sym d) is_dispatched in
      let saved : Bounded (write_delivery codec m r s) l =
        save-Bounded codec m r s l (some prepared) e mv (ground (arith, d)) (c, p) in
      (
        ground (arith, d, eq_refl m.id, status_of-write_delivery codec m.id m r s),
        (
          elim (Bool-cases (str_eq m.id k)) [
            | inl same ↦
                let i : m.id ≡ k = (eq_iff m.id k).0 same in
                ground (arith, same, sym (ap (λ j. status_of j s) i) ∙ e, c)
            | inr other ↦ ground (arith, other, status_of-write_delivery codec k m r s, c)
          ],
          saved.1,
        ),
      )

  pub send-At :
      (id : String) (s : Store) (l : List String) → Armed id s l → At dispatching id s (id ∷ l)
  unfolding sends_of
  send-At id s l (e, (c, p)) = elim (Bool-cases (str_eq id k)) [
    | inl same ↦
        let i : id ≡ k = (eq_iff id k).0 same in
        (e, (ground (arith, same, sym (ap (λ j. status_of j s) i) ∙ e, c), p))
    | inr other ↦ (e, (ground (arith, other, c), p))
  ]

  pub Armed-Bounded : (id : String) (s : Store) (l : List String) → Armed id s l → Bounded s l
  Armed-Bounded id s l (e, (c, p)) = elim (Bool-cases (str_eq id k)) [
    | inl same ↦
        let i : id ≡ k = (eq_iff id k).0 same in
        (ground (arith, same, sym (ap (λ j. status_of j s) i) ∙ e, c), p)
    | inr other ↦ (ground (arith, other, c), p)
  ]

-- A transition of the delivery `id` from the status `st` back to `prepared`.
module _ (k : String) (o : Option DeliveryStatus) (n n' : ℕ) where
  pub transition-Bounded :
      (allowed : DeliveryStatus → Bool) (st : DeliveryStatus) (id : String) (s s' : Store)
      (l : List String) (r : DeliveryReceipt)
      → ((x : DeliveryStatus) → allowed x ≡ true → x ≡ st)
      → Moves (some st) (some prepared)
      → n ≤ n'
      → (str_eq id k ≡ true → Reaches o (some st) → 1 + n ≤ credit (some st) + n')
      → transition_delivery_to_prepared allowed id s ≡ ok (r, s')
      → Bounded k o n s l
      → Bounded k o n' s' l
  transition-Bounded allowed st id s s' l r only mv le c e (b, p) =
      elim (Bool-cases (str_eq id k)) [
        | inl same ↦
            let i : id ≡ k = (eq_iff id k).0 same in
            let (x, found, ok_x) = transition-allowed allowed id s s' r e in
            let was : status_of k s ≡ some st =
              sym (ap (λ j. status_of j s) i) ∙ found ∙ ap some (only x ok_x) in
            let now : status_of k s' ≡ some prepared =
              ground (arith, same, status_of-transition allowed k id s s' r e) in
            (
              ground (arith, was, now, c same (subst (Reaches o) was p), b),
              subst (Reaches o) (sym now) (moves (subst (Reaches o) was p) mv),
            )
        | inr other ↦
            let keeps : status_of k s' ≡ status_of k s =
              ground (arith, other, status_of-transition allowed k id s s' r e) in
            (ground (arith, keeps, le, b), subst (Reaches o) (sym keeps) p)
      ]
