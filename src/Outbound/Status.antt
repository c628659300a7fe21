-- ===== src/Outbound/Status.antt =====
-- The status of one delivery, and what the transactions of
-- src/adapters/persistence/repositories/outbound.py do to it.
use text.Mathlib.Text.{◌==◌ as str_eq}
use text.Mathlib.TextEquality.{eq_iff}
use i_ja_for_u.Base.{
  String, Bool, true, false, Option, none, some, List, [], ◌∷◌, ◌++◌, ◌≡◌, refl, ap, inl, inr,
  if◌then◌else◌, Bool-cases, Option-cases, arith,
}
use i_ja_for_u.Domain.{
  DeliveryStatus, prepared, ok, err, runtime_error, Result, OutboundMessage, DeliveryReceipt,
}
use i_ja_for_u.Outbound.Store.{
  OutboundAttemptRow, Store, Codec, find_attempt, update_attempt, write_delivery, save_delivery,
  can_save, get_delivery, new_attempt, write_receipt, option_map,
}
use i_ja_for_u.Outbound.Batches.{back_to_prepared, transition_delivery_to_prepared}

abbrev pub row_status : Option OutboundAttemptRow → Option DeliveryStatus
row_status = option_map (λ row. row.status)

-- The status that the store has for an outbound id.
unfoldable pub status_of : String → Store → Option DeliveryStatus
status_of k s = row_status (find_attempt k s.attempts)

pub find_attempt-snoc :
    (k : String) (rows : List OutboundAttemptRow) (row : OutboundAttemptRow)
    → row_status (find_attempt k (rows ++ row ∷ [])) ≡ (elim (find_attempt k rows) [
      | none ↦ (if str_eq row.outbound_id k then some row.status else none)
      | some r ↦ some r.status
    ])
unfolding find_attempt
find_attempt-snoc k [] row = ground arith
find_attempt-snoc k (r ∷ rows) row = ground (arith, find_attempt-snoc k rows row)

-- `f` changes the rows of `id`, keeps their id, and gives them the status `st`.
find_attempt-update :
    (k id : String) (f : OutboundAttemptRow → OutboundAttemptRow) (st : DeliveryStatus)
    (rows : List OutboundAttemptRow)
    → ((r : OutboundAttemptRow) → (f r).outbound_id ≡ r.outbound_id)
    → ((r : OutboundAttemptRow) → (f r).status ≡ st)
    → row_status (find_attempt k (update_attempt id f rows)) ≡ (
        if str_eq id k
        then option_map (λ _. st) (find_attempt k rows)
        else row_status (find_attempt k rows))
unfolding find_attempt update_attempt
find_attempt-update k id f st [] keeps sets = ground arith
find_attempt-update k id f st (r ∷ rows) keeps sets = ground (
  arith,
  keeps r,
  sets r,
  eq_iff r.outbound_id id,
  eq_iff r.outbound_id k,
  eq_iff id k,
  find_attempt-update k id f st rows keeps sets,
)

-- `f` keeps the id and the status of every row.
pub find_attempt-update_same :
    (k id : String) (f : OutboundAttemptRow → OutboundAttemptRow) (rows : List OutboundAttemptRow)
    → ((r : OutboundAttemptRow) → (f r).outbound_id ≡ r.outbound_id)
    → ((r : OutboundAttemptRow) → (f r).status ≡ r.status)
    → row_status (find_attempt k (update_attempt id f rows)) ≡ row_status (find_attempt k rows)
unfolding find_attempt update_attempt
find_attempt-update_same k id f [] keeps same = refl
find_attempt-update_same k id f (r ∷ rows) keeps same =
    ground (arith, keeps r, same r, find_attempt-update_same k id f rows keeps same)

abbrev stored : Store → Result (Unit {0} × Store) → Store
stored s (ok (u, s')) = s'
stored s (err e) = s

-- A save that does not raise writes.
pub save_delivery-ok :
    (codec : Codec) (m : OutboundMessage) (r : DeliveryReceipt) (s s' : Store) (u : Unit {0})
    → save_delivery codec m r s ≡ ok (u, s')
    → write_delivery codec m r s ≡ s'
unfolding save_delivery
save_delivery-ok codec m r s s' u e = by_case (can_save codec m s) e
  where
    by_case :
        (b : Bool)
        → ◌≡◌ {A = Result (Unit {0} × Store)}
            (if b then ok (tt, write_delivery codec m r s) else err runtime_error)
            (ok (u, s'))
        → write_delivery codec m r s ≡ s'
    by_case true h = ap (stored s) h
    by_case false h = absurd (ground arith)

-- Saving a receipt sets the status of its message, and no other.
pub status_of-write_delivery :
    (codec : Codec) (k : String) (m : OutboundMessage) (r : DeliveryReceipt) (s : Store)
    → status_of k (write_delivery codec m r s)
      ≡ (if str_eq m.id k then some r.status else status_of k s)
unfolding status_of write_delivery
status_of-write_delivery codec k m r s = elim (Option-cases (find_attempt m.id s.attempts)) [
  | inl e ↦ elim (Bool-cases (str_eq m.id k)) [
    | inl same ↦
        let i : m.id ≡ k = (eq_iff m.id k).0 same in
        ground (
          arith,
          e,
          same,
          ap (λ j. find_attempt j s.attempts) i,
          find_attempt-snoc k s.attempts (new_attempt codec s.next_id m r),
        )
    | inr other ↦
        ground (arith, e, other, find_attempt-snoc k s.attempts (new_attempt codec s.next_id m r))
  ]
  | inr (row, e) ↦ elim (Bool-cases (str_eq m.id k)) [
    | inl same ↦
        let i : m.id ≡ k = (eq_iff m.id k).0 same in
        ground (
          arith,
          e,
          same,
          ap (λ j. find_attempt j s.attempts) i,
          find_attempt-update k m.id (write_receipt codec m r) r.status s.attempts (λ x. refl)
              (λ x. refl),
        )
    | inr other ↦ ground (
      arith,
      e,
      other,
      find_attempt-update k m.id (write_receipt codec m r) r.status s.attempts (λ x. refl)
          (λ x. refl),
    )
  ]
]

pub status_of-transition :
    (allowed : DeliveryStatus → Bool) (k id : String) (s s' : Store) (r : DeliveryReceipt)
    → transition_delivery_to_prepared allowed id s ≡ ok (r, s')
    → status_of k s' ≡ (if str_eq id k then some prepared else status_of k s)
unfolding status_of transition_delivery_to_prepared
status_of-transition allowed k id s s' r e = elim (Option-cases (find_attempt id s.attempts)) [
  | inl missing ↦ ground arith
  | inr (row, found) ↦ elim (Bool-cases (str_eq id k)) [
    | inl same ↦
        let i : id ≡ k = (eq_iff id k).0 same in
        ground (
          arith,
          found,
          same,
          ap (λ j. find_attempt j s.attempts) i,
          find_attempt-update k id back_to_prepared prepared s.attempts (λ x. refl) (λ x. refl),
        )
    | inr other ↦ ground (
      arith,
      found,
      other,
      find_attempt-update k id back_to_prepared prepared s.attempts (λ x. refl) (λ x. refl),
    )
  ]
]

-- A transition happens from an allowed status.
pub transition-allowed :
    (allowed : DeliveryStatus → Bool) (id : String) (s s' : Store) (r : DeliveryReceipt)
    → transition_delivery_to_prepared allowed id s ≡ ok (r, s')
    → (st : DeliveryStatus) × (status_of id s ≡ some st) × (allowed st ≡ true)
unfolding status_of transition_delivery_to_prepared
transition-allowed allowed id s s' r e = elim (Option-cases (find_attempt id s.attempts)) [
  | inl missing ↦ absurd (ground arith)
  | inr (row, found) ↦ (row.status, ground (arith, found), ground (arith, found))
]

pub status_of-get_delivery :
    (k : String) (s : Store)
    → option_map (λ (r : DeliveryReceipt). r.status) (get_delivery k s) ≡ status_of k s
unfolding status_of get_delivery
status_of-get_delivery k s = ground arith
